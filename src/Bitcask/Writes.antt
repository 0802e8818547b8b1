-- ===== src/Bitcask/Writes.antt =====
-- A record that is put into the buffer of src/bitcask.c shows in the map.
use mathlib.Core.Path.{subst}
use beansdb.Base.{
  ℕ, ◌+◌, ◌-◌, ◌%◌, ◌^◌, ◌≤◌, ◌<◌, ◌≡◌, refl, sym, ap, ◌∙◌, arith, Bool, true, inl, inr, Option,
  none, some, List, ◌++◌, length, All, All-append, if◌then◌else◌, length-append, Bool-cases, bit_or,
}
use beansdb.Base.Words.{IsByte}
use beansdb.Base.Masks.{bit_or-page}
use beansdb.HTree.{same_key}
use beansdb.HTree.Blocks.{same_key_iff}
use beansdb.Record.{Env, encode_record}
use beansdb.Record.RoundTrip.{IsFaithful}
use beansdb.Record.Stored.{IsLegal, encode_record-IsByte, length-encode_record_pages}
use beansdb.Bitcask.{Entry, Index, Bitcask, check_key, max_bucket_count}
use beansdb.Bitcask.Access.{put_record}
use beansdb.Bitcask.Shape.{IsShaped}
use beansdb.Bitcask.Stored.{in_wbuf, in_fbuf, in_file, Holds, Holds-append, Holds-end}
use beansdb.Bitcask.Ready.{IsReady, Keeps, Comes}
use beansdb.Bitcask.Spec.{Cell, Cells, record_of, put}
use beansdb.Bitcask.Refines.{Backs, Agrees, absent, present, Shows, Refines}

module _ (idx : Index) (env : Env) (limit : ℕ) (is_blank : ℕ → Bool) where
  abbrev State : Type 0
  State = Bitcask idx.Tree

  Agrees-Keeps :
      (bc bc' : State) (key : List ℕ) (mc : Option Cell)
      → idx.ht_get key bc'.tree ≡ idx.ht_get key bc.tree
      → Keeps idx env limit bc bc'
      → Agrees idx env is_blank bc key mc
      → Agrees idx env is_blank bc' key mc
  Agrees-Keeps bc bc' key none e keeps (absent q) = absent (e ∙ q)
  Agrees-Keeps bc bc' key (some c) e keeps (present entry c' q b) =
      present entry c (e ∙ q) (record {
        same_ver = b.same_ver;
        same_hash = b.same_hash;
        version = b.version;
        legal = b.legal;
        stored = keeps _ b.legal _ _ b.stored;
      })

  -- The map matters at the keys of the bitcask alone.
  pub Shows-local :
      (bc : State) (m m' : Cells)
      → ((key : List ℕ) → idx.takes key ≡ true → m' key ≡ m key)
      → Refines idx env is_blank limit bc m
      → Refines idx env is_blank limit bc m'
  Shows-local bc m m' same p = record {
    ready = p.ready;
    shows = record {
      shaped = p.shows.shaped;
      indexed = p.shows.indexed;
      agrees = λ key t k.
          subst (Agrees idx env is_blank bc key) (sym (same key t)) (p.shows.agrees key t k);
    };
  }

  -- A change of the buffers and files that keeps the records shows the same map.
  pub Keeps-Shows :
      (bc bc' : State) (m : Cells)
      → IsShaped bc'
      → bc'.tree ≡ bc.tree
      → Keeps idx env limit bc bc'
      → Shows idx env is_blank bc m
      → Shows idx env is_blank bc' m
  Keeps-Shows bc bc' m shaped same keeps s = record {
    shaped = shaped;
    indexed = subst idx.IsOk (sym same) s.indexed;
    agrees = λ key t k.
        Agrees-Keeps bc bc' key (m key) (ap (λ (x : idx.Tree). idx.ht_get key x) same) keeps
          (s.agrees key t k);
  }

  pub Comes-Refines :
      (n : ℕ) (bc bc' : State) (m : Cells)
      → Comes idx env limit n bc bc'
      → Refines idx env is_blank limit bc m
      → Refines idx env is_blank limit bc' m
  Comes-Refines n bc bc' m c p = record {
    ready = c.ready;
    shows = Keeps-Shows bc bc' m c.ready.shaped c.moves.same_tree c.moves.keeps p.shows;
  }

  -- An entry that is added shows its cell, the others stay.
  pub ht_add-Refines :
      (bc bc' : State) (m : Cells) (key : List ℕ) (e : Entry) (c : Cell)
      → idx.takes key ≡ true
      → IsReady idx env limit bc'
      → Keeps idx env limit bc bc'
      → bc'.tree ≡ idx.ht_add key e bc.tree
      → Backs idx env is_blank bc' key e c
      → Shows idx env is_blank bc m
      → Refines idx env is_blank limit bc' (put key c m)
  ht_add-Refines bc bc' m key e c t ready keeps added b sh = record {
    ready = ready;
    shows = record {
      shaped = ready.shaped;
      indexed = subst idx.IsOk (sym added) (idx.ht_add-IsOk key e bc.tree sh.indexed);
      agrees = agree;
    };
  }
    where
      found :
          (j : List ℕ)
          → idx.ht_get j bc'.tree ≡ (if same_key j key then some e else idx.ht_get j bc.tree)
      found j =
          ap (λ (x : idx.Tree). idx.ht_get j x) added
          ∙ idx.ht_get-ht_add j key e bc.tree sh.indexed t

      agree :
          (j : List ℕ)
          → idx.takes j ≡ true
          → check_key is_blank j ≡ true
          → Agrees idx env is_blank bc' j (put key c m j)
      agree j u k = elim (Bool-cases (same_key j key)) [
        | inl same ↦ rw same (
            subst (λ (x : List ℕ). Agrees idx env is_blank bc' x (some c))
              (sym ((same_key_iff j key).0 same))
              (present e c (found key ∙ rw ((same_key_iff key key).1 refl) refl) b))
        | inr other ↦
            rw other (Agrees-Keeps bc bc' j (m j) (found j ∙ rw other refl) keeps (sh.agrees j u k))
      ]

  abbrev extend : List ℕ → idx.Tree → idx.Tree → State → State
  extend rbuf curr_tree tree bc = record bc {
    wbuf = bc.wbuf ++ rbuf;
    curr_tree = curr_tree;
    tree = tree;
  }

  pub extend-IsReady :
      (rbuf : List ℕ) (ct t : idx.Tree) (bc : State)
      → length rbuf % 256 ≡ 0
      → All IsByte rbuf
      → length bc.wbuf + length rbuf ≤ bc.wbuf_size
      → IsReady idx env limit bc
      → IsReady idx env limit (extend rbuf ct t bc)
  extend-IsReady rbuf ct t bc pages bytes fits p = record {
    idle = p.idle;
    within = p.within;
    shaped = record {
      start_pages = p.shaped.start_pages;
      wbuf_pages = omega (arith, length-append bc.wbuf rbuf, pages, p.shaped.wbuf_pages);
      wbuf_fits = omega (arith, length-append bc.wbuf rbuf, fits);
      wbuf_small = p.shaped.wbuf_small;
      wbuf_some = p.shaped.wbuf_some;
      wbuf_bytes = All-append IsByte bc.wbuf rbuf p.shaped.wbuf_bytes bytes;
      files_bytes = p.shaped.files_bytes;
      table = p.shaped.table;
      disk = p.shaped.disk;
    };
  }

  pub retree-IsReady :
      (ct t : idx.Tree) (bc : State)
      → IsReady idx env limit bc
      → IsReady idx env limit (record bc { curr_tree = ct; tree = t })
  retree-IsReady ct t bc p = record {
    idle = p.idle;
    within = p.within;
    shaped = record {
      start_pages = p.shaped.start_pages;
      wbuf_pages = p.shaped.wbuf_pages;
      wbuf_fits = p.shaped.wbuf_fits;
      wbuf_small = p.shaped.wbuf_small;
      wbuf_some = p.shaped.wbuf_some;
      wbuf_bytes = p.shaped.wbuf_bytes;
      files_bytes = p.shaped.files_bytes;
      table = p.shaped.table;
      disk = p.shaped.disk;
    };
  }

  pub retree-Keeps :
      (ct t : idx.Tree) (bc : State)
      → Keeps idx env limit bc (record bc { curr_tree = ct; tree = t })
  retree-Keeps ct t bc r l bucket place (in_wbuf same h holds) = in_wbuf same h holds
  retree-Keeps ct t bc r l bucket place (in_fbuf le f e same h before holds) =
      in_fbuf le f e same h before holds
  retree-Keeps ct t bc r l bucket place (in_file h before first holds) =
      in_file h before first holds

  module _ (faith : IsFaithful env) (room : limit + 2 ^ 28 < 2 ^ 32) where
    extend-Keeps :
        (rbuf : List ℕ) (ct t : idx.Tree) (bc : State)
        → Keeps idx env limit bc (extend rbuf ct t bc)
    extend-Keeps rbuf ct t bc r l bucket place (in_wbuf same h holds) =
        in_wbuf same h (Holds-append env faith r l bc.wbuf rbuf (place - bc.wbuf_start) holds)
    extend-Keeps rbuf ct t bc r l bucket place (in_fbuf le f e same h before holds) =
        in_fbuf le f e same h before holds
    extend-Keeps rbuf ct t bc r l bucket place (in_file h before first holds) =
        in_file h before first holds

    -- The word of an entry keeps the place and the bucket apart.
    put_place :
        (bc : State)
        → IsReady idx env limit bc
        → bc.curr < max_bucket_count
        → bit_or ((bc.wbuf_start + length bc.wbuf) % 2 ^ 32) bc.curr
          ≡ bc.wbuf_start + length bc.wbuf + bc.curr
    put_place bc p h =
        let w : (bc.wbuf_start + length bc.wbuf) % 2 ^ 32 ≡ bc.wbuf_start + length bc.wbuf =
          ground (arith, p.within, p.shaped.wbuf_fits, p.shaped.wbuf_small, room) in
        ap (λ (x : ℕ). bit_or x bc.curr) w
        ∙ bit_or-page (bc.wbuf_start + length bc.wbuf) bc.curr
            (omega (arith, p.shaped.start_pages, p.shaped.wbuf_pages)) h

    -- The record that is put stands where its entry says.
    pub put_record-Refines :
        (bc : State) (m : Cells) (key : List ℕ) (c : Cell) (version : ℕ)
        → idx.takes key ≡ true
        → IsLegal (record_of key version c)
        → bc.curr < max_bucket_count
        → length bc.wbuf + length (encode_record env (record_of key version c)) ≤ bc.wbuf_size
        → Refines idx env is_blank limit bc m
        → Refines idx env is_blank limit
            (put_record idx env limit is_blank key
              (encode_record env (record_of key version c))
              c.hash
              c.ver
              bc)
            (put key c m)
    unfolding put_record
    put_record-Refines bc m key c version t l h fits p =
        let r = record_of key version c in
        let place = put_place bc p.ready h in
        let n = bc.wbuf_start + length bc.wbuf in
        let e : Entry = record {
          place = bit_or (n % 2 ^ 32) bc.curr;
          hash = c.hash;
          ver = c.ver;
        } in
        let pages : n % 256 ≡ 0 =
          omega (arith, p.ready.shaped.start_pages, p.ready.shaped.wbuf_pages) in
        ht_add-Refines bc _ m key e c t
          (extend-IsReady (encode_record env r) _ _ bc (length-encode_record_pages env faith r l).1
            (encode_record-IsByte env faith r l) fits p.ready)
          (extend-Keeps (encode_record env r) _ _ bc) refl
          (record {
            same_ver = refl;
            same_hash = refl;
            version = version;
            legal = l;
            stored = in_wbuf (omega (arith, place, pages, h)) (omega (arith, place, pages, h)) (
                subst (λ (x : ℕ). Holds env (bc.wbuf ++ encode_record env r) x r)
                  (omega (arith, place, pages, h)) (Holds-end env faith r l bc.wbuf));
          })
          p.shows
