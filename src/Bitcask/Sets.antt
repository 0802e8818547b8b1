-- ===== src/Bitcask/Sets.antt =====
-- `bc_set` of src/bitcask.c does to the map what `set` says.
use beansdb.Base.{
  ℕ, ◌+◌, ◌^◌, ◌≤◌, ◌<◌, ◌≡◌, refl, ap, ◌∙◌, arith, Bool, true, false, ◌&&◌, ◌⊎◌, inl, inr, Option,
  none, some, List, [], ◌∷◌, length, All, ◌==◌, if◌then◌else◌, Bool-cases,
}
use beansdb.Base.Int.{ℤ, pos, negsuc}
use beansdb.Base.Words.{IsByte}
use beansdb.HTree.{same_key}
use beansdb.Record.{
  DataRecord, Env, is_compressed, bad_kv_size, max_value_len, header_size, padding,
}
use beansdb.Record.Layout.{take-all}
use beansdb.Record.RoundTrip.{IsFaithful}
use beansdb.Record.Stored.{IsLegal}
use beansdb.Bitcask.{Index, Bitcask, check_key, word_of, is_negative}
use beansdb.Bitcask.Access.{old_version, bc_get, is_same, unchanged, update_version}
use beansdb.Bitcask.Spec.{
  Cell, Cells, record_of, current_version, visible, answer, get, repeats, new_cell, renew,
}
use beansdb.Bitcask.Refines.{Agrees, absent, present, Refines, bc_get-eq-get}
use beansdb.Bitcask.Writes.{ht_add-Refines, retree-IsReady, retree-Keeps}

-- What is asked of a key, a value and a flag that are stored.
pub record IsRequest (key value : List ℕ) (flag : ℕ) : Type 0 where
  pub key_bytes : All IsByte key
  pub value_bytes : All IsByte value
  pub flag_word : flag < 2 ^ 32
  pub plain : is_compressed flag ≡ false
  pub sized : (0 < length value) ⊎ (header_size + length key ≤ padding)

pub word_of-lt : (v : ℤ) → word_of v < 2 ^ 32
unfolding word_of
word_of-lt (pos n) = omega arith
word_of-lt (negsuc n) = omega arith

module _ (is_blank : ℕ → Bool) where
  pub check_key-length :
      (key : List ℕ) → check_key is_blank key ≡ true → (0 < length key) × (length key ≤ 250)
  unfolding check_key
  check_key-length [] h = cc
  check_key-length (c ∷ cs) h = (omega arith, ground (arith, h))

  -- A record of an accepted request is legal.
  pub record_of-IsLegal :
      (now : ℕ) (key value : List ℕ) (flag : ℕ) (version ver : ℤ)
      → IsRequest key value flag
      → check_key is_blank key ≡ true
      → length value ≤ max_value_len
      → IsLegal (record_of key (word_of ver) (new_cell now value flag ver))
  record_of-IsLegal now key value flag version ver q k h =
      let n = check_key-length key k in
      record {
        well_formed = record {
          tstamp_word = omega arith;
          flag_word = q.flag_word;
          version_word = word_of-lt ver;
          ksz_word = omega (arith, n.1);
          vsz_word = omega (arith, h);
          key_size = refl;
          value_size = refl;
          key_bytes = q.key_bytes;
          value_bytes = q.value_bytes;
        };
        good = unfold bad_kv_size in ground (arith, n.0, n.1, h);
        plain = q.plain;
        sized = ground (arith, q.sized);
      }

module _ (idx : Index) (env : Env) (faith : IsFaithful env) (limit : ℕ)
    (room : limit + 2 ^ 28 < 2 ^ 32) (is_blank : ℕ → Bool) (zero_blank : is_blank 0 ≡ true) where
  abbrev Reads : Bitcask idx.Tree → Cells → Type 0
  Reads = Refines idx env is_blank limit

  -- The version of an entry is the version of its cell.
  pub old_version-Agrees :
      (bc : Bitcask idx.Tree) (key : List ℕ) (mc : Option Cell)
      → Agrees idx env is_blank bc key mc
      → old_version (idx.ht_get key bc.tree) ≡ current_version mc
  old_version-Agrees bc key none (absent e) = rw e refl
  old_version-Agrees bc key (some c) (present e c' q b) = rw q b.same_ver

  is_same-record_of :
      (key value : List ℕ) (flag version : ℕ) (c : Cell)
      → is_same idx env limit is_blank value flag (record_of key version c)
        ≡ (c.flag == flag && length value == length c.value && same_key value c.value)
  unfolding is_same
  is_same-record_of key value flag version c = elim (Bool-cases (length value == length c.value)) [
    | inl e ↦ rw e (
        ap (λ (x : List ℕ). c.flag == flag && true && same_key value x)
          (take-all (length value) c.value (ground (arith, e))))
    | inr e ↦ rw e (ground arith)
  ]

  module _ (bc : Bitcask idx.Tree) (m : Cells) (key : List ℕ) (p : Reads bc m)
      (t : idx.takes key ≡ true) (k : check_key is_blank key ≡ true) where
    got :
        (mc : Option Cell)
        → m key ≡ mc
        → bc_get idx env limit is_blank key false bc ≡ (answer key (visible false mc), bc)
    got mc q =
        bc_get-eq-get idx env is_blank faith limit zero_blank bc m key false p.shows t
        ∙ (unfold get in rw (k, q) refl)

    abbrev Outcome : Type 0
    Outcome = Bool × Bitcask idx.Tree

    if_pair : (b v : Bool) → ◌≡◌ {A = Outcome} (if b then (v, bc) else (false, bc)) (b && v, bc)
    if_pair true v = refl
    if_pair false v = refl

    if_same :
        (b : Bool) → ◌≡◌ {A = Outcome} (if b then (false, bc) else (false, bc)) (b && false, bc)
    if_same b = if_pair b false

    -- The value in store is compared as the map says.
    pub unchanged-Agrees :
        (value : List ℕ) (flag hash : ℕ) (mc : Option Cell)
        → m key ≡ mc
        → Agrees idx env is_blank bc key mc
        → unchanged idx env limit is_blank key value flag hash (idx.ht_get key bc.tree) bc
          ≡ (repeats value flag hash mc, bc)
    unfolding unchanged repeats
    unchanged-Agrees value flag hash none q (absent e) = rw e refl
    unchanged-Agrees value flag hash (some c) q (present e c' found b) =
        let found_record =
          ap (λ (x : Option DataRecord × Bitcask idx.Tree). x.0) (got (some c) q) in
        let same_state = ap (λ (x : Option DataRecord × Bitcask idx.Tree). x.1) (got (some c) q) in
        rw (found, unchanged, b.same_hash)
          (elim (Bool-cases (is_negative c.ver)) [
            | inl dead ↦
                unfold visible in rw (found_record, dead, same_state) (if_same (hash == c.hash))
            | inr live ↦
                unfold visible in
                rw
                  (
                    found_record,
                    live,
                    same_state,
                    is_same-record_of key value flag (word_of c.ver) c,
                  )
                  (if_pair (hash == c.hash) _)
          ])

    -- The version of a value that is in store changes in the index alone.
    pub update_version-Refines :
        (asked : Bool) (ver : ℤ) (mc : Option Cell)
        → Agrees idx env is_blank bc key mc
        → Reads
            (if asked
              then update_version idx env limit is_blank key (idx.ht_get key bc.tree) ver bc
              else bc)
            (renew key asked ver mc m)
    unfolding update_version renew
    update_version-Refines true ver none (absent e) = rw e p
    update_version-Refines false ver none (absent e) = p
    update_version-Refines false ver (some c) (present e c' found b) = p
    update_version-Refines true ver (some c) (present e c' found b) = rw found (
        ht_add-Refines idx env limit is_blank bc _ m key (record e { ver = ver })
          (record c { ver = ver }) t (retree-IsReady idx env limit is_blank _ _ bc p.ready)
          (retree-Keeps idx env limit is_blank _ _ bc) refl
          (record {
            same_ver = refl;
            same_hash = b.same_hash;
            version = b.version;
            legal = b.legal;
            stored = retree-Keeps idx env limit is_blank _ _ bc _ b.legal _ _ b.stored;
          })
          p.shows)
