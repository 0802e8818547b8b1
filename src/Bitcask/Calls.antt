-- ===== src/Bitcask/Calls.antt =====
-- The calls of src/bitcask.c refine `get` and `set` on a map of cells.
use beansdb.Base.{
  ℕ, ◌+◌, ◌^◌, ◌≤◌, ◌<◌, ◌≡◌, refl, ap, arith, Bool, true, false, ◌&&◌, ◌||◌, not, inl, inr, Option,
  none, some, List, length, ltb, if◌then◌else◌, Bool-cases, Option-cases,
}
use beansdb.Base.Int.{ℤ}
use beansdb.Record.{Env, encode_record, max_value_len}
use beansdb.Record.RoundTrip.{IsFaithful}
use beansdb.Record.Stored.{IsLegal, length-encode_record_pages, length-encode_record_le}
use beansdb.Bitcask.{
  Entry, Index, Bitcask, check_key, max_bucket_count, word_of, is_negative, is_zero, next_version,
}
use beansdb.Bitcask.Access.{
  make_record, store_value, set_version, bc_set, put_record, update_version,
}
use beansdb.Bitcask.Room.{make_room-Comes}
use beansdb.Bitcask.Spec.{
  Cells, record_of, put, current_version, repeats, value_hash, new_cell, renew, accepts, set,
}
use beansdb.Bitcask.Refines.{Refines}
use beansdb.Bitcask.Writes.{Comes-Refines, put_record-Refines}
use beansdb.Bitcask.Sets.{
  IsRequest, check_key-length, record_of-IsLegal, old_version-Agrees, unchanged-Agrees,
  update_version-Refines,
}

module _ (idx : Index) (env : Env) (faith : IsFaithful env) (limit : ℕ)
    (room : limit + 2 ^ 28 < 2 ^ 32) (is_blank : ℕ → Bool) (zero_blank : is_blank 0 ≡ true) where
  abbrev Reads : Bitcask idx.Tree → Cells → Type 0
  Reads = Refines idx env is_blank limit

  -- A call that does not exit gives what the map gives, and starts at most two files.
  abbrev pub Does : Bitcask idx.Tree → Option (Bool × Bitcask idx.Tree) → Bool × Cells → Type 0
  Does bc result (ok, m) =
      (bc' : Bitcask idx.Tree) × (result ≡ some (ok, bc')) × Reads bc' m × (bc'.curr ≤ bc.curr + 2)

  module _ (bc : Bitcask idx.Tree) (m : Cells) (now : ℕ) (key value : List ℕ) (flag : ℕ)
      (version : ℤ) (q : IsRequest key value flag) (t : idx.takes key ≡ true) (p : Reads bc m)
      (h : bc.curr + 2 < max_bucket_count) (k : check_key is_blank key ≡ true)
      (small : length value ≤ max_value_len) where
    store_value-Does :
        (ver : ℤ)
        → Does bc
            (store_value idx env limit is_blank now key value flag (value_hash ver value) ver bc)
            (true, put key (new_cell now value flag ver) m)
    unfolding store_value make_record
    store_value-Does ver =
        let c = new_cell now value flag ver in
        let r = record_of key (word_of ver) c in
        let l : IsLegal r = record_of-IsLegal is_blank now key value flag version ver q k small in
        let n = length-encode_record_pages env faith r l in
        let (bc', made, comes, fits) =
          make_room-Comes idx env faith limit room is_blank now (length (encode_record env r)) bc
            p.ready (omega arith)
            (omega (
              arith,
              length-encode_record_le env faith r l,
              check_key-length is_blank key k,
              small,
            )) in
        (
          put_record idx env limit is_blank key (encode_record env r) c.hash c.ver bc',
          rw (n.1, made) refl,
          put_record-Refines idx env limit is_blank faith room bc' (m) key c (word_of ver) t l
              (omega (arith, comes.moves.near)) fits
              (Comes-Refines idx env limit is_blank 2 bc bc' m comes p),
          unfold put_record in comes.moves.near,
        )

    renewed-curr :
        (asked : Bool) (ver : ℤ) (it : Option Entry)
        → (if asked then update_version idx env limit is_blank key it ver bc else bc).curr
          ≤ bc.curr + 2
    unfolding update_version
    renewed-curr false ver it = omega arith
    renewed-curr true ver none = omega arith
    renewed-curr true ver (some e) = omega arith

    set_version-Does :
        (ver : ℤ)
        → Does bc
            (set_version idx env limit is_blank now key value flag
              (not (is_zero version))
              ver
              (idx.ht_get key bc.tree)
              bc)
            (if repeats value flag (value_hash ver value) (m key)
              then (true, renew key (not (is_zero version)) ver (m key) m)
              else (true, put key (new_cell now value flag ver) m))
    unfolding set_version
    set_version-Does ver =
        let a = p.shows.agrees key t k in
        let hash = value_hash ver value in
        let u =
          unchanged-Agrees idx env faith limit room is_blank zero_blank bc m key p t k value flag
            hash (m key) refl a in
        let same = ap (λ (x : Bool × Bitcask idx.Tree). x.0) u in
        let same_state = ap (λ (x : Bool × Bitcask idx.Tree). x.1) u in
        elim (Bool-cases (repeats value flag hash (m key))) [
          | inl e ↦
              rw (same, same_state, e)
                (
                  _,
                  refl,
                  update_version-Refines idx env faith limit room is_blank zero_blank bc m key p t k
                      (not (is_zero version)) ver (m key) a,
                  renewed-curr (not (is_zero version)) ver (idx.ht_get key bc.tree),
                )
          | inr e ↦ rw (same, same_state, e) (store_value-Does ver)
        ]

  -- A call that keeps the invariant and has two more files for its record: `bc_set` answers and
  -- changes the map as `set` does, and exits never.
  pub bc_set-Does :
      (bc : Bitcask idx.Tree) (m : Cells) (now : ℕ) (key value : List ℕ) (flag : ℕ) (version : ℤ)
      → IsRequest key value flag
      → idx.takes key ≡ true
      → Reads bc m
      → bc.curr + 2 < max_bucket_count
      → Does bc
          (bc_set idx env limit is_blank now key value flag version bc)
          (set is_blank now key value flag version m)
  unfolding bc_set set accepts
  bc_set-Does bc m now key value flag version q t p h =
      elim (Bool-cases (
        (is_negative version && ltb 0 (length value))
        || ltb max_value_len (length value)
        || not (check_key is_blank key))) [
          | inl bad ↦ rw bad (bc, refl, p, omega arith)
          | inr good ↦
              let k : check_key is_blank key ≡ true = ground (arith, good) in
              let small : length value ≤ max_value_len = ground (arith, good) in
              let v =
                old_version-Agrees idx env faith limit room is_blank zero_blank bc key (m key)
                  (p.shows.agrees key t k) in
              rw (good, v)
                (elim (Option-cases (next_version version (current_version (m key)))) [
                  | inl e ↦ rw e (bc, refl, p, omega arith)
                  | inr (ver, e) ↦
                      rw e (set_version-Does bc m now key value flag version q t p h k small ver)
                ])
        ]
