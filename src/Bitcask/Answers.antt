-- ===== src/Bitcask/Answers.antt =====
-- What src/bitcask.c gives back for a key after it was set or deleted.
use beansdb.Base.{
  ℕ, zero, suc, ◌+◌, ◌^◌, ◌≤◌, ◌<◌, ◌≡◌, refl, sym, ap, ◌∙◌, arith, Bool, true, false, inl, inr,
  Option, none, some, List, [], length, Bool-cases,
}
use beansdb.Base.Int.{ℤ, pos, negsuc}
use beansdb.HTree.{same_key}
use beansdb.HTree.Blocks.{same_key_refl, same_key_iff}
use beansdb.Record.{DataRecord, Env, max_value_len}
use beansdb.Record.RoundTrip.{IsFaithful}
use beansdb.Bitcask.{
  Index, Bitcask, check_key, max_bucket_count, word_of, is_negative, is_positive, is_zero,
  next_version, magnitude,
}
use beansdb.Bitcask.Versions.{next_version-magnitude}
use beansdb.Bitcask.Access.{bc_get, bc_set, bc_delete}
use beansdb.Bitcask.Spec.{
  Cell, Cells, record_of, put, current_version, visible, get, repeats, value_hash, new_cell, renew,
  accepts, set,
}
use beansdb.Bitcask.Refines.{Refines, bc_get-eq-get}
use beansdb.Bitcask.Sets.{IsRequest}
use beansdb.Bitcask.Calls.{bc_set-Does}

-- A version of zero asks for the next one.
next_version-zero :
    (old : ℤ)
    → magnitude old + 1 < 2 ^ 31
    → (n : ℕ) × (next_version (pos 0) old ≡ some (pos (suc n)))
next_version-zero old small = (magnitude old, next_version-magnitude old small)

pub repeats-value :
    (value : List ℕ) (flag hash : ℕ) (c : Cell)
    → repeats value flag hash (some c) ≡ true
    → (is_negative c.ver ≡ false) × (c.flag ≡ flag) × (same_key value c.value ≡ true)
unfolding repeats
repeats-value value flag hash c h = (ground (arith, h), ground (arith, h), ground (arith, h))

module _ (is_blank : ℕ → Bool) (now : ℕ) (key value : List ℕ) (flag : ℕ) (m : Cells) where
  abbrev Gives : Cells → Type 0
  Gives m' = (c : Cell) × (visible false (m' key) ≡ some c) × (c.value ≡ value) × (c.flag ≡ flag)

  repeats-Gives :
      (hash : ℕ) (mc : Option Cell) → m key ≡ mc → repeats value flag hash mc ≡ true → Gives m
  unfolding visible repeats
  repeats-Gives hash none q h = cc
  repeats-Gives hash (some c) q h =
      let s = repeats-value value flag hash c h in
      (c, rw (q, s.0) refl, sym ((same_key_iff value c.value).0 s.2), s.1)

  put-Gives : (n : ℕ) → Gives (put key (new_cell now value flag (pos (suc n))) m)
  unfolding visible is_negative
  put-Gives n = (new_cell now value flag (pos (suc n)), rw (same_key_refl key) refl, refl, refl)

  renew-zero : (ver : ℤ) (mc : Option Cell) → renew key false ver mc m ≡ m
  unfolding renew
  renew-zero ver none = refl
  renew-zero ver (some c) = refl

  set_zero-Gives :
      accepts is_blank key value (pos 0) ≡ true
      → magnitude (current_version (m key)) + 1 < 2 ^ 31
      → ((set is_blank now key value flag (pos 0) m).0 ≡ true)
        × Gives (set is_blank now key value flag (pos 0) m).1
  unfolding set is_zero
  set_zero-Gives h below =
      let (n, e) = next_version-zero (current_version (m key)) below in
      elim (Bool-cases (repeats value flag (value_hash (pos (suc n)) value) (m key))) [
        | inl r ↦
            rw (h, e, r, renew-zero (pos (suc n)) (m key)) (refl, repeats-Gives _ (m key) refl r)
        | inr r ↦ rw (h, e, r) (refl, put-Gives n)
      ]

module _ (is_blank : ℕ → Bool) (now : ℕ) (key : List ℕ) (m : Cells) where
  next_version-deleted :
      (old : ℤ) → is_positive old ≡ true → (n : ℕ) × (next_version (negsuc 0) old ≡ some (negsuc n))
  unfolding next_version is_positive
  next_version-deleted (pos zero) h = cc
  next_version-deleted (pos (suc n)) h = (suc n, refl)
  next_version-deleted (negsuc n) h = cc

  renew-deleted :
      (n : ℕ) (mc : Option Cell)
      → m key ≡ mc
      → repeats [] 0 0 mc ≡ true
      → visible false (renew key true (negsuc n) mc m key) ≡ none
  unfolding renew visible is_negative repeats
  renew-deleted n none q h = cc
  renew-deleted n (some c) q h = rw (same_key_refl key) refl

  put-deleted : (n : ℕ) → visible false (put key (new_cell now [] 0 (negsuc n)) m key) ≡ none
  unfolding visible is_negative
  put-deleted n = rw (same_key_refl key) refl

  set_deleted :
      accepts is_blank key [] (negsuc 0) ≡ true
      → is_positive (current_version (m key)) ≡ true
      → ((set is_blank now key [] 0 (negsuc 0) m).0 ≡ true)
        × (visible false ((set is_blank now key [] 0 (negsuc 0) m).1 key) ≡ none)
  unfolding set is_zero is_positive
  set_deleted h live =
      let (n, e) = next_version-deleted (current_version (m key)) live in
      elim (Bool-cases (repeats [] 0 0 (m key))) [
        | inl r ↦ rw (h, e, r) (refl, renew-deleted n (m key) refl r)
        | inr r ↦ rw (h, e, r) (refl, put-deleted n)
      ]

module _ (idx : Index) (env : Env) (faith : IsFaithful env) (limit : ℕ)
    (room : limit + 2 ^ 28 < 2 ^ 32) (is_blank : ℕ → Bool) (zero_blank : is_blank 0 ≡ true)
    (bc : Bitcask idx.Tree) (m : Cells) (p : Refines idx env is_blank limit bc m)
    (h : bc.curr + 2 < max_bucket_count) (now : ℕ) (key : List ℕ) (t : idx.takes key ≡ true)
    (k : check_key is_blank key ≡ true) where
  accepts-zero :
      (value : List ℕ) → length value ≤ max_value_len → accepts is_blank key value (pos 0) ≡ true
  unfolding accepts is_negative
  accepts-zero value small = ground (arith, k, small)

  accepts-deleted : accepts is_blank key [] (negsuc 0) ≡ true
  unfolding accepts is_negative
  accepts-deleted = ground (arith, k)

  -- In a state that shows a map and has two buckets left, bc_set of an accepted key, with a version
  -- of zero and a value within its limit, over an old version of a magnitude of at most 2 ^ 31 - 2,
  -- is true, and bc_get then gives a record with the value and the flag. The request and the
  -- parameters are as for bc_get-Reaches.
  pub bc_set-bc_get :
      (value : List ℕ) (flag : ℕ)
      → IsRequest key value flag
      → length value ≤ max_value_len
      → magnitude (current_version (m key)) + 1 < 2 ^ 31
      → (bc' : Bitcask idx.Tree) × (r : DataRecord) × (bc_set idx env limit is_blank now key value
            flag
            (pos 0)
            bc
          ≡ some (true, bc'))
        × (bc_get idx env limit is_blank key false bc' ≡ (some r, bc'))
        × (r.value ≡ value)
        × (r.flag ≡ flag)
  bc_set-bc_get value flag q small below =
      let (bc', e, p', near) =
        bc_set-Does idx env faith limit room is_blank zero_blank bc m now key value flag (pos 0) q t
          p h in
      let (ok, (c, seen, same, flagged)) =
        set_zero-Gives is_blank now key value flag m (accepts-zero value small) below in
      (
        bc',
        record_of key (word_of c.ver) c,
        e ∙ ap (λ (b : Bool). some (b, bc')) ok,
        bc_get-eq-get idx env is_blank faith limit zero_blank bc' _ key false p'.shows t
            ∙ (unfold get in rw (k, seen) refl),
        same,
        flagged,
      )

  -- In a state that shows a map and has two buckets left, bc_delete of an accepted key of at most
  -- 232 bytes whose version is positive is true, and bc_get then finds no live record under the
  -- key. The parameters are as for bc_get-Reaches.
  pub bc_delete-bc_get :
      IsRequest key [] 0
      → is_positive (current_version (m key)) ≡ true
      → (bc' : Bitcask idx.Tree) × (bc_delete idx env limit is_blank now key bc ≡ some (true, bc'))
        × (bc_get idx env limit is_blank key false bc' ≡ (none, bc'))
  unfolding bc_delete
  bc_delete-bc_get q live =
      let (bc', e, p', near) =
        bc_set-Does idx env faith limit room is_blank zero_blank bc m now key [] 0 (negsuc 0) q t p
          h in
      let (ok, hidden) = set_deleted is_blank now key m accepts-deleted live in
      (
        bc',
        e ∙ ap (λ (b : Bool). some (b, bc')) ok,
        bc_get-eq-get idx env is_blank faith limit zero_blank bc' _ key false p'.shows t
            ∙ (unfold get in rw (k, hidden) refl),
      )
