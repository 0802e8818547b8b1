-- ===== src/Bitcask/Versions.antt =====
-- The versions that `bc_set` of src/bitcask.c stores are ints, and grow in magnitude below the bound of
-- an int.
use mathlib.Core.Option.{some-injective}
use mathlib.Core.Path.{subst}
use beansdb.Base.{
  ℕ, zero, suc, ◌+◌, ◌^◌, ◌<◌, ◌≤◌, ◌≡◌, arith, none, some, Bool, not, ltb, inl, inr, true, false,
  ap, refl, if◌then◌else◌, Bool-cases, Option-cases, Option, List,
}
use beansdb.Base.Int.{ℤ, pos, negsuc, ltb_ℤ, IsWithin, wrap, signed}
use beansdb.HTree.{same_key}
use beansdb.Bitcask.{magnitude, to_int, abs_le, next_version, is_zero}
use beansdb.Bitcask.Spec.{
  Cell, Cells, put, current_version, repeats, value_hash, new_cell, renew, accepts, set,
}

abbrev pub IsInt : ℤ → Type 0
IsInt = IsWithin (2 ^ 31)

to_int-pos : (n : ℕ) → n < 2 ^ 31 → to_int (pos n) ≡ pos n
unfolding to_int wrap signed
to_int-pos n h = ground (arith, h)

pub next_version-magnitude :
    (old : ℤ)
    → magnitude old + 1 < 2 ^ 31
    → next_version (pos 0) old ≡ some (pos (suc (magnitude old)))
unfolding next_version magnitude
next_version-magnitude (pos zero) h = refl
next_version-magnitude (pos (suc n)) h =
    rw (to_int-pos (suc n + 1) (omega (arith, h))) (ap (λ (k : ℕ). some (pos k)) (omega arith))
next_version-magnitude (negsuc n) h =
    rw (to_int-pos (suc n + 1) (omega (arith, h))) (ap (λ (k : ℕ). some (pos k)) (omega arith))

to_int-IsInt : (n : ℕ) → IsInt (to_int (pos n))
unfolding to_int wrap signed IsWithin
to_int-IsInt n = ground arith

-- Only 2^31 is no int among the absolute values, and it becomes negative.
compared :
    (a b : ℕ)
    → a ≤ 2 ^ 31
    → b < 2 ^ 31
    → not (ltb_ℤ (to_int (pos b)) (to_int (pos a))) ≡ false
    → (b < a) × (a < 2 ^ 31)
unfolding to_int wrap signed
compared a b h k e = elim (Bool-cases (ltb a (2 ^ 31))) [
  | inl less ↦ ground (arith, h, k, e, less)
  | inr more ↦ ground (arith, h, k, e, more)
]

abs_le-false :
    (version old : ℤ)
    → IsInt version
    → magnitude old + 1 < 2 ^ 31
    → abs_le version old ≡ false
    → (magnitude old < magnitude version) × (magnitude version < 2 ^ 31)
unfolding abs_le magnitude IsWithin
abs_le-false (pos v) old w h k = compared v (magnitude old) (omega (arith, w)) (omega (arith, h)) k
abs_le-false (negsuc v) old w h k =
    compared (suc v) (magnitude old) (omega (arith, w)) (omega (arith, h)) k

guarded : (b : Bool) (w ver : ℤ) → (if b then none else some w) ≡ some ver → (b ≡ false) × (w ≡ ver)
guarded true w ver h = cc
guarded false w ver h = (refl, some-injective w ver h)

-- A version that was asked for and is stored.
asked :
    (version old ver : ℤ)
    → IsInt version
    → magnitude old + 1 < 2 ^ 31
    → (if abs_le version old then none else some version) ≡ some ver
    → IsInt ver × (magnitude old < magnitude ver)
asked version old ver w h e =
    let (more, same) = guarded (abs_le version old) version ver e in
    subst (λ (v : ℤ). IsInt v × (magnitude old < magnitude v)) same
      (w, (abs_le-false version old w h more).0)

-- Over an old version that is an int, a version that bc_set stores is an int.
pub next_version-IsInt :
    (version old ver : ℤ)
    → IsInt version
    → IsInt old
    → next_version version old ≡ some ver
    → IsInt ver
unfolding IsWithin
next_version-IsInt (pos zero) (pos zero) ver w h e =
    subst IsInt (some-injective (pos 1) ver (unfold next_version in e))
      (unfold IsWithin in ground arith)
next_version-IsInt (pos zero) (pos (suc n)) ver w h e =
    subst IsInt (some-injective (to_int (pos (suc n + 1))) ver (unfold next_version in e))
      (to_int-IsInt (suc n + 1))
next_version-IsInt (pos zero) (negsuc n) ver w h e =
    subst IsInt (some-injective (to_int (pos (suc n + 1))) ver (unfold next_version in e))
      (to_int-IsInt (suc n + 1))
next_version-IsInt (negsuc v) (pos zero) ver w h e = unfold next_version in cc
next_version-IsInt (negsuc v) (negsuc n) ver w h e = unfold next_version in cc
next_version-IsInt (negsuc zero) (pos (suc n)) ver w h e =
    subst IsInt (some-injective (negsuc (suc n)) ver (unfold next_version in e)) h
next_version-IsInt (negsuc (suc v)) (pos (suc n)) ver w h e =
    subst IsInt
      (guarded (abs_le (negsuc (suc v)) (pos (suc n))) (negsuc (suc v)) ver
        (unfold next_version in e)).1
      w
next_version-IsInt (pos (suc v)) old ver w h e =
    subst IsInt (guarded (abs_le (pos (suc v)) old) (pos (suc v)) ver (unfold next_version in e)).1
      w

abbrev pub IntCells : Cells → Type 0
IntCells m = (key : List ℕ) → IsInt (current_version (m key))

put-IsInt :
    (key : List ℕ) (c : Cell) (m : Cells) → IsInt c.ver → IntCells m → IntCells (put key c m)
put-IsInt key c m v h j = elim (Bool-cases (same_key j key)) [ inl e ↦ rw e v | inr e ↦ rw e (h j) ]

renew-IsInt :
    (key : List ℕ) (asked : Bool) (ver : ℤ) (mc : Option Cell) (m : Cells)
    → IsInt ver
    → IntCells m
    → IntCells (renew key asked ver mc m)
unfolding renew
renew-IsInt key asked ver none m v h = h
renew-IsInt key true ver (some c) m v h = put-IsInt key (record c { ver = ver }) m v h
renew-IsInt key false ver (some c) m v h = h

-- A map whose versions are ints keeps such versions where the version asked for is an int.
pub set-IsInt :
    (is_blank : ℕ → Bool) (now : ℕ) (key value : List ℕ) (flag : ℕ) (version : ℤ) (m : Cells)
    → IsInt version
    → IntCells m
    → IntCells (set is_blank now key value flag version m).1
unfolding set
set-IsInt is_blank now key value flag version m w h =
    elim (Bool-cases (accepts is_blank key value version)) [
      | inr a ↦ rw a h
      | inl a ↦ elim (Option-cases (next_version version (current_version (m key)))) [
        | inl e ↦ rw (a, e) h
        | inr (ver, e) ↦
            let v = next_version-IsInt version (current_version (m key)) ver w (h key) e in
            elim (Bool-cases (repeats value flag (value_hash ver value) (m key))) [
              | inl r ↦ rw (a, e, r) (renew-IsInt key (not (is_zero version)) ver (m key) m v h)
              | inr r ↦ rw (a, e, r) (put-IsInt key (new_cell now value flag ver) m v h)
            ]
      ]
    ]
