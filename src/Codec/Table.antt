-- ===== src/Codec/Table.antt =====
-- The open hash table of src/codec.c finds every format of the dictionary.
use native.Mathlib.Nat.{mod-lt}
use beansdb.Base.{
  ℕ, zero, suc, ◌<◌, ◌≡◌, refl, sym, ap, ◌∙◌, arith, true, false, not, inl, inr, some, List, [],
  ◌∷◌, ◌++◌, length, get_elem?,
}
use beansdb.Base.Int.{ℤ, pos, negsuc}
use beansdb.HTree.{same_key}
use beansdb.HTree.Blocks.{same_key_iff}
use beansdb.Codec.{Fmt, is_taken, is_other, home, find_slot}
use beansdb.Codec.Walk.{pigeonhole, search_slot, walk-stops}

module _ {ℓ} {A : Type ℓ} where
  pub get_elem?-append_left :
      (xs ys : List A) (i : ℕ) → i < length xs → get_elem? (xs ++ ys) i ≡ get_elem? xs i
  get_elem?-append_left [] ys i h = absurd (omega arith)
  get_elem?-append_left (x ∷ xs) ys zero h = refl
  get_elem?-append_left (x ∷ xs) ys (suc i) h = get_elem?-append_left xs ys i (omega arith)

  pub get_elem?-append_at :
      (xs : List A) (y : A) (ys : List A) → get_elem? (xs ++ y ∷ ys) (length xs) ≡ some y
  get_elem?-append_at [] y ys = refl
  get_elem?-append_at (x ∷ xs) y ys = get_elem?-append_at xs y ys

  pub get_elem?-lt : (xs : List A) (i : ℕ) (x : A) → get_elem? xs i ≡ some x → i < length xs
  get_elem?-lt [] i x h = cc
  get_elem?-lt (y ∷ xs) zero x h = omega arith
  get_elem?-lt (y ∷ xs) (suc i) x h = omega (arith, get_elem?-lt xs i x h)

  pub get_elem?-some : (xs : List A) (i : ℕ) → i < length xs → (x : A) × (get_elem? xs i ≡ some x)
  get_elem?-some [] i h = absurd (omega arith)
  get_elem?-some (x ∷ xs) zero h = (x, refl)
  get_elem?-some (x ∷ xs) (suc i) h = get_elem?-some xs i (omega arith)

-- A format is in the dictionary once.
abbrev pub IsDistinct : List Fmt → Type 0
IsDistinct dict =
    (i j : ℕ) (f g : Fmt)
    → get_elem? dict i ≡ some f
    → get_elem? dict j ≡ some g
    → f.fmt ≡ g.fmt
    → i ≡ j

pub record IsTable (n : ℕ) (rdict : ℕ → ℤ) (dict : List Fmt) : Type 0 where
  pub room : length dict < n
  pub valid : (h i : ℕ) → rdict h ≡ pos (suc i) → i < length dict
  pub once : (h k i : ℕ) → rdict h ≡ pos (suc i) → rdict k ≡ pos (suc i) → h ≡ k
  pub found :
      (i : ℕ) (f : Fmt)
      → get_elem? dict i ≡ some f
      → rdict (find_slot n rdict dict f.fmt) ≡ pos (suc i)

index_of : ℤ → ℕ
index_of (pos zero) = 0
index_of (pos (suc i)) = i
index_of (negsuc n) = 0

taken-index : (v : ℤ) → is_taken v ≡ true → v ≡ pos (suc (index_of v))
unfolding index_of
taken-index (pos zero) h = cc
taken-index (pos (suc i)) h = refl
taken-index (negsuc n) h = cc

pub free-is_other :
    (dict : List Fmt) (fmt : List ℕ) (v : ℤ) → is_taken v ≡ false → is_other dict fmt v ≡ false
unfolding is_other
free-is_other dict fmt (pos zero) h = refl
free-is_other dict fmt (pos (suc i)) h = cc
free-is_other dict fmt (negsuc n) h = refl

pub is_other-some :
    (dict : List Fmt) (fmt : List ℕ) (i : ℕ) (f : Fmt)
    → get_elem? dict i ≡ some f
    → is_other dict fmt (pos (suc i)) ≡ not (same_key fmt f.fmt)
unfolding is_other
is_other-some dict fmt i f e = rw (e, is_other) refl

-- A longer dictionary changes nothing at the numbers that are valid.
pub is_other-append :
    (dict more : List Fmt) (fmt : List ℕ) (v : ℤ)
    → ((i : ℕ) → v ≡ pos (suc i) → i < length dict)
    → is_other (dict ++ more) fmt v ≡ is_other dict fmt v
unfolding is_other
is_other-append dict more fmt (pos zero) h = refl
is_other-append dict more fmt (negsuc n) h = refl
is_other-append dict more fmt (pos (suc i)) h =
    rw (get_elem?-append_left dict more i (h i refl), is_other) refl

pub pos-injective : (a b : ℕ) → pos a ≡ pos b → a ≡ b
pos-injective a b e = ap value e
  where
    value : ℤ → ℕ
    value (pos n) = n
    value (negsuc n) = 0

module _ (n : ℕ) (rdict : ℕ → ℤ) (dict : List Fmt) (t : IsTable n rdict dict) where
  pub IsTable-IsDistinct : IsDistinct dict
  IsTable-IsDistinct i j f g p q e = omega (
    arith,
    pos-injective (suc i) (suc j) (
        sym (t.found i f p)
        ∙ ap (λ (x : List ℕ). rdict (find_slot n rdict dict x)) e
        ∙ t.found j g q),
  )

  -- The table is never full.
  has_free : (s : ℕ) × (s < n) × (is_taken (rdict s) ≡ false)
  has_free = elim (search_slot (λ h. is_taken (rdict h)) n) [
    | inl found ↦ found
    | inr all ↦ absurd (
        omega (
          arith,
          t.room,
          pigeonhole n (length dict) (λ h. index_of (rdict h))
              (λ h p. t.valid h (index_of (rdict h)) (taken-index (rdict h) (all h p)))
              (λ h k p q e.
                t.once h k (index_of (rdict h)) (taken-index (rdict h) (all h p))
                  (taken-index (rdict k) (all k q) ∙ ap (λ (i : ℕ). pos (suc i)) (sym e))),
        ))
  ]

  pub home-lt : (fmt : List ℕ) → home n fmt < n
  home-lt fmt = mod-lt _ (omega (arith, t.room))

  -- The loop of `dc_encode` ends within as many rounds as there are slots.
  pub find_slot-stops :
      (fmt : List ℕ) → is_other dict fmt (rdict (find_slot n rdict dict fmt)) ≡ false
  unfolding find_slot
  find_slot-stops fmt =
      let (s, p, e) = has_free in
      walk-stops (λ h. is_other dict fmt (rdict h)) n (home n fmt) s (home-lt fmt) p
        (free-is_other dict fmt (rdict s) e)

  -- A slot that the loop stops at and that is taken holds the format itself.
  pub found-format :
      (fmt : List ℕ) (i : ℕ)
      → is_other dict fmt (pos (suc i)) ≡ false
      → i < length dict
      → (f : Fmt) × (get_elem? dict i ≡ some f) × (f.fmt ≡ fmt)
  found-format fmt i h p =
      let (f, e) = get_elem?-some dict i p in
      (f, e, sym ((same_key_iff fmt f.fmt).0 (ground (arith, h, is_other-some dict fmt i f e))))
