-- ===== src/Store/Hashes.antt =====
-- `hs_get_hash` of src/hstore.c, which adds up the hashes and the counts of the bitcasks under a
-- prefix of hexadecimal digits, held as numbers. `leaf` is `bc_get_hash` of the bitcask at an index.
use native.Mathlib.Nat.{pow-suc}
use beansdb.Base.{
  ℕ, zero, suc, ◌+◌, ◌-◌, ◌*◌, ◌%◌, ◌^◌, ◌≤◌, ◌≡◌, ap, ◌∙◌, arith, List, [], ◌∷◌, length, take, leb,
  if◌then◌else◌, Bool-cases, inl, inr,
}
use beansdb.Record.Layout.{take-all}

-- The number of the digits, behind `n`.
unfoldable pub number_from : ℕ → List ℕ → ℕ
number_from n [] = n
number_from n (d ∷ ds) = number_from (n * 16 + d) ds

-- The loop over the first children.
unfoldable pub add_children : (ℕ → ℕ × ℕ) → ℕ → ℕ × ℕ
add_children child zero = (0, 0)
add_children child (suc i) =
    let (hash, count) = add_children child i in
    let (h, c) = child i in ((hash * 97 % 2 ^ 16 + h) % 2 ^ 16, (count + c) % 2 ^ 32)

unfoldable pub hash_below : (ℕ → ℕ × ℕ) → ℕ → ℕ → ℕ × ℕ
unfolding add_children
hash_below leaf zero prefix = leaf prefix
hash_below leaf (suc k) prefix = add_children (λ i. hash_below leaf k (prefix * 16 + i)) 16

unfoldable pub hs_get_hash : ℕ → (ℕ → ℕ × ℕ) → List ℕ → ℕ × ℕ
unfolding hash_below number_from
hs_get_hash height leaf digits =
    if leb height (length digits)
    then leaf (number_from 0 (take height digits))
    else hash_below leaf (height - length digits) (number_from 0 digits)

-- The sum of the values at `n` places from `start` on.
unfoldable pub sum_over : (ℕ → ℕ) → ℕ → ℕ → ℕ
sum_over f start zero = 0
sum_over f start (suc n) = sum_over f start n + f (start + n)

sum_over-split :
    (f : ℕ → ℕ) (start m n : ℕ)
    → sum_over f start (m + n) ≡ sum_over f start m + sum_over f (start + m) n
unfolding sum_over
sum_over-split f start m zero = ap (λ (x : ℕ). sum_over f start x) (nothing_more m) ∙ omega arith
  where
    nothing_more : (a : ℕ) → a + 0 ≡ a
    nothing_more a = omega arith
sum_over-split f start m (suc n) =
    ap (λ (x : ℕ). sum_over f start x) (one_more m n)
    ∙ omega (arith, sum_over-split f start m n, ap f (further start m n))
  where
    one_more : (a b : ℕ) → a + suc b ≡ suc (a + b)
    one_more a b = omega arith

    further : (a b c : ℕ) → a + (b + c) ≡ a + b + c
    further a b c = omega arith

module _ (leaf : ℕ → ℕ × ℕ) where
  abbrev counts : ℕ → ℕ
  counts i = (leaf i).1

  -- The first children make up a range.
  add_children-count :
      (child : ℕ → ℕ × ℕ) (start size i : ℕ)
      → ((j : ℕ) → (child j).1 % 2 ^ 32 ≡ sum_over counts (start + j * size) size % 2 ^ 32)
      → (add_children child i).1 % 2 ^ 32 ≡ sum_over counts start (i * size) % 2 ^ 32
  unfolding add_children sum_over
  add_children-count child start size zero h =
      ap (λ (x : ℕ). sum_over counts start x % 2 ^ 32) (nothing size)
    where
      nothing : (a : ℕ) → 0 ≡ 0 * a
      nothing a = omega arith
  add_children-count child start size (suc i) h = omega (
    arith,
    add_children-count child start size i h,
    h i,
    sum_over-split counts start (i * size) size,
    ap (λ (x : ℕ). sum_over counts start x) (suc_times i size),
  )
    where
      suc_times : (a b : ℕ) → suc a * b ≡ a * b + b
      suc_times a b = omega arith

  hash_below-count :
      (k prefix : ℕ)
      → (hash_below leaf k prefix).1 % 2 ^ 32 ≡ sum_over counts (prefix * 16 ^ k) (16 ^ k) % 2 ^ 32
  unfolding hash_below sum_over
  hash_below-count zero prefix = omega (arith, ap counts (one_place prefix))
    where
      one_place : (a : ℕ) → a ≡ a * 1 + 0
      one_place a = omega arith
  hash_below-count (suc k) prefix =
      add_children-count (λ i. hash_below leaf k (prefix * 16 + i)) (prefix * 16 ^ suc k) (16 ^ k)
        16
        (λ j.
          hash_below-count k (prefix * 16 + j)
          ∙ ap (λ (x : ℕ). sum_over counts x (16 ^ k) % 2 ^ 32) (place j))
      ∙ ap (λ (x : ℕ). sum_over counts (prefix * 16 ^ suc k) x % 2 ^ 32) all_places
    where
      place : (j : ℕ) → (prefix * 16 + j) * 16 ^ k ≡ prefix * 16 ^ suc k + j * 16 ^ k
      place j = omega (arith, ap (λ (t : ℕ). prefix * t) (pow-suc 16 k))

      all_places : 16 * 16 ^ k ≡ 16 ^ suc k
      all_places = omega (arith, pow-suc 16 k)

  -- The count that hs_get_hash gives for a prefix of at most as many digits as the store has levels
  -- is, modulo 2 ^ 32, the sum of the counts of exactly the bitcasks whose index begins with the
  -- prefix.
  pub hs_get_hash-count :
      (height : ℕ) (digits : List ℕ)
      → length digits ≤ height
      → (hs_get_hash height leaf digits).1 % 2 ^ 32
        ≡ sum_over counts
            (number_from 0 digits * 16 ^ (height - length digits))
            (16 ^ (height - length digits))
          % 2 ^ 32
  unfolding hs_get_hash
  hs_get_hash-count height digits h = elim (Bool-cases (leb height (length digits))) [
    | inl full ↦
        let same : height ≡ length digits = ground (arith, full, h) in
        let none_left : height - length digits ≡ 0 = omega (arith, same) in
        rw (full, take-all height digits same, none_left)
          (hash_below-count 0 (number_from 0 digits))
    | inr short ↦ rw short (hash_below-count (height - length digits) (number_from 0 digits))
  ]
