-- ===== src/Base/Slices.antt =====
-- Slices `take n (drop k xs)` of a list, as the code copies them out of a buffer.
use native.Mathlib.Nat.{zero-add, one-le-pow, pow-suc}
use Prim.Native.Nat.add
use beansdb.Base.{
  ℕ, zero, suc, ◌+◌, ◌*◌, ◌/◌, ◌%◌, ◌^◌, ◌≤◌, ◌<◌, ◌≡◌, refl, sym, ap, ◌∙◌, arith, List, [], ◌∷◌,
  ◌++◌, length, take, drop, All, length-take, length-drop,
}
use beansdb.Base.Words.{IsByte, to_bytes, of_bytes, field_at}

module _ {ℓ} {A : Type ℓ} where
  pub take-add : (n m : ℕ) (xs : List A) → take (n + m) xs ≡ take n xs ++ take m (drop n xs)
  take-add zero m xs = rw (zero-add m)
  take-add (suc n) zero [] = rw (add.suc n zero)
  take-add (suc n) (suc m) [] = rw (add.suc n (suc m))
  take-add (suc n) m (x ∷ xs) = rw (add.suc n m) (ap (◌∷◌ x) (take-add n m xs))

  pub drop-add : (n m : ℕ) (xs : List A) → drop (n + m) xs ≡ drop m (drop n xs)
  drop-add zero m xs = rw (zero-add m)
  drop-add (suc n) zero [] = rw (add.suc n zero)
  drop-add (suc n) (suc m) [] = rw (add.suc n (suc m))
  drop-add (suc n) m (x ∷ xs) = rw (add.suc n m) (drop-add n m xs)

  pub take-take : (n m : ℕ) (xs : List A) → n ≤ m → take n (take m xs) ≡ take n xs
  take-take zero m xs h = refl
  take-take (suc n) zero xs h = absurd (omega arith)
  take-take (suc n) (suc m) [] h = refl
  take-take (suc n) (suc m) (x ∷ xs) h = ap (◌∷◌ x) (take-take n m xs (omega arith))

  -- A slice that lies in a prefix.
  pub slice-take :
      (k n m : ℕ) (xs : List A) → k + n ≤ m → take n (drop k (take m xs)) ≡ take n (drop k xs)
  slice-take zero n m xs h = take-take n m xs (omega arith)
  slice-take (suc k) n zero xs h = absurd (omega arith)
  slice-take (suc k) n (suc m) [] h = refl
  slice-take (suc k) n (suc m) (x ∷ xs) h = slice-take k n m xs (omega arith)

  -- Two adjacent slices are one.
  pub slice-join :
      (k n m : ℕ) (xs : List A)
      → take n (drop k xs) ++ take m (drop (k + n) xs) ≡ take (n + m) (drop k xs)
  slice-join k n m xs = rw (drop-add k n xs) (sym (take-add n m (drop k xs)))

  pub take-of_length_le : (n : ℕ) (xs : List A) → length xs ≤ n → take n xs ≡ xs
  take-of_length_le zero [] h = refl
  take-of_length_le (suc n) [] h = refl
  take-of_length_le zero (x ∷ xs) h = absurd (omega arith)
  take-of_length_le (suc n) (x ∷ xs) h = ap (◌∷◌ x) (take-of_length_le n xs (omega arith))

module _ {ℓ κ} {A : Type ℓ} (P : A → Type κ) where
  pub All-take : (n : ℕ) (xs : List A) → All P xs → All P (take n xs)
  All-take zero xs h = tt
  All-take (suc n) [] h = tt
  All-take (suc n) (x ∷ xs) h = (h.0, All-take n xs h.1)

  pub All-drop : (n : ℕ) (xs : List A) → All P xs → All P (drop n xs)
  All-drop zero xs h = h
  All-drop (suc n) [] h = tt
  All-drop (suc n) (x ∷ xs) h = All-drop n xs h.1

pub to_bytes-of_bytes : (xs : List ℕ) → All IsByte xs → to_bytes (length xs) (of_bytes xs) ≡ xs
unfolding to_bytes of_bytes
to_bytes-of_bytes [] h = refl
to_bytes-of_bytes (x ∷ xs) h =
    let low : (x + 256 * of_bytes xs) % 256 ≡ x = omega (arith, h.0) in
    let high : (x + 256 * of_bytes xs) / 256 ≡ of_bytes xs = omega (arith, h.0) in
    rw (low, high) (ap (◌∷◌ x) (to_bytes-of_bytes xs h.1))

pub of_bytes-lt : (xs : List ℕ) (n : ℕ) → length xs ≤ n → All IsByte xs → of_bytes xs < 256 ^ n
unfolding of_bytes
of_bytes-lt [] n l h = one-le-pow n 256 (omega arith)
of_bytes-lt (x ∷ xs) zero l h = absurd (omega arith)
of_bytes-lt (x ∷ xs) (suc n) l h =
    omega (arith, h.0, pow-suc 256 n, of_bytes-lt xs n (omega arith) h.1)

module _ (k : ℕ) (buf : List ℕ) (bytes : All IsByte buf) where
  -- A field that lies in the buffer is written back as the bytes that were read.
  pub to_bytes-field_at :
      (n : ℕ) → k + n ≤ length buf → to_bytes n (field_at n k buf) ≡ take n (drop k buf)
  unfolding field_at
  to_bytes-field_at n h =
      ap (λ (m : ℕ). to_bytes m (of_bytes (take n (drop k buf))))
        (omega (arith, length-take n (drop k buf), length-drop k buf))
      ∙ to_bytes-of_bytes (take n (drop k buf)) (All-take IsByte n _ (All-drop IsByte k buf bytes))

  pub field_at-lt : (n : ℕ) → field_at n k buf < 256 ^ n
  unfolding field_at
  field_at-lt n =
      of_bytes-lt (take n (drop k buf)) n (omega (arith, length-take n (drop k buf)))
        (All-take IsByte n _ (All-drop IsByte k buf bytes))
