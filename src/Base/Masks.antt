-- ===== src/Base/Masks.antt =====
-- Inclusive or of words whose binary digits do not overlap.
use Prim.Native.Nat.{digits, max, bit_or-bitwise}
use native.Mathlib.Nat.{pow-suc}
use beansdb.Base.{
  ℕ, zero, suc, ◌+◌, ◌*◌, ◌/◌, ◌%◌, ◌^◌, ◌≤◌, ◌<◌, bit_or, ◌≡◌, refl, sym, ap, ◌∙◌, arith,
}

or_digits_fuel :
    (n m a b : ℕ) → a ≤ n → a ≤ m → digits (λ b. b) max n a b ≡ digits (λ b. b) max m a b
or_digits_fuel zero zero a b p q = refl
or_digits_fuel zero (suc m) zero b p q = refl
or_digits_fuel zero (suc m) (suc a) b p q = absurd (omega arith)
or_digits_fuel (suc n) zero zero b p q = refl
or_digits_fuel (suc n) zero (suc a) b p q = absurd (omega arith)
or_digits_fuel (suc n) (suc m) zero b p q = refl
or_digits_fuel (suc n) (suc m) (suc a) b p q =
    omega (arith, or_digits_fuel n m (suc a / 2) (b / 2) (omega arith) (omega arith))

zero-bit_or : (b : ℕ) → bit_or 0 b ≡ b
zero-bit_or b = bit_or-bitwise 0 b

bit_or_step : (a b : ℕ) → bit_or a b ≡ bit_or (a / 2) (b / 2) * 2 + max (a % 2) (b % 2)
bit_or_step zero b = omega (arith, zero-bit_or b, zero-bit_or (b / 2))
bit_or_step (suc a) b = omega (
  arith,
  bit_or-bitwise (suc a) b,
  bit_or-bitwise (suc a / 2) (b / 2),
  or_digits_fuel a (suc a / 2) (suc a / 2) (b / 2) (omega arith) (omega arith),
)

bit_or-zero_below : (n a : ℕ) → a ≤ n → bit_or a 0 ≡ a
bit_or-zero_below n zero h = refl
bit_or-zero_below zero (suc a) h = absurd (omega arith)
bit_or-zero_below (suc n) (suc a) h =
    omega (arith, bit_or_step (suc a) 0, bit_or-zero_below n (suc a / 2) (omega arith))

-- Fields that do not overlap: inclusive or is the sum.
or_fields : (k h l : ℕ) → l < 2 ^ k → bit_or (h * 2 ^ k) l ≡ h * 2 ^ k + l
or_fields zero h zero p = bit_or-zero_below (h * 1) (h * 1) (omega arith) ∙ omega arith
or_fields zero h (suc l) p = absurd (omega arith)
or_fields (suc k) h l p =
    let twice : h * 2 ^ suc k ≡ h * 2 ^ k * 2 =
      omega (arith, ap (λ (t : ℕ). h * t) (pow-suc 2 k)) in
    omega (
      arith,
      bit_or_step (h * 2 ^ suc k) l,
      ap (λ (t : ℕ). max t (l % 2)) (half_even twice),
      ap (λ (t : ℕ). bit_or t (l / 2)) (half_of twice),
      or_fields k h (l / 2) (omega (arith, pow-suc 2 k)),
      twice,
    )
  where
    half_of : h * 2 ^ suc k ≡ h * 2 ^ k * 2 → h * 2 ^ suc k / 2 ≡ h * 2 ^ k
    half_of e = omega (arith, e)

    half_even : h * 2 ^ suc k ≡ h * 2 ^ k * 2 → h * 2 ^ suc k % 2 ≡ 0
    half_even e = omega (arith, e)

-- A place and a bucket in the word of an entry.
pub bit_or-page :
    (place bucket : ℕ) → place % 256 ≡ 0 → bucket < 256 → bit_or place bucket ≡ place + bucket
bit_or-page place bucket e h =
    let q : place / 256 * 2 ^ 8 ≡ place = omega (arith, e) in
    ap (λ (t : ℕ). bit_or t bucket) (sym q)
    ∙ or_fields 8 (place / 256) bucket h
    ∙ ap (λ (t : ℕ). t + bucket) q
