-- ===== src/Base/Bits.antt =====
-- Exclusive or of words of any width, from its recursion on binary digits.
use Prim.Native.Nat.{digits, bit_xor-bitwise, differ}
use native.Mathlib.Nat.{pow-suc}
use beansdb.Base.{ℕ, zero, suc, ◌+◌, ◌*◌, ◌/◌, ◌%◌, ◌^◌, ◌≤◌, ◌<◌, bit_xor, ◌≡◌, refl, ap, arith}

abbrev xor_digits : ℕ → ℕ → ℕ → ℕ
xor_digits n a b = digits (λ b. b) differ n a b

xor_digits_fuel : (n m a b : ℕ) → a ≤ n → a ≤ m → xor_digits n a b ≡ xor_digits m a b
xor_digits_fuel zero zero a b p q = refl
xor_digits_fuel zero (suc m) zero b p q = refl
xor_digits_fuel zero (suc m) (suc a) b p q = absurd (omega arith)
xor_digits_fuel (suc n) zero zero b p q = refl
xor_digits_fuel (suc n) zero (suc a) b p q = absurd (omega arith)
xor_digits_fuel (suc n) (suc m) zero b p q = refl
xor_digits_fuel (suc n) (suc m) (suc a) b p q =
    omega (arith, xor_digits_fuel n m (suc a / 2) (b / 2) (omega arith) (omega arith))

-- The digit of two digits, as arithmetic.
differ_digits : (x y : ℕ) → x < 2 → y < 2 → differ x y ≡ (x + y) % 2
differ_digits zero zero p q = refl
differ_digits zero (suc zero) p q = refl
differ_digits (suc zero) zero p q = refl
differ_digits (suc zero) (suc zero) p q = refl
differ_digits zero (suc (suc y)) p q = absurd (omega arith)
differ_digits (suc zero) (suc (suc y)) p q = absurd (omega arith)
differ_digits (suc (suc x)) y p q = absurd (omega arith)

pub zero-bit_xor : (b : ℕ) → bit_xor 0 b ≡ b
zero-bit_xor b = bit_xor-bitwise 0 b

pub bit_xor_step : (a b : ℕ) → bit_xor a b ≡ bit_xor (a / 2) (b / 2) * 2 + (a % 2 + b % 2) % 2
bit_xor_step zero b = omega (arith, zero-bit_xor b, zero-bit_xor (b / 2))
bit_xor_step (suc a) b = omega (
  arith,
  bit_xor-bitwise (suc a) b,
  bit_xor-bitwise (suc a / 2) (b / 2),
  differ_digits (suc a % 2) (b % 2) (omega arith) (omega arith),
  xor_digits_fuel a (suc a / 2) (suc a / 2) (b / 2) (omega arith) (omega arith),
)

-- The laws below go by halving; `n` bounds the operands.
bit_xor-zero_below : (n a : ℕ) → a ≤ n → bit_xor a 0 ≡ a
bit_xor-zero_below n zero h = refl
bit_xor-zero_below zero (suc a) h = absurd (omega arith)
bit_xor-zero_below (suc n) (suc a) h =
    omega (arith, bit_xor_step (suc a) 0, bit_xor-zero_below n (suc a / 2) (omega arith))

pub bit_xor-zero : (a : ℕ) → bit_xor a 0 ≡ a
bit_xor-zero a = bit_xor-zero_below a a (omega arith)

bit_xor_comm_below : (n a b : ℕ) → a ≤ n → bit_xor a b ≡ bit_xor b a
bit_xor_comm_below n zero b h = omega (arith, zero-bit_xor b, bit_xor-zero b)
bit_xor_comm_below zero (suc a) b h = absurd (omega arith)
bit_xor_comm_below (suc n) (suc a) b h = omega (
  arith,
  bit_xor_step (suc a) b,
  bit_xor_step b (suc a),
  bit_xor_comm_below n (suc a / 2) (b / 2) (omega arith),
)

pub bit_xor_comm : (a b : ℕ) → bit_xor a b ≡ bit_xor b a
bit_xor_comm a b = bit_xor_comm_below a a b (omega arith)

bit_xor_halves :
    (a b : ℕ)
    → (bit_xor a b / 2 ≡ bit_xor (a / 2) (b / 2)) × (bit_xor a b % 2 ≡ (a % 2 + b % 2) % 2)
bit_xor_halves a b = (omega (arith, bit_xor_step a b), omega (arith, bit_xor_step a b))

pub bit_xor-half : (a b : ℕ) → bit_xor a b / 2 ≡ bit_xor (a / 2) (b / 2)
bit_xor-half a b = (bit_xor_halves a b).0

pub bit_xor-parity : (a b : ℕ) → bit_xor a b % 2 ≡ (a % 2 + b % 2) % 2
bit_xor-parity a b = (bit_xor_halves a b).1

halves_eq : (x y : ℕ) → x / 2 ≡ y / 2 → x % 2 ≡ y % 2 → x ≡ y
halves_eq x y p q = omega arith

bit_xor_assoc_below : (n a b c : ℕ) → a ≤ n → bit_xor (bit_xor a b) c ≡ bit_xor a (bit_xor b c)
bit_xor_assoc_below n zero b c h = rw (zero-bit_xor b, zero-bit_xor (bit_xor b c))
bit_xor_assoc_below zero (suc a) b c h = absurd (omega arith)
bit_xor_assoc_below (suc n) (suc a) b c h =
    halves_eq _ _
      (rw
        (
          bit_xor-half (bit_xor (suc a) b) c,
          bit_xor-half (suc a) b,
          bit_xor-half (suc a) (bit_xor b c),
          bit_xor-half b c,
        )
        (bit_xor_assoc_below n (suc a / 2) (b / 2) (c / 2) (omega arith)))
      (omega (
        arith,
        bit_xor-parity (bit_xor (suc a) b) c,
        bit_xor-parity (suc a) b,
        bit_xor-parity (suc a) (bit_xor b c),
        bit_xor-parity b c,
      ))

pub bit_xor_assoc : (a b c : ℕ) → bit_xor (bit_xor a b) c ≡ bit_xor a (bit_xor b c)
bit_xor_assoc a b c = bit_xor_assoc_below a a b c (omega arith)

-- The result needs no more bits than the operands.
pub bit_xor-lt : (k a b : ℕ) → a < 2 ^ k → b < 2 ^ k → bit_xor a b < 2 ^ k
bit_xor-lt zero zero b p q = omega (arith, zero-bit_xor b)
bit_xor-lt zero (suc a) b p q = absurd (omega arith)
bit_xor-lt (suc k) a b p q = omega (
  arith,
  bit_xor_step a b,
  pow-suc 2 k,
  bit_xor-lt k (a / 2) (b / 2) (omega (arith, pow-suc 2 k)) (omega (arith, pow-suc 2 k)),
)

double_suc : (q k : ℕ) → q * 2 ^ suc k ≡ 2 * (q * 2 ^ k)
double_suc q k = omega (arith, ap (λ (t : ℕ). q * t) (pow-suc 2 k))

-- Fields that do not overlap: exclusive or is the sum.
pub bit_xor_fields : (k l h : ℕ) → l < 2 ^ k → bit_xor l (h * 2 ^ k) ≡ l + h * 2 ^ k
bit_xor_fields zero zero h p = omega (arith, zero-bit_xor (h * 1))
bit_xor_fields zero (suc l) h p = absurd (omega arith)
bit_xor_fields (suc k) l h p = omega (
  arith,
  pow-suc 2 k,
  double_suc h k,
  bit_xor_step l (h * 2 ^ suc k),
  half_double h k,
  bit_xor_fields k (l / 2) h (omega (arith, pow-suc 2 k)),
)
  where
    half_double : (q k : ℕ) → bit_xor (l / 2) (q * 2 ^ suc k / 2) ≡ bit_xor (l / 2) (q * 2 ^ k)
    half_double q k = ap (λ (t : ℕ). bit_xor (l / 2) t) (omega (arith, double_suc q k))
