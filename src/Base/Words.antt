-- ===== src/Base/Words.antt =====
-- Little-endian fields of a machine word in memory.
use native.Mathlib.Nat.{pow-suc}
use beansdb.Base.{
  ℕ, zero, suc, ◌+◌, ◌*◌, ◌/◌, ◌%◌, ◌^◌, ◌<◌, ◌≡◌, refl, ap, arith, List, [], ◌∷◌, length, take,
  drop, All,
}

abbrev pub IsByte : ℕ → Type 0
IsByte b = b < 256

abbrev pub IsU32 : ℕ → Type 0
IsU32 v = v < 2 ^ 32

-- The low `n` bytes of `v`, lowest first.
unfoldable pub to_bytes : ℕ → ℕ → List ℕ
to_bytes zero v = []
to_bytes (suc n) v = (v % 256) ∷ to_bytes n (v / 256)

unfoldable pub of_bytes : List ℕ → ℕ
of_bytes [] = 0
of_bytes (b ∷ bs) = b + 256 * of_bytes bs

-- The `n` bytes at an offset, read as a number. What lies past the end reads as nothing.
unfoldable pub field_at : ℕ → ℕ → List ℕ → ℕ
field_at n offset buf = of_bytes (take n (drop offset buf))

pub length-to_bytes : (n v : ℕ) → length (to_bytes n v) ≡ n
unfolding to_bytes
length-to_bytes zero v = refl
length-to_bytes (suc n) v = ap suc (length-to_bytes n (v / 256))

pub of_bytes-to_bytes : (n v : ℕ) → v < 256 ^ n → of_bytes (to_bytes n v) ≡ v
unfolding to_bytes of_bytes
of_bytes-to_bytes zero v h = omega arith
of_bytes-to_bytes (suc n) v h =
    omega (arith, of_bytes-to_bytes n (v / 256) (omega (arith, pow-suc 256 n)))

pub to_bytes-IsByte : (n v : ℕ) → All IsByte (to_bytes n v)
unfolding to_bytes
to_bytes-IsByte zero v = tt
to_bytes-IsByte (suc n) v = (omega arith, to_bytes-IsByte n (v / 256))
