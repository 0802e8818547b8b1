-- ===== src/Varint/RoundTrip.antt =====
-- The variable-length integers of src/varint.h are read back.
use native.Mathlib.Nat.{add-mul, mul-add, mul_assoc, pow-suc}
use native.Mathlib.Decide.{dec_lt}
use mathlib.Core.Path.{ap₂}
use beansdb.Base.{
  ℕ, zero, suc, ◌+◌, ◌*◌, ◌/◌, ◌%◌, ◌^◌, ◌≤◌, ◌<◌, ◌≡◌, refl, ap, ◌∙◌, arith, some, List, ◌∷◌, ◌++◌,
  length, Bool-cases, eq→==, lt→ltb, le→ltb_false, inl, inr, ◌==◌,
}
use beansdb.Varint.{encode_rest, encode_varint, decode_rest, decode_varint}

-- A factor may be reduced first.
mod-factor : (a x q : ℕ) → (a + x % 2 ^ 64 * q) % 2 ^ 64 ≡ (a + x * q) % 2 ^ 64
mod-factor a x q =
    let w : ℕ = 2 ^ 64 in
    let whole : w * (x / w) + x % w ≡ x = omega arith in
    omega
      (arith, add-mul (w * (x / w)) (x % w) q, mul_assoc w (x / w) q, ap (λ (m : ℕ). m * q) whole)

-- Seven bits and the rest.
digit_lem :
    (acc multi n : ℕ)
    → ((acc + multi * (n % 2 ^ 7)) % 2 ^ 64 + multi * 2 ^ 7 % 2 ^ 64 * (n / 2 ^ 7)) % 2 ^ 64
      ≡ (acc + multi * n) % 2 ^ 64
digit_lem acc multi n =
    let v : ℕ = n % 2 ^ 7 in
    let q : ℕ = n / 2 ^ 7 in
    let whole : 2 ^ 7 * q + v ≡ n = omega arith in
    mod-factor ((acc + multi * v) % 2 ^ 64) (multi * 2 ^ 7) q
    ∙ omega (
      arith,
      mul-add multi (2 ^ 7 * q) v,
      mul_assoc multi (2 ^ 7) q,
      ap (λ (m : ℕ). multi * m) whole,
    )

-- The last byte, and a byte that has more behind it.
decode_rest-last :
    (acc multi len n : ℕ) (rest : List ℕ)
    → n < 2 ^ 7
    → decode_rest acc multi len (n % 2 ^ 7 ∷ rest) ≡ some ((acc + multi * n) % 2 ^ 64, len + 1)
unfolding decode_rest
decode_rest-last acc multi len n rest h =
    let low : n % 2 ^ 7 % 2 ^ 7 ≡ n = omega arith in ground (arith, ap (λ (m : ℕ). multi * m) low)

decode_rest-more :
    (acc multi len n : ℕ) (src : List ℕ)
    → decode_rest acc multi len ((n % 2 ^ 7 + 0x80) ∷ src)
      ≡ decode_rest ((acc + multi * (n % 2 ^ 7)) % 2 ^ 64) (multi * 2 ^ 7 % 2 ^ 64) (len + 1) src
unfolding decode_rest
decode_rest-more acc multi len n src =
    let low : (n % 2 ^ 7 + 0x80) % 2 ^ 7 ≡ n % 2 ^ 7 = omega arith in rw low (ground arith)

decode_rest-encode_rest :
    (fuel n acc multi len : ℕ) (rest : List ℕ)
    → n < (2 ^ 7) ^ suc fuel
    → decode_rest acc multi len (encode_rest (suc fuel) n ++ rest)
      ≡ some ((acc + multi * n) % 2 ^ 64, len + length (encode_rest (suc fuel) n))
unfolding encode_rest
decode_rest-encode_rest zero n acc multi len rest small =
    rw (eq→== (n / 2 ^ 7) 0 (omega arith)) (decode_rest-last acc multi len n rest (omega arith))
decode_rest-encode_rest (suc fuel) n acc multi len rest small = elim (Bool-cases (n / 2 ^ 7 == 0)) [
  | inl e ↦ rw e (decode_rest-last acc multi len n rest (ground (arith, e)))
  | inr e ↦ rw e (
      decode_rest-more acc multi len n (encode_rest (suc fuel) (n / 2 ^ 7) ++ rest)
      ∙ decode_rest-encode_rest fuel (n / 2 ^ 7) _ _ (len + 1) rest
          (omega (arith, pow-suc (2 ^ 7) (suc fuel), small))
      ∙ ap₂ (λ (m l : ℕ). some (m, l)) (digit_lem acc multi n) (omega arith))
]

decode_long :
    (n : ℕ) (src : List ℕ)
    → decode_varint ((n % 2 ^ 6 + 0xc0) ∷ src) ≡ decode_rest (n % 2 ^ 6) 64 1 src
unfolding decode_varint
decode_long n src =
    let low : (n % 2 ^ 6 + 0xc0) % 2 ^ 7 ≡ n % 2 ^ 6 + 64 = omega arith in
    let digit : (n % 2 ^ 6 + 64) % 2 ^ 6 ≡ n % 2 ^ 6 = omega arith in
    rw (low, digit, le→ltb_false (n % 2 ^ 6 + 64) 64 (omega arith)) refl

-- A 64-bit number is read back from the bytes that encode it, whatever follows them, and as many
-- bytes are read as were written.
pub decode_varint-encode_varint :
    (n : ℕ) (rest : List ℕ)
    → n < 2 ^ 64
    → decode_varint (encode_varint n ++ rest) ≡ some (n, length (encode_varint n))
unfolding encode_varint
decode_varint-encode_varint n rest word = elim (dec_lt n 64) [
  | yes short ↦ rw (lt→ltb n 64 short) (unfold decode_varint in ground arith)
  | no long ↦ rw (le→ltb_false n 64 (omega arith)) (
      decode_long n (encode_rest 9 (n / 2 ^ 6) ++ rest)
      ∙ decode_rest-encode_rest 8 (n / 2 ^ 6) (n % 2 ^ 6) 64 1 rest (omega arith)
      ∙ ap₂ (λ (m l : ℕ). some (m, l)) (omega arith) (omega arith))
]

length-encode_rest : (fuel n : ℕ) → length (encode_rest fuel n) ≤ fuel
unfolding encode_rest
length-encode_rest zero n = omega arith
length-encode_rest (suc fuel) n = ground (arith, length-encode_rest fuel (n / 2 ^ 7))

-- A number is encoded in at most ten bytes.
pub length-encode_varint : (n : ℕ) → length (encode_varint n) ≤ 10
unfolding encode_varint
length-encode_varint n = ground (arith, length-encode_rest 9 (n / 2 ^ 6))
