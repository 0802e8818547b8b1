-- ===== src/Crc/Reference.antt =====
-- The table-driven loop of src/crc32.c against the polynomial division that it stands for.
use native.Mathlib.Nat.{pow-suc}
use beansdb.Base.{
  ℕ, zero, suc, ◌-◌, ◌*◌, ◌/◌, ◌%◌, ◌^◌, ◌<◌, bit_xor, ◌≡◌, refl, sym, ap, ◌∙◌, arith, Bool, true,
  ◌&&◌, List, [], ◌∷◌, ◌++◌, get_or, All, if◌then◌else◌, ◌==◌, ltb, ltb→lt,
}
use beansdb.Base.Bits.{
  bit_xor-zero, bit_xor-half, bit_xor-parity, bit_xor_assoc, bit_xor_comm, bit_xor-lt,
  bit_xor_fields,
}
use beansdb.Base.Words.{IsByte, IsU32}
use beansdb.Crc.{crc32_byte, crc32_loop, crc32}
use beansdb.Crc.Table.{crc32_table}

-- The reversed polynomial of CRC-32.
abbrev polynomial : ℕ
polynomial = 0xedb88320

-- One bit of the division.
divide_bit : ℕ → ℕ
divide_bit x = if x % 2 == 0 then x / 2 else bit_xor (x / 2) polynomial

divide_bits : ℕ → ℕ → ℕ
divide_bits zero x = x
divide_bits (suc n) x = divide_bits n (divide_bit x)

-- CRC-32 bit by bit.
divide_loop : ℕ → List ℕ → ℕ
divide_loop crc [] = crc
divide_loop crc (b ∷ buf) = divide_loop (divide_bits 8 (bit_xor crc b)) buf

pub crc32_bitwise : ℕ → List ℕ → ℕ
crc32_bitwise crc buf = 0xffffffff - divide_loop (0xffffffff - crc) buf

agree_below : ℕ → (ℕ → Bool) → Bool
agree_below zero p = true
agree_below (suc n) p = p n && agree_below n p

agree_below_sound : (n : ℕ) (p : ℕ → Bool) (x : ℕ) → agree_below n p ≡ true → x < n → p x ≡ true
unfolding agree_below
agree_below_sound zero p x h lt = absurd (omega arith)
agree_below_sound (suc n) p x h lt = ground (arith, agree_below_sound n p x)

table_check : agree_below 256 (λ i. get_or crc32_table i 0 == divide_bits 8 i) ≡ true
unfolding agree_below crc32_table divide_bits divide_bit
table_check = refl

entry_check : agree_below 256 (λ i. ltb (get_or crc32_table i 0) (2 ^ 32)) ≡ true
unfolding agree_below crc32_table
entry_check = refl

entry_lem : (i : ℕ) → i < 256 → get_or crc32_table i 0 < 2 ^ 32
entry_lem i h =
    ltb→lt _ _ (agree_below_sound 256 (λ j. ltb (get_or crc32_table j 0) (2 ^ 32)) i entry_check h)

table_lem : (i : ℕ) → i < 256 → get_or crc32_table i 0 ≡ divide_bits 8 i
table_lem i h =
    let p =
      agree_below_sound 256 (λ j. get_or crc32_table j 0 == divide_bits 8 j) i table_check h in
    ground (arith, p)

-- A step of the division is linear, and passes what stands above the divided bit on.
divide_bit-above : (l y : ℕ) → divide_bit (bit_xor l (2 * y)) ≡ bit_xor (divide_bit l) y
unfolding divide_bit
divide_bit-above l y = ground (
  arith,
  bit_xor-parity l (2 * y),
  half_above,
  bit_xor_assoc (l / 2) y polynomial,
  bit_xor_comm y polynomial,
  bit_xor_assoc (l / 2) polynomial y,
)
  where
    half_above : bit_xor l (2 * y) / 2 ≡ bit_xor (l / 2) y
    half_above = bit_xor-half l (2 * y) ∙ ap (λ (t : ℕ). bit_xor (l / 2) t) (omega arith)

divide_bits-above :
    (n l h : ℕ) → divide_bits n (bit_xor l (h * 2 ^ n)) ≡ bit_xor (divide_bits n l) h
unfolding divide_bits
divide_bits-above zero l h = ap (λ (t : ℕ). bit_xor l t) (omega arith)
divide_bits-above (suc n) l h =
    ap (λ (t : ℕ). divide_bits n (divide_bit (bit_xor l t)))
      (omega (arith, ap (λ (t : ℕ). h * t) (pow-suc 2 n)))
    ∙ ap (divide_bits n) (divide_bit-above l (h * 2 ^ n))
    ∙ divide_bits-above n (divide_bit l) h

abbrev halves : ℕ → ℕ → ℕ
halves zero x = x
halves (suc k) x = halves k (x / 2)

halves-bit_xor : (k a b : ℕ) → halves k (bit_xor a b) ≡ bit_xor (halves k a) (halves k b)
halves-bit_xor zero a b = refl
halves-bit_xor (suc k) a b = rw (bit_xor-half a b) (halves-bit_xor k (a / 2) (b / 2))

-- One lookup in the table does the eight steps of a byte.
crc32_byte-eq-divide_bits : (crc b : ℕ) → b < 256 → crc32_byte crc b ≡ divide_bits 8 (bit_xor crc b)
unfolding crc32_byte
crc32_byte-eq-divide_bits crc b h =
    let x = bit_xor crc b in
    rw (table_lem (x % 256) (omega arith), high)
      (sym (divide_bits-above 8 (x % 256) (x / 2 ^ 8))
        ∙ ap (divide_bits 8) (bit_xor_fields 8 (x % 256) (x / 2 ^ 8) (omega arith) ∙ omega arith))
  where
    high : crc / 2 ^ 8 ≡ bit_xor crc b / 2 ^ 8
    high =
        omega arith
        ∙ sym (bit_xor-zero (halves 8 crc))
        ∙ ap (λ (t : ℕ). bit_xor (halves 8 crc) t) (omega arith)
        ∙ sym (halves-bit_xor 8 crc b)
        ∙ omega arith

crc32_byte-IsU32 : (crc b : ℕ) → IsU32 crc → IsByte b → IsU32 (crc32_byte crc b)
unfolding crc32_byte
crc32_byte-IsU32 crc b p q =
    bit_xor-lt 32 _ _ (entry_lem (bit_xor crc b % 256) (omega arith)) (omega arith)

crc32_loop-eq-divide_loop :
    (crc : ℕ) (buf : List ℕ) → All IsByte buf → crc32_loop crc buf ≡ divide_loop crc buf
unfolding crc32_loop divide_loop
crc32_loop-eq-divide_loop crc [] h = refl
crc32_loop-eq-divide_loop crc (b ∷ buf) h =
    rw (crc32_byte-eq-divide_bits crc b h.0)
      (crc32_loop-eq-divide_loop (divide_bits 8 (bit_xor crc b)) buf h.1)

-- The table-driven checksum of a buffer of bytes is the CRC-32 computed bit by bit.
pub crc32-eq-crc32_bitwise :
    (crc : ℕ) (buf : List ℕ) → All IsByte buf → crc32 crc buf ≡ crc32_bitwise crc buf
unfolding crc32 crc32_bitwise
crc32-eq-crc32_bitwise crc buf h = rw (crc32_loop-eq-divide_loop (0xffffffff - crc) buf h)

crc32_loop-IsU32 :
    (crc : ℕ) (buf : List ℕ) → IsU32 crc → All IsByte buf → IsU32 (crc32_loop crc buf)
unfolding crc32_loop
crc32_loop-IsU32 crc [] p h = p
crc32_loop-IsU32 crc (b ∷ buf) p h =
    crc32_loop-IsU32 (crc32_byte crc b) buf (crc32_byte-IsU32 crc b p h.0) h.1

crc32_loop-append :
    (crc : ℕ) (a b : List ℕ) → crc32_loop crc (a ++ b) ≡ crc32_loop (crc32_loop crc a) b
unfolding crc32_loop
crc32_loop-append crc [] b = refl
crc32_loop-append crc (x ∷ a) b = crc32_loop-append (crc32_byte crc x) a b

pub crc32-IsU32 : (crc : ℕ) (buf : List ℕ) → IsU32 (crc32 crc buf)
unfolding crc32
crc32-IsU32 crc buf = omega arith

-- The checksum of a buffer is found part by part: the second call starts from the result of the
-- first, where that was on bytes.
pub crc32-append :
    (crc : ℕ) (a b : List ℕ) → All IsByte a → crc32 (crc32 crc a) b ≡ crc32 crc (a ++ b)
unfolding crc32
crc32-append crc a b h = rw (crc32_loop-append (0xffffffff - crc) a b) (
    ap (λ (t : ℕ). 0xffffffff - crc32_loop t b)
      (omega (arith, crc32_loop-IsU32 (0xffffffff - crc) a (omega arith) h)))
