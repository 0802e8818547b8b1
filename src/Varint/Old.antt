-- ===== src/Varint/Old.antt =====
-- The older form of src/varint.h, of one or two bytes, for the numbers of a dictionary.
use beansdb.Base.{
  ℕ, zero, suc, ◌+◌, ◌-◌, ◌*◌, ◌/◌, ◌%◌, ◌^◌, ◌<◌, ◌≡◌, refl, arith, Option, none, some, List, [],
  ◌∷◌, ◌++◌, length, ltb, if◌then◌else◌,
}
use beansdb.Base.Int.{ℤ, pos, negsuc}

-- A char is signed; the negative numbers stand as their bytes.
unfoldable pub encode_varint_old : ℕ → List ℕ
encode_varint_old n =
    if ltb n 64 then (256 - n) % 256 ∷ [] else (256 - n % 64 - 64) ∷ n / 2 ^ 6 % 256 ∷ []

-- -*src where that is negative.
abbrev negated : ℕ → ℤ
negated zero = pos zero
negated (suc m) = negsuc m

unfoldable pub decode_varint_old : List ℕ → Option (ℤ × ℕ)
decode_varint_old [] = none
decode_varint_old (b ∷ src) =
    let n = 256 - b in
    if ltb b 128
    then some (negated b, 1)
    else if ltb n 64
    then some (pos n, 1)
    else elim src [ [] ↦ none | c ∷ rest ↦ some (pos (n - 64 + c * 2 ^ 6), 2) ]

-- A number below 2 ^ 14 is read back from the bytes of the older form, whatever follows them, and as
-- many bytes are read as were written.
pub decode_varint_old-encode_varint_old :
    (n : ℕ) (rest : List ℕ)
    → n < 2 ^ 14
    → decode_varint_old (encode_varint_old n ++ rest) ≡ some (pos n, length (encode_varint_old n))
unfolding decode_varint_old encode_varint_old
decode_varint_old-encode_varint_old zero rest h = refl
decode_varint_old-encode_varint_old (suc m) rest h = ground arith
