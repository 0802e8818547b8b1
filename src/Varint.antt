-- ===== src/Varint.antt =====
-- The variable-length integers of src/varint.h. A byte is a number below 256, a buffer the list of its
-- bytes; a read past its end is `none`. The numbers have 64 bits: `encode_varint` writes at most nine
-- bytes after the first.
pub mod RoundTrip
pub mod Old
use beansdb.Base.{
  ℕ, zero, suc, ◌+◌, ◌-◌, ◌*◌, ◌/◌, ◌%◌, ◌^◌, Option, none, some, List, [], ◌∷◌, ltb, ◌==◌,
  if◌then◌else◌,
}

-- The loop that writes 7 bits at a time, with the last byte's high bit cleared after it.
unfoldable pub encode_rest : ℕ → ℕ → List ℕ
encode_rest zero n = []
encode_rest (suc fuel) n =
    let bytes = encode_rest fuel (n / 2 ^ 7) in
    if n / 2 ^ 7 == 0 then n % 2 ^ 7 ∷ [] else (n % 2 ^ 7 + 0x80) ∷ bytes

unfoldable pub encode_varint : ℕ → List ℕ
encode_varint n =
    if ltb n 64 then (n + 0x80) ∷ [] else (n % 2 ^ 6 + 0xc0) ∷ encode_rest 9 (n / 2 ^ 6)

-- The number and how many bytes were read.
unfoldable pub decode_rest : ℕ → ℕ → ℕ → List ℕ → Option (ℕ × ℕ)
decode_rest n multi len [] = none
decode_rest n multi len (b ∷ src) =
    let n' = (n + multi * (b % 2 ^ 7)) % 2 ^ 64 in
    let rest = decode_rest n' (multi * 2 ^ 7 % 2 ^ 64) (len + 1) src in
    if b / 2 ^ 7 % 2 == 0 then some (n', len + 1) else rest

unfoldable pub decode_varint : List ℕ → Option (ℕ × ℕ)
decode_varint [] = none
decode_varint (b ∷ src) =
    let n = b % 2 ^ 7 in if ltb n 64 then some (n, 1) else decode_rest (n % 2 ^ 6) 64 1 src
