-- ===== src/Tests/Varint.antt =====
-- The variable-length integers of src/varint.h on concrete numbers.
use beansdb.Base.{◌≡◌, refl, some, [], ◌∷◌, ◌++◌, length, arith}
use beansdb.Varint.{encode_varint, encode_rest, decode_varint}
use beansdb.Varint.RoundTrip.{decode_varint-encode_varint}

encode_varint_1000 : encode_varint 1000 ≡ 232 ∷ 15 ∷ []
unfolding encode_varint encode_rest
encode_varint_1000 = refl

decode_varint-encode_varint_example :
    decode_varint (encode_varint 1000 ++ 7 ∷ []) ≡ some (1000, length (encode_varint 1000))
decode_varint-encode_varint_example = decode_varint-encode_varint 1000 (7 ∷ []) (ground arith)
