-- ===== src/Tests/Crc.antt =====
-- The checksum of src/crc32.c on concrete bytes.
use beansdb.Base.{ℕ, ◌≡◌, refl, List, [], ◌∷◌, All, arith}
use beansdb.Base.Words.{IsByte}
use beansdb.Crc.{crc32}
use beansdb.Crc.Reference.{crc32_bitwise, crc32-eq-crc32_bitwise}

-- "123456789"
abbrev digits : List ℕ
digits = 49 ∷ 50 ∷ 51 ∷ 52 ∷ 53 ∷ 54 ∷ 55 ∷ 56 ∷ 57 ∷ []

digits-IsByte : All IsByte digits
digits-IsByte = ground arith

crc32-digits : crc32 0 digits ≡ 0xcbf43926
unfolding crc32
crc32-digits = refl

crc32-eq-crc32_bitwise_example : crc32 0 digits ≡ crc32_bitwise 0 digits
crc32-eq-crc32_bitwise_example = crc32-eq-crc32_bitwise 0 digits digits-IsByte
