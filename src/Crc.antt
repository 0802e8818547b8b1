-- ===== src/Crc.antt =====
-- The checksum of src/crc32.c.
mod Table
pub mod Reference
use Table.{crc32_table}
use beansdb.Base.{
  ℕ, zero, suc, ◌+◌, ◌-◌, ◌/◌, ◌%◌, ◌^◌, ◌<◌, bit_xor, List, [], ◌∷◌, get_or, if◌then◌else◌, ◌==◌,
}

-- `~x` of a uint32_t.
abbrev complement : ℕ → ℕ
complement x = 0xffffffff - x

-- crc32_table[(crc ^ *buf) & 0xff] ^ (crc >> 8)
crc32_byte : ℕ → ℕ → ℕ
unfolding crc32_table
crc32_byte crc b = bit_xor (get_or crc32_table (bit_xor crc b % 256) 0) (crc / 2 ^ 8)

crc32_loop : ℕ → List ℕ → ℕ
crc32_loop crc [] = crc
crc32_loop crc (b ∷ buf) = crc32_loop (crc32_byte crc b) buf

unfoldable pub crc32 : ℕ → List ℕ → ℕ
unfolding crc32_loop crc32_byte
crc32 crc buf = complement (crc32_loop (complement crc) buf)
