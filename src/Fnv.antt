-- ===== src/Fnv.antt =====
-- The hash of src/fnv1a.h, and `gen_hash` of src/record.c over it.
use beansdb.Base.Words.{IsU32}
use beansdb.Base.{
  arith, ℕ, ◌+◌, ◌-◌, ◌*◌, ◌%◌, ◌^◌, bit_xor, List, [], ◌∷◌, length, take, drop, leb, ltb,
  if◌then◌else◌,
}

-- (uint32_t)key[i] of a signed char: a byte from 128 on is extended with ones.
extend_sign : ℕ → ℕ
extend_sign b = if ltb b 128 then b else b + 0xffffff00

fnv1a_loop : ℕ → List ℕ → ℕ
unfolding extend_sign
fnv1a_loop h [] = h
fnv1a_loop h (b ∷ key) = fnv1a_loop (bit_xor h (extend_sign b) * 0x01000193 % 2 ^ 32) key

unfoldable pub fnv1a : List ℕ → ℕ
unfolding fnv1a_loop
fnv1a key = fnv1a_loop 0x811c9dc5 key

-- The hash of a value: all of it up to 1024 bytes, else its first and its last 512.
unfoldable pub gen_hash : List ℕ → ℕ
gen_hash buf =
    let len = length buf in
    let hash = len * 97 % 2 ^ 32 in
    if leb len 1024
    then (hash + fnv1a buf) % 2 ^ 32
    else (((hash + fnv1a (take 512 buf)) % 2 ^ 32 * 97 % 2 ^ 32 + fnv1a (drop (len - 512) buf))
        % 2 ^ 32)

fnv1a_loop-IsU32 : (h : ℕ) (key : List ℕ) → IsU32 h → IsU32 (fnv1a_loop h key)
unfolding fnv1a_loop
fnv1a_loop-IsU32 h [] w = w
fnv1a_loop-IsU32 h (b ∷ key) w =
    fnv1a_loop-IsU32 (bit_xor h (extend_sign b) * 0x01000193 % 2 ^ 32) key (omega arith)

pub fnv1a-IsU32 : (key : List ℕ) → IsU32 (fnv1a key)
unfolding fnv1a
fnv1a-IsU32 key = fnv1a_loop-IsU32 0x811c9dc5 key (omega arith)
