-- ===== src/Store.antt =====
-- How src/hstore.c divides the keys among its bitcasks, and `check_bucket` of src/htree.c, which
-- guards the tree of a bitcask. The store has 16 ^ height bitcasks; `hs_open` takes heights up to 3.
-- `safe_strtol`, which reads a number in base 16 by the C library, is a parameter.
pub mod Routing
pub mod Calls
pub mod Shows
pub mod Values
pub mod Casks
pub mod Hashes
use beansdb.Base.{
  ℕ, zero, suc, ◌+◌, ◌-◌, ◌*◌, ◌/◌, ◌%◌, ◌^◌, Bool, true, false, ◌&&◌, ◌||◌, not, Option, none,
  some, List, [], ◌∷◌, length, ltb, ◌==◌, if◌then◌else◌,
}
use beansdb.Base.Int.{ℤ, pos, negsuc}
use beansdb.Fnv.{fnv1a}

-- store->count
abbrev pub bitcask_count : ℕ → ℕ
bitcask_count height = 2 ^ (height * 4)

unfoldable pub get_index : ℕ → List ℕ → ℕ
get_index height key = if height == 0 then 0 else fnv1a key / 2 ^ ((8 - height) * 4)

-- check_bucket(tree, key, len)
unfoldable pub check_bucket : ℕ → ℕ → List ℕ → Bool
check_bucket depth place key = not (ltb 0 depth && not (fnv1a key / 2 ^ ((8 - depth) * 4) == place))

-- The range of the number that the digits are.
unfoldable pub digits_range : ℕ → ℕ → Option ℤ → Option (ℕ × ℕ)
digits_range height shift none = none
digits_range height shift (some (negsuc n)) = none
digits_range height shift (some (pos n)) =
    if ltb (bitcask_count height - 1) n
    then none
    else if ltb (bitcask_count height) (n * 2 ^ shift)
        || ltb (bitcask_count height) ((n + 1) * 2 ^ shift)
    then none
    else some (n * 2 ^ shift, (n + 1) * 2 ^ shift)

-- The range from `start` to `end` for "@" and hexadecimal digits, `none` where the source is false.
unfoldable pub tree2range : (List ℕ → Option ℤ) → List ℕ → ℕ → Option (ℕ × ℕ)
unfolding digits_range
tree2range safe_strtol [] height = none
tree2range safe_strtol (c ∷ digits) height =
    if not (c == 64)
    then none
    else if ltb height (length digits)
    then none
    else if length digits == 0
    then some (0, bitcask_count height)
    else digits_range height ((height - length digits) * 4) (safe_strtol digits)
