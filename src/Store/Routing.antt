-- ===== src/Store/Routing.antt =====
-- Keys, bitcasks and ranges of src/hstore.c agree.
use beansdb.Base.{
  ℕ, zero, suc, ◌+◌, ◌-◌, ◌*◌, ◌/◌, ◌^◌, ◌≤◌, ◌<◌, ◌≡◌, ◌↔◌, arith, true, Option, none, some, List,
  [], ◌∷◌, length, drop,
}
use beansdb.Base.Int.{ℤ, pos, negsuc}
use beansdb.Fnv.{fnv1a-IsU32}
use beansdb.Store.{bitcask_count, get_index, check_bucket, digits_range, tree2range}

-- A store of a height that can be opened routes each key to one of its bitcasks.
pub get_index-lt-bitcask_count :
    (height : ℕ) (key : List ℕ) → height ≤ 3 → get_index height key < bitcask_count height
unfolding get_index
get_index-lt-bitcask_count zero key h = ground arith
get_index-lt-bitcask_count (suc zero) key h = ground (arith, fnv1a-IsU32 key)
get_index-lt-bitcask_count (suc (suc zero)) key h = ground (arith, fnv1a-IsU32 key)
get_index-lt-bitcask_count (suc (suc (suc zero))) key h = ground (arith, fnv1a-IsU32 key)
get_index-lt-bitcask_count (suc (suc (suc (suc n)))) key h = absurd (omega arith)

-- Among the bitcasks of a store, the tree that takes a key is the one at the key's index.
pub check_bucket_iff_get_index :
    (height place : ℕ) (key : List ℕ)
    → place < bitcask_count height
    → (check_bucket height place key ≡ true) ↔ (place ≡ get_index height key)
unfolding check_bucket get_index
check_bucket_iff_get_index zero place key p = ground arith
check_bucket_iff_get_index (suc n) place key p = ground arith

-- A range covers the bitcasks whose index starts with its digits. `d` is the number of digits that
-- the index has behind them.
digits_range-covers :
    (height d start stop i : ℕ) (n : Option ℤ)
    → d ≤ 2
    → digits_range height (d * 4) n ≡ some (start, stop)
    → (stop ≤ bitcask_count height)
      × (((start ≤ i) × (i < stop)) ↔ (n ≡ some (pos (i / 2 ^ (d * 4)))))
unfolding digits_range
digits_range-covers height d start stop i none l h = cc
digits_range-covers height d start stop i (some (negsuc m)) l h = cc
digits_range-covers height zero start stop i (some (pos m)) l h = ground arith
digits_range-covers height (suc zero) start stop i (some (pos m)) l h = ground arith
digits_range-covers height (suc (suc zero)) start stop i (some (pos m)) l h = ground arith
digits_range-covers height (suc (suc (suc d))) start stop i (some (pos m)) l h =
    absurd (omega arith)

-- In a store of a height that can be opened, the range of "@" and some digits ends within the store
-- and holds the bitcasks whose index starts with the number that the digits are.
pub tree2range-covers :
    (safe_strtol : List ℕ → Option ℤ) (tree : List ℕ) (height start stop i : ℕ)
    → height ≤ 3
    → 2 ≤ length tree
    → tree2range safe_strtol tree height ≡ some (start, stop)
    → (stop ≤ bitcask_count height)
      × (((start ≤ i) × (i < stop))
          ↔ (safe_strtol (drop 1 tree) ≡ some (pos (i / 2 ^ ((height + 1 - length tree) * 4)))))
unfolding tree2range
tree2range-covers safe_strtol [] height start stop i h l e = cc
tree2range-covers safe_strtol (c ∷ digits) height start stop i h l e =
    let d : ℕ = height - length digits in
    let same : height + 1 - suc (length digits) ≡ d = omega arith in
    let read : digits_range height (d * 4) (safe_strtol digits) ≡ some (start, stop) =
      ground (arith, e, l) in
    rw same (
      digits_range-covers height d start stop i (safe_strtol digits) (ground (arith, e, h, l)) read)
