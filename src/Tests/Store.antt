-- ===== src/Tests/Store.antt =====
-- The division of the keys in src/hstore.c on concrete keys and ranges.
use beansdb.Base.{
  ℕ, ◌+◌, ◌-◌, ◌*◌, ◌/◌, ◌%◌, ◌^◌, ◌≤◌, ◌<◌, ◌≡◌, ◌↔◌, refl, arith, true, Option, some, List, [],
  ◌∷◌, length, drop, ltb, if◌then◌else◌,
}
use beansdb.Base.Int.{ℤ, pos}
use beansdb.Fnv.{fnv1a}
use beansdb.Store.{bitcask_count, get_index, check_bucket, tree2range, digits_range}
use beansdb.Store.Hashes.{hs_get_hash, sum_over, number_from, hs_get_hash-count}
use beansdb.Store.Routing.{check_bucket_iff_get_index, tree2range-covers}

-- "foo"
abbrev foo : List ℕ
foo = 102 ∷ 111 ∷ 111 ∷ []

fnv1a-foo : fnv1a foo ≡ 0xa9f37ed7
unfolding fnv1a
fnv1a-foo = refl

check_bucket_iff_get_index_example : (check_bucket 2 0xa9 foo ≡ true) ↔ (0xa9 ≡ get_index 2 foo)
check_bucket_iff_get_index_example = check_bucket_iff_get_index 2 0xa9 foo (ground arith)

-- The number in base 16, of decimal digits and small letters.
hex_loop : ℕ → List ℕ → ℕ
hex_loop n [] = n
hex_loop n (c ∷ digits) = hex_loop (n * 16 + (if ltb c 97 then c - 48 else c - 87)) digits

abbrev read_hex : List ℕ → Option ℤ
read_hex digits = some (pos (hex_loop 0 digits))

-- "@a" in a store of height 2
tree2range_a : tree2range read_hex (64 ∷ 97 ∷ []) 2 ≡ some (0xa0, 0xb0)
unfolding tree2range digits_range hex_loop
tree2range_a = refl

tree2range-covers_example :
    (0xb0 ≤ bitcask_count 2)
    × (((0xa0 ≤ 0xa9) × (0xa9 < 0xb0)) ↔ (
        read_hex (drop 1 (64 ∷ 97 ∷ []))
        ≡ some (pos (0xa9 / 2 ^ ((2 + 1 - length {A = ℕ} (64 ∷ 97 ∷ [])) * 4)))))
tree2range-covers_example =
    tree2range-covers read_hex (64 ∷ 97 ∷ []) 2 0xa0 0xb0 0xa9 (ground arith) (ground arith)
      tree2range_a

-- Two levels of bitcasks, with as many keys as their index.
hs_get_hash-count_example :
    (hs_get_hash 2 (λ i. (7, i)) (10 ∷ [])).1 % 2 ^ 32
    ≡ sum_over (λ i. i) (number_from 0 (10 ∷ []) * 16 ^ (2 - 1)) (16 ^ (2 - 1)) % 2 ^ 32
hs_get_hash-count_example = hs_get_hash-count (λ i. (7, i)) 2 (10 ∷ []) (ground arith)
