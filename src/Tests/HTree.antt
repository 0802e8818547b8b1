-- ===== src/Tests/HTree.antt =====
-- The index of src/htree.c on concrete keys.
use beansdb.Base.{ℕ, ◌≡◌, ◌≤◌, ◌++◌, arith, none, List, [], ◌∷◌, true, false, if◌then◌else◌}
use beansdb.Base.Int.{pos}
use beansdb.Fnv.{fnv1a}
use beansdb.HTree.{Item, Data, Head, Node, clear, same_key, find_item}
use beansdb.HTree.Tree.{get_item, add_item, remove_item}
use beansdb.HTree.Chain.{IsChain}
use beansdb.HTree.Lookup.{IsValid, clear-IsValid}
use beansdb.HTree.Insert.{add_item-IsValid}
use beansdb.HTree.Remove.{remove_item-IsValid, get_item-remove_item}
use beansdb.HTree.Digested.{IsDigested, clear-IsDigested, add_item-IsDigested}
use beansdb.HTree.Pool.{ht_new, ht_get2, Op, add, remove, run}
use beansdb.HTree.Blocks.{occurs}
use beansdb.HTree.Visit.{visit_items, items_below}
use beansdb.HTree.Pool.Visits.{ht_visit, ht_visit-run}
use beansdb.HTree.Pool.Refines.{lookup, IsPool, ht_new-IsPool, run-IsPool, ht_get2-run}

abbrev item_a : Item
item_a = record { pos = 256; ver = pos 1; hash = 7; key = 97 ∷ [] }

abbrev item_b : Item
item_b = record { pos = 512; ver = pos 3; hash = 9; key = 98 ∷ [] }

abbrev history : List Op
history = add item_b ∷ remove (97 ∷ []) ∷ add item_a ∷ []

ht_get2-run_example :
    ht_get2 fnv1a (98 ∷ []) (run fnv1a history (ht_new 1 false)) ≡ lookup (98 ∷ []) history
ht_get2-run_example = ht_get2-run fnv1a history (98 ∷ []) 1 false (ground arith)

-- The walk that collects the items, with the keys as they are.
ht_visit-run_example :
    let t = run fnv1a history (ht_new 1 false) in
    (ht_visit (λ p s. s ++ p ∷ []) (λ key. key) t []
      ≡ visit_items (λ p s. s ++ p ∷ []) (λ key. key) (items_below t.root) [])
    × ((k : List ℕ)
        → (find_item k (items_below t.root) ≡ lookup k history)
          × (occurs k (items_below t.root) ≤ 1))
ht_visit-run_example =
    ht_visit-run fnv1a (λ p s. s ++ p ∷ []) (λ key. key) [] history 1 false (ground arith)

run-IsPool_example : IsPool (run fnv1a history (ht_new 1 false))
run-IsPool_example =
    run-IsPool fnv1a history (ht_new 1 false) (ht_new-IsPool fnv1a 1 false (ground arith))

abbrev chain : List Data
chain = record { size = 64; used = 20; items = [] } ∷ []

chain-IsChain : IsChain chain
chain-IsChain = unfold IsValid clear in clear-IsValid

abbrev head : Head
head = record { valid = true; hash = 0; count = 0 }

-- The tree that holds the first item.
one_item : Node
one_item = (add_item fnv1a 256 true 0 1 item_a (fnv1a item_a.key) clear).0

one_item-IsValid : IsValid one_item
unfolding one_item
one_item-IsValid = add_item-IsValid fnv1a 256 true 0 1 item_a clear clear-IsValid

add_item-IsValid_example :
    IsValid (add_item fnv1a 256 true 0 1 item_b (fnv1a item_b.key) one_item).0
add_item-IsValid_example = add_item-IsValid fnv1a 256 true 0 1 item_b one_item one_item-IsValid

remove_item-IsValid_example : IsValid (remove_item 1 (fnv1a (97 ∷ [])) (97 ∷ []) one_item)
remove_item-IsValid_example = remove_item-IsValid fnv1a 1 (97 ∷ []) one_item one_item-IsValid

get_item-remove_item_example :
    get_item 1 (fnv1a (97 ∷ [])) (97 ∷ []) (remove_item 1 (fnv1a (97 ∷ [])) (97 ∷ []) one_item) ≡ (
      if same_key (97 ∷ []) (97 ∷ [])
      then none
      else get_item 1 (fnv1a (97 ∷ [])) (97 ∷ []) one_item)
get_item-remove_item_example =
    get_item-remove_item fnv1a 1 (97 ∷ []) one_item (97 ∷ []) one_item-IsValid

one_item-IsDigested : IsDigested fnv1a one_item
unfolding one_item
one_item-IsDigested =
    add_item-IsDigested fnv1a 256 true 0 1 item_a clear (ground arith) clear-IsValid
      (clear-IsDigested fnv1a)

add_item-IsDigested_example :
    IsDigested fnv1a (add_item fnv1a 256 true 0 1 item_b (fnv1a item_b.key) one_item).0
add_item-IsDigested_example =
    add_item-IsDigested fnv1a 256 true 0 1 item_b one_item (ground arith) one_item-IsValid
      one_item-IsDigested
