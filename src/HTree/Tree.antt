-- ===== src/HTree/Tree.antt =====
-- The operations of src/htree.c that walk the tree.
use beansdb.Base.{
  ℕ, zero, suc, ◌+◌, ◌-◌, ◌*◌, ◌%◌, ◌^◌, Bool, true, false, ◌&&◌, Option, none, some, List, [], ◌∷◌,
  ltb, ◌==◌, if◌then◌else◌,
}
use beansdb.HTree.{
  Item, Data, Head, Node, leaf, inner, split_limit, item_length, is_live, item_hash, index,
  same_key, find_item, find_data, clear, add_leaf, set_child, items_of, distribute,
}

-- node->count and node->hash
unfoldable pub head_of : Node → Head
head_of (leaf h ds) = h
head_of (inner h children) = h

-- get_data(node)
unfoldable pub data_of : Node → List Data
data_of (leaf h ds) = ds
data_of (inner h children) = []

-- One item put into a tree: `block_size`, and `kh` for `key_hash`.
module _ (kh : List ℕ → ℕ) (block_size : ℕ) where
  -- split_node
  unfoldable pub split_node : (Item → ℕ → Node → Node) → ℕ → Head → List Data → Node
  split_node add level h ds =
      inner (record h { valid = false }) (distribute kh add level (items_of ds) (λ i. clear))

  -- `add_item` at a leaf. A leaf that gets a new item and then has more than 64 is split if the pool
  -- has a level for its children; the second component tells that the pool was enlarged for them.
  unfoldable pub settle :
      Bool → Bool → (Item → ℕ → Node → Node) → ℕ → Item → ℕ → Head → List Data → Node × Bool
  settle may_enlarge at_bottom add level it keyhash h ds =
      let (h', ds') = add_leaf block_size it keyhash h ds in
      elim (find_data it.key ds) [
        | some p ↦ (leaf h' ds', false)
        | none ↦
            if ltb split_limit h'.count
            then (if at_bottom
                then (if may_enlarge && ltb (split_limit * 4) h'.count
                    then (split_node add level h' ds', true)
                    else (leaf h' ds', false))
                else (split_node add level h' ds', false))
            else (leaf h' ds', false)
      ]

  -- `add_item` with `enlarge` false. The loop down the tree marks the nodes that it passes.
  unfoldable pub insert : ℕ → ℕ → Item → ℕ → Node → Node
  insert zero level it keyhash (inner h children) =
      let b = index level keyhash in
      inner (record h { valid = false })
        (set_child children b (insert zero (suc level) it keyhash (children b)))
  insert (suc k) level it keyhash (inner h children) =
      let b = index level keyhash in
      inner (record h { valid = false })
        (set_child children b (insert k (suc level) it keyhash (children b)))
  insert zero level it keyhash (leaf h ds) =
      (settle false true (λ it' kh' n. n) level it keyhash h ds).0
  insert (suc k) level it keyhash (leaf h ds) =
      (settle false false (insert k (suc level)) level it keyhash h ds).0

  -- `add_item` with `enlarge` true; `may_enlarge` is `tree->height + tree->depth < MAX_DEPTH`.
  unfoldable pub add_item : Bool → ℕ → ℕ → Item → ℕ → Node → Node × Bool
  add_item may_enlarge below level it keyhash (inner h children) =
      let b = index level keyhash in
      let (n, enlarged) = add_item may_enlarge (below - 1) (suc level) it keyhash (children b) in
      (inner (record h { valid = false }) (set_child children b n), enlarged)
  add_item may_enlarge below level it keyhash (leaf h ds) =
      settle may_enlarge (below == 0) (insert (below - 1) (suc level)) level it keyhash h ds

-- get_item_hash
unfoldable pub get_item : ℕ → ℕ → List ℕ → Node → Option Item
get_item level keyhash k (leaf h ds) = find_data k ds
get_item level keyhash k (inner h children) =
    get_item (suc level) keyhash k (children (index level keyhash))

-- The item is cut out of its block.
unfoldable pub remove_first : List ℕ → List Item → List Item
remove_first k [] = []
remove_first k (p ∷ ps) = if same_key k p.key then ps else p ∷ remove_first k ps

unfoldable pub cut_item : List ℕ → Item → Data → Data
unfolding remove_first
cut_item k p d = record d { used = d.used - item_length p; items = remove_first k d.items }

-- A block that becomes empty is freed if it is neither the first nor the last of the chain.
unfoldable pub close_data : Bool → Data → List Data → List Data
close_data first d [] = d ∷ []
close_data first d (e ∷ ds) = elim d.items [
  | [] ↦ (if first then d ∷ e ∷ ds else e ∷ ds)
  | p ∷ ps ↦ d ∷ e ∷ ds
]

unfoldable pub remove_data : Bool → List ℕ → List Data → List Data
unfolding close_data
remove_data first k [] = []
remove_data first k (d ∷ ds) = elim (find_item k d.items) [
  | some p ↦ close_data first (cut_item k p d) ds
  | none ↦ d ∷ remove_data false k ds
]

unfoldable pub remove_leaf : List ℕ → ℕ → Head → List Data → Node
remove_leaf k keyhash h ds = elim (find_data k ds) [
  | none ↦ leaf h ds
  | some p ↦
      leaf
        (record h {
          hash = (h.hash + 2 ^ 16 - keyhash * item_hash p % 2 ^ 16) % 2 ^ 16;
          count = (h.count + 2 ^ 32 - is_live p) % 2 ^ 32;
        })
        (remove_data true k ds)
]

unfoldable pub remove_item : ℕ → ℕ → List ℕ → Node → Node
unfolding remove_leaf
remove_item level keyhash k (leaf h ds) = remove_leaf k keyhash h ds
remove_item level keyhash k (inner h children) =
    let b = index level keyhash in
    inner (record h { valid = false })
      (set_child children b (remove_item (suc level) keyhash k (children b)))
