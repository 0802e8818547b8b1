-- ===== src/HTree.antt =====
-- The index of src/htree.c: a hash tree of 16-way nodes whose leaves hold the items in a chain of
-- data blocks. A node of the pool stands here with its subtree: the `b`-th child of a node is
-- `get_child(tree, node, b)`, and `level` is `node->depth + tree->depth`. Of a node that is no leaf
-- the chain is NULL. `below` is `tree->height - 1 - node->depth`, the levels that the pool still has
-- below a node. The count of a block is the length of its list of items; its bytes are not laid out,
-- but `size` and `used` are those of the source. `key_hash` is the parameter `kh`.
pub mod Tree
pub mod Blocks
pub mod Chain
pub mod Lookup
pub mod Insert
pub mod Remove
pub mod Totals
pub mod Digest
pub mod Digested
pub mod Items
pub mod Placed
pub mod Visit
pub mod Pool
use beansdb.Base.{
  ℕ, zero, suc, ◌+◌, ◌-◌, ◌*◌, ◌/◌, ◌%◌, ◌^◌, min, max, Bool, true, false, ◌&&◌, Option, none, some,
  List, [], ◌∷◌, ◌++◌, length, ltb, ◌==◌, if◌then◌else◌,
}
use beansdb.Base.Int.{ℤ, pos, negsuc}

pub record Item : Type 0 where
  pub pos : ℕ
  pub ver : ℤ
  pub hash : ℕ
  pub key : List ℕ

pub record Data : Type 0 where
  pub size : ℕ
  pub used : ℕ
  pub items : List Item

-- The fields of a node that both kinds have.
pub record Head : Type 0 where
  pub valid : Bool
  pub hash : ℕ
  pub count : ℕ

pub data Node : Type 0 where
  leaf : Head → List Data → Node
  inner : Head → (ℕ → Node) → Node

abbrev pub split_limit : ℕ
split_limit = 64

abbrev pub max_depth : ℕ
max_depth = 8

abbrev pub data_head_size : ℕ
data_head_size = 20

-- ITEM_LENGTH(it)
unfoldable pub item_length : Item → ℕ
item_length it = length it.key + 11

-- it->ver > 0, as a number
unfoldable pub is_live : Item → ℕ
is_live it = elim it.ver [ pos zero ↦ 0 | pos (suc n) ↦ 1 | negsuc n ↦ 0 ]

-- HASH(it)
unfoldable pub item_hash : Item → ℕ
unfolding is_live
item_hash it = it.hash * is_live it

-- INDEX(it)
unfoldable pub index : ℕ → ℕ → ℕ
index level keyhash = keyhash / 16 ^ (7 - level) % 16

-- The comparison of two keys by their size and `memcmp`.
unfoldable pub same_key : List ℕ → List ℕ → Bool
same_key [] [] = true
same_key [] (y ∷ ys) = false
same_key (x ∷ xs) [] = false
same_key (x ∷ xs) (y ∷ ys) = x == y && same_key xs ys

-- The first item with a key, in a block and in a chain.
unfoldable pub find_item : List ℕ → List Item → Option Item
find_item k [] = none
find_item k (p ∷ ps) = if same_key k p.key then some p else find_item k ps

unfoldable pub find_data : List ℕ → List Data → Option Item
find_data k [] = none
find_data k (d ∷ ds) = elim (find_item k d.items) [ some p ↦ some p | none ↦ find_data k ds ]

-- memcpy(p, it, sizeof(Item)) at the first item with the key of `it`.
unfoldable pub replace_item : Item → List Item → List Item
replace_item it [] = []
replace_item it (p ∷ ps) = if same_key it.key p.key then it ∷ ps else p ∷ replace_item it ps

unfoldable pub replace_data : Item → List Data → List Data
replace_data it [] = []
replace_data it (d ∷ ds) = elim (find_item it.key d.items) [
  | some p ↦ record d { items = replace_item it d.items } ∷ ds
  | none ↦ d ∷ replace_data it ds
]

unfoldable pub put_item : Item → Data → Data
put_item it d = record d { used = d.used + item_length it; items = d.items ++ it ∷ [] }

-- The last block of a chain has no room: a new block, or a larger one in its place.
unfoldable pub extend_data : ℕ → Item → Data → List Data
unfolding put_item
extend_data block_size it last =
    let len = item_length it in
    if ltb block_size (last.used + len)
    then last
      ∷ put_item it (record { size = data_head_size + len; used = data_head_size; items = [] })
      ∷ []
    else put_item it (record last { size = min (max (last.used + len) last.size) block_size }) ∷ []

-- A new item goes to the first block with room.
unfoldable pub append_data : ℕ → Item → List Data → List Data
unfolding extend_data
append_data block_size it [] = []
append_data block_size it (d ∷ []) =
    if ltb d.size (d.used + item_length it) then extend_data block_size it d else put_item it d ∷ []
append_data block_size it (d ∷ e ∷ ds) =
    if ltb d.size (d.used + item_length it)
    then d ∷ append_data block_size it (e ∷ ds)
    else put_item it d ∷ e ∷ ds

-- clear(node)
unfoldable pub clear : Node
clear =
    leaf (record { valid = true; hash = 0; count = 0 })
      (record { size = 64; used = data_head_size; items = [] } ∷ [])

-- `add_item` at a leaf, up to the test for a split.
unfoldable pub add_leaf : ℕ → Item → ℕ → Head → List Data → Head × List Data
add_leaf block_size it keyhash h ds = elim (find_data it.key ds) [
  | some p ↦ (
    record h {
      hash = (h.hash + (item_hash it + 2 ^ 32 - item_hash p) % 2 ^ 32 * keyhash) % 2 ^ 16;
      count = (h.count + is_live it + 2 ^ 32 - is_live p) % 2 ^ 32;
    },
    replace_data it ds,
  )
  | none ↦ (
    record h {
      hash = (h.hash + keyhash * item_hash it) % 2 ^ 16;
      count = (h.count + is_live it) % 2 ^ 32;
    },
    append_data block_size it ds,
  )
]

unfoldable pub set_child : (ℕ → Node) → ℕ → Node → ℕ → Node
set_child children b n i = if i == b then n else children i

unfoldable pub items_of : List Data → List Item
items_of [] = []
items_of (d ∷ ds) = d.items ++ items_of ds

-- The loops of `split_node`; `add` is `add_item` on a child.
unfoldable pub distribute :
    (List ℕ → ℕ) → (Item → ℕ → Node → Node) → ℕ → List Item → (ℕ → Node) → ℕ → Node
distribute kh add level [] children = children
distribute kh add level (it ∷ its) children =
    let keyhash = kh it.key in
    let b = index level keyhash in
    distribute kh add level its (set_child children b (add it keyhash (children b)))
