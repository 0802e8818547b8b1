-- ===== src/HTree/Chain.antt =====
-- The invariant of the chain of a leaf, and what `add_leaf` does to it: no block is written past its
-- size, no key is stored twice.
use beansdb.Base.{
  ℕ, ◌+◌, ◌≤◌, ◌≡◌, ◌≢◌, refl, arith, inl, inr, some, List, [], ◌∷◌, ◌++◌, All, if◌then◌else◌,
  Option-cases,
}
use beansdb.HTree.{
  Item, Data, Head, data_head_size, item_length, same_key, find_data, replace_item, replace_data,
  append_data, extend_data, put_item, add_leaf, items_of,
}
use beansdb.HTree.Blocks.{
  same_key_iff, occurs, occurs-eq-zero, find_data-eq-find_item, find_data-replace_data,
  occurs-replace_data, occurs-append_data, find_data-append_data,
}

-- The bytes of the items of a block.
unfoldable pub total_length : List Item → ℕ
total_length [] = 0
total_length (p ∷ ps) = item_length p + total_length ps

-- `used` is where the items end, and that is not past the end of the block.
abbrev pub IsBlock : Data → Type 0
IsBlock d = (d.used ≡ data_head_size + total_length d.items) × (d.used ≤ d.size)

pub record IsChain (ds : List Data) : Type 0 where
  pub not_empty : ds ≢ []
  pub unique : (k : List ℕ) → occurs k (items_of ds) ≤ 1
  pub blocks : All IsBlock ds

total_length-append :
    (ps qs : List Item) → total_length (ps ++ qs) ≡ total_length ps + total_length qs
unfolding total_length
total_length-append [] qs = omega arith
total_length-append (p ∷ ps) qs = omega (arith, total_length-append ps qs)

-- The item that is replaced has a key of the same length.
total_length-replace_item :
    (it : Item) (ps : List Item) → total_length (replace_item it ps) ≡ total_length ps
unfolding total_length replace_item item_length
total_length-replace_item it [] = refl
total_length-replace_item it (p ∷ ps) =
    ground (arith, total_length-replace_item it ps, same_key_iff it.key p.key)

replace_data-blocks :
    (it : Item) (ds : List Data) → All IsBlock ds → All IsBlock (replace_data it ds)
unfolding replace_data
replace_data-blocks it [] h = tt
replace_data-blocks it (d ∷ ds) h =
    ground (arith, total_length-replace_item it d.items, replace_data-blocks it ds h.1)

append_data-blocks :
    (block_size : ℕ) (it : Item) (ds : List Data)
    → All IsBlock ds
    → All IsBlock (append_data block_size it ds)
unfolding append_data extend_data put_item total_length
append_data-blocks block_size it [] h = tt
append_data-blocks block_size it (d ∷ []) h = ground (arith, total_length-append d.items (it ∷ []))
append_data-blocks block_size it (d ∷ e ∷ ds) h =
    ground
      (arith, total_length-append d.items (it ∷ []), append_data-blocks block_size it (e ∷ ds) h.1)

append_data-not_empty :
    (block_size : ℕ) (it : Item) (ds : List Data) → ds ≢ [] → append_data block_size it ds ≢ []
unfolding append_data extend_data
append_data-not_empty block_size it [] h = h
append_data-not_empty block_size it (d ∷ []) h = ground arith
append_data-not_empty block_size it (d ∷ e ∷ ds) h = ground arith

replace_data-not_empty : (it : Item) (ds : List Data) → ds ≢ [] → replace_data it ds ≢ []
unfolding replace_data
replace_data-not_empty it [] h = h
replace_data-not_empty it (d ∷ ds) h = ground arith

module _ (block_size : ℕ) (it : Item) (keyhash : ℕ) (h : Head) (ds : List Data)
    (c : IsChain ds) where
  -- The key of the item finds it; every other key finds what it found before.
  pub find_data-add_leaf :
      (k : List ℕ)
      → find_data k (add_leaf block_size it keyhash h ds).1
        ≡ (if same_key k it.key then some it else find_data k ds)
  unfolding add_leaf
  find_data-add_leaf k = elim (Option-cases (find_data it.key ds)) [
    | inl e ↦ rw (e, add_leaf) (find_data-append_data k it block_size ds c.not_empty e)
    | inr (p, e) ↦ rw (e, add_leaf) (find_data-replace_data k it ds p e)
  ]

  -- Adding an item to a chain that is in order leaves it in order: it is not empty, no key is stored
  -- twice, and every block's bytes are those of its items and end before its size.
  pub add_leaf-IsChain : IsChain (add_leaf block_size it keyhash h ds).1
  unfolding add_leaf
  add_leaf-IsChain = elim (Option-cases (find_data it.key ds)) [
    | inl e ↦
        rw (e, add_leaf)
          (record {
            not_empty = append_data-not_empty block_size it ds c.not_empty;
            unique = λ k. ground (
              arith,
              occurs-append_data k it block_size ds c.not_empty,
              c.unique k,
              same_key_iff k it.key,
              occurs-eq-zero it.key (items_of ds),
              find_data-eq-find_item it.key ds,
              e,
            );
            blocks = append_data-blocks block_size it ds c.blocks;
          })
    | inr (p, e) ↦
        rw (e, add_leaf)
          (record {
            not_empty = replace_data-not_empty it ds c.not_empty;
            unique = λ k. rw (occurs-replace_data k it ds) (c.unique k);
            blocks = replace_data-blocks it ds c.blocks;
          })
  ]
