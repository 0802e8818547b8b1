-- ===== src/HTree/Remove.antt =====
-- `remove_item` of src/htree.c, on a chain and on a whole tree.
use beansdb.Base.{
  ℕ, suc, ◌+◌, ◌≤◌, ◌≡◌, ◌≢◌, refl, arith, Bool, true, false, inl, inr, none, some, List, [], ◌∷◌,
  All, if◌then◌else◌, Option-cases,
}
use beansdb.HTree.{
  Item, Data, Head, Node, leaf, inner, item_length, index, same_key, find_item, find_data,
  set_child, items_of,
}
use beansdb.HTree.Tree.{
  get_item, remove_first, cut_item, close_data, remove_data, remove_leaf, remove_item,
}
use beansdb.HTree.Blocks.{
  same_key_iff, occurs, occurs-append, find_item-eq-none, find_data-eq-find_item,
}
use beansdb.HTree.Chain.{IsChain, IsBlock, total_length}
use beansdb.HTree.Lookup.{IsValid, set_child-IsValid}

module _ (k : List ℕ) where
  total_length-remove_first :
      (ps : List Item) (p : Item)
      → find_item k ps ≡ some p
      → total_length ps ≡ item_length p + total_length (remove_first k ps)
  unfolding find_item remove_first total_length
  total_length-remove_first [] p e = cc
  total_length-remove_first (q ∷ ps) p e = ground (arith, total_length-remove_first ps p)

  module _ (k' : List ℕ) where
    occurs-remove_first : (ps : List Item) → occurs k' (remove_first k ps) ≤ occurs k' ps
    unfolding occurs remove_first
    occurs-remove_first [] = ground arith
    occurs-remove_first (p ∷ ps) = ground (arith, occurs-remove_first ps)

    find_item-remove_first :
        (ps : List Item)
        → occurs k ps ≤ 1
        → find_item k' (remove_first k ps) ≡ (if same_key k' k then none else find_item k' ps)
    unfolding find_item remove_first occurs
    find_item-remove_first [] u = ground arith
    find_item-remove_first (p ∷ ps) u = ground (
      arith,
      find_item-remove_first ps,
      find_item-eq-none k ps,
      same_key_iff k' k,
      same_key_iff k' p.key,
      same_key_iff k p.key,
    )

    find_data-close_data :
        (first : Bool) (d : Data) (ds : List Data)
        → find_data k' (close_data first d ds) ≡ find_data k' (d ∷ ds)
    unfolding find_data close_data find_item
    find_data-close_data first d [] = refl
    find_data-close_data first d (e ∷ ds) = ground arith

    find_data-remove_data :
        (first : Bool) (ds : List Data)
        → occurs k (items_of ds) ≤ 1
        → find_data k' (remove_data first k ds) ≡ (if same_key k' k then none else find_data k' ds)
    unfolding find_data remove_data items_of cut_item
    find_data-remove_data first [] u = ground arith
    find_data-remove_data first (d ∷ ds) u = elim (Option-cases (find_item k d.items)) [
      | inl e ↦
          rw (e, remove_data)
            (ground (
              arith,
              e,
              occurs-append k d.items (items_of ds),
              find_data-remove_data false ds,
              same_key_iff k' k,
            ))
      | inr (p, e) ↦
          rw (e, remove_data, find_data-close_data first (cut_item k p d) ds)
            (ground (
              arith,
              e,
              occurs-append k d.items (items_of ds),
              find_item-eq-none k d.items,
              find_item-remove_first d.items,
              find_data-eq-find_item k ds,
              find_item-eq-none k (items_of ds),
              same_key_iff k' k,
            ))
    ]

    occurs-close_data :
        (first : Bool) (d : Data) (ds : List Data)
        → occurs k' (items_of (close_data first d ds)) ≡ occurs k' (items_of (d ∷ ds))
    unfolding occurs items_of close_data
    occurs-close_data first d [] = refl
    occurs-close_data first d (e ∷ ds) = ground arith

    occurs-remove_data :
        (first : Bool) (ds : List Data)
        → occurs k' (items_of (remove_data first k ds)) ≤ occurs k' (items_of ds)
    unfolding occurs items_of remove_data cut_item
    occurs-remove_data first [] = ground arith
    occurs-remove_data first (d ∷ ds) = elim (Option-cases (find_item k d.items)) [
      | inl e ↦
          rw (e, remove_data)
            (ground (
              arith,
              occurs-append k' d.items (items_of ds),
              occurs-append k' d.items (items_of (remove_data false k ds)),
              occurs-remove_data false ds,
            ))
      | inr (p, e) ↦
          rw (e, remove_data, occurs-close_data first (cut_item k p d) ds)
            (ground (
              arith,
              occurs-append k' d.items (items_of ds),
              occurs-append k' (remove_first k d.items) (items_of ds),
              occurs-remove_first d.items,
            ))
    ]

  close_data-blocks :
      (first : Bool) (d : Data) (ds : List Data)
      → IsBlock d
      → All IsBlock ds
      → All IsBlock (close_data first d ds)
  unfolding close_data
  close_data-blocks first d [] b h = (b, tt)
  close_data-blocks first d (e ∷ ds) b h = ground (arith, b, h)

  remove_data-blocks :
      (first : Bool) (ds : List Data) → All IsBlock ds → All IsBlock (remove_data first k ds)
  unfolding remove_data cut_item
  remove_data-blocks first [] h = tt
  remove_data-blocks first (d ∷ ds) h = elim (Option-cases (find_item k d.items)) [
    | inl e ↦ rw (e, remove_data) (h.0, remove_data-blocks false ds h.1)
    | inr (p, e) ↦
        rw (e, remove_data)
          (close_data-blocks first (cut_item k p d) ds
            (ground (arith, total_length-remove_first d.items p e, h.0)) h.1)
  ]

  remove_data-not_empty : (ds : List Data) → ds ≢ [] → remove_data true k ds ≢ []
  unfolding remove_data close_data
  remove_data-not_empty [] h = h
  remove_data-not_empty (d ∷ []) h = ground arith
  remove_data-not_empty (d ∷ e ∷ ds) h = ground arith

  pub remove_data-IsChain : (ds : List Data) → IsChain ds → IsChain (remove_data true k ds)
  remove_data-IsChain ds c = record {
    not_empty = remove_data-not_empty ds c.not_empty;
    unique = λ k'. omega (arith, occurs-remove_data k' true ds, c.unique k');
    blocks = remove_data-blocks true ds c.blocks;
  }

-- The key that is removed finds nothing; every other key finds what it found before.
abbrev pub IsRemoval : (List ℕ → ℕ) → ℕ → List ℕ → Node → Node → Type 0
IsRemoval kh level k n n' =
    IsValid n'
    × ((k' : List ℕ)
        → get_item level (kh k') k' n'
          ≡ (if same_key k' k then none else get_item level (kh k') k' n))

module _ (kh : List ℕ → ℕ) where
  remove_leaf-IsRemoval :
      (level : ℕ) (k : List ℕ) (h : Head) (ds : List Data)
      → IsChain ds
      → IsRemoval kh level k (leaf h ds) (remove_leaf k (kh k) h ds)
  unfolding remove_leaf IsValid get_item
  remove_leaf-IsRemoval level k h ds c = elim (Option-cases (find_data k ds)) [
    | inl e ↦ rw (e, remove_leaf) (c, λ k'. ground (arith, e, same_key_iff k' k))
    | inr (p, e) ↦
        rw (e, remove_leaf)
          (remove_data-IsChain k ds c, λ k'. find_data-remove_data k k' true ds (c.unique k))
  ]

  get_item-set_child_removal :
      (level : ℕ) (k : List ℕ) (children : ℕ → Node) (n : Node)
      → IsRemoval kh (suc level) k (children (index level (kh k))) n
      → (k' : List ℕ)
      → get_item
          (suc level)
          (kh k')
          k'
          (set_child children (index level (kh k)) n (index level (kh k')))
        ≡ (if same_key k' k
            then none
            else get_item (suc level) (kh k') k' (children (index level (kh k'))))
  unfolding set_child
  get_item-set_child_removal level k children n r k' = ground (arith, r.1 k', same_key_iff k' k)

  pub remove_item-IsRemoval :
      (level : ℕ) (k : List ℕ) (n : Node)
      → IsValid n
      → IsRemoval kh level k n (remove_item level (kh k) k n)
  unfolding remove_item IsValid get_item
  remove_item-IsRemoval level k (leaf h ds) v = remove_leaf-IsRemoval level k h ds v
  remove_item-IsRemoval level k (inner h children) v =
      let b = index level (kh k) in
      let r = remove_item-IsRemoval (suc level) k (children b) (v b) in
      (set_child-IsValid kh children b _ v r.0, get_item-set_child_removal level k children _ r)

  -- Removing a key from a tree whose leaves are in order leaves them in order.
  pub remove_item-IsValid :
      (level : ℕ) (k : List ℕ) (n : Node) → IsValid n → IsValid (remove_item level (kh k) k n)
  remove_item-IsValid level k n v = (remove_item-IsRemoval level k n v).0

  -- After a key is removed from a tree whose leaves are in order, it finds nothing, and every other
  -- key finds what it found before.
  pub get_item-remove_item :
      (level : ℕ) (k : List ℕ) (n : Node) (k' : List ℕ)
      → IsValid n
      → get_item level (kh k') k' (remove_item level (kh k) k n)
        ≡ (if same_key k' k then none else get_item level (kh k') k' n)
  get_item-remove_item level k n k' v = (remove_item-IsRemoval level k n v).1 k'
