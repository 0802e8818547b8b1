-- ===== src/HTree/Digested.antt =====
-- Every leaf of a tree of src/htree.c has the count and the hash of its items, also after leaves are
-- split and the pool is enlarged.
use mathlib.Core.Path.{subst}
use beansdb.Base.{
  ℕ, zero, suc, ◌-◌, ◌^◌, ◌<◌, ◌≡◌, refl, sym, arith, Bool, false, inl, inr, List, [], ◌∷◌, ◌==◌,
}
use beansdb.HTree.{
  Item, Data, Head, Node, leaf, inner, index, clear, set_child, items_of, distribute, add_leaf,
}
use beansdb.HTree.Tree.{
  head_of, data_of, split_node, settle, insert, add_item, remove_leaf, remove_item,
}
use beansdb.HTree.Chain.{IsChain}
use beansdb.HTree.Totals.{total}
use beansdb.HTree.Lookup.{IsValid, Adds, clear-IsValid, set_child-IsValid, settle-cases}
use beansdb.HTree.Insert.{insert-IsAddition, bottom-eq-leaf}
use beansdb.HTree.Digest.{IsDigest, is_large, add_leaf-IsDigest, remove_leaf-IsDigest}

unfoldable pub IsDigested : (List ℕ → ℕ) → Node → Type 0
IsDigested kh (leaf h ds) = IsDigest kh h ds
IsDigested kh (inner h children) = (i : ℕ) → IsDigested kh (children i)

module _ (kh : List ℕ → ℕ) where
  pub clear-IsDigested : IsDigested kh clear
  unfolding IsDigested clear total items_of
  clear-IsDigested = record { count = refl; hash = refl; small = refl }

  set_child-IsDigested :
      (children : ℕ → Node) (b : ℕ) (n : Node)
      → ((i : ℕ) → IsDigested kh (children i))
      → IsDigested kh n
      → (i : ℕ) → IsDigested kh (set_child children b n i)
  unfolding set_child
  set_child-IsDigested children b n h v i = ground (arith, h i)

  -- Adding an item with a hash of 16 bits.
  abbrev Digests : (Item → ℕ → Node → Node) → Type 0
  Digests add =
      (it : Item) (n : Node)
      → it.hash < 2 ^ 16
      → IsValid n
      → IsDigested kh n
      → IsDigested kh (add it (kh it.key) n)

  module _ (add : Item → ℕ → Node → Node) (level : ℕ) (adds : Adds kh add (suc level))
      (digests : Digests add) where
    distribute-IsDigested :
        (its : List Item) (children : ℕ → Node)
        → total is_large its ≡ 0
        → ((i : ℕ) → IsValid (children i))
        → ((i : ℕ) → IsDigested kh (children i))
        → (i : ℕ) → IsDigested kh (distribute kh add level its children i)
    unfolding distribute total
    distribute-IsDigested [] children small v d = d
    distribute-IsDigested (it ∷ its) children small v d =
        let b = index level (kh it.key) in
        let n = add it (kh it.key) (children b) in
        distribute-IsDigested its (set_child children b n) (ground (arith, small))
          (set_child-IsValid kh children b n v (adds it (children b) (v b)).0)
          (set_child-IsDigested children b n d
            (digests it (children b) (ground (arith, small)) (v b) (d b)))

    settle-IsDigested :
        (block_size : ℕ) (may_enlarge at_bottom : Bool) (it : Item) (h : Head) (ds : List Data)
        → it.hash < 2 ^ 16
        → IsChain ds
        → IsDigest kh h ds
        → IsDigested kh (settle kh block_size may_enlarge at_bottom add level it (kh it.key) h ds).0
    unfolding IsDigested split_node
    settle-IsDigested block_size may_enlarge at_bottom it h ds word c d =
        let d' = add_leaf-IsDigest kh block_size it h ds c.not_empty word d in
        let ds' = (add_leaf block_size it (kh it.key) h ds).1 in
        elim (settle-cases kh add level adds block_size may_enlarge at_bottom it h ds) [
          | inl e ↦ rw e d'
          | inr e ↦ rw e (
              distribute-IsDigested (items_of ds') (λ i. clear) d'.small (λ i. clear-IsValid)
                (λ i. clear-IsDigested))
        ]

  module _ (block_size : ℕ) where
    insert-IsDigested : (below level : ℕ) → Digests (insert kh block_size below level)
    unfolding insert IsValid IsDigested
    insert-IsDigested zero level it (inner h children) w v d =
        let b = index level (kh it.key) in
        set_child-IsDigested children b _ d
          (insert-IsDigested zero (suc level) it (children b) w (v b) (d b))
    insert-IsDigested (suc m) level it (inner h children) w v d =
        let b = index level (kh it.key) in
        set_child-IsDigested children b _ d
          (insert-IsDigested m (suc level) it (children b) w (v b) (d b))
    insert-IsDigested zero level it (leaf h ds) w v d =
        rw (bottom-eq-leaf kh block_size level it h ds)
          (add_leaf-IsDigest kh block_size it h ds v.not_empty w d)
    insert-IsDigested (suc m) level it (leaf h ds) w v d =
        settle-IsDigested (insert kh block_size m (suc level)) level
          (insert-IsAddition kh block_size m (suc level)) (insert-IsDigested m (suc level))
          block_size false false it h ds w v d

    -- Adding an item whose hash has 16 bits to a tree whose leaves are in order and have the count and
    -- the hash of their items: every leaf of the result has the count and the hash of its items.
    pub add_item-IsDigested :
        (may_enlarge : Bool) (below level : ℕ) (it : Item) (n : Node)
        → it.hash < 2 ^ 16
        → IsValid n
        → IsDigested kh n
        → IsDigested kh (add_item kh block_size may_enlarge below level it (kh it.key) n).0
    unfolding add_item IsValid IsDigested
    add_item-IsDigested may_enlarge below level it (inner h children) w v d =
        let b = index level (kh it.key) in
        set_child-IsDigested children b _ d
          (add_item-IsDigested may_enlarge (below - 1) (suc level) it (children b) w (v b) (d b))
    add_item-IsDigested may_enlarge below level it (leaf h ds) w v d =
        settle-IsDigested (insert kh block_size (below - 1) (suc level)) level
          (insert-IsAddition kh block_size (below - 1) (suc level))
          (insert-IsDigested (below - 1) (suc level)) block_size may_enlarge (below == 0) it h ds w
          v d

  remove_leaf-eq-leaf :
      (k : List ℕ) (h : Head) (ds : List Data)
      → let n = remove_leaf k (kh k) h ds in n ≡ leaf (head_of n) (data_of n)
  unfolding remove_leaf head_of data_of
  remove_leaf-eq-leaf k h ds = ground arith

  -- Removing a key from a tree whose leaves have the count and the hash of their items leaves it so.
  pub remove_item-IsDigested :
      (level : ℕ) (k : List ℕ) (n : Node)
      → IsDigested kh n
      → IsDigested kh (remove_item level (kh k) k n)
  unfolding remove_item IsDigested
  remove_item-IsDigested level k (leaf h ds) d =
      subst (IsDigested kh) (sym (remove_leaf-eq-leaf k h ds)) (remove_leaf-IsDigest kh h ds k d)
  remove_item-IsDigested level k (inner h children) d =
      let b = index level (kh k) in
      set_child-IsDigested children b _ d (remove_item-IsDigested (suc level) k (children b) (d b))
