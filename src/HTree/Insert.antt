-- ===== src/HTree/Insert.antt =====
-- `add_item` of src/htree.c on a whole tree.
use beansdb.Base.{ℕ, zero, suc, ◌-◌, ◌≡◌, arith, Bool, false, some, List, ◌==◌, if◌then◌else◌}
use beansdb.HTree.{Item, Data, Head, Node, leaf, inner, index, same_key, add_leaf, set_child}
use beansdb.HTree.Tree.{settle, insert, add_item, get_item}
use beansdb.HTree.Chain.{IsChain, find_data-add_leaf, add_leaf-IsChain}
use beansdb.HTree.Lookup.{
  IsValid, IsAddition, Adds, set_child-IsValid, get_item-set_child, settle-IsAddition,
}

module _ (kh : List ℕ → ℕ) (block_size : ℕ) where
  -- A node of which one child is changed.
  set_child-IsAddition :
      (level : ℕ) (it : Item) (h h' : Head) (children : ℕ → Node) (n : Node)
      → IsValid (inner h children)
      → IsAddition kh (suc level) it (children (index level (kh it.key))) n
      → IsAddition kh level it
          (inner h children)
          (inner h' (set_child children (index level (kh it.key)) n))
  unfolding IsValid get_item
  set_child-IsAddition level it h h' children n v a = (
    set_child-IsValid kh children (index level (kh it.key)) n v a.0,
    get_item-set_child kh level it children n a,
  )

  -- At the bottom of the pool no leaf is split.
  pub bottom-eq-leaf :
      (level : ℕ) (it : Item) (h : Head) (ds : List Data)
      → insert kh block_size 0 level it (kh it.key) (leaf h ds)
        ≡ leaf
            (add_leaf block_size it (kh it.key) h ds).0
            (add_leaf block_size it (kh it.key) h ds).1
  unfolding insert settle
  bottom-eq-leaf level it h ds = ground arith

  bottom-IsAddition :
      (level : ℕ) (it : Item) (h : Head) (ds : List Data)
      → IsChain ds
      → IsAddition kh level it (leaf h ds) (insert kh block_size 0 level it (kh it.key) (leaf h ds))
  unfolding get_item IsValid
  bottom-IsAddition level it h ds c = rw (bottom-eq-leaf level it h ds) (
    add_leaf-IsChain block_size it (kh it.key) h ds c,
    find_data-add_leaf block_size it (kh it.key) h ds c,
  )

  pub insert-IsAddition : (below level : ℕ) → Adds kh (insert kh block_size below level) level
  unfolding insert IsValid
  insert-IsAddition zero level it (inner h children) v =
      let b = index level (kh it.key) in
      set_child-IsAddition level it h _ children _ v
        (insert-IsAddition zero (suc level) it (children b) (v b))
  insert-IsAddition (suc m) level it (inner h children) v =
      let b = index level (kh it.key) in
      set_child-IsAddition level it h _ children _ v
        (insert-IsAddition m (suc level) it (children b) (v b))
  insert-IsAddition zero level it (leaf h ds) v = bottom-IsAddition level it h ds v
  insert-IsAddition (suc m) level it (leaf h ds) v =
      settle-IsAddition kh (insert kh block_size m (suc level)) level
        (insert-IsAddition m (suc level)) block_size false false it h ds v

  pub add_item-IsAddition :
      (may_enlarge : Bool) (below level : ℕ) (it : Item) (n : Node)
      → IsValid n
      → IsAddition kh level it n (add_item kh block_size may_enlarge below level it (kh it.key) n).0
  unfolding add_item IsValid
  add_item-IsAddition may_enlarge below level it (inner h children) v =
      let b = index level (kh it.key) in
      set_child-IsAddition level it h _ children _ v
        (add_item-IsAddition may_enlarge (below - 1) (suc level) it (children b) (v b))
  add_item-IsAddition may_enlarge below level it (leaf h ds) v =
      settle-IsAddition kh (insert kh block_size (below - 1) (suc level)) level
        (insert-IsAddition (below - 1) (suc level)) block_size may_enlarge (below == 0) it h ds v

  -- Adding an item to a tree whose leaves are in order leaves them in order, whether or not leaves are
  -- split and the pool is enlarged.
  pub add_item-IsValid :
      (may_enlarge : Bool) (below level : ℕ) (it : Item) (n : Node)
      → IsValid n
      → IsValid (add_item kh block_size may_enlarge below level it (kh it.key) n).0
  add_item-IsValid may_enlarge below level it n v =
      (add_item-IsAddition may_enlarge below level it n v).0

  -- After an item is added to a tree whose leaves are in order, its key finds it, and every other key
  -- finds what it found before.
  pub get_item-add_item :
      (may_enlarge : Bool) (below level : ℕ) (it : Item) (n : Node) (k : List ℕ)
      → IsValid n
      → get_item level (kh k) k (add_item kh block_size may_enlarge below level it (kh it.key) n).0
        ≡ (if same_key k it.key then some it else get_item level (kh k) k n)
  get_item-add_item may_enlarge below level it n k v =
      (add_item-IsAddition may_enlarge below level it n v).1 k
