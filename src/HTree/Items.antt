-- ===== src/HTree/Items.antt =====
-- What holds of all items of a tree of src/htree.c while items are added and removed.
use beansdb.Base.{
  ℕ, zero, suc, ◌+◌, ◌-◌, ◌≡◌, refl, arith, Bool, true, false, inl, inr, List, [], ◌∷◌, ◌++◌, All,
  All-append, All-split, ltb, ◌==◌, Bool-cases, Option-cases,
}
use beansdb.HTree.{
  Item, Data, Head, Node, leaf, inner, index, clear, find_item, find_data, set_child, items_of,
  distribute, add_leaf, replace_item, replace_data, append_data, extend_data, put_item, same_key,
  item_length,
}
use beansdb.HTree.Tree.{
  split_node, settle, insert, add_item, remove_first, cut_item, close_data, remove_data,
  remove_leaf, remove_item,
}
use beansdb.HTree.Lookup.{Adds, settle-cases}
use beansdb.HTree.Insert.{insert-IsAddition, bottom-eq-leaf}

-- A predicate holds of all items below a node.
unfoldable pub AllItems : (Item → Type 0) → Node → Type 0
AllItems P (leaf h ds) = All P (items_of ds)
AllItems P (inner h children) = (i : ℕ) → AllItems P (children i)

module _ (P : Item → Type 0) where
  All-replace_item : (it : Item) (ps : List Item) → P it → All P ps → All P (replace_item it ps)
  unfolding replace_item
  All-replace_item it [] h k = tt
  All-replace_item it (p ∷ ps) h k = elim (Bool-cases (same_key it.key p.key)) [
    | inl s ↦ rw (s, replace_item) (h, k.1)
    | inr s ↦ rw (s, replace_item) (k.0, All-replace_item it ps h k.1)
  ]

  All-replace_data :
      (it : Item) (ds : List Data)
      → P it
      → All P (items_of ds)
      → All P (items_of (replace_data it ds))
  unfolding replace_data items_of
  All-replace_data it [] h k = tt
  All-replace_data it (d ∷ ds) h k =
      let (a, b) = All-split P d.items (items_of ds) k in
      elim (Option-cases (find_item it.key d.items)) [
        | inl e ↦
            rw (e, replace_data)
              (All-append P d.items (items_of (replace_data it ds)) a (All-replace_data it ds h b))
        | inr (p, e) ↦
            rw (e, replace_data)
              (All-append P (replace_item it d.items) (items_of ds)
                (All-replace_item it d.items h a) b)
      ]

  All-append_data :
      (block_size : ℕ) (it : Item) (ds : List Data)
      → P it
      → All P (items_of ds)
      → All P (items_of (append_data block_size it ds))
  unfolding append_data extend_data put_item items_of
  All-append_data block_size it [] h k = tt
  All-append_data block_size it (d ∷ []) h k =
      let (a, b) = All-split P d.items [] k in
      let put : All P (d.items ++ (it ∷ []) ++ []) =
        All-append P (d.items ++ (it ∷ [])) [] (All-append P d.items (it ∷ []) a (h, tt)) tt in
      let after : All P (d.items ++ (it ∷ [])) = All-append P d.items (it ∷ []) a (h, tt) in
      elim (Bool-cases (ltb d.size (d.used + item_length it))) [
        | inr room ↦ rw room put
        | inl full ↦ elim (Bool-cases (ltb block_size (d.used + item_length it))) [
          | inl new ↦ rw (full, new) after
          | inr larger ↦ rw (full, larger) put
        ]
      ]
  All-append_data block_size it (d ∷ e ∷ ds) h k =
      let (a, b) = All-split P d.items (items_of (e ∷ ds)) k in
      elim (Bool-cases (ltb d.size (d.used + item_length it))) [
        | inl full ↦
            rw (full, append_data)
              (All-append P d.items (items_of (append_data block_size it (e ∷ ds))) a
                (All-append_data block_size it (e ∷ ds) h b))
        | inr room ↦
            rw (room, append_data)
              (All-append P (d.items ++ (it ∷ [])) (items_of (e ∷ ds))
                (All-append P d.items (it ∷ []) a (h, tt)) b)
      ]

  All-add_leaf :
      (block_size keyhash : ℕ) (it : Item) (h : Head) (ds : List Data)
      → P it
      → All P (items_of ds)
      → All P (items_of (add_leaf block_size it keyhash h ds).1)
  unfolding add_leaf
  All-add_leaf block_size keyhash it h ds q k = elim (Option-cases (find_data it.key ds)) [
    | inl e ↦ rw (e, add_leaf) (All-append_data block_size it ds q k)
    | inr (p, e) ↦ rw (e, add_leaf) (All-replace_data it ds q k)
  ]

  All-remove_first : (k : List ℕ) (ps : List Item) → All P ps → All P (remove_first k ps)
  unfolding remove_first
  All-remove_first k [] h = tt
  All-remove_first k (p ∷ ps) h = elim (Bool-cases (same_key k p.key)) [
    | inl s ↦ rw (s, remove_first) h.1
    | inr s ↦ rw (s, remove_first) (h.0, All-remove_first k ps h.1)
  ]

  All-close_data :
      (first : Bool) (d : Data) (ds : List Data)
      → All P (items_of (d ∷ ds))
      → All P (items_of (close_data first d ds))
  unfolding close_data items_of
  All-close_data first d [] h = h
  All-close_data first d (e ∷ ds) h = close d.items refl
    where
      close : (its : List Item) → d.items ≡ its → All P (items_of (close_data first d (e ∷ ds)))
      close [] q = elim (Bool-cases first) [
        | inl f ↦ rw (q, close_data, f) h
        | inr f ↦ rw (q, close_data, f) (All-split P d.items (items_of (e ∷ ds)) h).1
      ]
      close (p ∷ ps) q = rw (q, close_data) h

  All-remove_data :
      (first : Bool) (k : List ℕ) (ds : List Data)
      → All P (items_of ds)
      → All P (items_of (remove_data first k ds))
  unfolding remove_data items_of cut_item
  All-remove_data first k [] h = tt
  All-remove_data first k (d ∷ ds) h =
      let (a, b) = All-split P d.items (items_of ds) h in
      elim (Option-cases (find_item k d.items)) [
        | inl e ↦
            rw (e, remove_data)
              (All-append P d.items (items_of (remove_data false k ds)) a
                (All-remove_data false k ds b))
        | inr (p, e) ↦
            rw (e, remove_data)
              (All-close_data first (cut_item k p d) ds (
                All-append P (remove_first k d.items) (items_of ds) (All-remove_first k d.items a)
                  b))
      ]

  -- Adding an item for which the predicate holds.
  abbrev pub Keeps : (List ℕ → ℕ) → (Item → ℕ → Node → Node) → Type 0
  Keeps kh add = (it : Item) (n : Node) → P it → AllItems P n → AllItems P (add it (kh it.key) n)

  set_child-AllItems :
      (children : ℕ → Node) (b : ℕ) (n : Node)
      → ((i : ℕ) → AllItems P (children i))
      → AllItems P n
      → (i : ℕ) → AllItems P (set_child children b n i)
  unfolding set_child
  set_child-AllItems children b n h v i = ground (arith, h i)

  pub clear-AllItems : AllItems P clear
  unfolding AllItems clear items_of
  clear-AllItems = tt

  module _ (kh : List ℕ → ℕ) where
    distribute-AllItems :
        (add : Item → ℕ → Node → Node) (level : ℕ) (its : List Item) (children : ℕ → Node)
        → Keeps kh add
        → All P its
        → ((i : ℕ) → AllItems P (children i))
        → (i : ℕ) → AllItems P (distribute kh add level its children i)
    unfolding distribute
    distribute-AllItems add level [] children keeps ps h = h
    distribute-AllItems add level (it ∷ its) children keeps ps h =
        let b = index level (kh it.key) in
        distribute-AllItems add level its (set_child children b (add it (kh it.key) (children b)))
          keeps ps.1 (set_child-AllItems children b _ h (keeps it (children b) ps.0 (h b)))

    module _ (block_size : ℕ) where
      settle-AllItems :
          (add : Item → ℕ → Node → Node) (level : ℕ) (may_enlarge at_bottom : Bool) (it : Item)
          (h : Head) (ds : List Data)
          → Keeps kh add
          → Adds kh add (suc level)
          → P it
          → All P (items_of ds)
          → AllItems P (settle kh block_size may_enlarge at_bottom add level it (kh it.key) h ds).0
      unfolding AllItems split_node
      settle-AllItems add level may_enlarge at_bottom it h ds keeps adds q k =
          let ds' = (add_leaf block_size it (kh it.key) h ds).1 in
          let k' = All-add_leaf block_size (kh it.key) it h ds q k in
          elim (settle-cases kh add level adds block_size may_enlarge at_bottom it h ds) [
            | inl e ↦ rw e k'
            | inr e ↦ rw e (
                distribute-AllItems add level (items_of ds') (λ i. clear) keeps k'
                  (λ i. clear-AllItems))
          ]

      pub insert-AllItems : (below level : ℕ) → Keeps kh (insert kh block_size below level)
      unfolding insert AllItems
      insert-AllItems zero level it (inner h children) q k =
          let b = index level (kh it.key) in
          set_child-AllItems children b _ k
            (insert-AllItems zero (suc level) it (children b) q (k b))
      insert-AllItems (suc m) level it (inner h children) q k =
          let b = index level (kh it.key) in
          set_child-AllItems children b _ k (insert-AllItems m (suc level) it (children b) q (k b))
      insert-AllItems zero level it (leaf h ds) q k =
          rw (bottom-eq-leaf kh block_size level it h ds)
            (All-add_leaf block_size (kh it.key) it h ds q k)
      insert-AllItems (suc m) level it (leaf h ds) q k =
          settle-AllItems (insert kh block_size m (suc level)) level false false it h ds
            (insert-AllItems m (suc level)) (insert-IsAddition kh block_size m (suc level)) q k

      pub add_item-AllItems :
          (may_enlarge : Bool) (below level : ℕ) (it : Item) (n : Node)
          → P it
          → AllItems P n
          → AllItems P (add_item kh block_size may_enlarge below level it (kh it.key) n).0
      unfolding add_item AllItems
      add_item-AllItems may_enlarge below level it (inner h children) q k =
          let b = index level (kh it.key) in
          set_child-AllItems children b _ k
            (add_item-AllItems may_enlarge (below - 1) (suc level) it (children b) q (k b))
      add_item-AllItems may_enlarge below level it (leaf h ds) q k =
          settle-AllItems (insert kh block_size (below - 1) (suc level)) level may_enlarge
            (below == 0) it h ds (insert-AllItems (below - 1) (suc level))
            (insert-IsAddition kh block_size (below - 1) (suc level)) q k

  All-remove_leaf :
      (k : List ℕ) (keyhash : ℕ) (h : Head) (ds : List Data)
      → All P (items_of ds)
      → AllItems P (remove_leaf k keyhash h ds)
  unfolding remove_leaf AllItems
  All-remove_leaf k keyhash h ds a = elim (Option-cases (find_data k ds)) [
    | inl e ↦ rw (e, remove_leaf) a
    | inr (p, e) ↦ rw (e, remove_leaf) (All-remove_data true k ds a)
  ]

  pub remove_item-AllItems :
      (level keyhash : ℕ) (k : List ℕ) (n : Node)
      → AllItems P n
      → AllItems P (remove_item level keyhash k n)
  unfolding remove_item AllItems
  remove_item-AllItems level keyhash k (leaf h ds) a = All-remove_leaf k keyhash h ds a
  remove_item-AllItems level keyhash k (inner h children) a =
      let b = index level keyhash in
      set_child-AllItems children b _ a
        (remove_item-AllItems (suc level) keyhash k (children b) (a b))
