-- ===== src/HTree/Placed.antt =====
-- Every item of a tree of src/htree.c lies below the child that the hash of its key tells.
use mathlib.Core.Path.{subst}
use beansdb.Base.{
  ℕ, zero, suc, ◌-◌, ◌≡◌, refl, arith, Bool, true, false, inl, inr, List, [], ◌∷◌, ◌==◌, Bool-cases,
  Option-cases,
}
use beansdb.HTree.{
  Item, Data, Head, Node, leaf, inner, index, clear, find_data, set_child, items_of, distribute,
  add_leaf,
}
use beansdb.HTree.Tree.{split_node, settle, insert, add_item, remove_leaf, remove_item}
use beansdb.HTree.Lookup.{Adds, settle-cases}
use beansdb.HTree.Insert.{insert-IsAddition, bottom-eq-leaf}
use beansdb.HTree.Items.{
  AllItems, Keeps, clear-AllItems, insert-AllItems, add_item-AllItems, remove_item-AllItems,
}

abbrev pub HasIndex : (List ℕ → ℕ) → ℕ → ℕ → Item → Type 0
HasIndex kh level i p = index level (kh p.key) ≡ i

unfoldable pub IsPlaced : (List ℕ → ℕ) → ℕ → Node → Type 0
unfolding AllItems
IsPlaced kh level (leaf h ds) = Unit
IsPlaced kh level (inner h children) =
    (i : ℕ) → AllItems (HasIndex kh level i) (children i) × IsPlaced kh (suc level) (children i)

number_eq : (i b : ℕ) → (i == b) ≡ true → b ≡ i
number_eq i b e = ground arith

-- One child changed, for a property that depends on the child's number.
set_child-each :
    (Q : ℕ → Node → Type 0) (children : ℕ → Node) (b : ℕ) (n : Node)
    → ((i : ℕ) → Q i (children i))
    → Q b n
    → (i : ℕ) → Q i (set_child children b n i)
unfolding set_child
set_child-each Q children b n h v i = elim (Bool-cases (i == b)) [
  | inl e ↦ rw (e, set_child) (subst (λ j. Q j n) (number_eq i b e) v)
  | inr e ↦ rw (e, set_child) (h i)
]

module _ (kh : List ℕ → ℕ) where
  abbrev Places : (Item → ℕ → Node → Node) → ℕ → Type 0
  Places add level =
      (it : Item) (n : Node) → IsPlaced kh level n → IsPlaced kh level (add it (kh it.key) n)

  abbrev IsBelow : ℕ → ℕ → Node → Type 0
  IsBelow level i n = AllItems (HasIndex kh level i) n × IsPlaced kh (suc level) n

  clear-IsPlaced : (level : ℕ) → IsPlaced kh level clear
  unfolding IsPlaced clear
  clear-IsPlaced level = tt

  distribute-IsPlaced :
      (add : Item → ℕ → Node → Node) (level : ℕ) (its : List Item) (children : ℕ → Node)
      → ((i : ℕ) → Keeps (HasIndex kh level i) kh add)
      → Places add (suc level)
      → ((i : ℕ) → IsBelow level i (children i))
      → (i : ℕ) → IsBelow level i (distribute kh add level its children i)
  unfolding distribute
  distribute-IsPlaced add level [] children keeps places h = h
  distribute-IsPlaced add level (it ∷ its) children keeps places h =
      let b = index level (kh it.key) in
      distribute-IsPlaced add level its (set_child children b (add it (kh it.key) (children b)))
        keeps places
        (set_child-each (IsBelow level) children b _ h
          (keeps b it (children b) refl (h b).0, places it (children b) (h b).1))

  settle-IsPlaced :
      (block_size : ℕ) (add : Item → ℕ → Node → Node) (level : ℕ) (may_enlarge at_bottom : Bool)
      (it : Item) (h : Head) (ds : List Data)
      → ((i : ℕ) → Keeps (HasIndex kh level i) kh add)
      → Places add (suc level)
      → Adds kh add (suc level)
      → IsPlaced kh level
          (settle kh block_size may_enlarge at_bottom add level it (kh it.key) h ds).0
  unfolding IsPlaced split_node
  settle-IsPlaced block_size add level may_enlarge at_bottom it h ds keeps places adds =
      let ds' = (add_leaf block_size it (kh it.key) h ds).1 in
      elim (settle-cases kh add level adds block_size may_enlarge at_bottom it h ds) [
        | inl e ↦ rw e tt
        | inr e ↦ rw e (
            distribute-IsPlaced add level (items_of ds') (λ i. clear) keeps places
              (λ i. (clear-AllItems (HasIndex kh level i), clear-IsPlaced (suc level))))
      ]

  module _ (block_size : ℕ) where
    insert-IsPlaced : (below level : ℕ) → Places (insert kh block_size below level) level
    unfolding insert IsPlaced
    insert-IsPlaced zero level it (inner h children) p =
        let b = index level (kh it.key) in
        set_child-each (IsBelow level) children b _ p (
          insert-AllItems (HasIndex kh level b) kh block_size zero (suc level) it (children b) refl
              (p b).0,
          insert-IsPlaced zero (suc level) it (children b) (p b).1,
        )
    insert-IsPlaced (suc m) level it (inner h children) p =
        let b = index level (kh it.key) in
        set_child-each (IsBelow level) children b _ p (
          insert-AllItems (HasIndex kh level b) kh block_size m (suc level) it (children b) refl
              (p b).0,
          insert-IsPlaced m (suc level) it (children b) (p b).1,
        )
    insert-IsPlaced zero level it (leaf h ds) p = rw (bottom-eq-leaf kh block_size level it h ds) tt
    insert-IsPlaced (suc m) level it (leaf h ds) p =
        settle-IsPlaced block_size (insert kh block_size m (suc level)) level false false it h ds
          (λ i. insert-AllItems (HasIndex kh level i) kh block_size m (suc level))
          (insert-IsPlaced m (suc level)) (insert-IsAddition kh block_size m (suc level))

    pub add_item-IsPlaced :
        (may_enlarge : Bool) (below level : ℕ) (it : Item) (n : Node)
        → IsPlaced kh level n
        → IsPlaced kh level (add_item kh block_size may_enlarge below level it (kh it.key) n).0
    unfolding add_item IsPlaced
    add_item-IsPlaced may_enlarge below level it (inner h children) p =
        let b = index level (kh it.key) in
        set_child-each (IsBelow level) children b _ p (
          add_item-AllItems (HasIndex kh level b) kh block_size may_enlarge (below - 1) (suc level)
              it (children b) refl (p b).0,
          add_item-IsPlaced may_enlarge (below - 1) (suc level) it (children b) (p b).1,
        )
    add_item-IsPlaced may_enlarge below level it (leaf h ds) p =
        settle-IsPlaced block_size (insert kh block_size (below - 1) (suc level)) level may_enlarge
          (below == 0) it h ds
          (λ i. insert-AllItems (HasIndex kh level i) kh block_size (below - 1) (suc level))
          (insert-IsPlaced (below - 1) (suc level))
          (insert-IsAddition kh block_size (below - 1) (suc level))

  remove_leaf-IsPlaced :
      (level : ℕ) (k : List ℕ) (keyhash : ℕ) (h : Head) (ds : List Data)
      → IsPlaced kh level (remove_leaf k keyhash h ds)
  unfolding remove_leaf IsPlaced
  remove_leaf-IsPlaced level k keyhash h ds = elim (Option-cases (find_data k ds)) [
    | inl e ↦ rw (e, remove_leaf) tt
    | inr (p, e) ↦ rw (e, remove_leaf) tt
  ]

  pub remove_item-IsPlaced :
      (level keyhash : ℕ) (k : List ℕ) (n : Node)
      → IsPlaced kh level n
      → IsPlaced kh level (remove_item level keyhash k n)
  unfolding remove_item IsPlaced
  remove_item-IsPlaced level keyhash k (leaf h ds) p = remove_leaf-IsPlaced level k keyhash h ds
  remove_item-IsPlaced level keyhash k (inner h children) p =
      let b = index level keyhash in
      set_child-each (IsBelow level) children b _ p (
        remove_item-AllItems (HasIndex kh level b) (suc level) keyhash k (children b) (p b).0,
        remove_item-IsPlaced (suc level) keyhash k (children b) (p b).1,
      )
