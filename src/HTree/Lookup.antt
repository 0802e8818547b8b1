-- ===== src/HTree/Lookup.antt =====
-- What a lookup in the tree of src/htree.c finds after an item is added.
use mathlib.Core.Option.{or_else}
use beansdb.Base.{
  ℕ, suc, ◌≤◌, ◌≡◌, ◌⊎◌, refl, ◌∙◌, arith, Bool, inl, inr, some, List, [], ◌∷◌, if◌then◌else◌,
}
use beansdb.HTree.{
  Item, Data, Head, Node, leaf, inner, index, same_key, find_item, find_data, clear, add_leaf,
  set_child, items_of, distribute,
}
use beansdb.HTree.Tree.{split_node, settle, get_item}
use beansdb.HTree.Blocks.{same_key_iff, occurs, find_item-eq-none, find_data-eq-find_item}
use beansdb.HTree.Chain.{IsChain, total_length, find_data-add_leaf, add_leaf-IsChain}

-- Every leaf below a node has a chain that is in order.
unfoldable pub IsValid : Node → Type 0
IsValid (leaf h ds) = IsChain ds
IsValid (inner h children) = (i : ℕ) → IsValid (children i)

pub clear-IsValid : IsValid clear
unfolding IsValid clear total_length items_of occurs
clear-IsValid = record {
  not_empty = λ p. cc;
  unique = λ k. ground arith;
  blocks = ((refl, ground arith), tt);
}

module _ (kh : List ℕ → ℕ) where
  -- After an item is put in, its key finds it and every other key finds what it found before.
  abbrev pub IsAddition : ℕ → Item → Node → Node → Type 0
  IsAddition level it n n' =
      IsValid n'
      × ((k : List ℕ)
          → get_item level (kh k) k n'
            ≡ (if same_key k it.key then some it else get_item level (kh k) k n))

  abbrev pub Adds : (Item → ℕ → Node → Node) → ℕ → Type 0
  Adds add level = (it : Item) (n : Node) → IsValid n → IsAddition level it n (add it (kh it.key) n)

  pub set_child-IsValid :
      (children : ℕ → Node) (b : ℕ) (n : Node)
      → ((i : ℕ) → IsValid (children i))
      → IsValid n
      → (i : ℕ) → IsValid (set_child children b n i)
  unfolding set_child
  set_child-IsValid children b n h v i = ground (arith, h i)

  -- One child changed: what the node finds.
  pub get_item-set_child :
      (level : ℕ) (it : Item) (children : ℕ → Node) (n : Node)
      → IsAddition (suc level) it (children (index level (kh it.key))) n
      → (k : List ℕ)
      → get_item
          (suc level)
          (kh k)
          k
          (set_child children (index level (kh it.key)) n (index level (kh k)))
        ≡ (if same_key k it.key
            then some it
            else get_item (suc level) (kh k) k (children (index level (kh k))))
  unfolding set_child
  get_item-set_child level it children n a k = ground (arith, a.1 k, same_key_iff k it.key)

  module _ (add : Item → ℕ → Node → Node) (level : ℕ) (adds : Adds add (suc level)) where
    distribute-IsValid :
        (its : List Item) (children : ℕ → Node)
        → ((i : ℕ) → IsValid (children i))
        → (i : ℕ) → IsValid (distribute kh add level its children i)
    unfolding distribute
    distribute-IsValid [] children h = h
    distribute-IsValid (it ∷ its) children h =
        let b = index level (kh it.key) in
        distribute-IsValid its (set_child children b (add it (kh it.key) (children b)))
          (set_child-IsValid children b _ h (adds it (children b) (h b)).0)

    get_item-distribute :
        (k : List ℕ) (its : List Item) (children : ℕ → Node)
        → ((i : ℕ) → IsValid (children i))
        → occurs k its ≤ 1
        → get_item (suc level) (kh k) k (distribute kh add level its children (index level (kh k)))
          ≡ or_else
              (find_item k its)
              (get_item (suc level) (kh k) k (children (index level (kh k))))
    unfolding distribute find_item or_else occurs
    get_item-distribute k [] children h u = refl
    get_item-distribute k (it ∷ its) children h u =
        let b = index level (kh it.key) in
        get_item-distribute k its (set_child children b (add it (kh it.key) (children b)))
          (set_child-IsValid children b _ h (adds it (children b) (h b)).0) (omega arith)
        ∙ ground (
          arith,
          get_item-set_child level it children (add it (kh it.key) (children b))
              (adds it (children b) (h b)) k,
          find_item-eq-none k its,
          u,
        )

    -- A leaf that is split finds what its chain found.
    split_node-IsValid :
        (block_size : ℕ) (h : Head) (ds : List Data)
        → IsValid (split_node kh block_size add level h ds)
    unfolding split_node IsValid
    split_node-IsValid block_size h ds =
        distribute-IsValid (items_of ds) (λ i. clear) (λ i. clear-IsValid)

    get_item-split_node :
        (block_size : ℕ) (h : Head) (ds : List Data) (k : List ℕ)
        → IsChain ds
        → get_item level (kh k) k (split_node kh block_size add level h ds) ≡ find_data k ds
    unfolding split_node get_item clear find_data find_item or_else
    get_item-split_node block_size h ds k c =
        get_item-distribute k (items_of ds) (λ i. clear) (λ i. clear-IsValid) (c.unique k)
        ∙ rw (find_data-eq-find_item k ds) (ground arith)

    module _ (block_size : ℕ) (may_enlarge at_bottom : Bool) (it : Item) (h : Head)
        (ds : List Data) where
      pub settle-cases :
          let (h', ds') = add_leaf block_size it (kh it.key) h ds in
          ((settle kh block_size may_enlarge at_bottom add level it (kh it.key) h ds).0
            ≡ leaf h' ds')
          ⊎ ((settle kh block_size may_enlarge at_bottom add level it (kh it.key) h ds).0
              ≡ split_node kh block_size add level h' ds')
      unfolding settle
      settle-cases = ground arith

      pub settle-IsAddition :
          IsChain ds
          → IsAddition level it
              (leaf h ds)
              (settle kh block_size may_enlarge at_bottom add level it (kh it.key) h ds).0
      unfolding IsValid get_item
      settle-IsAddition c =
          let (h', ds') = add_leaf block_size it (kh it.key) h ds in
          let c' = add_leaf-IsChain block_size it (kh it.key) h ds c in
          let found = find_data-add_leaf block_size it (kh it.key) h ds c in
          elim settle-cases [
            | inl e ↦ rw e (c', found)
            | inr e ↦ rw e (
              split_node-IsValid block_size h' ds',
              λ k. get_item-split_node block_size h' ds' k c' ∙ found k,
            )
          ]
