-- ===== src/HTree/Visit.antt =====
-- `visit_node` of src/htree.c, the walk over a tree that `ht_visit` and the listings make.
use mathlib.Core.Option.{or_else}
use beansdb.Base.{
  ℕ, zero, suc, ◌≤◌, ◌≡◌, ◌≢◌, refl, sym, ap, ◌∙◌, arith, true, none, List, [], ◌∷◌, ◌++◌, All,
  All-append, ltb, if◌then◌else◌,
}
use beansdb.HTree.{Item, Data, Head, Node, leaf, inner, index, find_item, items_of}
use beansdb.HTree.Tree.{get_item}
use beansdb.HTree.Blocks.{
  same_key_iff, occurs, occurs-append, find_item-append, find_item-eq-none, find_data-eq-find_item,
}
use beansdb.HTree.Lookup.{IsValid}
use beansdb.HTree.Items.{AllItems}
use beansdb.HTree.Placed.{HasIndex, IsPlaced}

-- `visitor` changes a state; `decode` is `dc_decode`.
module _ {S : Type 0} (visitor : Item → S → S) (decode : List ℕ → List ℕ) where
  -- The loops over the items of a block and over the blocks of a chain.
  unfoldable pub visit_items : List Item → S → S
  visit_items [] s = s
  visit_items (p ∷ ps) s = visit_items ps (visitor (record p { key = decode p.key }) s)

  unfoldable pub visit_data : List Data → S → S
  visit_data [] s = s
  visit_data (d ∷ ds) s = visit_data ds (visit_items d.items s)

  -- The loop over the first children of a node.
  unfoldable pub visit_children : (ℕ → S → S) → ℕ → S → S
  visit_children visit zero s = s
  visit_children visit (suc m) s = visit m (visit_children visit m s)

  -- visit_node
  unfoldable pub visit_node : Node → S → S
  visit_node (leaf h ds) s = visit_data ds s
  visit_node (inner h children) s = visit_children (λ i. visit_node (children i)) 16 s

unfoldable pub gather : (ℕ → List Item) → ℕ → List Item
gather f zero = []
gather f (suc m) = gather f m ++ f m

-- The items below a node, from left to right.
unfoldable pub items_below : Node → List Item
items_below (leaf h ds) = items_of ds
items_below (inner h children) = gather (λ i. items_below (children i)) 16

module _ {S : Type 0} (visitor : Item → S → S) (decode : List ℕ → List ℕ) where
  visit_items-append :
      (ps qs : List Item) (s : S)
      → visit_items visitor decode (ps ++ qs) s
        ≡ visit_items visitor decode qs (visit_items visitor decode ps s)
  unfolding visit_items
  visit_items-append [] qs s = refl
  visit_items-append (p ∷ ps) qs s = visit_items-append ps qs _

  visit_data-eq-visit_items :
      (ds : List Data) (s : S)
      → visit_data visitor decode ds s ≡ visit_items visitor decode (items_of ds) s
  unfolding visit_data items_of visit_items
  visit_data-eq-visit_items [] s = refl
  visit_data-eq-visit_items (d ∷ ds) s =
      visit_data-eq-visit_items ds _ ∙ sym (visit_items-append d.items (items_of ds) s)

  visit_children-eq-visit_items :
      (visit : ℕ → S → S) (f : ℕ → List Item) (m : ℕ) (s : S)
      → ((i : ℕ) (s : S) → visit i s ≡ visit_items visitor decode (f i) s)
      → visit_children visitor decode visit m s ≡ visit_items visitor decode (gather f m) s
  unfolding visit_children gather visit_items
  visit_children-eq-visit_items visit f zero s h = refl
  visit_children-eq-visit_items visit f (suc m) s h =
      h m _
      ∙ ap (visit_items visitor decode (f m)) (visit_children-eq-visit_items visit f m s h)
      ∙ sym (visit_items-append (gather f m) (f m) s)

  pub visit_node-eq-visit_items :
      (n : Node) (s : S)
      → visit_node visitor decode n s ≡ visit_items visitor decode (items_below n) s
  unfolding visit_node items_below
  visit_node-eq-visit_items (leaf h ds) s = visit_data-eq-visit_items ds s
  visit_node-eq-visit_items (inner h children) s =
      visit_children-eq-visit_items (λ i. visit_node visitor decode (children i))
        (λ i. items_below (children i)) 16 s (λ i. visit_node-eq-visit_items (children i))

module _ (P : Item → Type 0) where
  All-gather : (f : ℕ → List Item) (m : ℕ) → ((i : ℕ) → All P (f i)) → All P (gather f m)
  unfolding gather
  All-gather f zero h = tt
  All-gather f (suc m) h = All-append P (gather f m) (f m) (All-gather f m h) (h m)

  AllItems-items_below : (n : Node) → AllItems P n → All P (items_below n)
  unfolding AllItems items_below
  AllItems-items_below (leaf h ds) a = a
  AllItems-items_below (inner h children) a =
      All-gather (λ i. items_below (children i)) 16 (λ i. AllItems-items_below (children i) (a i))

module _ (k : List ℕ) where
  occurs-gather :
      (f : ℕ → List Item) (b m : ℕ)
      → ((i : ℕ) → i ≢ b → occurs k (f i) ≡ 0)
      → occurs k (gather f m) ≡ (if ltb b m then occurs k (f b) else 0)
  unfolding gather occurs
  occurs-gather f b zero h = ground arith
  occurs-gather f b (suc m) h =
      ground (arith, occurs-append k (gather f m) (f m), occurs-gather f b m h, h m)

  find_item-gather :
      (f : ℕ → List Item) (b m : ℕ)
      → ((i : ℕ) → i ≢ b → occurs k (f i) ≡ 0)
      → find_item k (gather f m) ≡ (if ltb b m then find_item k (f b) else none)
  unfolding gather find_item or_else
  find_item-gather f b zero h = ground arith
  find_item-gather f b (suc m) h =
      find_item-append k (gather f m) (f m)
      ∙ rw (find_item-gather f b m h) (ground (arith, find_item-eq-none k (f m), h m))

  module _ (kh : List ℕ → ℕ) where
    occurs-HasIndex :
        (level i : ℕ) (ps : List Item)
        → All (HasIndex kh level i) ps
        → i ≢ index level (kh k)
        → occurs k ps ≡ 0
    unfolding occurs
    occurs-HasIndex level i [] a ne = refl
    occurs-HasIndex level i (p ∷ ps) a ne =
        ground (arith, occurs-HasIndex level i ps a.1 ne, same_key_iff k p.key, a.0)

    index-less : (level : ℕ) → ltb (index level (kh k)) 16 ≡ true
    unfolding index
    index-less level = ground arith

    occurs-child :
        (level : ℕ) (h : Head) (children : ℕ → Node)
        → IsPlaced kh level (inner h children)
        → (i : ℕ) → i ≢ index level (kh k)
        → occurs k (items_below (children i)) ≡ 0
    unfolding IsPlaced
    occurs-child level h children p i =
        occurs-HasIndex level i (items_below (children i))
          (AllItems-items_below (HasIndex kh level i) (children i) (p i).0)

    -- In a tree that is in order and in which every item is below the child that its hash tells, a walk
    -- meets under a key what a lookup of the key finds, and meets the key at most once.
    pub find_item-items_below :
        (level : ℕ) (n : Node)
        → IsValid n
        → IsPlaced kh level n
        → (find_item k (items_below n) ≡ get_item level (kh k) k n) × (occurs k (items_below n) ≤ 1)
    unfolding items_below get_item IsValid IsPlaced
    find_item-items_below level (leaf h ds) v p = (sym (find_data-eq-find_item k ds), v.unique k)
    find_item-items_below level (inner h children) v p =
        let b = index level (kh k) in
        let f : (ℕ → List Item) = λ i. items_below (children i) in
        let (found, once) = find_item-items_below (suc level) (children b) (v b) (p b).1 in
        let others = occurs-child level h children p in
        (
          find_item-gather f b 16 others ∙ rw (index-less level) found,
          rw (occurs-gather f b 16 others, index-less level) once,
        )
