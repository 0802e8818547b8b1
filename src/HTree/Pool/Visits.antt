-- ===== src/HTree/Pool/Visits.antt =====
-- The walk of src/htree.c over a tree that additions and removals made.
use beansdb.Base.{ℕ, suc, ◌+◌, ◌-◌, ◌≤◌, ◌≡◌, refl, ◌∙◌, Bool, List, [], ◌∷◌, ltb}
use beansdb.HTree.{Item, max_depth, find_item, clear}
use beansdb.HTree.Blocks.{occurs}
use beansdb.HTree.Placed.{IsPlaced, add_item-IsPlaced, remove_item-IsPlaced}
use beansdb.HTree.Visit.{
  visit_items, visit_node, items_below, visit_node-eq-visit_items, find_item-items_below,
}
use beansdb.HTree.Pool.{ht_new, ht_add2, ht_remove2, ht_get2, Pool, Op, add, remove, run_op, run}
use beansdb.HTree.Pool.Refines.{lookup, ht_new-IsPool, run-IsPool, ht_get2-run}

-- ht_visit and ht_visit2; the lock that the first takes is not modelled.
unfoldable pub ht_visit : {S : Type 0} → (Item → S → S) → (List ℕ → List ℕ) → Pool → S → S
unfolding visit_node
ht_visit visitor decode t s = visit_node visitor decode t.root s

module _ (kh : List ℕ → ℕ) where
  -- A tree keeps its depth, and every item below the child that its hash tells.
  abbrev IsPlacedAt : ℕ → Pool → Type 0
  IsPlacedAt depth t = (t.depth ≡ depth) × IsPlaced kh t.depth t.root

  run_op-IsPlaced :
      (op : Op) (depth : ℕ) (t : Pool) → IsPlacedAt depth t → IsPlacedAt depth (run_op kh op t)
  unfolding run_op ht_add2 ht_remove2
  run_op-IsPlaced (add it) depth t p = (
    p.0,
    add_item-IsPlaced kh t.block_size (ltb (t.height + t.depth) max_depth) (t.height - 1) t.depth it
        t.root p.1,
  )
  run_op-IsPlaced (remove k) depth t p = (p.0, remove_item-IsPlaced kh t.depth (kh k) k t.root p.1)

  run-IsPlaced :
      (ops : List Op) (depth : ℕ) (t : Pool) → IsPlacedAt depth t → IsPlacedAt depth (run kh ops t)
  unfolding run
  run-IsPlaced [] depth t p = p
  run-IsPlaced (op ∷ ops) depth t p =
      run_op-IsPlaced op depth (run kh ops t) (run-IsPlaced ops depth t p)

  ht_new-IsPlaced : (depth : ℕ) (tmp : Bool) → IsPlacedAt depth (ht_new depth tmp)
  unfolding ht_new IsPlaced clear
  ht_new-IsPlaced depth tmp = (refl, tt)

  -- In a tree that starts empty, at a depth below eight, and is changed by any sequence of ht_add2
  -- and ht_remove2, ht_visit calls the visitor on a list of items, in its order and with their keys
  -- decoded. The list has for every key what the latest addition or removal of the key left there,
  -- and has it at most once.
  pub ht_visit-run :
      {S : Type 0} (visitor : Item → S → S) (decode : List ℕ → List ℕ) (s : S) (ops : List Op)
      (depth : ℕ) (tmp : Bool)
      → suc depth ≤ max_depth
      → let t = run kh ops (ht_new depth tmp) in
        (ht_visit visitor decode t s ≡ visit_items visitor decode (items_below t.root) s)
        × ((k : List ℕ)
            → (find_item k (items_below t.root) ≡ lookup k ops)
              × (occurs k (items_below t.root) ≤ 1))
  unfolding ht_visit
  ht_visit-run visitor decode s ops depth tmp h =
      let t = run kh ops (ht_new depth tmp) in
      let p = run-IsPool kh ops (ht_new depth tmp) (ht_new-IsPool kh depth tmp h) in
      let q = run-IsPlaced ops depth (ht_new depth tmp) (ht_new-IsPlaced depth tmp) in
      (
        visit_node-eq-visit_items visitor decode t.root s,
        λ k.
            let (found, once) = find_item-items_below k kh t.depth t.root p.valid q.1 in
            (found ∙ (unfold ht_get2 in ht_get2-run kh ops k depth tmp h), once),
      )
