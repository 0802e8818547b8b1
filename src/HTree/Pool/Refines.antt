-- ===== src/HTree/Pool/Refines.antt =====
-- The tree of src/htree.c is a finite map from keys to items.
use beansdb.Base.{
  ℕ, suc, ◌+◌, ◌-◌, ◌≤◌, ◌≡◌, refl, ◌∙◌, arith, Bool, true, Option, none, some, List, [], ◌∷◌, ltb,
  if◌then◌else◌,
}
use beansdb.HTree.{Item, Node, leaf, inner, max_depth, clear, index, same_key, find_item, find_data}
use beansdb.HTree.Tree.{add_item, settle, get_item}
use beansdb.HTree.Lookup.{IsValid, clear-IsValid}
use beansdb.HTree.Insert.{add_item-IsAddition}
use beansdb.HTree.Remove.{remove_item-IsRemoval}
use beansdb.HTree.Pool.{Pool, ht_new, ht_add2, ht_remove2, ht_get2, Op, add, remove, run_op, run}

-- What the latest call on a key leaves under it.
unfoldable pub lookup : List ℕ → List Op → Option Item
lookup k [] = none
lookup k (add it ∷ ops) = if same_key k it.key then some it else lookup k ops
lookup k (remove k' ∷ ops) = if same_key k k' then none else lookup k ops

pub record IsPool (t : Pool) : Type 0 where
  pub bounded : t.height + t.depth ≤ max_depth
  pub valid : IsValid t.root

module _ (kh : List ℕ → ℕ) where
  pub ht_new-IsPool : (depth : ℕ) (tmp : Bool) → suc depth ≤ max_depth → IsPool (ht_new depth tmp)
  unfolding ht_new
  ht_new-IsPool depth tmp h = record { bounded = omega arith; valid = clear-IsValid }

  -- The pool is enlarged only where it may be.
  enlarged-may_enlarge :
      (block_size : ℕ) (may_enlarge : Bool) (below level : ℕ) (it : Item) (keyhash : ℕ) (n : Node)
      → (add_item kh block_size may_enlarge below level it keyhash n).1 ≡ true
      → may_enlarge ≡ true
  unfolding add_item settle
  enlarged-may_enlarge block_size may_enlarge below level it keyhash (inner h children) e =
      enlarged-may_enlarge block_size may_enlarge (below - 1) (suc level) it keyhash
        (children (index level keyhash)) e
  enlarged-may_enlarge block_size may_enlarge below level it keyhash (leaf h ds) e = ground arith

  -- One call, for the key and for the others.
  pub ht_get2-ht_add2 :
      (k : List ℕ) (it : Item) (t : Pool)
      → IsPool t
      → ht_get2 kh k (ht_add2 kh it t) ≡ (if same_key k it.key then some it else ht_get2 kh k t)
  unfolding ht_add2 ht_get2
  ht_get2-ht_add2 k it t p =
      (add_item-IsAddition kh t.block_size (ltb (t.height + t.depth) max_depth) (t.height - 1)
          t.depth it t.root p.valid).1
        k

  pub ht_get2-ht_remove2 :
      (k k' : List ℕ) (t : Pool)
      → IsPool t
      → ht_get2 kh k (ht_remove2 kh k' t) ≡ (if same_key k k' then none else ht_get2 kh k t)
  unfolding ht_remove2 ht_get2
  ht_get2-ht_remove2 k k' t p = (remove_item-IsRemoval kh t.depth k' t.root p.valid).1 k

  pub run_op-IsPool : (op : Op) (t : Pool) → IsPool t → IsPool (run_op kh op t)
  unfolding run_op ht_add2 ht_remove2
  run_op-IsPool (add it) t p = record {
    bounded = ground (
      arith,
      enlarged-may_enlarge t.block_size (ltb (t.height + t.depth) max_depth) (t.height - 1) t.depth
          it (kh it.key) t.root,
      p.bounded,
    );
    valid =
        (add_item-IsAddition kh t.block_size (ltb (t.height + t.depth) max_depth) (t.height - 1)
          t.depth it t.root p.valid).0;
  }
  run_op-IsPool (remove k) t p = record {
    bounded = p.bounded;
    valid = (remove_item-IsRemoval kh t.depth k t.root p.valid).0;
  }

  -- Every tree that additions and removals reach from one that is in order is in order: the pool stays
  -- within its depth of eight levels, no block is written past its end, no key is stored twice.
  pub run-IsPool : (ops : List Op) (t : Pool) → IsPool t → IsPool (run kh ops t)
  unfolding run
  run-IsPool [] t p = p
  run-IsPool (op ∷ ops) t p = run_op-IsPool op (run kh ops t) (run-IsPool ops t p)

  -- In a tree that starts empty, at a depth below eight, a lookup finds what the latest addition or
  -- removal of the key left there.
  pub ht_get2-run :
      (ops : List Op) (k : List ℕ) (depth : ℕ) (tmp : Bool)
      → suc depth ≤ max_depth
      → ht_get2 kh k (run kh ops (ht_new depth tmp)) ≡ lookup k ops
  unfolding run run_op ht_get2 get_item find_data find_item clear ht_new ht_add2 ht_remove2 lookup
  ht_get2-run [] k depth tmp h = refl
  ht_get2-run (add it ∷ ops) k depth tmp h =
      let p = run-IsPool ops (ht_new depth tmp) (ht_new-IsPool depth tmp h) in
      ht_get2-ht_add2 k it (run kh ops (ht_new depth tmp)) p
      ∙ ground (arith, ht_get2-run ops k depth tmp h)
  ht_get2-run (remove k' ∷ ops) k depth tmp h =
      let p = run-IsPool ops (ht_new depth tmp) (ht_new-IsPool depth tmp h) in
      ht_get2-ht_remove2 k k' (run kh ops (ht_new depth tmp)) p
      ∙ ground (arith, ht_get2-run ops k depth tmp h)
