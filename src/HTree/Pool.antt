-- ===== src/HTree/Pool.antt =====
-- `HTree` of src/htree.c: the tree with the height of its pool. Keys are those that the codec
-- encoded, `key_hash` is the parameter `kh`; the test of `check_bucket` stands before these calls.
pub mod Refines
pub mod Visits
use beansdb.Base.{ℕ, ◌+◌, ◌-◌, Bool, Option, List, [], ◌∷◌, ltb, if◌then◌else◌}
use beansdb.HTree.{Item, Node, max_depth, clear}
use beansdb.HTree.Tree.{add_item, remove_item, get_item}

pub record Pool : Type 0 where
  pub depth : ℕ
  pub height : ℕ
  pub block_size : ℕ
  pub root : Node

-- ht_new
unfoldable pub ht_new : ℕ → Bool → Pool
ht_new depth tmp = record {
  depth = depth;
  height = 1;
  block_size = if tmp then 1024 else 256;
  root = clear;
}

pub data Op : Type 0 where
  add : Item → Op
  remove : List ℕ → Op

module _ (kh : List ℕ → ℕ) where
  -- ht_add2
  unfoldable pub ht_add2 : Item → Pool → Pool
  ht_add2 it t =
      let (n, enlarged) =
        add_item kh t.block_size (ltb (t.height + t.depth) max_depth) (t.height - 1) t.depth it
          (kh it.key) t.root in
      record t { height = if enlarged then t.height + 1 else t.height; root = n }

  -- ht_remove2
  unfoldable pub ht_remove2 : List ℕ → Pool → Pool
  ht_remove2 k t = record t { root = remove_item t.depth (kh k) k t.root }

  -- ht_get2
  unfoldable pub ht_get2 : List ℕ → Pool → Option Item
  ht_get2 k t = get_item t.depth (kh k) k t.root

  unfoldable pub run_op : Op → Pool → Pool
  run_op (add it) t = ht_add2 it t
  run_op (remove k) t = ht_remove2 k t

  -- The calls of a list, the last first.
  unfoldable pub run : List Op → Pool → Pool
  run [] t = t
  run (op ∷ ops) t = run_op op (run ops t)
