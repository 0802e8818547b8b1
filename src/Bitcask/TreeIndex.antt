-- ===== src/Bitcask/TreeIndex.antt =====
-- The tree of src/htree.c as the index of a bitcask: `ht_add`, `ht_remove` and `ht_get` test the
-- bucket of the key, encode it and call the operations of the pool. The key codec is a parameter
-- `dc_encode`, with `kh` the hash of the key that the code stands for.
use beansdb.Base.{
  ℕ, suc, ◌≤◌, ◌≡◌, refl, sym, ap, ◌∙◌, arith, true, false, inl, inr, Option, none, some, List,
  if◌then◌else◌, Bool-cases,
}
use beansdb.HTree.{Item, max_depth, clear, same_key, find_item, find_data}
use beansdb.HTree.Tree.{get_item}
use beansdb.HTree.Blocks.{same_key_iff}
use beansdb.HTree.Pool.{Pool, ht_new, ht_add2, ht_remove2, ht_get2, add, remove, run_op}
use beansdb.HTree.Pool.Refines.{
  IsPool, ht_new-IsPool, run_op-IsPool, ht_get2-ht_add2, ht_get2-ht_remove2,
}
use beansdb.Store.{check_bucket}
use beansdb.Bitcask.{Entry, Index}

abbrev entry_of : Option Item → Option Entry
entry_of none = none
entry_of (some it) = some (record { place = it.pos; hash = it.hash; ver = it.ver })

module _ (depth place : ℕ) (kh : List ℕ → ℕ) (dc_encode : List ℕ → List ℕ) where
  abbrev item_for : List ℕ → Entry → Item
  item_for key e = record { pos = e.place; ver = e.ver; hash = e.hash; key = dc_encode key }

  unfoldable pub ht_add : List ℕ → Entry → Pool → Pool
  ht_add key e t = if check_bucket depth place key then ht_add2 kh (item_for key e) t else t

  unfoldable pub ht_remove : List ℕ → Pool → Pool
  ht_remove key t = if check_bucket depth place key then ht_remove2 kh (dc_encode key) t else t

  unfoldable pub ht_get : List ℕ → Pool → Option Entry
  ht_get key t =
      if check_bucket depth place key then entry_of (ht_get2 kh (dc_encode key) t) else none

  module _ (shallow : suc depth ≤ max_depth)
      (injective : (j k : List ℕ) → dc_encode j ≡ dc_encode k → j ≡ k) where
    same_code : (j k : List ℕ) → same_key (dc_encode j) (dc_encode k) ≡ same_key j k
    same_code j k = elim (Bool-cases (same_key j k)) [
      | inl e ↦
          (same_key_iff (dc_encode j) (dc_encode k)).1 (ap dc_encode ((same_key_iff j k).0 e))
          ∙ sym e
      | inr e ↦ elim (Bool-cases (same_key (dc_encode j) (dc_encode k))) [
        | inl e' ↦ absurd (
            ground (
              arith,
              e,
              (same_key_iff j k).1
                  (injective j k ((same_key_iff (dc_encode j) (dc_encode k)).0 e')),
            ))
        | inr e' ↦ e' ∙ sym e
      ]
    ]

    -- A key of another bucket is not the key.
    other_bucket :
        (j k : List ℕ)
        → check_bucket depth place k ≡ true
        → check_bucket depth place j ≡ false
        → same_key j k ≡ false
    other_bucket j k t f = elim (Bool-cases (same_key j k)) [
      | inl e ↦ absurd (
          ground
            (arith, t, f, ap (λ (x : List ℕ). check_bucket depth place x) ((same_key_iff j k).0 e)))
      | inr e ↦ e
    ]

    pub ht_add-IsPool : (k : List ℕ) (e : Entry) (t : Pool) → IsPool t → IsPool (ht_add k e t)
    unfolding ht_add run_op
    ht_add-IsPool k e t p = elim (Bool-cases (check_bucket depth place k)) [
      | inl b ↦ rw b (run_op-IsPool kh (add (item_for k e)) t p)
      | inr b ↦ rw b p
    ]

    pub ht_remove-IsPool : (k : List ℕ) (t : Pool) → IsPool t → IsPool (ht_remove k t)
    unfolding ht_remove run_op
    ht_remove-IsPool k t p = elim (Bool-cases (check_bucket depth place k)) [
      | inl b ↦ rw b (run_op-IsPool kh (remove (dc_encode k)) t p)
      | inr b ↦ rw b p
    ]

    pub ht_get-ht_add :
        (j k : List ℕ) (e : Entry) (t : Pool)
        → IsPool t
        → check_bucket depth place k ≡ true
        → ht_get j (ht_add k e t) ≡ (if same_key j k then some e else ht_get j t)
    unfolding ht_get ht_add
    ht_get-ht_add j k e t p b = elim (Bool-cases (check_bucket depth place j)) [
      | inl c ↦
          rw (b, c, ht_get2-ht_add2 kh (dc_encode j) (item_for k e) t p, same_code j k)
            (elim (Bool-cases (same_key j k)) [ inl s ↦ rw s refl | inr s ↦ rw s refl ])
      | inr c ↦ rw (c, other_bucket j k b c) refl
    ]

    pub ht_get-ht_remove :
        (j k : List ℕ) (t : Pool)
        → IsPool t
        → check_bucket depth place k ≡ true
        → ht_get j (ht_remove k t) ≡ (if same_key j k then none else ht_get j t)
    unfolding ht_get ht_remove
    ht_get-ht_remove j k t p b = elim (Bool-cases (check_bucket depth place j)) [
      | inl c ↦
          rw (b, c, ht_get2-ht_remove2 kh (dc_encode j) (dc_encode k) t p, same_code j k)
            (elim (Bool-cases (same_key j k)) [ inl s ↦ rw s refl | inr s ↦ rw s refl ])
      | inr c ↦ rw (c, other_bucket j k b c) refl
    ]

    pub ht_get-ht_new : (k : List ℕ) → ht_get k (ht_new depth false) ≡ none
    unfolding ht_get ht_new ht_get2 get_item clear find_data find_item
    ht_get-ht_new k = elim (Bool-cases (check_bucket depth place k)) [
      | inl b ↦ rw b refl
      | inr b ↦ rw b refl
    ]

    -- The index of a bitcask.
    unfoldable pub tree_index : Index
    tree_index = record {
      Tree = Pool;
      IsOk = IsPool;
      takes = check_bucket depth place;
      ht_new = ht_new depth false;
      ht_get = ht_get;
      ht_add = ht_add;
      ht_remove = ht_remove;
      ht_new-IsOk = ht_new-IsPool kh depth false shallow;
      ht_add-IsOk = ht_add-IsPool;
      ht_remove-IsOk = ht_remove-IsPool;
      ht_get-ht_new = ht_get-ht_new;
      ht_get-ht_add = ht_get-ht_add;
      ht_get-ht_remove = ht_get-ht_remove;
    }
