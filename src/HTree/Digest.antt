-- ===== src/HTree/Digest.antt =====
-- The count and the hash of a leaf of src/htree.c are those of its items, however they came there:
-- `add_item` and `remove_item` keep them up to date by differences.
use native.Mathlib.Nat.{add-mul, mul_comm}
use native.Mathlib.Decide.{dec_le}
use beansdb.Base.{
  ℕ, ◌+◌, ◌-◌, ◌*◌, ◌%◌, ◌^◌, ◌≤◌, ◌<◌, ◌≡◌, ◌≢◌, sym, ap, ◌∙◌, arith, true, inl, inr, some, List,
  [], ◌∷◌, ltb, Option-cases, if◌then◌else◌,
}
use beansdb.HTree.{Item, Data, Head, is_live, item_hash, find_item, find_data, items_of, add_leaf}
use beansdb.HTree.Tree.{head_of, data_of, remove_leaf}
use beansdb.HTree.Blocks.{same_key_iff, find_data-eq-find_item}
use beansdb.HTree.Totals.{total, total-replace_data, total-append_data, total-remove_data}

-- The hash of an item does not fit its 16 bits.
abbrev pub is_large : Item → ℕ
is_large p = if ltb p.hash (2 ^ 16) then 0 else 1

abbrev pub item_digest : (List ℕ → ℕ) → Item → ℕ
item_digest kh p = kh p.key * item_hash p

pub record IsDigest (kh : List ℕ → ℕ) (h : Head) (ds : List Data) : Type 0 where
  pub count : h.count ≡ total is_live (items_of ds) % 2 ^ 32
  pub hash : h.hash ≡ total (item_digest kh) (items_of ds) % 2 ^ 16
  pub small : total is_large (items_of ds) ≡ 0

is_live-le_one : (p : Item) → is_live p ≤ 1
unfolding is_live
is_live-le_one p = ground arith

item_hash-le_hash : (p : Item) → item_hash p ≤ p.hash
unfolding item_hash is_live
item_hash-le_hash p = ground arith

-- The hash of a replaced item is exchanged for that of the new one.
exchange_hash :
    (k a b rest sum : ℕ)
    → a < 2 ^ 16
    → b < 2 ^ 16
    → rest + k * b ≡ sum + k * a
    → (sum % 2 ^ 16 + (a + 2 ^ 32 - b) % 2 ^ 32 * k) % 2 ^ 16 ≡ rest % 2 ^ 16
exchange_hash k a b rest sum ha hb h =
    let x : ℕ = (a + 2 ^ 32 - b) % 2 ^ 32 in
    elim (dec_le b a) [
      | yes le ↦
          let whole : x + b ≡ a = omega arith in
          omega (arith, add-mul x b k, ap (λ (m : ℕ). m * k) whole, mul_comm k a, mul_comm k b, h)
      | no gt ↦
          let wrapped : x + b ≡ a + 2 ^ 32 = omega arith in
          omega (
            arith,
            add-mul x b k,
            add-mul a (2 ^ 32) k,
            ap (λ (m : ℕ). m * k) wrapped,
            mul_comm k a,
            mul_comm k b,
            h,
          )
    ]

find_item-key : (k : List ℕ) (p : Item) (ps : List Item) → find_item k ps ≡ some p → p.key ≡ k
unfolding find_item
find_item-key k p [] h = cc
find_item-key k p (q ∷ ps) h = ground (arith, find_item-key k p ps, same_key_iff k q.key)

find_data-key : (k : List ℕ) (p : Item) (ds : List Data) → find_data k ds ≡ some p → p.key ≡ k
find_data-key k p ds h = find_item-key k p (items_of ds) (sym (find_data-eq-find_item k ds) ∙ h)

-- An item of the chain has a hash of 16 bits.
found-small :
    (k : List ℕ) (p : Item) (ds : List Data)
    → find_data k ds ≡ some p
    → total is_large (items_of ds) ≡ 0
    → p.hash < 2 ^ 16
found-small k p ds e small = ground (arith, total-remove_data is_large true k p ds e)

module _ (kh : List ℕ → ℕ) (block_size : ℕ) (it : Item) (h : Head) (ds : List Data) where
  pub add_leaf-IsDigest :
      ds ≢ []
      → it.hash < 2 ^ 16
      → IsDigest kh h ds
      → (let (h', ds') = add_leaf block_size it (kh it.key) h ds in IsDigest kh h' ds')
  unfolding add_leaf item_hash
  add_leaf-IsDigest not_empty word d = elim (Option-cases (find_data it.key ds)) [
    | inl e ↦
        rw (e, add_leaf)
          (record {
            count = omega (arith, d.count, total-append_data is_live block_size it ds not_empty);
            hash =
                omega
                  (arith, d.hash, total-append_data (item_digest kh) block_size it ds not_empty);
            small =
                ground
                  (arith, d.small, word, total-append_data is_large block_size it ds not_empty);
          })
    | inr (p, e) ↦
        rw (e, add_leaf)
          (record {
            count = omega (arith, d.count, total-replace_data is_live it p ds e, is_live-le_one p);
            hash = rw d.hash (
                exchange_hash (kh it.key) (item_hash it) (item_hash p) _ _
                  (omega (arith, item_hash-le_hash it))
                  (omega (arith, item_hash-le_hash p, found-small it.key p ds e d.small))
                  (rw (find_data-key it.key p ds e) at
                    (total-replace_data (item_digest kh) it p ds e)));
            small = ground (arith, d.small, word, total-replace_data is_large it p ds e);
          })
  ]

module _ (kh : List ℕ → ℕ) (h : Head) (ds : List Data) where
  pub remove_leaf-IsDigest :
      (k : List ℕ)
      → IsDigest kh h ds
      → IsDigest kh (head_of (remove_leaf k (kh k) h ds)) (data_of (remove_leaf k (kh k) h ds))
  unfolding remove_leaf head_of data_of item_hash total
  remove_leaf-IsDigest k d = elim (Option-cases (find_data k ds)) [
    | inl e ↦ rw (e, remove_leaf) d
    | inr (p, e) ↦
        rw (e, remove_leaf)
          (record {
            count =
                omega (arith, d.count, total-remove_data is_live true k p ds e, is_live-le_one p);
            hash = omega (
              arith,
              d.hash,
              rw (find_data-key k p ds e) at (total-remove_data (item_digest kh) true k p ds e),
            );
            small = omega (arith, d.small, total-remove_data is_large true k p ds e);
          })
  ]
