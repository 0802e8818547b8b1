-- ===== src/HTree/Totals.antt =====
-- Sums over the items of a chain, and what a replacement, an addition and a removal do to them.
use beansdb.Base.{
  ℕ, ◌+◌, ◌≡◌, ◌≢◌, refl, arith, Bool, false, inl, inr, some, List, [], ◌∷◌, ◌++◌, Option-cases,
}
use beansdb.HTree.{
  Item, Data, find_item, find_data, replace_item, replace_data, append_data, extend_data, put_item,
  items_of,
}
use beansdb.HTree.Tree.{remove_first, cut_item, close_data, remove_data}

module _ (f : Item → ℕ) where
  unfoldable pub total : List Item → ℕ
  total [] = 0
  total (p ∷ ps) = f p + total ps

  total-append : (ps qs : List Item) → total (ps ++ qs) ≡ total ps + total qs
  unfolding total
  total-append [] qs = omega arith
  total-append (p ∷ ps) qs = omega (arith, total-append ps qs)

  total-replace_item :
      (it p : Item) (ps : List Item)
      → find_item it.key ps ≡ some p
      → total (replace_item it ps) + f p ≡ total ps + f it
  unfolding total replace_item find_item
  total-replace_item it p [] h = cc
  total-replace_item it p (q ∷ ps) h = ground (arith, total-replace_item it p ps)

  pub total-replace_data :
      (it p : Item) (ds : List Data)
      → find_data it.key ds ≡ some p
      → total (items_of (replace_data it ds)) + f p ≡ total (items_of ds) + f it
  unfolding replace_data find_data items_of
  total-replace_data it p [] h = cc
  total-replace_data it p (d ∷ ds) h = ground (
    arith,
    total-replace_data it p ds,
    total-replace_item it p d.items,
    total-append d.items (items_of ds),
    total-append d.items (items_of (replace_data it ds)),
    total-append (replace_item it d.items) (items_of ds),
  )

  pub total-append_data :
      (block_size : ℕ) (it : Item) (ds : List Data)
      → ds ≢ []
      → total (items_of (append_data block_size it ds)) ≡ total (items_of ds) + f it
  unfolding items_of append_data extend_data put_item total
  total-append_data block_size it [] h = absurd (h refl)
  total-append_data block_size it (d ∷ []) h = ground (
    arith,
    total-append d.items (it ∷ []),
    total-append d.items [],
    total-append (d.items ++ it ∷ []) [],
  )
  total-append_data block_size it (d ∷ e ∷ ds) h = ground (
    arith,
    total-append d.items (items_of (append_data block_size it (e ∷ ds))),
    total-append d.items (items_of (e ∷ ds)),
    total-append (d.items ++ it ∷ []) (items_of (e ∷ ds)),
    total-append d.items (it ∷ []),
    total-append_data block_size it (e ∷ ds) (λ p. cc),
  )

  total-remove_first :
      (k : List ℕ) (p : Item) (ps : List Item)
      → find_item k ps ≡ some p
      → total ps ≡ f p + total (remove_first k ps)
  unfolding total remove_first find_item
  total-remove_first k p [] h = cc
  total-remove_first k p (q ∷ ps) h = ground (arith, total-remove_first k p ps)

  total-close_data :
      (first : Bool) (d : Data) (ds : List Data)
      → total (items_of (close_data first d ds)) ≡ total (items_of (d ∷ ds))
  unfolding total items_of close_data
  total-close_data first d [] = refl
  total-close_data first d (e ∷ ds) = ground arith

  pub total-remove_data :
      (first : Bool) (k : List ℕ) (p : Item) (ds : List Data)
      → find_data k ds ≡ some p
      → total (items_of ds) ≡ f p + total (items_of (remove_data first k ds))
  unfolding items_of remove_data find_data cut_item
  total-remove_data first k p [] h = cc
  total-remove_data first k p (d ∷ ds) h = elim (Option-cases (find_item k d.items)) [
    | inl e ↦
        rw (e, remove_data)
          (ground (
            arith,
            e,
            h,
            total-append d.items (items_of ds),
            total-append d.items (items_of (remove_data false k ds)),
            total-remove_data false k p ds,
          ))
    | inr (q, e) ↦
        rw (e, remove_data, total-close_data first (cut_item k q d) ds)
          (ground (
            arith,
            e,
            h,
            total-append d.items (items_of ds),
            total-append (remove_first k d.items) (items_of ds),
            total-remove_first k p d.items,
          ))
  ]
