-- ===== src/FreeList/Bounds.antt =====
-- The cursor of the free list of src/item.c stays within its array.
use beansdb.Base.{ℕ, ◌≤◌, ◌≡◌, refl, arith, Bool, ◌⊎◌, inl}
use beansdb.FreeList.{
  FreeList, max_item_freelist_length, item_init, store_item, do_item_from_freelist,
  do_item_add_to_freelist,
}

-- The lists that calls reach from the start.
pub data Reaches : FreeList → Type 0 where
  started : (freeitem : ℕ → ℕ) → Reaches (item_init freeitem)
  taken : (l : FreeList) → Reaches l → Reaches (do_item_from_freelist l).1
  returned :
      (enlarges : Bool) (it : ℕ) (l : FreeList)
      → Reaches l
      → Reaches (do_item_add_to_freelist enlarges it l).1

abbrev IsArray : FreeList → Type 0
IsArray l =
    (l.curr ≤ l.total) × ((l.total ≡ 500) ⊎ (l.total ≡ 1000) ⊎ (l.total ≡ 2000) ⊎ (l.total ≡ 4000))

taken-IsArray : (l : FreeList) → IsArray l → IsArray (do_item_from_freelist l).1
unfolding do_item_from_freelist
taken-IsArray l p = ground (arith, p.0, p.1)

returned-IsArray :
    (enlarges : Bool) (it : ℕ) (l : FreeList)
    → IsArray l
    → IsArray (do_item_add_to_freelist enlarges it l).1
unfolding do_item_add_to_freelist store_item
returned-IsArray enlarges it l p = ground (arith, p.0, p.1)

Reaches-IsArray : (l : FreeList) → Reaches l → IsArray l
Reaches-IsArray l (started freeitem) = unfold item_init in (omega arith, inl refl)
Reaches-IsArray l (taken l' r) = taken-IsArray l' (Reaches-IsArray l' r)
Reaches-IsArray l (returned enlarges it l' r) =
    returned-IsArray enlarges it l' (Reaches-IsArray l' r)

-- No free list that calls reach from item_init holds more buffers than its array, and no array
-- passes 4000.
pub freelist-bounds :
    (l : FreeList) → Reaches l → (l.curr ≤ l.total) × (l.total ≤ max_item_freelist_length)
freelist-bounds l r = let p = Reaches-IsArray l r in (p.0, ground (arith, p.1))
