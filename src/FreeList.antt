-- ===== src/FreeList.antt =====
-- The free list of item buffers of src/item.c. A buffer is a number; the array `freeitem` is a function
-- of the place in it, `total` its length and `curr` the cursor. Whether the C library finds memory for
-- a larger array, which keeps what the smaller one held, is an argument.
pub mod Bounds
pub mod Refines
use beansdb.Base.{ℕ, ◌+◌, ◌-◌, ◌*◌, Bool, true, false, Option, none, some, ltb, leb, if◌then◌else◌}
use beansdb.Bitcask.{update}

pub record FreeList : Type 0 where
  pub freeitem : ℕ → ℕ
  pub total : ℕ
  pub curr : ℕ

abbrev pub max_item_freelist_length : ℕ
max_item_freelist_length = 4000

abbrev pub init_item_freelist_length : ℕ
init_item_freelist_length = 500

-- `freeitem` is what the memory of the new array holds.
unfoldable pub item_init : (ℕ → ℕ) → FreeList
item_init freeitem = record { freeitem = freeitem; total = init_item_freelist_length; curr = 0 }

-- freeitem[--freeitemcurr]; `none` where the source asks the C library for a new buffer.
unfoldable pub do_item_from_freelist : FreeList → Option ℕ × FreeList
do_item_from_freelist l =
    if ltb 0 l.curr
    then (let curr = l.curr - 1 in (some (l.freeitem curr), record l { curr = curr }))
    else (none, l)

-- freeitem[freeitemcurr++] = it
unfoldable pub store_item : ℕ → FreeList → FreeList
store_item it l = record l { freeitem = update l.freeitem l.curr it; curr = l.curr + 1 }

-- Whether the buffer was kept; the source returns 0 where it was.
unfoldable pub do_item_add_to_freelist : Bool → ℕ → FreeList → Bool × FreeList
unfolding store_item
do_item_add_to_freelist enlarges it l =
    if ltb l.curr l.total
    then (true, store_item it l)
    else if leb max_item_freelist_length l.total
    then (false, l)
    else if enlarges
    then (true, store_item it (record l { total = l.total * 2 }))
    else (false, l)
