-- ===== src/Tests/FreeList.antt =====
-- The free list of src/item.c with a few buffers.
use beansdb.Base.{ℕ, ◌≤◌, ◌≡◌, refl, true, none, some, List, [], ◌∷◌}
use beansdb.FreeList.{FreeList, max_item_freelist_length, item_init, do_item_add_to_freelist}
use beansdb.FreeList.Bounds.{started, returned, freelist-bounds}
use beansdb.FreeList.Refines.{
  empty, Call, take_item, return_item, took, kept, pop, push, replies, stack_replies,
  replies-item_init,
}

-- What the new array holds.
abbrev garbage : ℕ → ℕ
garbage i = 99

abbrev one_buffer : FreeList
one_buffer = (do_item_add_to_freelist true 7 (item_init garbage)).1

freelist-bounds_example :
    (one_buffer.curr ≤ one_buffer.total) × (one_buffer.total ≤ max_item_freelist_length)
freelist-bounds_example =
    freelist-bounds one_buffer (returned true 7 (item_init garbage) (started garbage))

abbrev calls : List Call
calls = take_item ∷ return_item true 7 ∷ return_item true 8 ∷ take_item ∷ take_item ∷ take_item ∷ []

replies-item_init_example : replies calls (item_init garbage) ≡ stack_replies calls empty
replies-item_init_example = replies-item_init calls garbage

-- The replies themselves.
replies_computed :
    stack_replies calls empty
    ≡ took none ∷ kept true ∷ kept true ∷ took (some 8) ∷ took (some 7) ∷ took none ∷ []
unfolding stack_replies push pop
replies_computed = refl
