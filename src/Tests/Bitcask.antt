-- ===== src/Tests/Bitcask.antt =====
-- A bitcask of src/bitcask.c over the tree of src/htree.c, with one key.
use beansdb.Base.{
  ℕ, ◌+◌, ◌^◌, ◌≤◌, ◌<◌, ◌≡◌, refl, arith, Bool, true, false, none, some, List, [], ◌∷◌, leb, inl,
  inr,
}
use beansdb.Base.Int.{pos, negsuc, wrap}
use beansdb.Fnv.{fnv1a}
use beansdb.HTree.{same_key}
use beansdb.Store.{check_bucket}
use beansdb.Record.{DataRecord, is_compressed}
use beansdb.Bitcask.{
  Index, Bitcask, bc_open2, check_key, next_version, magnitude, to_int, is_positive, is_negative,
}
use beansdb.Bitcask.Flush.{flush_begin, bc_flush}
use beansdb.Bitcask.Access.{grow, bc_get, bc_set, bc_delete}
use beansdb.Bitcask.Room.{grow-bounds}
use beansdb.Bitcask.Spec.{Cells, get, set, accepts, repeats, current_version}
use beansdb.Bitcask.Refines.{Shows, Refines}
use beansdb.Bitcask.Sets.{IsRequest}
use beansdb.Bitcask.Calls.{bc_set-Does}
use beansdb.Bitcask.Session.{
  no_cells, Reaches, opened, stored, Reaches-Refines, bc_get-Reaches, bc_set-Reaches,
  bc_flush-Reaches,
}
use beansdb.Bitcask.Answers.{bc_set-bc_get, bc_delete-bc_get}
use beansdb.Bitcask.Phases.{begins, bc_get-Phase}
use beansdb.Bitcask.TreeIndex.{tree_index}
use beansdb.Tests.Record.{store_env, store_env-IsFaithful}

abbrev index : Index
index = tree_index 0 0 fnv1a (λ k. k) (ground arith) (λ j k e. e)

abbrev file_limit : ℕ
file_limit = 1048576000

abbrev blank : ℕ → Bool
blank c = leb c 32

-- "foo" and "bar"
abbrev foo : List ℕ
foo = 102 ∷ 111 ∷ 111 ∷ []

abbrev bar : List ℕ
bar = 98 ∷ 97 ∷ 114 ∷ []

foo-IsRequest : IsRequest foo bar 0
unfolding is_compressed
foo-IsRequest = record {
  key_bytes = ground arith;
  value_bytes = ground arith;
  flag_word = ground arith;
  plain = refl;
  sized = inl (ground arith);
}

foo_taken : index.takes foo ≡ true
unfolding tree_index check_bucket
foo_taken = refl

foo_accepted : check_key blank foo ≡ true
unfolding check_key
foo_accepted = refl

abbrev new_store : Bitcask index.Tree
new_store = bc_open2 index 0

new_store_room : new_store.curr + 2 < 256
unfolding bc_open2
new_store_room = ground arith

abbrev StepOf : Bitcask index.Tree → Cells → Type 0
StepOf = Reaches index store_env file_limit blank

abbrev Shown : Bitcask index.Tree → Cells → Type 0
Shown = Refines index store_env blank file_limit

bc_set-Reaches_example :
    (bc' : Bitcask index.Tree) × (bc_set index store_env file_limit blank 1600000000 foo bar 0
        (pos 0)
        new_store
      ≡ some ((set blank 1600000000 foo bar 0 (pos 0) no_cells).0, bc'))
    × StepOf bc' (set blank 1600000000 foo bar 0 (pos 0) no_cells).1
bc_set-Reaches_example =
    bc_set-Reaches index store_env file_limit blank store_env-IsFaithful (ground arith) refl
      new_store no_cells 1600000000 foo bar 0 (pos 0) (opened 0) foo-IsRequest foo_taken
      new_store_room

-- The bitcask and the map in which the key is stored.
one_key :
    (bc' : Bitcask index.Tree) × (bc_set index store_env file_limit blank 1600000000 foo bar 0
        (pos 0)
        new_store
      ≡ some ((set blank 1600000000 foo bar 0 (pos 0) no_cells).0, bc'))
    × Shown bc' (set blank 1600000000 foo bar 0 (pos 0) no_cells).1
    × (bc'.curr ≤ new_store.curr + 2)
one_key =
    bc_set-Does index store_env store_env-IsFaithful file_limit (ground arith) blank refl new_store
      no_cells 1600000000 foo bar 0 (pos 0) foo-IsRequest foo_taken
      (Reaches-Refines index store_env file_limit blank store_env-IsFaithful (ground arith) refl
        new_store no_cells (opened 0))
      new_store_room

abbrev one_store : Bitcask index.Tree
one_store = one_key.0

abbrev one_cell : Cells
one_cell = (set blank 1600000000 foo bar 0 (pos 0) no_cells).1

one_store-Reaches : StepOf one_store one_cell
one_store-Reaches =
    stored new_store one_store no_cells 1600000000 foo bar 0 (pos 0) _ (opened 0) foo-IsRequest
      foo_taken new_store_room one_key.1

one_store_room : one_store.curr + 2 < 256
unfolding bc_open2
one_store_room = ground (arith, one_key.3)

bc_get-Reaches_example :
    bc_get index store_env file_limit blank foo false one_store
    ≡ (get blank foo false one_cell, one_store)
bc_get-Reaches_example =
    bc_get-Reaches index store_env file_limit blank store_env-IsFaithful (ground arith) refl
      one_store one_cell foo false one_store-Reaches foo_taken

bc_flush-Reaches_example :
    (bc' : Bitcask index.Tree) × (bc_flush index file_limit 0 0 1600000001 one_store ≡ some bc')
    × StepOf bc' one_cell
bc_flush-Reaches_example =
    bc_flush-Reaches index store_env file_limit blank store_env-IsFaithful (ground arith) refl
      one_store one_cell 0 0 1600000001 one_store-Reaches (ground (arith, one_store_room))

bc_set-bc_get_example :
    (bc' : Bitcask index.Tree) × (r : DataRecord) × (bc_set index store_env file_limit blank
        1600000002 foo foo 5
        (pos 0)
        one_store
      ≡ some (true, bc'))
    × (bc_get index store_env file_limit blank foo false bc' ≡ (some r, bc'))
    × (r.value ≡ foo)
    × (r.flag ≡ 5)
bc_set-bc_get_example =
    bc_set-bc_get index store_env store_env-IsFaithful file_limit (ground arith) blank refl
      one_store one_cell one_key.2 one_store_room 1600000002 foo foo_taken foo_accepted foo 5 again
      (ground arith) foo_small
  where
    foo_small : magnitude (current_version (one_cell foo)) + 1 < 2 ^ 31
    foo_small =
        unfold set check_key next_version accepts repeats is_negative same_key magnitude in
        ground arith

    again : IsRequest foo foo 5
    again = record {
      key_bytes = ground arith;
      value_bytes = ground arith;
      flag_word = ground arith;
      plain = unfold is_compressed in refl;
      sized = inl (ground arith);
    }

foo_live : is_positive (current_version (one_cell foo)) ≡ true
unfolding is_positive set check_key next_version accepts repeats is_negative same_key
foo_live = refl

delete-IsRequest : IsRequest foo [] 0
unfolding is_compressed
delete-IsRequest = record {
  key_bytes = ground arith;
  value_bytes = tt;
  flag_word = ground arith;
  plain = refl;
  sized = inr (ground arith);
}

bc_delete-bc_get_example :
    (bc' : Bitcask index.Tree) × (bc_delete index store_env file_limit blank 1600000003 foo
        one_store
      ≡ some (true, bc'))
    × (bc_get index store_env file_limit blank foo false bc' ≡ (none, bc'))
bc_delete-bc_get_example =
    bc_delete-bc_get index store_env store_env-IsFaithful file_limit (ground arith) blank refl
      one_store one_cell one_key.2 one_store_room 1600000003 foo foo_taken foo_accepted
      delete-IsRequest foo_live

bc_get-Phase_example :
    Shows index store_env blank (flush_begin index file_limit one_store) one_cell
    × (bc_get index store_env file_limit blank foo false (flush_begin index file_limit one_store)
        ≡ (get blank foo false one_cell, flush_begin index file_limit one_store))
bc_get-Phase_example =
    bc_get-Phase index file_limit store_env store_env-IsFaithful (ground arith) blank one_store
      (flush_begin index file_limit one_store) one_cell foo false refl foo_taken
      (begins one_key.2.ready) one_key.2.shows

-- The greatest version overflows, and the least is refused.
next_version_limits :
    (next_version (pos 0) (pos 2147483647) ≡ some (negsuc 2147483647))
    × (next_version (negsuc 2147483647) (pos 1) ≡ none)
unfolding next_version to_int wrap
next_version_limits = (refl, refl)

-- From the first size to a megabyte.
grow-bounds_example :
    (1048576 ≤ grow 8 1048576 4096) × (grow 8 1048576 4096 ≤ 2 ^ 28) × (4096 ≤ grow 8 1048576 4096)
grow-bounds_example =
    grow-bounds 8 1048576 4096 (ground arith) (ground arith) (ground arith) (ground arith)
