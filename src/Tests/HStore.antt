-- ===== src/Tests/HStore.antt =====
-- A store of src/hstore.c with 16 bitcasks, in which a key is set, appended to and counted on. The text
-- of a number is one character here.
use beansdb.Base.{
  ℕ, ◌+◌, ◌^◌, ◌≤◌, ◌<◌, ◌≡◌, refl, arith, Bool, true, Option, none, some, List, [], ◌∷◌, ◌++◌, leb,
  inl,
}
use beansdb.Base.Int.{ℤ, pos, ◌+ℤ◌, pos_part, IsWithin}
use beansdb.Fnv.{fnv1a}
use beansdb.HTree.{same_key}
use beansdb.Record.{DataRecord, is_compressed}
use beansdb.Store.{get_index}
use beansdb.Store.Calls.{Shelf, HStore, append_flag, incr_flag, hs_get, hs_set, hs_append, hs_incr}
use beansdb.Store.Shows.{live_value, fetch, StoreShows, hs_get-Shows, hs_set-Shows}
use beansdb.Store.Values.{hs_append-hs_get, hs_incr-hs_get}
use beansdb.Store.Casks.{casks, new_cask, new_cask-Shows, new_cask-HasRoom}
use beansdb.Bitcask.{check_key, next_version, magnitude, is_negative, word_of}
use beansdb.Bitcask.Spec.{Cells, set, accepts, repeats, current_version}
use beansdb.Bitcask.Sets.{IsRequest}
use beansdb.Bitcask.Session.{no_cells}
use beansdb.Tests.Record.{store_env, store_env-IsFaithful}

abbrev blank : ℕ → Bool
blank c = leb c 32

low_height : 1 ≤ 3
low_height = ground arith

room : 1048576000 + 2 ^ 28 < 2 ^ 32
room = ground arith

abbrev shelf : Shelf 1
shelf =
    casks 1 low_height fnv1a (λ k. k) (λ j k e. e) store_env store_env-IsFaithful 1048576000 room
      blank refl

abbrev new_store : HStore shelf.Cask
new_store = record {
  before = 0;
  bitcasks = λ i.
      new_cask 1 low_height fnv1a (λ k. k) (λ j k e. e) store_env store_env-IsFaithful 1048576000
        room blank refl i 0;
}

abbrev no_list : List ℕ → HStore shelf.Cask → Option (List ℕ)
no_list key s = none

abbrev no_info : ℕ → ℕ → DataRecord → ℕ → List ℕ
no_info info hash r place = []

abbrev ShownBy : HStore shelf.Cask → Cells → Type 0
ShownBy = StoreShows 1 low_height shelf no_list no_info

new_store-Shown : ShownBy new_store no_cells
new_store-Shown i h =
    new_cask-Shows 1 low_height fnv1a (λ k. k) (λ j k e. e) store_env store_env-IsFaithful
      1048576000 room blank refl i 0

-- "foo" and "bar"
abbrev foo : List ℕ
foo = 102 ∷ 111 ∷ 111 ∷ []

abbrev bar : List ℕ
bar = 98 ∷ 97 ∷ 114 ∷ []

foo-IsRequest : IsRequest foo bar append_flag
unfolding is_compressed
foo-IsRequest = record {
  key_bytes = ground arith;
  value_bytes = ground arith;
  flag_word = ground arith;
  plain = refl;
  sized = inl (ground arith);
}

new_store-room : shelf.HasRoom 100 (new_store.bitcasks (get_index 1 foo))
new_store-room =
    new_cask-HasRoom 1 low_height fnv1a (λ k. k) (λ j k e. e) store_env store_env-IsFaithful
      1048576000 room blank refl (get_index 1 foo) 0

hs_set-Shows_example :
    (s' : HStore shelf.Cask) × (hs_set 1 shelf no_list no_info 1600000000 foo bar append_flag
        (pos 0)
        new_store
      ≡ some ((set shelf.is_blank 1600000000 foo bar append_flag (pos 0) no_cells).0, s'))
    × ShownBy s' (set shelf.is_blank 1600000000 foo bar append_flag (pos 0) no_cells).1
    × shelf.HasRoom 99 (s'.bitcasks (get_index 1 foo))
    × (s'.before ≡ 0)
hs_set-Shows_example =
    hs_set-Shows 1 low_height shelf no_list no_info 1600000000 foo bar append_flag (pos 0) new_store
      no_cells 99 new_store-Shown refl refl new_store-room foo-IsRequest

-- The store in which "foo" holds "bar" with the flag of appended values, and its map.
stored_foo :
    (s' : HStore shelf.Cask) × (hs_set 1 shelf no_list no_info 1600000000 foo bar append_flag
        (pos 0)
        new_store
      ≡ some ((set shelf.is_blank 1600000000 foo bar append_flag (pos 0) no_cells).0, s'))
    × ShownBy s' (set shelf.is_blank 1600000000 foo bar append_flag (pos 0) no_cells).1
    × shelf.HasRoom 99 (s'.bitcasks (get_index 1 foo))
    × (s'.before ≡ 0)
stored_foo =
    hs_set-Shows 1 low_height shelf no_list no_info 1600000000 foo bar append_flag (pos 0) new_store
      no_cells 99 new_store-Shown refl refl new_store-room foo-IsRequest

abbrev foo_cells : Cells
foo_cells = (set shelf.is_blank 1600000000 foo bar append_flag (pos 0) no_cells).1

hs_get-Shows_example :
    hs_get 1 shelf no_list no_info foo stored_foo.0
    ≡ (fetch shelf.is_blank foo foo_cells, stored_foo.0)
hs_get-Shows_example =
    hs_get-Shows 1 low_height shelf no_list no_info foo stored_foo.0 foo_cells stored_foo.2 refl

foo_live : live_value (foo_cells foo) ≡ some (bar, append_flag)
unfolding casks set check_key next_version accepts repeats is_negative same_key word_of
foo_live = refl

joined-IsRequest : IsRequest foo (bar ++ bar) append_flag
unfolding is_compressed
joined-IsRequest = record {
  key_bytes = ground arith;
  value_bytes = ground arith;
  flag_word = ground arith;
  plain = refl;
  sized = inl (ground arith);
}

foo_accepted : check_key shelf.is_blank foo ≡ true
unfolding check_key casks
foo_accepted = refl

foo_small : magnitude (current_version (foo_cells foo)) + 1 < 2 ^ 31
unfolding casks set check_key next_version accepts repeats is_negative same_key magnitude
foo_small = ground arith

one_more : shelf.HasRoom 1 (stored_foo.0.bitcasks (get_index 1 foo))
unfolding casks
one_more = omega (arith, stored_foo.3)

hs_append-hs_get_example :
    (s' : HStore shelf.Cask) × (hs_append 1 shelf no_list no_info 1600000001 foo bar stored_foo.0
      ≡ some (true, s'))
    × (hs_get 1 shelf no_list no_info foo s' ≡ (some (bar ++ bar, append_flag), s'))
hs_append-hs_get_example =
    hs_append-hs_get 1 low_height shelf no_list no_info stored_foo.0 foo_cells stored_foo.2
      stored_foo.4 1600000001 foo refl foo_accepted one_more foo_small bar bar foo_live
      (ground arith) joined-IsRequest

abbrev text_of : ℕ → List ℕ
text_of n = n ∷ []

abbrev number_of : List ℕ → ℤ × Option ℕ
number_of [] = (pos 0, none)
number_of (c ∷ cs) = (pos c, none)

count-IsRequest : (n : ℕ) → n < 256 → IsRequest foo (text_of n) incr_flag
unfolding is_compressed
count-IsRequest n h = record {
  key_bytes = ground arith;
  value_bytes = (h, tt);
  flag_word = ground arith;
  plain = refl;
  sized = inl (ground arith);
}

-- The store in which "foo" counts five.
counted_foo :
    (s' : HStore shelf.Cask) × (hs_set 1 shelf no_list no_info 1600000000 foo
        (text_of 5)
        incr_flag
        (pos 0)
        new_store
      ≡ some ((set shelf.is_blank 1600000000 foo (text_of 5) incr_flag (pos 0) no_cells).0, s'))
    × ShownBy s' (set shelf.is_blank 1600000000 foo (text_of 5) incr_flag (pos 0) no_cells).1
    × shelf.HasRoom 99 (s'.bitcasks (get_index 1 foo))
    × (s'.before ≡ 0)
counted_foo =
    hs_set-Shows 1 low_height shelf no_list no_info 1600000000 foo (text_of 5) incr_flag (pos 0)
      new_store no_cells 99 new_store-Shown refl refl new_store-room
      (count-IsRequest 5 (ground arith))

abbrev count_cells : Cells
count_cells = (set shelf.is_blank 1600000000 foo (text_of 5) incr_flag (pos 0) no_cells).1

count_live : live_value (count_cells foo) ≡ some (text_of 5, incr_flag)
unfolding casks set check_key next_version accepts repeats is_negative same_key word_of
count_live = refl

count_small : magnitude (current_version (count_cells foo)) + 1 < 2 ^ 31
unfolding casks set check_key next_version accepts repeats is_negative same_key magnitude
count_small = ground arith

count_room : shelf.HasRoom 1 (counted_foo.0.bitcasks (get_index 1 foo))
unfolding casks
count_room = omega (arith, counted_foo.3)

count_eight : pos_part (pos 5 +ℤ pos 3) ≡ 8
unfolding ◌+ℤ◌
count_eight = refl

-- An earlier call left EINVAL, which is 22.
hs_incr-hs_get_example :
    (s' : HStore shelf.Cask) × (hs_incr 1 shelf no_list no_info number_of 22 text_of 22 1600000001
        foo
        (pos 3)
        counted_foo.0
      ≡ some (pos_part (pos 5 +ℤ pos 3), s'))
    × (hs_get 1 shelf no_list no_info foo s'
        ≡ (some (text_of (pos_part (pos 5 +ℤ pos 3)), incr_flag), s'))
hs_incr-hs_get_example =
    hs_incr-hs_get 1 low_height shelf no_list no_info counted_foo.0 count_cells counted_foo.2
      counted_foo.4 1600000001 foo refl foo_accepted count_room count_small number_of 22 text_of
      (λ n h. refl) 22 5 (pos 3) (ground arith) (unfold IsWithin in ground arith)
      (omega (arith, count_eight)) (inl (ground arith)) count_live (ground arith) (ground arith)
      (count-IsRequest (pos_part (pos 5 +ℤ pos 3)) (omega (arith, count_eight)))
