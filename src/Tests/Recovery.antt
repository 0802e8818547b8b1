-- ===== src/Tests/Recovery.antt =====
-- The scans of src/record.c and src/hint.c, with the tree of src/htree.c as the index and two records
-- under the key "foo".
use native.Mathlib.Nat.{mod-lt}
use beansdb.Base.{
  ℕ, ◌+◌, ◌*◌, ◌%◌, ◌^◌, ◌<◌, ◌≡◌, refl, sym, ◌∙◌, arith, Bool, true, false, inl, inr, Option, none,
  some, List, [], ◌∷◌, ◌++◌, length, take, drop, replicate, length-append, leb, ap, if◌then◌else◌,
}
use beansdb.Base.Int.{pos}
use beansdb.Base.Words.{of_bytes, field_at, to_bytes}
use beansdb.Fnv.{fnv1a, gen_hash}
use beansdb.HTree.{same_key}
use beansdb.Store.{check_bucket}
use beansdb.Record.{
  DataRecord, BadReason, bad_size, bad_end, bad_crc, bad_decompress, bad, padding, bad_kv_size,
  is_compressed, is_client_compressed, record_at, compress_record, encode_record, decode_record,
  record_body, padding_size,
}
use beansdb.Bitcask.{Entry, Index, check_key, word_of}
use beansdb.Bitcask.TreeIndex.{tree_index}
use beansdb.Recovery.{
  scan_data_file, after_broken, scan_data_file_before, remove_broken, entry_of_record,
}
use beansdb.Recovery.Replay.{log, replay}
use beansdb.Recovery.Newest.{live_entry, newest, IsOwn, ht_get-scan_data_file}
use beansdb.Recovery.Broken.{IsGap}
use beansdb.Recovery.Resumes.{scan_data_file-gap}
use beansdb.Recovery.Torn.{IsFresh, ht_get-scan_data_file_torn}
use beansdb.Recovery.Before.{older, scan_data_file_before-log}
use beansdb.Recovery.Hints.{hint_record, build_hint, scan_hint_file}
use beansdb.Recovery.Saved.{IsSmall}
use beansdb.Recovery.Loaded.{Listing, hints, listed, IsHint}
use beansdb.Recovery.HintFiles.{
  ht_get-scan_hint_file, ht_get-scan_hint_file_cut, scan_hint_file-scan_data_file,
}
use beansdb.Tests.Record.{store_env, store_env-IsFaithful}

abbrev index : Index
index = tree_index 0 0 fnv1a (λ k. k) (ground arith) (λ j k e. e)

abbrev empty : index.Tree
empty = index.ht_new

abbrev blank : ℕ → Bool
blank c = leb c 32

-- "foo" and "bar"
abbrev foo : List ℕ
foo = 102 ∷ 111 ∷ 111 ∷ []

-- A value, and later its deletion.
abbrev set_foo : DataRecord
set_foo = record {
  tstamp = 1600000000;
  flag = 0;
  version = 1;
  ksz = 3;
  vsz = 3;
  key = foo;
  value = 98 ∷ 97 ∷ 114 ∷ [];
}

abbrev delete_foo : DataRecord
delete_foo = record {
  tstamp = 1600000009;
  flag = 0;
  version = 4294967294;
  ksz = 3;
  vsz = 0;
  key = foo;
  value = [];
}

abbrev Own : DataRecord → Type 0
Own = IsOwn index store_env blank 3

set_foo-IsOwn : Own set_foo
unfolding bad_kv_size is_compressed tree_index check_bucket check_key
set_foo-IsOwn = record {
  legal = record {
    well_formed = record {
      tstamp_word = ground arith;
      flag_word = ground arith;
      version_word = ground arith;
      ksz_word = ground arith;
      vsz_word = ground arith;
      key_size = refl;
      value_size = refl;
      key_bytes = ground arith;
      value_bytes = ground arith;
    };
    good = refl;
    plain = refl;
    sized = inl (ground arith);
  };
  accepted = refl;
  taken = refl;
}

delete_foo-IsOwn : Own delete_foo
unfolding bad_kv_size is_compressed tree_index check_bucket check_key
delete_foo-IsOwn = record {
  legal = record {
    well_formed = record {
      tstamp_word = ground arith;
      flag_word = ground arith;
      version_word = ground arith;
      ksz_word = ground arith;
      vsz_word = ground arith;
      key_size = refl;
      value_size = refl;
      key_bytes = ground arith;
      value_bytes = ground arith;
    };
    good = refl;
    plain = refl;
    sized = inr (ground arith);
  };
  accepted = refl;
  taken = refl;
}

abbrev both : List DataRecord
both = set_foo ∷ delete_foo ∷ []

length-log-both : length (log store_env both) ≡ 512
unfolding encode_record compress_record is_compressed is_client_compressed record_body to_bytes
    padding_size
length-log-both = refl

ht_get-scan_data_file_example :
    (index.ht_get foo (scan_data_file index store_env blank 3 (log store_env both) (empty, empty)).0
      ≡ newest store_env 3 live_entry foo 0 both (index.ht_get foo empty))
    × (index.ht_get foo
          (scan_data_file index store_env blank 3 (log store_env both) (empty, empty)).1
        ≡ newest store_env 3 (λ e. some e) foo 0 both (index.ht_get foo empty))
    × index.IsOk (scan_data_file index store_env blank 3 (log store_env both) (empty, empty)).0
    × index.IsOk (scan_data_file index store_env blank 3 (log store_env both) (empty, empty)).1
ht_get-scan_data_file_example =
    ht_get-scan_data_file index store_env blank 3 both foo empty empty store_env-IsFaithful
      (set_foo-IsOwn, (delete_foo-IsOwn, tt)) (omega (arith, length-log-both)) index.ht_new-IsOk
      index.ht_new-IsOk

-- The header of a record of which no more was written.
abbrev torn : List ℕ
torn = 1 ∷ 2 ∷ 3 ∷ 4 ∷ replicate 12 0 ++ 3 ∷ 0 ∷ 0 ∷ 0 ∷ 7 ∷ 0 ∷ 0 ∷ 0 ∷ []

torn-fails : decode_record store_env torn (length torn % 2 ^ 32) false ≡ bad bad_end
unfolding decode_record field_at of_bytes record_at bad_kv_size
torn-fails = refl

torn-IsGap : IsGap index store_env blank 3 1 torn
unfolding after_broken
torn-IsGap = record {
  skips = λ i h. only_page i (omega (arith, h));
  no_jump = λ reason e. no_jump reason (sym torn-fails ∙ e);
  few = ground arith;
}
  where
    no_jump :
        (reason : BadReason)
        → bad bad_end ≡ bad reason
        → after_broken index store_env blank 3 reason torn ≡ none
    no_jump bad_size e = refl
    no_jump bad_end e = refl
    no_jump bad_crc e = cc
    no_jump bad_decompress e = refl

    only_page :
        (i : ℕ)
        → i ≡ 0
        → (i * padding < length torn)
          × (reason : BadReason) × (decode_record store_env
                (drop (i * padding) torn)
                (length (drop (i * padding) torn) % 2 ^ 32)
                false
              ≡ bad reason)
    only_page i e = rw e (ground arith, bad_end, torn-fails)

empty-IsFresh : (place : ℕ) → IsFresh index store_env blank 3 place empty
empty-IsFresh place k e h = absurd (none_some e (sym (index.ht_get-ht_new k) ∙ h))
  where
    none_some : (e : Entry) → none ≡ some e → ⊥
    none_some e p = cc

ht_get-scan_data_file_torn_example :
    (index.ht_get foo
        (scan_data_file index store_env blank 3 (log store_env both ++ torn) (empty, empty)).0
      ≡ newest store_env 3 live_entry foo 0 both (index.ht_get foo empty))
    × (index.ht_get foo
          (scan_data_file index store_env blank 3 (log store_env both ++ torn) (empty, empty)).1
        ≡ newest store_env 3 (λ e. some e) foo 0 both (index.ht_get foo empty))
ht_get-scan_data_file_torn_example =
    ht_get-scan_data_file_torn index store_env blank 3 0 both torn foo empty empty
      store_env-IsFaithful (set_foo-IsOwn, (delete_foo-IsOwn, tt)) torn-IsGap (ground arith)
      (omega (arith, length-log-both, length-append (log store_env both) torn)) (ground arith)
      (empty-IsFresh (length (log store_env both))) index.ht_new-IsOk index.ht_new-IsOk

-- A page of zeros in front of the deletion.
abbrev zeros : List ℕ
zeros = replicate 256 0

zeros-length : (rest : List ℕ) → length (zeros ++ rest) ≡ 256 + length rest
zeros-length rest = length-append zeros rest

zeros-fail :
    (rest : List ℕ) (size : ℕ) → decode_record store_env (zeros ++ rest) size false ≡ bad bad_size
unfolding decode_record field_at of_bytes record_at bad_kv_size
zeros-fail rest size = refl

zeros-IsGap : (rest : List ℕ) → IsGap index store_env blank 3 1 (zeros ++ rest)
unfolding after_broken
zeros-IsGap rest = record {
  skips = λ i h. only_page i (omega (arith, h));
  no_jump = λ reason e. no_jump reason (sym (zeros-fail rest _) ∙ e);
  few = ground arith;
}
  where
    no_jump :
        (reason : BadReason)
        → bad bad_size ≡ bad reason
        → after_broken index store_env blank 3 reason (zeros ++ rest) ≡ none
    no_jump bad_size e = refl
    no_jump bad_end e = refl
    no_jump bad_crc e = cc
    no_jump bad_decompress e = refl

    only_page :
        (i : ℕ)
        → i ≡ 0
        → (i * padding < length (zeros ++ rest))
          × (reason : BadReason) × (decode_record store_env
                (drop (i * padding) (zeros ++ rest))
                (length (drop (i * padding) (zeros ++ rest)) % 2 ^ 32)
                false
              ≡ bad reason)
    only_page i e = rw e (omega (arith, zeros-length rest), bad_size, zeros-fail rest _)

abbrev gapped : List ℕ
gapped = log store_env (set_foo ∷ []) ++ (zeros ++ log store_env (delete_foo ∷ []))

length-set_foo : length (log store_env (set_foo ∷ [])) ≡ 256
unfolding encode_record compress_record is_compressed is_client_compressed record_body to_bytes
    padding_size
length-set_foo = refl

length-delete_foo : length (log store_env (delete_foo ∷ [])) ≡ 256
unfolding encode_record compress_record is_compressed is_client_compressed record_body to_bytes
    padding_size
length-delete_foo = refl

scan_data_file-gap_example : scan_data_file index store_env blank 3 gapped (empty, empty) ≡ (
    let (t', cur') = replay store_env index blank 3 0 (set_foo ∷ []) (empty, empty) in
    let place = length (log store_env (set_foo ∷ [])) in
    replay store_env index blank 3 (place + length zeros) (delete_foo ∷ []) (
      remove_broken index store_env blank 3 place (zeros ++ log store_env (delete_foo ∷ [])) t',
      cur',
    ))
scan_data_file-gap_example =
    scan_data_file-gap index store_env blank 3 store_env-IsFaithful 0 (set_foo ∷ []) zeros
      delete_foo [] empty empty (set_foo-IsOwn.legal, tt) (delete_foo-IsOwn.legal, tt)
      (omega (
        arith,
        length-set_foo,
        length-delete_foo,
        zeros-length (log store_env (delete_foo ∷ [])),
        length-append (log store_env (set_foo ∷ [])) (zeros ++ log store_env (delete_foo ∷ [])),
      ))
      (zeros-IsGap (log store_env (delete_foo ∷ []))) refl

scan_data_file_before-log_example :
    scan_data_file_before index store_env blank 3 1600000005 (log store_env both) empty
    ≡ (replay store_env index blank 3 0 (older 1600000005 both) (empty, empty)).0
scan_data_file_before-log_example =
    scan_data_file_before-log index store_env blank 3 store_env-IsFaithful 1600000005 both empty
      empty (set_foo-IsOwn.legal, (delete_foo-IsOwn.legal, tt)) (omega (arith, length-log-both))

-- The hints of a tree with the value.
abbrev foo_entry : Entry
foo_entry = record { place = 259; hash = 7; ver = pos 1 }

abbrev one_hint : Listing
one_hint = (foo, foo_entry) ∷ []

foo_entry-IsSmall : IsSmall foo foo_entry
unfolding word_of
foo_entry-IsSmall = record {
  key_limit = ground arith;
  place_word = ground arith;
  hash_word = ground arith;
  ver_word = refl;
}

foo-IsHint : IsHint index store_env blank 3 (foo, foo_entry)
unfolding tree_index check_bucket check_key
foo-IsHint = record { small = foo_entry-IsSmall; own = refl; accepted = refl; taken = refl }

some_hint : 0 < length (hints one_hint)
unfolding hint_record to_bytes
some_hint = ground arith

ht_get-scan_hint_file_example :
    (t' : index.Tree) × (scan_hint_file index store_env blank 3 true
        (build_hint store_env true one_hint)
        empty
      ≡ some t')
    × ((k : List ℕ) → index.ht_get k t' ≡ listed live_entry k one_hint (index.ht_get k empty))
ht_get-scan_hint_file_example =
    ht_get-scan_hint_file index store_env blank 3 true one_hint empty store_env-IsFaithful some_hint
      some_hint (foo-IsHint, tt) index.ht_new-IsOk

ht_get-scan_hint_file_cut_example :
    (t' : index.Tree) × (scan_hint_file index store_env blank 3 false
        (hints one_hint ++ take 9 (hint_record foo foo_entry))
        empty
      ≡ some t')
    × ((k : List ℕ) → index.ht_get k t' ≡ listed live_entry k one_hint (index.ht_get k empty))
ht_get-scan_hint_file_cut_example =
    ht_get-scan_hint_file_cut index store_env blank 3 one_hint foo foo_entry 9 empty
      (foo-IsHint, tt) foo_entry-IsSmall (ground arith) index.ht_new-IsOk

-- The hint of the value in the data file.
abbrev set_foo_entry : Entry
set_foo_entry = entry_of_record 3 0 set_foo

abbrev file_hints : Listing
file_hints = (foo, set_foo_entry) ∷ []

file_hints-IsHint : IsHint index store_env blank 3 (foo, set_foo_entry)
unfolding tree_index check_bucket check_key word_of
file_hints-IsHint = record {
  small = record {
    key_limit = ground arith;
    place_word = ground arith;
    hash_word = mod-lt (gen_hash set_foo.value) (omega arith);
    ver_word = refl;
  };
  own = refl;
  accepted = refl;
  taken = refl;
}

file_hints-lists :
    (k : List ℕ)
    → listed (λ e. some e) k file_hints none
      ≡ index.ht_get k
          (scan_data_file index store_env blank 3 (log store_env (set_foo ∷ [])) (empty, empty)).1
unfolding listed newest
file_hints-lists k =
    let scanned =
      ht_get-scan_data_file index store_env blank 3 (set_foo ∷ []) k empty empty
        store_env-IsFaithful (set_foo-IsOwn, tt) (omega (arith, length-set_foo)) index.ht_new-IsOk
        index.ht_new-IsOk in
    ap (λ (o : Option Entry). if same_key k foo then some set_foo_entry else o)
      (sym (index.ht_get-ht_new k))
    ∙ sym scanned.1

file_hints-bytes : 0 < length (hints file_hints)
unfolding hint_record to_bytes
file_hints-bytes = ground arith

scan_hint_file-scan_data_file_example :
    (t' : index.Tree) × (scan_hint_file index store_env blank 3 true
        (build_hint store_env true file_hints)
        empty
      ≡ some t')
    × ((k : List ℕ)
        → index.ht_get k t'
          ≡ index.ht_get k
              (scan_data_file index store_env blank 3
                (log store_env (set_foo ∷ []))
                (empty, empty)).0)
scan_hint_file-scan_data_file_example =
    scan_hint_file-scan_data_file index store_env blank 3 true (set_foo ∷ []) file_hints empty empty
      store_env-IsFaithful (set_foo-IsOwn, tt) (omega (arith, length-set_foo)) index.ht_new-IsOk
      index.ht_new-IsOk index.ht_get-ht_new file_hints-lists (file_hints-IsHint, tt)
      file_hints-bytes file_hints-bytes
