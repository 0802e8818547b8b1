-- ===== src/Bitcask.antt =====
-- A bitcask of src/bitcask.c: its state, and the index that it takes. Data files are functions of
-- their number, with `none` for a file that is not there; `wbuf` is the part of the write buffer that
-- is filled, so that `wbuf_curr_pos` is its length. Where the source calls `exit`, an operation is
-- `none`. Directories, disks, and `buckets.txt` are left out, and no optimization runs. A
-- version is an int, held as an integer.
pub mod Flush
pub mod Access
pub mod Shape
pub mod Stored
pub mod Ready
pub mod Room
pub mod Reads
pub mod Spec
pub mod Refines
pub mod Writes
pub mod Sets
pub mod Calls
pub mod Session
pub mod Answers
pub mod TreeIndex
pub mod Phases
pub mod Versions
use beansdb.Base.{
  ℕ, zero, suc, ◌+◌, ◌-◌, ◌%◌, ◌^◌, ◌≡◌, Bool, true, false, ◌&&◌, ◌||◌, not, Option, none, some,
  List, [], ◌∷◌, length, ltb, leb, ◌==◌, if◌then◌else◌,
}
use beansdb.Base.Int.{ℤ, pos, negsuc, ltb_ℤ, wrap}
use beansdb.HTree.{same_key}

-- What the index keeps for a key.
pub record Entry : Type 0 where
  pub place : ℕ
  pub hash : ℕ
  pub ver : ℤ

-- The calls of the index, `takes` for `check_bucket`, and what a bitcask relies on.
pub record Index : Type 1 where
  pub Tree : Type 0
  pub IsOk : Tree → Type 0
  pub takes : List ℕ → Bool
  pub ht_new : Tree
  pub ht_get : List ℕ → Tree → Option Entry
  pub ht_add : List ℕ → Entry → Tree → Tree
  pub ht_remove : List ℕ → Tree → Tree
  pub ht_new-IsOk : IsOk ht_new
  pub ht_add-IsOk : (k : List ℕ) (e : Entry) (t : Tree) → IsOk t → IsOk (ht_add k e t)
  pub ht_remove-IsOk : (k : List ℕ) (t : Tree) → IsOk t → IsOk (ht_remove k t)
  pub ht_get-ht_new : (k : List ℕ) → ht_get k ht_new ≡ none
  pub ht_get-ht_add :
      (j k : List ℕ) (e : Entry) (t : Tree)
      → IsOk t
      → takes k ≡ true
      → ht_get j (ht_add k e t) ≡ (if same_key j k then some e else ht_get j t)
  pub ht_get-ht_remove :
      (j k : List ℕ) (t : Tree)
      → IsOk t
      → takes k ≡ true
      → ht_get j (ht_remove k t) ≡ (if same_key j k then none else ht_get j t)

-- A flush between its start and its end: the bucket, the bytes and where they go; `written` tells
-- whether they are in the file.
pub record Flushing : Type 0 where
  pub bucket : ℕ
  pub buf : List ℕ
  pub start : ℕ
  pub written : Bool

pub record Bitcask (T : Type 0) : Type 0 where
  pub tree : T
  pub curr_tree : T
  pub curr : ℕ
  pub bytes : ℕ
  pub curr_bytes : ℕ
  pub wbuf : List ℕ
  pub wbuf_size : ℕ
  pub wbuf_start : ℕ
  pub last_flush_time : ℕ
  pub flushing : Option Flushing
  pub files : ℕ → Option (List ℕ)
  pub buckets : ℕ → ℤ

abbrev pub max_bucket_count : ℕ
max_bucket_count = 256

abbrev pub write_buffer_size : ℕ
write_buffer_size = 2097152

-- The bytes of a data file.
unfoldable pub file_bytes : Option (List ℕ) → List ℕ
file_bytes none = []
file_bytes (some bytes) = bytes

abbrev pub file_exists : Option (List ℕ) → Bool
file_exists none = false
file_exists (some bytes) = true

abbrev pub update {ℓ} : {A : Type ℓ} → (ℕ → A) → ℕ → A → ℕ → A
update f i a j = if j == i then a else f j

-- `bc_open2` with the tree that `bc_scan` makes where there are no files.
unfoldable pub bc_open2 : (idx : Index) → ℕ → Bitcask idx.Tree
bc_open2 idx now = record {
  tree = idx.ht_new;
  curr_tree = idx.ht_new;
  curr = 0;
  bytes = 0;
  curr_bytes = 0;
  wbuf = [];
  wbuf_size = 4096;
  wbuf_start = 0;
  last_flush_time = now;
  flushing = none;
  files = λ i. none;
  buckets = λ i. negsuc 0;
}

no_blank : (ℕ → Bool) → List ℕ → Bool
no_blank is_blank [] = true
no_blank is_blank (c ∷ cs) = not (is_blank c) && no_blank is_blank cs

-- `isspace(c) || iscntrl(c)` is a parameter; a char is signed, so bytes from 128 on are negative.
unfoldable pub check_key : (ℕ → Bool) → List ℕ → Bool
unfolding no_blank
check_key is_blank [] = false
check_key is_blank (c ∷ cs) =
    let key = c ∷ cs in
    if ltb 250 (length key)
    then false
    else if leb c 32 || leb 128 c
    then false
    else no_blank is_blank key

-- The absolute value, which of an int may be 2^31.
unfoldable pub magnitude : ℤ → ℕ
magnitude (pos n) = n
magnitude (negsuc n) = suc n

-- Arithmetic of an int, in two's complement where it overflows.
unfoldable pub to_int : ℤ → ℤ
to_int z = wrap (2 ^ 31) z

-- abs(a) <= abs(b), where the absolute value of INT_MIN is INT_MIN.
unfoldable pub abs_le : ℤ → ℤ → Bool
unfolding magnitude to_int
abs_le a b = not (ltb_ℤ (to_int (pos (magnitude b))) (to_int (pos (magnitude a))))

-- The version that `bc_set` stores for the version asked for, over the old one; `none` where it fails.
-- A deletion is of a positive version, so that `- abs(oldv) - 1` does not overflow.
unfoldable pub next_version : ℤ → ℤ → Option ℤ
unfolding to_int abs_le
next_version (pos zero) (pos zero) = some (pos 1)
next_version (pos zero) (pos (suc n)) = some (to_int (pos (suc n + 1)))
next_version (pos zero) (negsuc n) = some (to_int (pos (suc n + 1)))
next_version (negsuc v) (pos zero) = none
next_version (negsuc v) (negsuc n) = none
next_version (negsuc zero) (pos (suc n)) = some (negsuc (suc n))
next_version (negsuc (suc v)) (pos (suc n)) =
    if abs_le (negsuc (suc v)) (pos (suc n)) then none else some (negsuc (suc v))
next_version (pos (suc v)) old = if abs_le (pos (suc v)) old then none else some (pos (suc v))

-- The bits of an int32_t.
unfoldable pub word_of : ℤ → ℕ
word_of (pos n) = n % 2 ^ 32
word_of (negsuc n) = 2 ^ 32 - 1 - n % 2 ^ 32

unfoldable pub is_negative : ℤ → Bool
is_negative (pos n) = false
is_negative (negsuc n) = true

unfoldable pub is_positive : ℤ → Bool
is_positive (pos zero) = false
is_positive (pos (suc n)) = true
is_positive (negsuc n) = false

unfoldable pub is_zero : ℤ → Bool
is_zero (pos zero) = true
is_zero (pos (suc n)) = false
is_zero (negsuc n) = false
