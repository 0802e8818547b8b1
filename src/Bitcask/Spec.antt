-- ===== src/Bitcask/Spec.antt =====
-- What a bitcask promises: a map from keys to cells, and `get` and `set` on it.
use beansdb.Base.{
  ℕ, ◌%◌, ◌^◌, Bool, true, false, ◌&&◌, ◌||◌, not, Option, none, some, List, length, ltb, ◌==◌,
  if◌then◌else◌,
}
use beansdb.Base.Int.{ℤ, pos}
use beansdb.Fnv.{gen_hash}
use beansdb.HTree.{same_key}
use beansdb.Record.{DataRecord, max_value_len}
use beansdb.Bitcask.{check_key, next_version, word_of, is_negative, is_positive, is_zero}

pub record Cell : Type 0 where
  pub ver : ℤ
  pub hash : ℕ
  pub flag : ℕ
  pub value : List ℕ
  pub tstamp : ℕ

-- The record of a cell, with the version that stands in it.
abbrev pub record_of : List ℕ → ℕ → Cell → DataRecord
record_of key version c = record {
  tstamp = c.tstamp;
  flag = c.flag;
  version = version;
  ksz = length key;
  vsz = length c.value;
  key = key;
  value = c.value;
}

abbrev pub Cells : Type 0
Cells = List ℕ → Option Cell

abbrev pub put : List ℕ → Cell → Cells → Cells
put key c m j = if same_key j key then some c else m j

abbrev pub current_version : Option Cell → ℤ
current_version none = pos 0
current_version (some c) = c.ver

unfoldable pub visible : Bool → Option Cell → Option Cell
visible return_deleted none = none
visible return_deleted (some c) = if not return_deleted && is_negative c.ver then none else some c

abbrev pub answer : List ℕ → Option Cell → Option DataRecord
answer key none = none
answer key (some c) = some (record_of key (word_of c.ver) c)

unfoldable pub get : (ℕ → Bool) → List ℕ → Bool → Cells → Option DataRecord
get is_blank key return_deleted m =
    if check_key is_blank key then answer key (visible return_deleted (m key)) else none

-- A value of which the hash, the flag and the bytes are those of a live cell is not stored again.
unfoldable pub repeats : List ℕ → ℕ → ℕ → Option Cell → Bool
repeats value flag hash none = false
repeats value flag hash (some c) =
    hash == c.hash
    && (not (is_negative c.ver)
        && (c.flag == flag && length value == length c.value && same_key value c.value))

abbrev pub value_hash : ℤ → List ℕ → ℕ
value_hash ver value = if is_positive ver then gen_hash value % 2 ^ 16 else 0

abbrev pub new_cell : ℕ → List ℕ → ℕ → ℤ → Cell
new_cell now value flag ver = record {
  ver = ver;
  hash = value_hash ver value;
  flag = flag;
  value = value;
  tstamp = now % 2 ^ 32;
}

-- The version of a cell whose value is stored again changes only where one is asked for.
unfoldable pub renew : List ℕ → Bool → ℤ → Option Cell → Cells → Cells
renew key asked ver none m = m
renew key asked ver (some c) m = if asked then put key (record c { ver = ver }) m else m

unfoldable pub accepts : (ℕ → Bool) → List ℕ → List ℕ → ℤ → Bool
accepts is_blank key value version = not (
    (is_negative version && ltb 0 (length value))
    || ltb max_value_len (length value)
    || not (check_key is_blank key))

unfoldable pub set : (ℕ → Bool) → ℕ → List ℕ → List ℕ → ℕ → ℤ → Cells → Bool × Cells
set is_blank now key value flag version m =
    if accepts is_blank key value version
    then elim (next_version version (current_version (m key))) [
      | none ↦ (false, m)
      | some ver ↦
          if repeats value flag (value_hash ver value) (m key)
          then (true, renew key (not (is_zero version)) ver (m key) m)
          else (true, put key (new_cell now value flag ver) m)
    ]
    else (false, m)
