-- ===== src/Bitcask/Access.antt =====
-- `bc_get`, `bc_set` and `bc_delete` of src/bitcask.c. `is_blank` is the test of `check_key`, `now` the
-- time of the call.
use beansdb.Base.{
  ℕ, zero, suc, ◌+◌, ◌-◌, ◌*◌, ◌%◌, ◌^◌, bit_or, Bool, true, false, ◌&&◌, ◌||◌, not, Option, none,
  some, List, [], ◌∷◌, ◌++◌, length, take, drop, ltb, leb, ◌==◌, if◌then◌else◌,
}
use beansdb.Base.Int.{ℤ, pos, negsuc}
use beansdb.Fnv.{gen_hash}
use beansdb.HTree.{same_key}
use beansdb.Record.{DataRecord, Env, encode_record, decode_record, max_value_len}
use beansdb.Record.FastRead.{fast_read_record, to_option}
use beansdb.Bitcask.{
  Entry, Index, Flushing, Bitcask, file_bytes, check_key, next_version, word_of, is_negative,
  is_positive, is_zero,
}
use beansdb.Bitcask.Flush.{bc_rotate, over_limit, bc_flush}

-- The string that a buffer holds, up to its first zero.
unfoldable pub c_string : List ℕ → List ℕ
c_string [] = []
c_string (c ∷ cs) = if c == 0 then [] else c ∷ c_string cs

abbrev pub old_version : Option Entry → ℤ
old_version none = pos 0
old_version (some e) = e.ver

-- The position that `bc_get` returns.
abbrev pub old_position : Option Entry → ℕ
old_position none = 0
old_position (some e) = e.place

-- `wbuf_size *= 2` until the record fits; 32 rounds reach every size.
unfoldable pub grow : ℕ → ℕ → ℕ → ℕ
grow zero rlen size = size
grow (suc fuel) rlen size =
    let more = grow fuel rlen (size * 2 % 2 ^ 32) in if ltb size rlen then more else size

module _ (idx : Index) (env : Env) (max_bucket_size : ℕ) (is_blank : ℕ → Bool) where
  open idx use {Tree, ht_get, ht_add, ht_remove}

  -- The record in a buffer from a place on.
  unfoldable pub read_buffer : List ℕ → ℕ → Option DataRecord
  read_buffer buf p = to_option (decode_record env (drop p buf) (length buf - p) true)

  -- What the buffer of a flush gives, if it is of the bucket and the place is not before it.
  unfoldable pub read_flushing : Option Flushing → ℕ → ℕ → Option DataRecord
  unfolding read_buffer
  read_flushing none bucket place = none
  read_flushing (some f) bucket place =
      if bucket == f.bucket && leb f.start place then read_buffer f.buf (place - f.start) else none

  unfoldable pub read_buffers : Bitcask Tree → ℕ → ℕ → Option DataRecord
  unfolding read_buffer read_flushing
  read_buffers bc bucket place =
      if bucket == bc.curr && leb bc.wbuf_start place
      then read_buffer bc.wbuf (place - bc.wbuf_start)
      else read_flushing bc.flushing bucket place

  -- The record in the data file. Reading again at the same place changes nothing.
  unfoldable pub read_file : Bitcask Tree → List ℕ → ℕ → ℕ → Option DataRecord
  read_file bc key bucket place =
      elim (fast_read_record env (file_bytes (bc.files bucket)) place true) [
        | none ↦ none
        | some r ↦ if same_key key (c_string r.key) then some r else none
      ]

  unfoldable pub read_entry : Bitcask Tree → List ℕ → ℕ → ℕ → Option DataRecord
  unfolding read_buffers read_file
  read_entry bc key bucket place = elim (read_buffers bc bucket place) [
    | some r ↦ some r
    | none ↦ read_file bc key bucket place
  ]

  -- A key whose record cannot be read is removed from the index.
  unfoldable pub drop_key : List ℕ → Bitcask Tree → Bitcask Tree
  drop_key key bc = record bc { tree = ht_remove key bc.tree }

  unfoldable pub get_entry : List ℕ → Entry → Bitcask Tree → Option DataRecord × Bitcask Tree
  unfolding drop_key
  get_entry key e bc =
      let bucket = e.place % 256 in
      if ltb bc.curr bucket
      then (none, drop_key key bc)
      else elim (read_entry bc key bucket (e.place - bucket)) [
        | none ↦ (none, drop_key key bc)
        | some r ↦ (some (record r { version = word_of e.ver }), bc)
      ]

  unfoldable pub bc_get : List ℕ → Bool → Bitcask Tree → Option DataRecord × Bitcask Tree
  bc_get key return_deleted bc =
      if not (check_key is_blank key) then (none, bc) else elim (ht_get key bc.tree) [
        | none ↦ (none, bc)
        | some e ↦
            if not return_deleted && is_negative e.ver then (none, bc) else get_entry key e bc
      ]

  -- The buffer is flushed, enlarged and started on a new file where a record does not fit.
  unfoldable pub make_room : ℕ → ℕ → Bitcask Tree → Option (Bitcask Tree)
  make_room now rlen bc =
      if ltb bc.wbuf_size ((length bc.wbuf + rlen) % 2 ^ 32)
      then elim (bc_flush idx max_bucket_size 0 0 now bc) [
        | none ↦ none
        | some bc₁ ↦
            let bc₂ = record bc₁ { wbuf_size = grow 32 rlen bc₁.wbuf_size } in
            some (
              if over_limit idx max_bucket_size bc₂ then bc_rotate idx max_bucket_size bc₂ else bc₂)
      ]
      else some bc

  -- The record is put into the buffer and its place into the index.
  unfoldable pub put_record : List ℕ → List ℕ → ℕ → ℤ → Bitcask Tree → Bitcask Tree
  put_record key rbuf hash ver bc =
      let e : Entry = record {
        place = bit_or ((bc.wbuf_start + length bc.wbuf) % 2 ^ 32) bc.curr;
        hash = hash;
        ver = ver;
      } in
      record bc {
        wbuf = bc.wbuf ++ rbuf;
        curr_tree = ht_add key e bc.curr_tree;
        tree = ht_add key e bc.tree;
      }

  unfoldable pub make_record : ℕ → List ℕ → List ℕ → ℕ → ℤ → DataRecord
  make_record now key value flag ver = record {
    tstamp = now % 2 ^ 32;
    flag = flag;
    version = word_of ver;
    ksz = length key;
    vsz = length value;
    key = key;
    value = value;
  }

  unfoldable pub store_value :
      ℕ → List ℕ → List ℕ → ℕ → ℕ → ℤ → Bitcask Tree → Option (Bool × Bitcask Tree)
  store_value now key value flag hash ver bc =
      let rbuf = encode_record env (make_record now key value flag ver) in
      if not (length rbuf % 256 == 0)
      then some (false, bc)
      else elim (make_room now (length rbuf) bc) [
        | none ↦ none
        | some bc' ↦ some (true, put_record key rbuf hash ver bc')
      ]

  -- The value is the one that is stored already, under the same flag.
  unfoldable pub is_same : List ℕ → ℕ → DataRecord → Bool
  is_same value flag r =
      r.flag == flag && length value == r.vsz && same_key value (take (length value) r.value)

  unfoldable pub unchanged :
      List ℕ → List ℕ → ℕ → ℕ → Option Entry → Bitcask Tree → Bool × Bitcask Tree
  unfolding is_same
  unchanged key value flag hash none bc = (false, bc)
  unchanged key value flag hash (some e) bc =
      let (got, bc') = bc_get key false bc in
      if hash == e.hash
      then elim got [ none ↦ (false, bc') | some r ↦ (is_same value flag r, bc') ]
      else (false, bc)

  unfoldable pub update_version : List ℕ → Option Entry → ℤ → Bitcask Tree → Bitcask Tree
  update_version key none ver bc = bc
  update_version key (some e) ver bc =
      let e' = record e { ver = ver } in
      record bc {
        curr_tree = if e.place % 256 == bc.curr then ht_add key e' bc.curr_tree else bc.curr_tree;
        tree = ht_add key e' bc.tree;
      }

  unfoldable pub set_version :
      ℕ
      → List ℕ
      → List ℕ
      → ℕ
      → Bool
      → ℤ
      → Option Entry
      → Bitcask Tree
      → Option (Bool × Bitcask Tree)
  unfolding update_version
  set_version now key value flag asked ver it bc =
      let hash = if is_positive ver then gen_hash value % 2 ^ 16 else 0 in
      let (same, bc') = unchanged key value flag hash it bc in
      if same
      then some (true, if asked then update_version key it ver bc' else bc')
      else store_value now key value flag hash ver bc'

  unfoldable pub bc_set : ℕ → List ℕ → List ℕ → ℕ → ℤ → Bitcask Tree → Option (Bool × Bitcask Tree)
  bc_set now key value flag version bc =
      let it = ht_get key bc.tree in
      if (is_negative version && ltb 0 (length value))
        || ltb max_value_len (length value)
        || not (check_key is_blank key)
      then some (false, bc)
      else elim (next_version version (old_version it)) [
        | none ↦ some (false, bc)
        | some ver ↦ set_version now key value flag (not (is_zero version)) ver it bc
      ]

  unfoldable pub bc_delete : ℕ → List ℕ → Bitcask Tree → Option (Bool × Bitcask Tree)
  bc_delete now key bc = bc_set now key [] 0 (negsuc 0) bc
