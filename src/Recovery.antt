-- ===== src/Recovery.antt =====
-- How an index is made from a data file: `scan_record`, `scanDataFile` and `scanDataFileBefore` of
-- src/record.c. A file in memory is the list of its bytes from a pointer on, with the offset of the
-- pointer; memory past the end of a file reads as zero.
pub mod Hints
pub mod Replay
pub mod Records
pub mod Newest
pub mod Broken
pub mod Resumes
pub mod Torn
pub mod Before
pub mod Saved
pub mod Loaded
pub mod HintFiles
use beansdb.Base.{
  ℕ, zero, suc, ◌+◌, ◌-◌, ◌*◌, ◌/◌, ◌%◌, ◌^◌, bit_or, Bool, true, false, ◌&&◌, not, Option, none,
  some, List, [], ◌∷◌, length, take, drop, ltb, leb, ◌==◌, if◌then◌else◌,
}
use beansdb.Base.Int.{ℤ, pos, negsuc}
use beansdb.Base.Words.{field_at}
use beansdb.Fnv.{gen_hash}
use beansdb.Record.{
  DataRecord, Env, BadReason, bad_size, bad_end, bad_crc, bad_decompress, Decoded, decoded, bad,
  padding, header_size, max_key_len, max_value_len, record_at, record_length, decompress_record,
  decode_record,
}
use beansdb.Bitcask.{Entry, Index, check_key, is_positive}

-- An int32_t by its bits.
abbrev pub int_of : ℕ → ℤ
int_of w = if ltb w (2 ^ 31) then pos w else negsuc (2 ^ 32 - 1 - w)

-- Where `scan_record` stopped: the pointer, and the record there.
pub record Found (T : Type 0) : Type 0 where
  pub place : ℕ
  pub buf : List ℕ
  pub found : Option DataRecord
  pub tree : T

-- p - f->addr, as a uint32_t, or the bucket.
abbrev pub place_of : ℕ → ℕ → ℕ
place_of bucket offset = bit_or (offset % 2 ^ 32) bucket

abbrev pub entry_of_record : ℕ → ℕ → DataRecord → Entry
entry_of_record bucket offset r = record {
  place = place_of bucket offset;
  hash = gen_hash r.value % 2 ^ 16;
  ver = int_of r.version;
}

module _ (idx : Index) (env : Env) (is_blank : ℕ → Bool) (bucket : ℕ) where
  open idx use {Tree, ht_get, ht_add, ht_remove}

  -- A broken record is taken out of the tree if the tree leads to it.
  unfoldable pub remove_broken : ℕ → List ℕ → Tree → Tree
  remove_broken offset buf t =
      let ksz = field_at 4 16 buf in
      let key = take ksz (drop header_size buf) in
      if (ltb 0 ksz && leb ksz max_key_len) && ltb (header_size + ksz) (length buf)
      then elim (ht_get key t) [
        | none ↦ t
        | some e ↦
            if e.place / 256 * 256 == offset && e.place % 256 == bucket then ht_remove key t else t
      ]
      else t

  -- The record behind one whose checksum is wrong. Where it would stand past the end, the size wraps.
  unfoldable pub after_broken : BadReason → List ℕ → Option (ℕ × List ℕ × DataRecord)
  after_broken bad_size buf = none
  after_broken bad_end buf = none
  after_broken bad_decompress buf = none
  after_broken bad_crc buf =
      let jump = record_length (record_at buf) in
      elim (decode_record env (drop jump buf) ((length buf + 2 ^ 32 - jump) % 2 ^ 32) false) [
        | decoded r ↦ some (jump, drop jump buf, r)
        | bad reason ↦ none
      ]

  -- The loop of `scan_record` after `broken` pages, with fuel for every page.
  unfoldable pub scan_pages : ℕ → ℕ → ℕ → List ℕ → Tree → Found Tree
  unfolding remove_broken after_broken
  scan_pages fuel broken offset [] t = record { place = offset; buf = []; found = none; tree = t }
  scan_pages zero broken offset (b ∷ bs) t = record {
    place = offset;
    buf = b ∷ bs;
    found = none;
    tree = t;
  }
  scan_pages (suc fuel) broken offset (b ∷ bs) t =
      let buf = b ∷ bs in
      let t' = if broken == 0 then remove_broken offset buf t else t in
      let next = scan_pages fuel (broken + 1) (offset + padding) (drop padding buf) t' in
      elim (decode_record env buf (length buf % 2 ^ 32) false) [
        | decoded r ↦ record { place = offset; buf = buf; found = some r; tree = t }
        | bad reason ↦ elim (if broken == 0 then after_broken reason buf else none) [
          | some (jump, buf', r) ↦ record {
            place = offset + jump;
            buf = buf';
            found = some r;
            tree = t';
          }
          | none ↦
              if ltb (max_value_len / padding) (broken + 1)
              then record { place = offset; buf = buf; found = none; tree = t' }
              else next
        ]
      ]

  unfoldable pub scan_record : ℕ → List ℕ → Tree → Found Tree
  unfolding scan_pages
  scan_record offset buf t = scan_pages (length buf) 0 offset buf t

  -- A record goes into the tree, or takes its key out of it.
  unfoldable pub apply_entry : List ℕ → Entry → Tree → Tree
  apply_entry key e t = if is_positive e.ver then ht_add key e t else ht_remove key t

  -- One record of `scanDataFile`: the tree, and the tree of the file.
  unfoldable pub index_record : ℕ → Option DataRecord → Tree × Tree → Tree × Tree
  unfolding apply_entry
  index_record offset none ts = ts
  index_record offset (some r) (t, cur) =
      let e = entry_of_record bucket offset r in
      if check_key is_blank r.key then (apply_entry r.key e t, ht_add r.key e cur) else (t, cur)

  -- One round of `scanDataFile`, with the rounds that follow it.
  unfoldable pub index_found :
      (ℕ → List ℕ → Tree × Tree → Tree × Tree) → Tree → Found Tree → Tree × Tree
  unfolding index_record
  index_found go cur f = elim f.found [
    | none ↦ (f.tree, cur)
    | some r ↦
        go (f.place + record_length r) (drop (record_length r) f.buf)
          (index_record f.place (decompress_record env r) (f.tree, cur))
  ]

  -- The loop of `scanDataFile`, with fuel for every byte.
  unfoldable pub scan_records : ℕ → ℕ → List ℕ → Tree × Tree → Tree × Tree
  unfolding scan_record index_found
  scan_records zero offset buf ts = ts
  scan_records (suc fuel) offset [] ts = ts
  scan_records (suc fuel) offset (b ∷ bs) (t, cur) =
      index_found (scan_records fuel) cur (scan_record offset (b ∷ bs) t)

  -- What `scanDataFile` makes of the two trees before the hint file is written.
  unfoldable pub scan_data_file : List ℕ → Tree × Tree → Tree × Tree
  unfolding scan_records
  scan_data_file file ts = scan_records (length file) 0 file ts

  unfoldable pub index_before : ℕ → Option DataRecord → Tree → Tree
  unfolding apply_entry
  index_before offset none t = t
  index_before offset (some r) t =
      if check_key is_blank r.key then apply_entry r.key (entry_of_record bucket offset r) t else t

  -- One round of `scanDataFileBefore`, which ends at a record that is not older than `before`.
  unfoldable pub found_before : ℕ → (ℕ → List ℕ → Tree → Tree) → Found Tree → Tree
  unfolding index_before
  found_before before go f = elim f.found [
    | none ↦ f.tree
    | some r ↦
        let more =
          go (f.place + record_length r) (drop (record_length r) f.buf)
            (index_before f.place (decompress_record env r) f.tree) in
        if ltb r.tstamp (2 ^ 31) && leb before r.tstamp then f.tree else more
  ]

  -- The loop of `scanDataFileBefore`.
  unfoldable pub scan_before : ℕ → ℕ → ℕ → List ℕ → Tree → Tree
  unfolding scan_record found_before
  scan_before before zero offset buf t = t
  scan_before before (suc fuel) offset [] t = t
  scan_before before (suc fuel) offset (b ∷ bs) t =
      found_before before (scan_before before fuel) (scan_record offset (b ∷ bs) t)

  unfoldable pub scan_data_file_before : ℕ → List ℕ → Tree → Tree
  unfolding scan_before
  scan_data_file_before before file t = scan_before before (length file) 0 file t
