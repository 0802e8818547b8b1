-- ===== src/Record/FastRead/Agrees.antt =====
-- The reader of files against the reader of buffers, both of src/record.c.
use beansdb.Base.{
  ℕ, ◌+◌, ◌-◌, ◌≤◌, ◌<◌, ◌≡◌, refl, sym, ap, ◌∙◌, arith, Bool, true, false, inl, inr, none, List,
  ◌++◌, length, take, drop, All, le→ltb_false, lt→ltb, eq→==, length-take, Bool-cases,
}
use native.Mathlib.Decide.{dec_le}
use beansdb.Base.Words.{IsByte, field_at}
use beansdb.Base.Slices.{drop-add, slice-take, slice-join, All-take, All-drop}
use beansdb.Crc.{crc32}
use beansdb.Crc.Reference.{crc32-append}
use beansdb.Record.{Env, header_size, padding, bad_kv_size, record_at, decode_record}
use beansdb.Record.FastRead.Data.{page, field_at-page, record_at-page, fast_read_data_cases}
use beansdb.Record.FastRead.{fast_read_check, fast_read_record, to_option}

module _ (env : Env) (buf : List ℕ) (bytes : All IsByte buf) where
  -- The two calls of `crc32` cover what the one call does.
  two_checksums :
      let r = record_at buf in
      crc32 (crc32 0 (take 20 (drop 4 (page buf)) ++ r.key)) r.value
      ≡ crc32 0 (take (header_size + r.ksz + r.vsz - 4) (drop 4 buf))
  unfolding record_at
  two_checksums =
      let k = field_at 4 16 buf in
      let v = field_at 4 20 buf in
      rw (slice-take 4 20 padding buf (omega arith), slice-join 4 20 k buf)
        (crc32-append 0 (take (20 + k) (drop 4 buf)) (take v (drop k (drop header_size buf)))
            (All-take IsByte _ _ (All-drop IsByte 4 buf bytes))
          ∙ ap (crc32 0) rest)
    where
      rest :
          let k = field_at 4 16 buf in
          let v = field_at 4 20 buf in
          take (20 + k) (drop 4 buf) ++ take v (drop k (drop header_size buf))
          ≡ take (header_size + k + v - 4) (drop 4 buf)
      rest =
          let k = field_at 4 16 buf in
          let v = field_at 4 20 buf in
          ap (λ (xs : List ℕ). take (20 + k) (drop 4 buf) ++ take v xs)
            (sym (drop-add header_size k buf)
              ∙ ap (λ (t : ℕ). drop t buf) {x = header_size + k} {y = 4 + (20 + k)} (omega arith))
          ∙ slice-join 4 (20 + k) v buf
          ∙ ap (λ (t : ℕ). take t (drop 4 buf)) (omega arith)

  abbrev SizesAgree : Type 0
  SizesAgree =
      ((record_at (page buf)).ksz ≡ (record_at buf).ksz)
      × ((record_at (page buf)).vsz ≡ (record_at buf).vsz)

  page_sizes : SizesAgree
  unfolding record_at
  page_sizes = (field_at-page buf 16 (omega arith), field_at-page buf 20 (omega arith))

  -- What the reader does once it has the data is what `decode_record` does.
  fast_read_check-eq-decode_record :
      (decomp : Bool)
      → let r = record_at buf in
        bad_kv_size r.ksz r.vsz ≡ false
        → header_size + r.ksz + r.vsz ≤ length buf
        → fast_read_check env decomp
            (page buf)
            (record (record_at (page buf)) { key = r.key; value = r.value })
          ≡ to_option (decode_record env buf (length buf) decomp)
  unfolding fast_read_check decode_record
  fast_read_check-eq-decode_record decomp good room =
      rw
        (
          record_at-page buf (record_at buf).key (record_at buf).value refl refl,
          two_checksums,
          field_at-page buf 0 (omega arith),
          good,
          le→ltb_false (length buf) (header_size + (record_at buf).ksz + (record_at buf).vsz) room,
        )
        (ground arith)

  no_record_behind :
      (decomp : Bool)
      → let r = record_at buf in
        bad_kv_size r.ksz r.vsz ≡ false
        → length buf < header_size + r.ksz + r.vsz
        → to_option (decode_record env buf (length buf) decomp) ≡ none
  unfolding decode_record
  no_record_behind decomp good short =
      rw (good, lt→ltb (length buf) (header_size + (record_at buf).ksz + (record_at buf).vsz) short)

  no_record_sizes :
      (decomp : Bool)
      → bad_kv_size (record_at buf).ksz (record_at buf).vsz ≡ true
      → to_option (decode_record env buf (length buf) decomp) ≡ none
  unfolding decode_record
  no_record_sizes decomp wrong = rw wrong

-- Where a page of bytes can be read, reading a record from the file is decoding the file's bytes from the
-- offset on: it returns the same record, or nothing for each of the reasons of `decode_record`.
pub fast_read_record-eq-decode_record :
    (env : Env) (file : List ℕ) (offset : ℕ) (decomp : Bool)
    → All IsByte file
    → padding ≤ length (drop offset file)
    → fast_read_record env file offset decomp
      ≡ to_option (decode_record env (drop offset file) (length (drop offset file)) decomp)
unfolding fast_read_record record_at
fast_read_record-eq-decode_record env file offset decomp all_bytes h =
    let b = drop offset file in
    let bytes = All-drop IsByte offset file all_bytes in
    let r = record_at b in
    let sizes = page_sizes env b bytes in
    rw
      (
        eq→== (length (page b)) padding (omega (arith, length-take padding b)),
        sizes.0,
        sizes.1,
        fast_read_data_cases file offset r.ksz r.vsz h,
      )
      (elim (Bool-cases (bad_kv_size r.ksz r.vsz)) [
        | inl wrong ↦ rw wrong (sym (no_record_sizes env b bytes decomp wrong))
        | inr good ↦ rw good (elim (dec_le (header_size + r.ksz + r.vsz) (length b)) [
          | yes room ↦
              rw (le→ltb_false (length b) (header_size + r.ksz + r.vsz) room)
                (fast_read_check-eq-decode_record env b bytes decomp good room)
          | no short ↦
              rw (lt→ltb (length b) (header_size + r.ksz + r.vsz) (omega arith))
                (sym (no_record_behind env b bytes decomp good (omega arith)))
        ])
      ])
