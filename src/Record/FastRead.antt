-- ===== src/Record/FastRead.antt =====
-- `fast_read_record` of src/record.c: a record is read from a file by one `pread` of 256 bytes, and
-- by a second one where it is longer. The file is the list of its bytes.
mod Data
pub mod Agrees
use mathlib.Core.Path.{ap₂, subst}
use mathlib.Core.List.{append_assoc}
use beansdb.Base.{
  ℕ, zero, suc, ◌+◌, ◌-◌, ◌*◌, ◌/◌, ◌%◌, ◌^◌, ◌≤◌, ◌<◌, ◌≡◌, refl, sym, ap, ◌∙◌, arith, Bool, true,
  false, not, ◌⊎◌, inl, inr, Option, none, some, List, [], ◌∷◌, ◌++◌, length, take, drop, All, ltb,
  leb, ◌==◌, if◌then◌else◌, length-take, length-drop, Bool-cases,
}
use beansdb.Base.Words.{IsByte, field_at}
use beansdb.Base.Slices.{take-add, drop-add, take-take, slice-take, slice-join, All-take, All-drop}
use beansdb.Crc.{crc32}
use beansdb.Crc.Reference.{crc32-append}
use beansdb.Record.{
  DataRecord, Env, Decoded, decoded, bad, header_size, padding, bad_kv_size, record_at,
  decompress_record, decompress_decoded, decode_record,
}

-- pread(fd, buf, n, offset)
abbrev pub pread : List ℕ → ℕ → ℕ → List ℕ
pread file n offset = take n (drop offset file)

-- The key and the value, or `none` if the second read is short. `page` is what the first one got.
pub fast_read_data : List ℕ → ℕ → List ℕ → ℕ → ℕ → Option (List ℕ × List ℕ)
fast_read_data file offset page ksz vsz =
    let read_more = header_size + ksz + vsz - padding in
    let more = pread file read_more (offset + padding) in
    let behind = drop header_size page in
    if leb (header_size + ksz + vsz) padding
    then some (take ksz behind, take vsz (drop ksz behind))
    else if not (length more == read_more)
    then none
    else if ltb vsz read_more
    then (let key_more = read_more - vsz in
        some (take (ksz - key_more) behind ++ take key_more more, take vsz (drop key_more more)))
    else some (take ksz behind, take (vsz - read_more) (drop ksz behind) ++ more)

-- The checksum and the decompression, once the key and the value are there.
fast_read_check : Env → Bool → List ℕ → DataRecord → Option DataRecord
fast_read_check env decomp page r =
    let crc = crc32 (crc32 0 (take 20 (drop 4 page) ++ r.key)) r.value in
    if not (crc == field_at 4 0 page)
    then none
    else if decomp
    then decompress_record env r
    else some r

pub fast_read_record : Env → List ℕ → ℕ → Bool → Option DataRecord
unfolding fast_read_data fast_read_check
fast_read_record env file offset decomp =
    let page = pread file padding offset in
    let h = record_at page in
    if not (length page == padding)
    then none
    else if bad_kv_size h.ksz h.vsz
    then none
    else elim (fast_read_data file offset page h.ksz h.vsz) [
      | none ↦ none
      | some (key, value) ↦ fast_read_check env decomp page (record h { key = key; value = value })
    ]

abbrev pub to_option : Decoded → Option DataRecord
to_option (decoded r) = some r
to_option (bad reason) = none
