-- ===== src/Record/RoundTrip.antt =====
-- `encode_record` and `decode_record` of src/record.c are inverse to one another.
use mathlib.Core.List.{append_assoc}
use beansdb.Base.{
  ℕ, ◌+◌, ◌-◌, ◌%◌, ◌≤◌, ◌<◌, ◌≡◌, refl, ap, arith, Bool, true, false, ◌⊎◌, inl, inr, some, List,
  ◌++◌, length, replicate, All, ltb, if◌then◌else◌, length-append, length-replicate,
}
use beansdb.Base.Words.{IsByte, to_bytes}
use beansdb.Crc.{crc32}
use beansdb.Crc.Reference.{crc32-IsU32}
use beansdb.Record.{
  DataRecord, Env, decoded, header_size, padding, is_compressed, bad_kv_size, record_length,
  record_body, padding_size, compress_attempt, compress_record, decompress_record,
  decompress_decoded, encode_record, decode_record,
}
use beansdb.Record.Layout.{
  IsWellFormed, take-all, take-prefix, field_at-to_bytes, drop-word, length-record_body,
  record_at-record_body,
}

-- What the library documents of a value that is not empty, and that a size which is not above
-- `try_size * 0.7` is at most `try_size`.
pub record IsFaithful (env : Env) : Type 0 where
  pub size_compressed :
      (v : List ℕ)
      → 0 < length v
      → env.qlz_size_compressed (env.qlz_compress v) ≡ length (env.qlz_compress v)
  pub size_decompressed :
      (v : List ℕ) → 0 < length v → env.qlz_size_decompressed (env.qlz_compress v) ≡ length v
  pub decompress : (v : List ℕ) → 0 < length v → env.qlz_decompress (env.qlz_compress v) ≡ v
  pub bytes : (v : List ℕ) → All IsByte v → All IsByte (env.qlz_compress v)
  pub ratio : (a b : ℕ) → env.above_ratio a b ≡ false → a ≤ b

module _ (env : Env) where
  -- An attempt that covered the whole value is its compression.
  compress_attempt_whole :
      (value : List ℕ)
      → ltb (compress_attempt env value).0 (length value) ≡ false
      → compress_attempt env value ≡ (length value, env.qlz_compress value)
  unfolding compress_attempt
  compress_attempt_whole value h = ground (arith, take-all (length value) value refl)

  -- `decode_record` on the layout of a well-formed record, before decompression.
  pub decode_record_layout :
      (r : DataRecord) (rest : List ℕ) (size : ℕ) (decomp : Bool)
      → IsWellFormed r
      → bad_kv_size r.ksz r.vsz ≡ false
      → header_size + r.ksz + r.vsz ≤ size
      → decode_record env
          (to_bytes 4 (crc32 0 (record_body r)) ++ (record_body r ++ rest))
          size
          decomp
        ≡ (if decomp then decompress_decoded env r else decoded r)
  unfolding decode_record
  decode_record_layout r rest size decomp w good room =
      rw
        (
          record_at-record_body (crc32 0 (record_body r)) r rest w,
          field_at-to_bytes (crc32 0 (record_body r)) (record_body r ++ rest) (crc32-IsU32 0 _),
          drop-word (crc32 0 (record_body r)) (record_body r ++ rest),
          take-prefix (header_size + r.ksz + r.vsz - 4) (record_body r) rest
              (omega (arith, length-record_body r w)),
          good,
        )
        (ground arith)

  abbrev pub packed : DataRecord → DataRecord
  packed r =
      let v = env.qlz_compress r.value in
      record r { value = v; vsz = length v; flag = r.flag + 0x00010000 }

  -- A record is left as it is, or its whole value is compressed, which made it no longer.
  pub compress_record_cases :
      (r : DataRecord)
      → IsFaithful env
      → r.vsz ≡ length r.value
      → (compress_record env r ≡ r)
        ⊎ ((compress_record env r ≡ packed r)
            × (is_compressed r.flag ≡ false)
            × (padding < header_size + r.ksz + r.vsz)
            × (length (env.qlz_compress r.value) ≤ r.vsz))
  unfolding compress_record
  compress_record_cases r f e = ground (
    arith,
    take-all r.vsz r.value e,
    compress_attempt_whole r.value,
    f.ratio (length (env.qlz_compress r.value)) r.vsz,
    e,
  )

  pub packed-IsWellFormed :
      (r : DataRecord)
      → IsFaithful env
      → IsWellFormed r
      → is_compressed r.flag ≡ false
      → length (env.qlz_compress r.value) ≤ r.vsz
      → IsWellFormed (packed r)
  unfolding is_compressed
  packed-IsWellFormed r f w plain short = record {
    tstamp_word = w.tstamp_word;
    flag_word = ground (arith, w.flag_word);
    version_word = w.version_word;
    ksz_word = w.ksz_word;
    vsz_word = omega (arith, w.vsz_word);
    key_size = w.key_size;
    value_size = refl;
    key_bytes = w.key_bytes;
    value_bytes = f.bytes r.value w.value_bytes;
  }

  -- Decompression undoes compression.
  pub decompress_packed :
      (r : DataRecord)
      → IsFaithful env
      → r.vsz ≡ length r.value
      → 0 < r.vsz
      → is_compressed r.flag ≡ false
      → decompress_record env (packed r) ≡ some r
  unfolding decompress_record is_compressed
  decompress_packed r f e pos plain =
      ground
        (arith, f.size_compressed r.value, f.size_decompressed r.value, f.decompress r.value, e)

  pub decompress_plain :
      (r : DataRecord) → is_compressed r.flag ≡ false → decompress_record env r ≡ some r
  unfolding decompress_record
  decompress_plain r plain = rw plain

  -- The bytes of an encoded record are the layout of the compressed record, padded.
  pub encode_record_layout :
      (r c : DataRecord) (rest : List ℕ)
      → compress_record env r ≡ c
      → encode_record env r ++ rest
        ≡ to_bytes 4 (crc32 0 (record_body c))
          ++ (record_body c ++ (replicate (padding_size (header_size + c.ksz + c.vsz)) 0 ++ rest))
  unfolding encode_record to_bytes
  encode_record_layout r c rest e = rw (
    e,
    append_assoc (record_body c) (replicate (padding_size (header_size + c.ksz + c.vsz)) 0) rest,
  )

  -- Where the compressed record is well-formed, its encoding is as long as `record_length` says, and
  -- that is a multiple of 256.
  pub length-encode_record :
      (r : DataRecord)
      → IsWellFormed (compress_record env r)
      → (length (encode_record env r) ≡ record_length (compress_record env r))
        × (length (encode_record env r) % padding ≡ 0)
  unfolding encode_record record_length padding_size to_bytes
  length-encode_record r w =
      let c = compress_record env r in
      let k = padding_size (header_size + c.ksz + c.vsz) in
      ground (
        arith,
        length-append (record_body c) (replicate k 0),
        length-replicate {A = ℕ} k 0,
        length-record_body c w,
      )

  pub record_length_bounds :
      (r : DataRecord)
      → (header_size + r.ksz + r.vsz ≤ record_length r)
        × (record_length r < header_size + r.ksz + r.vsz + padding)
  unfolding record_length
  record_length_bounds r = ground arith

  decompress_decoded_lem :
      (c : DataRecord) {r : DataRecord}
      → decompress_record env c ≡ some r
      → decompress_decoded env c ≡ decoded r
  unfolding decompress_decoded
  decompress_decoded_lem c h = rw (h, decompress_decoded)

  decode_record-compressed :
      (r c : DataRecord) (rest : List ℕ) (size : ℕ)
      → compress_record env r ≡ c
      → IsWellFormed c
      → bad_kv_size c.ksz c.vsz ≡ false
      → decompress_record env c ≡ some r
      → length (encode_record env r) ≤ size
      → decode_record env (encode_record env r ++ rest) size true ≡ decoded r
  decode_record-compressed r c rest size e w good back room =
      rw
        (
          encode_record_layout r c rest e,
          decode_record_layout c _ size true w good (omega (arith, long_enough)),
        )
        (decompress_decoded_lem c back)
    where
      long_enough : header_size + c.ksz + c.vsz ≤ length (encode_record env r)
      long_enough =
          omega
            (arith, record_length_bounds c, (length-encode_record r (rw e w)).0, ap record_length e)

  -- What `encode_record` writes, `decode_record` reads back with the value decompressed, whatever bytes
  -- follow it. The compressor is as documented; the record is well-formed, with legal sizes and
  -- without COMPRESS_FLAG, and it fits a page if its value is empty.
  pub decode_record-encode_record :
      (r : DataRecord) (rest : List ℕ) (size : ℕ)
      → IsFaithful env
      → IsWellFormed r
      → bad_kv_size r.ksz r.vsz ≡ false
      → is_compressed r.flag ≡ false
      → (0 < r.vsz) ⊎ (header_size + r.ksz + r.vsz ≤ padding)
      → length (encode_record env r) ≤ size
      → decode_record env (encode_record env r ++ rest) size true ≡ decoded r
  decode_record-encode_record r rest size f w good plain sized room =
      elim (compress_record_cases r f w.value_size) [
        | inl same ↦
            decode_record-compressed r r rest size same w good (decompress_plain r plain) room
        | inr (pack, _, big, short) ↦
            decode_record-compressed r (packed r) rest size pack
              (packed-IsWellFormed r f w plain short) (unfold bad_kv_size in ground arith)
              (decompress_packed r f w.value_size (ground arith) plain) room
      ]
