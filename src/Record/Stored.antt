-- ===== src/Record/Stored.antt =====
-- A legal record of src/record.c is read back wherever its bytes stand, from memory and from a file.
use beansdb.Base.{
  ℕ, zero, suc, ◌+◌, ◌%◌, ◌≤◌, ◌<◌, ◌≡◌, refl, ap, ◌∙◌, arith, true, false, ◌⊎◌, inl, inr, some,
  List, ◌++◌, length, replicate, drop, All, All-append, length-append,
}
use beansdb.Base.Words.{IsByte, to_bytes, to_bytes-IsByte}
use beansdb.Crc.{crc32}
use beansdb.Record.{
  DataRecord, Env, header_size, padding, is_compressed, bad_kv_size, record_length, record_body,
  padding_size, compress_record, encode_record, decode_record,
}
use beansdb.Record.Layout.{IsWellFormed, record_body-IsByte}
use beansdb.Record.RoundTrip.{
  IsFaithful, packed, compress_record_cases, packed-IsWellFormed, record_length_bounds,
  length-encode_record, decode_record-encode_record,
}
use beansdb.Record.FastRead.{fast_read_record, to_option}
use beansdb.Record.FastRead.Agrees.{fast_read_record-eq-decode_record}

-- What the round trip asks of a record.
pub record IsLegal (r : DataRecord) : Type 0 where
  pub well_formed : IsWellFormed r
  pub good : bad_kv_size r.ksz r.vsz ≡ false
  pub plain : is_compressed r.flag ≡ false
  pub sized : (0 < r.vsz) ⊎ (header_size + r.ksz + r.vsz ≤ padding)

replicate-IsByte : (n : ℕ) → All IsByte (replicate n 0)
replicate-IsByte zero = tt
replicate-IsByte (suc n) = (omega arith, replicate-IsByte n)

module _ (env : Env) (f : IsFaithful env) (r : DataRecord) (l : IsLegal r) where
  compress_record-IsWellFormed : IsWellFormed (compress_record env r)
  compress_record-IsWellFormed = elim (compress_record_cases env r f l.well_formed.value_size) [
    | inl same ↦ rw same l.well_formed
    | inr (pack, plain, big, short) ↦
        rw pack (packed-IsWellFormed env r f l.well_formed plain short)
  ]

  pub length-encode_record_pages :
      (padding ≤ length (encode_record env r)) × (length (encode_record env r) % padding ≡ 0)
  length-encode_record_pages =
      let c = compress_record env r in
      let n = length-encode_record env r compress_record-IsWellFormed in
      (omega (arith, n.0, n.1, record_length_bounds env c), n.1)

  pub length-encode_record_le : length (encode_record env r) < header_size + r.ksz + r.vsz + padding
  length-encode_record_le =
      let n = length-encode_record env r compress_record-IsWellFormed in
      elim (compress_record_cases env r f l.well_formed.value_size) [
        | inl same ↦ omega (arith, n.0, ap record_length same, record_length_bounds env r)
        | inr (pack, plain, big, short) ↦
            omega
              (arith, n.0, ap record_length pack, record_length_bounds env (packed env r), short)
      ]

  pub encode_record-IsByte : All IsByte (encode_record env r)
  unfolding encode_record
  encode_record-IsByte =
      let c = compress_record env r in
      All-append IsByte (to_bytes 4 (crc32 0 (record_body c))) _ (to_bytes-IsByte 4 _) (
        All-append IsByte (record_body c) _ (record_body-IsByte c compress_record-IsWellFormed)
          (replicate-IsByte (padding_size (header_size + c.ksz + c.vsz))))

  pub decode_record_here :
      (buf rest : List ℕ) (size : ℕ)
      → buf ≡ encode_record env r ++ rest
      → size ≡ length buf
      → to_option (decode_record env buf size true) ≡ some r
  decode_record_here buf rest size e s = rw e (
      ap to_option (
        decode_record-encode_record env r rest size f l.well_formed l.good l.plain l.sized
          (omega (arith, s, ap length e, length-append (encode_record env r) rest))))

  pub fast_read_record_here :
      (file rest : List ℕ) (place : ℕ)
      → All IsByte file
      → drop place file ≡ encode_record env r ++ rest
      → fast_read_record env file place true ≡ some r
  fast_read_record_here file rest place bytes e =
      fast_read_record-eq-decode_record env file place true bytes (
        omega (
          arith,
          ap length e,
          length-append (encode_record env r) rest,
          length-encode_record_pages.0,
        ))
      ∙ decode_record_here (drop place file) rest (length (drop place file)) e refl
