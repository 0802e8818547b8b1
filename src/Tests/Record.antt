-- ===== src/Tests/Record.antt =====
-- The records of src/record.c on concrete bytes, with a compressor that keeps a value as it is.
use beansdb.Base.{
  ℕ, zero, suc, ◌≡◌, refl, inl, ◌↔◌, arith, true, false, List, [], ◌∷◌, ◌++◌, length, replicate,
  drop, ltb, All, All-append,
}
use beansdb.Base.Words.{IsByte, of_bytes, field_at}
use beansdb.Crc.{crc32}
use beansdb.Record.{
  DataRecord, Env, decoded, bad, bad_crc, bad_kv_size, is_compressed, is_client_compressed,
  record_at, decompress_record, compress_record, encode_record, decode_record,
}
use beansdb.Record.Layout.{IsWellFormed}
use beansdb.Record.RoundTrip.{IsFaithful, decode_record-encode_record}
use beansdb.Record.Sound.{IsImage, decode_record_iff}
use beansdb.Record.FastRead.{fast_read_record, to_option}
use beansdb.Record.FastRead.Agrees.{fast_read_record-eq-decode_record}

abbrev pub store_env : Env
store_env = record {
  qlz_compress = λ v. v;
  qlz_size_compressed = λ v. length v;
  qlz_size_decompressed = λ v. length v;
  qlz_decompress = λ v. v;
  below_ratio = λ a b. ltb a b;
  above_ratio = λ a b. ltb b a;
}

pub store_env-IsFaithful : IsFaithful store_env
store_env-IsFaithful = record {
  size_compressed = λ v h. refl;
  size_decompressed = λ v h. refl;
  decompress = λ v h. refl;
  bytes = λ v h. h;
  ratio = λ a b h. ground arith;
}

All-replicate : (n x : ℕ) → IsByte x → All IsByte (replicate n x)
All-replicate zero x h = tt
All-replicate (suc n) x h = (h, All-replicate n x h)

-- A record that is longer than one page, so that its value is compressed.
abbrev long_record : DataRecord
long_record = record {
  tstamp = 1600000000;
  flag = 0;
  version = 1;
  ksz = 1;
  vsz = 300;
  key = 107 ∷ [];
  value = replicate 300 7;
}

long_record-IsWellFormed : IsWellFormed long_record
long_record-IsWellFormed = record {
  tstamp_word = ground arith;
  flag_word = ground arith;
  version_word = ground arith;
  ksz_word = ground arith;
  vsz_word = ground arith;
  key_size = refl;
  value_size = refl;
  key_bytes = ground arith;
  value_bytes = All-replicate 300 7 (ground arith);
}

packed_record-IsWellFormed : IsWellFormed (compress_record store_env long_record)
unfolding compress_record is_compressed is_client_compressed
packed_record-IsWellFormed = record {
  tstamp_word = ground arith;
  flag_word = ground arith;
  version_word = ground arith;
  ksz_word = ground arith;
  vsz_word = ground arith;
  key_size = refl;
  value_size = refl;
  key_bytes = ground arith;
  value_bytes = All-replicate 300 7 (ground arith);
}

decode_record-encode_record_example :
    decode_record store_env
      (encode_record store_env long_record ++ 1 ∷ 2 ∷ [])
      (length (encode_record store_env long_record))
      true
    ≡ decoded long_record
decode_record-encode_record_example =
    decode_record-encode_record store_env long_record (1 ∷ 2 ∷ [])
      (length (encode_record store_env long_record)) store_env-IsFaithful long_record-IsWellFormed
      (unfold bad_kv_size in refl) (unfold is_compressed in refl) (inl (ground arith)) (omega arith)

-- The image of a record with the key "k" and the value "hi".
abbrev image : List ℕ
image =
    41 ∷ 79 ∷ 30 ∷ 44 ∷ 0 ∷ 16 ∷ 94 ∷ 95 ∷ 0 ∷ 0 ∷ 0 ∷ 0 ∷ 1 ∷ 0 ∷ 0 ∷ 0 ∷ 1 ∷ 0 ∷ 0 ∷ 0 ∷ 2 ∷ 0 ∷ 0
    ∷ 0 ∷ 107 ∷ 104 ∷ 105 ∷ []

image-IsByte : All IsByte image
image-IsByte = ground arith

abbrev short_record : DataRecord
short_record = record {
  tstamp = 1600000000;
  flag = 0;
  version = 1;
  ksz = 1;
  vsz = 2;
  key = 107 ∷ [];
  value = 104 ∷ 105 ∷ [];
}

decode_record_image : decode_record store_env image 27 true ≡ decoded short_record
unfolding decode_record bad_kv_size record_at field_at of_bytes crc32 decompress_record
    is_compressed
decode_record_image = refl

decode_record_broken : decode_record store_env (0 ∷ drop 1 image) 27 true ≡ bad bad_crc
unfolding decode_record bad_kv_size record_at field_at of_bytes crc32
decode_record_broken = refl

decode_record_iff_example :
    (decode_record store_env image 27 false ≡ decoded short_record) ↔ IsImage image 27 short_record
decode_record_iff_example =
    decode_record_iff store_env image 27 image-IsByte short_record (ground arith)

abbrev file : List ℕ
file = replicate 256 0 ++ (image ++ replicate 229 0)

file-IsByte : All IsByte file
file-IsByte =
    All-append IsByte (replicate 256 0) (image ++ replicate 229 0)
      (All-replicate 256 0 (ground arith))
      (All-append IsByte image (replicate 229 0) image-IsByte (All-replicate 229 0 (ground arith)))

fast_read_record-eq-decode_record_example :
    fast_read_record store_env file 256 true
    ≡ to_option (decode_record store_env (drop 256 file) (length (drop 256 file)) true)
fast_read_record-eq-decode_record_example =
    fast_read_record-eq-decode_record store_env file 256 true file-IsByte (ground arith)
