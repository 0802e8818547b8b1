-- ===== src/Record.antt =====
-- The records of a data file: src/record.c and src/record.h. A record in memory is a header of 24
-- bytes (crc, tstamp, flag, version, ksz, vsz), the key and the value; in a file it is padded with
-- zeros to a multiple of 256 bytes. Pointers and the ownership of `value` (`free_value`) are not
-- modelled: a value is a list of bytes. Signed fields are held as their bit patterns.
pub mod Layout
pub mod RoundTrip
pub mod Sound
pub mod FastRead
pub mod Stored
use beansdb.Base.{
  ℕ, ◌+◌, ◌-◌, ◌*◌, ◌/◌, ◌%◌, ◌^◌, Bool, true, false, ◌&&◌, ◌||◌, not, Option, none, some, List, [],
  ◌∷◌, ◌++◌, length, take, drop, replicate, ltb, leb, ◌==◌, if◌then◌else◌,
}
use beansdb.Base.Words.{to_bytes, field_at}
use beansdb.Crc.{crc32}

pub record DataRecord : Type 0 where
  pub tstamp : ℕ
  pub flag : ℕ
  pub version : ℕ
  pub ksz : ℕ
  pub vsz : ℕ
  pub key : List ℕ
  pub value : List ℕ

-- What the code calls and this development does not define: the QuickLZ library, and the two
-- comparisons of a size with `try_size * COMPRESS_RATIO_LIMIT` in floating point.
pub record Env : Type 0 where
  pub qlz_compress : List ℕ → List ℕ
  pub qlz_size_compressed : List ℕ → ℕ
  pub qlz_size_decompressed : List ℕ → ℕ
  pub qlz_decompress : List ℕ → List ℕ
  pub below_ratio : ℕ → ℕ → Bool
  pub above_ratio : ℕ → ℕ → Bool

abbrev pub padding : ℕ
padding = 256

abbrev pub max_key_len : ℕ
max_key_len = 250

abbrev pub max_value_len : ℕ
max_value_len = 100 * 1024 * 1024

abbrev pub try_compress_size : ℕ
try_compress_size = 1024 * 10

-- sizeof(DataRecord) - sizeof(char*)
abbrev pub header_size : ℕ
header_size = 24

-- flag & COMPRESS_FLAG, and flag & CLIENT_COMPRESS_FLAG
unfoldable pub is_compressed : ℕ → Bool
is_compressed flag = flag / 0x00010000 % 2 == 1

unfoldable pub is_client_compressed : ℕ → Bool
is_client_compressed flag = flag / 0x00000010 % 2 == 1

unfoldable pub bad_kv_size : ℕ → ℕ → Bool
bad_kv_size ksz vsz = (ksz == 0 || ltb max_key_len ksz) || ltb max_value_len vsz

unfoldable pub record_length : DataRecord → ℕ
record_length r =
    let n = header_size + r.ksz + r.vsz in
    (n / padding + (if n % padding == 0 then 0 else 1)) * padding

pub data BadReason : Type 0 where
  bad_size bad_end bad_crc bad_decompress : BadReason

pub data Decoded : Type 0 where
  decoded : DataRecord → Decoded
  bad : BadReason → Decoded

-- What the checksum covers: all that follows it.
unfoldable pub record_body : DataRecord → List ℕ
record_body r =
    to_bytes 4 r.tstamp
    ++ (to_bytes 4 r.flag
        ++ (to_bytes 4 r.version
            ++ (to_bytes 4 r.ksz
                ++ (to_bytes 4 r.vsz ++ (take r.ksz r.key ++ take r.vsz r.value)))))

-- `m - n` of the source.
unfoldable pub padding_size : ℕ → ℕ
padding_size n = if n % padding == 0 then 0 else padding - n % padding

-- The record at a position in memory, whatever its checksum.
unfoldable pub record_at : List ℕ → DataRecord
record_at buf =
    let ksz = field_at 4 16 buf in
    let vsz = field_at 4 20 buf in
    record {
      tstamp = field_at 4 4 buf;
      flag = field_at 4 8 buf;
      version = field_at 4 12 buf;
      ksz = ksz;
      vsz = vsz;
      key = take ksz (drop header_size buf);
      value = take vsz (drop ksz (drop header_size buf));
    }

module _ (env : Env) where
  open env use {
    qlz_compress, qlz_size_compressed, qlz_size_decompressed, qlz_decompress, below_ratio,
    above_ratio,
  }

  -- The size tried and its outcome: at first 10 K of the value at most, then the whole of it.
  compress_attempt : List ℕ → ℕ × List ℕ
  compress_attempt value =
      let vsz = length value in
      let try_size = if ltb try_compress_size vsz then try_compress_size else vsz in
      let v = qlz_compress (take try_size value) in
      if ltb try_size vsz && below_ratio (length v) try_size
      then (vsz, qlz_compress value)
      else (try_size, v)

  unfoldable pub compress_record : DataRecord → DataRecord
  unfolding compress_attempt
  compress_record r =
      let n = header_size + r.ksz + r.vsz in
      let (try_size, v) = compress_attempt (take r.vsz r.value) in
      if is_compressed r.flag
      then r
      else if ltb padding n && not (is_client_compressed r.flag)
      then (if above_ratio (length v) try_size || ltb try_size r.vsz
          then r
          else record r { value = v; vsz = length v; flag = r.flag + 0x00010000 })
      else r

  unfoldable pub decompress_record : DataRecord → Option DataRecord
  decompress_record r =
      let size = qlz_size_decompressed r.value in
      let v = qlz_decompress r.value in
      if is_compressed r.flag
      then (if not (qlz_size_compressed r.value == r.vsz)
          then none
          else if not (length v == size)
          then none
          else some (record r { value = v; vsz = size; flag = r.flag - 0x00010000 }))
      else some r

  unfoldable pub encode_record : DataRecord → List ℕ
  encode_record r₀ =
      let r = compress_record r₀ in
      let n = header_size + r.ksz + r.vsz in
      let body = record_body r in
      to_bytes 4 (crc32 0 body) ++ (body ++ replicate (padding_size n) 0)

  pub decompress_decoded : DataRecord → Decoded
  decompress_decoded r = elim (decompress_record r) [
    | none ↦ bad bad_decompress
    | some r' ↦ decoded r'
  ]

  -- `buf` is the memory from the pointer on, `size` the number of bytes that may be read there.
  unfoldable pub decode_record : List ℕ → ℕ → Bool → Decoded
  unfolding decompress_decoded
  decode_record buf size decomp =
      let r = record_at buf in
      let need = header_size + r.ksz + r.vsz in
      if bad_kv_size r.ksz r.vsz
      then bad bad_size
      else if ltb size need
      then bad bad_end
      else if not (field_at 4 0 buf == crc32 0 (take (need - 4) (drop 4 buf)))
      then bad bad_crc
      else if decomp
      then decompress_decoded r
      else decoded r
