-- ===== src/Record/Sound.antt =====
-- What `decode_record` of src/record.c accepts, and why it refuses the rest.
use mathlib.Core.Path.{ap₂, subst}
use mathlib.Core.List.{append_assoc}
use beansdb.Base.{
  ◌↔◌, take-append-drop, ℕ, ◌+◌, ◌-◌, ◌≤◌, ◌≡◌, sym, ap, ◌∙◌, arith, false, List, ◌++◌, length,
  take, drop, All, length-take, length-drop,
}
use beansdb.Base.Words.{IsByte, to_bytes, field_at}
use beansdb.Base.Slices.{
  take-add, take-take, slice-join, All-take, All-drop, to_bytes-field_at, field_at-lt,
}
use beansdb.Crc.{crc32}
use beansdb.Record.{
  DataRecord, Env, decoded, header_size, bad_kv_size, max_key_len, max_value_len, record_body,
  record_at, decode_record,
}
use beansdb.Record.Layout.{IsWellFormed}
use beansdb.Record.RoundTrip.{decode_record_layout}

module _ (buf : List ℕ) (bytes : All IsByte buf) where
  abbrev r : DataRecord
  r = record_at buf

  module _ (room : header_size + r.ksz + r.vsz ≤ length buf) where
    pub record_at-IsWellFormed : IsWellFormed r
    unfolding record_at
    record_at-IsWellFormed = record {
      tstamp_word = field_at-lt 4 buf bytes 4;
      flag_word = field_at-lt 8 buf bytes 4;
      version_word = field_at-lt 12 buf bytes 4;
      ksz_word = field_at-lt 16 buf bytes 4;
      vsz_word = field_at-lt 20 buf bytes 4;
      key_size = omega (
        arith,
        length-take (field_at 4 16 buf) (drop header_size buf),
        length-drop header_size buf,
        room,
      );
      value_size = omega (
        arith,
        length-take (field_at 4 20 buf) (drop (field_at 4 16 buf) (drop header_size buf)),
        length-drop (field_at 4 16 buf) (drop header_size buf),
        length-drop header_size buf,
        room,
      );
      key_bytes = All-take IsByte _ _ (All-drop IsByte header_size buf bytes);
      value_bytes =
          All-take IsByte _ _ (All-drop IsByte _ _ (All-drop IsByte header_size buf bytes));
    }

    -- The layout of the record at a position is the bytes that stand there.
    pub record_body-record_at : record_body r ≡ take (20 + r.ksz + r.vsz) (drop 4 buf)
    unfolding record_body record_at
    record_body-record_at =
        let k = field_at 4 16 buf in
        let v = field_at 4 20 buf in
        let behind = drop header_size buf in
        rw
          (
            to_bytes-field_at 4 buf bytes 4 (omega (arith, room)),
            to_bytes-field_at 8 buf bytes 4 (omega (arith, room)),
            to_bytes-field_at 12 buf bytes 4 (omega (arith, room)),
            to_bytes-field_at 16 buf bytes 4 (omega (arith, room)),
            to_bytes-field_at 20 buf bytes 4 (omega (arith, room)),
            take-take k k behind (omega arith),
            take-take v v (drop k behind) (omega arith),
            ← take-add k v behind,
            slice-join 20 4 (k + v) buf,
            slice-join 16 4 (4 + (k + v)) buf,
            slice-join 12 4 (4 + (4 + (k + v))) buf,
            slice-join 8 4 (4 + (4 + (4 + (k + v)))) buf,
            slice-join 4 4 (4 + (4 + (4 + (4 + (k + v))))) buf,
          )
          (ap (λ (m : ℕ). take m (drop 4 buf)) (omega arith))

-- The image of a record stands at the front of the buffer: the sizes are within their limits, it
-- fits the `size` bytes, and the checksum in front is that of what follows it.
pub record IsImage (buf : List ℕ) (size : ℕ) (r : DataRecord) : Type 0 where
  pub well_formed : IsWellFormed r
  pub key_not_empty : 1 ≤ r.ksz
  pub key_limit : r.ksz ≤ max_key_len
  pub value_limit : r.vsz ≤ max_value_len
  pub fits : header_size + r.ksz + r.vsz ≤ size
  pub image :
      take (header_size + r.ksz + r.vsz) buf ≡ to_bytes 4 (crc32 0 (record_body r)) ++ record_body r

module _ (env : Env) (buf : List ℕ) (size : ℕ) (bytes : All IsByte buf) where
  decoded_checks :
      (r : DataRecord)
      → decode_record env buf size false ≡ decoded r
      → (r ≡ record_at buf)
        × (bad_kv_size r.ksz r.vsz ≡ false)
        × (header_size + r.ksz + r.vsz ≤ size)
        × (field_at 4 0 buf ≡ crc32 0 (take (header_size + r.ksz + r.vsz - 4) (drop 4 buf)))
  unfolding decode_record
  decoded_checks r h = ground arith

  IsImage-at :
      let r = record_at buf in
      header_size + r.ksz + r.vsz ≤ length buf
      → bad_kv_size r.ksz r.vsz ≡ false
      → header_size + r.ksz + r.vsz ≤ size
      → field_at 4 0 buf ≡ crc32 0 (take (header_size + r.ksz + r.vsz - 4) (drop 4 buf))
      → IsImage buf size r
  unfolding bad_kv_size
  IsImage-at room good fits crc =
      let r = record_at buf in
      let body = record_body-record_at buf bytes room in
      let n = 20 + r.ksz + r.vsz in
      let checked : to_bytes 4 (crc32 0 (record_body r)) ≡ take 4 (drop 0 buf) =
        ap (to_bytes 4)
          (ap (crc32 0) (body ∙ ap (λ (m : ℕ). take m (drop 4 buf)) (omega arith)) ∙ sym crc)
        ∙ to_bytes-field_at 0 buf bytes 4 (omega (arith, room)) in
      record {
        well_formed = record_at-IsWellFormed buf bytes room;
        key_not_empty = ground arith;
        key_limit = ground arith;
        value_limit = ground arith;
        fits = fits;
        image =
            ap (λ (m : ℕ). take m buf) (omega arith)
            ∙ sym (ap₂ ◌++◌ checked body ∙ slice-join 0 4 n buf);
      }

  IsImage-of :
      (r : DataRecord)
      → size ≤ length buf
      → decode_record env buf size false ≡ decoded r
      → IsImage buf size r
  IsImage-of r room h =
      let (e, good, fits, crc) = decoded_checks r h in
      subst (IsImage buf size) (sym e)
        (IsImage-at (omega (arith, rw e at fits)) (rw e at good) (rw e at fits) (rw e at crc))

  decoded_of : (r : DataRecord) → IsImage buf size r → decode_record env buf size false ≡ decoded r
  decoded_of r i =
      let n = header_size + r.ksz + r.vsz in
      let crc = to_bytes 4 (crc32 0 (record_body r)) in
      let whole : crc ++ (record_body r ++ drop n buf) ≡ buf =
        sym (append_assoc crc (record_body r) (drop n buf))
        ∙ ap (λ (x : List ℕ). x ++ drop n buf) (sym i.image)
        ∙ take-append-drop n buf in
      subst (λ (b : List ℕ). decode_record env b size false ≡ decoded r) whole
        (decode_record_layout env r (drop n buf) size false i.well_formed good i.fits)
    where
      good : bad_kv_size r.ksz r.vsz ≡ false
      good = unfold bad_kv_size in ground (arith, i.key_not_empty, i.key_limit, i.value_limit)

  -- On a buffer of bytes that holds all of the `size` bytes, `decode_record` without decompression
  -- returns a record exactly when its image stands at the front of the buffer.
  pub decode_record_iff :
      (r : DataRecord)
      → size ≤ length buf
      → (decode_record env buf size false ≡ decoded r) ↔ IsImage buf size r
  decode_record_iff r room = (IsImage-of r room, decoded_of r)
