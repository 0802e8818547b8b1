-- ===== src/Codec/Reload.antt =====
-- `dc_load` of src/codec.c on what `dc_dump` wrote.
use beansdb.Base.{
  ℕ, suc, ◌+◌, ◌-◌, ◌*◌, ◌%◌, ◌≤◌, ◌≡◌, refl, sym, ap, ◌∙◌, arith, min, max, false, ◌||◌, some,
  List, [], ◌∷◌, ◌++◌, length, length-append, take, drop, take-append, drop-append, All, ltb,
}
use beansdb.Base.Words.{to_bytes, of_bytes, field_at, length-to_bytes, of_bytes-to_bytes}
use beansdb.Base.Slices.{take-of_length_le}
use beansdb.Codec.{Fmt, Codec, max_dict_size, dict_used, dc_rebuild}
use beansdb.Codec.Encode.{IsChar, IsFmt, IsCodec}
use beansdb.Codec.Table.{IsTable-IsDistinct}
use beansdb.Codec.Rebuild.{dc_rebuild-IsTable, dc_rebuild-IsFresh}
use beansdb.Codec.Dump.{
  fmt_size, formats_size, dc_size, fmt_bytes, dump_formats, dc_dump, until_zero, fmt_of,
  load_formats, dc_load,
}

-- The image of the formats.
abbrev pub image : List Fmt → List ℕ
image [] = []
image (f ∷ fs) = fmt_size f ∷ (fmt_bytes f ++ image fs)

pub length-fmt_bytes : (f : Fmt) → length (fmt_bytes f) ≡ fmt_size f
length-fmt_bytes f = omega (arith, length-append f.fmt (0 ∷ []))

pub length-image : (fs : List Fmt) → length (image fs) ≡ formats_size fs
length-image [] = refl
length-image (f ∷ fs) =
    omega (arith, length-append (fmt_bytes f) (image fs), length-fmt_bytes f, length-image fs)

until_zero-append : (cs : List ℕ) → All IsChar cs → until_zero (cs ++ (0 ∷ [])) ≡ cs
until_zero-append [] h = refl
until_zero-append (c ∷ cs) h = ground (arith, h.0, until_zero-append cs h.1)

fmt_of-fmt_bytes : (f : Fmt) → IsFmt f → fmt_of (fmt_bytes f) ≡ f
fmt_of-fmt_bytes f h =
    ap (λ (cs : List ℕ). record { nargs = f.nargs; fmt = cs }) (until_zero-append f.fmt h.chars)

dump_formats-image :
    (size offset : ℕ) (fs : List Fmt)
    → All IsFmt fs
    → offset + formats_size fs ≤ size
    → dump_formats size offset fs ≡ some (image fs)
unfolding dump_formats
dump_formats-image size offset [] h k = refl
dump_formats-image size offset (f ∷ fs) h k =
    let s = fmt_size f % 256 in
    let whole : s ≡ fmt_size f = omega (arith, h.0.short) in
    let fits : ltb size (offset + s + 1) ≡ false = ground (arith, k, whole) in
    let rest : dump_formats size (offset + 1 + s) fs ≡ some (image fs) =
      dump_formats-image size (offset + 1 + s) fs h.1 (omega (arith, k, whole)) in
    rw (fits, rest)
      (ap (λ (n : ℕ). some (n ∷ (take n (fmt_bytes f) ++ image fs))) whole
        ∙ ap (λ (bytes : List ℕ). some (fmt_size f ∷ (bytes ++ image fs)))
            (take-of_length_le (fmt_size f) (fmt_bytes f) (omega (arith, length-fmt_bytes f))))

load_formats-image : (fs : List Fmt) → All IsFmt fs → load_formats (length fs) (image fs) ≡ some fs
unfolding load_formats
load_formats-image [] h = refl
load_formats-image (f ∷ fs) h =
    let n : length (fmt_bytes f) ≡ fmt_size f = length-fmt_bytes f in
    let enough : ltb (length (fmt_bytes f ++ image fs)) (fmt_size f) ≡ false =
      ground (arith, n, length-append (fmt_bytes f) (image fs)) in
    let rest : load_formats (length fs) (drop (fmt_size f) (fmt_bytes f ++ image fs)) ≡ some fs =
      ap (λ (k : ℕ). load_formats (length fs) (drop k (fmt_bytes f ++ image fs))) (sym n)
      ∙ ap (load_formats (length fs)) (drop-append (fmt_bytes f) (image fs))
      ∙ load_formats-image fs h.1 in
    let first : fmt_of (take (fmt_size f) (fmt_bytes f ++ image fs)) ≡ f =
      ap (λ (k : ℕ). fmt_of (take k (fmt_bytes f ++ image fs))) (sym n)
      ∙ ap fmt_of (take-append (fmt_bytes f) (image fs))
      ∙ fmt_of-fmt_bytes f h.0 in
    rw (enough, rest) (ap (λ (g : Fmt). some (g ∷ fs)) first)

-- dc_dump fills the size that dc_size gives, with a count and the formats.
pub dc_dump-image :
    (dc : Codec)
    → IsCodec dc
    → dc_dump dc (dc_size dc) ≡ some (to_bytes 4 (dict_used dc) ++ image dc.dict)
unfolding dc_dump dc_size
dc_dump-image dc c =
    rw (dump_formats-image (4 + formats_size dc.dict) 4 dc.dict c.formats (omega arith))
      (ground arith)

abbrev reloaded : Codec → List Fmt → Codec
reloaded dc fs = record dc {
  dict_size = max dc.dict_size (min (suc (length fs) * 2) max_dict_size);
  dict = fs;
}

dc_load-used :
    (fresh : Codec) (buf : List ℕ) (fs : List Fmt)
    → field_at 4 0 buf ≡ suc (length fs)
    → 4 ≤ length buf
    → suc (length fs) ≤ max_dict_size
    → load_formats (suc (length fs) - 1) (drop 4 buf) ≡ some fs
    → dc_load fresh buf ≡ some (dc_rebuild (reloaded fresh fs))
unfolding dc_load
dc_load-used fresh buf fs e long few loads =
    let fits : (ltb (length buf) 4 || ltb max_dict_size (suc (length fs))) ≡ false =
      ground (arith, long, few) in
    rw (e, fits, loads)
      (ap
        (λ (used : ℕ). some (
          dc_rebuild (record fresh {
            dict_size = max fresh.dict_size (min (used * 2) max_dict_size);
            dict = fs;
          })))
        e)

dc_load-image :
    (fresh dc : Codec)
    → IsCodec dc
    → dc_load fresh (to_bytes 4 (dict_used dc) ++ image dc.dict)
      ≡ some (dc_rebuild (reloaded fresh dc.dict))
unfolding field_at
dc_load-image fresh dc c =
    let head = to_bytes 4 (dict_used dc) in
    let n : length head ≡ 4 = length-to_bytes 4 (dict_used dc) in
    let few : dict_used dc ≤ max_dict_size = omega (arith, c.space, c.bounded) in
    dc_load-used fresh (head ++ image dc.dict) dc.dict
      (ap (λ (k : ℕ). of_bytes (take k (head ++ image dc.dict))) (sym n)
        ∙ ap of_bytes (take-append head (image dc.dict))
        ∙ of_bytes-to_bytes 4 (dict_used dc) (omega (arith, few)))
      (omega (arith, n, length-append head (image dc.dict))) few
      (ap (λ (k : ℕ). load_formats k (drop 4 (head ++ image dc.dict))) (omega arith)
        ∙ ap (λ (k : ℕ). load_formats (length dc.dict) (drop k (head ++ image dc.dict))) (sym n)
        ∙ ap (load_formats (length dc.dict)) (drop-append head (image dc.dict))
        ∙ load_formats-image dc.dict c.formats)

dc_rebuild-IsCodec :
    (fresh dc : Codec) → IsCodec fresh → IsCodec dc → IsCodec (dc_rebuild (reloaded fresh dc.dict))
unfolding dc_rebuild
dc_rebuild-IsCodec fresh dc f c =
    let r = reloaded fresh dc.dict in
    record {
      table =
          dc_rebuild-IsTable r (IsTable-IsDistinct dc.rdict_size dc.rdict dc.dict c.table)
            (omega (arith, c.space, c.bounded));
      sizes = refl;
      bounded = omega (arith, f.bounded);
      space = ground (arith, c.space, c.bounded, f.bounded);
      skips = λ h k e. absurd (dc_rebuild-IsFresh r h k e);
      formats = c.formats;
    }

-- A codec in order is saved in the size that dc_size gives, and what dc_dump wrote loads into any
-- codec in order, with the same dictionary and in order again.
pub dc_load-dc_dump :
    (fresh dc : Codec)
    → IsCodec fresh
    → IsCodec dc
    → (bytes : List ℕ) × (dc' : Codec) × (dc_dump dc (dc_size dc) ≡ some bytes)
      × (length bytes ≡ dc_size dc)
      × (dc_load fresh bytes ≡ some dc')
      × (dc'.dict ≡ dc.dict)
      × IsCodec dc'
unfolding dc_size dc_rebuild
dc_load-dc_dump fresh dc f c = (
  to_bytes 4 (dict_used dc) ++ image dc.dict,
  dc_rebuild (reloaded fresh dc.dict),
  dc_dump-image dc c,
  omega (
    arith,
    length-append (to_bytes 4 (dict_used dc)) (image dc.dict),
    length-to_bytes 4 (dict_used dc),
    length-image dc.dict,
  ),
  dc_load-image fresh dc c,
  refl,
  dc_rebuild-IsCodec fresh dc f c,
)
