-- ===== src/Codec/Loops.antt =====
-- The loops of `dc_encode` of src/codec.c end.
use beansdb.Base.{ℕ, ◌<◌, ◌≡◌, false, some, List, All}
use beansdb.Codec.{Codec, is_other, home, find_slot}
use beansdb.Codec.Format.{CLib, parse_fmt}
use beansdb.Codec.Walk.{walk-lt}
use beansdb.Codec.Table.{find_slot-stops, home-lt}
use beansdb.Codec.Encode.{IsCodec}
use beansdb.Codec.Printing.{IsDocumented, Supported, parse_fmt-total}

module _ (lib : CLib) (doc : IsDocumented lib) where
  find_slot-lt :
      (dc : Codec) (fmt : List ℕ)
      → IsCodec dc
      → find_slot dc.rdict_size dc.rdict dc.dict fmt < dc.rdict_size
  unfolding find_slot
  find_slot-lt dc fmt c =
      walk-lt (λ h. is_other dc.dict fmt (dc.rdict h)) dc.rdict_size dc.rdict_size
        (home dc.rdict_size fmt) (home-lt dc.rdict_size dc.rdict dc.dict c.table fmt)

  -- The loops of dc_encode end: with its length as fuel parse_fmt gives a format for every key
  -- without "%", "@" and ":", and in a codec in order the search for the format, with as many
  -- rounds as there are slots, stops within the table, at a slot that holds the format or none. The
  -- C library prints numbers as documented.
  pub parse_fmt-find_slot :
      (src : List ℕ) (dc : Codec)
      → All Supported src
      → IsCodec dc
      → (fmt : List ℕ) × (args : List ℕ) × (parse_fmt lib src ≡ some (fmt, args))
        × (is_other dc.dict fmt (dc.rdict (find_slot dc.rdict_size dc.rdict dc.dict fmt)) ≡ false)
        × (find_slot dc.rdict_size dc.rdict dc.dict fmt < dc.rdict_size)
  parse_fmt-find_slot src dc ok c =
      let ((fmt, args), e) = parse_fmt-total lib doc src ok in
      (
        fmt,
        args,
        e,
        find_slot-stops dc.rdict_size dc.rdict dc.dict c.table fmt,
        find_slot-lt dc fmt c,
      )
