-- ===== src/Codec/Keys.antt =====
-- `dc_encode` and `dc_decode` of src/codec.c. A char is signed: a code that a format made begins with
-- a byte from 128 on. The buffers have room.
use beansdb.Base.{
  ℕ, zero, suc, ◌+◌, ◌*◌, Bool, false, not, ◌&&◌, Option, none, some, List, [], ◌∷◌, ◌++◌, length,
  get_elem?, leb, ltb, ◌==◌, if◌then◌else◌,
}
use beansdb.Base.Int.{ℤ, pos, negsuc}
use beansdb.Base.Words.{to_bytes, field_at}
use beansdb.Bitcask.{update}
use beansdb.Varint.Old.{encode_varint_old, decode_varint_old}
use beansdb.Codec.{Fmt, Codec, max_dict_size, dict_used, find_slot, dc_enlarge}
use beansdb.Codec.Format.{CLib, parse_fmt}

abbrev pub max_fmt_args : ℕ
max_fmt_args = 2

-- The arguments as they lie in memory.
unfoldable pub args_bytes : List ℕ → List ℕ
args_bytes [] = []
args_bytes (a ∷ args) = to_bytes 4 a ++ args_bytes args

unfoldable pub dc_encode_key_with_fmt : ℕ → List ℕ → List ℕ
unfolding args_bytes
dc_encode_key_with_fmt idx args = encode_varint_old idx ++ args_bytes args

-- A new format: with the next number, or never where the dictionary is full.
unfoldable pub add_format : List ℕ → List ℕ → List ℕ → ℕ → Codec → List ℕ × Codec
unfolding dc_encode_key_with_fmt
add_format src fmt args h dc =
    if ltb (dict_used dc) dc.dict_size
    then (
      dc_encode_key_with_fmt (dict_used dc) args,
      let dc' = record dc {
        dict = dc.dict ++ (record { nargs = length args; fmt = fmt } ∷ []);
        rdict = update dc.rdict h (pos (dict_used dc));
      } in
          if dict_used dc' == dc'.dict_size && ltb dc'.dict_size max_dict_size
          then dc_enlarge dc'
          else dc',
    )
    else (src, record dc { rdict = update dc.rdict h (negsuc 0) })

-- By what the slot of the format holds.
unfoldable pub encode_by : List ℕ → List ℕ → List ℕ → ℕ → ℤ → Codec → List ℕ × Codec
unfolding add_format
encode_by src fmt args h (pos (suc i)) dc = (dc_encode_key_with_fmt (suc i) args, dc)
encode_by src fmt args h (pos zero) dc = add_format src fmt args h dc
encode_by src fmt args h (negsuc n) dc = (src, dc)

unfoldable pub encode_parsed : List ℕ → Option (List ℕ × List ℕ) → Codec → List ℕ × Codec
unfolding encode_by
encode_parsed src none dc = (src, dc)
encode_parsed src (some (fmt, args)) dc =
    if ltb 0 (length args) && leb (length args) max_fmt_args
    then (let h = find_slot dc.rdict_size dc.rdict dc.dict fmt in
        encode_by src fmt args h (dc.rdict h) dc)
    else (src, dc)

-- `src[0] > 0`
abbrev pub starts_plain : List ℕ → Bool
starts_plain [] = false
starts_plain (c ∷ cs) = ltb 0 c && ltb c 128

-- `dict[idx]`, with nothing at 0 and past the end.
abbrev pub dict_at : List Fmt → ℤ → Option Fmt
dict_at dict (pos zero) = none
dict_at dict (pos (suc i)) = get_elem? dict i
dict_at dict (negsuc n) = none

-- The words from an offset on.
unfoldable pub words_at : ℕ → ℕ → List ℕ → List ℕ
words_at zero offset src = []
words_at (suc n) offset src = field_at 4 offset src ∷ words_at n (offset + 4) src

module _ (lib : CLib) where
  unfoldable pub dc_encode : List ℕ → Codec → List ℕ × Codec
  unfolding encode_parsed
  dc_encode src dc =
      if ltb 6 (length src) && ltb (length src) 100 && starts_plain src
      then encode_parsed src (parse_fmt lib src) dc
      else (src, dc)

  unfoldable pub decode_with : Option Fmt → ℕ → List ℕ → List ℕ
  unfolding words_at
  decode_with none intlen src = []
  decode_with (some f) intlen src =
      if not (length src == f.nargs * 4 + intlen)
      then []
      else if ltb 0 f.nargs && leb f.nargs 3
      then lib.snprintf f.fmt (words_at f.nargs intlen src)
      else []

  -- A code that is not valid gives the empty key.
  unfoldable pub dc_decode_key_with_fmt : Codec → List ℕ → List ℕ
  unfolding decode_with
  dc_decode_key_with_fmt dc src = if ltb (length src) 5 then [] else elim (decode_varint_old src) [
    | none ↦ []
    | some (idx, intlen) ↦ decode_with (dict_at dc.dict idx) intlen src
  ]

  unfoldable pub dc_decode : Codec → List ℕ → List ℕ
  unfolding dc_decode_key_with_fmt
  dc_decode dc [] = []
  dc_decode dc (c ∷ cs) = if leb 128 c then dc_decode_key_with_fmt dc (c ∷ cs) else c ∷ cs
