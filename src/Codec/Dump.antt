-- ===== src/Codec/Dump.antt =====
-- `dc_size`, `dc_dump` and `dc_load` of src/codec.c. A buffer is the list of its bytes.
-- A load that fails gives `none`; what it leaves in the codec is not modelled.
use beansdb.Base.{
  ℕ, zero, suc, ◌+◌, ◌-◌, ◌*◌, ◌%◌, min, max, ◌||◌, Option, none, some, List, [], ◌∷◌, ◌++◌, length,
  take, drop, ltb, ◌==◌, if◌then◌else◌,
}
use beansdb.Base.Words.{to_bytes, field_at}
use beansdb.Codec.{Fmt, Codec, max_dict_size, dict_used, dc_rebuild}

-- The number of arguments, the format and its zero byte.
abbrev pub fmt_size : Fmt → ℕ
fmt_size f = length f.fmt + 2

abbrev pub formats_size : List Fmt → ℕ
formats_size [] = 0
formats_size (f ∷ fs) = 1 + fmt_size f + formats_size fs

unfoldable pub dc_size : Codec → ℕ
dc_size dc = 4 + formats_size dc.dict

-- A format as it lies in memory.
abbrev pub fmt_bytes : Fmt → List ℕ
fmt_bytes f = f.nargs ∷ (f.fmt ++ (0 ∷ []))

-- The loop of `dc_dump`, from an offset on.
unfoldable pub dump_formats : ℕ → ℕ → List Fmt → Option (List ℕ)
dump_formats size offset [] = some []
dump_formats size offset (f ∷ fs) =
    let s = fmt_size f % 256 in
    let rest = dump_formats size (offset + 1 + s) fs in
    if ltb size (offset + s + 1)
    then none
    else elim rest [ none ↦ none | some bytes ↦ some (s ∷ (take s (fmt_bytes f) ++ bytes)) ]

-- What is written into a buffer of a size; `none` where it is too small.
unfoldable pub dc_dump : Codec → ℕ → Option (List ℕ)
unfolding dump_formats
dc_dump dc size = if ltb size 4 then none else elim (dump_formats size 4 dc.dict) [
  | none ↦ none
  | some bytes ↦ some (to_bytes 4 (dict_used dc) ++ bytes)
]

-- The chars before the first zero byte. A format that lacks it ends with its bytes.
abbrev pub until_zero : List ℕ → List ℕ
until_zero [] = []
until_zero (c ∷ cs) = if c == 0 then [] else c ∷ until_zero cs

abbrev pub fmt_of : List ℕ → Fmt
fmt_of [] = record { nargs = 0; fmt = [] }
fmt_of (n ∷ cs) = record { nargs = n; fmt = until_zero cs }

-- The loop of `dc_load`.
unfoldable pub load_formats : ℕ → List ℕ → Option (List Fmt)
load_formats zero buf = some []
load_formats (suc n) [] = none
load_formats (suc n) (s ∷ buf) =
    let rest = load_formats n (drop s buf) in
    if ltb (length buf) s
    then none
    else elim rest [ none ↦ none | some fs ↦ some (fmt_of (take s buf) ∷ fs) ]

-- From a buffer that is as long as `size` says. `none` is a failure, and stands for a count that is
-- negative as an int, for which the source asks for gigabytes.
unfoldable pub dc_load : Codec → List ℕ → Option Codec
unfolding load_formats dc_rebuild
dc_load dc buf =
    let used = field_at 4 0 buf in
    if ltb (length buf) 4 || ltb max_dict_size used
    then none
    else elim (load_formats (used - 1) (drop 4 buf)) [
      | none ↦ none
      | some fs ↦ some (
          dc_rebuild
            (record dc { dict_size = max dc.dict_size (min (used * 2) max_dict_size); dict = fs }))
    ]
