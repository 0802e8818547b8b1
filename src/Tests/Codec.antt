-- ===== src/Tests/Codec.antt =====
-- The key codec of src/codec.c with a C library, on the key "/note/1234/ab12cd".
use mathlib.Core.List.{append-nil}
use beansdb.Base.{
  false, ℕ, ◌<◌, ◌≡◌, refl, sym, arith, none, some, List, [], ◌∷◌, length, take, All,
}
use beansdb.Base.Words.{to_bytes}
use beansdb.Codec.{Codec, dc_new, find_slot, is_other}
use beansdb.Codec.Format.{parse_fmt}
use beansdb.Codec.Keys.{dc_encode, dc_decode, encode_parsed}
use beansdb.Codec.Encode.{IsChar, IsCodec, Extends, dc_new-IsCodec}
use beansdb.Codec.RoundTrip.{dc_encode-IsCodec, dc_decode-dc_encode}
use beansdb.Codec.Stable.{dc_encode-stable}
use beansdb.Codec.Loops.{parse_fmt-find_slot}
use beansdb.Codec.Dump.{dc_size, dc_dump, dc_load}
use beansdb.Codec.Reload.{dc_load-dc_dump}
use beansdb.Codec.Truncated.{dc_load-truncated}
use beansdb.Codec.Printing.{Supported}
use beansdb.Tests.Clib.{c_lib, c_lib-IsDocumented, read_number, digit_value}

abbrev note : List ℕ
note = 47 ∷ 110 ∷ 111 ∷ 116 ∷ 101 ∷ 47 ∷ 49 ∷ 50 ∷ 51 ∷ 52 ∷ 47 ∷ 97 ∷ 98 ∷ 49 ∷ 50 ∷ 99 ∷ 100 ∷ []

abbrev noted : Codec
noted = (dc_encode c_lib note dc_new).1

note-parsed :
    parse_fmt c_lib note
    ≡ some (47 ∷ 110 ∷ 111 ∷ 116 ∷ 101 ∷ 47 ∷ 37 ∷ 100 ∷ 47 ∷ 37 ∷ 120 ∷ [], 1234 ∷ 11211469 ∷ [])
unfolding parse_fmt read_number digit_value
note-parsed = refl

note-chars : All IsChar note
note-chars = ground arith

dc_encode-IsCodec_example : IsCodec noted × Extends dc_new.dict noted.dict
dc_encode-IsCodec_example =
    dc_encode-IsCodec c_lib c_lib-IsDocumented note note-chars dc_new dc_new-IsCodec

dc_decode-dc_encode_example : dc_decode c_lib noted (dc_encode c_lib note dc_new).0 ≡ note
dc_decode-dc_encode_example =
    dc_decode-dc_encode c_lib c_lib-IsDocumented note note-chars dc_new noted dc_new-IsCodec refl
      ([], sym (append-nil noted.dict))

noted-IsCodec : IsCodec noted
noted-IsCodec = (dc_encode-IsCodec c_lib c_lib-IsDocumented note note-chars dc_new dc_new-IsCodec).0

dc_encode-stable_example : (dc_encode c_lib note noted).0 ≡ (dc_encode c_lib note dc_new).0
dc_encode-stable_example =
    dc_encode-stable c_lib c_lib-IsDocumented note dc_new noted note-chars dc_new-IsCodec
      noted-IsCodec ([], sym (append-nil noted.dict))

dc_load-dc_dump_example :
    (bytes : List ℕ) × (dc' : Codec) × (dc_dump noted (dc_size noted) ≡ some bytes)
    × (length bytes ≡ dc_size noted)
    × (dc_load dc_new bytes ≡ some dc')
    × (dc'.dict ≡ noted.dict)
    × IsCodec dc'
dc_load-dc_dump_example = dc_load-dc_dump dc_new noted dc_new-IsCodec noted-IsCodec

-- The number 2 that comes next, and the format "/note/%d/%x" with its size and its two arguments.
abbrev saved : List ℕ
saved = 2 ∷ 0 ∷ 0 ∷ 0 ∷ 13 ∷ 2 ∷ 47 ∷ 110 ∷ 111 ∷ 116 ∷ 101 ∷ 47 ∷ 37 ∷ 100 ∷ 47 ∷ 37 ∷ 120 ∷ 0 ∷ []

noted-saved : dc_dump noted (dc_size noted) ≡ some saved
unfolding dc_dump dc_size dc_encode encode_parsed parse_fmt find_slot dc_new read_number digit_value
    to_bytes
noted-saved = refl

noted-size : 17 < dc_size noted
unfolding dc_dump dc_size dc_encode encode_parsed parse_fmt find_slot dc_new read_number digit_value
noted-size = ground arith

dc_load-truncated_example : dc_load dc_new (take 17 saved) ≡ none
dc_load-truncated_example =
    dc_load-truncated dc_new noted saved 17 noted-IsCodec noted-saved noted-size

note-Supported : All Supported note
note-Supported = ground arith

parse_fmt-find_slot_example :
    (fmt : List ℕ) × (args : List ℕ) × (parse_fmt c_lib note ≡ some (fmt, args))
    × (is_other noted.dict fmt (noted.rdict (find_slot noted.rdict_size noted.rdict noted.dict fmt))
        ≡ false)
    × (find_slot noted.rdict_size noted.rdict noted.dict fmt < noted.rdict_size)
parse_fmt-find_slot_example =
    parse_fmt-find_slot c_lib c_lib-IsDocumented note noted note-Supported noted-IsCodec
