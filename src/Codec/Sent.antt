-- ===== src/Codec/Sent.antt =====
-- What `dc_encode` of src/codec.c makes of a key.
use beansdb.Base.{
  ℕ, ◌≤◌, ◌<◌, ◌≡◌, refl, arith, Bool, true, ◌⊎◌, inl, inr, ◌&&◌, some, List, length, All, leb, ltb,
  Bool-cases, Option-cases,
}
use beansdb.Codec.{Codec, find_slot}
use beansdb.Codec.Format.{CLib, parse_fmt}
use beansdb.Codec.Keys.{dc_encode, encode_parsed, starts_plain}
use beansdb.Codec.Encode.{IsChar, IsFmt, IsCodec, Encoded, encode_by-Encoded}
use beansdb.Codec.Printing.{IsDocumented, Parsed, parse_fmt-Parsed}

-- A key that is taken apart, in every codec with the same format and arguments.
pub record Split (lib : CLib) (src : List ℕ) : Type 0 where
  pub fmt : List ℕ
  pub args : List ℕ
  pub parsed : Parsed lib src fmt args
  pub has_args : 0 < length args
  pub few_args : length args ≤ 2
  pub encoded :
      (dc : Codec)
      → IsCodec dc
      → Encoded src fmt args dc (dc_encode lib src dc).0 (dc_encode lib src dc).1

-- A key that no codec takes apart.
abbrev pub IsPlain : CLib → List ℕ → Type 0
IsPlain lib src = (dc : Codec) → dc_encode lib src dc ≡ (src, dc)

module _ (lib : CLib) (doc : IsDocumented lib) (src : List ℕ) (chars : All IsChar src) where
  abbrev guard : Bool
  guard = ltb 6 (length src) && ltb (length src) 100 && starts_plain src

  few : List ℕ → Bool
  few args = ltb 0 (length args) && leb (length args) 2

  parsed-Encoded :
      (fmt args : List ℕ) (dc : Codec)
      → guard ≡ true
      → parse_fmt lib src ≡ some (fmt, args)
      → few args ≡ true
      → IsCodec dc
      → Encoded src fmt args dc (dc_encode lib src dc).0 (dc_encode lib src dc).1
  unfolding dc_encode encode_parsed few
  parsed-Encoded fmt args dc g e k c =
      rw (g, e, encode_parsed, k)
        (encode_by-Encoded src fmt args dc c ok
          (dc.rdict (find_slot dc.rdict_size dc.rdict dc.dict fmt)) refl)
    where
      ok : IsFmt (record { nargs = length args; fmt = fmt })
      ok =
          let p = parse_fmt-Parsed lib doc src fmt args e in
          record {
            has_args = ground (arith, k);
            few_args = ground (arith, k);
            counted = p.counted;
            short = ground (arith, g, p.short);
            chars = p.chars chars;
          }

  pub dc_encode-cases : IsPlain lib src ⊎ Split lib src
  unfolding dc_encode encode_parsed few
  dc_encode-cases = elim (Bool-cases guard) [
    | inr g ↦ inl (λ dc. rw g refl)
    | inl g ↦ elim (Option-cases (parse_fmt lib src)) [
      | inl e ↦ inl (λ dc. rw (g, e, encode_parsed) refl)
      | inr ((fmt, args), e) ↦ elim (Bool-cases (few args)) [
        | inr k ↦ inl (λ dc. rw (g, e, encode_parsed, k) refl)
        | inl k ↦ inr (record {
          fmt = fmt;
          args = args;
          parsed = parse_fmt-Parsed lib doc src fmt args e;
          has_args = ground (arith, k);
          few_args = ground (arith, k);
          encoded = λ dc c. parsed-Encoded fmt args dc g e k c;
        })
      ]
    ]
  ]
