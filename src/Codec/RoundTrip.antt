-- ===== src/Codec/RoundTrip.antt =====
-- `dc_decode` of src/codec.c on what `dc_encode` wrote, in the codec as it is then or has become since.
use mathlib.Core.Path.{subst}
use mathlib.Core.Option.{some-injective}
use mathlib.Core.List.{append_assoc, append-nil}
use beansdb.Base.{
  ℕ, zero, suc, ◌+◌, ◌-◌, ◌*◌, ◌/◌, ◌%◌, ◌^◌, ◌≤◌, ◌<◌, ◌≡◌, refl, sym, ap, ◌∙◌, arith, true, false,
  inl, inr, ◌&&◌, some, List, [], ◌∷◌, ◌++◌, length, length-append, get_elem?, take, take-append,
  drop-append, All, leb, ltb, ◌==◌, Bool-cases,
}
use beansdb.Base.Words.{IsU32, to_bytes, of_bytes, field_at, length-to_bytes, of_bytes-to_bytes}
use beansdb.Varint.Old.{encode_varint_old, decode_varint_old-encode_varint_old}
use beansdb.Codec.{Fmt, Codec}
use beansdb.Codec.Format.{CLib}
use beansdb.Codec.Keys.{
  args_bytes, dc_encode_key_with_fmt, starts_plain, words_at, dc_encode, decode_with,
  dc_decode_key_with_fmt, dc_decode,
}
use beansdb.Codec.Table.{get_elem?-append_left, get_elem?-lt}
use beansdb.Codec.Encode.{IsChar, IsFmt, IsCodec, Extends, Codes, percents}
use beansdb.Codec.Printing.{IsDocumented}
use beansdb.Codec.Sent.{Split, dc_encode-cases}

length-args_bytes : (args : List ℕ) → length (args_bytes args) ≡ length args * 4
unfolding args_bytes
length-args_bytes [] = refl
length-args_bytes (a ∷ args) = omega (
  arith,
  length-append (to_bytes 4 a) (args_bytes args),
  length-to_bytes 4 a,
  length-args_bytes args,
)

field_at-append :
    (pre more : List ℕ) (a : ℕ)
    → IsU32 a
    → field_at 4 (length pre) (pre ++ (to_bytes 4 a ++ more)) ≡ a
unfolding field_at
field_at-append pre more a h =
    ap (λ (xs : List ℕ). of_bytes (take 4 xs)) (drop-append pre (to_bytes 4 a ++ more))
    ∙ ap (λ (n : ℕ). of_bytes (take n (to_bytes 4 a ++ more))) (sym (length-to_bytes 4 a))
    ∙ ap of_bytes (take-append (to_bytes 4 a) more)
    ∙ of_bytes-to_bytes 4 a (omega (arith, h))

-- The arguments are read back from behind the number.
words_at-args_bytes :
    (n : ℕ) (src pre args : List ℕ)
    → n ≡ length pre
    → src ≡ pre ++ args_bytes args
    → All IsU32 args
    → words_at (length args) n src ≡ args
unfolding words_at args_bytes
words_at-args_bytes n src pre [] p q h = refl
words_at-args_bytes n src pre (a ∷ args) p q h =
    ap (λ (x : ℕ). x ∷ words_at (length args) (n + 4) src)
      (ap (λ (xs : List ℕ). field_at 4 n xs) q
        ∙ ap (λ (k : ℕ). field_at 4 k (pre ++ (to_bytes 4 a ++ args_bytes args))) p
        ∙ field_at-append pre (args_bytes args) a h.0)
    ∙ ap (◌∷◌ a) (
        words_at-args_bytes (n + 4) src (pre ++ to_bytes 4 a) args
          (omega (arith, p, length-append pre (to_bytes 4 a), length-to_bytes 4 a))
          (q ∙ sym (append_assoc pre (to_bytes 4 a) (args_bytes args))) h.1)

first_byte :
    (n : ℕ) (rest : List ℕ)
    → 0 < n
    → n < 2 ^ 14
    → (c : ℕ) × (cs : List ℕ) × (encode_varint_old n ++ rest ≡ c ∷ cs) × (128 ≤ c)
unfolding encode_varint_old
first_byte n rest p h = elim (Bool-cases (ltb n 64)) [
  | inl s ↦ rw s ((256 - n) % 256, rest, refl, ground (arith, s, p))
  | inr s ↦ rw s (256 - n % 64 - 64, n / 2 ^ 6 % 256 ∷ rest, refl, omega arith)
]

one_byte : (n : ℕ) → 0 < length (encode_varint_old n)
unfolding encode_varint_old
one_byte n = ground arith

get_elem?-All : (xs : List Fmt) (i : ℕ) (x : Fmt) → get_elem? xs i ≡ some x → All IsFmt xs → IsFmt x
get_elem?-All [] i x e h = cc
get_elem?-All (y ∷ xs) zero x e h = subst IsFmt (some-injective y x e) h.0
get_elem?-All (y ∷ xs) (suc i) x e h = get_elem?-All xs i x e h.1

module _ (lib : CLib) where
  decode_high :
      (dc : Codec) (c : ℕ) (cs : List ℕ)
      → 128 ≤ c
      → dc_decode lib dc (c ∷ cs) ≡ dc_decode_key_with_fmt lib dc (c ∷ cs)
  unfolding dc_decode
  decode_high dc c cs h = ground (arith, h)

  decode_by :
      (f : Fmt) (code pre args : List ℕ)
      → code ≡ pre ++ args_bytes args
      → f.nargs ≡ length args
      → 0 < length args
      → length args ≤ 2
      → All IsU32 args
      → decode_with lib (some f) (length pre) code ≡ lib.snprintf f.fmt args
  unfolding decode_with
  decode_by f code pre args e n some_args few_args bits =
      let right_length : (length code == f.nargs * 4 + length pre) ≡ true = ground (
        arith,
        n,
        ap (λ (xs : List ℕ). length xs) e,
        length-append pre (args_bytes args),
        length-args_bytes args,
      ) in
      let right_args : (ltb 0 f.nargs && leb f.nargs 3) ≡ true =
        ground (arith, n, some_args, few_args) in
      rw (right_length, right_args)
        (ap (λ (k : ℕ). lib.snprintf f.fmt (words_at k (length pre) code)) n
          ∙ ap (lib.snprintf f.fmt) (words_at-args_bytes (length pre) code pre args refl e bits))

  -- A code is decoded by the format at its number.
  dc_decode-code :
      (dc : Codec) (i : ℕ) (f : Fmt) (args : List ℕ)
      → get_elem? dc.dict i ≡ some f
      → suc i < 2 ^ 14
      → f.nargs ≡ length args
      → 0 < length args
      → length args ≤ 2
      → All IsU32 args
      → dc_decode lib dc (dc_encode_key_with_fmt (suc i) args) ≡ lib.snprintf f.fmt args
  unfolding dc_encode_key_with_fmt dc_decode_key_with_fmt
  dc_decode-code dc i f args at_i h n some_args few_args bits =
      let code = encode_varint_old (suc i) ++ args_bytes args in
      let (c, cs, begins, high) = first_byte (suc i) (args_bytes args) (omega arith) h in
      let long : ltb (length code) 5 ≡ false = ground (
        arith,
        some_args,
        length-append (encode_varint_old (suc i)) (args_bytes args),
        length-args_bytes args,
        one_byte (suc i),
      ) in
      ap (dc_decode lib dc) begins
      ∙ decode_high dc c cs high
      ∙ ap (dc_decode_key_with_fmt lib dc) (sym begins)
      ∙ rw (long, decode_varint_old-encode_varint_old (suc i) (args_bytes args) h, at_i)
          (decode_by f code (encode_varint_old (suc i)) args refl n some_args few_args bits)

  module _ (doc : IsDocumented lib) (src : List ℕ) (chars : All IsChar src) where
    -- dc_encode keeps a codec in order: the table leads to every format of the dictionary, holds
    -- each number once and has room, and no dictionary passes 16384 numbers. No format changes its
    -- number. The C library prints numbers as documented and the key is bytes that are not zero.
    pub dc_encode-IsCodec :
        (dc : Codec)
        → IsCodec dc
        → IsCodec (dc_encode lib src dc).1 × Extends dc.dict (dc_encode lib src dc).1.dict
    dc_encode-IsCodec dc c = elim (dc_encode-cases lib doc src chars) [
      | inl left ↦ rw (left dc) (c, ([], sym (append-nil dc.dict)))
      | inr s ↦ let e = s.encoded dc c in (e.codec, e.extends)
    ]

    decode_plain : (later : Codec) → starts_plain src ≡ true → dc_decode lib later src ≡ src
    unfolding dc_decode
    decode_plain later h = plain src h
      where
        plain : (xs : List ℕ) → starts_plain xs ≡ true → dc_decode lib later xs ≡ xs
        plain [] h = refl
        plain (x ∷ xs) h = ground (arith, h)

    decode-Split :
        (s : Split lib src) (dc later : Codec) (code : List ℕ)
        → IsCodec dc
        → Extends dc.dict later.dict
        → Codes dc.dict s.fmt s.args code
        → dc_decode lib later code ≡ src
    decode-Split s dc later code c (more, e) (i, f, at_i, q, code_is) =
        let small : i < length dc.dict = get_elem?-lt dc.dict i f at_i in
        let n : f.nargs ≡ length s.args =
          sym ((get_elem?-All dc.dict i f at_i c.formats).counted)
          ∙ ap percents q
          ∙ s.parsed.counted in
        ap (dc_decode lib later) code_is
        ∙ dc_decode-code later i f s.args
            (ap (λ (xs : List Fmt). get_elem? xs i) e
              ∙ get_elem?-append_left dc.dict more i small
              ∙ at_i)
            (omega (arith, small, c.bounded, c.space)) n s.has_args s.few_args s.parsed.bits
        ∙ ap (λ (xs : List ℕ). lib.snprintf xs s.args) q
        ∙ s.parsed.printed

    -- dc_decode gives a key back from its code, in the codec as dc_encode left it and in every
    -- codec with more formats. The C library prints numbers as documented, the codec is in order,
    -- and the key is bytes that are not zero and begins below 128.
    pub dc_decode-dc_encode :
        (dc later : Codec)
        → IsCodec dc
        → starts_plain src ≡ true
        → Extends (dc_encode lib src dc).1.dict later.dict
        → dc_decode lib later (dc_encode lib src dc).0 ≡ src
    dc_decode-dc_encode dc later c h ext = elim (dc_encode-cases lib doc src chars) [
      | inl left ↦ rw (left dc) (decode_plain later h)
      | inr s ↦
          let e = s.encoded dc c in
          elim e.result [
            | inl codes ↦
                decode-Split s (dc_encode lib src dc).1 later (dc_encode lib src dc).0 e.codec ext
                  codes
            | inr (same, full, absent) ↦ ap (dc_decode lib later) same ∙ decode_plain later h
          ]
    ]
