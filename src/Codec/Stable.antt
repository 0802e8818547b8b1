-- ===== src/Codec/Stable.antt =====
-- A key keeps its code in src/codec.c, while the dictionary grows.
use mathlib.Core.Path.{subst}
use mathlib.Core.List.{append_assoc, append-nil}
use beansdb.Base.{
  ℕ, suc, ◌≤◌, ◌≡◌, refl, sym, ap, ◌∙◌, arith, true, inl, inr, some, List, [], ◌∷◌, ◌++◌, length,
  length-append, get_elem?, All,
}
use beansdb.Codec.{Fmt, Codec}
use beansdb.Codec.Format.{CLib}
use beansdb.Codec.Keys.{dc_encode_key_with_fmt, starts_plain, dc_encode, dc_decode}
use beansdb.Codec.Table.{get_elem?-append_left, get_elem?-lt, IsTable-IsDistinct}
use beansdb.Codec.Encode.{IsChar, IsCodec, Extends, Codes, Encoded}
use beansdb.Codec.Printing.{IsDocumented}
use beansdb.Codec.Sent.{dc_encode-cases}
use beansdb.Codec.RoundTrip.{dc_encode-IsCodec, dc_decode-dc_encode}

Extends-trans : (a b c : List Fmt) → Extends a b → Extends b c → Extends a c
Extends-trans a b c (m, p) (n, q) =
    (m ++ n, q ∙ ap (λ (xs : List Fmt). xs ++ n) p ∙ append_assoc a m n)

Extends-at :
    (a b : List Fmt) (i : ℕ) (f : Fmt)
    → Extends a b
    → get_elem? a i ≡ some f
    → get_elem? b i ≡ some f
Extends-at a b i f (m, p) e =
    ap (λ (xs : List Fmt). get_elem? xs i) p
    ∙ get_elem?-append_left a m i (get_elem?-lt a i f e)
    ∙ e

-- A dictionary of the full length has not grown.
full-Extends : (a b : List Fmt) → Extends a b → length b ≤ length a → b ≡ a
full-Extends a b ([], p) h = p ∙ append-nil a
full-Extends a b (f ∷ m, p) h =
    absurd (omega (arith, h, length-append a (f ∷ m), ap (λ (xs : List Fmt). length xs) p))

-- In one codec a format has one number.
one_code :
    (dc : Codec) (fmt args code code' : List ℕ)
    → IsCodec dc
    → Codes dc.dict fmt args code
    → Codes dc.dict fmt args code'
    → code ≡ code'
one_code dc fmt args code code' c (i, f, p, q, e) (j, g, p', q', e') =
    e
    ∙ ap (λ (n : ℕ). dc_encode_key_with_fmt (suc n) args)
        (IsTable-IsDistinct dc.rdict_size dc.rdict dc.dict c.table i j f g p p' (q ∙ sym q'))
    ∙ sym e'

module _ (lib : CLib) (doc : IsDocumented lib) where
  -- Two encodings by one format, the second in a codec that came of the first.
  same_encoding :
      (src fmt args code code' : List ℕ) (dc dc1 dc2 dc3 : Codec)
      → Encoded src fmt args dc code dc1
      → IsCodec dc2
      → Extends dc1.dict dc2.dict
      → Encoded src fmt args dc2 code' dc3
      → code' ≡ code
  same_encoding src fmt args code code' dc dc1 dc2 dc3 a c2 ext b = elim a.result [
    | inl (i, f, p, q, e) ↦
        let p3 =
          Extends-at dc1.dict dc3.dict i f (Extends-trans dc1.dict dc2.dict dc3.dict ext b.extends)
            p in
        elim b.result [
          | inl codes ↦ one_code dc3 fmt args code' code b.codec codes (i, f, p3, q, e)
          | inr (same, full, absent) ↦ absurd (absent (i, f, p3, q))
        ]
    | inr (same, full, absent) ↦ elim b.result [
      | inr (same', full', absent') ↦ same' ∙ sym same
      | inl (j, g, p, q, e) ↦
          let kept : dc3.dict ≡ dc1.dict =
            full-Extends dc1.dict dc3.dict (Extends-trans dc1.dict dc2.dict dc3.dict ext b.extends)
              (omega (arith, full, b.codec.space, b.codec.bounded)) in
          absurd (absent (j, g, subst (λ xs. get_elem? xs j ≡ some g) kept p, q))
    ]
  ]

  -- A key that is encoded again, in any codec in order that came of the first encoding, gets the
  -- code that it got, also where the dictionary is full or was enlarged. The C library prints
  -- numbers as documented and the key is bytes that are not zero.
  pub dc_encode-stable :
      (src : List ℕ) (dc later : Codec)
      → All IsChar src
      → IsCodec dc
      → IsCodec later
      → Extends (dc_encode lib src dc).1.dict later.dict
      → (dc_encode lib src later).0 ≡ (dc_encode lib src dc).0
  dc_encode-stable src dc later chars c c' ext = elim (dc_encode-cases lib doc src chars) [
    | inl left ↦ rw (left dc, left later) refl
    | inr s ↦
        same_encoding src s.fmt s.args (dc_encode lib src dc).0 (dc_encode lib src later).0 dc
          (dc_encode lib src dc).1 later (dc_encode lib src later).1 (s.encoded dc c) c' ext
          (s.encoded later c')
  ]

  -- Keys that got the same code are the same.
  pub dc_encode-injective :
      (j k : List ℕ) (dc later : Codec)
      → All IsChar j
      → All IsChar k
      → starts_plain j ≡ true
      → starts_plain k ≡ true
      → IsCodec dc
      → IsCodec later
      → Extends (dc_encode lib j dc).1.dict later.dict
      → (dc_encode lib j dc).0 ≡ (dc_encode lib k later).0
      → j ≡ k
  dc_encode-injective j k dc later cj ck pj pk c c' ext e =
      let dc3 = (dc_encode lib k later).1 in
      sym (
        dc_decode-dc_encode lib doc j cj dc dc3 c pj (
          Extends-trans (dc_encode lib j dc).1.dict later.dict dc3.dict ext
            (dc_encode-IsCodec lib doc k ck later c').1))
      ∙ ap (dc_decode lib dc3) e
      ∙ dc_decode-dc_encode lib doc k ck later dc3 c' pk ([], sym (append-nil dc3.dict))
