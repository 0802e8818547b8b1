-- ===== src/Codec/Truncated.antt =====
-- `dc_load` of src/codec.c on a saved codec that was cut off.
use mathlib.Core.Option.{some-injective}
use beansdb.Base.{
  ℕ, zero, suc, ◌+◌, ◌-◌, ◌≤◌, ◌<◌, ◌≡◌, refl, sym, ap, ◌∙◌, arith, true, inl, inr, ◌||◌, none,
  some, List, [], ◌∷◌, ◌++◌, length, length-append, length-take, take, drop, take-append,
  drop-append, ltb, Bool-cases,
}
use beansdb.Base.Words.{to_bytes, of_bytes, field_at, length-to_bytes, of_bytes-to_bytes}
use beansdb.Base.Slices.{slice-take}
use beansdb.Codec.{Fmt, Codec, max_dict_size, dict_used}
use beansdb.Codec.Encode.{IsCodec}
use beansdb.Codec.Dump.{fmt_size, dc_size, fmt_bytes, dc_dump, load_formats, dc_load}
use beansdb.Codec.Reload.{image, length-image, length-fmt_bytes, dc_dump-image}

take-nil : (j : ℕ) → take {A = ℕ} j [] ≡ []
take-nil zero = refl
take-nil (suc j) = refl

drop-take : (n j m : ℕ) (xs : List ℕ) → m ≡ n + j → drop n (take m xs) ≡ take j (drop n xs)
drop-take zero j m xs e = ap (λ (k : ℕ). take k xs) (omega (arith, e))
drop-take (suc n) j zero xs e = absurd (omega (arith, e))
drop-take (suc n) j (suc m) [] e = sym (take-nil j)
drop-take (suc n) j (suc m) (x ∷ xs) e = drop-take n j m xs (omega (arith, e))

load_formats-cut :
    (fs : List Fmt) (k : ℕ)
    → k < length (image fs)
    → load_formats (length fs) (take k (image fs)) ≡ none
unfolding load_formats
load_formats-cut [] k h = absurd (omega (arith, h))
load_formats-cut (f ∷ fs) zero h = refl
load_formats-cut (f ∷ fs) (suc k) h =
    let body = fmt_bytes f ++ image fs in
    let s = fmt_size f in
    elim (Bool-cases (ltb (length (take k body)) s)) [
      | inl short ↦ rw short refl
      | inr enough ↦
          let j = k - s in
          let few : length (take k body) ≤ k = omega (arith, length-take k body) in
          let rest : load_formats (length fs) (drop s (take k body)) ≡ none =
            ap (load_formats (length fs)) (
              drop-take s j k body (ground (arith, enough, few))
              ∙ ap (λ (n : ℕ). take j (drop n body)) (sym (length-fmt_bytes f))
              ∙ ap (take j) (drop-append (fmt_bytes f) (image fs)))
            ∙ load_formats-cut fs j (
                ground (
                  arith,
                  enough,
                  few,
                  h,
                  length-append (fmt_bytes f) (image fs),
                  length-fmt_bytes f,
                )) in
          rw (enough, rest) refl
    ]

dc_load-fails :
    (fresh : Codec) (buf : List ℕ) (used : ℕ)
    → field_at 4 0 buf ≡ used
    → load_formats (used - 1) (drop 4 buf) ≡ none
    → dc_load fresh buf ≡ none
unfolding dc_load
dc_load-fails fresh buf used e fails =
    elim (Bool-cases (ltb (length buf) 4 || ltb max_dict_size used)) [
      | inl bad ↦ rw (e, bad) refl
      | inr good ↦ rw (e, good, fails) refl
    ]

dc_load-cut :
    (fresh dc : Codec) (k : ℕ)
    → IsCodec dc
    → k < 4 + length (image dc.dict)
    → dc_load fresh (take k (to_bytes 4 (dict_used dc) ++ image dc.dict)) ≡ none
unfolding dc_load field_at
dc_load-cut fresh dc k c h =
    let head = to_bytes 4 (dict_used dc) in
    let buf = head ++ image dc.dict in
    let n : length head ≡ 4 = length-to_bytes 4 (dict_used dc) in
    elim (Bool-cases (ltb k 4)) [
      | inl small ↦
          let short : ltb (length (take k buf)) 4 ≡ true =
            ground (arith, small, length-take k buf) in
          rw short refl
      | inr large ↦
          dc_load-fails fresh (take k buf) (dict_used dc)
            (ap of_bytes (slice-take 0 4 k buf (ground (arith, large)))
              ∙ ap (λ (m : ℕ). of_bytes (take m buf)) (sym n)
              ∙ ap of_bytes (take-append head (image dc.dict))
              ∙ of_bytes-to_bytes 4 (dict_used dc) (omega (arith, c.space, c.bounded)))
            (ap (λ (m : ℕ). load_formats m (drop 4 (take k buf))) (omega arith)
              ∙ ap (load_formats (length dc.dict)) (
                  drop-take 4 (k - 4) k buf (ground (arith, large))
                  ∙ ap (λ (m : ℕ). take (k - 4) (drop m buf)) (sym n)
                  ∙ ap (take (k - 4)) (drop-append head (image dc.dict)))
              ∙ load_formats-cut dc.dict (k - 4) (ground (arith, large, h)))
    ]

-- What dc_dump wrote for a codec in order fails to load where any of its last bytes are missing.
pub dc_load-truncated :
    (fresh dc : Codec) (bytes : List ℕ) (k : ℕ)
    → IsCodec dc
    → dc_dump dc (dc_size dc) ≡ some bytes
    → k < dc_size dc
    → dc_load fresh (take k bytes) ≡ none
unfolding dc_size
dc_load-truncated fresh dc bytes k c e h =
    ap (λ (xs : List ℕ). dc_load fresh (take k xs))
      (some-injective _ _ (sym e ∙ dc_dump-image dc c))
    ∙ dc_load-cut fresh dc k c (omega (arith, h, length-image dc.dict))
