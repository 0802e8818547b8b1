-- ===== src/Codec/Scan.antt =====
-- The digits that `parse_fmt` of src/codec.c takes at once.
use mathlib.Core.List.{append_assoc}
use beansdb.Base.{
  ℕ, zero, suc, ◌+◌, ◌≤◌, ◌<◌, ◌≡◌, refl, sym, ap, ◌∙◌, arith, Bool, true, false, not, ◌⊎◌, inl,
  inr, ◌&&◌, ◌||◌, List, [], ◌∷◌, ◌++◌, length, take, drop, All, length-take, take-append-drop, leb,
  ◌==◌, Bool-cases,
}
use beansdb.Base.Slices.{All-take}
use beansdb.Codec.Format.{is_decimal, is_letter, is_digit, Scan, scan_digits, scan_number}

abbrev pub IsTrue : (ℕ → Bool) → ℕ → Type 0
IsTrue test c = test c ≡ true

-- A run of at most suc `k` digits, after which `h` says whether a letter came before it.
pub record Run (h : Bool) (k : ℕ) (src : List ℕ) (s : Scan) : Type 0 where
  pub joined : s.digits ++ s.rest ≡ src
  pub digits : All (IsTrue is_digit) s.digits
  pub decimal : s.hex ≡ false → All (IsTrue is_decimal) s.digits
  pub few : length s.digits ≤ suc k
  pub fewer :
      s.hex ≡ true
      → (length s.digits ≤ k) ⊎ (All (IsTrue is_decimal) (take k s.digits) × (h ≡ false))

no_digits :
    (h : Bool) (k : ℕ) (src : List ℕ) → Run h k src (record { digits = []; hex = h; rest = src })
no_digits h k src = record {
  joined = refl;
  digits = tt;
  decimal = λ e. tt;
  few = omega arith;
  fewer = λ e. inl (omega arith);
}

is_decimal-of-digit : (c : ℕ) → is_digit c ≡ true → is_letter c ≡ false → is_decimal c ≡ true
is_decimal-of-digit c d l = ground (arith, d, l)

last_digit :
    (h : Bool) (k : ℕ) (c : ℕ) (cs : List ℕ)
    → is_digit c ≡ true
    → (h ≡ true → 0 < k)
    → Run h k (c ∷ cs) (record { digits = c ∷ []; hex = h || is_letter c; rest = cs })
last_digit h k c cs d room = record {
  joined = refl;
  digits = (d, tt);
  decimal = λ e. (ground (arith, d, e), tt);
  few = omega arith;
  fewer = λ e. last_few h k room;
}
  where
    last_few :
        (h : Bool) (k : ℕ)
        → (h ≡ true → 0 < k)
        → (1 ≤ k) ⊎ (All (IsTrue is_decimal) (take k (c ∷ [])) × (h ≡ false))
    last_few h (suc k) room = inl (omega arith)
    last_few true zero room = inl (omega (arith, room refl))
    last_few false zero room = inr (tt, refl)

more_digits :
    (h : Bool) (k : ℕ) (c : ℕ) (cs : List ℕ) (s : Scan)
    → is_digit c ≡ true
    → Run (h || is_letter c) k cs s
    → ((h || is_letter c) ≡ false → s.hex ≡ false → is_decimal c ≡ true)
    → (s.hex ≡ false → (h || is_letter c) ≡ false)
    → Run h (suc k) (c ∷ cs) (record s { digits = c ∷ s.digits })
more_digits h k c cs s d r low back = record {
  joined = ap (◌∷◌ c) r.joined;
  digits = (d, r.digits);
  decimal = λ e. (low (back e) e, r.decimal e);
  few = omega (arith, r.few);
  fewer = λ e. elim (r.fewer e) [
    | inl few ↦ inl (omega (arith, few))
    | inr (ds, q) ↦ inr ((is_decimal-of-digit c d (ground (arith, q)), ds), ground (arith, q))
  ];
}

-- A letter that was seen is not forgotten.
scan_digits-hex : (n : ℕ) (src : List ℕ) → (scan_digits n true src).hex ≡ true
unfolding scan_digits
scan_digits-hex n [] = refl
scan_digits-hex n (c ∷ cs) = grind (arith, scan_digits-hex (suc n) cs)

pub scan_digits-Run :
    (n k : ℕ) (h : Bool) (src : List ℕ)
    → n + k ≡ 8
    → (h ≡ true → 0 < k)
    → Run h k src (scan_digits n h src)
unfolding scan_digits
scan_digits-Run n k h [] e room = no_digits h k []
scan_digits-Run n zero h (c ∷ cs) e room = elim (Bool-cases (is_digit c)) [
  | inr d ↦ rw d (no_digits h zero (c ∷ cs))
  | inl d ↦ rw (d, stops (h || is_letter c)) (last_digit h zero c cs d room)
]
  where
    stops : (b : Bool) → ((b && leb 8 (suc n)) || (not b && leb 9 (suc n))) ≡ true
    stops b = ground (arith, e)
scan_digits-Run n (suc k) h (c ∷ cs) e room = elim (Bool-cases (is_digit c)) [
  | inr d ↦ rw d (no_digits h (suc k) (c ∷ cs))
  | inl d ↦
      elim (Bool-cases
        (((h || is_letter c) && leb 8 (suc n)) || (not (h || is_letter c) && leb 9 (suc n)))) [
          | inl q ↦ rw (d, q) (last_digit h (suc k) c cs d room)
          | inr q ↦
              rw (d, q)
                (more_digits h k c cs (scan_digits (suc n) (h || is_letter c) cs) d
                  (scan_digits-Run (suc n) k (h || is_letter c) cs (omega (arith, e))
                    (λ l. ground (arith, q, l, e)))
                  (λ l m. ground (arith, d, l)) (keeps (h || is_letter c)))
        ]
]
  where
    keeps : (b : Bool) → (scan_digits (suc n) b cs).hex ≡ false → b ≡ false
    keeps true p = sym (scan_digits-hex (suc n) cs) ∙ p
    keeps false p = refl

-- A number as it is taken from the key.
pub record Number (c : ℕ) (cs : List ℕ) (s : Scan) : Type 0 where
  pub more : List ℕ
  pub begins : s.digits ≡ c ∷ more
  pub joined : s.digits ++ s.rest ≡ c ∷ cs
  pub digits : All (IsTrue is_digit) s.digits
  pub decimal : s.hex ≡ false → All (IsTrue is_decimal) s.digits
  pub few : length s.digits ≤ 9
  pub fewer : s.hex ≡ true → length s.digits ≤ 8

some_digit :
    (c : ℕ) (cs : List ℕ) → is_digit c ≡ true → 0 < length (scan_digits 0 false (c ∷ cs)).digits
unfolding scan_digits
some_digit c cs d = grind (arith, d)

begins_with :
    (c : ℕ) (cs ds rest : List ℕ)
    → ds ++ rest ≡ c ∷ cs
    → 0 < length ds
    → (more : List ℕ) × (ds ≡ c ∷ more)
begins_with c cs [] rest e h = absurd (omega (arith, h))
begins_with c cs (d ∷ ds) rest e h = (ds, cc)

pub scan_number-Number :
    (c : ℕ) (cs : List ℕ) → is_digit c ≡ true → Number c cs (scan_number (c ∷ cs))
unfolding scan_number
scan_number-Number c cs d =
    let s = scan_digits 0 false (c ∷ cs) in
    let r = scan_digits-Run 0 8 false (c ∷ cs) refl (λ e. omega arith) in
    let (more, begins) = begins_with c cs s.digits s.rest r.joined (some_digit c cs d) in
    elim (Bool-cases (s.hex && length s.digits == 9)) [
      | inr q ↦ rw q (record {
        more = more;
        begins = begins;
        joined = r.joined;
        digits = r.digits;
        decimal = r.decimal;
        few = r.few;
        fewer = λ e. elim (r.fewer e) [ inl few ↦ few | inr (ds, p) ↦ ground (arith, q, e, r.few) ];
      })
      | inl q ↦ rw q (record {
        more = take 7 more;
        begins = ap (take 8) begins;
        joined =
            sym (append_assoc (take 8 s.digits) (drop 8 s.digits) s.rest)
            ∙ ap (λ (xs : List ℕ). xs ++ s.rest) (take-append-drop 8 s.digits)
            ∙ r.joined;
        digits = All-take (IsTrue is_digit) 8 s.digits r.digits;
        decimal = λ e. elim (r.fewer (ground (arith, q))) [
          | inl few ↦ absurd (ground (arith, q, few))
          | inr (ds, p) ↦ ds
        ];
        few = omega (arith, length-take 8 s.digits);
        fewer = λ e. omega (arith, length-take 8 s.digits);
      })
    ]
