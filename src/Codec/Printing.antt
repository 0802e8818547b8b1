-- ===== src/Codec/Printing.antt =====
-- `parse_fmt` of src/codec.c, undone by the C library's `snprintf`.
use mathlib.Core.Path.{subst}
use native.Mathlib.Nat.{mod-lt}
use beansdb.Base.{
  ℕ, zero, suc, ◌+◌, ◌%◌, ◌^◌, ◌≤◌, ◌<◌, ◌≡◌, ◌≢◌, refl, sym, ap, ◌∙◌, arith, true, false, not,
  ◌&&◌, inl, inr, Option, none, some, List, [], ◌∷◌, ◌++◌, length, length-append, All, All-append,
  All-split, leb, ltb, Bool-cases,
}
use beansdb.Base.Words.{IsU32}
use beansdb.Codec.Format.{
  CLib, is_decimal, is_digit, is_first_digit, is_unsupported, Scan, Piece, scan_number,
  number_piece, next_piece, parse_from, parse_fmt,
}
use beansdb.Codec.Encode.{percents, IsChar}
use beansdb.Codec.Scan.{IsTrue, Number, scan_number-Number}

-- What is documented of the C library: a format is printed from left to right, and a number is printed
-- with the digits that it was read from, where they do not begin with zero and fit 32 bits.
pub record IsDocumented (lib : CLib) : Type 0 where
  pub no_text : (args : List ℕ) → lib.snprintf [] args ≡ []
  pub plain :
      (c : ℕ) (fmt args : List ℕ) → c ≢ 37 → lib.snprintf (c ∷ fmt) args ≡ c ∷ lib.snprintf fmt args
  pub in_hex :
      (a : ℕ) (fmt args : List ℕ)
      → lib.snprintf (37 ∷ 120 ∷ fmt) (a ∷ args)
        ≡ lib.snprintf (37 ∷ 120 ∷ []) (a ∷ []) ++ lib.snprintf fmt args
  pub in_decimal :
      (a : ℕ) (fmt args : List ℕ)
      → lib.snprintf (37 ∷ 100 ∷ fmt) (a ∷ args)
        ≡ lib.snprintf (37 ∷ 100 ∷ []) (a ∷ []) ++ lib.snprintf fmt args
  pub read_hex :
      (c : ℕ) (cs : List ℕ)
      → is_first_digit c ≡ true
      → All (IsTrue is_digit) (c ∷ cs)
      → length (c ∷ cs) ≤ 8
      → lib.snprintf (37 ∷ 120 ∷ []) (lib.strtol16 (c ∷ cs) % 2 ^ 32 ∷ []) ≡ c ∷ cs
  pub read_decimal :
      (c : ℕ) (cs : List ℕ)
      → is_first_digit c ≡ true
      → All (IsTrue is_decimal) (c ∷ cs)
      → length (c ∷ cs) ≤ 9
      → lib.snprintf (37 ∷ 100 ∷ []) (lib.atoi (c ∷ cs) % 2 ^ 32 ∷ []) ≡ c ∷ cs

percents-append : (xs ys : List ℕ) → percents (xs ++ ys) ≡ percents xs + percents ys
percents-append [] ys = omega arith
percents-append (x ∷ xs) ys = omega (arith, percents-append xs ys)

digits-percents : (ds : List ℕ) → All (IsTrue is_digit) ds → percents ds ≡ 0
digits-percents [] h = refl
digits-percents (d ∷ ds) h = ground (arith, h.0, digits-percents ds h.1)

abbrev pub Supported : ℕ → Type 0
Supported = IsTrue (λ c. not (is_unsupported c))

-- What a format and its arguments say of the key that they stand for.
pub record Parsed (lib : CLib) (src fmt args : List ℕ) : Type 0 where
  pub printed : lib.snprintf fmt args ≡ src
  pub counted : percents fmt ≡ length args
  pub short : length fmt ≤ length src
  pub chars : All IsChar src → All IsChar fmt
  pub bits : All IsU32 args

module _ (lib : CLib) (doc : IsDocumented lib) where
  -- A piece prints the part `out` of the key that it stands for.
  record Prints (c : ℕ) (cs : List ℕ) (p : Piece) : Type 0 where
    out : List ℕ
    joined : out ++ p.rest ≡ c ∷ cs
    takes : 0 < length out
    prints :
        (fmt args : List ℕ)
        → lib.snprintf (p.text ++ fmt) (p.args ++ args) ≡ out ++ lib.snprintf fmt args
    counted : percents p.text ≡ length p.args
    short : length p.text ≤ length out
    chars : All IsChar out → All IsChar p.text
    bits : All IsU32 p.args

  plain_digits :
      (ds fmt args : List ℕ)
      → All (IsTrue is_digit) ds
      → lib.snprintf (ds ++ fmt) args ≡ ds ++ lib.snprintf fmt args
  plain_digits [] fmt args h = refl
  plain_digits (d ∷ ds) fmt args h =
      doc.plain d (ds ++ fmt) args (λ e. ground (arith, h.0, e))
      ∙ ap (◌∷◌ d) (plain_digits ds fmt args h.1)

  word-IsU32 : (n : ℕ) → IsU32 (n % 2 ^ 32)
  word-IsU32 n = mod-lt n (omega arith)

  number_piece-Prints :
      (c : ℕ) (cs : List ℕ) (s : Scan)
      → is_first_digit c ≡ true
      → Number c cs s
      → Prints c cs (number_piece lib s)
  unfolding number_piece
  number_piece-Prints c cs s first n = elim (Bool-cases (s.hex && leb 4 (length s.digits))) [
    | inl h ↦ rw h (record {
      out = s.digits;
      joined = n.joined;
      takes = ground (arith, h);
      prints = λ fmt args.
          doc.in_hex (lib.strtol16 s.digits % 2 ^ 32) fmt args
          ∙ ap (λ (xs : List ℕ). xs ++ lib.snprintf fmt args)
              (hex_digits s.digits n.begins n.digits (n.fewer (ground (arith, h))));
      counted = refl;
      short = ground (arith, h);
      chars = λ k. ((omega arith, omega arith), ((omega arith, omega arith), tt));
      bits = (word-IsU32 (lib.strtol16 s.digits), tt);
    })
    | inr h ↦ elim (Bool-cases (not s.hex && leb 3 (length s.digits))) [
      | inl k ↦
          rw (h, k)
            (record {
              out = s.digits;
              joined = n.joined;
              takes = ground (arith, k);
              prints = λ fmt args.
                  doc.in_decimal (lib.atoi s.digits % 2 ^ 32) fmt args
                  ∙ ap (λ (xs : List ℕ). xs ++ lib.snprintf fmt args)
                      (decimals s.digits n.begins (n.decimal (ground (arith, k))) n.few);
              counted = refl;
              short = ground (arith, k);
              chars = λ k. ((omega arith, omega arith), ((omega arith, omega arith), tt));
              bits = (word-IsU32 (lib.atoi s.digits), tt);
            })
      | inr k ↦
          rw (h, k)
            (record {
              out = s.digits;
              joined = n.joined;
              takes = omega (arith, ap (λ (xs : List ℕ). length xs) n.begins);
              prints = λ fmt args. plain_digits s.digits fmt args n.digits;
              counted = digits-percents s.digits n.digits;
              short = omega arith;
              chars = λ k. k;
              bits = tt;
            })
    ]
  ]
    where
      hex_digits :
          (ds : List ℕ)
          → ds ≡ c ∷ n.more
          → All (IsTrue is_digit) ds
          → length ds ≤ 8
          → lib.snprintf (37 ∷ 120 ∷ []) (lib.strtol16 ds % 2 ^ 32 ∷ []) ≡ ds
      hex_digits ds e h few = rw e (
          doc.read_hex c n.more first (subst (All (IsTrue is_digit)) e h)
            (omega (arith, few, ap (λ (xs : List ℕ). length xs) e)))

      decimals :
          (ds : List ℕ)
          → ds ≡ c ∷ n.more
          → All (IsTrue is_decimal) ds
          → length ds ≤ 9
          → lib.snprintf (37 ∷ 100 ∷ []) (lib.atoi ds % 2 ^ 32 ∷ []) ≡ ds
      decimals ds e h few = rw e (
          doc.read_decimal c n.more first (subst (All (IsTrue is_decimal)) e h)
            (omega (arith, few, ap (λ (xs : List ℕ). length xs) e)))

  next_piece-Prints :
      (m c : ℕ) (cs : List ℕ) → is_unsupported c ≡ false → Prints c cs (next_piece lib m c cs)
  unfolding next_piece
  next_piece-Prints m c cs ok = elim (Bool-cases (is_first_digit c && ltb m 3)) [
    | inl h ↦ rw h (
        number_piece-Prints c cs (scan_number (c ∷ cs)) (ground (arith, h))
          (scan_number-Number c cs (ground (arith, h))))
    | inr h ↦ rw h (record {
      out = c ∷ [];
      joined = refl;
      takes = omega arith;
      prints = λ fmt args. doc.plain c fmt args (λ e. ground (arith, ok, e));
      counted = ground (arith, ok);
      short = omega arith;
      chars = λ k. k;
      bits = tt;
    })
  ]

  printed_after :
      (c : ℕ) (cs : List ℕ) (p : Piece) (fmt args : List ℕ)
      → Prints c cs p
      → Parsed lib p.rest fmt args
      → Parsed lib (c ∷ cs) (p.text ++ fmt) (p.args ++ args)
  printed_after c cs p fmt args h r = record {
    printed = h.prints fmt args ∙ ap (λ (xs : List ℕ). h.out ++ xs) r.printed ∙ h.joined;
    counted =
        omega (arith, percents-append p.text fmt, length-append p.args args, h.counted, r.counted);
    short = omega (
      arith,
      length-append p.text fmt,
      length-append h.out p.rest,
      ap (λ (xs : List ℕ). length xs) h.joined,
      h.short,
      r.short,
    );
    chars = λ k.
        let (k_out, k_rest) = All-split IsChar h.out p.rest (rw h.joined k) in
        All-append IsChar p.text fmt (h.chars k_out) (r.chars k_rest);
    bits = All-append IsU32 p.args args h.bits r.bits;
  }

  abbrev ParsedIf : List ℕ → Option (List ℕ × List ℕ) → Type 0
  ParsedIf src none = Unit
  ParsedIf src (some (fmt, args)) = Parsed lib src fmt args

  parse_from-ParsedIf : (fuel m : ℕ) (src : List ℕ) → ParsedIf src (parse_from lib fuel m src)
  unfolding parse_from
  parse_from-ParsedIf fuel m [] = record {
    printed = doc.no_text [];
    counted = refl;
    short = omega arith;
    chars = λ k. tt;
    bits = tt;
  }
  parse_from-ParsedIf zero m (c ∷ cs) = tt
  parse_from-ParsedIf (suc fuel) m (c ∷ cs) = elim (Bool-cases (is_unsupported c)) [
    | inl bad ↦ rw bad tt
    | inr ok ↦ rw ok (
        joined_to (parse_from lib fuel (m + length p.args) p.rest)
          (parse_from-ParsedIf fuel (m + length p.args) p.rest) ok)
  ]
    where
      p : Piece
      p = next_piece lib m c cs

      joined_to :
          (o : Option (List ℕ × List ℕ))
          → ParsedIf p.rest o
          → is_unsupported c ≡ false
          → ParsedIf
              (c ∷ cs)
              (elim o [ none ↦ none | some (fmt, args) ↦ some (p.text ++ fmt, p.args ++ args) ])
      joined_to none h ok = tt
      joined_to (some (fmt, args)) h ok =
          printed_after c cs p fmt args (next_piece-Prints m c cs ok) h

  pub parse_fmt-Parsed :
      (src fmt args : List ℕ) → parse_fmt lib src ≡ some (fmt, args) → Parsed lib src fmt args
  unfolding parse_fmt
  parse_fmt-Parsed src fmt args e = subst (ParsedIf src) e (parse_from-ParsedIf (length src) 0 src)

  -- The length of a key is fuel enough.
  parse_from-total :
      (fuel m : ℕ) (src : List ℕ)
      → length src ≤ fuel
      → All Supported src
      → (r : List ℕ × List ℕ) × (parse_from lib fuel m src ≡ some r)
  unfolding parse_from
  parse_from-total fuel m [] h k = (([], []), refl)
  parse_from-total zero m (c ∷ cs) h k = absurd (omega (arith, h))
  parse_from-total (suc fuel) m (c ∷ cs) h k =
      let ok : is_unsupported c ≡ false = ground (arith, k.0) in
      let p = next_piece lib m c cs in
      let pr = next_piece-Prints m c cs ok in
      let (r, e) =
        parse_from-total fuel (m + length p.args) p.rest
          (omega (
            arith,
            h,
            pr.takes,
            length-append pr.out p.rest,
            ap (λ (xs : List ℕ). length xs) pr.joined,
          ))
          (All-split Supported pr.out p.rest (subst (All Supported) (sym pr.joined) k)).1 in
      (((p.text ++ r.0), (p.args ++ r.1)), rw (ok, e) refl)

  pub parse_fmt-total :
      (src : List ℕ) → All Supported src → (r : List ℕ × List ℕ) × (parse_fmt lib src ≡ some r)
  unfolding parse_fmt
  parse_fmt-total src k = parse_from-total (length src) 0 src (omega arith) k
