-- ===== src/Codec/Format.antt =====
-- `parse_fmt` of src/codec.c: the numbers of a key are taken out of it and stand as "%x" or "%d" in its
-- format. `strtol`, `atoi` and `snprintf` are the C library's.
use beansdb.Base.{
  ℕ, zero, suc, ◌+◌, ◌%◌, ◌^◌, Bool, false, not, ◌&&◌, ◌||◌, Option, none, some, List, [], ◌∷◌,
  ◌++◌, length, take, drop, leb, ltb, ◌==◌, if◌then◌else◌,
}

pub record CLib : Type 0 where
  -- strtol(s, NULL, 16)
  pub strtol16 : List ℕ → ℕ
  pub atoi : List ℕ → ℕ
  -- The text for a format and the bits of its arguments.
  pub snprintf : List ℕ → List ℕ → List ℕ

abbrev pub is_decimal : ℕ → Bool
is_decimal c = leb 48 c && leb c 57

-- From 'a' to 'f'.
abbrev pub is_letter : ℕ → Bool
is_letter c = leb 97 c && leb c 102

abbrev pub is_digit : ℕ → Bool
is_digit c = is_decimal c || is_letter c

abbrev pub is_first_digit : ℕ → Bool
is_first_digit c = (leb 49 c && leb c 57) || is_letter c

-- '%', '@' and ':'
abbrev pub is_unsupported : ℕ → Bool
is_unsupported c = c == 37 || c == 64 || c == 58

-- Digits, whether a letter is among them, and what follows.
pub record Scan : Type 0 where
  pub digits : List ℕ
  pub hex : Bool
  pub rest : List ℕ

-- The inner loop, after `n` digits.
unfoldable pub scan_digits : ℕ → Bool → List ℕ → Scan
scan_digits n hex [] = record { digits = []; hex = hex; rest = [] }
scan_digits n hex (c ∷ cs) =
    let h = hex || is_letter c in
    let more = scan_digits (suc n) h cs in
    if not (is_digit c)
    then record { digits = []; hex = hex; rest = c ∷ cs }
    else if (h && leb 8 (suc n)) || (not h && leb 9 (suc n))
    then record { digits = c ∷ []; hex = h; rest = cs }
    else record more { digits = c ∷ more.digits }

-- Of eight decimal digits and a letter, the letter is given back.
unfoldable pub scan_number : List ℕ → Scan
unfolding scan_digits
scan_number src =
    let s = scan_digits 0 false src in
    if s.hex && length s.digits == 9
    then record { digits = take 8 s.digits; hex = false; rest = drop 8 s.digits ++ s.rest }
    else s

-- What one round of the loop writes into the format and the arguments, and what it leaves.
pub record Piece : Type 0 where
  pub text : List ℕ
  pub args : List ℕ
  pub rest : List ℕ

module _ (lib : CLib) where
  unfoldable pub number_piece : Scan → Piece
  number_piece s =
      if s.hex && leb 4 (length s.digits)
      then record {
        text = 37 ∷ 120 ∷ [];
        args = lib.strtol16 s.digits % 2 ^ 32 ∷ [];
        rest = s.rest;
      }
      else if not s.hex && leb 3 (length s.digits)
      then record { text = 37 ∷ 100 ∷ []; args = lib.atoi s.digits % 2 ^ 32 ∷ []; rest = s.rest }
      else record { text = s.digits; args = []; rest = s.rest }

  -- After `m` arguments; two may be used, and a third is taken to see that they are too many.
  unfoldable pub next_piece : ℕ → ℕ → List ℕ → Piece
  unfolding number_piece scan_number
  next_piece m c cs =
      if is_first_digit c && ltb m 3
      then number_piece (scan_number (c ∷ cs))
      else record { text = c ∷ []; args = []; rest = cs }

  -- The format and the arguments; `none` where a character is not supported. Every round takes a
  -- character, so the length of the key is fuel enough.
  unfoldable pub parse_from : ℕ → ℕ → List ℕ → Option (List ℕ × List ℕ)
  unfolding next_piece
  parse_from fuel m [] = some ([], [])
  parse_from zero m (c ∷ cs) = none
  parse_from (suc fuel) m (c ∷ cs) =
      let p = next_piece m c cs in
      let more = parse_from fuel (m + length p.args) p.rest in
      if is_unsupported c
      then none
      else elim more [ none ↦ none | some (fmt, args) ↦ some (p.text ++ fmt, p.args ++ args) ]

  unfoldable pub parse_fmt : List ℕ → Option (List ℕ × List ℕ)
  unfolding parse_from
  parse_fmt src = parse_from (length src) 0 src
