-- ===== src/Tests/Clib.antt =====
-- A C library as src/codec.c uses it: digits are read to a number and written from one.
use mathlib.Core.Path.{subst}
use mathlib.Core.List.{append-nil}
use native.Mathlib.Nat.{pow-suc, pow-le-pow_right, mul-pos}
use beansdb.Base.{
  ℕ, zero, suc, ◌+◌, ◌-◌, ◌*◌, ◌/◌, ◌%◌, ◌^◌, ◌≤◌, ◌<◌, ◌≡◌, ◌≢◌, refl, sym, ap, ◌∙◌, arith, Bool,
  true, false, ◌&&◌, List, [], ◌∷◌, ◌++◌, length, All, ltb, ◌==◌, if◌then◌else◌,
}
use beansdb.Codec.Format.{CLib, is_decimal, is_digit, is_first_digit}
use beansdb.Codec.Scan.{IsTrue}
use beansdb.Codec.Printing.{IsDocumented}

unfoldable pub digit_value : ℕ → ℕ
digit_value c = if ltb c 58 then c - 48 else c - 87

unfoldable pub digit_char : ℕ → ℕ
digit_char d = if ltb d 10 then d + 48 else d + 87

unfoldable pub read_number : ℕ → ℕ → List ℕ → ℕ
read_number b n [] = n
read_number b n (c ∷ cs) = read_number b (n * b + digit_value c) cs

-- The digits of a number before the text so far.
unfoldable pub write_number : ℕ → ℕ → ℕ → List ℕ → List ℕ
write_number b zero n out = out
write_number b (suc fuel) n out =
    let more = write_number b fuel (n / b) (digit_char (n % b) ∷ out) in
    if n == 0 then out else more

unfoldable pub print : List ℕ → List ℕ → List ℕ
print [] args = []
print (c ∷ []) args = c ∷ []
print (c ∷ d ∷ fmt) [] = c ∷ print (d ∷ fmt) []
print (c ∷ d ∷ fmt) (a ∷ args) =
    let after = print fmt args in
    let next = print (d ∷ fmt) (a ∷ args) in
    if c == 37 && d == 120
    then write_number 16 10 a [] ++ after
    else if c == 37 && d == 100
    then write_number 10 10 a [] ++ after
    else c ∷ next

abbrev pub c_lib : CLib
c_lib = record { strtol16 = read_number 16 0; atoi = read_number 10 0; snprintf = print }

print-plain : (c : ℕ) (fmt args : List ℕ) → c ≢ 37 → print (c ∷ fmt) args ≡ c ∷ print fmt args
unfolding print
print-plain c [] args h = refl
print-plain c (d ∷ fmt) [] h = refl
print-plain c (d ∷ fmt) (a ∷ args) h = ground (arith, h)

write_number-zero : (b k : ℕ) (out : List ℕ) → write_number b k 0 out ≡ out
unfolding write_number
write_number-zero b zero out = refl
write_number-zero b (suc k) out = refl

-- The digits of a base, which `IsDigit` tells.
module _ (b : ℕ) (is : ℕ → Bool) (low : (n c : ℕ) → is c ≡ true → (n * b + digit_value c) / b ≡ n)
    (char : (n c : ℕ) → is c ≡ true → digit_char ((n * b + digit_value c) % b) ≡ c)
    (grows : (n c k : ℕ) → is c ≡ true → n < b ^ k → n * b + digit_value c < b ^ suc k)
    (stays : (n c : ℕ) → 0 < n → 0 < n * b + digit_value c) where
  write_one :
      (n c k : ℕ) (out : List ℕ)
      → is c ≡ true
      → 0 < n * b + digit_value c
      → write_number b (suc k) (n * b + digit_value c) out ≡ write_number b k n (c ∷ out)
  unfolding write_number
  write_one n c k out h p =
      let not_zero : (n * b + digit_value c == 0) ≡ false = ground (arith, p) in
      rw (not_zero, low n c h, char n c h) refl

  write_number-read_number :
      (n k : ℕ) (cs out : List ℕ)
      → All (IsTrue is) cs
      → 0 < n
      → write_number b (k + length cs) (read_number b n cs) out ≡ write_number b k n (cs ++ out)
  unfolding read_number
  write_number-read_number n k [] out h p = ap (λ (m : ℕ). write_number b m n out) (omega arith)
  write_number-read_number n k (c ∷ cs) out h p =
      let n' = n * b + digit_value c in
      ap (λ (m : ℕ). write_number b m (read_number b n' cs) out) (omega arith)
      ∙ write_number-read_number n' (suc k) cs out h.1 (stays n c p)
      ∙ write_one n c k (cs ++ out) h.0 (stays n c p)

  read_number-lt :
      (n k : ℕ) (cs : List ℕ)
      → All (IsTrue is) cs
      → n < b ^ k
      → read_number b n cs < b ^ (k + length cs)
  unfolding read_number
  read_number-lt n k [] h p = subst (λ (m : ℕ). n < b ^ m) (omega arith) p
  read_number-lt n k (c ∷ cs) h p =
      subst (λ (m : ℕ). read_number b (n * b + digit_value c) cs < b ^ m) (omega arith)
        (read_number-lt (n * b + digit_value c) (suc k) cs h.1 (grows n c k h.0 p))

  -- A number of at most nine digits is written with the digits that it was read from.
  write_number-digits :
      (c : ℕ) (cs : List ℕ)
      → is c ≡ true
      → All (IsTrue is) cs
      → 0 < digit_value c
      → length cs ≤ 9
      → write_number b 10 (read_number b 0 (c ∷ cs)) [] ≡ c ∷ cs
  unfolding read_number write_number
  write_number-digits c cs h hs p few =
      let n = 0 * b + digit_value c in
      let k = 9 - length cs in
      let positive : 0 < n = omega (arith, p) in
      let fuel : 10 ≡ suc k + length cs = omega (arith, few) in
      ap (λ (m : ℕ). write_number b m (read_number b n cs) []) fuel
      ∙ write_number-read_number n (suc k) cs [] hs positive
      ∙ write_one 0 c k (cs ++ []) h positive
      ∙ write_number-zero b k (c ∷ (cs ++ []))
      ∙ ap (◌∷◌ c) (append-nil cs)

module _ (c : ℕ) (h : is_digit c ≡ true) where
  hex_low : (n : ℕ) → (n * 16 + digit_value c) / 16 ≡ n
  unfolding digit_value
  hex_low n = ground (arith, h)

  hex_char : (n : ℕ) → digit_char ((n * 16 + digit_value c) % 16) ≡ c
  unfolding digit_value digit_char
  hex_char n = ground (arith, h)

  hex_grows : (n k : ℕ) → n < 16 ^ k → n * 16 + digit_value c < 16 ^ suc k
  unfolding digit_value
  hex_grows n k p = ground (arith, h, p, pow-suc 16 k)

module _ (c : ℕ) (h : is_decimal c ≡ true) where
  decimal_low : (n : ℕ) → (n * 10 + digit_value c) / 10 ≡ n
  unfolding digit_value
  decimal_low n = ground (arith, h)

  decimal_char : (n : ℕ) → digit_char ((n * 10 + digit_value c) % 10) ≡ c
  unfolding digit_value digit_char
  decimal_char n = ground (arith, h)

  decimal_grows : (n k : ℕ) → n < 10 ^ k → n * 10 + digit_value c < 10 ^ suc k
  unfolding digit_value
  decimal_grows n k p = ground (arith, h, p, pow-suc 10 k)

pow_up : (n i j : ℕ) → 0 < n → i ≤ j → n ^ i ≤ n ^ j
pow_up n i j p h = pow-le-pow_right p h

stays_positive : (b n c : ℕ) → 0 < b → 0 < n → 0 < n * b + digit_value c
stays_positive b n c p q = omega (arith, mul-pos q p)

read_hex :
    (c : ℕ) (cs : List ℕ)
    → is_first_digit c ≡ true
    → All (IsTrue is_digit) (c ∷ cs)
    → length (c ∷ cs) ≤ 8
    → write_number 16 10 (read_number 16 0 (c ∷ cs) % 2 ^ 32) [] ≡ c ∷ cs
unfolding digit_value
read_hex c cs f h few =
    let small : read_number 16 0 (c ∷ cs) < 16 ^ (0 + length (c ∷ cs)) =
      read_number-lt 16 is_digit (λ n c h. hex_low c h n) (λ n c h. hex_char c h n)
        (λ n c k h. hex_grows c h n k) (λ n c. stays_positive 16 n c (omega arith)) 0 0 (c ∷ cs) h
        (omega arith) in
    let fits : read_number 16 0 (c ∷ cs) % 2 ^ 32 ≡ read_number 16 0 (c ∷ cs) =
      omega (arith, small, pow_up 16 (0 + length (c ∷ cs)) 8 (omega arith) (omega (arith, few))) in
    ap (λ (n : ℕ). write_number 16 10 n []) fits
    ∙ write_number-digits 16 is_digit (λ n c h. hex_low c h n) (λ n c h. hex_char c h n)
        (λ n c k h. hex_grows c h n k) (λ n c. stays_positive 16 n c (omega arith)) c cs h.0 h.1
        (ground (arith, f)) (omega (arith, few))

read_decimal :
    (c : ℕ) (cs : List ℕ)
    → is_first_digit c ≡ true
    → All (IsTrue is_decimal) (c ∷ cs)
    → length (c ∷ cs) ≤ 9
    → write_number 10 10 (read_number 10 0 (c ∷ cs) % 2 ^ 32) [] ≡ c ∷ cs
unfolding digit_value
read_decimal c cs f h few =
    let small : read_number 10 0 (c ∷ cs) < 10 ^ (0 + length (c ∷ cs)) =
      read_number-lt 10 is_decimal (λ n c h. decimal_low c h n) (λ n c h. decimal_char c h n)
        (λ n c k h. decimal_grows c h n k) (λ n c. stays_positive 10 n c (omega arith)) 0 0 (c ∷ cs)
        h (omega arith) in
    let fits : read_number 10 0 (c ∷ cs) % 2 ^ 32 ≡ read_number 10 0 (c ∷ cs) =
      omega (arith, small, pow_up 10 (0 + length (c ∷ cs)) 9 (omega arith) (omega (arith, few))) in
    ap (λ (n : ℕ). write_number 10 10 n []) fits
    ∙ write_number-digits 10 is_decimal (λ n c h. decimal_low c h n) (λ n c h. decimal_char c h n)
        (λ n c k h. decimal_grows c h n k) (λ n c. stays_positive 10 n c (omega arith)) c cs h.0 h.1
        (ground (arith, f, h.0)) (omega (arith, few))

pub c_lib-IsDocumented : IsDocumented c_lib
unfolding print
c_lib-IsDocumented = record {
  no_text = λ args. refl;
  plain = print-plain;
  in_hex = λ a fmt args.
      ap (λ (xs : List ℕ). xs ++ print fmt args) (sym (append-nil (write_number 16 10 a [])));
  in_decimal = λ a fmt args.
      ap (λ (xs : List ℕ). xs ++ print fmt args) (sym (append-nil (write_number 10 10 a [])));
  read_hex = λ c cs f h few. append-nil _ ∙ read_hex c cs f h few;
  read_decimal = λ c cs f h few. append-nil _ ∙ read_decimal c cs f h few;
}
