-- ===== src/Record/Layout.antt =====
-- What `decode_record` reads in the bytes that `encode_record` lays out.
use mathlib.Core.List.{append_assoc}
use beansdb.Base.{
  ℕ, zero, suc, ◌+◌, ◌≡◌, refl, ap, ◌∙◌, arith, List, [], ◌∷◌, ◌++◌, length, take, drop, All,
  All-append, take-append, drop-append, length-append,
}
use beansdb.Base.Words.{IsByte, IsU32, to_bytes, of_bytes, field_at, to_bytes-IsByte}
use beansdb.Record.{DataRecord, record_body, record_at}

-- The fields are machine words, and the sizes are those of the key and the value.
pub record IsWellFormed (r : DataRecord) : Type 0 where
  pub tstamp_word : IsU32 r.tstamp
  pub flag_word : IsU32 r.flag
  pub version_word : IsU32 r.version
  pub ksz_word : IsU32 r.ksz
  pub vsz_word : IsU32 r.vsz
  pub key_size : r.ksz ≡ length r.key
  pub value_size : r.vsz ≡ length r.value
  pub key_bytes : All IsByte r.key
  pub value_bytes : All IsByte r.value

module _ {ℓ} {A : Type ℓ} where
  pub take-all : (n : ℕ) (xs : List A) → n ≡ length xs → take n xs ≡ xs
  take-all zero [] h = refl
  take-all zero (x ∷ xs) h = absurd (omega arith)
  take-all (suc n) [] h = refl
  take-all (suc n) (x ∷ xs) h = ap (◌∷◌ x) (take-all n xs (omega arith))

  pub take-prefix : (n : ℕ) (xs ys : List A) → n ≡ length xs → take n (xs ++ ys) ≡ xs
  take-prefix n xs ys h = ap (λ (m : ℕ). take m (xs ++ ys)) h ∙ take-append xs ys

  pub drop-prefix : (n : ℕ) (xs ys : List A) → n ≡ length xs → drop n (xs ++ ys) ≡ ys
  drop-prefix n xs ys h = ap (λ (m : ℕ). drop m (xs ++ ys)) h ∙ drop-append xs ys

word_lem : (v : ℕ) → IsU32 v → of_bytes (to_bytes 4 v) ≡ v
unfolding of_bytes to_bytes
word_lem v h = omega arith

-- The first word in memory.
pub field_at-to_bytes : (v : ℕ) (rest : List ℕ) → IsU32 v → field_at 4 0 (to_bytes 4 v ++ rest) ≡ v
unfolding field_at to_bytes
field_at-to_bytes v rest h = word_lem v h

pub drop-word : (v : ℕ) (rest : List ℕ) → drop 4 (to_bytes 4 v ++ rest) ≡ rest
unfolding to_bytes
drop-word v rest = refl

pub length-record_body :
    (r : DataRecord) → IsWellFormed r → length (record_body r) ≡ 20 + (r.ksz + r.vsz)
unfolding record_body to_bytes
length-record_body r w = omega (
  arith,
  length-append (take r.ksz r.key) (take r.vsz r.value),
  ap length (take-all r.ksz r.key w.key_size),
  ap length (take-all r.vsz r.value w.value_size),
  w.key_size,
  w.value_size,
)

All-word : (v : ℕ) (rest : List ℕ) → All IsByte rest → All IsByte (to_bytes 4 v ++ rest)
All-word v rest h = All-append IsByte (to_bytes 4 v) rest (to_bytes-IsByte 4 v) h

pub record_body-IsByte : (r : DataRecord) → IsWellFormed r → All IsByte (record_body r)
unfolding record_body
record_body-IsByte r w =
    rw (take-all r.ksz r.key w.key_size, take-all r.vsz r.value w.value_size)
      (All-word _ _ (
        All-word _ _ (
          All-word _ _ (
            All-word _ _
              (All-word _ _ (All-append IsByte r.key r.value w.key_bytes w.value_bytes))))))

record_ext :
    (r s : DataRecord)
    → r.tstamp ≡ s.tstamp
    → r.flag ≡ s.flag
    → r.version ≡ s.version
    → r.ksz ≡ s.ksz
    → r.vsz ≡ s.vsz
    → r.key ≡ s.key
    → r.value ≡ s.value
    → r ≡ s
record_ext r s a b c d e f g = λ i. record {
  tstamp = a i;
  flag = b i;
  version = c i;
  ksz = d i;
  vsz = e i;
  key = f i;
  value = g i;
}

-- The two parts behind the header, with the sizes as they are read.
data_parts :
    (r : DataRecord) (rest : List ℕ) (k v : ℕ)
    → IsWellFormed r
    → k ≡ r.ksz
    → v ≡ r.vsz
    → let parts = (take r.ksz r.key ++ take r.vsz r.value) ++ rest in
      (take k parts ≡ r.key) × (take v (drop k parts) ≡ r.value)
data_parts r rest k v w p q =
    rw
      (
        take-all r.ksz r.key w.key_size,
        take-all r.vsz r.value w.value_size,
        append_assoc r.key r.value rest,
      )
      (
        take-prefix k r.key (r.value ++ rest) (p ∙ w.key_size),
        ap (take v) (drop-prefix k r.key (r.value ++ rest) (p ∙ w.key_size))
            ∙ take-prefix v r.value rest (q ∙ w.value_size),
      )

-- A well-formed record is read back from its layout, whatever the checksum and what follows.
pub record_at-record_body :
    (crc : ℕ) (r : DataRecord) (rest : List ℕ)
    → IsWellFormed r
    → record_at (to_bytes 4 crc ++ (record_body r ++ rest)) ≡ r
unfolding record_at record_body field_at to_bytes
record_at-record_body crc r rest w =
    record_ext _ r (word_lem r.tstamp w.tstamp_word) (word_lem r.flag w.flag_word)
      (word_lem r.version w.version_word) (word_lem r.ksz w.ksz_word) (word_lem r.vsz w.vsz_word)
      parts.0 parts.1
  where
    parts :
        let all = (take r.ksz r.key ++ take r.vsz r.value) ++ rest in
        let k = of_bytes (to_bytes 4 r.ksz) in
        (take k all ≡ r.key) × (take (of_bytes (to_bytes 4 r.vsz)) (drop k all) ≡ r.value)
    parts = data_parts r rest _ _ w (word_lem r.ksz w.ksz_word) (word_lem r.vsz w.vsz_word)
