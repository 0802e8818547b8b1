-- ===== src/Recovery/Saved.antt =====
-- The hints of src/hint.c are read back as they were written.
use mathlib.Core.List.{append_assoc}
use beansdb.Base.{
  ℕ, ◌+◌, ◌*◌, ◌/◌, ◌^◌, ◌<◌, ◌≡◌, refl, sym, ap, ◌∙◌, arith, false, some, List, [], ◌∷◌, ◌++◌,
  length, drop, length-append, take-append, drop-append, ltb,
}
use beansdb.Base.Words.{to_bytes, of_bytes, field_at}
use beansdb.Bitcask.{Entry, word_of}
use beansdb.Bitcask.Sets.{word_of-lt}
use beansdb.Recovery.{int_of}
use beansdb.Recovery.Hints.{hint_head, hint_record, next_hint}

-- An entry that fits its fields.
pub record IsSmall (key : List ℕ) (e : Entry) : Type 0 where
  pub key_limit : length key < 256
  pub place_word : e.place < 2 ^ 32
  pub hash_word : e.hash < 2 ^ 16
  pub ver_word : int_of (word_of e.ver) ≡ e.ver

-- An entry without its bucket.
abbrev pub hinted : Entry → Entry
hinted e = record e { place = e.place / 2 ^ 8 * 2 ^ 8 }

pub length-hint_record :
    (key : List ℕ) (e : Entry) → length (hint_record key e) ≡ hint_head + length key + 1
unfolding hint_record to_bytes
length-hint_record key e = omega (arith, length-append key (0 ∷ []))

module _ (key rest : List ℕ) (e : Entry) (s : IsSmall key e) where
  abbrev hint_buf : List ℕ
  hint_buf = hint_record key e ++ rest

  pub hint_ksize : field_at 1 0 hint_buf ≡ length key
  unfolding hint_record to_bytes field_at of_bytes
  hint_ksize = omega (arith, s.key_limit)

  hint_place : field_at 3 1 hint_buf ≡ e.place / 2 ^ 8
  unfolding hint_record to_bytes field_at of_bytes
  hint_place = omega (arith, s.place_word)

  hint_ver : field_at 4 4 hint_buf ≡ word_of e.ver
  unfolding hint_record to_bytes field_at of_bytes
  hint_ver = omega (arith, word_of-lt e.ver)

  hint_hash : field_at 2 8 hint_buf ≡ e.hash
  unfolding hint_record to_bytes field_at of_bytes
  hint_hash = omega (arith, s.hash_word)

  hint_key : drop hint_head hint_buf ≡ key ++ (0 ∷ rest)
  unfolding hint_record to_bytes
  hint_key = append_assoc key (0 ∷ []) rest

  hint_rest : drop (hint_head + length key + 1) hint_buf ≡ rest
  hint_rest =
      ap (λ (n : ℕ). drop n hint_buf) (sym (length-hint_record key e))
      ∙ drop-append (hint_record key e) rest

  pub next_hint-hint_record : next_hint hint_buf ≡ some (key, hinted e, rest)
  unfolding next_hint
  next_hint-hint_record =
      let n = length-append (hint_record key e) rest in
      let fits : ltb (length hint_buf) (hint_head + length key + 1) ≡ false =
        ground (arith, n, length-hint_record key e) in
      rw
        (
          hint_ksize,
          fits,
          hint_place,
          hint_ver,
          hint_hash,
          hint_key,
          hint_rest,
          take-append key (0 ∷ rest),
          s.ver_word,
        )
        refl
