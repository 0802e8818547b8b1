-- ===== src/Recovery/Torn.antt =====
-- `scanDataFile` of src/record.c on a file of which the last write was torn.
use mathlib.Core.Path.{subst}
use mathlib.Core.Option.{some-injective}
use beansdb.Base.{
  ℕ, suc, ◌+◌, ◌*◌, ◌/◌, ◌%◌, ◌^◌, ◌≤◌, ◌<◌, ◌≡◌, refl, sym, ap, ◌∙◌, arith, bit_or, Bool, true,
  false, ◌&&◌, ◌⊎◌, inl, inr, Option, none, some, List, [], ◌∷◌, ◌++◌, length, take, drop,
  length-append, All, ltb, leb, ◌==◌, if◌then◌else◌, Bool-cases, Option-cases,
}
use beansdb.Base.Masks.{bit_or-page}
use beansdb.Base.Words.{field_at}
use beansdb.HTree.{same_key}
use beansdb.Record.{DataRecord, Env, padding, header_size, max_key_len, encode_record}
use beansdb.Record.RoundTrip.{IsFaithful}
use beansdb.Record.Stored.{IsLegal, length-encode_record_pages}
use beansdb.Bitcask.{Entry, Index, is_positive}
use beansdb.Recovery.{place_of, entry_of_record, remove_broken, scan_data_file}
use beansdb.Recovery.Replay.{log, replay}
use beansdb.Recovery.Newest.{live_entry, newest, IsOwn, own-IsLegal, ht_get-replay}
use beansdb.Recovery.Broken.{IsGap, scan_data_file-tail}

kept_place : (b : Bool) (e e' : Entry) → (if b then some e else none) ≡ some e' → e'.place ≡ e.place
kept_place true e e' h = ap (λ (x : Entry). x.place) (sym (some-injective e e' h))
kept_place false e e' h = cc

live_entry-place : (e e' : Entry) → live_entry e ≡ some e' → e'.place ≡ e.place
live_entry-place e e' h = kept_place (is_positive e.ver) e e' h

module _ (env : Env) (bucket : ℕ) (f : IsFaithful env) where
  length-log_pages : (rs : List DataRecord) → All IsLegal rs → length (log env rs) % 256 ≡ 0
  length-log_pages [] l = refl
  length-log_pages (r ∷ rs) l = omega (
    arith,
    length-append (encode_record env r) (log env rs),
    length-log_pages rs l.1,
    (length-encode_record_pages env f r l.0).1,
  )

  -- Where an entry comes from.
  newest-cases :
      (k : List ℕ) (offset : ℕ) (rs : List DataRecord) (before : Option Entry) (e : Entry)
      → All IsLegal rs
      → offset % 256 ≡ 0
      → newest env bucket live_entry k offset rs before ≡ some e
      → (before ≡ some e)
        ⊎ ((o : ℕ) × (o < offset + length (log env rs))
            × (o % 256 ≡ 0)
            × (e.place ≡ place_of bucket o))
  unfolding newest
  newest-cases k offset [] before e l p h = inl h
  newest-cases k offset (r ∷ rs) before e l p h =
      let n = length-append (encode_record env r) (log env rs) in
      let pages = length-encode_record_pages env f r l.0 in
      elim (newest-cases k (offset + length (encode_record env r)) rs
        (if same_key k r.key then live_entry (entry_of_record bucket offset r) else before) e l.1
        (omega (arith, p, pages.1)) h) [
          | inr (o, small, page, q) ↦ inr (o, omega (arith, small, n), page, q)
          | inl q ↦ elim (Bool-cases (same_key k r.key)) [
            | inl s ↦ inr (
              offset,
              omega (arith, n, pages.0),
              p,
              live_entry-place (entry_of_record bucket offset r) e (
                  subst
                    (λ (b : Bool).
                      (if b then live_entry (entry_of_record bucket offset r) else before) ≡ some e)
                    s q),
            )
            | inr s ↦ inl (
                subst
                  (λ (b : Bool).
                    (if b then live_entry (entry_of_record bucket offset r) else before) ≡ some e)
                  s q)
          ]
        ]

module _ (idx : Index) (env : Env) (is_blank : ℕ → Bool) (bucket : ℕ) where
  open idx use {Tree, IsOk, ht_get}

  -- The tree leads nowhere to a place of the bucket.
  abbrev pub IsFresh : ℕ → Tree → Type 0
  IsFresh place t =
      (k : List ℕ) (e : Entry)
      → ht_get k t ≡ some e
      → (e.place / 256 * 256 == place && e.place % 256 == bucket) ≡ false

  remove_broken-fresh :
      (place : ℕ) (buf : List ℕ) (t : Tree)
      → IsFresh place t
      → remove_broken idx env is_blank bucket place buf t ≡ t
  unfolding remove_broken
  remove_broken-fresh place buf t h =
      let ksz = field_at 4 16 buf in
      let key = take ksz (drop header_size buf) in
      elim (Bool-cases
        ((ltb 0 ksz && leb ksz max_key_len) && ltb (header_size + ksz) (length buf))) [
          | inr no_key ↦ rw no_key refl
          | inl sized ↦ elim (Option-cases (ht_get key t)) [
            | inl e ↦ rw (sized, e) refl
            | inr (e, q) ↦ rw (sized, q, h key e q) refl
          ]
        ]

  replay-IsFresh :
      (rs : List DataRecord) (t cur : Tree)
      → IsFaithful env
      → All (IsOwn idx env is_blank bucket) rs
      → length (log env rs) < 2 ^ 32
      → bucket < 256
      → IsOk t
      → IsOk cur
      → IsFresh (length (log env rs)) t
      → IsFresh (length (log env rs)) (replay env idx is_blank bucket 0 rs (t, cur)).0
  replay-IsFresh rs t cur f own small b ok ok' fresh k e h =
      let found = (ht_get-replay idx env is_blank bucket rs 0 k t cur own ok ok').0 in
      elim (newest-cases env bucket f k 0 rs (ht_get k t) e
        (own-IsLegal idx env is_blank bucket rs own) refl (sym found ∙ h)) [
          | inl q ↦ fresh k e q
          | inr (o, below, page, q) ↦
              let place : e.place ≡ o + bucket =
                q ∙ place_of_page o page (omega (arith, below, small)) in
              ground (arith, place, page, b, below)
        ]
    where
      place_of_page : (o : ℕ) → o % 256 ≡ 0 → o < 2 ^ 32 → place_of bucket o ≡ o + bucket
      place_of_page o page h =
          let same : o % 2 ^ 32 ≡ o = omega (arith, h) in
          ap (λ (x : ℕ). bit_or x bucket) same ∙ bit_or-page o bucket page b

  -- A torn end costs no more than itself: where whole records are followed by bytes of which no
  -- page holds a record and the first leads to none, scanDataFile gives the two trees that the
  -- whole records give. The tree does not lead to the place of the torn end, the bucket is below
  -- 256, and the other conditions are those of ht_get-scan_data_file.
  pub ht_get-scan_data_file_torn :
      (n : ℕ) (rs : List DataRecord) (tail k : List ℕ) (t cur : Tree)
      → IsFaithful env
      → All (IsOwn idx env is_blank bucket) rs
      → IsGap idx env is_blank bucket (suc n) tail
      → length tail ≤ suc n * padding
      → length (log env rs ++ tail) < 2 ^ 32
      → bucket < 256
      → IsFresh (length (log env rs)) t
      → IsOk t
      → IsOk cur
      → (let (t', cur') = scan_data_file idx env is_blank bucket (log env rs ++ tail) (t, cur) in
          (ht_get k t' ≡ newest env bucket live_entry k 0 rs (ht_get k t))
          × (ht_get k cur' ≡ newest env bucket (λ e. some e) k 0 rs (ht_get k cur)))
  ht_get-scan_data_file_torn n rs tail k t cur f own gap short small b fresh ok ok' =
      let (found, found_cur, _, _) =
        ht_get-replay idx env is_blank bucket rs 0 k t cur own ok ok' in
      rw
        (
          scan_data_file-tail idx env is_blank bucket f n rs tail t cur
              (own-IsLegal idx env is_blank bucket rs own) small gap short,
          remove_broken-fresh (length (log env rs)) tail
              (replay env idx is_blank bucket 0 rs (t, cur)).0
              (replay-IsFresh rs t cur f own (omega (arith, small, length-append (log env rs) tail))
                b ok ok' fresh),
        )
        (found, found_cur)
