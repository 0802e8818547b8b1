-- ===== src/Recovery/HintFiles.antt =====
-- Hint files of src/hint.c: what is loaded from them, and that it is what the data file gives.
use mathlib.Core.List.{append-nil}
use beansdb.Base.{
  ℕ, zero, suc, ◌+◌, ◌^◌, ◌<◌, ◌≡◌, refl, sym, ap, ◌∙◌, arith, Bool, true, false, inl, inr, Option,
  none, some, List, [], ◌∷◌, ◌++◌, length, take, length-take, All, ltb, Bool-cases,
}
use beansdb.Base.Words.{of_bytes, field_at}
use beansdb.Base.Slices.{slice-take}
use beansdb.HTree.{same_key}
use beansdb.Record.{DataRecord, Env, encode_record}
use beansdb.Record.RoundTrip.{IsFaithful}
use beansdb.Bitcask.{Entry, Index}
use beansdb.Recovery.{entry_of_record, scan_data_file}
use beansdb.Recovery.Replay.{log}
use beansdb.Recovery.Newest.{live_entry, newest, IsOwn, ht_get-scan_data_file}
use beansdb.Recovery.Hints.{
  hint_head, hint_record, collect_all, write_hint_file, build_hint, open_hint, next_hint,
  scan_hints, scan_hint_file,
}
use beansdb.Recovery.Saved.{IsSmall, hint_ksize}
use beansdb.Recovery.Loaded.{
  Listing, hints, collect_all-hints, listed, IsHint, apply_listing, scan_hints-whole,
  ht_get-apply_listing,
}

open_hint-write_hint_file :
    (env : Env) (packed : Bool) (buf : List ℕ)
    → IsFaithful env
    → 0 < length buf
    → 0 < length (env.qlz_compress buf)
    → open_hint env packed (write_hint_file env packed buf) ≡ some buf
unfolding open_hint write_hint_file
open_hint-write_hint_file env false buf f h p = refl
open_hint-write_hint_file env true buf f h p =
    rw (f.decompress buf h, f.size_decompressed buf h) (ground (arith, p))

next_hint-nil : next_hint [] ≡ none
unfolding next_hint field_at of_bytes
next_hint-nil = refl

-- A hint that is cut off is none.
next_hint-cut :
    (key : List ℕ) (e : Entry) (n : ℕ)
    → IsSmall key e
    → n < hint_head + length key + 1
    → next_hint (take n (hint_record key e)) ≡ none
unfolding next_hint field_at of_bytes
next_hint-cut key e zero s h = refl
next_hint-cut key e (suc n) s h =
    let buf = hint_record key e in
    let ksize : field_at 1 0 (take (suc n) buf) ≡ length key =
      ap of_bytes (slice-take 0 1 (suc n) buf (omega arith))
      ∙ ap (field_at 1 0) (sym (append-nil buf))
      ∙ hint_ksize key [] e s in
    let cut : ltb (length (take (suc n) buf)) (hint_head + length key + 1) ≡ true =
      ground (arith, h, length-take (suc n) buf) in
    rw (ksize, cut) refl

module _ (idx : Index) (env : Env) (is_blank : ℕ → Bool) (bucket : ℕ) where
  open idx use {Tree, IsOk, ht_get}

  -- What build_hint wrote for a listing, compressed or not, scanHintFile loads: the tree answers
  -- for every key with its last entry in the listing where the version is positive, with nothing
  -- where it is not, and as before where the listing lacks the key. The entries fit their fields
  -- and are of the bucket, the keys are accepted, the listing is not empty, and the compressor is
  -- as documented and does not compress the hints to nothing.
  pub ht_get-scan_hint_file :
      (packed : Bool) (vs : Listing) (t : Tree)
      → IsFaithful env
      → 0 < length (hints vs)
      → 0 < length (env.qlz_compress (hints vs))
      → All (IsHint idx env is_blank bucket) vs
      → IsOk t
      → (t' : Tree) × (scan_hint_file idx env is_blank bucket packed (build_hint env packed vs) t
          ≡ some t')
        × ((k : List ℕ) → ht_get k t' ≡ listed live_entry k vs (ht_get k t))
  unfolding scan_hint_file build_hint
  ht_get-scan_hint_file packed vs t f some_hints some_bytes h ok =
      let opened : open_hint env packed (write_hint_file env packed (collect_all vs []))
          ≡ some (hints vs) =
        ap (λ (xs : List ℕ). open_hint env packed (write_hint_file env packed xs))
          (collect_all-hints vs [])
        ∙ open_hint-write_hint_file env packed (hints vs) f some_hints some_bytes in
      let whole = append-nil (hints vs) in
      (
        apply_listing idx env is_blank bucket vs t,
        rw (opened, scan_hint_file)
            (ap some (
              ap (λ (xs : List ℕ). scan_hints idx env is_blank bucket (length xs) xs t) (sym whole)
              ∙ scan_hints-whole idx env is_blank bucket vs [] t h next_hint-nil)),
        λ k. ht_get-apply_listing idx env is_blank bucket vs k t h ok,
      )

  -- From a hint file that is not compressed and ends within a hint, scanHintFile loads exactly the
  -- hints before it. The entries fit their fields and are of the bucket, and the keys are accepted.
  pub ht_get-scan_hint_file_cut :
      (vs : Listing) (key : List ℕ) (e : Entry) (n : ℕ) (t : Tree)
      → All (IsHint idx env is_blank bucket) vs
      → IsSmall key e
      → n < hint_head + length key + 1
      → IsOk t
      → (t' : Tree) × (scan_hint_file idx env is_blank bucket false
            (hints vs ++ take n (hint_record key e))
            t
          ≡ some t')
        × ((k : List ℕ) → ht_get k t' ≡ listed live_entry k vs (ht_get k t))
  unfolding scan_hint_file open_hint
  ht_get-scan_hint_file_cut vs key e n t h s cut ok = (
    apply_listing idx env is_blank bucket vs t,
    ap some (
        scan_hints-whole idx env is_blank bucket vs (take n (hint_record key e)) t h
          (next_hint-cut key e n s cut)),
    λ k. ht_get-apply_listing idx env is_blank bucket vs k t h ok,
  )

-- What the latest entry of a file leaves over what was there before the file.
abbrev over : Option Entry → Option Entry → Option Entry
over none before = before
over (some e) before = live_entry e

newest-over :
    (env : Env) (bucket : ℕ) (k : List ℕ) (offset : ℕ) (rs : List DataRecord)
    (before own : Option Entry)
    → newest env bucket live_entry k offset rs (over own before)
      ≡ over (newest env bucket (λ e. some e) k offset rs own) before
unfolding newest
newest-over env bucket k offset [] before own = refl
newest-over env bucket k offset (r ∷ rs) before own =
    let e = entry_of_record bucket offset r in
    let next = offset + length (encode_record env r) in
    elim (Bool-cases (same_key k r.key)) [
      | inl s ↦ rw (s, newest) (newest-over env bucket k next rs before (some e))
      | inr s ↦ rw (s, newest) (newest-over env bucket k next rs before own)
    ]

listed-over :
    (k : List ℕ) (vs : Listing) (before own : Option Entry)
    → listed live_entry k vs (over own before) ≡ over (listed (λ e. some e) k vs own) before
unfolding listed
listed-over k [] before own = refl
listed-over k ((key, e) ∷ vs) before own = elim (Bool-cases (same_key k key)) [
  | inl s ↦ rw (s, listed) (listed-over k vs before (some e))
  | inr s ↦ rw (s, listed) (listed-over k vs before own)
]

module _ (idx : Index) (env : Env) (is_blank : ℕ → Bool) (bucket : ℕ) where
  open idx use {Tree, IsOk, ht_get}

  -- Loading the hint file of a data file, compressed or not, answers for every key what scanning
  -- the data file answers. The hints are a listing of the tree of the file that is not empty, with
  -- entries that fit their fields, and the compressor does not compress them to nothing; the other
  -- conditions are those of ht_get-scan_data_file, with an empty tree of the file.
  pub scan_hint_file-scan_data_file :
      (packed : Bool) (rs : List DataRecord) (vs : Listing) (t cur : Tree)
      → IsFaithful env
      → All (IsOwn idx env is_blank bucket) rs
      → length (log env rs) < 2 ^ 32
      → IsOk t
      → IsOk cur
      → ((k : List ℕ) → ht_get k cur ≡ none)
      → ((k : List ℕ)
          → listed (λ e. some e) k vs none
            ≡ ht_get k (scan_data_file idx env is_blank bucket (log env rs) (t, cur)).1)
      → All (IsHint idx env is_blank bucket) vs
      → 0 < length (hints vs)
      → 0 < length (env.qlz_compress (hints vs))
      → (t' : Tree) × (scan_hint_file idx env is_blank bucket packed (build_hint env packed vs) t
          ≡ some t')
        × ((k : List ℕ)
            → ht_get k t'
              ≡ ht_get k (scan_data_file idx env is_blank bucket (log env rs) (t, cur)).0)
  scan_hint_file-scan_data_file packed rs vs t cur f own small ok ok' empty lists h some_hints
        some_bytes =
      let (t2, loads, found) =
        ht_get-scan_hint_file idx env is_blank bucket packed vs t f some_hints some_bytes h ok in
      (
        t2,
        loads,
        λ k.
            let (live, all, _, _) =
              ht_get-scan_data_file idx env is_blank bucket rs k t cur f own small ok ok' in
            found k
            ∙ listed-over k vs (ht_get k t) none
            ∙ ap (λ (o : Option Entry). over o (ht_get k t))
                (lists k ∙ all ∙ ap (newest env bucket (λ (e : Entry). some e) k 0 rs) (empty k))
            ∙ sym (newest-over env bucket k 0 rs (ht_get k t) none)
            ∙ sym live,
      )
