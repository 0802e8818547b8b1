-- ===== src/Recovery/Records.antt =====
-- `scanDataFile` of src/record.c on a file of whole records.
use mathlib.Core.List.{append_assoc, append-nil}
use beansdb.Base.{
  ℕ, zero, suc, ◌+◌, ◌-◌, ◌%◌, ◌^◌, ◌≤◌, ◌<◌, ◌≡◌, refl, sym, ap, ◌∙◌, arith, Bool, false, some,
  List, [], ◌∷◌, ◌++◌, length, drop, length-append, drop-append, All,
}
use beansdb.Record.{
  DataRecord, Env, decoded, record_length, decompress_record, encode_record, decode_record,
}
use beansdb.Record.RoundTrip.{IsFaithful}
use beansdb.Record.Stored.{IsLegal}
use beansdb.Bitcask.{Index}
use beansdb.Recovery.{
  scan_pages, scan_record, index_record, index_found, scan_records, scan_data_file,
}
use beansdb.Recovery.Replay.{log, Stored, stored, decode_record-Stored, replay}

module _ (idx : Index) (env : Env) (is_blank : ℕ → Bool) (bucket : ℕ) where
  open idx use {Tree}

  -- A record that stands at the pointer is found there.
  pub scan_pages-here :
      (fuel broken offset : ℕ) (buf : List ℕ) (t : Tree) (r : DataRecord)
      → 0 < fuel
      → 0 < length buf
      → decode_record env buf (length buf % 2 ^ 32) false ≡ decoded r
      → scan_pages idx env is_blank bucket fuel broken offset buf t
        ≡ record { place = offset; buf = buf; found = some r; tree = t }
  unfolding scan_pages
  scan_pages-here fuel broken offset [] t r h p e = absurd (omega (arith, p))
  scan_pages-here zero broken offset (b ∷ bs) t r h p e = absurd (omega (arith, h))
  scan_pages-here (suc fuel) broken offset (b ∷ bs) t r h p e = rw (e, scan_pages) refl

  -- One round of the loop, where `scan_record` finds a record.
  pub scan_records-found :
      (m offset place : ℕ) (buf buf' : List ℕ) (t t' cur : Tree) (c : DataRecord)
      → 0 < length buf
      → scan_record idx env is_blank bucket offset buf t
        ≡ record { place = place; buf = buf'; found = some c; tree = t' }
      → scan_records idx env is_blank bucket (suc m) offset buf (t, cur)
        ≡ scan_records idx env is_blank bucket m
            (place + record_length c)
            (drop (record_length c) buf')
            (index_record idx env is_blank bucket place (decompress_record env c) (t', cur))
  unfolding scan_records index_found
  scan_records-found m offset place [] buf' t t' cur c h e = absurd (omega (arith, h))
  scan_records-found m offset place (b ∷ bs) buf' t t' cur c h e =
      ap (index_found idx env is_blank bucket (scan_records idx env is_blank bucket m) cur) e

  -- The pointer stands behind the record afterwards.
  pub scan_records-behind :
      (m place : ℕ) (r c : DataRecord) (rest : List ℕ) (ts : Tree × Tree)
      → Stored env r c
      → scan_records idx env is_blank bucket m
          (place + record_length c)
          (drop (record_length c) (encode_record env r ++ rest))
          (index_record idx env is_blank bucket place (decompress_record env c) ts)
        ≡ scan_records idx env is_blank bucket m
            (place + length (encode_record env r))
            rest
            (index_record idx env is_blank bucket place (some r) ts)
  scan_records-behind m place r c rest ts s =
      rw (s.back, sym s.size)
        (ap
          (λ (xs : List ℕ).
            scan_records idx env is_blank bucket m (place + length (encode_record env r)) xs
              (index_record idx env is_blank bucket place (some r) ts))
          (drop-append (encode_record env r) rest))

  pub at_same :
      (m m' offset offset' : ℕ) (buf : List ℕ) (ts : Tree × Tree)
      → m ≡ m'
      → offset ≡ offset'
      → scan_records idx env is_blank bucket m offset buf ts
        ≡ scan_records idx env is_blank bucket m' offset' buf ts
  at_same m m' offset offset' buf ts e e' =
      ap (λ (k : ℕ). scan_records idx env is_blank bucket k offset buf ts) e
      ∙ ap (λ (k : ℕ). scan_records idx env is_blank bucket m' k buf ts) e'

  pub scan_records-end :
      (m offset : ℕ) (ts : Tree × Tree) → scan_records idx env is_blank bucket m offset [] ts ≡ ts
  unfolding scan_records
  scan_records-end zero offset ts = refl
  scan_records-end (suc m) offset ts = refl

  module _ (f : IsFaithful env) where
    scan_records-record :
        (m offset : ℕ) (r : DataRecord) (rest : List ℕ) (t cur : Tree)
        → IsLegal r
        → length (encode_record env r ++ rest) < 2 ^ 32
        → scan_records idx env is_blank bucket (suc m) offset (encode_record env r ++ rest) (t, cur)
          ≡ scan_records idx env is_blank bucket m
              (offset + length (encode_record env r))
              rest
              (index_record idx env is_blank bucket offset (some r) (t, cur))
    unfolding scan_record
    scan_records-record m offset r rest t cur l small =
        let (c, s) = stored env f r l in
        let buf = encode_record env r ++ rest in
        let long : 0 < length buf =
          omega (arith, s.not_empty, length-append (encode_record env r) rest) in
        scan_records-found m offset offset buf buf t t cur c long (
          scan_pages-here (length buf) 0 offset buf t c long long
            (decode_record-Stored env r c rest s small))
        ∙ scan_records-behind m offset r c rest (t, cur) s

    -- The records at the front of a file are replayed.
    pub scan_records-log :
        (rs : List DataRecord) (m offset : ℕ) (rest : List ℕ) (ts : Tree × Tree)
        → All IsLegal rs
        → length (log env rs ++ rest) < 2 ^ 32
        → scan_records idx env is_blank bucket (length rs + m) offset (log env rs ++ rest) ts
          ≡ scan_records idx env is_blank bucket m
              (offset + length (log env rs))
              rest
              (replay env idx is_blank bucket offset rs ts)
    unfolding replay
    scan_records-log [] m offset rest ts l small =
        at_same (0 + m) m offset (offset + 0) rest ts (omega arith) (omega arith)
    scan_records-log (r ∷ rs) m offset rest (t, cur) l small =
        let whole : encode_record env r ++ (log env rs ++ rest)
            ≡ encode_record env r ++ log env rs ++ rest =
          sym (append_assoc (encode_record env r) (log env rs) rest) in
        let n = length-append (encode_record env r) (log env rs) in
        let behind = offset + length (encode_record env r) in
        let ts' = index_record idx env is_blank bucket offset (some r) (t, cur) in
        at_same (suc (length rs) + m) (suc (length rs + m)) offset offset
          (encode_record env r ++ log env rs ++ rest) (t, cur) (omega arith) refl
        ∙ ap
            (λ (xs : List ℕ).
              scan_records idx env is_blank bucket (suc (length rs + m)) offset xs (t, cur))
            (sym whole)
        ∙ scan_records-record (length rs + m) offset r (log env rs ++ rest) t cur l.0
            (omega (arith, small, ap (λ (xs : List ℕ). length xs) whole))
        ∙ scan_records-log rs m behind rest ts' l.1 (
            omega (
              arith,
              small,
              ap (λ (xs : List ℕ). length xs) whole,
              length-append (encode_record env r) (log env rs ++ rest),
            ))
        ∙ at_same m m (behind + length (log env rs))
            (offset + length (encode_record env r ++ log env rs)) rest
            (replay env idx is_blank bucket behind rs ts') refl (omega (arith, n))

    pub length-log : (rs : List DataRecord) → All IsLegal rs → length rs ≤ length (log env rs)
    length-log [] l = omega arith
    length-log (r ∷ rs) l = omega (
      arith,
      length-append (encode_record env r) (log env rs),
      length-log rs l.1,
      (stored env f r l.0).1.not_empty,
    )

    -- scanDataFile on whole records.
    pub scan_data_file-log :
        (rs : List DataRecord) (ts : Tree × Tree)
        → All IsLegal rs
        → length (log env rs) < 2 ^ 32
        → scan_data_file idx env is_blank bucket (log env rs) ts
          ≡ replay env idx is_blank bucket 0 rs ts
    unfolding scan_data_file
    scan_data_file-log rs ts l small =
        let whole : log env rs ++ [] ≡ log env rs = append-nil (log env rs) in
        let m = length (log env rs) - length rs in
        at_same (length (log env rs)) (length rs + m) 0 0 (log env rs) ts
          (omega (arith, length-log rs l)) refl
        ∙ ap (λ (xs : List ℕ). scan_records idx env is_blank bucket (length rs + m) 0 xs ts)
            (sym whole)
        ∙ scan_records-log rs m 0 [] ts l
            (omega (arith, small, ap (λ (xs : List ℕ). length xs) whole))
        ∙ scan_records-end m (0 + length (log env rs)) (replay env idx is_blank bucket 0 rs ts)
