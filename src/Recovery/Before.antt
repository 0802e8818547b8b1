-- ===== src/Recovery/Before.antt =====
-- `scanDataFileBefore` of src/record.c stops at the first record that is not old enough.
use beansdb.Base.{
  ℕ, zero, suc, ◌+◌, ◌-◌, ◌^◌, ◌<◌, ◌≡◌, refl, sym, ap, ◌∙◌, arith, Bool, ◌&&◌, inl, inr, some,
  List, [], ◌∷◌, ◌++◌, length, drop, length-append, drop-append, All, ltb, leb, if◌then◌else◌,
  Bool-cases,
}
use beansdb.Record.{DataRecord, Env, compress_record, encode_record}
use beansdb.Record.RoundTrip.{IsFaithful}
use beansdb.Record.Stored.{IsLegal}
use beansdb.Bitcask.{Index, check_key}
use beansdb.Recovery.{
  Found, scan_record, index_record, index_before, found_before, scan_before, scan_data_file_before,
}
use beansdb.Recovery.Replay.{log, stored, decode_record-Stored, replay}
use beansdb.Recovery.Records.{scan_pages-here, length-log}

abbrev pub is_new : ℕ → DataRecord → Bool
is_new before r = ltb r.tstamp (2 ^ 31) && leb before r.tstamp

-- The records before the first that is not older.
abbrev pub older : ℕ → List DataRecord → List DataRecord
older before [] = []
older before (r ∷ rs) = if is_new before r then [] else r ∷ older before rs

module _ (env : Env) where
  tstamp-compress_record : (r : DataRecord) → (compress_record env r).tstamp ≡ r.tstamp
  unfolding compress_record
  tstamp-compress_record r = ground arith

module _ (idx : Index) (env : Env) (is_blank : ℕ → Bool) (bucket : ℕ) where
  open idx use {Tree}

  index_before-eq-index_record :
      (offset : ℕ) (r : DataRecord) (t cur : Tree)
      → index_before idx env is_blank bucket offset (some r) t
        ≡ (index_record idx env is_blank bucket offset (some r) (t, cur)).0
  unfolding index_before index_record
  index_before-eq-index_record offset r t cur = elim (Bool-cases (check_key is_blank r.key)) [
    | inl h ↦ rw h refl
    | inr h ↦ rw h refl
  ]

  scan_before-found :
      (before m offset : ℕ) (buf : List ℕ) (t : Tree) (f : Found Tree)
      → 0 < length buf
      → scan_record idx env is_blank bucket offset buf t ≡ f
      → scan_before idx env is_blank bucket before (suc m) offset buf t
        ≡ found_before idx env is_blank bucket before
            (scan_before idx env is_blank bucket before m)
            f
  unfolding scan_before
  scan_before-found before m offset [] t f h e = absurd (omega (arith, h))
  scan_before-found before m offset (b ∷ bs) t f h e =
      ap
        (found_before idx env is_blank bucket before (scan_before idx env is_blank bucket before m))
        e

  scan_before-end :
      (before m offset : ℕ) (t : Tree)
      → scan_before idx env is_blank bucket before m offset [] t ≡ t
  unfolding scan_before
  scan_before-end before zero offset t = refl
  scan_before-end before (suc m) offset t = refl

  module _ (f : IsFaithful env) (before : ℕ) where
    scan_before-record :
        (m offset : ℕ) (r : DataRecord) (rest : List ℕ) (t cur : Tree)
        → IsLegal r
        → length (encode_record env r ++ rest) < 2 ^ 32
        → scan_before idx env is_blank bucket before (suc m) offset (encode_record env r ++ rest) t
          ≡ (if is_new before r
              then t
              else scan_before idx env is_blank bucket before m
                  (offset + length (encode_record env r))
                  rest
                  (index_record idx env is_blank bucket offset (some r) (t, cur)).0)
    unfolding scan_record found_before
    scan_before-record m offset r rest t cur l small =
        let (c, s) = stored env f r l in
        let buf = encode_record env r ++ rest in
        let long : 0 < length buf =
          omega (arith, s.not_empty, length-append (encode_record env r) rest) in
        let same : c.tstamp ≡ r.tstamp =
          ap (λ (x : DataRecord). x.tstamp) (sym s.compressed) ∙ tstamp-compress_record env r in
        let behind : drop (length (encode_record env r)) buf ≡ rest =
          drop-append (encode_record env r) rest in
        scan_before-found before m offset buf t
          (record { place = offset; buf = buf; found = some c; tree = t }) long
          (scan_pages-here idx env is_blank bucket (length buf) 0 offset buf t c long long
            (decode_record-Stored env r c rest s small))
        ∙ rw (same, s.back, sym s.size, behind, index_before-eq-index_record offset r t cur) refl

    scan_before-log :
        (rs : List DataRecord) (m offset : ℕ) (t cur : Tree)
        → All IsLegal rs
        → length (log env rs) < 2 ^ 32
        → scan_before idx env is_blank bucket before (length rs + m) offset (log env rs) t
          ≡ (replay env idx is_blank bucket offset (older before rs) (t, cur)).0
    unfolding replay
    scan_before-log [] m offset t cur l small = scan_before-end before (0 + m) offset t
    scan_before-log (r ∷ rs) m offset t cur l small =
        let n = length-append (encode_record env r) (log env rs) in
        let (t', cur') = index_record idx env is_blank bucket offset (some r) (t, cur) in
        let next = offset + length (encode_record env r) in
        ap (λ (k : ℕ). scan_before idx env is_blank bucket before k offset (log env (r ∷ rs)) t)
          (omega arith)
        ∙ scan_before-record (length rs + m) offset r (log env rs) t cur l.0 small
        ∙ elim (Bool-cases (is_new before r)) [
          | inl new ↦ rw new refl
          | inr old ↦
              rw (old, replay) (scan_before-log rs m next t' cur' l.1 (omega (arith, small, n)))
        ]

    -- scanDataFileBefore indexes exactly the records before the first whose time is not before the
    -- one given, as scanDataFile does. The records are legal, the compressor is as documented, and
    -- the file is shorter than 2 ^ 32.
    pub scan_data_file_before-log :
        (rs : List DataRecord) (t cur : Tree)
        → All IsLegal rs
        → length (log env rs) < 2 ^ 32
        → scan_data_file_before idx env is_blank bucket before (log env rs) t
          ≡ (replay env idx is_blank bucket 0 (older before rs) (t, cur)).0
    unfolding scan_data_file_before
    scan_data_file_before-log rs t cur l small =
        ap (λ (k : ℕ). scan_before idx env is_blank bucket before k 0 (log env rs) t)
          (omega (arith, length-log idx env is_blank bucket f rs l))
        ∙ scan_before-log rs (length (log env rs) - length rs) 0 t cur l small
