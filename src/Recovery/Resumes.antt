-- ===== src/Recovery/Resumes.antt =====
-- `scanDataFile` of src/record.c finds the records behind a broken part.
use mathlib.Core.List.{append-nil}
use beansdb.Base.{
  ℕ, suc, ◌+◌, ◌-◌, ◌*◌, ◌^◌, ◌<◌, ◌≡◌, refl, sym, ap, ◌∙◌, arith, Bool, some, List, [], ◌∷◌, ◌++◌,
  length, drop, length-append, drop-append, All,
}
use beansdb.Record.{DataRecord, Env, padding, encode_record}
use beansdb.Record.RoundTrip.{IsFaithful}
use beansdb.Record.Stored.{IsLegal}
use beansdb.Bitcask.{Index}
use beansdb.Recovery.{
  remove_broken, scan_pages, scan_record, index_record, scan_records, scan_data_file,
}
use beansdb.Recovery.Replay.{log, stored, decode_record-Stored, replay}
use beansdb.Recovery.Records.{
  scan_pages-here, scan_records-found, scan_records-behind, scan_records-log, at_same, length-log,
  scan_records-end,
}
use beansdb.Recovery.Broken.{IsGap, pass_gap}

module _ (idx : Index) (env : Env) (is_blank : ℕ → Bool) (bucket : ℕ) (f : IsFaithful env) where
  open idx use {Tree}

  -- The first record behind a gap.
  scan_records-gap :
      (n m offset : ℕ) (gap : List ℕ) (r : DataRecord) (rest : List ℕ) (t cur : Tree)
      → IsLegal r
      → length (gap ++ (encode_record env r ++ rest)) < 2 ^ 32
      → IsGap idx env is_blank bucket (suc n) (gap ++ (encode_record env r ++ rest))
      → length gap ≡ suc n * padding
      → scan_records idx env is_blank bucket
          (suc m)
          offset
          (gap ++ (encode_record env r ++ rest))
          (t, cur)
        ≡ scan_records idx env is_blank bucket m
            (offset + suc n * padding + length (encode_record env r))
            rest
            (index_record idx env is_blank bucket (offset + suc n * padding) (some r) (
              remove_broken idx env is_blank bucket offset (gap ++ (encode_record env r ++ rest)) t,
              cur,
            ))
  unfolding scan_record
  scan_records-gap n m offset gap r rest t cur l small g size =
      let (c, s) = stored env f r l in
      let buf = encode_record env r ++ rest in
      let t' = remove_broken idx env is_blank bucket offset (gap ++ buf) t in
      let fuel = length (gap ++ buf) - suc n in
      let place = offset + suc n * padding in
      let whole = length-append gap buf in
      let long : 0 < length buf =
        omega (arith, s.not_empty, length-append (encode_record env r) rest) in
      let behind : drop (suc n * padding) (gap ++ buf) ≡ buf =
        ap (λ (k : ℕ). drop k (gap ++ buf)) (sym size) ∙ drop-append gap buf in
      scan_records-found idx env is_blank bucket m offset place (gap ++ buf) buf t t' cur c
        (omega (arith, whole, long))
        (ap (λ (k : ℕ). scan_pages idx env is_blank bucket k 0 offset (gap ++ buf) t)
            (omega (arith, whole, size))
          ∙ pass_gap idx env is_blank bucket n fuel offset (gap ++ buf) t g
          ∙ ap (λ (xs : List ℕ). scan_pages idx env is_blank bucket fuel (1 + n) place xs t') behind
          ∙ scan_pages-here idx env is_blank bucket fuel (1 + n) place buf t' c
              (omega (arith, whole, size, long)) long
              (decode_record-Stored env r c rest s (omega (arith, small, whole))))
      ∙ scan_records-behind idx env is_blank bucket m place r c rest (t', cur) s

  -- scanDataFile finds the records behind a broken part: where a part of whole pages, at most 100
  -- MiB and with no record on a page and none behind its first, stands between legal records, all
  -- records are indexed at their places, and of the broken part only the record that the tree held
  -- for its place is taken out. The compressor is as documented and the file is shorter than 2 ^
  -- 32.
  pub scan_data_file-gap :
      (n : ℕ) (rs : List DataRecord) (gap : List ℕ) (r : DataRecord) (more : List DataRecord)
      (t cur : Tree)
      → All IsLegal rs
      → All IsLegal (r ∷ more)
      → length (log env rs ++ (gap ++ log env (r ∷ more))) < 2 ^ 32
      → IsGap idx env is_blank bucket (suc n) (gap ++ log env (r ∷ more))
      → length gap ≡ suc n * padding
      → scan_data_file idx env is_blank bucket (log env rs ++ (gap ++ log env (r ∷ more))) (t, cur)
        ≡ (let (t', cur') = replay env idx is_blank bucket 0 rs (t, cur) in
            let place = length (log env rs) in
            replay env idx is_blank bucket
              (place + length gap)
              (r ∷ more)
              (remove_broken idx env is_blank bucket place (gap ++ log env (r ∷ more)) t', cur'))
  unfolding scan_data_file replay
  scan_data_file-gap n rs gap r more t cur l l' small g size =
      let ts' = replay env idx is_blank bucket 0 rs (t, cur) in
      let place = length (log env rs) in
      let rest = gap ++ log env (r ∷ more) in
      let file = log env rs ++ rest in
      let m = length file - length rs - suc (length more) in
      let t' = remove_broken idx env is_blank bucket place rest ts'.0 in
      let next = place + suc n * padding in
      let ts2 = index_record idx env is_blank bucket next (some r) (t', ts'.1) in
      let behind = next + length (encode_record env r) in
      let n1 = length-append (log env rs) rest in
      let n2 = length-append gap (log env (r ∷ more)) in
      let n3 = length-log idx env is_blank bucket f rs l in
      let n4 = length-log idx env is_blank bucket f (r ∷ more) l' in
      let n5 = length-append (encode_record env r) (log env more) in
      at_same idx env is_blank bucket (length file) (length rs + suc (length more + m)) 0 0 file
        (t, cur) (omega (arith, n1, n2, n3, n4, n5)) refl
      ∙ scan_records-log idx env is_blank bucket f rs (suc (length more + m)) 0 rest (t, cur) l
          small
      ∙ at_same idx env is_blank bucket (suc (length more + m)) (suc (length more + m)) (0 + place)
          place rest ts' refl (omega arith)
      ∙ scan_records-gap n (length more + m) place gap r (log env more) ts'.0 ts'.1 l'.0
          (omega (arith, small, n1)) g size
      ∙ ap (λ (xs : List ℕ). scan_records idx env is_blank bucket (length more + m) behind xs ts2)
          (sym (append-nil (log env more)))
      ∙ scan_records-log idx env is_blank bucket f more m behind [] ts2 l'.1 (
          omega
            (arith, small, n1, n2, n5, ap (λ (xs : List ℕ). length xs) (append-nil (log env more))))
      ∙ scan_records-end idx env is_blank bucket m (behind + length (log env more))
          (replay env idx is_blank bucket behind more ts2)
      ∙ ap
          (λ (k : ℕ).
            replay env idx is_blank bucket (k + length (encode_record env r)) more
              (index_record idx env is_blank bucket k (some r) (t', ts'.1)))
          (omega (arith, size))
