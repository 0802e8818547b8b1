-- ===== src/Recovery/Broken.antt =====
-- `scanDataFile` of src/record.c on a file with a broken part.
use beansdb.Base.{
  ℕ, zero, suc, ◌+◌, ◌-◌, ◌*◌, ◌/◌, ◌%◌, ◌^◌, ◌≤◌, ◌<◌, ◌≡◌, refl, sym, ap, ◌∙◌, arith, Bool, false,
  none, List, [], ◌∷◌, ◌++◌, length, drop, length-append, length-drop, All, ◌==◌, if◌then◌else◌,
}
use beansdb.Base.Slices.{drop-add}
use beansdb.Record.{DataRecord, Env, BadReason, bad, padding, max_value_len, decode_record}
use beansdb.Record.RoundTrip.{IsFaithful}
use beansdb.Record.Stored.{IsLegal}
use beansdb.Bitcask.{Index}
use beansdb.Recovery.{
  remove_broken, after_broken, scan_pages, scan_record, index_found, scan_records, scan_data_file,
}
use beansdb.Recovery.Replay.{log, replay}
use beansdb.Recovery.Records.{scan_records-log, at_same, length-log}

module _ (idx : Index) (env : Env) (is_blank : ℕ → Bool) (bucket : ℕ) where
  open idx use {Tree}

  -- At none of the first `n` pages does a record stand.
  abbrev pub Skips : ℕ → List ℕ → Type 0
  Skips n buf =
      (i : ℕ)
      → i < n
      → (i * padding < length buf)
        × (reason : BadReason) × (decode_record env (drop (i * padding) buf)
              (length (drop (i * padding) buf) % 2 ^ 32) false
            ≡ bad reason)

  -- The sizes at the first page lead to no record either.
  pub record IsGap (n : ℕ) (buf : List ℕ) : Type 0 where
    pub skips : Skips n buf
    pub no_jump :
        (reason : BadReason)
        → decode_record env buf (length buf % 2 ^ 32) false ≡ bad reason
        → after_broken idx env is_blank bucket reason buf ≡ none
    pub few : n ≤ max_value_len / padding

  -- A page without a record is passed.
  pass_page :
      (fuel broken offset : ℕ) (buf : List ℕ) (t : Tree) (reason : BadReason)
      → 0 < length buf
      → decode_record env buf (length buf % 2 ^ 32) false ≡ bad reason
      → (broken ≡ 0 → after_broken idx env is_blank bucket reason buf ≡ none)
      → broken + 1 ≤ max_value_len / padding
      → scan_pages idx env is_blank bucket (suc fuel) broken offset buf t
        ≡ scan_pages idx env is_blank bucket fuel
            (broken + 1)
            (offset + padding)
            (drop padding buf)
            (if broken == 0 then remove_broken idx env is_blank bucket offset buf t else t)
  unfolding scan_pages
  pass_page fuel broken offset [] t reason h e j k = absurd (omega (arith, h))
  pass_page fuel zero offset (b ∷ bs) t reason h e j k =
      rw (e, scan_pages, j refl) (ground (arith, k))
  pass_page fuel (suc broken) offset (b ∷ bs) t reason h e j k =
      rw (e, scan_pages) (ground (arith, k))

  at_pages :
      (fuel broken broken' offset offset' : ℕ) (buf buf' : List ℕ) (t : Tree)
      → broken ≡ broken'
      → offset ≡ offset'
      → buf ≡ buf'
      → scan_pages idx env is_blank bucket fuel broken offset buf t
        ≡ scan_pages idx env is_blank bucket fuel broken' offset' buf' t
  at_pages fuel broken broken' offset offset' buf buf' t e p q =
      ap (λ (k : ℕ). scan_pages idx env is_blank bucket fuel k offset buf t) e
      ∙ ap (λ (k : ℕ). scan_pages idx env is_blank bucket fuel broken' k buf t) p
      ∙ ap (λ (xs : List ℕ). scan_pages idx env is_blank bucket fuel broken' offset' xs t) q

  Skips-drop : (n : ℕ) (buf : List ℕ) → Skips (suc n) buf → Skips n (drop padding buf)
  Skips-drop n buf s i h =
      let (p, reason, e) = s (suc i) (omega (arith, h)) in
      let same : drop (suc i * padding) buf ≡ drop (i * padding) (drop padding buf) =
        ap (λ (k : ℕ). drop k buf) (omega arith) ∙ drop-add padding (i * padding) buf in
      (
        omega (arith, p, length-drop padding buf),
        reason,
        ap (λ (xs : List ℕ). decode_record env xs (length xs % 2 ^ 32) false) (sym same) ∙ e,
      )

  pass_pages :
      (n fuel broken offset : ℕ) (buf : List ℕ) (t : Tree)
      → 0 < broken
      → broken + n ≤ max_value_len / padding
      → Skips n buf
      → scan_pages idx env is_blank bucket (n + fuel) broken offset buf t
        ≡ scan_pages idx env is_blank bucket fuel
            (broken + n)
            (offset + n * padding)
            (drop (n * padding) buf)
            t
  pass_pages zero fuel broken offset buf t h k s =
      ap (λ (m : ℕ). scan_pages idx env is_blank bucket m broken offset buf t) (omega arith)
      ∙ at_pages fuel broken (broken + 0) offset (offset + 0 * padding) buf (drop (0 * padding) buf)
          t (omega arith) (omega arith) refl
  pass_pages (suc n) fuel broken offset buf t h k s =
      let (p, reason, e) = s 0 (omega arith) in
      let kept : (if broken == 0 then remove_broken idx env is_blank bucket offset buf t else t)
          ≡ t =
        ground (arith, h) in
      ap (λ (m : ℕ). scan_pages idx env is_blank bucket m broken offset buf t) (omega arith)
      ∙ pass_page (n + fuel) broken offset buf t reason (omega (arith, p)) e
          (λ z. absurd (omega (arith, h, z))) (omega (arith, k))
      ∙ ap
          (scan_pages idx env is_blank bucket (n + fuel) (broken + 1) (offset + padding)
            (drop padding buf))
          kept
      ∙ pass_pages n fuel (broken + 1) (offset + padding) (drop padding buf) t (omega arith)
          (omega (arith, k)) (Skips-drop n buf s)
      ∙ at_pages fuel (broken + 1 + n) (broken + suc n) (offset + padding + n * padding)
          (offset + suc n * padding) (drop (n * padding) (drop padding buf))
          (drop (suc n * padding) buf) t (omega arith) (omega arith)
          (sym (drop-add padding (n * padding) buf) ∙ ap (λ (m : ℕ). drop m buf) (omega arith))

  -- The pages of a gap are passed, and the record that stood at the first is taken out of the tree.
  pub pass_gap :
      (n fuel offset : ℕ) (buf : List ℕ) (t : Tree)
      → IsGap (suc n) buf
      → scan_pages idx env is_blank bucket (suc n + fuel) 0 offset buf t
        ≡ scan_pages idx env is_blank bucket fuel
            (1 + n)
            (offset + suc n * padding)
            (drop (suc n * padding) buf)
            (remove_broken idx env is_blank bucket offset buf t)
  pass_gap n fuel offset buf t g =
      let t' = remove_broken idx env is_blank bucket offset buf t in
      let (p, reason, e) = g.skips 0 (omega arith) in
      ap (λ (m : ℕ). scan_pages idx env is_blank bucket m 0 offset buf t) (omega arith)
      ∙ pass_page (n + fuel) 0 offset buf t reason (omega (arith, p)) e (λ z. g.no_jump reason e)
          (omega (arith, g.few))
      ∙ pass_pages n fuel 1 (offset + padding) (drop padding buf) t' (omega arith)
          (omega (arith, g.few)) (Skips-drop n buf g.skips)
      ∙ at_pages fuel (1 + n) (1 + n) (offset + padding + n * padding) (offset + suc n * padding)
          (drop (n * padding) (drop padding buf)) (drop (suc n * padding) buf) t' refl (omega arith)
          (sym (drop-add padding (n * padding) buf) ∙ ap (λ (m : ℕ). drop m buf) (omega arith))

  scan_pages-end :
      (fuel broken offset : ℕ) (buf : List ℕ) (t : Tree)
      → length buf ≡ 0
      → scan_pages idx env is_blank bucket fuel broken offset buf t
        ≡ record { place = offset; buf = []; found = none; tree = t }
  unfolding scan_pages
  scan_pages-end fuel broken offset [] t h = refl
  scan_pages-end fuel broken offset (b ∷ bs) t h = absurd (omega (arith, h))

  scan_records-none :
      (m offset place : ℕ) (buf : List ℕ) (t t' cur : Tree)
      → 0 < length buf
      → scan_record idx env is_blank bucket offset buf t
        ≡ record { place = place; buf = []; found = none; tree = t' }
      → scan_records idx env is_blank bucket (suc m) offset buf (t, cur) ≡ (t', cur)
  unfolding scan_records index_found
  scan_records-none m offset place [] t t' cur h e = absurd (omega (arith, h))
  scan_records-none m offset place (b ∷ bs) t t' cur h e =
      ap (index_found idx env is_blank bucket (scan_records idx env is_blank bucket m) cur) e

  pages-le-length : (n : ℕ) (buf : List ℕ) → Skips (suc n) buf → suc n ≤ length buf
  pages-le-length n buf s = omega (arith, (s n (omega arith)).0)

  -- A broken end.
  scan_records-tail :
      (n m offset : ℕ) (tail : List ℕ) (t cur : Tree)
      → IsGap (suc n) tail
      → length tail ≤ suc n * padding
      → scan_records idx env is_blank bucket (suc m) offset tail (t, cur)
        ≡ (remove_broken idx env is_blank bucket offset tail t, cur)
  unfolding scan_record
  scan_records-tail n m offset tail t cur g short =
      let t' = remove_broken idx env is_blank bucket offset tail t in
      let fuel = length tail - suc n in
      let enough = pages-le-length n tail g.skips in
      scan_records-none m offset (offset + suc n * padding) tail t t' cur (omega (arith, enough)) (
        ap (λ (k : ℕ). scan_pages idx env is_blank bucket k 0 offset tail t) (omega (arith, enough))
        ∙ pass_gap n fuel offset tail t g
        ∙ scan_pages-end fuel (1 + n) (offset + suc n * padding) (drop (suc n * padding) tail) t'
            (omega (arith, short, length-drop (suc n * padding) tail)))

  module _ (f : IsFaithful env) where
    -- Whole records, and a broken end.
    pub scan_data_file-tail :
        (n : ℕ) (rs : List DataRecord) (tail : List ℕ) (t cur : Tree)
        → All IsLegal rs
        → length (log env rs ++ tail) < 2 ^ 32
        → IsGap (suc n) tail
        → length tail ≤ suc n * padding
        → scan_data_file idx env is_blank bucket (log env rs ++ tail) (t, cur) ≡ (
            let (t', cur') = replay env idx is_blank bucket 0 rs (t, cur) in
            (remove_broken idx env is_blank bucket (length (log env rs)) tail t', cur'))
    unfolding scan_data_file
    scan_data_file-tail n rs tail t cur l small g short =
        let ts' = replay env idx is_blank bucket 0 rs (t, cur) in
        let m = length (log env rs ++ tail) - suc (length rs) in
        let enough = pages-le-length n tail g.skips in
        at_same idx env is_blank bucket (length (log env rs ++ tail)) (length rs + suc m) 0 0
          (log env rs ++ tail) (t, cur)
          (omega (
            arith,
            length-append (log env rs) tail,
            length-log idx env is_blank bucket f rs l,
            enough,
          ))
          refl
        ∙ scan_records-log idx env is_blank bucket f rs (suc m) 0 tail (t, cur) l small
        ∙ at_same idx env is_blank bucket (suc m) (suc m) (0 + length (log env rs))
            (length (log env rs)) tail ts' refl (omega arith)
        ∙ scan_records-tail n m (length (log env rs)) tail ts'.0 ts'.1 g short
