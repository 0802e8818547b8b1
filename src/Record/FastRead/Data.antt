-- ===== src/Record/FastRead/Data.antt =====
-- The reads of `fast_read_record` of src/record.c: in which page the key and the value lie.
use mathlib.Core.Path.{ap₂}
use beansdb.Base.{
  ℕ, ◌+◌, ◌-◌, ◌≤◌, ◌<◌, ◌≡◌, refl, sym, ap, ◌∙◌, arith, Option, none, some, List, ◌++◌, length,
  take, drop, ltb, le→leb, lt→leb_false, le→ltb_false, lt→ltb, eq→==, ne→==_false, min,
  if◌then◌else◌, length-take, length-drop,
}
use native.Mathlib.Decide.{dec_le}
use beansdb.Base.Words.{field_at}
use beansdb.Base.Slices.{drop-add, take-take, slice-take, slice-join}
use beansdb.Record.{header_size, padding, record_at}
use beansdb.Record.FastRead.{fast_read_data, pread}

module _ (buf : List ℕ) where
  abbrev pub page : List ℕ
  page = take padding buf

  pub field_at-page : (k : ℕ) → k + 4 ≤ padding → field_at 4 k page ≡ field_at 4 k buf
  unfolding field_at
  field_at-page k h = rw (slice-take k 4 padding buf h)

  -- The header is in the first page; the key and the value are given.
  pub record_at-page :
      (k v : List ℕ)
      → k ≡ (record_at buf).key
      → v ≡ (record_at buf).value
      → record (record_at page) { key = k; value = v } ≡ record_at buf
  unfolding record_at
  record_at-page k v p q = λ i. record {
    tstamp = field_at-page 4 (omega arith) i;
    flag = field_at-page 8 (omega arith) i;
    version = field_at-page 12 (omega arith) i;
    ksz = field_at-page 16 (omega arith) i;
    vsz = field_at-page 20 (omega arith) i;
    key = p i;
    value = q i;
  }

module _ (file : List ℕ) (offset ksz vsz : ℕ) where
  abbrev buf : List ℕ
  buf = drop offset file

  -- Behind the first page.
  pread-more : (n : ℕ) → pread file n (offset + padding) ≡ take n (drop padding buf)
  pread-more n = ap (take n) (drop-add offset padding file)

  abbrev need : ℕ
  need = header_size + ksz + vsz

  abbrev whole : Option (List ℕ × List ℕ)
  whole = some (take ksz (drop header_size buf), take vsz (drop ksz (drop header_size buf)))

  -- The key in the first page.
  key_in_page :
      header_size + ksz ≤ padding
      → take ksz (drop header_size (page buf)) ≡ take ksz (drop header_size buf)
  key_in_page h = slice-take header_size ksz padding buf h

  -- A part of the value in the first page.
  value_in_page :
      (n : ℕ)
      → header_size + ksz + n ≤ padding
      → take n (drop ksz (drop header_size (page buf))) ≡ take n (drop (header_size + ksz) buf)
  value_in_page n h =
      ap (take n) (sym (drop-add header_size ksz (page buf)))
      ∙ slice-take (header_size + ksz) n padding buf h

  behind_key :
      (n : ℕ) → take n (drop (header_size + ksz) buf) ≡ take n (drop ksz (drop header_size buf))
  behind_key n = ap (take n) (drop-add header_size ksz buf)

  read_small : need ≤ padding → fast_read_data file offset (page buf) ksz vsz ≡ whole
  unfolding fast_read_data
  read_small h =
      rw (le→leb need padding h, key_in_page (omega arith), value_in_page vsz h, behind_key vsz)
        refl

  module _ (long : padding < need) where
    length-more :
        length (pread file (need - padding) (offset + padding))
        ≡ min (need - padding) (length buf - padding)
    length-more =
        ap length (pread-more (need - padding))
        ∙ omega (arith, length-take (need - padding) (drop padding buf), length-drop padding buf)

    -- A record that the end of the file cuts off is refused.
    read_short : length buf < need → fast_read_data file offset (page buf) ksz vsz ≡ none
    unfolding fast_read_data
    read_short short =
        rw
          (
            lt→leb_false need padding long,
            ne→==_false (length (pread file (need - padding) (offset + padding))) (need - padding)
                (omega (arith, length-more)),
          )
          refl

    module _ (room : need ≤ length buf) where
      read_long_value :
          header_size + ksz ≤ padding → fast_read_data file offset (page buf) ksz vsz ≡ whole
      unfolding fast_read_data
      read_long_value h =
          rw
            (
              lt→leb_false need padding long,
              eq→== (length (pread file (need - padding) (offset + padding))) (need - padding)
                  (omega (arith, length-more)),
              le→ltb_false vsz (need - padding) (omega arith),
              key_in_page h,
              value_in_page (vsz - (need - padding)) (omega arith),
              pread-more (need - padding),
            )
            (ap (λ (v : List ℕ). some (take ksz (drop header_size buf), v)) joined)
        where
          joined :
              take (vsz - (need - padding)) (drop (header_size + ksz) buf)
                ++ take (need - padding) (drop padding buf)
              ≡ take vsz (drop ksz (drop header_size buf))
          joined =
              let a = vsz - (need - padding) in
              let m = need - padding in
              ap (λ (t : ℕ). take a (drop (header_size + ksz) buf) ++ take m (drop t buf))
                {x = padding} {y = header_size + ksz + a} (omega arith)
              ∙ slice-join (header_size + ksz) a m buf
              ∙ ap (λ (t : ℕ). take t (drop (header_size + ksz) buf)) (omega arith)
              ∙ behind_key vsz

      -- The second read begins inside of the key.
      read_long_key :
          padding < header_size + ksz → fast_read_data file offset (page buf) ksz vsz ≡ whole
      unfolding fast_read_data
      read_long_key h =
          let m = need - padding in
          let key_more = m - vsz in
          rw
            (
              lt→leb_false need padding long,
              eq→== (length (pread file m (offset + padding))) m (omega (arith, length-more)),
              lt→ltb vsz m (omega arith),
              pread-more m,
              slice-take header_size (ksz - key_more) padding buf (omega arith),
              take-take key_more m (drop padding buf) (omega arith),
              slice-take key_more vsz m (drop padding buf) (omega arith),
            )
            (ap₂ (λ (k v : List ℕ). some (k, v)) key_joined value_moved)
        where
          key_joined :
              let key_more = need - padding - vsz in
              take (ksz - key_more) (drop header_size buf) ++ take key_more (drop padding buf)
              ≡ take ksz (drop header_size buf)
          key_joined =
              let b = need - padding - vsz in
              let a = ksz - b in
              ap (λ (t : ℕ). take a (drop header_size buf) ++ take b (drop t buf)) {x = padding}
                {y = header_size + a} (omega arith)
              ∙ slice-join header_size a b buf
              ∙ ap (λ (t : ℕ). take t (drop header_size buf)) (omega arith)

          value_moved :
              take vsz (drop (need - padding - vsz) (drop padding buf))
              ≡ take vsz (drop ksz (drop header_size buf))
          value_moved =
              ap (take vsz) (sym (drop-add padding (need - padding - vsz) buf))
              ∙ ap (λ (t : ℕ). take vsz (drop t buf)) (omega arith)
              ∙ behind_key vsz

-- The data of a record, or nothing where the file ends before it does.
pub fast_read_data_cases :
    (file : List ℕ) (offset ksz vsz : ℕ)
    → padding ≤ length (drop offset file)
    → fast_read_data file offset (page (drop offset file)) ksz vsz ≡ (
        if ltb (length (drop offset file)) (header_size + ksz + vsz)
        then none
        else some (
          take ksz (drop header_size (drop offset file)),
          take vsz (drop ksz (drop header_size (drop offset file))),
        ))
fast_read_data_cases file offset ksz vsz h =
    let need = header_size + ksz + vsz in
    let n = length (drop offset file) in
    elim (dec_le need n) [
      | yes room ↦ rw (le→ltb_false n need room) (elim (dec_le need padding) [
        | yes small ↦ read_small file offset ksz vsz small
        | no big ↦ elim (dec_le (header_size + ksz) padding) [
          | yes p ↦ read_long_value file offset ksz vsz (omega arith) room p
          | no p ↦ read_long_key file offset ksz vsz (omega arith) room (omega arith)
        ]
      ])
      | no short ↦
          rw (lt→ltb n need (omega arith))
            (read_short file offset ksz vsz (omega arith) (omega arith))
    ]
