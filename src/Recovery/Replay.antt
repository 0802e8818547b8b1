-- ===== src/Recovery/Replay.antt =====
-- What a data file holds, as the list of its records, and what an index makes of them.
use beansdb.Base.{
  ℕ, ◌+◌, ◌%◌, ◌^◌, ◌≤◌, ◌<◌, ◌≡◌, ap, ◌∙◌, arith, Bool, false, inl, inr, some, List, [], ◌∷◌, ◌++◌,
  length, length-append,
}
use beansdb.Record.{
  DataRecord, Env, decoded, padding, bad_kv_size, record_length, compress_record, decompress_record,
  encode_record, decode_record,
}
use beansdb.Record.Layout.{IsWellFormed}
use beansdb.Record.RoundTrip.{
  IsFaithful, packed, compress_record_cases, packed-IsWellFormed, length-encode_record,
  decode_record_layout, decompress_packed, decompress_plain, encode_record_layout,
  record_length_bounds,
}
use beansdb.Record.Stored.{IsLegal, length-encode_record_pages}
use beansdb.Bitcask.{Index}
use beansdb.Recovery.{index_record}

module _ (env : Env) where
  -- The bytes of a file to which the records were written one after the other.
  abbrev pub log : List DataRecord → List ℕ
  log [] = []
  log (r ∷ rs) = encode_record env r ++ log rs

  -- How a legal record stands in a file.
  pub record Stored (r c : DataRecord) : Type 0 where
    pub compressed : compress_record env r ≡ c
    pub well_formed : IsWellFormed c
    pub good : bad_kv_size c.ksz c.vsz ≡ false
    pub back : decompress_record env c ≡ some r
    pub size : length (encode_record env r) ≡ record_length c
    pub not_empty : padding ≤ length (encode_record env r)

  module _ (f : IsFaithful env) (r : DataRecord) (l : IsLegal r) where
    Stored-of :
        (c : DataRecord)
        → compress_record env r ≡ c
        → IsWellFormed c
        → bad_kv_size c.ksz c.vsz ≡ false
        → decompress_record env c ≡ some r
        → Stored r c
    Stored-of c e w good back = record {
      compressed = e;
      well_formed = w;
      good = good;
      back = back;
      size = (length-encode_record env r (rw e w)).0 ∙ ap record_length e;
      not_empty = (length-encode_record_pages env f r l).0;
    }

    pub stored : (c : DataRecord) × Stored r c
    stored = elim (compress_record_cases env r f l.well_formed.value_size) [
      | inl same ↦ (r, Stored-of r same l.well_formed l.good (decompress_plain env r l.plain))
      | inr (pack, plain, big, short) ↦ (
        packed env r,
        Stored-of (packed env r) pack (packed-IsWellFormed env r f l.well_formed plain short)
            (unfold bad_kv_size in ground (arith, l.good, short))
            (decompress_packed env r f l.well_formed.value_size (ground (arith, l.sized, big))
              plain),
      )
    ]

  pub decode_record-Stored :
      (r c : DataRecord) (rest : List ℕ)
      → Stored r c
      → length (encode_record env r ++ rest) < 2 ^ 32
      → decode_record env
          (encode_record env r ++ rest)
          (length (encode_record env r ++ rest) % 2 ^ 32)
          false
        ≡ decoded c
  decode_record-Stored r c rest s small =
      let n : length (encode_record env r ++ rest) % 2 ^ 32 ≡ length (encode_record env r ++ rest) =
        omega (arith, small) in
      ap (λ (k : ℕ). decode_record env (encode_record env r ++ rest) k false) n
      ∙ ap (λ (xs : List ℕ). decode_record env xs (length (encode_record env r ++ rest)) false)
          (encode_record_layout env r c rest s.compressed)
      ∙ decode_record_layout env c _ (length (encode_record env r ++ rest)) false s.well_formed
          s.good
          (omega
            (arith, s.size, record_length_bounds env c, length-append (encode_record env r) rest))

  module _ (idx : Index) (is_blank : ℕ → Bool) (bucket : ℕ) where
    open idx use {Tree}

    -- The records in the order of the file, each at its offset.
    unfoldable pub replay : ℕ → List DataRecord → Tree × Tree → Tree × Tree
    replay offset [] ts = ts
    replay offset (r ∷ rs) ts =
        replay (offset + length (encode_record env r)) rs
          (index_record idx env is_blank bucket offset (some r) ts)
