-- ===== src/Bitcask/Reads.antt =====
-- The reads of `bc_get` in src/bitcask.c find a record where it stands.
use beansdb.Base.{
  ℕ, ◌-◌, ◌<◌, ◌≡◌, refl, sym, ap, arith, Bool, true, none, some, List, [], ◌∷◌, length, drop, ◌==◌,
  length-drop, Bool-cases, Option-cases, inl, inr,
}
use beansdb.HTree.Blocks.{same_key_refl}
use beansdb.Record.{DataRecord, Env}
use beansdb.Record.RoundTrip.{IsFaithful}
use beansdb.Record.Stored.{IsLegal, decode_record_here, fast_read_record_here}
use beansdb.Bitcask.{Index, Flushing, Bitcask, check_key, no_blank}
use beansdb.Bitcask.Access.{
  c_string, read_buffer, read_flushing, read_buffers, read_file, read_entry,
}
use beansdb.Bitcask.Shape.{file, IsShaped}
use beansdb.Bitcask.Stored.{Holds, BeforeBuffer, Stored, in_wbuf, in_fbuf, in_file}

c_string-no_blank :
    (is_blank : ℕ → Bool) (key : List ℕ)
    → is_blank 0 ≡ true
    → no_blank is_blank key ≡ true
    → c_string key ≡ key
unfolding c_string no_blank
c_string-no_blank is_blank [] z h = refl
c_string-no_blank is_blank (c ∷ cs) z h = elim (Bool-cases (c == 0)) [
  | inl e ↦ ground (arith, e, z, h)
  | inr e ↦ rw e (ap (◌∷◌ c) (c_string-no_blank is_blank cs z (ground (arith, h))))
]

-- A key that is accepted has no zero in it.
pub c_string-check_key :
    (is_blank : ℕ → Bool) (key : List ℕ)
    → is_blank 0 ≡ true
    → check_key is_blank key ≡ true
    → c_string key ≡ key
unfolding check_key
c_string-check_key is_blank [] z h = cc
c_string-check_key is_blank (c ∷ cs) z h = c_string-no_blank is_blank (c ∷ cs) z (ground (arith, h))

module _ (idx : Index) (env : Env) (faith : IsFaithful env) (limit : ℕ) (is_blank : ℕ → Bool)
    (r : DataRecord) (l : IsLegal r) where
  read_buffer-Holds :
      (buf : List ℕ) (place : ℕ)
      → Holds env buf place r
      → read_buffer idx env limit is_blank buf place ≡ some r
  unfolding read_buffer
  read_buffer-Holds buf place (rest, e) =
      decode_record_here env faith r l (drop place buf) rest (length buf - place) e
        (sym (length-drop place buf))

  read_file-Holds :
      (bc : Bitcask idx.Tree) (bucket place : ℕ)
      → IsShaped bc
      → c_string r.key ≡ r.key
      → Holds env (file bc bucket) place r
      → read_file idx env limit is_blank bc r.key bucket place ≡ some r
  unfolding read_file
  read_file-Holds bc bucket place s k (rest, e) =
      rw
        (
          fast_read_record_here env faith r l (file bc bucket) rest place (s.files_bytes bucket) e,
          read_file,
        )
        (rw (k, same_key_refl r.key))

  -- Before the buffers of its bucket, a place is read from the file.
  read_buffers-before :
      (bc : Bitcask idx.Tree) (bucket place : ℕ)
      → BeforeBuffer bc bucket place
      → ((f : Flushing) → bc.flushing ≡ some f → f.bucket ≡ bucket → place < f.start)
      → read_buffers idx env limit is_blank bc bucket place ≡ none
  unfolding read_buffers read_flushing
  read_buffers-before bc bucket place before first = elim (Option-cases bc.flushing) [
    | inl e ↦ ground (arith, e, before)
    | inr (f, e) ↦ ground (arith, e, before, first f e)
  ]

  -- Wherever the record stands, it is read.
  pub read_entry-Stored :
      (bc : Bitcask idx.Tree) (bucket place : ℕ)
      → IsShaped bc
      → c_string r.key ≡ r.key
      → Stored env bc bucket place r
      → read_entry idx env limit is_blank bc r.key bucket place ≡ some r
  unfolding read_entry read_buffers read_flushing
  read_entry-Stored bc bucket place s k (in_wbuf same h holds) =
      ground (arith, same, h, read_buffer-Holds bc.wbuf (place - bc.wbuf_start) holds)
  read_entry-Stored bc bucket place s k (in_fbuf le f e same h before holds) =
      ground (arith, e, same, h, before, read_buffer-Holds f.buf (place - f.start) holds)
  read_entry-Stored bc bucket place s k (in_file h before first holds) =
      rw (read_buffers-before bc bucket place before first, read_entry)
        (read_file-Holds bc bucket place s k holds)
