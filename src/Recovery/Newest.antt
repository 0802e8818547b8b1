-- ===== src/Recovery/Newest.antt =====
-- What an index answers after the records of a data file were put into it.
use beansdb.Base.{
  ℕ, ◌+◌, ◌^◌, ◌<◌, ◌≡◌, refl, ap, ◌∙◌, Bool, true, inl, inr, Option, none, some, List, [], ◌∷◌,
  length, All, if◌then◌else◌, Bool-cases,
}
use beansdb.HTree.{same_key}
use beansdb.Record.{DataRecord, Env, encode_record}
use beansdb.Record.RoundTrip.{IsFaithful}
use beansdb.Record.Stored.{IsLegal}
use beansdb.Bitcask.{Entry, Index, check_key, is_positive}
use beansdb.Recovery.{entry_of_record, apply_entry, index_record, scan_data_file}
use beansdb.Recovery.Replay.{log, replay}
use beansdb.Recovery.Records.{scan_data_file-log}

-- What a record leaves under its key in the tree.
abbrev pub live_entry : Entry → Option Entry
live_entry e = if is_positive e.ver then some e else none

module _ (env : Env) (bucket : ℕ) where
  -- What the last record of a key leaves there, over what was there before: `keeps` says what.
  unfoldable pub newest :
      (Entry → Option Entry) → List ℕ → ℕ → List DataRecord → Option Entry → Option Entry
  newest keeps k offset [] before = before
  newest keeps k offset (r ∷ rs) before =
      newest keeps k (offset + length (encode_record env r)) rs
        (if same_key k r.key then keeps (entry_of_record bucket offset r) else before)

module _ (idx : Index) (env : Env) (is_blank : ℕ → Bool) (bucket : ℕ) where
  open idx use {Tree, IsOk, ht_get, ht_add, ht_remove, takes}

  -- A legal record of a key that the bitcask takes.
  pub record IsOwn (r : DataRecord) : Type 0 where
    pub legal : IsLegal r
    pub accepted : check_key is_blank r.key ≡ true
    pub taken : takes r.key ≡ true

  pub own-IsLegal : (rs : List DataRecord) → All IsOwn rs → All IsLegal rs
  own-IsLegal [] h = tt
  own-IsLegal (r ∷ rs) h = (h.0.legal, own-IsLegal rs h.1)

  pub apply_entry-IsOk :
      (key : List ℕ) (e : Entry) (t : Tree)
      → IsOk t
      → IsOk (apply_entry idx env is_blank bucket key e t)
  unfolding apply_entry
  apply_entry-IsOk key e t ok = elim (Bool-cases (is_positive e.ver)) [
    | inl p ↦ rw p (idx.ht_add-IsOk key e t ok)
    | inr p ↦ rw p (idx.ht_remove-IsOk key t ok)
  ]

  pub ht_get-apply_entry :
      (k key : List ℕ) (e : Entry) (t : Tree)
      → IsOk t
      → takes key ≡ true
      → ht_get k (apply_entry idx env is_blank bucket key e t)
        ≡ (if same_key k key then live_entry e else ht_get k t)
  unfolding apply_entry
  ht_get-apply_entry k key e t ok h = elim (Bool-cases (is_positive e.ver)) [
    | inl p ↦ rw p (idx.ht_get-ht_add k key e t ok h)
    | inr p ↦ rw p (idx.ht_get-ht_remove k key t ok h)
  ]

  abbrev pub AreOk : Tree × Tree → Type 0
  AreOk (t, cur) = IsOk t × IsOk cur

  index_record-own :
      (offset : ℕ) (r : DataRecord) (t cur : Tree)
      → IsOwn r
      → index_record idx env is_blank bucket offset (some r) (t, cur) ≡ (
        apply_entry idx env is_blank bucket r.key (entry_of_record bucket offset r) t,
        ht_add r.key (entry_of_record bucket offset r) cur,
      )
  unfolding index_record
  index_record-own offset r t cur o = rw (o.accepted, index_record) refl

  pub ht_get-replay :
      (rs : List DataRecord) (offset : ℕ) (k : List ℕ) (t cur : Tree)
      → All IsOwn rs
      → IsOk t
      → IsOk cur
      → (let (t', cur') = replay env idx is_blank bucket offset rs (t, cur) in
          (ht_get k t' ≡ newest env bucket live_entry k offset rs (ht_get k t))
          × (ht_get k cur' ≡ newest env bucket (λ e. some e) k offset rs (ht_get k cur))
          × IsOk t'
          × IsOk cur')
  unfolding replay newest
  ht_get-replay [] offset k t cur own ok ok' = (refl, refl, ok, ok')
  ht_get-replay (r ∷ rs) offset k t cur own ok ok' =
      let e = entry_of_record bucket offset r in
      let t' = apply_entry idx env is_blank bucket r.key e t in
      let cur' = ht_add r.key e cur in
      let next = offset + length (encode_record env r) in
      let (found, found_cur, ok_t, ok_cur) =
        ht_get-replay rs next k t' cur' own.1 (apply_entry-IsOk r.key e t ok)
          (idx.ht_add-IsOk r.key e cur ok') in
      rw (index_record-own offset r t cur own.0, replay)
        (
          found
              ∙ ap (newest env bucket live_entry k next rs)
                  (ht_get-apply_entry k r.key e t ok own.0.taken),
          found_cur
              ∙ ap (newest env bucket (λ (x : Entry). some x) k next rs)
                  (idx.ht_get-ht_add k r.key e cur ok' own.0.taken),
          ok_t,
          ok_cur,
        )

  -- After scanDataFile on a file of legal records under accepted keys of the bitcask, the tree
  -- answers for every key with the place, the hash and the version of the last record of the key
  -- where that version is positive, with nothing where it is not, and as before where the file has
  -- no record of the key; the tree of the file answers with the last record whatever its version.
  -- The index is given by its laws, the compressor is as documented, and the file is shorter than 2
  -- ^ 32.
  pub ht_get-scan_data_file :
      (rs : List DataRecord) (k : List ℕ) (t cur : Tree)
      → IsFaithful env
      → All IsOwn rs
      → length (log env rs) < 2 ^ 32
      → IsOk t
      → IsOk cur
      → (let (t', cur') = scan_data_file idx env is_blank bucket (log env rs) (t, cur) in
          (ht_get k t' ≡ newest env bucket live_entry k 0 rs (ht_get k t))
          × (ht_get k cur' ≡ newest env bucket (λ e. some e) k 0 rs (ht_get k cur))
          × IsOk t'
          × IsOk cur')
  ht_get-scan_data_file rs k t cur f own small ok ok' =
      rw (scan_data_file-log idx env is_blank bucket f rs (t, cur) (own-IsLegal rs own) small)
        (ht_get-replay rs 0 k t cur own ok ok')
