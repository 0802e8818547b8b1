-- ===== src/Bitcask/Ready.antt =====
-- A flush of src/bitcask.c ends, keeps the buffers and files in order and loses no record.
use beansdb.Base.{
  ℕ, ◌+◌, ◌^◌, ◌≤◌, ◌<◌, ◌≡◌, refl, arith, Bool, true, false, ◌⊎◌, inl, inr, Option, none, some, [],
  Bool-cases, lt→leb_false,
}
use beansdb.Record.{DataRecord, Env}
use beansdb.Record.RoundTrip.{IsFaithful}
use beansdb.Record.Stored.{IsLegal}
use beansdb.Bitcask.{Index, Flushing, Bitcask, max_bucket_count}
use beansdb.Bitcask.Flush.{
  bc_rotate, must_flush, take_buffer, flush_begin, append_file, flush_write, flush_end, bc_flush,
}
use beansdb.Bitcask.Shape.{
  IsShaped, IsWithin, flush_begin-IsShaped, flush_begin-IsWithin, write_file-eq-append_file,
  written-IsShaped, flush_end-IsShaped,
}
use beansdb.Bitcask.Stored.{Stored, flush_begin-Stored, append_file-Stored, flush_end-Stored}

module _ (idx : Index) (env : Env) (limit : ℕ) where
  abbrev State : Type 0
  State = Bitcask idx.Tree

  -- Between two calls: no flush is under way, and all is in order.
  pub record IsReady (bc : State) : Type 0 where
    pub idle : bc.flushing ≡ none
    pub within : IsWithin limit bc
    pub shaped : IsShaped bc

  abbrev pub Keeps : State → State → Type 0
  Keeps bc bc' =
      (r : DataRecord)
      → IsLegal r
      → (bucket place : ℕ) → Stored env bc bucket place r
      → Stored env bc' bucket place r

  -- The index stays, at most `n` files are started, and every record stays.
  pub record Moves (n : ℕ) (bc bc' : State) : Type 0 where
    pub same_tree : bc'.tree ≡ bc.tree
    pub near : bc'.curr ≤ bc.curr + n
    pub keeps : Keeps bc bc'

  -- What a flush or a change of buffers comes to.
  pub record Comes (n : ℕ) (bc bc' : State) : Type 0 where
    pub ready : IsReady bc'
    pub moves : Moves n bc bc'

module _ (idx : Index) (env : Env) (faith : IsFaithful env) (limit : ℕ)
    (room : limit + 2 ^ 28 < 2 ^ 32) where
  pub flush_begin-Moves :
      (bc : Bitcask idx.Tree)
      → IsReady idx env limit bc
      → Moves idx env limit 1 bc (flush_begin idx limit bc)
  flush_begin-Moves bc p = record {
    same_tree = unfold flush_begin take_buffer bc_rotate in ground arith;
    near = unfold flush_begin take_buffer bc_rotate in ground arith;
    keeps = λ r l bucket place.
        flush_begin-Stored env faith r l idx limit bucket place bc p.idle p.within p.shaped room;
  }

  abbrev taken : Bitcask idx.Tree → Bool → Flushing
  taken bc b = record { bucket = bc.curr; buf = bc.wbuf; start = bc.wbuf_start; written = b }

  flush_begin-flushing :
      (bc : Bitcask idx.Tree) → (flush_begin idx limit bc).flushing ≡ some (taken bc false)
  unfolding flush_begin take_buffer bc_rotate
  flush_begin-flushing bc = ground arith

  abbrev on_disk : ℕ → Bitcask idx.Tree → Bitcask idx.Tree
  on_disk now bc = append_file idx limit now (taken bc false) (flush_begin idx limit bc)

  flushed : ℕ → Bitcask idx.Tree → Bitcask idx.Tree
  flushed now bc = flush_end idx limit (on_disk now bc)

  flush_write-flush_begin :
      (now : ℕ) (bc : Bitcask idx.Tree)
      → IsReady idx env limit bc
      → elim (flush_write idx limit now (flush_begin idx limit bc))
          as (λ x. Option (Bitcask idx.Tree)) [
            | none ↦ none
            | some bc' ↦ some (flush_end idx limit bc')
          ]
        ≡ some (flushed now bc)
  unfolding flush_write flushed flush_end append_file
  flush_write-flush_begin now bc p = rw (
    flush_begin-flushing bc,
    flush_write,
    write_file-eq-append_file idx limit room now (flush_begin idx limit bc) _
        (flush_begin-flushing bc) refl
        (flush_begin-IsShaped idx limit room bc p.idle p.within p.shaped),
  )

  flushed-IsShaped :
      (now : ℕ) (bc : Bitcask idx.Tree) → IsReady idx env limit bc → IsShaped (flushed now bc)
  unfolding flushed
  flushed-IsShaped now bc p =
      flush_end-IsShaped idx limit room (on_disk now bc) (taken bc true)
        (unfold append_file in refl) refl
        (written-IsShaped idx limit room now (flush_begin idx limit bc) _ (flush_begin-flushing bc)
          refl (flush_begin-IsShaped idx limit room bc p.idle p.within p.shaped))

  flushed-Moves :
      (now : ℕ) (bc : Bitcask idx.Tree)
      → IsReady idx env limit bc
      → Moves idx env limit 1 bc (flushed now bc)
  unfolding flushed
  flushed-Moves now bc p =
      let m = flush_begin-Moves bc p in
      let s = flush_begin-IsShaped idx limit room bc p.idle p.within p.shaped in
      record {
        same_tree = unfold flush_end append_file in m.same_tree;
        near = unfold flush_end append_file in m.near;
        keeps = λ r l bucket place h.
            flush_end-Stored env faith r l idx limit bucket place (on_disk now bc) (taken bc true)
              (unfold append_file in refl) refl
              (written-IsShaped idx limit room now (flush_begin idx limit bc) _
                (flush_begin-flushing bc) refl s)
              (append_file-Stored env faith r l idx limit bucket place now
                (flush_begin idx limit bc) _ (flush_begin-flushing bc)
                (m.keeps r l bucket place h));
      }

  flushed-IsReady :
      (now : ℕ) (bc : Bitcask idx.Tree)
      → IsReady idx env limit bc
      → IsReady idx env limit (flushed now bc)
  flushed-IsReady now bc p = record {
    idle = unfold flushed flush_end in refl;
    within =
        unfold flushed flush_end append_file in
        flush_begin-IsWithin idx limit room bc p.idle p.within p.shaped;
    shaped = flushed-IsShaped now bc p;
  }

  flushed-wbuf : (now : ℕ) (bc : Bitcask idx.Tree) → (flushed now bc).wbuf ≡ []
  unfolding flushed flush_end append_file flush_begin take_buffer bc_rotate
  flushed-wbuf now bc = ground arith

  -- `bc_flush` does not exit on a bitcask that is in order.
  pub bc_flush-Comes :
      (flush_limit period now : ℕ) (bc : Bitcask idx.Tree)
      → IsReady idx env limit bc
      → bc.curr < max_bucket_count
      → (bc' : Bitcask idx.Tree) × (bc_flush idx limit flush_limit period now bc ≡ some bc')
        × Comes idx env limit 1 bc bc'
        × ((bc'.wbuf ≡ [])
            ⊎ ((must_flush idx limit flush_limit period now bc ≡ false) × (bc' ≡ bc)))
  unfolding bc_flush
  bc_flush-Comes flush_limit period now bc p h =
      elim (Bool-cases (must_flush idx limit flush_limit period now bc)) [
        | inl e ↦ (
          flushed now bc,
          rw (lt→leb_false max_bucket_count bc.curr h, e) (flush_write-flush_begin now bc p),
          record { ready = flushed-IsReady now bc p; moves = flushed-Moves now bc p },
          inl (flushed-wbuf now bc),
        )
        | inr e ↦ (
          bc,
          rw (lt→leb_false max_bucket_count bc.curr h, e) refl,
          record {
            ready = p;
            moves = record {
              same_tree = refl;
              near = omega arith;
              keeps = λ r l bucket place x. x;
            };
          },
          inr (e, refl),
        )
      ]
