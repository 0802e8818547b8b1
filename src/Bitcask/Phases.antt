-- ===== src/Bitcask/Phases.antt =====
-- While a flush of src/bitcask.c is under way, the bitcask shows the same map.
use mathlib.Core.Path.{subst}
use mathlib.Core.Option.{some-injective}
use beansdb.Base.{ℕ, ◌+◌, ◌^◌, ◌<◌, ◌≡◌, refl, sym, ◌∙◌, Bool, true, false, some, List}
use beansdb.Record.{Env}
use beansdb.Record.RoundTrip.{IsFaithful}
use beansdb.Bitcask.{Index, Flushing, Bitcask}
use beansdb.Bitcask.Flush.{flush_begin, append_file, write_file, flush_write, flush_end}
use beansdb.Bitcask.Access.{bc_get}
use beansdb.Bitcask.Shape.{
  IsShaped, flush_begin-IsShaped, write_file-eq-append_file, written-IsShaped, flush_end-IsShaped,
}
use beansdb.Bitcask.Stored.{append_file-Stored, flush_end-Stored}
use beansdb.Bitcask.Ready.{IsReady, flush_begin-Moves}
use beansdb.Bitcask.Spec.{Cells, get}
use beansdb.Bitcask.Refines.{Shows, bc_get-eq-get}
use beansdb.Bitcask.Writes.{Keeps-Shows}

module _ (idx : Index) (limit : ℕ) where
  -- The three parts of a flush, each under its lock.
  pub data Phase (env : Env) (bc : Bitcask idx.Tree) : Bitcask idx.Tree → Type 0 where
    begins : IsReady idx env limit bc → Phase env bc (flush_begin idx limit bc)
    writes :
        (now : ℕ) (f : Flushing) (bc' : Bitcask idx.Tree)
        → bc.flushing ≡ some f
        → f.written ≡ false
        → flush_write idx limit now bc ≡ some bc'
        → Phase env bc bc'
    ends :
        (f : Flushing)
        → bc.flushing ≡ some f
        → f.written ≡ true
        → Phase env bc (flush_end idx limit bc)

  module _ (env : Env) (faith : IsFaithful env) (room : limit + 2 ^ 28 < 2 ^ 32)
      (is_blank : ℕ → Bool) where
    flush_write-eq-append_file :
        (now : ℕ) (bc : Bitcask idx.Tree) (f : Flushing)
        → bc.flushing ≡ some f
        → f.written ≡ false
        → IsShaped bc
        → flush_write idx limit now bc ≡ some (append_file idx limit now f bc)
    unfolding flush_write write_file append_file
    flush_write-eq-append_file now bc f e w s =
        rw e (write_file-eq-append_file idx limit room now bc f e w s)

    append_file-Shows :
        (now : ℕ) (bc : Bitcask idx.Tree) (f : Flushing) (m : Cells)
        → bc.flushing ≡ some f
        → f.written ≡ false
        → Shows idx env is_blank bc m
        → Shows idx env is_blank (append_file idx limit now f bc) m
    append_file-Shows now bc f m e w s =
        Keeps-Shows idx env limit is_blank bc (append_file idx limit now f bc) m
          (written-IsShaped idx limit room now bc f e w s.shaped) (unfold append_file in refl)
          (λ r l bucket place. append_file-Stored env faith r l idx limit bucket place now bc f e) s

    Phase-Shows :
        (bc bc' : Bitcask idx.Tree) (m : Cells)
        → Phase env bc bc'
        → Shows idx env is_blank bc m
        → Shows idx env is_blank bc' m
    Phase-Shows bc bc' m (begins p) s =
        let moves = flush_begin-Moves idx env faith limit room bc p in
        Keeps-Shows idx env limit is_blank bc bc' m
          (flush_begin-IsShaped idx limit room bc p.idle p.within p.shaped) moves.same_tree
          moves.keeps s
    Phase-Shows bc bc' m (writes now f bc'' e w q) s =
        subst (λ (x : Bitcask idx.Tree). Shows idx env is_blank x m)
          (some-injective _ _ (sym (flush_write-eq-append_file now bc f e w s.shaped) ∙ q))
          (append_file-Shows now bc f m e w s)
    Phase-Shows bc bc' m (ends f e w) s =
        Keeps-Shows idx env limit is_blank bc bc' m
          (flush_end-IsShaped idx limit room bc f e w s.shaped) (unfold flush_end in refl)
          (λ r l bucket place.
            flush_end-Stored env faith r l idx limit bucket place bc f e w s.shaped)
          s

    -- Between the parts of a flush, which let go of the lock of the buffer, the bitcask shows the
    -- same map as before, and bc_get answers from it. The parameters are as for bc_get-Reaches; the
    -- flush starts in a state in order.
    pub bc_get-Phase :
        (bc bc' : Bitcask idx.Tree) (m : Cells) (key : List ℕ) (return_deleted : Bool)
        → is_blank 0 ≡ true
        → idx.takes key ≡ true
        → Phase env bc bc'
        → Shows idx env is_blank bc m
        → Shows idx env is_blank bc' m
          × (bc_get idx env limit is_blank key return_deleted bc'
              ≡ (get is_blank key return_deleted m, bc'))
    bc_get-Phase bc bc' m key return_deleted z t step s =
        let s' = Phase-Shows bc bc' m step s in
        (s', bc_get-eq-get idx env is_blank faith limit z bc' m key return_deleted s' t)
