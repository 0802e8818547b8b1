-- ===== src/Bitcask/Session.antt =====
-- What the callers of src/bitcask.c see over a sequence of calls from `bc_open2` on.
use mathlib.Core.Path.{subst}
use mathlib.Core.Option.{some-injective}
use beansdb.Base.{
  ℕ, ◌+◌, ◌^◌, ◌<◌, ◌≡◌, refl, sym, ap, ◌∙◌, arith, Bool, true, inl, none, some, List,
}
use beansdb.Base.Int.{ℤ}
use beansdb.Record.{Env}
use beansdb.Record.RoundTrip.{IsFaithful}
use beansdb.Bitcask.{Index, Bitcask, bc_open2, file_bytes, max_bucket_count}
use beansdb.Bitcask.Flush.{bc_flush}
use beansdb.Bitcask.Access.{bc_get, bc_set}
use beansdb.Bitcask.Shape.{IsShaped}
use beansdb.Bitcask.Ready.{bc_flush-Comes}
use beansdb.Bitcask.Spec.{Cells, get, set}
use beansdb.Bitcask.Refines.{Refines, absent, bc_get-eq-get}
use beansdb.Bitcask.Writes.{Comes-Refines}
use beansdb.Bitcask.Sets.{IsRequest}
use beansdb.Bitcask.Calls.{bc_set-Does}

abbrev pub no_cells : Cells
no_cells key = none

module _ (idx : Index) (env : Env) (limit : ℕ) (is_blank : ℕ → Bool) where
  -- The states that calls reach from a new bitcask, each with the map that the calls made.
  pub data Reaches : Bitcask idx.Tree → Cells → Type 0 where
    opened : (now : ℕ) → Reaches (bc_open2 idx now) no_cells
    stored :
        (bc bc' : Bitcask idx.Tree) (m : Cells) (now : ℕ) (key value : List ℕ) (flag : ℕ)
        (version : ℤ) (ok : Bool)
        → Reaches bc m
        → IsRequest key value flag
        → idx.takes key ≡ true
        → bc.curr + 2 < max_bucket_count
        → bc_set idx env limit is_blank now key value flag version bc ≡ some (ok, bc')
        → Reaches bc' (set is_blank now key value flag version m).1
    flushes :
        (bc bc' : Bitcask idx.Tree) (m : Cells) (flush_limit period now : ℕ)
        → Reaches bc m
        → bc.curr < max_bucket_count
        → bc_flush idx limit flush_limit period now bc ≡ some bc'
        → Reaches bc' m

  bc_open2-IsShaped : (now : ℕ) → IsShaped (bc_open2 idx now)
  unfolding bc_open2 file_bytes
  bc_open2-IsShaped now = record {
    start_pages = refl;
    wbuf_pages = refl;
    wbuf_fits = omega arith;
    wbuf_small = omega arith;
    wbuf_some = omega arith;
    wbuf_bytes = tt;
    files_bytes = λ b. tt;
    table = λ b h. cc;
    disk = (refl, λ b h. refl);
  }

  pub bc_open2-Refines : (now : ℕ) → Refines idx env is_blank limit (bc_open2 idx now) no_cells
  unfolding bc_open2 file_bytes
  bc_open2-Refines now = record {
    ready = record { idle = refl; within = inl refl; shaped = bc_open2-IsShaped now };
    shows = record {
      shaped = bc_open2-IsShaped now;
      indexed = idx.ht_new-IsOk;
      agrees = λ key t k. absent (idx.ht_get-ht_new key);
    };
  }

  module _ (faith : IsFaithful env) (room : limit + 2 ^ 28 < 2 ^ 32)
      (zero_blank : is_blank 0 ≡ true) where
    pub Reaches-Refines :
        (bc : Bitcask idx.Tree) (m : Cells) → Reaches bc m → Refines idx env is_blank limit bc m
    Reaches-Refines bc m (opened now) = bc_open2-Refines now
    Reaches-Refines bc m (stored old bc' m' now key value flag version ok past q t h e) =
        let (new, e', p, near) =
          bc_set-Does idx env faith limit room is_blank zero_blank old m' now key value flag version
            q t (Reaches-Refines old m' past) h in
        subst (λ (x : Bitcask idx.Tree). Refines idx env is_blank limit x m)
          (ap (λ (x : Bool × Bitcask idx.Tree). x.1) (some-injective _ _ (sym e' ∙ e))) p
    Reaches-Refines bc m (flushes old bc' m' flush_limit period now past h e) =
        let p = Reaches-Refines old m past in
        let (new, e', comes, left) =
          bc_flush-Comes idx env faith limit room flush_limit period now old p.ready h in
        subst (λ (x : Bitcask idx.Tree). Refines idx env is_blank limit x m)
          (some-injective _ _ (sym e' ∙ e))
          (Comes-Refines idx env limit is_blank 1 old new m comes p)

    -- In every state that bc_open2, bc_set and bc_flush reach, bc_get answers for a key of the
    -- bitcask what the map of cells answers that the calls made, and changes nothing. The index is
    -- given by its laws, the compressor is as documented, the zero byte is blank, and
    -- max_bucket_size stays 2 ^ 28 below 2 ^ 32. The keys, values and flags that were set are bytes
    -- and words without the compression flag, with a value that is not empty or a record that fits
    -- a page, and each bc_set had two buckets left.
    pub bc_get-Reaches :
        (bc : Bitcask idx.Tree) (m : Cells) (key : List ℕ) (return_deleted : Bool)
        → Reaches bc m
        → idx.takes key ≡ true
        → bc_get idx env limit is_blank key return_deleted bc
          ≡ (get is_blank key return_deleted m, bc)
    bc_get-Reaches bc m key return_deleted past t =
        bc_get-eq-get idx env is_blank faith limit zero_blank bc m key return_deleted
          (Reaches-Refines bc m past).shows t

    -- In every such state with two buckets left, bc_set does not exit, answers what the map of
    -- cells answers, and leads to a state that shows the new map. The request and the parameters
    -- are as for bc_get-Reaches, and the sums of versions wrap as those of an int in two's
    -- complement.
    pub bc_set-Reaches :
        (bc : Bitcask idx.Tree) (m : Cells) (now : ℕ) (key value : List ℕ) (flag : ℕ) (version : ℤ)
        → Reaches bc m
        → IsRequest key value flag
        → idx.takes key ≡ true
        → bc.curr + 2 < max_bucket_count
        → (bc' : Bitcask idx.Tree) × (bc_set idx env limit is_blank now key value flag version bc
            ≡ some ((set is_blank now key value flag version m).0, bc'))
          × Reaches bc' (set is_blank now key value flag version m).1
    bc_set-Reaches bc m now key value flag version past q t h =
        let (bc', e, p, near) =
          bc_set-Does idx env faith limit room is_blank zero_blank bc m now key value flag version q
            t (Reaches-Refines bc m past) h in
        (bc', e, stored bc bc' m now key value flag version _ past q t h e)

    -- In every state that the calls reach with a bucket left, bc_flush does not exit, whatever its
    -- limit and period, and the map stays. The parameters are as for bc_get-Reaches.
    pub bc_flush-Reaches :
        (bc : Bitcask idx.Tree) (m : Cells) (flush_limit period now : ℕ)
        → Reaches bc m
        → bc.curr < max_bucket_count
        → (bc' : Bitcask idx.Tree) × (bc_flush idx limit flush_limit period now bc ≡ some bc')
          × Reaches bc' m
    bc_flush-Reaches bc m flush_limit period now past h =
        let (bc', e, comes, left) =
          bc_flush-Comes idx env faith limit room flush_limit period now bc
            (Reaches-Refines bc m past).ready h in
        (bc', e, flushes bc bc' m flush_limit period now past h e)
