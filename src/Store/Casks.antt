-- ===== src/Store/Casks.antt =====
-- The bitcasks of a store of src/hstore.c: those of Bitcask, each over its own tree.
use mathlib.Core.Path.{subst}
use beansdb.Base.{ℕ, ◌+◌, ◌*◌, ◌^◌, ◌≤◌, ◌<◌, ◌≡◌, refl, sym, arith, Bool, true, List}
use beansdb.HTree.Pool.{Pool}
use beansdb.Store.{get_index, check_bucket}
use beansdb.Store.Routing.{get_index-lt-bitcask_count, check_bucket_iff_get_index}
use beansdb.Store.Calls.{Shelf}
use beansdb.Record.{Env}
use beansdb.Record.RoundTrip.{IsFaithful}
use beansdb.Bitcask.{Index, Bitcask, bc_open2, max_bucket_count}
use beansdb.Bitcask.Access.{bc_get, bc_set, old_position}
use beansdb.Bitcask.Refines.{Refines, bc_get-eq-get}
use beansdb.Bitcask.Writes.{Shows-local}
use beansdb.Bitcask.Calls.{bc_set-Does}
use beansdb.Bitcask.Session.{no_cells, bc_open2-Refines}
use beansdb.Bitcask.TreeIndex.{tree_index}

module _ (height : ℕ) (low : height ≤ 3) (kh : List ℕ → ℕ) (dc_encode : List ℕ → List ℕ)
    (injective : (j k : List ℕ) → dc_encode j ≡ dc_encode k → j ≡ k) (env : Env)
    (faith : IsFaithful env) (limit : ℕ) (room : limit + 2 ^ 28 < 2 ^ 32) (is_blank : ℕ → Bool)
    (zero_blank : is_blank 0 ≡ true) where
  abbrev index_at : ℕ → Index
  index_at i = tree_index height i kh dc_encode (omega (arith, low)) injective

  pub taken : (i : ℕ) (key : List ℕ) → i ≡ get_index height key → check_bucket height i key ≡ true
  taken i key e =
      subst (λ (x : ℕ). check_bucket height x key ≡ true) (sym e)
        ((check_bucket_iff_get_index height (get_index height key) key
            (get_index-lt-bitcask_count height key low)).1
          refl)

  -- The calls of the bitcask at each index.
  unfoldable pub casks : Shelf height
  unfolding tree_index
  casks = record {
    Cask = Bitcask Pool;
    is_blank = is_blank;
    Shows = λ i c m. Refines (index_at i) env is_blank limit c m;
    HasRoom = λ n c. c.curr + 2 * n < max_bucket_count;
    ret_pos = λ i key c. old_position ((index_at i).ht_get key c.tree);
    bc_get = λ i. bc_get (index_at i) env limit is_blank;
    bc_set = λ i. bc_set (index_at i) env limit is_blank;
    bc_get-Shows = λ i key return_deleted c m p e.
        bc_get-eq-get (index_at i) env is_blank faith limit zero_blank c m key return_deleted
          p.shows (taken i key e);
    bc_set-Shows = λ n i now key value flag version c m p h e q.
        let (c', r, p', near) =
          bc_set-Does (index_at i) env faith limit room is_blank zero_blank c m now key value flag
            version q (taken i key e) p (omega (arith, h)) in
        (c', r, p', omega (arith, h, near));
    Shows-local = λ i c m m' h same.
        Shows-local (index_at i) env limit is_blank c m m'
          (λ key t. same key ((check_bucket_iff_get_index height i key h).0 t));
  }

  -- A bitcask that was opened without files.
  unfoldable pub new_cask : ℕ → ℕ → casks.Cask
  unfolding casks tree_index
  new_cask i now = bc_open2 (index_at i) now

  pub new_cask-Shows : (i now : ℕ) → casks.Shows i (new_cask i now) no_cells
  unfolding new_cask casks tree_index
  new_cask-Shows i now = bc_open2-Refines (index_at i) env limit is_blank now

  pub new_cask-HasRoom : (i now : ℕ) → casks.HasRoom 100 (new_cask i now)
  unfolding new_cask casks tree_index bc_open2
  new_cask-HasRoom i now = omega arith
