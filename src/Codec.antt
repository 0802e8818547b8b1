-- ===== src/Codec.antt =====
-- The key codec of src/codec.c as it is built without NEW_ENCODE: keys are split into a format and
-- numbers, and the formats are numbered by a dictionary. `dict` holds the formats from number 1 on, so
-- that `dict_used` is one more than its length; `rdict` finds the number of a format by its hash, with
-- -1 where a format was not taken.
pub mod Format
pub mod Keys
pub mod Walk
pub mod Table
pub mod Insert
pub mod Rebuild
pub mod Encode
pub mod Scan
pub mod Printing
pub mod Sent
pub mod RoundTrip
pub mod Stable
pub mod Dump
pub mod Reload
pub mod Truncated
pub mod Loops
use beansdb.Base.{
  ℕ, zero, suc, ◌+◌, ◌*◌, ◌%◌, min, Bool, true, false, not, ◌&&◌, Option, none, some, List, [], ◌∷◌,
  ◌++◌, length, get_elem?, leb, ltb, ◌==◌, if◌then◌else◌,
}
use beansdb.Base.Int.{ℤ, pos, negsuc}
use beansdb.Fnv.{fnv1a}
use beansdb.HTree.{same_key}
use beansdb.Bitcask.{update}

pub record Fmt : Type 0 where
  pub nargs : ℕ
  pub fmt : List ℕ

pub record Codec : Type 0 where
  pub dict_size : ℕ
  pub dict : List Fmt
  pub rdict_size : ℕ
  pub rdict : ℕ → ℤ

abbrev pub default_dict_size : ℕ
default_dict_size = 1024

abbrev pub max_dict_size : ℕ
max_dict_size = 16384

-- RDICT_SIZE
abbrev pub rdict_size_for : ℕ → ℕ
rdict_size_for n = n * 7 + 1

abbrev pub dict_used : Codec → ℕ
dict_used dc = suc (length dc.dict)

abbrev pub is_taken : ℤ → Bool
is_taken (pos zero) = false
is_taken (pos (suc i)) = true
is_taken (negsuc n) = false

-- `++h; if (h == rdict_size) h = 0;`
abbrev pub next_slot : ℕ → ℕ → ℕ
next_slot n h = if suc h == n then 0 else suc h

-- `while (goes(h)) { ++h; ... }` with fuel for every slot.
unfoldable pub walk : (ℕ → Bool) → ℕ → ℕ → ℕ → ℕ
walk goes n zero h = h
walk goes n (suc fuel) h = if goes h then walk goes n fuel (next_slot n h) else h

-- Whether a slot holds a format other than the one that is looked for.
unfoldable pub is_other : List Fmt → List ℕ → ℤ → Bool
is_other dict fmt (pos zero) = false
is_other dict fmt (negsuc n) = false
is_other dict fmt (pos (suc i)) = elim (get_elem? dict i) [
  | none ↦ true
  | some f ↦ not (same_key fmt f.fmt)
]

abbrev pub home : ℕ → List ℕ → ℕ
home n fmt = fnv1a fmt % n

-- The slot of a format.
unfoldable pub find_slot : ℕ → (ℕ → ℤ) → List Fmt → List ℕ → ℕ
unfolding walk is_other
find_slot n rdict dict fmt = walk (λ h. is_other dict fmt (rdict h)) n n (home n fmt)

unfoldable pub free_slot : ℕ → (ℕ → ℤ) → List ℕ → ℕ
unfolding walk
free_slot n rdict fmt = walk (λ h. is_taken (rdict h)) n n (home n fmt)

-- The loop of `dc_rebuild` from a number on.
unfoldable pub insert_formats : ℕ → ℕ → List Fmt → (ℕ → ℤ) → ℕ → ℤ
unfolding free_slot
insert_formats n i [] rdict = rdict
insert_formats n i (f ∷ fs) rdict =
    insert_formats n (suc i) fs (update rdict (free_slot n rdict f.fmt) (pos (suc i)))

unfoldable pub dc_rebuild : Codec → Codec
unfolding insert_formats
dc_rebuild dc =
    let n = rdict_size_for dc.dict_size in
    record dc { rdict_size = n; rdict = insert_formats n 0 dc.dict (λ h. pos 0) }

unfoldable pub dc_enlarge : Codec → Codec
unfolding dc_rebuild
dc_enlarge dc = dc_rebuild (record dc { dict_size = min (dc.dict_size * 2) max_dict_size })

unfoldable pub dc_new : Codec
dc_new = record {
  dict_size = default_dict_size;
  dict = [];
  rdict_size = rdict_size_for default_dict_size;
  rdict = λ h. pos 0;
}
