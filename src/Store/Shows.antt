-- ===== src/Store/Shows.antt =====
-- The calls of src/hstore.c on all bitcasks act on one map of cells.
use mathlib.Core.Path.{fun_ext, subst}
use beansdb.Base.{
  ℕ, suc, ◌≤◌, ◌<◌, ◌≡◌, ◌≢◌, refl, sym, ap, ◌∙◌, arith, Bool, true, false, ◌&&◌, not, Option, none,
  some, List, [], ◌∷◌, ◌==◌, if◌then◌else◌, Bool-cases, Option-cases, inl, inr, eq→==,
}
use beansdb.Base.Int.{ℤ}
use beansdb.HTree.{same_key}
use beansdb.HTree.Blocks.{same_key_iff}
use beansdb.Record.{DataRecord}
use beansdb.Store.{get_index, bitcask_count}
use beansdb.Store.Routing.{get_index-lt-bitcask_count}
use beansdb.Store.Calls.{
  Shelf, HStore, is_listing, above_zero, put_back, view, hs_read, hs_get, hs_set,
}
use beansdb.Bitcask.{check_key, next_version, is_zero, word_of}
use beansdb.Bitcask.Spec.{
  Cell, Cells, put, current_version, visible, answer, get, set, renew, repeats, accepts, value_hash,
  new_cell,
}
use beansdb.Bitcask.Sets.{IsRequest}

-- A key that asks for a value.
abbrev pub is_plain : List ℕ → Bool
is_plain [] = true
is_plain (c ∷ cs) = not (c == 64) && not (c == 63)

-- The value and the flag of a cell whose version, as an int32_t, is above zero.
abbrev pub live_value : Option Cell → Option (List ℕ × ℕ)
live_value none = none
live_value (some c) = if above_zero (word_of c.ver) then some (c.value, c.flag) else none

unfoldable pub fetch : (ℕ → Bool) → List ℕ → Cells → Option (List ℕ × ℕ)
fetch is_blank key m = if check_key is_blank key then live_value (m key) else none

-- `set` changes its key alone.
module _ (is_blank : ℕ → Bool) (now : ℕ) (key value : List ℕ) (flag : ℕ) (version : ℤ)
    (m : Cells) where
  put-other : (j : List ℕ) (c : Cell) → j ≢ key → put key c m j ≡ m j
  put-other j c h = elim (Bool-cases (same_key j key)) [
    | inl e ↦ absurd (h ((same_key_iff j key).0 e))
    | inr e ↦ rw e refl
  ]

  renew-other :
      (asked : Bool) (ver : ℤ) (mc : Option Cell) (j : List ℕ)
      → j ≢ key
      → renew key asked ver mc m j ≡ m j
  unfolding renew
  renew-other asked ver none j h = refl
  renew-other false ver (some c) j h = refl
  renew-other true ver (some c) j h = put-other j (record c { ver = ver }) h

  set-other : (j : List ℕ) → j ≢ key → (set is_blank now key value flag version m).1 j ≡ m j
  unfolding set
  set-other j h = elim (Bool-cases (accepts is_blank key value version)) [
    | inr e ↦ rw e refl
    | inl e ↦ elim (Option-cases (next_version version (current_version (m key)))) [
      | inl none' ↦ rw (e, none') refl
      | inr (ver, some') ↦ elim (Bool-cases (repeats value flag (value_hash ver value) (m key))) [
        | inl r ↦ rw (e, some', r) (renew-other (not (is_zero version)) ver (m key) j h)
        | inr r ↦ rw (e, some', r) (put-other j (new_cell now value flag ver) h)
      ]
    ]
  ]

pub no_listing : (key : List ℕ) → is_plain key ≡ true → is_listing key ≡ false
no_listing [] h = refl
no_listing (c ∷ cs) h = ground (arith, h)

module _ (height : ℕ) (low : height ≤ 3) (shelf : Shelf height)
    (hs_list : List ℕ → HStore shelf.Cask → Option (List ℕ))
    (print_info : ℕ → ℕ → DataRecord → ℕ → List ℕ) where
  abbrev State : Type 0
  State = HStore shelf.Cask

  -- Every bitcask shows its part of the map.
  abbrev pub StoreShows : State → Cells → Type 0
  StoreShows s m = (i : ℕ) → i < bitcask_count height → shelf.Shows i (s.bitcasks i) m

  put_back_same : (i : ℕ) (s : State) → put_back height shelf i (s.bitcasks i) s ≡ s
  put_back_same i s =
      ap (λ (f : ℕ → shelf.Cask). record s { bitcasks = f })
        (fun_ext (λ j. elim (Bool-cases (j == i)) [
          | inl e ↦ rw e (ap s.bitcasks (ground (arith, e)))
          | inr e ↦ rw e refl
        ]))

  hs_get-plain :
      (key : List ℕ) (s : State)
      → is_plain key ≡ true
      → hs_get height shelf hs_list print_info key s
        ≡ hs_read height shelf hs_list print_info 0 key s
  unfolding hs_get
  hs_get-plain [] s h = refl
  hs_get-plain (c ∷ []) s h = ground (arith, h)
  hs_get-plain (c ∷ d ∷ cs) s h = ground (arith, h)

  abbrev reading : List ℕ → State → Option DataRecord × shelf.Cask → Option (List ℕ × ℕ) × State
  reading key s (got, c) =
      let i = get_index height key in
      (
        elim got [
          | none ↦ none
          | some r ↦ view height shelf hs_list print_info 0 (shelf.ret_pos i key (s.bitcasks i)) r
        ],
        put_back height shelf i c s,
      )

  seen :
      (key : List ℕ) (place : ℕ) (mc : Option Cell)
      → elim (answer key (visible true mc)) as (λ x. Option (List ℕ × ℕ)) [
        | none ↦ none
        | some r ↦ view height shelf hs_list print_info 0 place r
      ]
        ≡ live_value mc
  unfolding visible view
  seen key place none = refl
  seen key place (some c) = refl

  hs_read-Shows :
      (key : List ℕ) (s : State) (m : Cells)
      → StoreShows s m
      → hs_read height shelf hs_list print_info 0 key s ≡ (fetch shelf.is_blank key m, s)
  unfolding hs_read fetch get
  hs_read-Shows key s m sh =
      let i = get_index height key in
      let g =
        shelf.bc_get-Shows i key true (s.bitcasks i) m
          (sh i (get_index-lt-bitcask_count height key low)) refl in
      ap (reading key s) g ∙ elim (Bool-cases (check_key shelf.is_blank key)) [
        | inl k ↦
            rw (k, put_back_same i s, seen key (shelf.ret_pos i key (s.bitcasks i)) (m key)) refl
        | inr k ↦ rw (k, put_back_same i s) refl
      ]

  -- Where every bitcask of a store shows its part of one map, hs_get gives the value and the flag
  -- of the cell whose version is above zero as an int32, for an accepted key, and nothing for any
  -- other, and changes nothing. The bitcasks are given by the laws of their calls, the height is at
  -- most three, and the key does not begin with "@" or "?".
  pub hs_get-Shows :
      (key : List ℕ) (s : State) (m : Cells)
      → StoreShows s m
      → is_plain key ≡ true
      → hs_get height shelf hs_list print_info key s ≡ (fetch shelf.is_blank key m, s)
  hs_get-Shows key s m sh h = hs_get-plain key s h ∙ hs_read-Shows key s m sh

  -- Where every bitcask of a store shows its part of one map, hs_set does not exit, answers what
  -- the map answers, and all bitcasks show their parts of the new map, with room for one call less.
  -- The bitcasks are given by the laws of their calls, the store has a height of at most three and
  -- takes writes, the key does not begin with "@" or "?", and its bitcask has room. The request is
  -- as for bc_get-Reaches, and the sums of versions wrap as those of an int in two's complement.
  pub hs_set-Shows :
      (now : ℕ) (key value : List ℕ) (flag : ℕ) (version : ℤ) (s : State) (m : Cells) (n : ℕ)
      → StoreShows s m
      → is_plain key ≡ true
      → s.before ≡ 0
      → shelf.HasRoom (suc n) (s.bitcasks (get_index height key))
      → IsRequest key value flag
      → (s' : State) × (hs_set height shelf hs_list print_info now key value flag version s
          ≡ some ((set shelf.is_blank now key value flag version m).0, s'))
        × StoreShows s' (set shelf.is_blank now key value flag version m).1
        × shelf.HasRoom n (s'.bitcasks (get_index height key))
        × (s'.before ≡ 0)
  unfolding hs_set
  hs_set-Shows now key value flag version s m n sh plain now_open room q =
      let i = get_index height key in
      let (c, e, shows, left) =
        shelf.bc_set-Shows n i now key value flag version (s.bitcasks i) m
          (sh i (get_index-lt-bitcask_count height key low)) room refl q in
      (
        put_back height shelf i c s,
        rw (no_listing key plain, now_open, e) refl,
        λ j h. elim (Bool-cases (j == i)) [
          | inl same ↦
              let here : j ≡ i = ground (arith, same) in
              rw same (
                subst
                  (λ (x : ℕ). shelf.Shows x c (set shelf.is_blank now key value flag version m).1)
                  (sym here) shows)
          | inr other ↦ rw other (
              shelf.Shows-local j (s.bitcasks j) m
                (set shelf.is_blank now key value flag version m).1 h
                (λ k own.
                  set-other shelf.is_blank now key value flag version m k
                    (λ eq. ground (arith, other, own, ap (λ (x : List ℕ). get_index height x) eq)))
                (sh j h))
        ],
        rw (eq→== i i refl) left,
        now_open,
      )
