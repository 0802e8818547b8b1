-- ===== src/Store/Calls.antt =====
-- `hs_get`, `hs_set`, `hs_delete`, `hs_append` and `hs_incr` of src/hstore.c over bitcasks that are
-- given by their calls. The listing of a subtree for a key with "@", the text of a record's meta data
-- and the conversions of numbers by the C library are parameters.
use beansdb.Base.{
  ℕ, suc, ◌%◌, ◌^◌, ◌<◌, ◌≡◌, Bool, true, false, ◌&&◌, ◌||◌, not, Option, none, some, List, [], ◌∷◌,
  ◌++◌, length, ltb, ◌==◌, if◌then◌else◌,
}
use beansdb.Base.Int.{ℤ, pos, negsuc, ◌+ℤ◌, pos_part, wrap}
use beansdb.Fnv.{gen_hash}
use beansdb.Record.{DataRecord}
use beansdb.Store.{get_index, bitcask_count}
use beansdb.Bitcask.{update, is_zero}
use beansdb.Bitcask.Spec.{Cells, get, set}
use beansdb.Bitcask.Sets.{IsRequest}

-- The calls of the bitcasks of a store, by their index: `bc_get` with the position that it returns,
-- `bc_set` and `bc_delete`; and what the store relies on.
pub record Shelf (height : ℕ) : Type 1 where
  pub Cask : Type 0
  pub is_blank : ℕ → Bool
  pub Shows : ℕ → Cask → Cells → Type 0
  pub HasRoom : ℕ → Cask → Type 0
  pub ret_pos : ℕ → List ℕ → Cask → ℕ
  pub bc_get : ℕ → List ℕ → Bool → Cask → Option DataRecord × Cask
  pub bc_set : ℕ → ℕ → List ℕ → List ℕ → ℕ → ℤ → Cask → Option (Bool × Cask)
  pub bc_get-Shows :
      (i : ℕ) (key : List ℕ) (return_deleted : Bool) (c : Cask) (m : Cells)
      → Shows i c m
      → i ≡ get_index height key
      → bc_get i key return_deleted c ≡ (get is_blank key return_deleted m, c)
  pub bc_set-Shows :
      (n i now : ℕ) (key value : List ℕ) (flag : ℕ) (version : ℤ) (c : Cask) (m : Cells)
      → Shows i c m
      → HasRoom (suc n) c
      → i ≡ get_index height key
      → IsRequest key value flag
      → (c' : Cask) × (bc_set i now key value flag version c
          ≡ some ((set is_blank now key value flag version m).0, c'))
        × Shows i c' (set is_blank now key value flag version m).1
        × HasRoom n c'
  pub Shows-local :
      (i : ℕ) (c : Cask) (m m' : Cells)
      → i < bitcask_count height
      → ((key : List ℕ) → i ≡ get_index height key → m' key ≡ m key)
      → Shows i c m
      → Shows i c m'

pub record HStore (Cask : Type 0) : Type 0 where
  pub before : ℕ
  pub bitcasks : ℕ → Cask

abbrev pub append_flag : ℕ
append_flag = 0x00000100

abbrev pub incr_flag : ℕ
incr_flag = 0x00000204

-- A key that begins with "@".
abbrev pub is_listing : List ℕ → Bool
is_listing [] = false
is_listing (c ∷ cs) = c == 64

-- `errno` after a call that sets it or leaves it.
unfoldable pub errno_after : ℕ → Option ℕ → ℕ
errno_after errno none = errno
errno_after errno (some e) = e

-- An int32_t above zero.
abbrev pub above_zero : ℕ → Bool
above_zero word = ltb 0 word && ltb word (2 ^ 31)

module _ (height : ℕ) (shelf : Shelf height) where
  open shelf use {Cask, bc_get, bc_set, ret_pos}

  abbrev State : Type 0
  State = HStore Cask

  abbrev pub put_back : ℕ → Cask → State → State
  put_back i c s = record s { bitcasks = update s.bitcasks i c }

  module _ (hs_list : List ℕ → State → Option (List ℕ))
      (print_info : ℕ → ℕ → DataRecord → ℕ → List ℕ) where
    -- What is given back of a record: the meta data, or the value and the flag of a live one.
    unfoldable pub view : ℕ → ℕ → DataRecord → Option (List ℕ × ℕ)
    view info place r =
        if ltb 0 info
        then some (
          print_info info (if above_zero r.version then gen_hash r.value % 2 ^ 16 else 0) r place,
          0,
        )
        else if above_zero r.version
        then some (r.value, r.flag)
        else none

    unfoldable pub hs_read : ℕ → List ℕ → State → Option (List ℕ × ℕ) × State
    unfolding view
    hs_read info key s =
        let i = get_index height key in
        let place = ret_pos i key (s.bitcasks i) in
        let (got, c) = bc_get i key true (s.bitcasks i) in
        (elim got [ none ↦ none | some r ↦ view info place r ], put_back i c s)

    -- The value and the flag for a key; "@" lists, "?" and "??" ask for the meta data.
    unfoldable pub hs_get : List ℕ → State → Option (List ℕ × ℕ) × State
    unfolding hs_read
    hs_get [] s = hs_read 0 [] s
    hs_get (c ∷ []) s =
        if c == 64
        then (elim (hs_list [] s) [ none ↦ none | some text ↦ some (text, 0) ], s)
        else if c == 63
        then hs_read 1 [] s
        else hs_read 0 (c ∷ []) s
    hs_get (c ∷ d ∷ key) s =
        if c == 64
        then (elim (hs_list (d ∷ key) s) [ none ↦ none | some text ↦ some (text, 0) ], s)
        else if c == 63
        then (if d == 63 then hs_read 2 key s else hs_read 1 (d ∷ key) s)
        else hs_read 0 (c ∷ d ∷ key) s

    abbrev pub outcome : ℕ → State → Option (Bool × Cask) → Option (Bool × State)
    outcome i s none = none
    outcome i s (some (ok, c)) = some (ok, put_back i c s)

    unfoldable pub hs_set : ℕ → List ℕ → List ℕ → ℕ → ℤ → State → Option (Bool × State)
    hs_set now key value flag version s =
        let i = get_index height key in
        if is_listing key || ltb 0 s.before
        then some (false, s)
        else outcome i s (bc_set i now key value flag version (s.bitcasks i))

    unfoldable pub hs_delete : ℕ → List ℕ → State → Option (Bool × State)
    hs_delete now key s =
        let i = get_index height key in
        if ltb 0 s.before
        then some (false, s)
        else outcome i s (bc_set i now key [] 0 (negsuc 0) (s.bitcasks i))

    -- The value is put behind the one in store, which must have been made by appending.
    unfoldable pub append_to :
        ℕ → List ℕ → List ℕ → Option (List ℕ × ℕ) → State → Option (Bool × State)
    unfolding hs_set
    append_to now key value none s = hs_set now key value append_flag (pos 0) s
    append_to now key value (some (body, flag)) s =
        if not (flag == append_flag)
        then some (false, s)
        else hs_set now key (body ++ value) flag (pos 0) s

    unfoldable pub hs_append : ℕ → List ℕ → List ℕ → State → Option (Bool × State)
    unfolding append_to
    hs_append now key value s =
        let (body, s') = hs_get key s in
        if is_listing key || ltb 0 s.before
        then some (false, s)
        else append_to now key value body s'

    -- A counter: its text is read and written by the C library, and it does not go below zero.
    -- `strtoll` gives a number and what it sets `errno` to, if it does; `einval` is EINVAL.
    module _ (strtoll : List ℕ → ℤ × Option ℕ) (einval : ℕ) (print_decimal : ℕ → List ℕ) where
      -- From `result += value` on, in an int64_t.
      unfoldable pub count_on : ℕ → List ℕ → ℤ → ℤ → State → Option (ℕ × State)
      unfolding hs_set
      count_on now key value result s =
          let total = pos_part (wrap (2 ^ 63) (result +ℤ value)) in
          elim (hs_set now key (print_decimal total) incr_flag (pos 0) s) [
            | none ↦ none
            | some (ok, s') ↦ some (if ok then total else 0, s')
          ]

      -- The text is refused where it reads as zero and `errno` is EINVAL, also one that an earlier call
      -- left: `errno` is its value before `strtoll`.
      unfoldable pub add_to : ℕ → ℕ → List ℕ → ℤ → Option (List ℕ × ℕ) → State → Option (ℕ × State)
      unfolding count_on
      add_to errno now key value none s = count_on now key value (pos 0) s
      add_to errno now key value (some (body, flag)) s =
          let (result, sets) = strtoll body in
          if not (flag == incr_flag) || ltb 22 (length body)
          then some (0, s)
          else if is_zero result && errno_after errno sets == einval
          then some (0, s)
          else count_on now key value result s

      unfoldable pub hs_incr : ℕ → ℕ → List ℕ → ℤ → State → Option (ℕ × State)
      unfolding add_to
      hs_incr errno now key value s =
          let (body, s') = hs_get key s in
          if is_listing key || ltb 0 s.before
          then some (0, s)
          else add_to errno now key value body s'
