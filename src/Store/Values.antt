-- ===== src/Store/Values.antt =====
-- What src/hstore.c gives back for a key after a value was set, appended to or counted on.
use beansdb.Base.{
  ℕ, zero, suc, ◌+◌, ◌^◌, ◌≤◌, ◌<◌, ◌≡◌, ◌≢◌, ◌&&◌, ◌==◌, refl, ap, ◌∙◌, arith, Bool, true, false,
  ◌⊎◌, ◌||◌, Option, none, some, List, ◌++◌, length, ltb, if◌then◌else◌, Bool-cases, inl, inr,
  le→ltb_false,
}
use beansdb.Base.Int.{ℤ, pos, negsuc, ◌+ℤ◌, pos_part, wrap, signed, IsWithin}
use beansdb.HTree.Blocks.{same_key_iff, same_key_refl}
use beansdb.Record.{DataRecord, max_value_len}
use beansdb.Store.{get_index}
use beansdb.Store.Calls.{
  Shelf, HStore, errno_after, append_flag, incr_flag, is_listing, above_zero, hs_get, hs_set,
  append_to, hs_append, count_on, add_to, hs_incr,
}
use beansdb.Store.Shows.{
  is_plain, live_value, fetch, no_listing, StoreShows, hs_get-Shows, hs_set-Shows,
}
use beansdb.Bitcask.{check_key, magnitude, is_negative, is_zero, word_of}
use beansdb.Bitcask.Versions.{next_version-magnitude}
use beansdb.Bitcask.Spec.{Cell, Cells, current_version, set, renew, repeats, accepts, value_hash}
use beansdb.Bitcask.Sets.{IsRequest}
use beansdb.Bitcask.Answers.{repeats-value}

-- The key is new, or holds a live value.
abbrev pub IsFresh : Option Cell → Type 0
IsFresh mc = (mc ≡ none) ⊎ (above_zero (word_of (current_version mc)) ≡ true)

not_equal : (a b : ℕ) → a ≢ b → (a == b) ≡ false
not_equal a b h = ground (arith, h)

-- A sum that an int64_t holds.
wrap-sum :
    (n : ℕ) (value : ℤ)
    → n < 2 ^ 63
    → IsWithin (2 ^ 63) value
    → pos_part (pos n +ℤ value) < 2 ^ 63
    → wrap (2 ^ 63) (pos n +ℤ value) ≡ pos n +ℤ value
unfolding wrap signed IsWithin ◌+ℤ◌
wrap-sum n (pos v) word long h = ground (arith, word, long, h)
wrap-sum n (negsuc v) word long h = ground (arith, word, long, h)

only_then :
    (b : Bool) (v w : List ℕ × ℕ)
    → ◌≡◌ {A = Option (List ℕ × ℕ)} (if b then some v else none) (some w)
    → b ≡ true
only_then true v w h = refl
only_then false v w h = cc

module _ (is_blank : ℕ → Bool) (now : ℕ) (key value : List ℕ) (flag : ℕ) (m : Cells) where
  repeats-live :
      (hash : ℕ) (mc : Option Cell)
      → IsFresh mc
      → repeats value flag hash mc ≡ true
      → live_value mc ≡ some (value, flag)
  repeats-live hash none f h = unfold repeats in cc
  repeats-live hash (some c) (inl e) h = cc
  repeats-live hash (some c) (inr live) h =
      let s = repeats-value value flag hash c h in
      rw (live, (same_key_iff value c.value).0 s.2, s.1) refl

  renew-unasked : (ver : ℤ) (mc : Option Cell) → renew key false ver mc m ≡ m
  unfolding renew
  renew-unasked ver none = refl
  renew-unasked ver (some c) = refl

  set-live :
      accepts is_blank key value (pos 0) ≡ true
      → IsFresh (m key)
      → magnitude (current_version (m key)) + 1 < 2 ^ 31
      → ((set is_blank now key value flag (pos 0) m).0 ≡ true)
        × (live_value ((set is_blank now key value flag (pos 0) m).1 key) ≡ some (value, flag))
  unfolding set is_zero
  set-live a f small =
      let v = magnitude (current_version (m key)) in
      let e = next_version-magnitude (current_version (m key)) small in
      elim (Bool-cases (repeats value flag (value_hash (pos (suc v)) value) (m key))) [
        | inl r ↦
            rw (a, e, r, renew-unasked (pos (suc v)) (m key)) (refl, repeats-live _ (m key) f r)
        | inr r ↦
            rw (a, e, r) (refl, rw (same_key_refl key) (unfold word_of in ground (arith, small)))
      ]

module _ (height : ℕ) (low : height ≤ 3) (shelf : Shelf height)
    (hs_list : List ℕ → HStore shelf.Cask → Option (List ℕ))
    (print_info : ℕ → ℕ → DataRecord → ℕ → List ℕ) (s : HStore shelf.Cask) (m : Cells)
    (sh : StoreShows height low shelf hs_list print_info s m) (writable : s.before ≡ 0) (now : ℕ)
    (key : List ℕ) (plain : is_plain key ≡ true) (k : check_key shelf.is_blank key ≡ true)
    (room : shelf.HasRoom 1 (s.bitcasks (get_index height key)))
    (small : magnitude (current_version (m key)) + 1 < 2 ^ 31) where
  accepted :
      (value : List ℕ)
      → length value ≤ max_value_len
      → accepts shelf.is_blank key value (pos 0) ≡ true
  unfolding accepts is_negative
  accepted value h = ground (arith, k, h)

  abbrev Gives : Option (Bool × HStore shelf.Cask) → List ℕ → ℕ → Type 0
  Gives result value flag =
      (s' : HStore shelf.Cask) × (result ≡ some (true, s'))
      × (hs_get height shelf hs_list print_info key s' ≡ (some (value, flag), s'))

  pub hs_set-hs_get :
      (value : List ℕ) (flag : ℕ)
      → IsFresh (m key)
      → length value ≤ max_value_len
      → IsRequest key value flag
      → Gives (hs_set height shelf hs_list print_info now key value flag (pos 0) s) value flag
  hs_set-hs_get value flag f h q =
      let (s', e, sh', left, still) =
        hs_set-Shows height low shelf hs_list print_info now key value flag (pos 0) s m 0 sh plain
          writable room q in
      let l = set-live shelf.is_blank now key value flag m (accepted value h) f small in
      (
        s',
        e ∙ ap (λ (b : Bool). some (b, s')) l.0,
        hs_get-Shows height low shelf hs_list print_info key s' _ sh' plain
            ∙ (unfold fetch in rw (k, l.1) refl),
      )

  fetched : hs_get height shelf hs_list print_info key s ≡ (live_value (m key), s)
  fetched =
      hs_get-Shows height low shelf hs_list print_info key s m sh plain
      ∙ (unfold fetch in rw k refl)

  live-IsFresh : (mc : Option Cell) (v : List ℕ × ℕ) → live_value mc ≡ some v → IsFresh mc
  live-IsFresh none v h = inl refl
  live-IsFresh (some c) v h = inr (only_then (above_zero (word_of c.ver)) (c.value, c.flag) v h)

  open_test : (is_listing key || ltb 0 s.before) ≡ false
  open_test = ground (arith, no_listing key plain, writable)

  hs_append-fetched :
      (value : List ℕ)
      → hs_append height shelf hs_list print_info now key value s
        ≡ append_to height shelf hs_list print_info now key value (live_value (m key)) s
  unfolding hs_append
  hs_append-fetched value = rw open_test (
      ap
        (λ (x : Option (List ℕ × ℕ) × HStore shelf.Cask).
          append_to height shelf hs_list print_info now key value x.0 x.1)
        fetched)

  -- Where a live value with the flag of appended values is in store and its version stays below 2 ^
  -- 31, hs_append of an accepted key is true and hs_get then gives the old bytes with the new ones
  -- behind them. The bitcasks are given by the laws of their calls, the store has a height of at
  -- most three and takes writes, the key does not begin with "@" or "?", and its bitcask has room.
  -- The joined value is within its limit and the request as for bc_get-Reaches.
  pub hs_append-hs_get :
      (body value : List ℕ)
      → live_value (m key) ≡ some (body, append_flag)
      → length (body ++ value) ≤ max_value_len
      → IsRequest key (body ++ value) append_flag
      → Gives
          (hs_append height shelf hs_list print_info now key value s)
          (body ++ value)
          append_flag
  unfolding append_to
  hs_append-hs_get body value held h q =
      let (s', e, got) =
        hs_set-hs_get (body ++ value) append_flag (live-IsFresh (m key) _ held) h q in
      (s', hs_append-fetched value ∙ (rw held e), got)

  module _ (strtoll : List ℕ → ℤ × Option ℕ) (einval : ℕ) (print_decimal : ℕ → List ℕ)
      (reads : (n : ℕ) → n < 2 ^ 63 → strtoll (print_decimal n) ≡ (pos n, none)) (errno : ℕ) where
    hs_incr-fetched :
        (value : ℤ)
        → hs_incr height shelf hs_list print_info strtoll einval print_decimal errno now key value s
          ≡ add_to height shelf hs_list print_info strtoll einval print_decimal errno now key value
              (live_value (m key))
              s
    unfolding hs_incr
    hs_incr-fetched value = rw open_test (
        ap
          (λ (x : Option (List ℕ × ℕ) × HStore shelf.Cask).
            add_to height shelf hs_list print_info strtoll einval print_decimal errno now key value
              x.0 x.1)
          fetched)

    -- A number that the library wrote is taken, but for a zero after EINVAL.
    add_to-read :
        (n : ℕ) (value : ℤ)
        → n < 2 ^ 63
        → length (print_decimal n) ≤ 22
        → (0 < n) ⊎ (errno ≢ einval)
        → add_to height shelf hs_list print_info strtoll einval print_decimal errno now key value
            (some (print_decimal n, incr_flag))
            s
          ≡ count_on height shelf hs_list print_info strtoll einval print_decimal now key value
              (pos n)
              s
    unfolding add_to errno_after is_zero
    add_to-read n value word short known =
        rw (reads n word, le→ltb_false 22 (length (print_decimal n)) short) (passes n known)
      where
        passes :
            (n : ℕ)
            → (0 < n) ⊎ (errno ≢ einval)
            → (if is_zero (pos n) && errno == einval
                then some (0, s)
                else count_on height shelf hs_list print_info strtoll einval print_decimal now key
                    value
                    (pos n)
                    s)
              ≡ count_on height shelf hs_list print_info strtoll einval print_decimal now key value
                  (pos n)
                  s
        passes zero (inl more) = absurd (omega (arith, more))
        passes zero (inr other) = rw (not_equal errno einval other) refl
        passes (suc n) known = refl

    count_on-stored :
        (result value : ℤ) (s' : HStore shelf.Cask)
        → wrap (2 ^ 63) (result +ℤ value) ≡ result +ℤ value
        → hs_set height shelf hs_list print_info now key
            (print_decimal (pos_part (result +ℤ value)))
            incr_flag
            (pos 0)
            s
          ≡ some (true, s')
        → count_on height shelf hs_list print_info strtoll einval print_decimal now key value result
            s
          ≡ some (pos_part (result +ℤ value), s')
    unfolding count_on
    count_on-stored result value s' same e =
        rw (count_on, same, e) (ap (λ (z : ℤ). some (pos_part z, s')) same)

    -- Where the text of a number with the flag of counters is in store, hs_incr of an accepted key
    -- gives the sum, zero where it is negative, and hs_get then gives the text of the sum. The
    -- bitcasks are given by the laws of their calls, the store has a height of at most three and
    -- takes writes, the key does not begin with "@" or "?", and its bitcask has room. The library
    -- reads back the numbers below 2 ^ 63 that it writes and sets no errno then, number and sum are
    -- such, the value is an int64_t, and the number is not zero where errno was EINVAL before. The
    -- version stays below 2 ^ 31, and the request is as for bc_get-Reaches.
    pub hs_incr-hs_get :
        (n : ℕ) (value : ℤ)
        → n < 2 ^ 63
        → IsWithin (2 ^ 63) value
        → pos_part (pos n +ℤ value) < 2 ^ 63
        → (0 < n) ⊎ (errno ≢ einval)
        → live_value (m key) ≡ some (print_decimal n, incr_flag)
        → length (print_decimal n) ≤ 22
        → length (print_decimal (pos_part (pos n +ℤ value))) ≤ max_value_len
        → IsRequest key (print_decimal (pos_part (pos n +ℤ value))) incr_flag
        → (s' : HStore shelf.Cask) × (hs_incr height shelf hs_list print_info strtoll einval
              print_decimal errno now key value s
            ≡ some (pos_part (pos n +ℤ value), s'))
          × (hs_get height shelf hs_list print_info key s'
              ≡ (some (print_decimal (pos_part (pos n +ℤ value)), incr_flag), s'))
    hs_incr-hs_get n value word long total_word known held short h q =
        let total = pos_part (pos n +ℤ value) in
        let (s', e, got) =
          hs_set-hs_get (print_decimal total) incr_flag (live-IsFresh (m key) _ held) h q in
        (
          s',
          hs_incr-fetched value
              ∙ (rw (held, add_to-read n value word short known)
                  (count_on-stored (pos n) value s' (wrap-sum n value word long total_word) e)),
          got,
        )
