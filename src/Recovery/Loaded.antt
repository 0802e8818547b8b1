-- ===== src/Recovery/Loaded.antt =====
-- `scanHintFile` of src/hint.c on what `build_hint` wrote.
use mathlib.Core.List.{append_assoc, append-nil}
use beansdb.Base.{
  ℕ, zero, suc, ◌+◌, ◌-◌, ◌*◌, ◌/◌, ◌%◌, ◌^◌, ◌≤◌, ◌<◌, ◌≡◌, refl, sym, ap, ◌∙◌, arith, bit_or,
  Bool, true, Option, none, some, List, [], ◌∷◌, ◌++◌, length, length-append, All, if◌then◌else◌,
}
use beansdb.Base.Masks.{bit_or-page}
use beansdb.HTree.{same_key}
use beansdb.Record.{Env}
use beansdb.Bitcask.{Entry, Index, check_key}
use beansdb.Recovery.{apply_entry}
use beansdb.Recovery.Newest.{live_entry, apply_entry-IsOk, ht_get-apply_entry}
use beansdb.Recovery.Hints.{
  hint_record, collect_items, collect_all, next_hint, apply_hint, scan_hints,
}
use beansdb.Recovery.Saved.{IsSmall, hinted, length-hint_record, next_hint-hint_record}

-- The keys of a tree with their entries, in the order of a visit.
abbrev pub Listing : Type 0
Listing = List (List ℕ × Entry)

abbrev pub hints : Listing → List ℕ
hints [] = []
hints ((key, e) ∷ vs) = hint_record key e ++ hints vs

pub collect_all-hints : (vs : Listing) (buf : List ℕ) → collect_all vs buf ≡ buf ++ hints vs
unfolding collect_all collect_items
collect_all-hints [] buf = sym (append-nil buf)
collect_all-hints ((key, e) ∷ vs) buf =
    collect_all-hints vs (buf ++ hint_record key e)
    ∙ append_assoc buf (hint_record key e) (hints vs)

-- What a listing leaves under a key, over what was there before.
unfoldable pub listed : (Entry → Option Entry) → List ℕ → Listing → Option Entry → Option Entry
listed keeps k [] before = before
listed keeps k ((key, e) ∷ vs) before =
    listed keeps k vs (if same_key k key then keeps e else before)

module _ (idx : Index) (env : Env) (is_blank : ℕ → Bool) (bucket : ℕ) where
  open idx use {Tree, IsOk, ht_get, ht_add, ht_remove, takes}

  -- An entry of the bucket, for a key that the tree takes.
  pub record IsHint (v : List ℕ × Entry) : Type 0 where
    pub small : IsSmall v.0 v.1
    pub own : v.1.place % 256 ≡ bucket
    pub accepted : check_key is_blank v.0 ≡ true
    pub taken : takes v.0 ≡ true

  abbrev pub apply_listing : Listing → Tree → Tree
  apply_listing [] t = t
  apply_listing ((key, e) ∷ vs) t = apply_listing vs (apply_entry idx env is_blank bucket key e t)

  apply_hint-eq-apply_entry :
      (key : List ℕ) (e : Entry) (t : Tree)
      → IsHint (key, e)
      → apply_hint idx env is_blank bucket key (hinted e) t
        ≡ apply_entry idx env is_blank bucket key e t
  unfolding apply_hint apply_entry
  apply_hint-eq-apply_entry key e t h =
      let place : bit_or (e.place / 2 ^ 8 * 2 ^ 8) (bucket % 256) ≡ e.place =
        bit_or-page (e.place / 2 ^ 8 * 2 ^ 8) (bucket % 256) (omega arith) (omega arith)
        ∙ omega (arith, h.own) in
      rw (h.accepted, apply_hint, place) refl

  next_scan :
      (m : ℕ) (buf key rest : List ℕ) (e : Entry) (t : Tree)
      → 0 < length buf
      → next_hint buf ≡ some (key, e, rest)
      → scan_hints idx env is_blank bucket (suc m) buf t
        ≡ scan_hints idx env is_blank bucket m rest (apply_hint idx env is_blank bucket key e t)
  unfolding scan_hints
  next_scan m [] key rest e t h q = absurd (omega (arith, h))
  next_scan m (b ∷ bs) key rest e t h q = rw (q, scan_hints) refl

  last_scan :
      (m : ℕ) (buf : List ℕ) (t : Tree)
      → next_hint buf ≡ none
      → scan_hints idx env is_blank bucket m buf t ≡ t
  unfolding scan_hints
  last_scan zero buf t q = refl
  last_scan (suc m) [] t q = refl
  last_scan (suc m) (b ∷ bs) t q = rw (q, scan_hints) refl

  scan_hints-hints :
      (vs : Listing) (m : ℕ) (rest : List ℕ) (t : Tree)
      → All IsHint vs
      → scan_hints idx env is_blank bucket (length vs + m) (hints vs ++ rest) t
        ≡ scan_hints idx env is_blank bucket m rest (apply_listing vs t)
  scan_hints-hints [] m rest t h =
      ap (λ (k : ℕ). scan_hints idx env is_blank bucket k rest t) (omega arith)
  scan_hints-hints ((key, e) ∷ vs) m rest t h =
      let buf = hint_record key e ++ (hints vs ++ rest) in
      ap (λ (k : ℕ). scan_hints idx env is_blank bucket k (hint_record key e ++ hints vs ++ rest) t)
        (omega arith)
      ∙ ap (λ (xs : List ℕ). scan_hints idx env is_blank bucket (suc (length vs + m)) xs t)
          (append_assoc (hint_record key e) (hints vs) rest)
      ∙ next_scan (length vs + m) buf key (hints vs ++ rest) (hinted e) t
          (omega
            (arith, length-append (hint_record key e) (hints vs ++ rest), length-hint_record key e))
          (next_hint-hint_record key (hints vs ++ rest) e h.0.small)
      ∙ ap (scan_hints idx env is_blank bucket (length vs + m) (hints vs ++ rest))
          (apply_hint-eq-apply_entry key e t h.0)
      ∙ scan_hints-hints vs m rest (apply_entry idx env is_blank bucket key e t) h.1

  length-hints : (vs : Listing) → length vs ≤ length (hints vs)
  length-hints [] = omega arith
  length-hints ((key, e) ∷ vs) = omega (
    arith,
    length-append (hint_record key e) (hints vs),
    length-hint_record key e,
    length-hints vs,
  )

  -- Whole hints, and an end that holds none.
  pub scan_hints-whole :
      (vs : Listing) (rest : List ℕ) (t : Tree)
      → All IsHint vs
      → next_hint rest ≡ none
      → scan_hints idx env is_blank bucket (length (hints vs ++ rest)) (hints vs ++ rest) t
        ≡ apply_listing vs t
  scan_hints-whole vs rest t h q =
      let m = length (hints vs ++ rest) - length vs in
      ap (λ (k : ℕ). scan_hints idx env is_blank bucket k (hints vs ++ rest) t)
        (omega (arith, length-append (hints vs) rest, length-hints vs))
      ∙ scan_hints-hints vs m rest t h
      ∙ last_scan m rest (apply_listing vs t) q

  pub ht_get-apply_listing :
      (vs : Listing) (k : List ℕ) (t : Tree)
      → All IsHint vs
      → IsOk t
      → ht_get k (apply_listing vs t) ≡ listed live_entry k vs (ht_get k t)
  unfolding listed
  ht_get-apply_listing [] k t h ok = refl
  ht_get-apply_listing ((key, e) ∷ vs) k t h ok =
      ht_get-apply_listing vs k (apply_entry idx env is_blank bucket key e t) h.1
        (apply_entry-IsOk idx env is_blank bucket key e t ok)
      ∙ ap (listed live_entry k vs)
          (ht_get-apply_entry idx env is_blank bucket k key e t ok h.0.taken)
