-- ===== src/Codec/Insert.antt =====
-- A format that is put into the table of src/codec.c is found there, and so are the others.
use mathlib.Core.Option.{some-injective}
use beansdb.Base.{
  ℕ, suc, ◌<◌, ◌≡◌, ◌≢◌, refl, sym, ap, ◌∙◌, arith, Bool, true, false, not, inl, inr, some, List,
  [], ◌∷◌, ◌++◌, length, get_elem?, length-append, ◌==◌, if◌then◌else◌, Bool-cases, eq→==,
  ne→==_false,
}
use beansdb.Base.Int.{ℤ, pos, negsuc}
use beansdb.HTree.Blocks.{same_key_refl}
use beansdb.Bitcask.{update}
use beansdb.Codec.{Fmt, is_other, home, find_slot}
use beansdb.Codec.Walk.{walk-avoids, walk-ext}
use beansdb.Codec.Table.{
  get_elem?-append_left, get_elem?-append_at, get_elem?-lt, IsTable, is_other-some, is_other-append,
  pos-injective,
}

module _ (n : ℕ) (rdict : ℕ → ℤ) (dict : List Fmt) (t : IsTable n rdict dict) (f : Fmt) where
  abbrev slot : ℕ
  slot = find_slot n rdict dict f.fmt

  abbrev longer : List Fmt
  longer = dict ++ f ∷ []

  -- A format that is not yet there takes the empty slot at which the loop stops.
  module _ (empty : rdict slot ≡ pos 0) (space : suc (length dict) < n) where
    abbrev with_new : ℕ → ℤ
    with_new = update rdict slot (pos (suc (length dict)))

    new_value : with_new slot ≡ pos (suc (length dict))
    new_value = rw (eq→== slot slot refl) refl

    old_value : (h : ℕ) → h ≢ slot → with_new h ≡ rdict h
    old_value h p = rw (ne→==_false h slot p) refl

    with_new-valid : (h i : ℕ) → with_new h ≡ pos (suc i) → i < length longer
    with_new-valid h i e = elim (Bool-cases (h == slot)) [
      | inl same ↦ omega (
        arith,
        length-append dict (f ∷ []),
        pos-injective (suc (length dict)) (suc i)
            (sym new_value ∙ ap with_new (sym (is_slot same)) ∙ e),
      )
      | inr other ↦
          omega (
            arith,
            length-append dict (f ∷ []),
            t.valid h i (sym (old_value h (not_slot other)) ∙ e),
          )
    ]
      where
        is_slot : (h == slot) ≡ true → h ≡ slot
        is_slot q = ground (arith, q)

        not_slot : (h == slot) ≡ false → h ≢ slot
        not_slot q = ground (arith, q)

    other_formats :
        (fmt : List ℕ) (s : ℕ)
        → s ≢ slot
        → is_other longer fmt (with_new s) ≡ is_other dict fmt (rdict s)
    other_formats fmt s p =
        ap (is_other longer fmt) (old_value s p)
        ∙ is_other-append dict (f ∷ []) fmt (rdict s) (λ i e. t.valid s i e)

    find-old :
        (i : ℕ) (g : Fmt)
        → get_elem? dict i ≡ some g
        → with_new (find_slot n with_new longer g.fmt) ≡ pos (suc i)
    unfolding find_slot
    find-old i g e =
        let there : slot ≢ find_slot n rdict dict g.fmt = apart in
        ap with_new (
          walk-avoids (λ h. is_other dict g.fmt (rdict h)) n
            (λ h. is_other longer g.fmt (with_new h)) slot n (home n g.fmt)
            (ap (is_other dict g.fmt) empty) (λ q. there (sym q)) (other_formats g.fmt))
        ∙ old_value (find_slot n rdict dict g.fmt) (λ q. there (sym q))
        ∙ t.found i g e
      where
        apart : slot ≢ find_slot n rdict dict g.fmt
        apart q =
            absurd (omega (arith, pos-injective 0 (suc i) (sym empty ∙ ap rdict q ∙ t.found i g e)))

    find-new : with_new (find_slot n with_new longer f.fmt) ≡ pos (suc (length dict))
    unfolding find_slot
    find-new =
        ap with_new (
          walk-ext (λ h. is_other dict f.fmt (rdict h)) (λ h. is_other longer f.fmt (with_new h)) n
            n (home n f.fmt)
            (λ s. elim (Bool-cases (s == slot)) [
              | inl same ↦ at_slot s (ground (arith, same))
              | inr other ↦ other_formats f.fmt s (ground (arith, other))
            ]))
        ∙ new_value
      where
        at_slot :
            (s : ℕ) → s ≡ slot → is_other longer f.fmt (with_new s) ≡ is_other dict f.fmt (rdict s)
        at_slot s q =
            ap (is_other longer f.fmt) (ap with_new q ∙ new_value)
            ∙ is_other-some longer f.fmt (length dict) f (get_elem?-append_at dict f [])
            ∙ ap not (same_key_refl f.fmt)
            ∙ sym (ap (is_other dict f.fmt) (ap rdict q ∙ empty))

    slot_number : (h i : ℕ) → h ≡ slot → with_new h ≡ pos (suc i) → i ≡ length dict
    slot_number h i q e =
        omega (arith, pos-injective (suc i) (suc (length dict)) (sym e ∙ ap with_new q ∙ new_value))

    old_number : (k i : ℕ) → k ≢ slot → with_new k ≡ pos (suc i) → i < length dict
    old_number k i q e = t.valid k i (sym (old_value k q) ∙ e)

    with_new-once : (h k i : ℕ) → with_new h ≡ pos (suc i) → with_new k ≡ pos (suc i) → h ≡ k
    with_new-once h k i p q = elim (Bool-cases (h == slot)) [
      | inl a ↦ elim (Bool-cases (k == slot)) [
        | inl b ↦ ground (arith, a, b)
        | inr b ↦ absurd (
            omega
              (arith, slot_number h i (ground (arith, a)) p, old_number k i (ground (arith, b)) q))
      ]
      | inr a ↦ elim (Bool-cases (k == slot)) [
        | inl b ↦ absurd (
            omega
              (arith, slot_number k i (ground (arith, b)) q, old_number h i (ground (arith, a)) p))
        | inr b ↦
            t.once h k i (sym (old_value h (ground (arith, a))) ∙ p)
              (sym (old_value k (ground (arith, b))) ∙ q)
      ]
    ]

    found_last :
        (i : ℕ) (g : Fmt)
        → i ≡ length dict
        → get_elem? longer i ≡ some g
        → with_new (find_slot n with_new longer g.fmt) ≡ pos (suc i)
    found_last i g q e =
        ap (λ (x : Fmt). with_new (find_slot n with_new longer x.fmt))
          (some-injective _ _ (sym e ∙ ap (get_elem? longer) q ∙ get_elem?-append_at dict f []))
        ∙ find-new
        ∙ ap (λ (x : ℕ). pos (suc x)) (sym q)

    found_earlier :
        (i : ℕ) (g : Fmt)
        → i ≢ length dict
        → get_elem? longer i ≡ some g
        → with_new (find_slot n with_new longer g.fmt) ≡ pos (suc i)
    found_earlier i g q e = find-old i g (
        sym (
          get_elem?-append_left dict (f ∷ []) i
            (omega (arith, q, get_elem?-lt longer i g e, length-append dict (f ∷ []))))
        ∙ e)

    pub with_new-IsTable : IsTable n with_new longer
    with_new-IsTable = record {
      room = omega (arith, space, length-append dict (f ∷ []));
      valid = with_new-valid;
      once = with_new-once;
      found = λ i g e. elim (Bool-cases (i == length dict)) [
        | inl last ↦ found_last i g (ground (arith, last)) e
        | inr earlier ↦ found_earlier i g (ground (arith, earlier)) e
      ];
    }

if_was : (b : Bool) (v : ℤ) (i : ℕ) → (if b then negsuc 0 else v) ≡ pos (suc i) → v ≡ pos (suc i)
if_was true v i e = cc
if_was false v i e = e

-- A slot that is given up leaves every format where it is found.
pub skip-IsTable :
    (n : ℕ) (rdict : ℕ → ℤ) (dict : List Fmt)
    → IsTable n rdict dict
    → (slot : ℕ) → rdict slot ≡ pos 0
    → IsTable n (update rdict slot (negsuc 0)) dict
unfolding find_slot is_other
skip-IsTable n rdict dict t slot empty = record {
  room = t.room;
  valid = λ h i e. t.valid h i (was h i e);
  once = λ h k i p q. t.once h k i (was h i p) (was k i q);
  found = λ i f e.
      ap skipped (
        walk-ext (λ h. is_other dict f.fmt (rdict h)) (λ h. is_other dict f.fmt (skipped h)) n n
          (home n f.fmt) (λ s. same_other f.fmt s))
      ∙ kept (find_slot n rdict dict f.fmt) i (t.found i f e);
}
  where
    skipped : ℕ → ℤ
    skipped = update rdict slot (negsuc 0)

    is_slot : (h : ℕ) → (h == slot) ≡ true → h ≡ slot
    is_slot h q = ground (arith, q)

    was : (h i : ℕ) → skipped h ≡ pos (suc i) → rdict h ≡ pos (suc i)
    was h i e = if_was (h == slot) (rdict h) i e

    kept : (h i : ℕ) → rdict h ≡ pos (suc i) → skipped h ≡ pos (suc i)
    kept h i e = elim (Bool-cases (h == slot)) [
      | inl s ↦
          absurd
            (omega (arith, pos-injective 0 (suc i) (sym empty ∙ ap rdict (sym (is_slot h s)) ∙ e)))
      | inr o ↦ rw o e
    ]

    same_other :
        (fmt : List ℕ) (s : ℕ) → is_other dict fmt (skipped s) ≡ is_other dict fmt (rdict s)
    same_other fmt s = elim (Bool-cases (s == slot)) [
      | inl q ↦ rw q (sym (ap (is_other dict fmt) (ap rdict (is_slot s q) ∙ empty)))
      | inr q ↦ rw q refl
    ]
