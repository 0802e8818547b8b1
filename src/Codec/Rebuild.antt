-- ===== src/Codec/Rebuild.antt =====
-- `dc_rebuild` of src/codec.c makes a table of the whole dictionary.
use mathlib.Core.List.{append_assoc, append-nil}
use mathlib.Core.Path.{subst}
use beansdb.Base.{
  ℕ, zero, suc, ◌<◌, ◌≡◌, ◌≢◌, refl, sym, ap, ◌∙◌, arith, Bool, true, false, not, inl, inr, some,
  List, [], ◌∷◌, ◌++◌, length, get_elem?, length-append, ◌==◌, if◌then◌else◌, Bool-cases,
}
use beansdb.Base.Int.{ℤ, pos, negsuc}
use beansdb.HTree.{same_key}
use beansdb.HTree.Blocks.{same_key_iff}
use beansdb.Bitcask.{update}
use beansdb.Codec.{Fmt, is_taken, is_other, home, find_slot, free_slot, insert_formats}
use beansdb.Codec.Walk.{walk-ext}
use beansdb.Codec.Table.{
  get_elem?-append_left, get_elem?-append_at, get_elem?-lt, get_elem?-some, IsDistinct, IsTable,
  is_other-some, pos-injective, find_slot-stops,
}
use beansdb.Codec.{Codec, rdict_size_for, dc_rebuild}
use beansdb.Codec.Insert.{with_new-IsTable}

-- While the table is rebuilt, no slot is given up.
abbrev IsFresh : (ℕ → ℤ) → Type 0
IsFresh rdict = (h k : ℕ) → rdict h ≢ negsuc k

pub empty-IsTable : (n : ℕ) → 0 < n → IsTable n (λ h. pos 0) []
empty-IsTable n p = record {
  room = p;
  valid = λ h i e. absurd (omega (arith, pos-injective 0 (suc i) e));
  once = λ h k i e. absurd (omega (arith, pos-injective 0 (suc i) e));
  found = λ i f e. cc;
}

-- Whether a slot is free can be told by its number alone, or with the format in it.
module _ (n : ℕ) (rdict : ℕ → ℤ) (dict : List Fmt) (t : IsTable n rdict dict) (f : Fmt)
    (new : (i : ℕ) (g : Fmt) → get_elem? dict i ≡ some g → g.fmt ≢ f.fmt) where
  is_taken-is_other :
      (v : ℤ) → ((i : ℕ) → v ≡ pos (suc i) → i < length dict) → is_taken v ≡ is_other dict f.fmt v
  is_taken-is_other (pos zero) h = unfold is_other in refl
  is_taken-is_other (negsuc k) h = unfold is_other in refl
  is_taken-is_other (pos (suc i)) h =
      let (g, e) = get_elem?-some dict i (h i refl) in
      sym (is_other-some dict f.fmt i g e ∙ ap not (not_same g (λ q. new i g e (sym q))))
    where
      not_same : (g : Fmt) → f.fmt ≢ g.fmt → same_key f.fmt g.fmt ≡ false
      not_same g h = elim (Bool-cases (same_key f.fmt g.fmt)) [
        | inl e ↦ absurd (h ((same_key_iff f.fmt g.fmt).0 e))
        | inr e ↦ e
      ]

  pub free_slot-eq-find_slot : free_slot n rdict f.fmt ≡ find_slot n rdict dict f.fmt
  unfolding free_slot find_slot
  free_slot-eq-find_slot =
      walk-ext (λ h. is_other dict f.fmt (rdict h)) (λ h. is_taken (rdict h)) n n (home n f.fmt)
        (λ s. is_taken-is_other (rdict s) (λ i e. t.valid s i e))

  pub free_slot-empty : IsFresh rdict → rdict (find_slot n rdict dict f.fmt) ≡ pos 0
  free_slot-empty fresh = empty_value (rdict slot) (fresh slot) (
      is_taken-is_other (rdict slot) (λ i e. t.valid slot i e)
      ∙ find_slot-stops n rdict dict t f.fmt)
    where
      slot : ℕ
      slot = find_slot n rdict dict f.fmt

      empty_value : (v : ℤ) → ((k : ℕ) → v ≢ negsuc k) → is_taken v ≡ false → v ≡ pos 0
      empty_value (pos zero) p e = refl
      empty_value (pos (suc i)) p e = cc
      empty_value (negsuc k) p e = absurd (p k refl)

if-ne : (b : Bool) (v w : ℤ) (k : ℕ) → v ≢ negsuc k → w ≢ negsuc k → (if b then v else w) ≢ negsuc k
if-ne true v w k p q = p
if-ne false v w k p q = q

update-IsFresh : (rdict : ℕ → ℤ) (s i : ℕ) → IsFresh rdict → IsFresh (update rdict s (pos (suc i)))
update-IsFresh rdict s i fresh h k = if-ne (h == s) (pos (suc i)) (rdict h) k (λ e. cc) (fresh h k)

-- The loop of `dc_rebuild`, after the formats of `done`.
insert_formats-IsTable :
    (n : ℕ) (fs done : List Fmt) (rdict : ℕ → ℤ)
    → IsDistinct (done ++ fs)
    → length (done ++ fs) < n
    → IsFresh rdict
    → IsTable n rdict done
    → IsTable n (insert_formats n (length done) fs rdict) (done ++ fs)
unfolding insert_formats
insert_formats-IsTable n [] done rdict d room fresh t =
    subst (IsTable n rdict) (sym (append-nil done)) t
insert_formats-IsTable n (f ∷ fs) done rdict d room fresh t =
    let assoc : (done ++ f ∷ []) ++ fs ≡ done ++ f ∷ fs = append_assoc done (f ∷ []) fs in
    let rdict' = update rdict (find_slot n rdict done f.fmt) (pos (suc (length done))) in
    let t' =
      with_new-IsTable n rdict done t f (free_slot-empty n rdict done t f new fresh)
        (omega (arith, room, length-append done (f ∷ fs))) in
    rw (free_slot-eq-find_slot n rdict done t f new) (
      subst (λ (dict : List Fmt). IsTable n (insert_formats n (suc (length done)) fs rdict') dict)
        assoc
        (subst (λ (i : ℕ). IsTable n (insert_formats n i fs rdict') ((done ++ f ∷ []) ++ fs))
          (omega (arith, length-append done (f ∷ [])))
          (insert_formats-IsTable n fs (done ++ f ∷ []) rdict' (subst IsDistinct (sym assoc) d)
            (omega (arith, room, ap length assoc)) fresh' t')))
  where
    new : (i : ℕ) (g : Fmt) → get_elem? done i ≡ some g → g.fmt ≢ f.fmt
    new i g e q =
        let p = get_elem?-lt done i g e in
        absurd (
          omega (
            arith,
            p,
            d i (length done) g f (get_elem?-append_left done (f ∷ fs) i p ∙ e)
                (get_elem?-append_at done f fs) q,
          ))

    fresh' : IsFresh (update rdict (find_slot n rdict done f.fmt) (pos (suc (length done))))
    fresh' = update-IsFresh rdict (find_slot n rdict done f.fmt) (length done) fresh

insert_formats-IsFresh :
    (n i : ℕ) (fs : List Fmt) (rdict : ℕ → ℤ)
    → IsFresh rdict
    → IsFresh (insert_formats n i fs rdict)
unfolding insert_formats
insert_formats-IsFresh n i [] rdict fresh = fresh
insert_formats-IsFresh n i (f ∷ fs) rdict fresh =
    insert_formats-IsFresh n (suc i) fs (update rdict (free_slot n rdict f.fmt) (pos (suc i)))
      (update-IsFresh rdict (free_slot n rdict f.fmt) i fresh)

pub dc_rebuild-IsFresh : (dc : Codec) (h k : ℕ) → (dc_rebuild dc).rdict h ≢ negsuc k
unfolding dc_rebuild
dc_rebuild-IsFresh dc =
    insert_formats-IsFresh (rdict_size_for dc.dict_size) 0 dc.dict (λ h. pos 0) (λ h k e. cc)

-- The dictionary is kept, and the table of its new size finds every format.
pub dc_rebuild-IsTable :
    (dc : Codec)
    → IsDistinct dc.dict
    → length dc.dict < rdict_size_for dc.dict_size
    → IsTable (rdict_size_for dc.dict_size) (dc_rebuild dc).rdict dc.dict
unfolding dc_rebuild
dc_rebuild-IsTable dc d room =
    insert_formats-IsTable (rdict_size_for dc.dict_size) dc.dict [] (λ h. pos 0) d room
      (λ h k e. cc) (empty-IsTable (rdict_size_for dc.dict_size) (omega arith))
