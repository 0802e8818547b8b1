-- ===== src/Codec/Walk.antt =====
-- The loop over the slots of src/codec.c stops, and where it stops.
use mathlib.Core.Path.{fun_ext}
use beansdb.Base.{
  ℕ, zero, suc, ◌+◌, ◌-◌, ◌≤◌, ◌<◌, ◌≡◌, ◌≢◌, refl, ap, ◌∙◌, arith, Bool, true, false, ◌⊎◌, inl,
  inr, ltb, ◌==◌, if◌then◌else◌, Bool-cases,
}
use beansdb.Codec.{next_slot, walk}

-- More slots than values: two slots share one.
pub pigeonhole :
    (n m : ℕ) (g : ℕ → ℕ)
    → ((h : ℕ) → h < n → g h < m)
    → ((h k : ℕ) → h < n → k < n → g h ≡ g k → h ≡ k)
    → n ≤ m
pigeonhole zero m g below inj = omega arith
pigeonhole (suc n) zero g below inj = absurd (omega (arith, below 0 (omega arith)))
pigeonhole (suc n) (suc m) g below inj =
    omega (arith, pigeonhole n m squeeze squeeze_below squeeze_inj)
  where
    squeeze : ℕ → ℕ
    squeeze h = if ltb (g n) (g h) then g h - 1 else g h

    apart : (h : ℕ) → h < n → g h ≢ g n
    apart h p e = omega (arith, inj h n (omega arith) (omega arith) e, p)

    squeeze_below : (h : ℕ) → h < n → squeeze h < m
    squeeze_below h p = ground (arith, below h (omega arith), below n (omega arith), apart h p)

    squeeze_inj : (h k : ℕ) → h < n → k < n → squeeze h ≡ squeeze k → h ≡ k
    squeeze_inj h k p q e =
        inj h k (omega arith) (omega arith) (ground (arith, apart h p, apart k q, e))

-- Either a slot below `n` fails a test, or none does.
pub search_slot :
    (goes : ℕ → Bool) (n : ℕ)
    → ((s : ℕ) × (s < n) × (goes s ≡ false)) ⊎ ((s : ℕ) → s < n → goes s ≡ true)
search_slot goes zero = inr (λ s h. absurd (omega arith))
search_slot goes (suc n) = elim (search_slot goes n) [
  | inl (s, h, e) ↦ inl (s, omega arith, e)
  | inr all ↦ elim (Bool-cases (goes n)) [
    | inr e ↦ inl (n, omega arith, e)
    | inl e ↦ inr (λ s h. elim (Bool-cases (s == n)) [
      | inl same ↦ ap goes (ground (arith, same)) ∙ e
      | inr other ↦ all s (ground (arith, other, h))
    ])
  ]
]

-- How far a slot is behind another, going round.
abbrev Within : ℕ → ℕ → ℕ → ℕ → Type 0
Within n h s fuel = ((h ≤ s) × (s ≤ h + fuel)) ⊎ ((s < h) × (s + n ≤ h + fuel))

module _ (goes : ℕ → Bool) (n : ℕ) where
  walk-reaches :
      (fuel h s : ℕ)
      → h < n
      → s < n
      → goes s ≡ false
      → Within n h s fuel
      → goes (walk goes n fuel h) ≡ false
  unfolding walk
  walk-reaches zero h s p q e w = ap goes (omega (arith, w, p, q)) ∙ e
  walk-reaches (suc fuel) h s p q e w = elim (Bool-cases (goes h)) [
    | inr stop ↦ rw stop stop
    | inl on ↦ rw on (
        walk-reaches fuel (next_slot n h) s (ground (arith, p)) q e
          (ground (arith, w, p, q, apart on)))
  ]
    where
      apart : goes h ≡ true → h ≢ s
      apart on same = cc

  -- With fuel for every slot, the loop stops at one that fails the test.
  pub walk-stops : (h s : ℕ) → h < n → s < n → goes s ≡ false → goes (walk goes n n h) ≡ false
  walk-stops h s p q e = walk-reaches n h s p q e (ground (arith, p, q))

  pub walk-lt : (fuel h : ℕ) → h < n → walk goes n fuel h < n
  unfolding walk
  walk-lt zero h p = p
  walk-lt (suc fuel) h p = elim (Bool-cases (goes h)) [
    | inr stop ↦ rw stop p
    | inl on ↦ rw on (walk-lt fuel (next_slot n h) (ground (arith, p)))
  ]

  -- A change at a slot where the loop would stop, and did not, changes nothing.
  pub walk-avoids :
      (goes' : ℕ → Bool) (gap fuel h : ℕ)
      → goes gap ≡ false
      → walk goes n fuel h ≢ gap
      → ((s : ℕ) → s ≢ gap → goes' s ≡ goes s)
      → walk goes' n fuel h ≡ walk goes n fuel h
  unfolding walk
  walk-avoids goes' gap zero h e other same = refl
  walk-avoids goes' gap (suc fuel) h e other same = elim (Bool-cases (goes h)) [
    | inr stop ↦ rw (same h (λ q. other (rw stop q)), stop) refl
    | inl on ↦
        rw (same h (λ q. differ on q), on)
          (walk-avoids goes' gap fuel (next_slot n h) e (λ q. other (rw on q)) same)
  ]
    where
      differ : goes h ≡ true → h ≢ gap
      differ on q = cc

pub walk-ext :
    (goes goes' : ℕ → Bool) (n fuel h : ℕ)
    → ((s : ℕ) → goes' s ≡ goes s)
    → walk goes' n fuel h ≡ walk goes n fuel h
walk-ext goes goes' n fuel h same = ap (λ (g : ℕ → Bool). walk g n fuel h) (fun_ext same)
