-- ===== src/Jsc/Roots/Evolution.antt =====
-- backend-jsc/src/experimental.rs: how the calls on a registry of persistent roots change its slots.
use rust_jsi.Base.{
  ℕ, zero, suc, ◌+◌, ◌<◌, ◌≡◌, ◌⊎◌, inl, inr, refl, sym, ap, subst, ◌∙◌, Bool, true, false,
  if◌then◌else◌, List, [], ◌∷◌, ◌++◌, none, some, Option-cases, Bool-cases, arith,
}
use rust_jsi.Base.Slots.{get_elem?, set, get-set-found, get-append-old, some-injective, none-some}
use rust_jsi.Jsc.Generations.{saturating_succ_lem, count}
use rust_jsi.Jsc.Roots.{
  RootId, RootSlot, RootRegistry, is_live, get, drained_slot, drained_slots, values, push_value,
}
use rust_jsi.Jsc.Roots.Invariant.{SlotFits}

module _ {V : Type 0} where
  -- A generation never falls, and within one a pending slot stays pending.
  abbrev pub Evolves : RootSlot V → RootSlot V → Type 0
  Evolves s t =
      (s.generation < t.generation)
      ⊎ ((s.generation ≡ t.generation) × ((is_live s.release ≡ true) ⊎ (is_live t.release ≡ false)))

  abbrev pub Grows : List (RootSlot V) → List (RootSlot V) → Type 0
  Grows slots slots' =
      (i : ℕ) (s : RootSlot V)
      → get_elem? slots i ≡ some s
      → (t : RootSlot V) × (get_elem? slots' i ≡ some t) × Evolves s t

  Evolves-refl : (s : RootSlot V) → Evolves s s
  Evolves-refl s = ground (arith, Bool-cases (is_live s.release))

  pub Grows-refl : (slots : List (RootSlot V)) → Grows slots slots
  Grows-refl slots i s h = (s, h, Evolves-refl s)

  pub Grows-trans : (a b c : List (RootSlot V)) → Grows a b → Grows b c → Grows a c
  Grows-trans a b c g g' i s h =
      let (t, at, e) = g i s h in let (u, at', e') = g' i t at in (u, at', ground arith)

  pub set-Grows :
      (slots : List (RootSlot V)) (i : ℕ) (s t : RootSlot V)
      → get_elem? slots i ≡ some s
      → Evolves s t
      → Grows slots (set slots i t)
  set-Grows slots i s t at e j u h = elim (get-set-found slots i j t u h) [
    | inl (same, f) ↦ (
      t,
      f,
      subst (λ x. Evolves x t) (some-injective (sym at ∙ ap (get_elem? slots) (sym same) ∙ h)) e,
    )
    | inr f ↦ (u, f, Evolves-refl u)
  ]

  pub append-Grows : (slots m : List (RootSlot V)) → Grows slots (slots ++ m)
  append-Grows slots m i s h = (s, get-append-old slots m i s h, Evolves-refl s)

  drained_slot-Evolves : (s : RootSlot V) → SlotFits s → Evolves s (drained_slot s)
  drained_slot-Evolves s h = ground (arith, saturating_succ_lem s.generation)

  pub get-drained_slots :
      (slots : List (RootSlot V)) (i : ℕ) (s : RootSlot V)
      → get_elem? slots i ≡ some s
      → get_elem? (drained_slots slots) i ≡ some (drained_slot s)
  get-drained_slots [] i s h = absurd (none-some h)
  get-drained_slots (x ∷ slots) zero s h =
      ap (λ (u : RootSlot V). some (drained_slot u)) (some-injective h)
  get-drained_slots (x ∷ slots) (suc i) s h = get-drained_slots slots i s h

  pub drained_slots-Grows :
      (slots : List (RootSlot V))
      → ((i : ℕ) (s : RootSlot V) → get_elem? slots i ≡ some s → SlotFits s)
      → Grows slots (drained_slots slots)
  drained_slots-Grows slots fits i s h =
      (drained_slot s, get-drained_slots slots i s h, drained_slot-Evolves s (fits i s h))

  -- The slot has gone past the id's generation, or waits for the release of the id's root.
  abbrev pub Stale : List (RootSlot V) → RootId → Type 0
  Stale slots id =
      (s : RootSlot V) × (get_elem? slots id.slot ≡ some s)
      × ((id.generation < s.generation)
          ⊎ ((id.generation ≡ s.generation) × (is_live s.release ≡ false)))

  pub Stale-Grows :
      (slots slots' : List (RootSlot V)) (id : RootId)
      → Grows slots slots'
      → Stale slots id
      → Stale slots' id
  Stale-Grows slots slots' id g (s, at, past) =
      let (t, at', e) = g id.slot s at in (t, at', ground arith)

  pub Stale-get : (self : RootRegistry V) (id : RootId) → Stale self.slots id → get self id ≡ none
  unfolding get
  Stale-get self id (s, at, past) = rw at (ground arith)

  -- The slot holds a value that passes the test.
  abbrev pub holds : (V → Bool) → RootSlot V → Bool
  holds p s = elim s.value [ none ↦ false | some v ↦ p v ]

  value_counts :
      (p : V → Bool) (s : RootSlot V) (l : List V)
      → count p (push_value s.value l) ≡ (if holds p s then 1 else 0) + count p l
  value_counts p s l = ground (arith, Option-cases s.value)

  pub count-values :
      (p : V → Bool) (slots : List (RootSlot V)) → count p (values slots) ≡ count (holds p) slots
  count-values p [] = refl
  count-values p (s ∷ slots) = omega (arith, value_counts p s (values slots), count-values p slots)

  pub count-drained_slots :
      (p : V → Bool) (slots : List (RootSlot V)) → count (holds p) (drained_slots slots) ≡ 0
  count-drained_slots p [] = refl
  count-drained_slots p (s ∷ slots) = omega (arith, count-drained_slots p slots)
