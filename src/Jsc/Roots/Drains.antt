-- ===== src/Jsc/Roots/Drains.antt =====
-- backend-jsc/src/experimental.rs: `RootRegistry::drain` and the registry's invariant.
use rust_jsi.Base.{
  ℕ, zero, suc, ◌+◌, ◌<◌, ◌≡◌, inl, inr, refl, sym, ap, subst, ◌==◌, List, [], ◌∷◌, length, some,
  All, Bool-cases, arith,
}
use rust_jsi.Base.Slots.{get_elem?, none-some}
use rust_jsi.Jsc.Generations.{max_generation, saturating_succ, saturating_succ_lem, Fresh, count}
use rust_jsi.Jsc.Roots.{RootSlot, RootRegistry, drain, refill, drained_slot, drained_slots}
use rust_jsi.Jsc.Roots.Invariant.{IsSound, SlotFits, FreeList, occupied, awaiting, retired}
use rust_jsi.Jsc.Roots.Evolution.{get-drained_slots}

abbrev Below : ℕ → List ℕ → Type 0
Below i = All (λ j. j < i)

Below-Fresh : (i : ℕ) (l : List ℕ) → Below i l → Fresh i l
Below-Fresh i [] b = tt
Below-Fresh i (j ∷ l) b = (λ e. absurd (omega arith), Below-Fresh i l b.1)

Below-suc : (i : ℕ) (l : List ℕ) → Below i l → Below (suc i) l
Below-suc i [] b = tt
Below-suc i (j ∷ l) b = (omega arith, Below-suc i l b.1)

module _ {V : Type 0} where
  get-drained_fits :
      (slots : List (RootSlot V)) (i : ℕ) (s : RootSlot V)
      → ((i : ℕ) (s : RootSlot V) → get_elem? slots i ≡ some s → SlotFits s)
      → get_elem? (drained_slots slots) i ≡ some s
      → SlotFits s
  get-drained_fits [] i s fits h = absurd (none-some h)
  get-drained_fits (x ∷ slots) zero s fits h =
      ground (arith, fits zero x refl, saturating_succ_lem x.generation)
  get-drained_fits (x ∷ slots) (suc i) s fits h = get-drained_fits slots i s (λ j. fits (suc j)) h

  -- `refill` from an index on, of slots that stand in the whole list from there on.
  refill-FreeList :
      (whole : List (RootSlot V)) (index : ℕ) (slots : List (RootSlot V)) (free : List ℕ)
      → ((i : ℕ) (s : RootSlot V) → get_elem? slots i ≡ some s → SlotFits s)
      → ((k : ℕ) (s : RootSlot V) (j : ℕ)
          → get_elem? slots k ≡ some s
          → j ≡ index + k
          → get_elem? whole j ≡ some (drained_slot s))
      → FreeList whole free
      → Below index free
      → FreeList whole (refill index slots free)
  refill-FreeList whole index [] free fits stands c b = c
  refill-FreeList whole index (x ∷ slots) free fits stands c b =
      elim (Bool-cases (saturating_succ x.generation == max_generation)) [
        | inl e ↦ rw e (
            refill-FreeList whole (suc index) slots free (λ j. fits (suc j))
              (λ k s j h e'. stands (suc k) s j h (omega arith)) c (Below-suc index free b))
        | inr e ↦ rw e (
            refill-FreeList whole (suc index) slots (index ∷ free) (λ j. fits (suc j))
              (λ k s j h e'. stands (suc k) s j h (omega arith))
              (
                (
                  drained_slot x,
                  stands zero x index refl (omega arith),
                  refl,
                  refl,
                  ground (arith, fits zero x refl, saturating_succ_lem x.generation),
                ),
                Below-Fresh index free b,
                c,
              )
              (omega arith, Below-suc index free b))
      ]

  length-refill :
      (index : ℕ) (slots : List (RootSlot V)) (free : List ℕ)
      → length (refill index slots free) + count retired (drained_slots slots)
        ≡ length slots + length free
  length-refill index [] free = omega arith
  length-refill index (x ∷ slots) free =
      ground (
        arith,
        length-refill (suc index) slots free,
        length-refill (suc index) slots (index ∷ free),
      )

  length-drained_slots : (slots : List (RootSlot V)) → length (drained_slots slots) ≡ length slots
  length-drained_slots [] = refl
  length-drained_slots (x ∷ slots) = ap suc (length-drained_slots slots)

  drained-occupied : (slots : List (RootSlot V)) → count occupied (drained_slots slots) ≡ 0
  drained-occupied [] = refl
  drained-occupied (x ∷ slots) = omega (arith, drained-occupied slots)

  drained-awaiting : (slots : List (RootSlot V)) → count awaiting (drained_slots slots) ≡ 0
  drained-awaiting [] = refl
  drained-awaiting (x ∷ slots) = omega (arith, drained-awaiting slots)

  pub drain-IsSound : (self : RootRegistry V) → IsSound self → IsSound (drain self).0
  unfolding drain
  drain-IsSound self sound = record {
    chain = [];
    linked = refl;
    free_list =
        refill-FreeList (drained_slots self.slots) 0 self.slots [] sound.fits
          (λ k s j h e.
            get-drained_slots self.slots j s
              (subst (λ n. get_elem? self.slots n ≡ some s) (omega arith) h))
          tt tt;
    fits = λ i s. get-drained_fits self.slots i s sound.fits;
    live_counted = sym (drained-occupied self.slots);
    pending_length = refl;
    pending_counted = drained-awaiting self.slots;
    room = omega (arith, sound.room, length-drained_slots self.slots);
    shared_out = omega (
      arith,
      drained-occupied self.slots,
      length-drained_slots self.slots,
      length-refill 0 self.slots [],
    );
  }
