-- ===== src/Jsc/Roots/Releasing.antt =====
-- backend-jsc/src/experimental.rs: the loop of `Shared::drain_root_releases`, which calls
-- `value_unprotect` on the values of the list in its order. `none` means that the fuel ran out. Its
-- three `debug_assert`s on the active entry are left out.
use rust_jsi.Base.{
  ℕ, zero, suc, ◌+◌, ◌≡◌, refl, ap, ◌∙◌, Bool, List, [], ◌∷◌, ◌++◌, length, Option, none, some,
  Outcome, returned, panicked, arith, inl, inr, length-append,
}
use rust_jsi.Jsc.Generations.{count, count-append}
use rust_jsi.Jsc.Roots.{RootId, RootRegistry, get, take_pending}
use rust_jsi.Jsc.Roots.Invariant.{IsSound, awaiting}
use rust_jsi.Jsc.Roots.Evolution.{holds}
use rust_jsi.Jsc.Roots.Taking.{take_pending-cases}

module _ {V : Type 0} where
  -- One round, with the rest of the loop.
  abbrev pub round :
      (List V → RootRegistry V → Option (RootRegistry V × Outcome (List V)))
      → List V
      → RootRegistry V × Outcome (Option V)
      → Option (RootRegistry V × Outcome (List V))
  round rest unprotected (r, panicked) = some (r, panicked)
  round rest unprotected (r, returned none) = some (r, returned unprotected)
  round rest unprotected (r, returned (some value)) = rest (unprotected ++ value ∷ []) r

  unfoldable pub drain_root_releases :
      ℕ → List V → RootRegistry V → Option (RootRegistry V × Outcome (List V))
  drain_root_releases zero unprotected self = none
  drain_root_releases (suc fuel) unprotected self =
      round (drain_root_releases fuel) unprotected (take_pending self)

  abbrev pub Released : RootRegistry V → List V → RootRegistry V → List V → Type 0
  Released self before r l =
      IsSound r
      × (r.pending ≡ 0)
      × (count awaiting r.slots ≡ 0)
      × (length l ≡ length before + self.pending)
      × ((j : RootId) → get r j ≡ get self j)
      × ((p : V → Bool)
          → count (holds p) r.slots + count p l ≡ count (holds p) self.slots + count p before)

  none_left :
      (self : RootRegistry V) → IsSound self → self.pending ≡ 0 → count awaiting self.slots ≡ 0
  none_left self sound h = omega (arith, sound.pending_length, sound.pending_counted)

  releases_from :
      (fuel : ℕ) (before : List V) (self : RootRegistry V)
      → IsSound self
      → fuel ≡ suc self.pending
      → (r : RootRegistry V) × (l : List V) × (drain_root_releases fuel before self
          ≡ some (r, returned l))
        × Released self before r l
  unfolding drain_root_releases
  releases_from zero before self sound h = absurd (omega arith)
  releases_from (suc fuel) before self sound h = elim (take_pending-cases self sound) [
    | inl (z, e) ↦ (
      self,
      before,
      ap (round (drain_root_releases fuel) before) e,
      (sound, z, none_left self sound z, omega arith, λ j. refl, λ p. refl),
    )
    | inr (r, v, (e, less, less_live, k, same)) ↦
        let (r', l, f, (s, z, a, n, g, c)) =
          releases_from fuel (before ++ v ∷ []) r k.sound (omega arith) in
        (
          r',
          l,
          ap (round (drain_root_releases fuel) before) e ∙ f,
          (
            s,
            z,
            a,
            omega (arith, length-append before (v ∷ [])),
            λ j. g j ∙ same j,
            λ p. omega (arith, c p, k.conserves p, count-append p before (v ∷ [])),
          ),
        )
  ]

  -- With as many rounds as there are pending releases and one more, the loop ends without a panic: no
  -- slot is pending then, as many values were unprotected as releases were pending, each of them had
  -- left the registry, and every id resolves as before.
  pub drain_root_releases_ends :
      (self : RootRegistry V)
      → IsSound self
      → (r : RootRegistry V) × (l : List V) × (drain_root_releases (suc self.pending) [] self
          ≡ some (r, returned l))
        × Released self [] r l
  drain_root_releases_ends self sound = releases_from (suc self.pending) [] self sound refl
