-- ===== src/Jsc/Scope/Dropping.antt =====
-- backend-jsc/src/experimental/common.rs: the opening and the drop of a scope.
use rust_jsi.Base.{
  ℕ, suc, ◌+◌, ◌≤◌, ◌≡◌, refl, ap, ◌∙◌, Bool, List, [], ◌∷◌, length, Outcome, returned, Method,
  ◌>>◌, arith,
}
use rust_jsi.Jsc.Budget
use rust_jsi.Jsc.Budget.{LocalBudget}
use rust_jsi.Jsc.Generations.{count}
use rust_jsi.Jsc.LocalRoots
use rust_jsi.Jsc.LocalRoots.{LocalRoots}
use rust_jsi.Jsc.LocalRoots.Laws.{new-IsValid, new-drain}
use rust_jsi.Jsc.Roots.Invariant.{IsSound}
use rust_jsi.Jsc.Roots.Evolution.{holds}
use rust_jsi.Jsc.Scope.{Shared, JscScope, unprotect, on_budget, release_all, drop_scope}
use rust_jsi.Jsc.Scope.Laws.{IsBalanced}

release-eq :
    (b : LocalBudget) (n : ℕ)
    → b.used ≡ suc n
    → Budget.release b ≡ (record b { used = n }, returned tt)
unfolding Budget.release
release-eq b n h = ground arith

module _ {V : Type 0} where
  abbrev pub opened : Shared V → JscScope V
  opened shared = record { shared = shared; roots = LocalRoots.new }

  pub seq-eq :
      {B : Type 0} (m : Method (JscScope V) (Unit {0})) (k : Method (JscScope V) B)
      (self s : JscScope V)
      → m self ≡ (s, returned tt)
      → (m >> k) self ≡ k s
  seq-eq m k self s e = ground arith

  abbrev Unrooted : ℕ → List V → JscScope V → JscScope V → Type 0
  Unrooted base l self s =
      (s.shared.local_budget ≡ record self.shared.local_budget { used = base })
      × (s.shared.roots ≡ self.shared.roots)
      × (s.shared.protected ≡ self.shared.protected)
      × ((p : V → Bool)
          → count p s.shared.unprotected ≡ count p self.shared.unprotected + count p l)

  abbrev unrooted_one : ℕ → V → JscScope V → JscScope V
  unrooted_one n raw self = record self {
    shared = record self.shared {
      unprotected = raw ∷ self.shared.unprotected;
      local_budget = record self.shared.local_budget { used = n };
    };
  }

  abbrev unrooted_by : V → JscScope V → LocalBudget → JscScope V
  unrooted_by raw self b = record self {
    shared = record self.shared { unprotected = raw ∷ self.shared.unprotected; local_budget = b };
  }

  -- Every root of the list is unprotected and given back to the budget.
  release_all-ends :
      (base : ℕ) (l : List V) (self : JscScope V)
      → self.shared.local_budget.used ≡ base + length l
      → (s : JscScope V) × (release_all l self ≡ (s, returned tt)) × Unrooted base l self s
  unfolding release_all
  release_all-ends base [] self h = (self, refl, (ground (arith, h), refl, refl, λ p. omega arith))
  release_all-ends base (raw ∷ l) self h =
      let next = unrooted_one (base + length l) raw self in
      let (s, e, (b, r, q, u)) = release_all-ends base l next refl in
      (
        s,
        seq-eq (on_budget Budget.release) (release_all l) (unprotect raw self).0 next (
              ap (λ (x : LocalBudget × Outcome (Unit {0})). (unrooted_by raw self x.0, x.1))
                (release-eq self.shared.local_budget (base + length l) (omega (arith, h))))
            ∙ e,
        (b, r, q, λ p. omega (arith, u p)),
      )

  -- Between scopes: the registry is sound, the budget is within its limit, and the protections that
  -- are not undone are those of the persistent roots.
  pub record IsSettled (shared : Shared V) : Type 0 where
    pub sound : IsSound shared.roots
    pub within : shared.local_budget.used ≤ shared.local_budget.limit
    pub protections :
        (p : V → Bool)
        → count p shared.protected ≡ count p shared.unprotected + count (holds p) shared.roots.slots

  pub opened-IsBalanced :
      (shared : Shared V) → IsSettled shared → IsBalanced shared.local_budget.used (opened shared)
  opened-IsBalanced shared h = record {
    sound = h.sound;
    valid = new-IsValid;
    counted = omega (arith, ap (λ (l : List V). length l) (new-drain {V = V}));
    within = h.within;
    protections =
        λ p. omega (arith, h.protections p, ap (λ (l : List V). count p l) (new-drain {V = V}));
  }

  pub drop_scope-ends :
      (base : ℕ) (self : JscScope V)
      → IsBalanced base self
      → (s : JscScope V) × (drop_scope self ≡ (s, returned tt))
        × (s.shared.local_budget ≡ record self.shared.local_budget { used = base })
        × (s.shared.roots ≡ self.shared.roots)
        × ((p : V → Bool)
            → count p s.shared.protected
              ≡ count p s.shared.unprotected + count (holds p) self.shared.roots.slots)
  unfolding drop_scope
  drop_scope-ends base self b =
      let (s, e, (budget, r, q, u)) =
        release_all-ends base (LocalRoots.drain self.roots).1
          (record self { roots = (LocalRoots.drain self.roots).0 }) b.counted in
      (s, e, budget, r, λ p. omega (arith, u p, b.protections p, ap (λ (l : List V). count p l) q))
