-- ===== src/Jsc/Scope/Refunds.antt =====
-- backend-jsc/src/experimental/common.rs: a reservation that is dropped.
use rust_jsi.Base.{ℕ, ◌+◌, ◌-◌, ◌≡◌, refl, Outcome, returned, panicked, arith}
use rust_jsi.Jsc.Budget.{LocalBudget, Reservation}
use rust_jsi.Jsc.Budget
use rust_jsi.Jsc.Scope.{JscScope, with_budget, on_budget}
use rust_jsi.Jsc.Scope.Laws.{IsBalanced, Goes, reserved_scope}

module _ {V : Type 0} where
  pub unchanged-Goes :
      {A : Type 0} (base : ℕ) (o : A) (self : JscScope V)
      → IsBalanced base self
      → Goes base self (self, returned o)
  unchanged-Goes base o self b = (self, o, refl, b)

  -- A reservation that is dropped leaves the scope as it was.
  abbrev pub given_back : JscScope V → JscScope V
  given_back self =
      with_budget (record self.shared.local_budget { used = self.shared.local_budget.used + 1 - 1 })
        self

  pub given_back-IsBalanced :
      (base : ℕ) (self : JscScope V) → IsBalanced base self → IsBalanced base (given_back self)
  given_back-IsBalanced base self b = record {
    sound = b.sound;
    valid = b.valid;
    counted = omega (arith, b.counted);
    within = omega (arith, b.within);
    protections = b.protections;
  }

  pub drop_reservation-reserved :
      (self : JscScope V)
      → on_budget (Budget.drop_reservation (record { held = 1 })) (reserved_scope self)
        ≡ (given_back self, returned tt)
  unfolding Budget.drop_reservation
  drop_reservation-reserved self = ground arith

  -- What follows the drop of a reservation.
  abbrev pub then_gives :
      {A : Type 0} → (JscScope V → A) → JscScope V × Outcome (Unit {0}) → JscScope V × Outcome A
  then_gives f (s, returned u) = (s, returned (f s))
  then_gives f (s, panicked) = (s, panicked)
