-- ===== src/Jsc/Scope/Transfer/Laws.antt =====
-- backend-jsc/src/experimental/common.rs: a transfer leaves a scope balanced.
use rust_jsi.Base.{
  ℕ, ◌+◌, ◌≤◌, inl, inr, ap, ◌∙◌, List, length, Result, ok, err, Outcome, returned, panicked,
}
use rust_jsi.Backend.Errors.{BackendError, OwnershipTransferError, rejected, accepted}
use rust_jsi.Jsc.Errors.{RuntimeError, local_root_limit_reached, map_runtime_error}
use rust_jsi.Jsc.Budget.{LocalBudget, Reservation}
use rust_jsi.Jsc.Ledger.{ExternalLedger}
use rust_jsi.Jsc.Ledger
use rust_jsi.Jsc.Scope.{JscScope, JscValue, value, root_nonnull}
use rust_jsi.Jsc.Scope.Laws.{
  IsBalanced, Goes, reserved_scope, reserve-cases, rooted_scope, rooted-IsBalanced, root_nonnull-eq,
}
use rust_jsi.Jsc.Scope.Refunds.{
  given_back, given_back-IsBalanced, drop_reservation-reserved, then_gives,
}
use rust_jsi.Jsc.Scope.Transfer.{
  Transferred, with_buffers, failed, transferred, admitted, externalized, externalize,
}

module _ {V : Type 0} where
  abbrev then_ok : JscScope V × Outcome (JscValue V) → JscScope V × Outcome (Transferred V)
  then_ok (s, returned v) = (s, returned (ok v))
  then_ok (s, panicked) = (s, panicked)

  failed-Goes :
      (base : ℕ) (e : OwnershipTransferError (List ℕ)) (self : JscScope V)
      → IsBalanced base self
      → Goes base self (failed e (record { held = 1 }) (reserved_scope self))
  unfolding failed
  failed-Goes base e self b = (
    given_back self,
    err e,
    ap (λ (r : JscScope V × Outcome (Unit {0})). then_gives (λ s. err e) r)
        (drop_reservation-reserved self),
    given_back-IsBalanced base self b,
  )

  with_buffers-IsBalanced :
      (base : ℕ) (buffers : ExternalLedger) (self : JscScope V)
      → IsBalanced base self
      → IsBalanced base (with_buffers buffers self)
  with_buffers-IsBalanced base buffers self b = record {
    sound = b.sound;
    valid = b.valid;
    counted = b.counted;
    within = b.within;
    protections = b.protections;
  }

  transferred-Goes :
      (base : ℕ) (made : Result V BackendError) (self : JscScope V)
      → IsBalanced base self
      → self.shared.local_budget.used + 1 ≤ self.shared.local_budget.limit
      → Goes base self (transferred made (record { held = 1 }) (reserved_scope self))
  unfolding transferred root_nonnull
  transferred-Goes base (err e) self b room = failed-Goes base (accepted e) self b
  transferred-Goes base (ok raw) self b room = (
    rooted_scope raw (reserved_scope self),
    ok (value raw self),
    ap (λ (r : JscScope V × Outcome (JscValue V)). then_ok r)
        (root_nonnull-eq raw (record { held = 1 }) (reserved_scope self)),
    rooted-IsBalanced base raw self b room,
  )

  admitted-Goes :
      (base : ℕ) (owner : List ℕ) (made : Result V BackendError)
      (r : ExternalLedger × Result (Unit {0}) RuntimeError) (self : JscScope V)
      → IsBalanced base self
      → self.shared.local_budget.used + 1 ≤ self.shared.local_budget.limit
      → Goes base self (admitted owner made (record { held = 1 }) r (reserved_scope self))
  unfolding admitted transferred failed
  admitted-Goes base owner made (buffers, err e) self b room =
      failed-Goes base (rejected (map_runtime_error e) owner) (with_buffers buffers self)
        (with_buffers-IsBalanced base buffers self b)
  admitted-Goes base owner made (buffers, ok u) self b room =
      transferred-Goes base made (with_buffers buffers self)
        (with_buffers-IsBalanced base buffers self b) room

  pub externalize-Goes :
      (base : ℕ) (owner : List ℕ) (made : Result V BackendError) (self : JscScope V)
      → IsBalanced base self
      → Goes base self (externalize owner made self)
  unfolding externalize
  externalize-Goes base owner made self b = elim (reserve-cases self.shared.local_budget) [
    | inl (e, full) ↦ (
      self,
      err (rejected (map_runtime_error local_root_limit_reached) owner),
      ap (λ (r : LocalBudget × Result Reservation RuntimeError). externalized owner made r self) e,
      b,
    )
    | inr (e, room) ↦
        let (s, o, f, b') =
          admitted-Goes base owner made (Ledger.reserve (length owner) self.shared.external_buffers)
            self b room in
        (
          s,
          o,
          ap (λ (r : LocalBudget × Result Reservation RuntimeError). externalized owner made r self)
                e
              ∙ f,
          b',
        )
  ]
