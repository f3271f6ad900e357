-- ===== src/Jsc/Scope/Engine/Laws.antt =====
-- backend-jsc/src/experimental/common.rs: the engine's methods leave a scope balanced.
use rust_jsi.Base.{
  ℕ, ◌+◌, ◌≤◌, inl, inr, ap, Bool-cases, List, Option, none, some, Result, ok, err, Outcome,
}
use rust_jsi.Backend.Errors.{BackendError, CallReceiver}
use rust_jsi.Jsc.Scope.{JscScope, JscValue, value, made_string}
use rust_jsi.Jsc.Scope.Laws.{
  IsBalanced, Goes, reserved_scope, rooted_ok-Goes, refused-Goes, made_string-Goes, reserved-Goes,
}
use rust_jsi.Jsc.Scope.Engine.{
  Engine, ensure_value, answer, primitive, kind, as_boolean, as_number, to_string, evaluate,
  is_managed, unrooted, local_result, called, check_call, call_checked, call,
}
use rust_jsi.Jsc.Scope.Refunds.{
  unchanged-Goes, given_back, given_back-IsBalanced, drop_reservation-reserved, then_gives,
}

module _ {V F : Type 0} (engine : Engine V F) where
  answer-Goes :
      {A : Type 0} (base : ℕ) (checked : Result (Unit {0}) BackendError) (o : Result A BackendError)
      (self : JscScope V)
      → IsBalanced base self
      → Goes base self (answer engine checked o self)
  answer-Goes base (err e) o self b = unchanged-Goes base (err e) self b
  answer-Goes base (ok u) o self b = unchanged-Goes base o self b

  pub primitive-Goes :
      (base : ℕ) (raw : Option V) (self : JscScope V)
      → IsBalanced base self
      → Goes base self (primitive engine raw self)
  unfolding primitive
  primitive-Goes base none self b = unchanged-Goes base _ self b
  primitive-Goes base (some raw) self b = unchanged-Goes base (ok (value raw self)) self b

  pub kind-Goes :
      (base : ℕ) (v : JscValue V) (self : JscScope V)
      → IsBalanced base self
      → Goes base self (kind engine v self)
  unfolding kind
  kind-Goes base v self b = answer-Goes base (ensure_value engine self v) _ self b

  pub as_boolean-Goes :
      (base : ℕ) (v : JscValue V) (self : JscScope V)
      → IsBalanced base self
      → Goes base self (as_boolean engine v self)
  unfolding as_boolean
  as_boolean-Goes base v self b = answer-Goes base (ensure_value engine self v) _ self b

  pub as_number-Goes :
      (base : ℕ) (v : JscValue V) (self : JscScope V)
      → IsBalanced base self
      → Goes base self (as_number engine v self)
  unfolding as_number
  as_number-Goes base v self b = answer-Goes base (ensure_value engine self v) _ self b

  pub to_string-Goes :
      (base : ℕ) (v : JscValue V) (self : JscScope V)
      → IsBalanced base self
      → Goes base self (to_string engine v self)
  unfolding to_string
  to_string-Goes base v self b = answer-Goes base (ensure_value engine self v) _ self b

  pub evaluate-Goes :
      (base : ℕ) (made : Result (Option V) BackendError) (self : JscScope V)
      → IsBalanced base self
      → Goes base self (evaluate engine made self)
  unfolding evaluate
  evaluate-Goes base made self b =
      reserved-Goes base (made_string made) self b (made_string-Goes base made self b)

  unrooted-Goes :
      (base : ℕ) (raw : V) (self : JscScope V)
      → IsBalanced base self
      → Goes base self (unrooted engine raw (record { held = 1 }) (reserved_scope self))
  unfolding unrooted
  unrooted-Goes base raw self b = (
    given_back self,
    ok (value raw self),
    ap (λ (r : JscScope V × Outcome (Unit {0})). then_gives (λ s. ok (value raw s)) r)
        (drop_reservation-reserved self),
    given_back-IsBalanced base self b,
  )

  managed-Goes :
      (base : ℕ) (raw : V) (self : JscScope V)
      → IsBalanced base self
      → self.shared.local_budget.used + 1 ≤ self.shared.local_budget.limit
      → Goes base self (local_result engine (some raw) (record { held = 1 }) (reserved_scope self))
  unfolding local_result
  managed-Goes base raw self b room = elim (Bool-cases (is_managed engine raw)) [
    | inl e ↦ rw e (rooted_ok-Goes base raw self b room)
    | inr e ↦ rw e (unrooted-Goes base raw self b)
  ]

  called-Goes :
      (base : ℕ) (made : Result (Option V) BackendError) (self : JscScope V)
      → IsBalanced base self
      → self.shared.local_budget.used + 1 ≤ self.shared.local_budget.limit
      → Goes base self (called engine made (record { held = 1 }) (reserved_scope self))
  unfolding called local_result
  called-Goes base (err e) self b room = refused-Goes base e self b
  called-Goes base (ok none) self b room = refused-Goes base _ self b
  called-Goes base (ok (some raw)) self b room = managed-Goes base raw self b room

  call_checked-Goes :
      (base : ℕ) (made : Result (Option V) BackendError) (checked : Result (Unit {0}) BackendError)
      (self : JscScope V)
      → IsBalanced base self
      → Goes base self (call_checked engine made checked self)
  unfolding call_checked
  call_checked-Goes base made (err e) self b = unchanged-Goes base (err e) self b
  call_checked-Goes base made (ok u) self b =
      reserved-Goes base (called engine made) self b (called-Goes base made self b)

  pub call-Goes :
      (base : ℕ) (made : Result (Option V) BackendError) (function : JscValue V)
      (target : CallReceiver (JscValue V)) (arguments : List (JscValue V)) (self : JscScope V)
      → IsBalanced base self
      → Goes base self (call engine made function target arguments self)
  unfolding call
  call-Goes base made function target arguments self b =
      call_checked-Goes base made (check_call engine self function target arguments) self b
