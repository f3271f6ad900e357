-- ===== src/Jsc/Scope.antt =====
-- backend-jsc/src/experimental/common.rs: a scope of the backend contract, with the registry of
-- persistent roots and the budget of local roots that it shares. The calls of the engine's
-- `value_protect` and `value_unprotect` are recorded; what the engine creates is an argument.
pub mod Laws
pub mod Rooting
pub mod Refunds
pub mod Engine
pub mod Transfer
pub mod Dropping
pub mod Sessions
use rust_jsi.Base.{
  Bool, not, if◌then◌else◌, List, [], ◌∷◌, Option, none, some, Result, ok, err, Outcome, returned,
  panicked, Method, ◌>>=◌, ◌>>◌, give,
}
use rust_jsi.Host.Identity.{AttachmentId, same_attachment}
use rust_jsi.Backend.Errors.{BackendError, wrong_backend, stale_handle, failure}
use rust_jsi.Jsc.Errors.{RuntimeError, map_runtime_error}
use rust_jsi.Jsc.Budget.{LocalBudget, Reservation}
use rust_jsi.Jsc.Budget
use rust_jsi.Jsc.Ledger.{ExternalLedger}
use rust_jsi.Jsc.LocalRoots.{LocalRoots}
use rust_jsi.Jsc.LocalRoots
use rust_jsi.Jsc.Roots.{RootId, RootRegistry}
use rust_jsi.Jsc.Roots

-- What the scopes of an attachment share, and the engine's protections so far.
pub record Shared (V : Type 0) : Type 0 where
  pub id : AttachmentId
  pub roots : RootRegistry V
  pub local_budget : LocalBudget
  pub external_buffers : ExternalLedger
  pub protected : List V
  pub unprotected : List V

pub record JscScope (V : Type 0) : Type 0 where
  pub shared : Shared V
  pub roots : LocalRoots V

pub record JscValue (V : Type 0) : Type 0 where
  pub attachment : AttachmentId
  pub raw : V

pub record JscRoot : Type 0 where
  pub attachment : AttachmentId
  pub id : RootId

module _ {V : Type 0} where
  abbrev pub protect : V → Method (JscScope V) (Unit {0})
  protect raw self = (
    record self { shared = record self.shared { protected = raw ∷ self.shared.protected } },
    returned tt,
  )

  abbrev pub unprotect : V → Method (JscScope V) (Unit {0})
  unprotect raw self = (
    record self { shared = record self.shared { unprotected = raw ∷ self.shared.unprotected } },
    returned tt,
  )

  abbrev pub with_budget : LocalBudget → JscScope V → JscScope V
  with_budget budget self = record self { shared = record self.shared { local_budget = budget } }

  abbrev pub with_roots : RootRegistry V → JscScope V → JscScope V
  with_roots roots self = record self { shared = record self.shared { roots = roots } }

  abbrev pub on_budget : {A : Type 0} → Method LocalBudget A → Method (JscScope V) A
  on_budget m self =
      (with_budget (m self.shared.local_budget).0 self, (m self.shared.local_budget).1)

  abbrev pub value : V → JscScope V → JscValue V
  value raw self = record { attachment = self.shared.id; raw = raw }

  abbrev pub push_local : V → Method (JscScope V) (Unit {0})
  push_local raw self = (record self { roots = LocalRoots.push raw self.roots }, returned tt)

  unfoldable pub root_nonnull : V → Reservation → Method (JscScope V) (JscValue V)
  unfolding Budget.commit
  root_nonnull raw reservation =
      push_local raw
      >> (protect raw
          >> (on_budget (Budget.commit reservation) >> λ self. give (value raw self) self))

  unfoldable pub rooted_ok :
      V → Reservation → Method (JscScope V) (Result (JscValue V) BackendError)
  unfolding root_nonnull
  rooted_ok raw reservation = root_nonnull raw reservation >>= λ v. give (ok v)

  -- An early return drops the reservation.
  abbrev pub refuse :
      {A : Type 0} → BackendError → Reservation → Method (JscScope V) (Result A BackendError)
  refuse error reservation = on_budget (Budget.drop_reservation reservation) >> give (err error)

  unfoldable pub rooted :
      Option V → Reservation → Method (JscScope V) (Result (JscValue V) BackendError)
  unfolding rooted_ok Budget.drop_reservation
  rooted none reservation = refuse (failure "JavaScriptCore returned a null value") reservation
  rooted (some raw) reservation = rooted_ok raw reservation

  abbrev pub reserved :
      {A : Type 0}
      → (Reservation → Method (JscScope V) (Result A BackendError))
      → LocalBudget × Result Reservation RuntimeError
      → Method (JscScope V) (Result A BackendError)
  reserved next (budget, err e) self =
      (with_budget budget self, returned (err (map_runtime_error e)))
  reserved next (budget, ok reservation) self = next reservation (with_budget budget self)

  unfoldable pub made_string :
      Result (Option V) BackendError
      → Reservation
      → Method (JscScope V) (Result (JscValue V) BackendError)
  unfolding rooted
  made_string (err e) reservation = refuse e reservation
  made_string (ok raw) reservation = rooted raw reservation

  -- The argument is the engine's string, or the failure to make it.
  unfoldable pub string :
      Result (Option V) BackendError → Method (JscScope V) (Result (JscValue V) BackendError)
  unfolding made_string
  string made self = reserved (made_string made) (Budget.reserve self.shared.local_budget) self

  abbrev pub persisted :
      V
      → RootRegistry V × Outcome (Result RootId RuntimeError)
      → Method (JscScope V) (Result JscRoot BackendError)
  persisted raw (r, panicked) self = (with_roots r self, panicked)
  persisted raw (r, returned (err e)) self =
      (with_roots r self, returned (err (map_runtime_error e)))
  persisted raw (r, returned (ok id)) self =
      (protect raw >> give (ok (record { attachment = self.shared.id; id = id })))
        (with_roots r self)

  unfoldable pub persist : JscValue V → Method (JscScope V) (Result JscRoot BackendError)
  persist v self =
      if not (same_attachment v.attachment self.shared.id)
      then (self, returned (err wrong_backend))
      else persisted v.raw (Roots.insert v.raw self.shared.roots) self

  abbrev pub resolved : Option V → Method (JscScope V) (Result (JscValue V) BackendError)
  unfolding rooted_ok
  resolved none self = (self, returned (err stale_handle))
  resolved (some raw) self = reserved (rooted_ok raw) (Budget.reserve self.shared.local_budget) self

  unfoldable pub resolve : JscRoot → Method (JscScope V) (Result (JscValue V) BackendError)
  unfolding resolved
  resolve root self =
      if not (same_attachment root.attachment self.shared.id)
      then (self, returned (err wrong_backend))
      else resolved (Roots.get self.shared.roots root.id) self

  abbrev pub released :
      RootRegistry V × Outcome (Option V) → Method (JscScope V) (Result (Unit {0}) BackendError)
  released (r, panicked) self = (with_roots r self, panicked)
  released (r, returned none) self = (with_roots r self, returned (err stale_handle))
  released (r, returned (some raw)) self = (unprotect raw >> give (ok tt)) (with_roots r self)

  unfoldable pub release : JscRoot → Method (JscScope V) (Result (Unit {0}) BackendError)
  release root self =
      if not (same_attachment root.attachment self.shared.id)
      then (self, returned (err wrong_backend))
      else released (Roots.remove root.id self.shared.roots) self

  unfoldable pub release_all : List V → Method (JscScope V) (Unit {0})
  release_all [] = give tt
  release_all (raw ∷ l) = unprotect raw >> (on_budget Budget.release >> release_all l)

  -- The drop of a scope.
  unfoldable pub drop_scope : Method (JscScope V) (Unit {0})
  unfolding release_all
  drop_scope self =
      release_all (LocalRoots.drain self.roots).1
        (record self { roots = (LocalRoots.drain self.roots).0 })
