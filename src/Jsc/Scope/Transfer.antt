-- ===== src/Jsc/Scope/Transfer.antt =====
-- backend-jsc/src/experimental/common.rs: the transfer of a byte buffer to the engine.
pub mod Laws
use Prim.Native.String.{String}
use rust_jsi.Base.{
  ℕ, Bool, not, ◌||◌, if◌then◌else◌, ◌==◌, List, [], ◌∷◌, length, Option, none, some, Result, ok,
  err, Outcome, returned, panicked, Method, ◌>>=◌, ◌>>◌, give,
}
use rust_jsi.Host.Identity.{same_attachment}
use rust_jsi.Backend.Errors.{
  BackendError, ValueKind, CallReceiver, global, receiver, wrong_backend, kind_error, failure,
  OwnershipTransferError, rejected, accepted,
}
use rust_jsi.Jsc.Errors.{RuntimeError, map_runtime_error}
use rust_jsi.Jsc.Budget.{LocalBudget, Reservation}
use rust_jsi.Jsc.Budget
use rust_jsi.Jsc.Ledger.{ExternalLedger}
use rust_jsi.Jsc.Ledger
use rust_jsi.Jsc.Scope.{
  JscScope, JscValue, with_budget, on_budget, value, root_nonnull, rooted, rooted_ok, refuse,
  reserved, made_string,
}

abbrev pub Transferred : Type 0 → Type 0
Transferred V = Result (JscValue V) (OwnershipTransferError (List ℕ))

module _ {V : Type 0} where
  abbrev pub with_buffers : ExternalLedger → JscScope V → JscScope V
  with_buffers buffers self = record self {
    shared = record self.shared { external_buffers = buffers };
  }

  unfoldable pub failed :
      OwnershipTransferError (List ℕ) → Reservation → Method (JscScope V) (Transferred V)
  unfolding Budget.drop_reservation
  failed error reservation = on_budget (Budget.drop_reservation reservation) >> give (err error)

  unfoldable pub transferred :
      Result V BackendError → Reservation → Method (JscScope V) (Transferred V)
  unfolding failed root_nonnull
  transferred (err e) reservation = failed (accepted e) reservation
  transferred (ok raw) reservation = root_nonnull raw reservation >>= λ v. give (ok v)

  unfoldable pub admitted :
      List ℕ
      → Result V BackendError
      → Reservation
      → ExternalLedger × Result (Unit {0}) RuntimeError
      → Method (JscScope V) (Transferred V)
  unfolding failed transferred
  admitted owner made reservation (buffers, err e) self =
      failed (rejected (map_runtime_error e) owner) reservation (with_buffers buffers self)
  admitted owner made reservation (buffers, ok u) self =
      transferred made reservation (with_buffers buffers self)

  abbrev pub externalized :
      List ℕ
      → Result V BackendError
      → LocalBudget × Result Reservation RuntimeError
      → Method (JscScope V) (Transferred V)
  externalized owner made (budget, err e) self =
      (with_budget budget self, returned (err (rejected (map_runtime_error e) owner)))
  externalized owner made (budget, ok reservation) self =
      admitted owner made reservation (Ledger.reserve (length owner) self.shared.external_buffers)
        (with_budget budget self)

  -- The second argument is what `make_external_object` gives once it owns the bytes.
  unfoldable pub externalize : List ℕ → Result V BackendError → Method (JscScope V) (Transferred V)
  externalize owner made self =
      externalized owner made (Budget.reserve self.shared.local_budget) self
