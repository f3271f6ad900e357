-- ===== src/Jsc/Scope/Engine.antt =====
-- backend-jsc/src/experimental/common.rs: the scope's methods that read values or run code. What the
-- engine says of a value is a record of functions, and what a script, a call or a buffer's transfer
-- gives is an argument; while it runs, the engine does not use this scope. `F` is the type of floats.
pub mod Types
pub mod Laws
use Prim.Native.String.{String}
use rust_jsi.Base.{
  ℕ, Bool, not, ◌||◌, if◌then◌else◌, ◌==◌, List, [], ◌∷◌, length, Option, none, some, Result, ok,
  err, Outcome, returned, panicked, Method, ◌>>=◌, ◌>>◌, give,
}
use rust_jsi.Host.Identity.{same_attachment}
use rust_jsi.Backend.Errors.{
  BackendError, ValueKind, CallReceiver, global, receiver, wrong_backend, kind_error, failure,
  OwnershipTransferError, rejected, accepted,
}
use rust_jsi.Jsc.Errors.{RuntimeError, map_runtime_error}
use rust_jsi.Jsc.Budget.{LocalBudget, Reservation}
use rust_jsi.Jsc.Budget
use rust_jsi.Jsc.Ledger.{ExternalLedger}
use rust_jsi.Jsc.Ledger
use Types
use rust_jsi.Jsc.Scope.{
  JscScope, JscValue, with_budget, on_budget, value, root_nonnull, rooted, rooted_ok, refuse,
  reserved, made_string,
}

pub record Engine (V F : Type 0) : Type 0 where
  pub get_type : V → ℕ
  pub is_function : V → Bool
  pub has_typed_array : V → Result Bool BackendError
  pub is_boolean : V → Bool
  pub to_boolean : V → Bool
  pub is_number : V → Bool
  pub to_number : V → Result F BackendError
  pub is_string : V → Bool
  pub copy_string : V → Result String BackendError

abbrev pub by_typed_array : Result Bool BackendError → Result ValueKind BackendError
by_typed_array (err e) = err e
by_typed_array (ok typed) = ok (if typed then ValueKind.buffer else ValueKind.object)

abbrev pub mismatch :
    {A : Type 0} → ValueKind → Result ValueKind BackendError → Result A BackendError
mismatch expected (err e) = err e
mismatch expected (ok actual) = err (kind_error expected actual)

abbrev pub is_object_like : ValueKind → Bool
is_object_like ValueKind.object = Bool.true
is_object_like ValueKind.function = Bool.true
is_object_like ValueKind.buffer = Bool.true
is_object_like _ = Bool.false

abbrev pub is_function_kind : ValueKind → Bool
is_function_kind ValueKind.function = Bool.true
is_function_kind _ = Bool.false

abbrev pub require :
    ValueKind → (ValueKind → Bool) → Result ValueKind BackendError → Result (Unit {0}) BackendError
require expected test (err e) = err e
require expected test (ok actual) = if test actual then ok tt else err (kind_error expected actual)

abbrev pub and_then :
    Result (Unit {0}) BackendError → Result (Unit {0}) BackendError → Result (Unit {0}) BackendError
and_then (err e) next = err e
and_then (ok u) next = next

module _ {V F : Type 0} (engine : Engine V F) where
  unfoldable pub object_kind : V → Result ValueKind BackendError
  object_kind raw =
      if engine.is_function raw
      then ok ValueKind.function
      else by_typed_array (engine.has_typed_array raw)

  unfoldable pub raw_kind : V → Result ValueKind BackendError
  unfolding object_kind
  raw_kind raw =
      let raw_type = engine.get_type raw in
      if raw_type == Types.undefined
      then ok ValueKind.undefined
      else if raw_type == Types.null
      then ok ValueKind.null
      else if raw_type == Types.boolean
      then ok ValueKind.boolean
      else if raw_type == Types.number
      then ok ValueKind.number
      else if raw_type == Types.string
      then ok ValueKind.string
      else if raw_type == Types.symbol
      then ok ValueKind.symbol
      else if raw_type == Types.big_int
      then ok ValueKind.big_int
      else if raw_type == Types.object
      then object_kind raw
      else err (failure "JavaScriptCore returned an unknown value type")

  abbrev pub ensure_value : JscScope V → JscValue V → Result (Unit {0}) BackendError
  ensure_value self v =
      if same_attachment v.attachment self.shared.id then ok tt else err wrong_backend

  abbrev pub answer :
      {A : Type 0}
      → Result (Unit {0}) BackendError
      → Result A BackendError
      → Method (JscScope V) (Result A BackendError)
  answer (err e) result self = (self, returned (err e))
  answer (ok u) result self = (self, returned result)

  -- `undefined`, `null`, `boolean` and `number`, by the value that the engine makes.
  unfoldable pub primitive : Option V → Method (JscScope V) (Result (JscValue V) BackendError)
  primitive none self = (self, returned (err (failure "JavaScriptCore returned a null primitive")))
  primitive (some raw) self = (self, returned (ok (value raw self)))

  unfoldable pub kind : JscValue V → Method (JscScope V) (Result ValueKind BackendError)
  unfolding raw_kind
  kind v self = answer (ensure_value self v) (raw_kind v.raw) self

  unfoldable pub as_boolean : JscValue V → Method (JscScope V) (Result Bool BackendError)
  unfolding raw_kind
  as_boolean v self =
      answer (ensure_value self v)
        (if not (engine.is_boolean v.raw)
          then mismatch ValueKind.boolean (raw_kind v.raw)
          else ok (engine.to_boolean v.raw))
        self

  unfoldable pub as_number : JscValue V → Method (JscScope V) (Result F BackendError)
  unfolding raw_kind
  as_number v self =
      answer (ensure_value self v)
        (if not (engine.is_number v.raw)
          then mismatch ValueKind.number (raw_kind v.raw)
          else engine.to_number v.raw)
        self

  unfoldable pub to_string : JscValue V → Method (JscScope V) (Result String BackendError)
  unfolding raw_kind
  to_string v self =
      answer (ensure_value self v)
        (if not (engine.is_string v.raw)
          then mismatch ValueKind.string (raw_kind v.raw)
          else engine.copy_string v.raw)
        self

  -- The strings and the script's result, or the failure to make the one or the other's exception.
  unfoldable pub evaluate :
      Result (Option V) BackendError → Method (JscScope V) (Result (JscValue V) BackendError)
  unfolding made_string
  evaluate made self = reserved (made_string made) (Budget.reserve self.shared.local_budget) self

  abbrev pub is_managed : V → Bool
  is_managed raw =
      let raw_type = engine.get_type raw in
      raw_type == Types.string
      || (raw_type == Types.object || (raw_type == Types.symbol || raw_type == Types.big_int))

  -- A value that is not managed drops the reservation.
  unfoldable pub unrooted : V → Reservation → Method (JscScope V) (Result (JscValue V) BackendError)
  unfolding Budget.drop_reservation
  unrooted raw reservation =
      on_budget (Budget.drop_reservation reservation) >> λ self. give (ok (value raw self)) self

  unfoldable pub local_result :
      Option V → Reservation → Method (JscScope V) (Result (JscValue V) BackendError)
  unfolding unrooted rooted_ok
  local_result none reservation =
      refuse (failure "JavaScriptCore returned a null value without an exception") reservation
  local_result (some raw) reservation =
      if is_managed raw then rooted_ok raw reservation else unrooted raw reservation

  unfoldable pub called :
      Result (Option V) BackendError
      → Reservation
      → Method (JscScope V) (Result (JscValue V) BackendError)
  unfolding local_result
  called (err e) reservation = refuse e reservation
  called (ok raw) reservation = local_result raw reservation

  unfoldable pub check_receiver :
      JscScope V → CallReceiver (JscValue V) → Result (Unit {0}) BackendError
  unfolding raw_kind
  check_receiver self global = ok tt
  check_receiver self (receiver v) =
      and_then (ensure_value self v) (require ValueKind.object is_object_like (raw_kind v.raw))

  abbrev pub check_arguments : JscScope V → List (JscValue V) → Result (Unit {0}) BackendError
  check_arguments self [] = ok tt
  check_arguments self (v ∷ l) = and_then (ensure_value self v) (check_arguments self l)

  -- The checks of `call`, in its order.
  unfoldable pub check_call :
      JscScope V
      → JscValue V
      → CallReceiver (JscValue V)
      → List (JscValue V)
      → Result (Unit {0}) BackendError
  unfolding raw_kind check_receiver
  check_call self function target arguments = and_then (ensure_value self function) (
      and_then (require ValueKind.function is_function_kind (raw_kind function.raw))
        (and_then (check_receiver self target) (check_arguments self arguments)))

  unfoldable pub call_checked :
      Result (Option V) BackendError
      → Result (Unit {0}) BackendError
      → Method (JscScope V) (Result (JscValue V) BackendError)
  unfolding called
  call_checked made (err e) self = (self, returned (err e))
  call_checked made (ok u) self =
      reserved (called made) (Budget.reserve self.shared.local_budget) self

  -- The first argument is what the engine's call gives, or its exception.
  unfoldable pub call :
      Result (Option V) BackendError
      → JscValue V
      → CallReceiver (JscValue V)
      → List (JscValue V)
      → Method (JscScope V) (Result (JscValue V) BackendError)
  unfolding check_call call_checked
  call made function target arguments self =
      call_checked made (check_call self function target arguments) self
