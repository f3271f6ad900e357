-- ===== src/Backend/Errors.antt =====
-- backend/src/lib.rs: the values and failures that cross the contract.
use rust_jsi.Base.{Bool, true, false, Option, none, some}
use Prim.Native.String.{String}
use rust_jsi.Backend.{Capability}

pub data ValueKind : Type 0 where
  undefined null boolean number string symbol big_int object function buffer : ValueKind

pub data CallReceiver (V : Type 0) : Type 0 where
  global : CallReceiver V
  receiver : V → CallReceiver V

pub record BackendException : Type 0 where
  pub message : String
  pub truncated : Bool

abbrev pub exception : String → BackendException
exception message = record { message = message; truncated = false }

abbrev pub truncated_exception : String → BackendException
truncated_exception message = record { message = message; truncated = true }

pub data BackendError : Type 0 where
  exceptional : BackendException → BackendError
  wrong_backend stale_handle : BackendError
  kind_error : (expected actual : ValueKind) → BackendError
  unsupported : Capability → BackendError
  failure : String → BackendError

pub data OwnershipTransferError (T : Type 0) : Type 0 where
  rejected : (error : BackendError) (owner : T) → OwnershipTransferError T
  accepted : (error : BackendError) → OwnershipTransferError T

abbrev pub error : {T : Type 0} → OwnershipTransferError T → BackendError
error (rejected e owner) = e
error (accepted e) = e

abbrev pub into_owner : {T : Type 0} → OwnershipTransferError T → Option T
into_owner (rejected e owner) = some owner
into_owner (accepted e) = none
