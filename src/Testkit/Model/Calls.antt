-- ===== src/Testkit/Model/Calls.antt =====
-- testkit/src/model.rs: the operations of a scope of the deterministic backend, and its drop.
use rust_jsi.Base.{
  ℕ, ◌&&◌, not, if◌then◌else◌, ◌==◌, List, [], ◌∷◌, Option, none, some, is_some, Result, ok, err,
  Outcome, returned, panicked, Method,
}
use rust_jsi.Backend.Errors.{
  BackendError, ValueKind, CallReceiver, global, receiver, exceptional, exception, wrong_backend,
  stale_handle, kind_error, failure, OwnershipTransferError, rejected, accepted,
}
use rust_jsi.Testkit.SlotMap
use rust_jsi.Testkit.SlotMap.{SlotMap}
use rust_jsi.Testkit.Model.Entries.{
  Primitive, Evaluation, Invocation, primitive_entry, function_entry, external_entry,
  is_object_like,
}
use rust_jsi.Testkit.Model.{
  ValueId, ModelRoot, ModelScope, ExternalFault, no_fault, reject, accept_then_fail, accept,
  drop_owner, contains, insert_local, is_rooted, remove_value, insert_ok, validate, require_kind,
}

-- The checks of `call`, in its order.
abbrev pub object_like : Result ValueKind BackendError → Result (Unit {0}) BackendError
object_like (err e) = err e
object_like (ok actual) =
    if is_object_like actual then ok tt else err (kind_error ValueKind.object actual)

module _ {F : Type 0} where
  -- `Self::undefined` to `Self::string`, by their primitive.
  unfoldable pub primitive : Primitive F → Method (ModelScope F) (Result ValueId BackendError)
  unfolding insert_ok
  primitive value = insert_ok (primitive_entry value)

  abbrev pub evaluated : Option (Evaluation F) → Method (ModelScope F) (Result ValueId BackendError)
  unfolding primitive
  evaluated (some (Evaluation.return_value value)) self = primitive value self
  evaluated (some Evaluation.return_function) self = insert_ok function_entry self
  evaluated (some (Evaluation.throw message)) self =
      (self, returned (err (exceptional (exception message))))
  evaluated (some (Evaluation.fail message)) self = (self, returned (err (failure message)))
  evaluated none self =
      (self, returned (err (failure "deterministic evaluation was not programmed")))

  abbrev pub evaluate_from :
      List (Evaluation F) → Method (ModelScope F) (Result ValueId BackendError)
  unfolding evaluated
  evaluate_from [] self = evaluated none self
  evaluate_from (e ∷ l) self = evaluated (some e) (record self { evaluations = l })

  unfoldable pub evaluate : Method (ModelScope F) (Result ValueId BackendError)
  unfolding evaluate_from
  evaluate self = evaluate_from self.evaluations self

  abbrev pub check_receiver : ModelScope F → CallReceiver ValueId → Result (Unit {0}) BackendError
  unfolding validate
  check_receiver self global = ok tt
  check_receiver self (receiver value) = object_like (validate self value)

  abbrev pub check_arguments : ModelScope F → List ValueId → Result (Unit {0}) BackendError
  unfolding validate
  check_arguments self [] = ok tt
  check_arguments self (argument ∷ l) = elim (validate self argument) [
    | err e ↦ err e
    | ok k ↦ check_arguments self l
  ]

  abbrev pub check_call :
      ModelScope F → ValueId → CallReceiver ValueId → List ValueId → Result (Unit {0}) BackendError
  unfolding require_kind check_receiver check_arguments
  check_call self function target arguments = elim (require_kind self function ValueKind.function) [
    | err e ↦ err e
    | ok id ↦ elim (check_receiver self target) [
      | err e ↦ err e
      | ok u ↦ check_arguments self arguments
    ]
  ]

  abbrev pub invoked : Option (Invocation F) → Method (ModelScope F) (Result ValueId BackendError)
  unfolding primitive
  invoked (some (Invocation.return_value value)) self = primitive value self
  invoked (some (Invocation.throw message)) self =
      (self, returned (err (exceptional (exception message))))
  invoked (some (Invocation.fail message)) self = (self, returned (err (failure message)))
  invoked none self = (self, returned (err (failure "deterministic invocation was not programmed")))

  abbrev pub invoke_from : List (Invocation F) → Method (ModelScope F) (Result ValueId BackendError)
  unfolding invoked
  invoke_from [] self = invoked none self
  invoke_from (i ∷ l) self = invoked (some i) (record self { invocations = l })

  abbrev pub invoke_checked :
      Result (Unit {0}) BackendError → Method (ModelScope F) (Result ValueId BackendError)
  unfolding invoke_from
  invoke_checked (err e) self = (self, returned (err e))
  invoke_checked (ok u) self = invoke_from self.invocations self

  unfoldable pub call :
      ValueId
      → CallReceiver ValueId
      → List ValueId
      → Method (ModelScope F) (Result ValueId BackendError)
  unfolding check_call invoke_checked
  call function target arguments self =
      invoke_checked (check_call self function target arguments) self

  abbrev pub rooted :
      ModelScope F
      → SlotMap ValueId × Outcome (ℕ × ℕ)
      → ModelScope F × Outcome (Result ModelRoot BackendError)
  rooted self (roots, panicked) = (record self { roots = roots }, panicked)
  rooted self (roots, returned (slot, generation)) = (
    record self { roots = roots },
    returned (ok (record { backend = self.id; slot = slot; generation = generation })),
  )

  abbrev pub persist_checked :
      ValueId
      → Result ValueKind BackendError
      → Method (ModelScope F) (Result ModelRoot BackendError)
  persist_checked value (err e) self = (self, returned (err e))
  persist_checked value (ok k) self = rooted self (SlotMap.insert value self.roots)

  unfoldable pub persist : ValueId → Method (ModelScope F) (Result ModelRoot BackendError)
  unfolding validate
  persist value self = persist_checked value (validate self value) self

  abbrev pub resolved : Option ValueId → ModelScope F → ModelScope F × Result ValueId BackendError
  resolved none self = (self, err stale_handle)
  resolved (some id) self =
      if not (is_some (SlotMap.get self.values id.slot id.generation))
      then (self, err stale_handle)
      else (record self { locals = insert_local id self.locals }, ok id)

  unfoldable pub resolve : ModelRoot → ModelScope F → ModelScope F × Result ValueId BackendError
  resolve root self =
      if not (root.backend == self.id)
      then (self, err wrong_backend)
      else resolved (SlotMap.get self.roots root.slot root.generation) self

  unfoldable pub released :
      SlotMap ValueId × Option ValueId
      → ModelScope F
      → ModelScope F × Result (Unit {0}) BackendError
  unfolding is_rooted remove_value
  released (roots, none) self = (record self { roots = roots }, err stale_handle)
  released (roots, some value) self =
      let self' = record self { roots = roots } in
      if not (contains self'.locals value) && not (is_rooted self' value)
      then (remove_value value self', ok tt)
      else (self', ok tt)

  unfoldable pub release : ModelRoot → ModelScope F → ModelScope F × Result (Unit {0}) BackendError
  unfolding released
  release root self =
      if not (root.backend == self.id)
      then (self, err wrong_backend)
      else released (SlotMap.remove root.slot root.generation self.roots) self

  abbrev pub externalize_with :
      ExternalFault
      → List ℕ
      → Method (ModelScope F) (Result ValueId (OwnershipTransferError (List ℕ)))
  unfolding insert_ok
  externalize_with reject owner self =
      (self, returned (err (rejected (failure "injected external-buffer rejection") owner)))
  externalize_with accept_then_fail owner self = (
    record self { buffer_stats = drop_owner owner (accept owner self.buffer_stats) },
    returned (err (accepted (failure "injected failure after ownership transfer"))),
  )
  externalize_with no_fault owner self =
      insert_ok (external_entry owner)
        (record self { buffer_stats = accept owner self.buffer_stats })

  unfoldable pub externalize :
      List ℕ → Method (ModelScope F) (Result ValueId (OwnershipTransferError (List ℕ)))
  unfolding externalize_with
  externalize owner self =
      externalize_with self.external_fault owner (record self { external_fault = no_fault })

  unfoldable pub drop_local : ValueId → ModelScope F → ModelScope F
  unfolding is_rooted remove_value
  drop_local value self = if not (is_rooted self value) then remove_value value self else self

  unfoldable pub drop_locals : List ValueId → ModelScope F → ModelScope F
  unfolding drop_local
  drop_locals [] self = self
  drop_locals (value ∷ l) self = drop_locals l (drop_local value self)

  unfoldable pub drop_scope : ModelScope F → ModelScope F
  drop_scope self = drop_locals self.locals (record self { locals = [] })
