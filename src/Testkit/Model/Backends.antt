-- ===== src/Testkit/Model/Backends.antt =====
-- testkit/src/model.rs: the deterministic backend between its scopes: a scope without local values.
use rust_jsi.Base.{ℕ, [], ◌∷◌, ◌++◌, Option, none, some, Outcome, returned, panicked, Method}
use rust_jsi.Backend.{
  BackendManifest, only, with_capability, strong_roots, owned_external_buffers,
  borrowed_buffer_bytes,
}
use rust_jsi.Host.Identity.{checked_add}
use rust_jsi.Testkit.SlotMap
use rust_jsi.Testkit.Model.Entries.{Evaluation, Invocation}
use rust_jsi.Testkit.Model.{ModelScope, no_fault, reject, accept_then_fail}

abbrev pub manifest : BackendManifest
unfolding only with_capability
manifest = record {
  contract = record { major = 2; minor = 0 };
  capabilities =
      with_capability (with_capability (only strong_roots) owned_external_buffers)
        borrowed_buffer_bytes;
}

module _ {F : Type 0} where
  abbrev pub new_backend : ℕ → Option ℕ → ℕ × Outcome (ModelScope F)
  new_backend id none = (id, panicked)
  new_backend id (some next) = (
    next,
    returned (record {
      id = id;
      values = SlotMap.empty;
      roots = SlotMap.empty;
      evaluations = [];
      invocations = [];
      external_fault = no_fault;
      buffer_stats = record {
        accepted_owners = 0;
        live_bytes = 0;
        finalized = 0;
        copied_bytes = 0;
      };
      locals = [];
    }),
  )

  -- The state is `NEXT_BACKEND_ID`.
  abbrev pub new : Method ℕ (ModelScope F)
  new next_backend_id = new_backend next_backend_id (checked_add next_backend_id 1)

  abbrev pub push_evaluation : Evaluation F → ModelScope F → ModelScope F
  push_evaluation evaluation self = record self {
    evaluations = self.evaluations ++ evaluation ∷ [];
  }

  abbrev pub push_invocation : Invocation F → ModelScope F → ModelScope F
  push_invocation invocation self = record self {
    invocations = self.invocations ++ invocation ∷ [];
  }

  abbrev pub reject_next_external_buffer : ModelScope F → ModelScope F
  reject_next_external_buffer self = record self { external_fault = reject }

  abbrev pub fail_next_external_buffer_after_accept : ModelScope F → ModelScope F
  fail_next_external_buffer_after_accept self = record self { external_fault = accept_then_fail }

  abbrev pub open_scope : ModelScope F → ModelScope F
  open_scope self = record self { locals = [] }
