-- ===== src/Tests/Scopes.antt =====
-- backend-jsc/src/experimental: a scope with a budget of two, a ledger of two buffers and six bytes,
-- and a call of two arguments. An engine value is a number.
use rust_jsi.Base.{
  ℕ, ◌+◌, ◌≤◌, ◌<◌, ◌≡◌, ◌⊎◌, refl, Bool, true, false, ltb, ◌==◌, if◌then◌else◌, List, [], ◌∷◌,
  length, some, returned, ok, err, arith,
}
use rust_jsi.Backend.Errors.{global}
use rust_jsi.Host.Identity.{AttachmentId}
use rust_jsi.Jsc.Budget
use rust_jsi.Jsc.Generations.{count}
use rust_jsi.Jsc.Roots
use rust_jsi.Jsc.Roots.Invariant.{new-IsSound}
use rust_jsi.Jsc.Roots.Evolution.{holds}
use rust_jsi.Jsc.Scope.{Shared, JscScope, JscValue, persist, release}
use rust_jsi.Jsc.Scope.Engine.{Engine, evaluate, call, as_number}
use rust_jsi.Jsc.Scope.Dropping.{opened, IsSettled}
use rust_jsi.Jsc.Scope.Transfer.{admitted, externalize}
use rust_jsi.Jsc.Scope.Sessions.{
  ScopeCall, evaluates, invokes, as_numbers, externalizes, persists, releases, session, call_one,
  calls, scope_balanced,
}
use rust_jsi.Jsc.Errors.{call_argument_limit_reached, call_string_data_limit_reached}
use rust_jsi.Jsc.Ledger
use rust_jsi.Jsc.Ledger.{ExternalBufferLimits, ExternalLedger}
use rust_jsi.Jsc.Ledger.Threads.{
  Access, takes_allocation, takes_bytes, gives_back, frees_bytes, settles, counts_deallocation, run,
  idle, sum, ledger_bounded,
}
use rust_jsi.Jsc.CallLimits.{CallLimits, Value, strings_of, total, validate, validate_lem}

abbrev here : AttachmentId
here = record { runtime_id = 1; epoch = 1 }

abbrev fresh_shared : Shared ℕ
fresh_shared = record {
  id = here;
  roots = Roots.new 2;
  local_budget = Budget.new 2;
  protected = [];
  unprotected = [];
  external_buffers = Ledger.new (record { allocations = 1; bytes = 4 });
}

fresh_shared-IsSettled : IsSettled fresh_shared
fresh_shared-IsSettled = record {
  sound = new-IsSound 2;
  within = omega arith;
  protections = λ p. refl;
}

-- A value below 5 is of that type, and the others are functions.
abbrev small_engine : Engine ℕ ℕ
small_engine = record {
  get_type = λ v. if ltb v 5 then v else 5;
  is_function = λ v. true;
  has_typed_array = λ v. ok false;
  is_boolean = λ v. v == 2;
  to_boolean = λ v. true;
  is_number = λ v. v == 3;
  to_number = λ v. ok v;
  is_string = λ v. v == 4;
  copy_string = λ v. ok "text";
}

abbrev here_value : ℕ → JscValue ℕ
here_value raw = record { attachment = here; raw = raw }

-- A call gives a number, which needs no root, and a buffer takes the second root.
abbrev invoked : List (ScopeCall ℕ)
invoked =
    evaluates (ok (some 7))
    ∷ invokes (ok (some 3)) (here_value 7) global (here_value 7 ∷ [])
    ∷ as_numbers (here_value 3)
    ∷ externalizes (1 ∷ 2 ∷ []) (ok 8)
    ∷ externalizes (3 ∷ []) (ok 9)
    ∷ persists (here_value 7)
    ∷ releases (record { attachment = here; id = record { slot = 0; generation = 1 } })
    ∷ []

scope_balanced_example :
    (s : JscScope ℕ) × (session small_engine invoked fresh_shared ≡ (s, returned tt))
    × (s.shared.local_budget.used ≡ fresh_shared.local_budget.used)
    × ((p : ℕ → Bool)
        → count p s.shared.protected
          ≡ count p s.shared.unprotected + count (holds p) s.shared.roots.slots)
    × IsSettled s.shared
scope_balanced_example = scope_balanced small_engine fresh_shared invoked fresh_shared-IsSettled

-- Two local roots, before the third is refused, and a persistent one.
rooted_before_the_drop :
    (calls small_engine invoked (opened fresh_shared)).0.shared.protected ≡ 7 ∷ 8 ∷ 7 ∷ []
unfolding calls call_one evaluate call externalize Budget.reserve as_number admitted Ledger.reserve
    persist Roots.insert release Roots.remove
rooted_before_the_drop = refl

abbrev limits : ExternalBufferLimits
limits = record { allocations = 2; bytes = 6 }

abbrev accesses : List Access
accesses =
    takes_allocation 4
    ∷ takes_allocation 4
    ∷ takes_allocation 1
    ∷ takes_bytes 0
    ∷ takes_bytes 0
    ∷ gives_back
    ∷ frees_bytes 0
    ∷ settles
    ∷ counts_deallocation
    ∷ []

ledger_bounded_example :
    let s = run accesses (idle limits) in
    (s.ledger.live_bytes ≡ sum s.live)
    × (s.ledger.live_bytes ≤ limits.bytes)
    × (s.ledger.live_allocations ≡ length s.reserving + s.refused + length s.live + s.freeing)
    × (s.ledger.live_allocations ≤ limits.allocations)
ledger_bounded_example = ledger_bounded limits (omega arith) (omega arith) accesses

abbrev ledger : ExternalLedger
ledger = Ledger.new limits

abbrev call_limits : CallLimits
call_limits = record { arguments = 2; string_utf8_bytes = 3 }

abbrev two_strings : List (Value ℕ)
two_strings = Value.string (104 ∷ 105 ∷ []) ∷ Value.string (104 ∷ 105 ∷ []) ∷ []

validate_lem_example :
    ((call_limits.arguments < length two_strings)
      × (validate call_limits two_strings ≡ err call_argument_limit_reached))
    ⊎ ((length two_strings ≤ call_limits.arguments)
        × (((call_limits.string_utf8_bytes < total (strings_of two_strings))
              × (validate call_limits two_strings ≡ err call_string_data_limit_reached))
            ⊎ ((total (strings_of two_strings) ≤ call_limits.string_utf8_bytes)
                × (validate call_limits two_strings ≡ ok (length (strings_of two_strings))))))
validate_lem_example = validate_lem call_limits two_strings (omega arith)
