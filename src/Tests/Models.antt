-- ===== src/Tests/Models.antt =====
-- testkit/src/model.rs: backend 1 with a function that is local and rooted.
use rust_jsi.Base.{ℕ, ◌≡◌, refl, [], some}
use rust_jsi.Testkit.SlotMap
use rust_jsi.Testkit.SlotMap.{SlotMap}
use rust_jsi.Testkit.Model.Entries.{ModelValueEntry, function_entry}
use rust_jsi.Testkit.Model.{ValueId, ModelRoot, ModelScope, no_fault, insert}
use rust_jsi.Testkit.Model.Calls.{persist, resolve, release, drop_locals, drop_scope}
use rust_jsi.Testkit.Model.Live.{IsOwned, IsLive}
use rust_jsi.Testkit.Model.Preservation.{Created, insert-IsLive}
use rust_jsi.Testkit.Model.Releasing.{scope_lives, persist-IsLive, empty-IsLive}

abbrev fresh_scope : ModelScope ℕ
fresh_scope = record {
  id = 1;
  values = SlotMap.empty;
  roots = SlotMap.empty;
  evaluations = [];
  invocations = [];
  external_fault = no_fault;
  buffer_stats = record { accepted_owners = 0; live_bytes = 0; finalized = 0; copied_bytes = 0 };
  locals = [];
}

abbrev first_value : ValueId
first_value = record { backend = 1; slot = 0; generation = 1 }

abbrev used_scope : ModelScope ℕ
used_scope = (persist first_value (insert function_entry fresh_scope).0).0

used_scope-IsLive : IsLive used_scope
used_scope-IsLive =
    persist-IsLive (insert function_entry fresh_scope).0 first_value
      (insert-IsLive fresh_scope function_entry (empty-IsLive fresh_scope refl refl refl))

scope_lives_example :
    ((entry : ModelValueEntry ℕ)
      → (i g : ℕ) × (r : SlotMap (ModelValueEntry ℕ)) × Created used_scope entry i g r)
    × ((v : ValueId) → IsLive (persist v used_scope).0)
    × ((root : ModelRoot) → IsLive (resolve root used_scope).0)
    × ((root : ModelRoot) → IsLive (release root used_scope).0)
    × IsOwned [] (drop_scope used_scope)
    × ((drop_scope used_scope).roots ≡ used_scope.roots)
scope_lives_example = scope_lives used_scope used_scope-IsLive

-- The rooted value outlives the scope.
function_stays : SlotMap.get (drop_scope used_scope).values 0 1 ≡ some function_entry
unfolding persist insert drop_scope drop_locals SlotMap.get SlotMap.insert
function_stays = refl
