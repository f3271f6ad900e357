-- ===== src/Tests/Lifecycles.antt =====
-- testkit/src/lifecycle.rs: attachment 1.1 with entries 1 and 2, of which 1 ends twice.
use rust_jsi.Base.{◌≡◌, ◌⊎◌, refl, List, [], ◌∷◌, length, some, ok, err, arith}
use rust_jsi.Host.Identity.{AttachmentId}
use rust_jsi.Host.Entry
use rust_jsi.Host.Entry.{FinalEntryPolicy, EntryGate}
use rust_jsi.Testkit.Lifecycle.{
  RuntimeState, LifecycleModel, Entry, stale_entry, new, enter, exit, request_invalidate,
  finish_drain, destroy,
}
use rust_jsi.Testkit.Lifecycle.Swaps.{position}
use rust_jsi.Testkit.Lifecycle.Laws.{
  Call, enters, exits, invalidates, finishes, destroys, step, run, exit_once,
}
use rust_jsi.Testkit.Lifecycle.Order.{open_phase, phase_of, replay, events_in_order}
use rust_jsi.Testkit.Lifecycle.Gate.{Matches, SameStep, Leaves, Waits, model_agrees}

abbrev here : AttachmentId
here = record { runtime_id = 1; epoch = 1 }

abbrev first : Entry
first = record { attachment = here; sequence = 1 }

abbrev calls : List Call
calls = enters ∷ enters ∷ invalidates ∷ exits first ∷ finishes ∷ destroys ∷ []

first_ends : (exit first (run (enters ∷ enters ∷ []) (new here))).1 ≡ ok tt
unfolding run step enter exit position
first_ends = refl

exit_once_example :
    let m =
      run (enters ∷ invalidates ∷ []) (exit first (run (enters ∷ enters ∷ []) (new here))).0 in
    exit first m ≡ (m, err stale_entry)
exit_once_example =
    exit_once here (enters ∷ enters ∷ []) (enters ∷ invalidates ∷ []) first first_ends

events_in_order_example :
    let m = run calls (new here) in
    (replay (some (open_phase 0)) m.events ≡ some (phase_of m.state (length m.live_entries)))
    × ((m.state ≡ RuntimeState.active) ⊎ (m.state ≡ RuntimeState.draining) ⊎ (m.live_entries ≡ []))
events_in_order_example = events_in_order here calls

abbrev gate : EntryGate
gate = Entry.new 2 FinalEntryPolicy.guaranteed

abbrev model : LifecycleModel
model = new here

model_agrees_example :
    SameStep (enter model) (Entry.try_enter gate)
    × Leaves model gate first
    × Matches (request_invalidate model) (Entry.request_drain gate)
    × (SameStep (finish_drain model) (Entry.finish_drain gate) ⊎ Waits model gate)
    × SameStep (destroy model) (Entry.mark_destroyed gate)
model_agrees_example = model_agrees model gate first (refl, refl, refl) (omega arith) (omega arith)
