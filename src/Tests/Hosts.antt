-- ===== src/Tests/Hosts.antt =====
-- host/src at concrete identities, registrations and gates.
use rust_jsi.Base.{ℕ, ◌≤◌, ◌≡◌, ◌≢◌, ◌⊎◌, refl, true, false, List, [], ◌∷◌, none, some, arith}
use rust_jsi.Host.Identity.{AttachmentId}
use rust_jsi.Host.Registration.{
  DrainRegistration, DrainRegistrationState, DrainTaskResolution, resolve,
}
use rust_jsi.Host.Registration.Laws as Registering
use rust_jsi.Host.Registration.Laws.{
  Resolved, resolve-Resolved, Resolved-resolve, replace_lem, retired_stays, run,
}
use rust_jsi.Host.Entry.{
  EntryGate, HostState, FinalEntryPolicy, FinalEntryOutcome, try_begin_cleanup, is_drain_ready, new,
  request_drain, complete, finish_drain,
}
use rust_jsi.Host.Entry.Laws.{Action, Reach, start, later, act, rank}
use rust_jsi.Host.Entry.Teardown.{
  guards_exclusive, final_entry_promise, teardown, teardown_destroys,
}

abbrev attachment : ℕ → AttachmentId
attachment epoch = record { runtime_id = 5; epoch = epoch }

abbrev closing_second : DrainRegistration
closing_second = record { current = attachment 2; state = DrainRegistrationState.closing }

abbrev replaced : List Registering.Action
replaced = Registering.replaces (attachment 3) ∷ Registering.closes ∷ []

-- The task's attachment is older than the registered one.
first_retired : resolve closing_second (attachment 1) ≡ DrainTaskResolution.retired
unfolding resolve
first_retired = refl

retired_stays_example :
    resolve (run replaced closing_second) (attachment 1) ≡ DrainTaskResolution.retired
retired_stays_example = retired_stays replaced closing_second (attachment 1) first_retired

abbrev guaranteed_gate : EntryGate
guaranteed_gate = new 1 FinalEntryPolicy.guaranteed

abbrev full_gate : EntryGate
full_gate = act Action.enter guaranteed_gate

abbrev cleaning : EntryGate
cleaning = act Action.begin_cleanup (act Action.drain guaranteed_gate)

cleaning-Reach : Reach 1 FinalEntryPolicy.guaranteed cleaning
cleaning-Reach = later Action.begin_cleanup (later Action.drain start tt) tt

cleaning_cleanup : cleaning.cleanup ≡ true
unfolding request_drain try_begin_cleanup
cleaning_cleanup = refl

abbrev finished : EntryGate
finished = act Action.finishes (act Action.completes cleaning)

finished-Reach : Reach 1 FinalEntryPolicy.guaranteed finished
finished-Reach = later Action.finishes (later Action.completes cleaning-Reach cleaning_cleanup) tt

finished_state : finished.state ≡ HostState.invalid
unfolding request_drain try_begin_cleanup complete finish_drain
finished_state = refl

guards_exclusive_example :
    (cleaning.entries ≤ 1)
    × ((cleaning.cleanup ≡ false)
        ⊎ ((cleaning.state ≡ HostState.draining)
            × (cleaning.entries ≡ 0)
            × (cleaning.final_entry ≡ none)))
    × ((rank cleaning.state ≤ 1)
        ⊎ ((cleaning.entries ≡ 0) × (cleaning.cleanup ≡ false) × (cleaning.final_entry ≢ none)))
guards_exclusive_example = guards_exclusive cleaning-Reach

final_entry_promise_example :
    ((FinalEntryPolicy.guaranteed ≢ FinalEntryPolicy.guaranteed)
      ⊎ (finished.final_entry ≡ some FinalEntryOutcome.completed))
    × ((FinalEntryPolicy.guaranteed ≢ FinalEntryPolicy.unavailable)
        ⊎ (finished.final_entry ≡ some FinalEntryOutcome.unavailable))
final_entry_promise_example = final_entry_promise finished-Reach (ground (arith, finished_state))

abbrev drained : EntryGate
drained = record guaranteed_gate { state = HostState.draining }

drained_ready : is_drain_ready drained ≡ true
unfolding is_drain_ready
drained_ready = refl

teardown_destroys_example : (teardown guaranteed_gate).state ≡ HostState.destroyed
teardown_destroys_example =
    teardown_destroys {limit = 1} {policy = FinalEntryPolicy.guaranteed} start refl refl
