-- ===== src/Host/Entry/Teardown.antt =====
-- host/src/entry.rs: admission, and the way from an active attachment to a destroyed one.
use rust_jsi.Base.{ℕ, ◌+◌, ◌≤◌, ◌<◌, ◌≡◌, ◌≢◌, ◌⊎◌, none, some, Result, ok, err, arith, true, false}
use rust_jsi.Host.Entry.{
  EntryGate, HostState, FinalEntryPolicy, FinalEntryOutcome, GateError, not_active, depth_limit,
  try_enter, request_drain, try_begin_cleanup, finish_drain, mark_destroyed, drop_entry,
  drop_cleanup, complete, is_drain_ready,
}
use rust_jsi.Host.Entry.Laws.{Action, act, Reach, rank, Reach-Inv}

-- An entry is admitted exactly while the attachment is active and below its limit, and is counted;
-- otherwise the gate is unchanged and the answer says which of the two failed.
pub try_enter_lem :
    (g : EntryGate)
    → let (k, r) = try_enter g in
      ((g.state ≡ HostState.active)
        × (g.entries < g.limit)
        × (k ≡ record g { entries = g.entries + 1 })
        × (r ≡ ok tt))
      ⊎ ((g.state ≡ HostState.active) × (g.limit ≤ g.entries) × (k ≡ g) × (r ≡ err depth_limit))
      ⊎ ((g.state ≢ HostState.active) × (k ≡ g) × (r ≡ err (not_active g.state)))
unfolding try_enter
try_enter_lem g = ground arith

-- No action moves an attachment back, and none skips a state.
pub states_in_order :
    (a : Action) (g : EntryGate)
    → (rank g.state ≤ rank (act a g).state) × (rank (act a g).state ≤ rank g.state + 1)
unfolding try_enter drop_entry request_drain try_begin_cleanup drop_cleanup complete finish_drain
    mark_destroyed
states_in_order Action.enter g = ground arith
states_in_order _ g = ground arith

-- Entries stay within the limit; a cleanup guard is live only in draining, alone, and before any
-- outcome; and an invalid or destroyed attachment has no live guard and a decided outcome.
pub guards_exclusive :
    {limit : ℕ} {policy : FinalEntryPolicy} {g : EntryGate}
    → Reach limit policy g
    → (g.entries ≤ limit)
      × ((g.cleanup ≡ false)
          ⊎ ((g.state ≡ HostState.draining) × (g.entries ≡ 0) × (g.final_entry ≡ none)))
      × ((rank g.state ≤ 1) ⊎ ((g.entries ≡ 0) × (g.cleanup ≡ false) × (g.final_entry ≢ none)))
guards_exclusive r = let v = Reach-Inv r in ground arith

-- The outcome keeps the policy's promise: once the attachment is invalid or destroyed, a guaranteed
-- final entry has completed, and an unavailable one has not.
pub final_entry_promise :
    {limit : ℕ} {policy : FinalEntryPolicy} {g : EntryGate}
    → Reach limit policy g
    → 2 ≤ rank g.state
    → ((policy ≢ FinalEntryPolicy.guaranteed) ⊎ (g.final_entry ≡ some FinalEntryOutcome.completed))
      × ((policy ≢ FinalEntryPolicy.unavailable)
          ⊎ (g.final_entry ≡ some FinalEntryOutcome.unavailable))
final_entry_promise r h = let v = Reach-Inv r in ground arith

-- A cleanup begins exactly on a drain-ready gate whose policy allows one and that has no outcome
-- yet; otherwise the gate is unchanged and the request fails.
pub try_begin_cleanup_lem :
    (g : EntryGate)
    → let (k, r) = try_begin_cleanup g in
      ((is_drain_ready g ≡ true)
        × (g.final_entry_policy ≢ FinalEntryPolicy.unavailable)
        × (g.final_entry ≡ none)
        × (k ≡ record g { cleanup = true })
        × (r ≡ ok tt))
      ⊎ (((is_drain_ready g ≡ false)
            ⊎ (g.final_entry_policy ≡ FinalEntryPolicy.unavailable)
            ⊎ (g.final_entry ≢ none))
          × (k ≡ g)
          × (r ≢ ok tt))
unfolding try_begin_cleanup is_drain_ready
try_begin_cleanup_lem g = ground arith

-- A host's teardown: it stops admission, runs a cleanup entry if it is granted one, and finishes.
abbrev cleaned : EntryGate × Result (Unit {0}) GateError → EntryGate
cleaned (g, ok _) = complete g
cleaned (g, err _) = g

abbrev pub teardown : EntryGate → EntryGate
teardown g = (mark_destroyed (finish_drain (cleaned (try_begin_cleanup (request_drain g)))).0).0

-- From every reachable state whose guards have been dropped the teardown ends in a destroyed
-- attachment, under every policy.
pub teardown_destroys :
    {limit : ℕ} {policy : FinalEntryPolicy} {g : EntryGate}
    → Reach limit policy g
    → g.entries ≡ 0
    → g.cleanup ≡ false
    → (teardown g).state ≡ HostState.destroyed
unfolding request_drain try_begin_cleanup complete finish_drain mark_destroyed
teardown_destroys r e c = let v = Reach-Inv r in ground arith
