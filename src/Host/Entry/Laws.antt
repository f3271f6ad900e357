-- ===== src/Host/Entry/Laws.antt =====
-- host/src/entry.rs: the lifecycle of an attachment under any sequence of calls and guard drops.
use rust_jsi.Base.{ℕ, ◌≤◌, ◌<◌, ◌≡◌, ◌≢◌, none, some, arith, true}
use rust_jsi.Host.Entry.{
  EntryGate, HostState, FinalEntryPolicy, FinalEntryOutcome, new, try_enter, request_drain,
  try_begin_cleanup, finish_drain, mark_destroyed, drop_entry, drop_cleanup, complete,
}

-- A call, or the drop or completion of a guard that is live.
pub data Action : Type 0 where
  enter exit drain begin_cleanup drop_guard completes finishes destroys : Action

abbrev pub IsEnabled : Action → EntryGate → Type 0
IsEnabled exit g = 0 < g.entries
IsEnabled drop_guard g = g.cleanup ≡ true
IsEnabled completes g = g.cleanup ≡ true
IsEnabled _ g = Unit

abbrev pub act : Action → EntryGate → EntryGate
act enter g = (try_enter g).0
act exit g = (drop_entry g).0
act drain g = request_drain g
act begin_cleanup g = (try_begin_cleanup g).0
act drop_guard g = drop_cleanup g
act completes g = complete g
act finishes g = (finish_drain g).0
act destroys g = (mark_destroyed g).0

pub data Reach (limit : ℕ) (policy : FinalEntryPolicy) : EntryGate → Type 0 where
  start : Reach limit policy (new limit policy)
  later :
      {g : EntryGate} (a : Action)
      → Reach limit policy g
      → IsEnabled a g
      → Reach limit policy (act a g)

-- The states in the order in which an attachment goes through them.
abbrev pub rank : HostState → ℕ
rank HostState.active = 0
rank HostState.draining = 1
rank HostState.invalid = 2
rank HostState.destroyed = 3

pub record Inv (limit : ℕ) (policy : FinalEntryPolicy) (g : EntryGate) : Type 0 where
  pub limit_kept : g.limit ≡ limit
  pub policy_kept : g.final_entry_policy ≡ policy
  pub bounded : g.entries ≤ limit
  pub drained : 2 ≤ rank g.state → g.entries ≡ 0
  pub exclusive :
      g.cleanup ≡ true
      → (g.state ≡ HostState.draining)
        × (g.entries ≡ 0)
        × (g.final_entry ≡ none)
        × (policy ≢ FinalEntryPolicy.unavailable)
  pub undecided : g.state ≡ HostState.active → g.final_entry ≡ none
  pub early : g.state ≡ HostState.draining → g.final_entry ≢ some FinalEntryOutcome.unavailable
  pub decided : 2 ≤ rank g.state → g.final_entry ≢ none
  pub promised :
      policy ≡ FinalEntryPolicy.guaranteed → g.final_entry ≢ some FinalEntryOutcome.unavailable
  pub withheld :
      policy ≡ FinalEntryPolicy.unavailable → g.final_entry ≢ some FinalEntryOutcome.completed

act-Inv :
    (a : Action) (limit : ℕ) (policy : FinalEntryPolicy) (g : EntryGate)
    → IsEnabled a g
    → Inv limit policy g
    → Inv limit policy (act a g)
unfolding try_enter drop_entry request_drain try_begin_cleanup drop_cleanup complete finish_drain
    mark_destroyed
act-Inv enter limit policy g e v = ground arith
act-Inv _ limit policy g e v = ground arith

pub Reach-Inv :
    {limit : ℕ} {policy : FinalEntryPolicy} {g : EntryGate}
    → Reach limit policy g
    → Inv limit policy g
Reach-Inv start = ground arith
Reach-Inv {limit} {policy} (later {g} a r e) = act-Inv a limit policy g e (Reach-Inv r)
