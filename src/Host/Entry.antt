-- ===== src/Host/Entry.antt =====
-- host/src/entry.rs: the thread-affine gate that counts entries and admits one final cleanup. The
-- cells of `EntryGate` are the fields of a record; a guard is the right to drop or complete it once.
pub mod Laws
pub mod Teardown
use Prim.Native.String.{String}
use rust_jsi.Base.{
  ℕ, ◌+◌, ◌-◌, Bool, true, false, not, ◌&&◌, if◌then◌else◌, ◌==◌, leb, Option, none, some, is_some,
  Result, ok, err, Outcome, returned, panicked, Method,
}

pub data HostState : Type 0 where
  active draining invalid destroyed : HostState

pub data FinalEntryPolicy : Type 0 where
  guaranteed best_effort unavailable : FinalEntryPolicy

pub data FinalEntryOutcome : Type 0 where
  completed unavailable : FinalEntryOutcome

pub data GateError : Type 0 where
  not_active : HostState → GateError
  depth_limit : GateError
  entries_remain : ℕ → GateError
  cleanup_in_progress final_entry_required final_entry_unavailable final_entry_complete : GateError
  invalid_transition : (state : HostState) (operation : String) → GateError

pub record EntryGate : Type 0 where
  pub state : HostState
  pub entries : ℕ  -- u32
  pub cleanup : Bool
  pub final_entry : Option FinalEntryOutcome
  pub limit : ℕ  -- NonZeroU32
  pub final_entry_policy : FinalEntryPolicy

abbrev pub new : ℕ → FinalEntryPolicy → EntryGate
new limit policy = record {
  state = HostState.active;
  entries = 0;
  cleanup = false;
  final_entry = none;
  limit = limit;
  final_entry_policy = policy;
}

abbrev enter_in : HostState → EntryGate → EntryGate × Result (Unit {0}) GateError
enter_in HostState.active self =
    if leb self.limit self.entries
    then (self, err depth_limit)
    else (record self { entries = self.entries + 1 }, ok tt)
enter_in s self = (self, err (not_active s))

unfoldable pub try_enter : EntryGate → EntryGate × Result (Unit {0}) GateError
try_enter self = enter_in self.state self

abbrev drain_in : HostState → EntryGate → EntryGate
drain_in HostState.active self = record self { state = HostState.draining }
drain_in _ self = self

unfoldable pub request_drain : EntryGate → EntryGate
request_drain self = drain_in self.state self

abbrev is_draining : HostState → Bool
is_draining HostState.draining = true
is_draining _ = false

unfoldable pub is_drain_ready : EntryGate → Bool
is_drain_ready self = is_draining self.state && self.entries == 0 && not self.cleanup

abbrev is_unavailable : FinalEntryPolicy → Bool
is_unavailable FinalEntryPolicy.unavailable = true
is_unavailable _ = false

unfoldable pub try_begin_cleanup : EntryGate → EntryGate × Result (Unit {0}) GateError
try_begin_cleanup self =
    if not (is_draining self.state)
    then (self, err (invalid_transition self.state "begin_cleanup"))
    else if not (self.entries == 0)
    then (self, err (entries_remain self.entries))
    else if is_unavailable self.final_entry_policy
    then (self, err final_entry_unavailable)
    else if is_some self.final_entry
    then (self, err final_entry_complete)
    else if self.cleanup
    then (self, err cleanup_in_progress)
    else (record self { cleanup = true }, ok tt)

abbrev pub is_guaranteed : FinalEntryPolicy → Bool
is_guaranteed FinalEntryPolicy.guaranteed = true
is_guaranteed _ = false

abbrev or_unavailable : Option FinalEntryOutcome → FinalEntryOutcome
or_unavailable none = FinalEntryOutcome.unavailable
or_unavailable (some o) = o

abbrev finish_in : HostState → EntryGate → EntryGate × Result FinalEntryOutcome GateError
finish_in HostState.invalid self = (self, ok (or_unavailable self.final_entry))
finish_in HostState.draining self =
    if not (self.entries == 0)
    then (self, err (entries_remain self.entries))
    else if is_guaranteed self.final_entry_policy && not (is_some self.final_entry)
    then (self, err final_entry_required)
    else (
      record self {
        final_entry = some (or_unavailable self.final_entry);
        state = HostState.invalid;
      },
      ok (or_unavailable self.final_entry),
    )
finish_in s self = (self, err (invalid_transition s "finish_drain"))

unfoldable pub finish_drain : EntryGate → EntryGate × Result FinalEntryOutcome GateError
finish_drain self =
    if self.cleanup then (self, err cleanup_in_progress) else finish_in self.state self

abbrev destroy_in : HostState → EntryGate → EntryGate × Result (Unit {0}) GateError
destroy_in HostState.destroyed self = (self, ok tt)
destroy_in HostState.invalid self = (record self { state = HostState.destroyed }, ok tt)
destroy_in s self = (self, err (invalid_transition s "destroy"))

unfoldable pub mark_destroyed : EntryGate → EntryGate × Result (Unit {0}) GateError
mark_destroyed self = destroy_in self.state self

-- The drop of an `EntryGuard`; a subtraction that goes below 0 is an overflow.
unfoldable pub drop_entry : Method EntryGate (Unit {0})
drop_entry self =
    if self.entries == 0
    then (self, panicked)
    else (record self { entries = self.entries - 1 }, returned tt)

-- The drop of a `CleanupGuard`.
unfoldable pub drop_cleanup : EntryGate → EntryGate
drop_cleanup self = record self { cleanup = false }

-- `CleanupGuard::complete`, which drops the guard at its end.
unfoldable pub complete : EntryGate → EntryGate
unfolding drop_cleanup
complete self = drop_cleanup (record self { final_entry = some FinalEntryOutcome.completed })
