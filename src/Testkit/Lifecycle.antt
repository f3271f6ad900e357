-- ===== src/Testkit/Lifecycle.antt =====
-- testkit/src/lifecycle.rs: the deterministic model of a host-owned runtime's lifecycle. A `Vec` is a
-- list in its order.
pub mod Swaps
pub mod Laws
pub mod Order
pub mod Gate
use Prim.Native.String.{String}
use rust_jsi.Base.{
  ℕ, suc, ◌+◌, ◌-◌, ◌^◌, Bool, true, false, not, ◌&&◌, if◌then◌else◌, ◌==◌, leb, List, [], ◌∷◌,
  ◌++◌, length, null, Option, none, some, Result, ok, err,
}
use rust_jsi.Host.Identity.{AttachmentId, same_attachment, checked_add}
use Swaps.{position, swap_remove}

pub data RuntimeState : Type 0 where
  active draining invalid destroyed : RuntimeState

pub record Entry : Type 0 where
  pub attachment : AttachmentId
  pub sequence : ℕ

pub data LifecycleEvent : Type 0 where
  entered : Entry → LifecycleEvent
  exited : Entry → LifecycleEvent
  drain_requested drain_ready invalidated destroyed : LifecycleEvent

pub data LifecycleError : Type 0 where
  not_active : RuntimeState → LifecycleError
  wrong_runtime stale_entry entry_space_exhausted : LifecycleError
  entries_remain : ℕ → LifecycleError
  invalid_transition : (state : RuntimeState) (operation : String) → LifecycleError

pub record LifecycleModel : Type 0 where
  pub attachment : AttachmentId
  pub state : RuntimeState
  pub next_entry : ℕ
  pub live_entries : List ℕ
  pub events : List LifecycleEvent

abbrev pub new : AttachmentId → LifecycleModel
new attachment = record {
  attachment = attachment;
  state = RuntimeState.active;
  next_entry = 1;
  live_entries = [];
  events = [];
}

abbrev pub u32_max : ℕ
u32_max = 2 ^ 32 - 1

abbrev pub active_entries : LifecycleModel → ℕ
active_entries self =
    if leb (length self.live_entries) u32_max then length self.live_entries else u32_max

abbrev pub emit : LifecycleEvent → LifecycleModel → LifecycleModel
emit event self = record self { events = self.events ++ event ∷ [] }

abbrev pub entry_of : LifecycleModel → Entry
entry_of self = record { attachment = self.attachment; sequence = self.next_entry }

abbrev pub enter_next : Option ℕ → LifecycleModel → LifecycleModel × Result Entry LifecycleError
enter_next none self = (self, err entry_space_exhausted)
enter_next (some next_entry) self = (
  record self {
    next_entry = next_entry;
    live_entries = self.live_entries ++ self.next_entry ∷ [];
    events = self.events ++ entered (entry_of self) ∷ [];
  },
  ok (entry_of self),
)

abbrev pub enter_in : RuntimeState → LifecycleModel → LifecycleModel × Result Entry LifecycleError
enter_in RuntimeState.active self = enter_next (checked_add self.next_entry 1) self
enter_in state self = (self, err (not_active state))

unfoldable pub enter : LifecycleModel → LifecycleModel × Result Entry LifecycleError
enter self = enter_in self.state self

-- `DrainReady` is pushed where a draining model has no live entry.
abbrev pub ready_in : RuntimeState → LifecycleModel → LifecycleModel
ready_in RuntimeState.draining self = if null self.live_entries then emit drain_ready self else self
ready_in state self = self

abbrev pub exit_at :
    Option ℕ → Entry → LifecycleModel → LifecycleModel × Result (Unit {0}) LifecycleError
exit_at none entry self = (self, err stale_entry)
exit_at (some index) entry self = (
  ready_in self.state (record self {
    live_entries = swap_remove index self.live_entries;
    events = self.events ++ exited entry ∷ [];
  }),
  ok tt,
)

unfoldable pub exit : Entry → LifecycleModel → LifecycleModel × Result (Unit {0}) LifecycleError
exit entry self =
    if not (same_attachment entry.attachment self.attachment)
    then (self, err wrong_runtime)
    else exit_at (position entry.sequence self.live_entries) entry self

abbrev pub invalidate_in : RuntimeState → LifecycleModel → LifecycleModel
invalidate_in RuntimeState.active self =
    ready_in RuntimeState.draining
      (record self { state = RuntimeState.draining; events = self.events ++ drain_requested ∷ [] })
invalidate_in state self = self

unfoldable pub request_invalidate : LifecycleModel → LifecycleModel
request_invalidate self = invalidate_in self.state self

abbrev pub finish_in :
    RuntimeState → LifecycleModel → LifecycleModel × Result (Unit {0}) LifecycleError
finish_in RuntimeState.invalid self = (self, ok tt)
finish_in RuntimeState.draining self =
    if not (null self.live_entries) then (self, err (entries_remain (active_entries self))) else (
      record self { state = RuntimeState.invalid; events = self.events ++ invalidated ∷ [] },
      ok tt,
    )
finish_in state self = (self, err (invalid_transition state "finish drain"))

unfoldable pub finish_drain : LifecycleModel → LifecycleModel × Result (Unit {0}) LifecycleError
finish_drain self = finish_in self.state self

abbrev pub destroy_in :
    RuntimeState → LifecycleModel → LifecycleModel × Result (Unit {0}) LifecycleError
destroy_in RuntimeState.destroyed self = (self, ok tt)
destroy_in RuntimeState.invalid self = (
  record self {
    state = RuntimeState.destroyed;
    events = self.events ++ LifecycleEvent.destroyed ∷ [];
  },
  ok tt,
)
destroy_in state self = (self, err (invalid_transition state "destroy"))

unfoldable pub destroy : LifecycleModel → LifecycleModel × Result (Unit {0}) LifecycleError
destroy self = destroy_in self.state self

abbrev pub validate_in : RuntimeState → Result (Unit {0}) LifecycleError
validate_in RuntimeState.active = ok tt
validate_in state = err (not_active state)

unfoldable pub validate_work : LifecycleModel → AttachmentId → Result (Unit {0}) LifecycleError
validate_work self attachment =
    if not (same_attachment attachment self.attachment)
    then err wrong_runtime
    else validate_in self.state
