-- ===== src/Host/Registration.antt =====
-- host/src/drain_registration.rs: which attachment a drain task may be dispatched to.
pub mod Laws
use rust_jsi.Base.{Bool, true, false, not, if◌then◌else◌, ◌==◌, ltb, leb, Result, ok, err, ℕ}
use rust_jsi.Host.Identity.{AttachmentId, same_attachment}

pub data DrainRegistrationState : Type 0 where
  active closing : DrainRegistrationState

pub data DrainTaskResolution : Type 0 where
  current closing retired unregistered_attachment foreign_runtime : DrainTaskResolution

pub data DrainRegistrationReplaceError : Type 0 where
  not_closing : DrainRegistrationState → DrainRegistrationReplaceError
  foreign_runtime not_newer : DrainRegistrationReplaceError

pub record DrainRegistration : Type 0 where
  pub current : AttachmentId
  pub state : DrainRegistrationState

abbrev pub new : AttachmentId → DrainRegistration
new attachment = record { current = attachment; state = DrainRegistrationState.active }

unfoldable pub begin_close : DrainRegistration → DrainRegistration
begin_close self = record self { state = DrainRegistrationState.closing }

abbrev replace_in :
    DrainRegistrationState
    → AttachmentId
    → DrainRegistration
    → DrainRegistration × Result (Unit {0}) DrainRegistrationReplaceError
replace_in DrainRegistrationState.active replacement self =
    (self, err (not_closing DrainRegistrationState.active))
replace_in DrainRegistrationState.closing replacement self =
    if not (replacement.runtime_id == self.current.runtime_id)
    then (self, err DrainRegistrationReplaceError.foreign_runtime)
    else if leb replacement.epoch self.current.epoch
    then (self, err DrainRegistrationReplaceError.not_newer)
    else (record { current = replacement; state = DrainRegistrationState.active }, ok tt)

unfoldable pub replace :
    AttachmentId
    → DrainRegistration
    → DrainRegistration × Result (Unit {0}) DrainRegistrationReplaceError
replace replacement self = replace_in self.state replacement self

abbrev dispatchable : DrainRegistrationState → DrainTaskResolution
dispatchable DrainRegistrationState.active = DrainTaskResolution.current
dispatchable DrainRegistrationState.closing = DrainTaskResolution.closing

unfoldable pub resolve : DrainRegistration → AttachmentId → DrainTaskResolution
resolve self attachment =
    if not (attachment.runtime_id == self.current.runtime_id)
    then DrainTaskResolution.foreign_runtime
    else if ltb attachment.epoch self.current.epoch
    then DrainTaskResolution.retired
    else if not (same_attachment attachment self.current)
    then DrainTaskResolution.unregistered_attachment
    else dispatchable self.state
