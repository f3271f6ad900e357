-- ===== src/Host/Work.antt =====
-- host/src/work.rs: work bound to one attachment, and its dispatch into a host. The host is a type
-- that implements the trait `Host` of host/src/contract.rs, a parameter here.
pub mod Laws
use rust_jsi.Base.{ℕ, not, if◌then◌else◌, Option, none, some, Result, ok, err, ◌≡◌}
use rust_jsi.Host.Identity.{AttachmentId, same_attachment}

-- What `with_backend` can do with its `FnOnce` is to lend a backend once or to reject the entry, and
-- after the operation to give its result or, against the contract, an error.
pub record Host : Type 1 where
  pub H : Type 0
  pub Backend : Type 0
  pub Error : Type 0
  pub attachment_id : H → AttachmentId
  pub enter : H → H × Result Backend Error
  pub leave : H → Backend → H × Option Error

pub record ScheduledWork (T : Type 0) : Type 0 where
  pub attachment : AttachmentId
  pub payload : T

pub data WorkDispatchError (T E : Type 0) : Type 0 where
  attachment_mismatch :
      (work : ScheduledWork T) (active_attachment : AttachmentId) → WorkDispatchError T E
  entry : (work : ScheduledWork T) (error : E) → WorkDispatchError T E
  host_contract_violation :
      (active_attachment : AttachmentId) (work : Option (ScheduledWork T)) → WorkDispatchError T E

pub data WorkInvocation (R : Type 0) : Type 0 where
  ran : R → WorkInvocation R
  missing_payload : WorkInvocation R

module _ (A : Host) where
  abbrev left : {R : Type 0} → R → A.H × Option A.Error → A.H × Result R A.Error
  left r (h, none) = (h, ok r)
  left r (h, some e) = (h, err e)

  abbrev entered :
      {S R : Type 0}
      → (A.Backend → S → A.Backend × S × R)
      → S
      → A.H × Result A.Backend A.Error
      → (A.H × Result R A.Error) × S
  entered operation s (h, err e) = ((h, err e), s)
  entered operation s (h, ok b) = let (b', s', r) = operation b s in (left r (A.leave h b'), s')

  -- `Host::with_backend`, with the variables that the operation captures.
  abbrev pub with_backend :
      {S R : Type 0} → (A.Backend → S → A.Backend × S × R) → A.H → S → (A.H × Result R A.Error) × S
  with_backend operation h s = entered operation s (A.enter h)

  module _ {T R : Type 0} (operation : A.Backend → T → A.Backend × R) where
    -- The closure that `dispatch` passes: it takes the captured work.
    abbrev invocation :
        A.Backend
        → Option (ScheduledWork T)
        → A.Backend × Option (ScheduledWork T) × WorkInvocation R
    invocation b none = (b, none, missing_payload)
    invocation b (some work) = let (b', r) = operation b work.payload in (b', none, ran r)

    abbrev settled :
        AttachmentId
        → Result (WorkInvocation R) A.Error
        → Option (ScheduledWork T)
        → Result R (WorkDispatchError T A.Error)
    settled active (ok (ran value)) work = ok value
    settled active (ok missing_payload) work = err (host_contract_violation active work)
    settled active (err error) (some work) = err (entry work error)
    settled active (err error) none = err (host_contract_violation active none)

    unfoldable pub dispatch : ScheduledWork T → A.H → A.H × Result R (WorkDispatchError T A.Error)
    dispatch self host =
        if not (same_attachment self.attachment (A.attachment_id host))
        then (host, err (attachment_mismatch self (A.attachment_id host)))
        else let ((host', result), work) = with_backend invocation host (some self) in
          (host', settled (A.attachment_id host) result work)

abbrev pub into_work : {T E : Type 0} → WorkDispatchError T E → Option (ScheduledWork T)
into_work (attachment_mismatch work _) = some work
into_work (entry work _) = some work
into_work (host_contract_violation _ work) = work
