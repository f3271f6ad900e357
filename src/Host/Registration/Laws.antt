-- ===== src/Host/Registration/Laws.antt =====
-- host/src/drain_registration.rs: resolutions, and how closes and replacements change them.
use rust_jsi.Base.{◌≤◌, ◌<◌, ◌≡◌, ◌≢◌, ◌⊎◌, List, [], ◌∷◌, ok, err, arith}
use rust_jsi.Host.Identity.{AttachmentId}
use rust_jsi.Host.Registration.{
  DrainRegistration, DrainRegistrationState, DrainTaskResolution, DrainRegistrationReplaceError,
  not_closing, begin_close, replace, resolve,
}

-- What each answer says of the task's attachment and of the registration.
abbrev pub Resolved : DrainTaskResolution → DrainRegistration → AttachmentId → Type 0
Resolved DrainTaskResolution.current r a =
    (a ≡ r.current) × (r.state ≡ DrainRegistrationState.active)
Resolved DrainTaskResolution.closing r a =
    (a ≡ r.current) × (r.state ≡ DrainRegistrationState.closing)
Resolved DrainTaskResolution.retired r a =
    (a.runtime_id ≡ r.current.runtime_id) × (a.epoch < r.current.epoch)
Resolved DrainTaskResolution.unregistered_attachment r a =
    (a.runtime_id ≡ r.current.runtime_id) × (r.current.epoch < a.epoch)
Resolved DrainTaskResolution.foreign_runtime r a = a.runtime_id ≢ r.current.runtime_id

-- A task is answered by how its attachment compares with the registered one: `current` and
-- `closing` mean the registered attachment, by its state; `retired` an earlier epoch and
-- `unregistered_attachment` a later one of the same runtime; `foreign_runtime` another runtime.
pub resolve-Resolved : (r : DrainRegistration) (a : AttachmentId) → Resolved (resolve r a) r a
unfolding resolve
resolve-Resolved r a = ground arith

-- The conditions exclude one another, so the answer is the only one that fits.
pub Resolved-resolve :
    (d : DrainTaskResolution) (r : DrainRegistration) (a : AttachmentId)
    → Resolved d r a
    → resolve r a ≡ d
unfolding resolve
Resolved-resolve DrainTaskResolution.current r a h = ground arith
Resolved-resolve _ r a h = ground arith

-- A replacement is installed exactly when the registration is closing and the replacement is a later
-- epoch of the same runtime: then it is active and a task of the old attachment is retired. Any
-- other replacement leaves the registration as it was.
pub replace_lem :
    (r : DrainRegistration) (a : AttachmentId)
    → let (q, o) = replace a r in
      ((r.state ≡ DrainRegistrationState.closing)
        × (a.runtime_id ≡ r.current.runtime_id)
        × (r.current.epoch < a.epoch)
        × (o ≡ ok tt)
        × (resolve q a ≡ DrainTaskResolution.current)
        × (resolve q r.current ≡ DrainTaskResolution.retired))
      ⊎ ((q ≡ r)
          × (((r.state ≡ DrainRegistrationState.active)
                × (o ≡ err (not_closing DrainRegistrationState.active)))
              ⊎ ((a.runtime_id ≢ r.current.runtime_id)
                  × (o ≡ err DrainRegistrationReplaceError.foreign_runtime))
              ⊎ ((a.epoch ≤ r.current.epoch) × (o ≡ err DrainRegistrationReplaceError.not_newer))))
unfolding replace resolve
replace_lem r a = ground arith

pub data Action : Type 0 where
  closes : Action
  replaces : AttachmentId → Action

abbrev act : Action → DrainRegistration → DrainRegistration
act closes r = begin_close r
act (replaces a) r = (replace a r).0

abbrev pub run : List Action → DrainRegistration → DrainRegistration
run [] r = r
run (x ∷ xs) r = run xs (act x r)

act-retired :
    (x : Action) (r : DrainRegistration) (a : AttachmentId)
    → resolve r a ≡ DrainTaskResolution.retired
    → resolve (act x r) a ≡ DrainTaskResolution.retired
unfolding resolve begin_close replace
act-retired closes r a h = ground arith
act-retired (replaces b) r a h = ground arith

-- A retired task stays retired under any later closes and replacements.
pub retired_stays :
    (xs : List Action) (r : DrainRegistration) (a : AttachmentId)
    → resolve r a ≡ DrainTaskResolution.retired
    → resolve (run xs r) a ≡ DrainTaskResolution.retired
retired_stays [] r a h = h
retired_stays (x ∷ xs) r a h = retired_stays xs (act x r) a (act-retired x r a h)
