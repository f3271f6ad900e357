-- ===== src/Host/Identity/Laws.antt =====
-- host/src/identity.rs: what a sequence of calls issues.
use native.Mathlib.Nat.{le_refl}
use rust_jsi.Base.{Bool-cases, ltb, ltb→le, ◌==◌, inl, inr}
use rust_jsi.Base.{
  ℕ, zero, suc, ◌+◌, ◌≤◌, ◌≡◌, refl, List, [], ◌∷◌, none, some, Result, ok, err, arith, false,
}
use rust_jsi.Host.Identity.{
  AttachmentId, RuntimeIdentity, IdentityError, nonzero_next, u64_max, nonzero, allocate,
  next_attachment,
}

abbrev prepend : {A : Type 0} → Result A IdentityError → List A → List A
prepend (ok a) l = a ∷ l
prepend (err e) l = l

-- The identities that so many calls of `allocate` issue, by any threads.
abbrev pub allocations : ℕ → ℕ → List RuntimeIdentity
allocations zero current = []
allocations (suc n) current = prepend (allocate current).1 (allocations n (allocate current).0)

-- The attachments that so many calls of `next_attachment` issue.
abbrev pub attachments : ℕ → RuntimeIdentity → List AttachmentId
attachments zero self = []
attachments (suc n) self = prepend (next_attachment self).1 (attachments n (next_attachment self).0)

-- Runtime identities that rise strictly from `lo`, in 64 bits.
abbrev pub RuntimesRise : ℕ → List RuntimeIdentity → Type 0
RuntimesRise lo [] = Unit {0}
RuntimesRise lo (r ∷ rs) =
    (lo ≤ r.runtime_id) × (r.runtime_id ≤ u64_max) × RuntimesRise (suc r.runtime_id) rs

-- Attachments of one runtime, whose epochs rise strictly from `lo`, in 64 bits.
abbrev pub EpochsRise : ℕ → ℕ → List AttachmentId → Type 0
EpochsRise runtime_id lo [] = Unit {0}
EpochsRise runtime_id lo (a ∷ as_) =
    (a.runtime_id ≡ runtime_id)
    × (lo ≤ a.epoch)
    × (a.epoch ≤ u64_max)
    × EpochsRise runtime_id (suc a.epoch) as_

RuntimesRise-mono :
    (a b : ℕ) (l : List RuntimeIdentity) → a ≤ b → RuntimesRise b l → RuntimesRise a l
RuntimesRise-mono a b [] h r = tt
RuntimesRise-mono a b (x ∷ l) h r = ground arith

EpochsRise-mono : (r a b : ℕ) (l : List AttachmentId) → a ≤ b → EpochsRise r b l → EpochsRise r a l
EpochsRise-mono r a b [] h e = tt
EpochsRise-mono r a b (x ∷ l) h e = ground arith

-- From any counter of 64 bits that is not 0, whatever the number of calls, and with the number space
-- exhausted, the runtime identities issued
-- rise strictly: none is zero and none is issued twice.
pub allocations_rise :
    (n current : ℕ) → 1 ≤ current → current ≤ u64_max → RuntimesRise current (allocations n current)
unfolding allocate
allocations_rise zero current h k = tt
allocations_rise (suc n) current h k = elim (Bool-cases (ltb u64_max (current + 1))) [
  | inl over ↦ rw (over, allocate) (allocations_rise n current h k)
  | inr fits ↦
      let room : current + 1 ≤ u64_max = ltb→le _ _ fits in
      let positive : (current == 0) ≡ false = ground arith in
      rw (fits, allocate)
        (rw (positive, nonzero)
          (
            le_refl current,
            k,
            RuntimesRise-mono (suc current) (current + 1) _ (omega arith)
                (allocations_rise n (current + 1) (omega arith) room),
          ))
]

EpochsRise-none :
    (n runtime_id lo : ℕ)
    → EpochsRise runtime_id lo
        (attachments n (record { runtime_id = runtime_id; next_epoch = none }))
unfolding next_attachment
EpochsRise-none zero r lo = tt
EpochsRise-none (suc n) r lo = EpochsRise-none n r lo

-- From any next epoch of 64 bits that is not 0, whatever the number of calls, and with the epochs
-- exhausted, the attachments that a runtime issues
-- carry its identity and epochs that rise strictly: none is zero and none is issued twice.
pub attachments_rise :
    (n runtime_id epoch : ℕ)
    → 1 ≤ epoch
    → epoch ≤ u64_max
    → EpochsRise runtime_id epoch
        (attachments n (record { runtime_id = runtime_id; next_epoch = some epoch }))
unfolding next_attachment
attachments_rise zero r e h k = tt
attachments_rise (suc n) r e h k = elim (Bool-cases (ltb u64_max (e + 1))) [
  | inl over ↦ rw (over, nonzero_next) (refl, le_refl e, k, EpochsRise-none n r (suc e))
  | inr fits ↦
      let room : e + 1 ≤ u64_max = ltb→le _ _ fits in
      let positive : (e + 1 == 0) ≡ false = ground arith in
      rw (fits, nonzero_next)
        (rw (positive, nonzero)
          (
            refl,
            le_refl e,
            k,
            EpochsRise-mono r (suc e) (e + 1) _ (omega arith)
                (attachments_rise n r (e + 1) (omega arith) room),
          ))
]
