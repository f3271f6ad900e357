-- ===== src/Host/Identity.antt =====
-- host/src/identity.rs: identities of runtimes and of engine attachments. A `NonZeroU64` is a number
-- from 1 to 2^64 - 1; the process-wide `NEXT_RUNTIME_ID` is the state of `allocate`.
pub mod Laws
use rust_jsi.Base.{
  ℕ, zero, suc, ◌+◌, ◌-◌, ◌^◌, Bool, ◌&&◌, if◌then◌else◌, ◌==◌, ltb, Option, none, some, Result, ok,
  err, List, [], ◌∷◌,
}

abbrev pub u64_max : ℕ
u64_max = 2 ^ 64 - 1

abbrev pub checked_add : ℕ → ℕ → Option ℕ
checked_add a b = if ltb u64_max (a + b) then none else some (a + b)

-- `NonZeroU64::new`.
abbrev pub nonzero : ℕ → Option ℕ
nonzero n = if n == 0 then none else some n

pub record AttachmentId : Type 0 where
  pub runtime_id : ℕ
  pub epoch : ℕ

-- The derived `PartialEq`.
abbrev pub same_attachment : AttachmentId → AttachmentId → Bool
same_attachment a b = a.runtime_id == b.runtime_id && a.epoch == b.epoch

pub data IdentityError : Type 0 where
  runtime_id_exhausted : IdentityError
  attachment_epoch_exhausted : (runtime_id : ℕ) → IdentityError

pub record RuntimeIdentity : Type 0 where
  pub runtime_id : ℕ
  pub next_epoch : Option ℕ

abbrev allocated : Option ℕ → Result RuntimeIdentity IdentityError
allocated none = err runtime_id_exhausted
allocated (some id) = ok (record { runtime_id = id; next_epoch = nonzero 1 })

abbrev allocate_by : ℕ → Option ℕ → ℕ × Result RuntimeIdentity IdentityError
allocate_by current none = (current, err runtime_id_exhausted)
allocate_by current (some next) = (next, allocated (nonzero current))

-- `fetch_update` stores the sum and gives the number that was there.
unfoldable pub allocate : ℕ → ℕ × Result RuntimeIdentity IdentityError
allocate current = allocate_by current (checked_add current 1)

abbrev pub nonzero_next : Option ℕ → Option ℕ
nonzero_next none = none
nonzero_next (some n) = nonzero n

abbrev next_by : RuntimeIdentity → Option ℕ → RuntimeIdentity × Result AttachmentId IdentityError
next_by self none = (self, err (attachment_epoch_exhausted self.runtime_id))
next_by self (some epoch) = (
  record self { next_epoch = nonzero_next (checked_add epoch 1) },
  ok (record { runtime_id = self.runtime_id; epoch = epoch }),
)

unfoldable pub next_attachment :
    RuntimeIdentity → RuntimeIdentity × Result AttachmentId IdentityError
next_attachment self = next_by self self.next_epoch
