-- ===== src/Jsc/Ledger.antt =====
-- backend-jsc/src/experimental/external_buffer.rs: the ledger of byte buffers given to the engine. Its
-- words are atomic; a `usize` has 64 bits and `fetch_sub` and `fetch_add` wrap.
pub mod Threads
use rust_jsi.Base.{
  ℕ, ◌+◌, ◌-◌, ◌%◌, ◌^◌, Bool, if◌then◌else◌, ltb, leb, Option, none, some, Result, ok, err,
}
use rust_jsi.Host.Identity.{checked_add}
use rust_jsi.Jsc.Errors.{
  RuntimeError, external_buffer_allocation_limit_reached, external_buffer_byte_limit_reached,
}

pub record ExternalBufferLimits : Type 0 where
  pub allocations : ℕ
  pub bytes : ℕ

pub record ExternalLedger : Type 0 where
  pub live_allocations : ℕ
  pub live_bytes : ℕ
  pub deallocations : ℕ
  pub limits : ExternalBufferLimits

abbrev pub new : ExternalBufferLimits → ExternalLedger
new limits = record { live_allocations = 0; live_bytes = 0; deallocations = 0; limits = limits }

abbrev pub wrapping_sub : ℕ → ℕ → ℕ
wrapping_sub a b = (a + 2 ^ 64 - b) % 2 ^ 64

abbrev pub wrapping_add : ℕ → ℕ → ℕ
wrapping_add a b = (a + b) % 2 ^ 64

-- The closure of the first `fetch_update`.
abbrev pub one_more : ExternalLedger → Option ℕ
one_more self =
    if ltb self.live_allocations self.limits.allocations
    then some (self.live_allocations + 1)
    else none

abbrev pub within_limit : ℕ → Option ℕ → Option ℕ
within_limit limit none = none
within_limit limit (some total) = if leb total limit then some total else none

-- The closure of the second.
abbrev pub more_bytes : ℕ → ExternalLedger → Option ℕ
more_bytes byte_len self = within_limit self.limits.bytes (checked_add self.live_bytes byte_len)

-- The atomic accesses, in the order of the code.
abbrev pub give_back : ExternalLedger → ExternalLedger
give_back self = record self { live_allocations = wrapping_sub self.live_allocations 1 }

abbrev pub take_bytes : ExternalLedger → Option ℕ → ExternalLedger × Result (Unit {0}) RuntimeError
take_bytes self none = (give_back self, err external_buffer_byte_limit_reached)
take_bytes self (some total) = (record self { live_bytes = total }, ok tt)

abbrev pub take_allocation :
    ℕ → ExternalLedger → Option ℕ → ExternalLedger × Result (Unit {0}) RuntimeError
take_allocation byte_len self none = (self, err external_buffer_allocation_limit_reached)
take_allocation byte_len self (some live) =
    let self' = record self { live_allocations = live } in
    take_bytes self' (more_bytes byte_len self')

unfoldable pub reserve : ℕ → ExternalLedger → ExternalLedger × Result (Unit {0}) RuntimeError
reserve byte_len self = take_allocation byte_len self (one_more self)

abbrev pub free_bytes : ℕ → ExternalLedger → ExternalLedger
free_bytes byte_len self = record self { live_bytes = wrapping_sub self.live_bytes byte_len }

abbrev pub count_deallocation : ExternalLedger → ExternalLedger
count_deallocation self = record self { deallocations = wrapping_add self.deallocations 1 }

unfoldable pub release : ℕ → ExternalLedger → ExternalLedger
release byte_len self = count_deallocation (give_back (free_bytes byte_len self))
