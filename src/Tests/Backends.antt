-- ===== src/Tests/Backends.antt =====
-- backend/src/lib.rs: a backend of version 2.1 with strong roots and native state.
use rust_jsi.Base.{ℕ, ◌<◌, ◌≤◌, ◌≡◌, ◌⊎◌, refl, true, false, ◌&&◌, ◌||◌, not, ok, err}
use rust_jsi.Backend.{
  ContractVersion, Capability, CapabilitySet, empty, only, with_capability, contains, difference,
  BackendManifest, contract_version, missing_capabilities, require, is_empty,
}
use rust_jsi.Backend.Bits.{bit, u64_bits, bit_or, bit_and, bit_not}
use rust_jsi.Backend.Laws.{Differs, Provides, capability_set_lem, require_lem}

abbrev roots_and_state : CapabilitySet
roots_and_state = record { bits = 3 }

abbrev roots_and_buffers : CapabilitySet
roots_and_buffers = record { bits = 5 }

abbrev manifest : BackendManifest
manifest = record { contract = record { major = 2; minor = 1 }; capabilities = roots_and_state }

abbrev two : ContractVersion
two = record { major = 2; minor = 0 }

built : with_capability (only Capability.strong_roots) Capability.native_state ≡ roots_and_state
unfolding with_capability only bit_or
built = refl

capability_set_lem_example :
    (contains empty Capability.native_state ≡ false)
    × (contains (only Capability.strong_roots) Capability.native_state ≡ false)
    × (contains (with_capability roots_and_buffers Capability.strong_roots) Capability.native_state
        ≡ (contains roots_and_buffers Capability.native_state || false))
    × (contains (difference roots_and_buffers roots_and_state) Capability.native_state ≡ (
        contains roots_and_buffers Capability.native_state
        && not (contains roots_and_state Capability.native_state)))
capability_set_lem_example =
    capability_set_lem roots_and_buffers roots_and_state Capability.strong_roots
      Capability.native_state

require_lem_example :
    (Differs manifest.contract two
      × (require manifest two roots_and_buffers ≡ err (contract_version two manifest.contract)))
    ⊎ ((manifest.contract.major ≡ two.major)
        × (two.minor ≤ manifest.contract.minor)
        × (((require manifest two roots_and_buffers ≡ ok tt)
              × Provides roots_and_state roots_and_buffers)
            ⊎ ((missing : CapabilitySet) × (require manifest two roots_and_buffers
                  ≡ err (missing_capabilities missing))
                × ((i : ℕ)
                    → i < u64_bits
                    → bit i missing.bits
                      ≡ (bit i roots_and_buffers.bits && not (bit i roots_and_state.bits)))
                × ((i : ℕ) × (i < u64_bits) × (bit i missing.bits ≡ true)))))
require_lem_example = require_lem manifest two roots_and_buffers

-- Version 2.1 meets a request for itself.
same_version : require manifest manifest.contract roots_and_state ≡ ok tt
unfolding require difference is_empty bit_and bit_not
same_version = refl
