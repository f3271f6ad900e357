-- ===== src/Backend.antt =====
-- backend/src/lib.rs: the contract version, capabilities and manifest of a backend, and the failures
-- that it reports. A `u64` is a number; its operators work on 64 binary digits.
pub mod Bits
pub mod Errors
pub mod Laws
use rust_jsi.Base.{
  ℕ, ◌^◌, Bool, true, false, ◌&&◌, not, if◌then◌else◌, ◌==◌, leb, List, [], ◌∷◌, Option, none, some,
  Result, ok, err,
}
use Bits.{bit_and, bit_or, bit_not}
use Prim.Native.String.{String}

pub record ContractVersion : Type 0 where
  pub major : ℕ
  pub minor : ℕ

abbrev pub supports : ContractVersion → ContractVersion → Bool
supports self required = self.major == required.major && leb required.minor self.minor

pub data Capability : Type 0 where
  strong_roots native_state owned_external_buffers : Capability
  forced_garbage_collection borrowed_buffer_bytes : Capability

-- The discriminant, `self as u8`.
abbrev pub discriminant : Capability → ℕ
discriminant strong_roots = 0
discriminant native_state = 1
discriminant owned_external_buffers = 2
discriminant forced_garbage_collection = 3
discriminant borrowed_buffer_bytes = 4

abbrev pub mask : Capability → ℕ
mask self = 2 ^ discriminant self

abbrev pub name : Capability → String
name strong_roots = "strong-roots"
name native_state = "native-state"
name owned_external_buffers = "owned-external-buffers"
name forced_garbage_collection = "forced-garbage-collection"
name borrowed_buffer_bytes = "borrowed-buffer-bytes"

-- A `CapabilitySet` is its bits.
pub record CapabilitySet : Type 0 where
  pub bits : ℕ

unfoldable pub empty : CapabilitySet
empty = record { bits = 0 }

unfoldable pub only : Capability → CapabilitySet
only capability = record { bits = mask capability }

unfoldable pub with_capability : CapabilitySet → Capability → CapabilitySet
with_capability self capability = record { bits = bit_or self.bits (mask capability) }

unfoldable pub contains : CapabilitySet → Capability → Bool
contains self capability = not (bit_and self.bits (mask capability) == 0)

unfoldable pub contains_all : CapabilitySet → CapabilitySet → Bool
contains_all self required = bit_and self.bits required.bits == required.bits

unfoldable pub difference : CapabilitySet → CapabilitySet → CapabilitySet
difference self other = record { bits = bit_and self.bits (bit_not other.bits) }

unfoldable pub is_empty : CapabilitySet → Bool
is_empty self = self.bits == 0

abbrev pub known : List Capability
known =
    strong_roots ∷ native_state ∷ owned_external_buffers ∷ forced_garbage_collection
    ∷ borrowed_buffer_bytes ∷ []

abbrev pub keep : CapabilitySet → List Capability → List Capability
unfolding contains
keep self [] = []
keep self (item ∷ items) = if contains self item then item ∷ keep self items else keep self items

unfoldable pub iter : CapabilitySet → List Capability
unfolding keep
iter self = keep self known

pub record BackendManifest : Type 0 where
  pub contract : ContractVersion
  pub capabilities : CapabilitySet

pub data CompatibilityError : Type 0 where
  contract_version : (required provided : ContractVersion) → CompatibilityError
  missing_capabilities : CapabilitySet → CompatibilityError

unfoldable pub require :
    BackendManifest → ContractVersion → CapabilitySet → Result (Unit {0}) CompatibilityError
require self contract capabilities =
    if not (supports self.contract contract)
    then err (contract_version contract self.contract)
    else let missing = difference capabilities self.capabilities in
      if is_empty missing then ok tt else err (missing_capabilities missing)
