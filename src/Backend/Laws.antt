-- ===== src/Backend/Laws.antt =====
-- backend/src/lib.rs: capability sets as sets, and the compatibility check of a manifest.
use rust_jsi.Base.{
  ℕ, ◌≤◌, ◌<◌, ◌^◌, ◌≡◌, ◌≢◌, ◌⊎◌, ◌↔◌, inl, inr, refl, sym, ap, ◌∙◌, true, false, ◌&&◌, ◌||◌, not,
  ◌==◌, Bool-cases, ==→≡, ≡→==, ok, err, arith,
}
use rust_jsi.Backend.{
  ContractVersion, supports, Capability, discriminant, mask, CapabilitySet, empty, only,
  with_capability, contains, contains_all, difference, is_empty, BackendManifest, contract_version,
  missing_capabilities, require,
}
use rust_jsi.Backend.Bits.{
  bit, u64_bits, bit_and, bit_or, bit_not, bit-bitwise, bitwise-lt, bits-ext, some_bit, bit-zero,
  bit-pow,
}

-- The bits of a `u64`.
abbrev pub IsU64 : CapabilitySet → Type 0
IsU64 s = s.bits < 2 ^ u64_bits

discriminant-lt : (c : Capability) → discriminant c < u64_bits
discriminant-lt Capability.strong_roots = omega arith
discriminant-lt Capability.native_state = omega arith
discriminant-lt Capability.owned_external_buffers = omega arith
discriminant-lt Capability.forced_garbage_collection = omega arith
discriminant-lt Capability.borrowed_buffer_bytes = omega arith

bit-and : (i a b : ℕ) → i < u64_bits → bit i (bit_and a b) ≡ (bit i a && bit i b)
unfolding bit_and
bit-and i a b h = bit-bitwise (λ p q. p && q) u64_bits i a b h

bit-or : (i a b : ℕ) → i < u64_bits → bit i (bit_or a b) ≡ (bit i a || bit i b)
unfolding bit_or
bit-or i a b h = bit-bitwise (λ p q. p || q) u64_bits i a b h

bit-not : (i a : ℕ) → i < u64_bits → bit i (bit_not a) ≡ not (bit i a)
unfolding bit_not
bit-not i a h = bit-bitwise (λ p q. not p) u64_bits i a 0 h

and-lt : (a b : ℕ) → bit_and a b < 2 ^ u64_bits
unfolding bit_and
and-lt a b = bitwise-lt (λ p q. p && q) u64_bits a b

absurd_true : false ≡ true → ⊥
absurd_true h = cc

nonzero_test : (n : ℕ) → n ≢ 0 → not (n == 0) ≡ true
nonzero_test n h = ground arith

bit-ne : (k n : ℕ) → bit k n ≡ true → n ≢ 0
bit-ne k n h z = absurd_true (sym (bit-zero k) ∙ sym (ap (bit k) z) ∙ h)

and-pow-bit : (a k i : ℕ) → bit k a ≡ false → (bit i a && bit i (2 ^ k)) ≡ false
and-pow-bit a k i e = elim (Bool-cases (i == k)) [
  | inl same ↦ ground (arith, ap (λ (n : ℕ). bit n a) (==→≡ i k same))
  | inr other ↦ ground (arith, bit-pow i k)
]

-- A test of one bit.
and-mask : (a k : ℕ) → k < u64_bits → not (bit_and a (2 ^ k) == 0) ≡ bit k a
and-mask a k h = elim (Bool-cases (bit k a)) [
  | inl e ↦
      let n : bit_and a (2 ^ k) ≢ 0 =
        bit-ne k (bit_and a (2 ^ k))
          (bit-and k a (2 ^ k) h ∙ rw (e, bit-pow k k, ≡→== k k refl) refl) in
      rw e (nonzero_test (bit_and a (2 ^ k)) n)
  | inr e ↦
      let z : bit_and a (2 ^ k) ≡ 0 =
        bits-ext u64_bits (bit_and a (2 ^ k)) 0 (and-lt a (2 ^ k)) (omega arith)
          (λ i l. bit-and i a (2 ^ k) l ∙ and-pow-bit a k i e ∙ sym (bit-zero i)) in
      rw (e, z) refl
]

pub contains-bit : (s : CapabilitySet) (c : Capability) → contains s c ≡ bit (discriminant c) s.bits
unfolding contains
contains-bit s c = and-mask s.bits (discriminant c) (discriminant-lt c)

-- `contains` is membership: nothing is in the empty set; `only` and `with` add exactly their
-- capability; `difference` keeps what the other set lacks.
pub capability_set_lem :
    (s t : CapabilitySet) (c d : Capability)
    → (contains empty d ≡ false)
      × (contains (only c) d ≡ (discriminant d == discriminant c))
      × (contains (with_capability s c) d ≡ (contains s d || discriminant d == discriminant c))
      × (contains (difference s t) d ≡ (contains s d && not (contains t d)))
unfolding empty only with_capability difference
capability_set_lem s t c d = (
  contains-bit empty d ∙ bit-zero (discriminant d),
  contains-bit (only c) d ∙ bit-pow (discriminant d) (discriminant c),
  contains-bit (with_capability s c) d
      ∙ bit-or (discriminant d) s.bits (mask c) (discriminant-lt d)
      ∙ rw (contains-bit s d, bit-pow (discriminant d) (discriminant c)) refl,
  contains-bit (difference s t) d
      ∙ bit-and (discriminant d) s.bits (bit_not t.bits) (discriminant-lt d)
      ∙ rw (contains-bit s d, contains-bit t d, bit-not (discriminant d) t.bits (discriminant-lt d))
          refl,
)

-- Every bit of the one is a bit of the other.
abbrev pub Provides : CapabilitySet → CapabilitySet → Type 0
Provides s required = (i : ℕ) → i < u64_bits → (bit i required.bits ≡ false) ⊎ (bit i s.bits ≡ true)

difference-bit :
    (s t : CapabilitySet) (i : ℕ)
    → i < u64_bits
    → bit i (difference s t).bits ≡ (bit i s.bits && not (bit i t.bits))
unfolding difference
difference-bit s t i h = bit-and i s.bits (bit_not t.bits) h ∙ rw (bit-not i t.bits h) refl

difference-Provides :
    (s required : CapabilitySet) → (difference required s).bits ≡ 0 → Provides s required
difference-Provides s required z i h =
    ground (arith, difference-bit required s i h, ap (bit i) z, bit-zero i)

difference-IsU64 : (s t : CapabilitySet) → IsU64 (difference s t)
unfolding difference
difference-IsU64 s t = and-lt s.bits (bit_not t.bits)

-- The version of a backend is refused.
abbrev pub Differs : ContractVersion → ContractVersion → Type 0
Differs self required = (self.major ≢ required.major) ⊎ (self.minor < required.minor)

unsupported-Differs :
    (self required : ContractVersion) → supports self required ≡ false → Differs self required
unsupported-Differs self required e = elim (Bool-cases (self.major == required.major)) [
  | inl same ↦ inr (ground arith)
  | inr other ↦ inl (ground arith)
]

-- A manifest meets a request exactly when its contract has the same major version and no smaller
-- minor one, and it provides every bit required. A version with another major number or a smaller
-- minor one is refused first, with both versions; otherwise the bits reported missing are exactly
-- those required and not provided, and there is one.
pub require_lem :
    (self : BackendManifest) (contract : ContractVersion) (required : CapabilitySet)
    → (Differs self.contract contract
        × (require self contract required ≡ err (contract_version contract self.contract)))
      ⊎ ((self.contract.major ≡ contract.major)
          × (contract.minor ≤ self.contract.minor)
          × (((require self contract required ≡ ok tt) × Provides self.capabilities required)
              ⊎ ((missing : CapabilitySet) × (require self contract required
                    ≡ err (missing_capabilities missing))
                  × ((i : ℕ)
                      → i < u64_bits
                      → bit i missing.bits
                        ≡ (bit i required.bits && not (bit i self.capabilities.bits)))
                  × ((i : ℕ) × (i < u64_bits) × (bit i missing.bits ≡ true)))))
unfolding require is_empty
require_lem self contract required = elim (Bool-cases (supports self.contract contract)) [
  | inr e ↦ inl (unsupported-Differs self.contract contract e, rw e refl)
  | inl e ↦ inr (
    ground arith,
    ground arith,
    elim (Bool-cases ((difference required self.capabilities).bits == 0)) [
      | inl z ↦ inl (
        rw (e, z) refl,
        difference-Provides self.capabilities required
            (==→≡ (difference required self.capabilities).bits 0 z),
      )
      | inr n ↦ inr (
        difference required self.capabilities,
        rw (e, n) refl,
        difference-bit required self.capabilities,
        some_bit u64_bits (difference required self.capabilities).bits
            (difference-IsU64 required self.capabilities) (ground arith),
      )
    ],
  )
]

empty-Provides :
    (s required : CapabilitySet) → is_empty (difference required s) ≡ true → Provides s required
unfolding is_empty
empty-Provides s required e = difference-Provides s required (==→≡ (difference required s).bits 0 e)

Provides-difference :
    (s required : CapabilitySet) → Provides s required → is_empty (difference required s) ≡ true
unfolding is_empty
Provides-difference s required h = ≡→== (difference required s).bits 0 (
    bits-ext u64_bits (difference required s).bits 0 (difference-IsU64 required s) (omega arith)
      (λ i l. ground (arith, difference-bit required s i l, h i l, bit-zero i)))

contains_all-Provides :
    (s required : CapabilitySet) → contains_all s required ≡ true → Provides s required
unfolding contains_all
contains_all-Provides s required e i h =
    let same = ==→≡ (bit_and s.bits required.bits) required.bits e in
    ground
      (arith, bit-and i s.bits required.bits h, ap (bit i) same, Bool-cases (bit i required.bits))

Provides-contains_all :
    (s required : CapabilitySet)
    → IsU64 required
    → Provides s required
    → contains_all s required ≡ true
unfolding contains_all
Provides-contains_all s required u h = ≡→== (bit_and s.bits required.bits) required.bits (
    bits-ext u64_bits (bit_and s.bits required.bits) required.bits (and-lt s.bits required.bits) u
      (λ i l. bit-and i s.bits required.bits l ∙ ground (arith, h i l, Bool-cases (bit i s.bits))))

-- `contains_all` is inclusion of the bits, and it agrees with the test of the difference that
-- `require` makes.
pub contains_all_lem :
    (s required : CapabilitySet)
    → IsU64 required
    → ((contains_all s required ≡ true) ↔ Provides s required)
      × (contains_all s required ≡ is_empty (difference required s))
contains_all_lem s required u = (
  (contains_all-Provides s required, Provides-contains_all s required u),
  elim (Bool-cases (contains_all s required)) [
    | inl e ↦ e ∙ sym (Provides-difference s required (contains_all-Provides s required e))
    | inr e ↦ elim (Bool-cases (is_empty (difference required s))) [
      | inr f ↦ e ∙ sym f
      | inl f ↦
          absurd
            (absurd_true (sym e ∙ Provides-contains_all s required u (empty-Provides s required f)))
    ]
  ],
)
