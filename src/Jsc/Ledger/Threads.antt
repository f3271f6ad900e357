-- ===== src/Jsc/Ledger/Threads.antt =====
-- backend-jsc/src/experimental/external_buffer.rs: any number of threads that reserve and release.
use rust_jsi.Base.{
  ℕ, zero, suc, ◌+◌, ◌-◌, ◌≤◌, ◌<◌, ◌≡◌, ◌^◌, ◌⊎◌, refl, if◌then◌else◌, ◌==◌, List, [], ◌∷◌, length,
  Option, none, some, arith, ok, err,
}
use rust_jsi.Base.Slots.{get_elem?, none-some, some-injective}
use rust_jsi.Jsc.Errors.{
  external_buffer_allocation_limit_reached, external_buffer_byte_limit_reached,
}
use rust_jsi.Jsc.Ledger.{
  ExternalBufferLimits, ExternalLedger, new, one_more, more_bytes, give_back, free_bytes,
  count_deallocation, reserve, release,
}

abbrev pub sum : List ℕ → ℕ
sum [] = 0
sum (n ∷ l) = n + sum l

abbrev pub without {ℓ} : {A : Type ℓ} → ℕ → List A → List A
without i [] = []
without zero (n ∷ l) = l
without (suc i) (n ∷ l) = n ∷ without i l

-- The ledger and the threads at each point of `reserve` and `release`, with the bytes of each.
pub record System : Type 0 where
  pub ledger : ExternalLedger
  pub reserving : List ℕ  -- an allocation is taken, the bytes are not
  pub refused : ℕ  -- the bytes were refused, the allocation is not given back
  pub live : List ℕ  -- reserved
  pub freeing : ℕ  -- the bytes are given back, the allocation is not
  pub counting : ℕ  -- both are, the deallocation is not counted

pub data Access : Type 0 where
  takes_allocation : ℕ → Access
  takes_bytes : ℕ → Access
  gives_back : Access
  frees_bytes : ℕ → Access
  settles counts_deallocation : Access

abbrev allocated : ℕ → Option ℕ → System → System
allocated byte_len none s = s
allocated byte_len (some n) s = record s {
  ledger = record s.ledger { live_allocations = n };
  reserving = byte_len ∷ s.reserving;
}

abbrev charged : ℕ → ℕ → Option ℕ → System → System
charged i byte_len none s = record s { reserving = without i s.reserving; refused = s.refused + 1 }
charged i byte_len (some total) s = record s {
  ledger = record s.ledger { live_bytes = total };
  reserving = without i s.reserving;
  live = byte_len ∷ s.live;
}

abbrev charge_at : ℕ → Option ℕ → System → System
charge_at i none s = s
charge_at i (some byte_len) s = charged i byte_len (more_bytes byte_len s.ledger) s

abbrev freed_at : ℕ → Option ℕ → System → System
freed_at i none s = s
freed_at i (some byte_len) s = record s {
  ledger = free_bytes byte_len s.ledger;
  live = without i s.live;
  freeing = s.freeing + 1;
}

unfoldable pub step : Access → System → System
step (takes_allocation byte_len) s = allocated byte_len (one_more s.ledger) s
step (takes_bytes i) s = charge_at i (get_elem? s.reserving i) s
step gives_back s =
    if s.refused == 0 then s else record s { ledger = give_back s.ledger; refused = s.refused - 1 }
step (frees_bytes i) s = freed_at i (get_elem? s.live i) s
step settles s = if s.freeing == 0 then s else record s {
  ledger = give_back s.ledger;
  freeing = s.freeing - 1;
  counting = s.counting + 1;
}
step counts_deallocation s =
    if s.counting == 0
    then s
    else record s { ledger = count_deallocation s.ledger; counting = s.counting - 1 }

pub run : List Access → System → System
run [] s = s
run (a ∷ l) s = run l (step a s)

abbrev pub idle : ExternalBufferLimits → System
idle limits = record {
  ledger = new limits;
  reserving = [];
  refused = 0;
  live = [];
  freeing = 0;
  counting = 0;
}

sum-without :
    (i : ℕ) (l : List ℕ) (n : ℕ)
    → get_elem? l i ≡ some n
    → (sum (without i l) + n ≡ sum l) × (length (without i l) + 1 ≡ length l)
sum-without i [] n h = absurd (none-some h)
sum-without zero (x ∷ l) n h = (ground (arith, some-injective h), omega arith)
sum-without (suc i) (x ∷ l) n h =
    let (e, f) = sum-without i l n h in (omega (arith, e), omega (arith, f))

-- What the words of the ledger say of the threads.
record IsExact (limits : ExternalBufferLimits) (s : System) : Type 0 where
  same : s.ledger.limits ≡ limits
  bytes : s.ledger.live_bytes ≡ sum s.live
  allocations :
      s.ledger.live_allocations ≡ length s.reserving + s.refused + length s.live + s.freeing
  bytes_within : s.ledger.live_bytes ≤ limits.bytes
  allocations_within : s.ledger.live_allocations ≤ limits.allocations

module _ (limits : ExternalBufferLimits) (small_bytes : limits.bytes < 2 ^ 64)
    (small_allocations : limits.allocations < 2 ^ 64) where
  charge-IsExact :
      (i : ℕ) (o : Option ℕ) (s : System)
      → get_elem? s.reserving i ≡ o
      → IsExact limits s
      → IsExact limits (charge_at i o s)
  charge-IsExact i none s e h = h
  charge-IsExact i (some n) s e h =
      let (bytes, places) = sum-without i s.reserving n e in ground (arith, places)

  freed-IsExact :
      (i : ℕ) (o : Option ℕ) (s : System)
      → get_elem? s.live i ≡ o
      → IsExact limits s
      → IsExact limits (freed_at i o s)
  freed-IsExact i none s e h = h
  freed-IsExact i (some n) s e h =
      let (bytes, places) = sum-without i s.live n e in ground (arith, bytes, places)

  step-IsExact : (a : Access) (s : System) → IsExact limits s → IsExact limits (step a s)
  unfolding step
  step-IsExact (takes_allocation n) s h = ground arith
  step-IsExact (takes_bytes i) s h = charge-IsExact i (get_elem? s.reserving i) s refl h
  step-IsExact gives_back s h = ground arith
  step-IsExact (frees_bytes i) s h = freed-IsExact i (get_elem? s.live i) s refl h
  step-IsExact settles s h = ground arith
  step-IsExact counts_deallocation s h = ground arith

  run-IsExact : (l : List Access) (s : System) → IsExact limits s → IsExact limits (run l s)
  unfolding run
  run-IsExact [] s h = h
  run-IsExact (a ∷ l) s h = run-IsExact l (step a s) (step-IsExact a s h)

  idle-IsExact : IsExact limits (idle limits)
  idle-IsExact = ground arith

  -- However the accesses of any number of threads interleave, the live bytes are exactly those of the
  -- buffers that are reserved, and neither they nor the live allocations pass their limits; each
  -- allocation counted is a thread's or a buffer's, so no word wraps below 0.
  pub ledger_bounded :
      (l : List Access)
      → let s = run l (idle limits) in
        (s.ledger.live_bytes ≡ sum s.live)
        × (s.ledger.live_bytes ≤ limits.bytes)
        × (s.ledger.live_allocations ≡ length s.reserving + s.refused + length s.live + s.freeing)
        × (s.ledger.live_allocations ≤ limits.allocations)
  ledger_bounded l =
      let h = run-IsExact l (idle limits) idle-IsExact in
      (h.bytes, h.bytes_within, h.allocations, h.allocations_within)

-- A thread alone. A reservation is accepted exactly when an allocation and the bytes fit in their
-- limits, and its release gives both back; it is refused with the limit that it meets first, and the
-- live counts are left as they were.
pub reserve_lem :
    (n : ℕ) (self : ExternalLedger)
    → self.limits.bytes < 2 ^ 64
    → self.live_allocations < 2 ^ 64
    → self.live_bytes < 2 ^ 64
    → self.limits.allocations < 2 ^ 64
    → let (r, o) = reserve n self in
      ((self.live_allocations < self.limits.allocations)
        × (self.live_bytes + n ≤ self.limits.bytes)
        × (o ≡ ok tt)
        × (r.live_bytes ≡ self.live_bytes + n)
        × (r.live_allocations ≡ self.live_allocations + 1)
        × ((release n r).live_bytes ≡ self.live_bytes)
        × ((release n r).live_allocations ≡ self.live_allocations))
      ⊎ ((r ≡ self)
          × (((self.limits.allocations ≤ self.live_allocations)
                × (o ≡ err external_buffer_allocation_limit_reached))
              ⊎ ((self.live_allocations < self.limits.allocations)
                  × (self.limits.bytes < self.live_bytes + n)
                  × (o ≡ err external_buffer_byte_limit_reached))))
unfolding reserve release
reserve_lem n self a b c d = ground arith
