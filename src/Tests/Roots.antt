-- ===== src/Tests/Roots.antt =====
-- backend-jsc/src/experimental.rs: a registry of two slots, whose roots are the numbers 7, 8 and 9.
use rust_jsi.Base.{
  ℕ, ◌+◌, ◌≤◌, ◌<◌, ◌≡◌, ◌≢◌, zero, suc, inr, ◌⊎◌, refl, Bool, List, [], ◌∷◌, length, none, some,
  returned, ok, err, arith,
}
use rust_jsi.Jsc.Errors.{persistent_root_limit_reached}
use rust_jsi.Base.Slots.{get_elem?, none-some}
use rust_jsi.Jsc.Generations.{count, one-max_generation}
use rust_jsi.Jsc.Roots.{
  RootId, RootSlot, pending_root, live_root, RootRegistry, new, counts, get, insert, remove,
}
use rust_jsi.Jsc.Roots.Invariant.{IsSound, SlotFits, new-IsSound, occupied, awaiting, retired}
use rust_jsi.Jsc.Roots.Evolution.{holds}
use rust_jsi.Jsc.Roots.Calls.{RootCall, inserts, requests, takes, drains, Account, after}
use rust_jsi.Jsc.Roots.Laws.{opened, roots_balanced, stale_never_resolves, insert_lem}
use rust_jsi.Jsc.Roots.Releasing.{Released, drain_root_releases, drain_root_releases_ends}

abbrev id_of : ℕ → ℕ → RootId
id_of slot generation = record { slot = slot; generation = generation }

-- 7 waits for its release and 8 is live.
abbrev half_released : RootRegistry ℕ
half_released = record {
  slots =
      record { generation = 1; value = some 7; release = pending_root none }
      ∷ record { generation = 1; value = some 8; release = live_root }
      ∷ [];
  free = [];
  pending_head = some 0;
  live = 2;
  pending = 1;
  limit = 2;
}

half_released-fits :
    (i : ℕ) (s : RootSlot ℕ) → get_elem? half_released.slots i ≡ some s → SlotFits s
half_released-fits zero s h = inr (ground arith, ground (arith, one-max_generation))
half_released-fits (suc zero) s h = inr (ground arith, ground (arith, one-max_generation))
half_released-fits (suc (suc i)) s h = absurd (none-some h)

half_released-IsSound : IsSound half_released
half_released-IsSound = record {
  chain = 0 ∷ [];
  linked = (
    none,
    refl,
    tt,
    (record { generation = 1; value = some 7; release = pending_root none }, refl, refl, refl),
    refl,
  );
  free_list = tt;
  fits = half_released-fits;
  live_counted = refl;
  pending_length = refl;
  pending_counted = refl;
  room = omega arith;
  shared_out = ground (arith, one-max_generation);
}

abbrev account : Account ℕ
account = record { registry = half_released; protected = 8 ∷ 7 ∷ []; unprotected = [] }

abbrev trace : List (RootCall ℕ)
trace = takes ∷ takes ∷ inserts 9 ∷ inserts 10 ∷ drains ∷ inserts 8 ∷ []

resolves : get half_released (id_of 1 1) ≡ some 8
unfolding get
resolves = refl

roots_balanced_example :
    (b : Account ℕ) × (after trace (returned (opened 2)) ≡ returned b)
    × (length b.registry.slots ≤ 2)
    × (counts b.registry ≡ (count occupied b.registry.slots, count awaiting b.registry.slots))
    × ((p : ℕ → Bool)
        → count p b.protected ≡ count (holds p) b.registry.slots + count p b.unprotected)
roots_balanced_example = roots_balanced 2 trace

stale_never_resolves_example :
    (b : Account ℕ) × (after (requests (id_of 1 1) ∷ trace) (returned account) ≡ returned b)
    × (get b.registry (id_of 1 1) ≡ none)
stale_never_resolves_example =
    stale_never_resolves account (id_of 1 1) 8 (requests (id_of 1 1)) trace half_released-IsSound
      resolves refl

abbrev vacant : RootRegistry ℕ
vacant = new 2

abbrev seven : ℕ
seven = 7

insert_lem_example :
    ((insert seven vacant ≡ (new 2, returned (err persistent_root_limit_reached)))
      × (vacant.live + count retired vacant.slots ≡ vacant.limit))
    ⊎ ((id : RootId) × (r q : RootRegistry ℕ) × (insert seven vacant ≡ (r, returned (ok id)))
        × (vacant.live + count retired vacant.slots < vacant.limit)
        × (get vacant id ≡ none)
        × (get r id ≡ some 7)
        × ((j : RootId) → j ≢ id → get r j ≡ get vacant j)
        × (remove id r ≡ (q, returned (some 7)))
        × (get q id ≡ none))
insert_lem_example = insert_lem vacant seven (new-IsSound 2)

drain_root_releases_ends_example :
    (r : RootRegistry ℕ) × (l : List ℕ) × (drain_root_releases 2 [] half_released
      ≡ some (r, returned l))
    × Released half_released [] r l
drain_root_releases_ends_example = drain_root_releases_ends half_released half_released-IsSound
