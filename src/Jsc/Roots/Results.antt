-- ===== src/Jsc/Roots/Results.antt =====
-- backend-jsc/src/experimental.rs: what each call on a registry of persistent roots gives and leaves.
use rust_jsi.Base.{
  ℕ, suc, ◌+◌, ◌-◌, ◌≡◌, inl, inr, refl, sym, ap, ◌∙◌, Bool, true, List, [], ◌∷◌, Option, none,
  some, is_some, Option-cases, returned, arith,
}
use rust_jsi.Base.Slots.{get_elem?, set, get-set-same, none-some}
use rust_jsi.Jsc.Generations.{saturating_succ, saturating_succ_lem, count, count-set}
use rust_jsi.Jsc.Roots.{
  RootId, RootRelease, live_root, pending_root, RootSlot, RootRegistry, is_live, get, get_from,
  remove, remove_from, retire, request_release, request_from,
}
use rust_jsi.Jsc.Roots.Invariant.{IsSound}
use rust_jsi.Jsc.Roots.Releases.{young, requested-IsSound, retire-IsSound, live-positive}
use rust_jsi.Jsc.Roots.Evolution.{Grows, Grows-refl, set-Grows, Stale, holds}

live-of : (r : RootRelease) → is_live r ≡ true → r ≡ live_root
live-of live_root e = refl
live-of (pending_root n) e = cc

module _ {V : Type 0} where
  -- The registry is sound, no slot fell back, and each value was in the old one or came in, and is
  -- in the new one or went out.
  pub record Keeps (self r : RootRegistry V) (came went : List V) : Type 0 where
    pub sound : IsSound r
    pub grows : Grows self.slots r.slots
    pub same_limit : r.limit ≡ self.limit
    pub conserves :
        (p : V → Bool)
        → count (holds p) self.slots + count p came ≡ count (holds p) r.slots + count p went

  abbrev pub option_list : Option V → List V
  option_list none = []
  option_list (some v) = v ∷ []

  pub Keeps-refl : (self : RootRegistry V) → IsSound self → Keeps self self [] []
  Keeps-refl self sound = record {
    sound = sound;
    grows = Grows-refl self.slots;
    same_limit = refl;
    conserves = λ p. refl;
  }

  get_from-live :
      (id : RootId) (s : RootSlot V) (v : V) → get_from id (some s) ≡ some v → s.release ≡ live_root
  get_from-live id s v h = live-of s.release (ground arith)

  -- A slot that `answers` passes.
  pub get-answers :
      (self : RootRegistry V) (id : RootId) (v : V)
      → get self id ≡ some v
      → (s : RootSlot V) × (get_elem? self.slots id.slot ≡ some s)
        × (s.value ≡ some v)
        × (s.generation ≡ id.generation)
        × (s.release ≡ live_root)
  unfolding get
  get-answers self id v h = elim (Option-cases (get_elem? self.slots id.slot)) [
    | inl e ↦ absurd (none-some (sym (ap (get_from id) e) ∙ h))
    | inr (s, e) ↦
        let found : get_from id (some s) ≡ some v = sym (ap (get_from id) e) ∙ h in
        (s, e, ground arith, ground arith, get_from-live id s v found)
  ]

  abbrev pub emptied : RootSlot V → RootSlot V
  emptied s = record s { value = none; generation = saturating_succ s.generation }

  module _ (self : RootRegistry V) (sound : IsSound self) (id : RootId) (s : RootSlot V)
      (at : get_elem? self.slots id.slot ≡ some s) (v : V) (full : s.value ≡ some v)
      (age : s.generation ≡ id.generation) (alive : s.release ≡ live_root) where
    emptied-young : saturating_succ s.generation ≡ s.generation + 1
    emptied-young =
        ground
          (arith, saturating_succ_lem s.generation, young self sound id.slot s at (ap is_some full))

    pub remove-found :
        (live : ℕ)
        → self.live ≡ suc live
        → remove id self ≡ (retire id.slot s v live self, returned (some v))
    unfolding remove
    remove-found live e = ground arith

    pub retire-Keeps :
        (live : ℕ) → self.live ≡ suc live → Keeps self (retire id.slot s v live self) [] (v ∷ [])
    retire-Keeps live e = record {
      sound = retire-IsSound self sound id.slot s at (ap is_some full) alive v live e;
      grows = set-Grows self.slots id.slot s (emptied s) at (ground (arith, emptied-young));
      same_limit = refl;
      conserves = λ p. ground (arith, count-set (holds p) self.slots id.slot s (emptied s) at);
    }

  -- A root that resolves is removed and given back once.
  pub remove-resolved :
      (self : RootRegistry V) (id : RootId) (v : V)
      → IsSound self
      → get self id ≡ some v
      → (r : RootRegistry V) × (remove id self ≡ (r, returned (some v)))
        × Keeps self r [] (v ∷ [])
        × Stale r.slots id
  remove-resolved self id v sound h =
      let (s, at, full, age, alive) = get-answers self id v h in
      let lower : self.live ≡ suc (self.live - 1) =
        omega (arith, live-positive self sound id.slot s at (ap is_some full) alive) in
      (
        retire id.slot s v (self.live - 1) self,
        remove-found self sound id s at v full age alive (self.live - 1) lower,
        retire-Keeps self sound id s at v full age alive (self.live - 1) lower,
        (
          emptied s,
          get-set-same self.slots id.slot (emptied s) s at,
          inl (ground (arith, emptied-young self sound id s at v full age alive)),
        ),
      )

  remove_from-none :
      (id : RootId) (o : Option (RootSlot V)) (self : RootRegistry V)
      → get_from id o ≡ none
      → remove_from id o self ≡ (self, returned none)
  remove_from-none id none self h = refl
  remove_from-none id (some s) self h = ground arith

  request_from-none :
      (id : RootId) (o : Option (RootSlot V)) (self : RootRegistry V)
      → get_from id o ≡ none
      → request_from id o self ≡ self
  request_from-none id none self h = refl
  request_from-none id (some s) self h = ground arith

  abbrev asked : RootRegistry V → RootSlot V → RootSlot V
  asked self s = record s { release = pending_root self.pending_head }

  abbrev requesting : RootRegistry V → ℕ → RootSlot V → RootRegistry V
  requesting self i s = record self {
    slots = set self.slots i (asked self s);
    pending_head = some i;
    pending = self.pending + 1;
  }

  request-found :
      (self : RootRegistry V) (id : RootId) (s : RootSlot V) (v : V)
      → get_elem? self.slots id.slot ≡ some s
      → s.value ≡ some v
      → s.generation ≡ id.generation
      → s.release ≡ live_root
      → request_release id self ≡ requesting self id.slot s
  unfolding request_release
  request-found self id s v at full age alive = ground arith

  -- An id that does not resolve removes nothing.
  pub remove-unresolved :
      (self : RootRegistry V) (id : RootId)
      → get self id ≡ none
      → remove id self ≡ (self, returned none)
  unfolding remove get
  remove-unresolved self id h = remove_from-none id (get_elem? self.slots id.slot) self h

  requesting-Keeps :
      (self : RootRegistry V) (sound : IsSound self) (i : ℕ) (s : RootSlot V) (v : V)
      → get_elem? self.slots i ≡ some s
      → s.value ≡ some v
      → s.release ≡ live_root
      → Keeps self (requesting self i s) [] []
  requesting-Keeps self sound i s v at full alive = record {
    sound = requested-IsSound self sound i s at (ap is_some full) alive;
    grows = set-Grows self.slots i s (asked self s) at (inr (refl, inr refl));
    same_limit = refl;
    conserves = λ p. ground (arith, count-set (holds p) self.slots i s (asked self s) at);
  }

  -- A root that resolves is linked for its release, and its id is stale from then on.
  pub request-resolved :
      (self : RootRegistry V) (id : RootId) (v : V)
      → IsSound self
      → get self id ≡ some v
      → (r : RootRegistry V) × (request_release id self ≡ r) × Keeps self r [] [] × Stale r.slots id
  request-resolved self id v sound h =
      let (s, at, full, age, alive) = get-answers self id v h in
      (
        requesting self id.slot s,
        request-found self id s v at full age alive,
        requesting-Keeps self sound id.slot s v at full alive,
        (asked self s, get-set-same self.slots id.slot (asked self s) s at, inr (sym age, refl)),
      )

  pub request-unresolved :
      (self : RootRegistry V) (id : RootId) → get self id ≡ none → request_release id self ≡ self
  unfolding request_release get
  request-unresolved self id h = request_from-none id (get_elem? self.slots id.slot) self h
