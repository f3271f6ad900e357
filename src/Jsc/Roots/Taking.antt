-- ===== src/Jsc/Roots/Taking.antt =====
-- backend-jsc/src/experimental.rs: what `RootRegistry::take_pending` gives and leaves.
use rust_jsi.Base.{
  ℕ, suc, ◌-◌, ◌≡◌, ◌⊎◌, inl, inr, refl, sym, ap, subst, ◌∙◌, ◌==◌, ==→≡, List, [], ◌∷◌, length,
  Option, none, some, is_some, Bool-cases, Option-cases, Outcome, returned, arith,
}
use rust_jsi.Base.Slots.{get_elem?, set, get-set-other, get-set-same, set-set}
use rust_jsi.Jsc.Generations.{saturating_succ_lem, decrement, count-set}
use rust_jsi.Jsc.Roots.{
  RootId, RootRelease, live_root, pending_root, RootSlot, RootRegistry, get, get_from, remove,
  remove_unlinked, unlink, retire, take_pending, take_from, take_at, take_slot,
}
use rust_jsi.Jsc.Roots.Invariant.{IsSound, Chain}
use rust_jsi.Jsc.Roots.Releases.{young, unlink-IsSound, live-positive}
use rust_jsi.Jsc.Roots.Evolution.{Grows, set-Grows, holds}
use rust_jsi.Jsc.Roots.Results.{Keeps, emptied, remove-found, retire-Keeps}

module _ {V : Type 0} where
  -- The pending root at the head of the list is removed as if by its id.
  module _ (self : RootRegistry V) (sound : IsSound self) (i : ℕ) (s : RootSlot V)
      (at : get_elem? self.slots i ≡ some s) (v : V) (full : s.value ≡ some v) (next : Option ℕ)
      (rest : List ℕ) (split : sound.chain ≡ i ∷ rest) (waits : s.release ≡ pending_root next)
      (head : self.pending_head ≡ some i) where
    abbrev freed : RootSlot V
    freed = record s { release = live_root }

    abbrev id : RootId
    id = record { slot = i; generation = s.generation }

    abbrev unlinking : RootRegistry V
    unlinking = record self {
      slots = set self.slots i freed;
      pending_head = next;
      pending = self.pending - 1;
    }

    abbrev taken : RootRegistry V
    taken = retire i freed v (self.live - 1) unlinking

    lower : self.pending ≡ suc (self.pending - 1)
    lower = ground (arith, sound.pending_length, ap (λ (m : List ℕ). length m) split)

    unlinking-IsSound : IsSound unlinking
    unlinking-IsSound =
        unlink-IsSound self sound i s at (ap is_some full) next rest split waits (self.pending - 1)
          lower

    freed_at : get_elem? (set self.slots i freed) i ≡ some freed
    freed_at = get-set-same self.slots i freed s at

    lower_live : self.live ≡ suc (self.live - 1)
    lower_live =
        omega
          (arith, live-positive unlinking unlinking-IsSound i freed freed_at (ap is_some full) refl)

    take_pending-found : take_pending self ≡ (taken, returned (some v))
    unfolding take_pending remove_unlinked remove
    take_pending-found =
        ap (λ (o : Option ℕ). take_from o self) head
        ∙ ap (λ (o : Option (RootSlot V)). take_at i o self) at
        ∙ ap (λ (o : RootRelease). take_slot i s o self) waits
        ∙ ap (λ (o : Outcome ℕ). remove_unlinked (unlink i s next o self)) (ap decrement lower)
        ∙ remove-found unlinking unlinking-IsSound id freed freed_at v full refl refl
            (self.live - 1) lower_live

    taken-Keeps : Keeps self taken [] (v ∷ [])
    taken-Keeps =
        let k =
          retire-Keeps unlinking unlinking-IsSound id freed freed_at v full refl refl
            (self.live - 1) lower_live in
        record {
          sound = k.sound;
          grows = subst (Grows self.slots) (sym (set-set self.slots i freed (emptied freed))) (
              set-Grows self.slots i s (emptied freed) at (
                inl (
                  ground (
                    arith,
                    young self sound i s at (ap is_some full),
                    saturating_succ_lem s.generation,
                  ))));
          same_limit = refl;
          conserves =
              λ p. ground (arith, k.conserves p, count-set (holds p) self.slots i s freed at);
        }

    no_answer : (j : RootId) → get_from j (some (emptied freed)) ≡ get_from j (some s)
    no_answer j = ground arith

    taken-get : (j : RootId) → get taken j ≡ get self j
    unfolding get
    taken-get j = elim (Bool-cases (j.slot == i)) [
      | inl e ↦
          let e' : j.slot ≡ i = ==→≡ j.slot i e in
          ap (get_from j) (
            ap (get_elem? taken.slots) e'
            ∙ get-set-same (set self.slots i freed) i (emptied freed) freed freed_at)
          ∙ no_answer j
          ∙ sym (ap (get_from j) (ap (get_elem? self.slots) e' ∙ at))
      | inr n ↦ ap (get_from j) (
          get-set-other (set self.slots i freed) i j.slot (emptied freed) (ground arith)
          ∙ get-set-other self.slots i j.slot freed (ground arith))
    ]

  -- `take_pending` gives a value exactly while a release is pending, and takes one pending root each
  -- time; ids resolve as before.
  abbrev pub Taken : RootRegistry V → RootRegistry V → V → Type 0
  Taken self r v =
      (take_pending self ≡ (r, returned (some v)))
      × (self.pending ≡ suc r.pending)
      × (self.live ≡ suc r.live)
      × Keeps self r [] (v ∷ [])
      × ((j : RootId) → get r j ≡ get self j)

  take-cases :
      (self : RootRegistry V) (sound : IsSound self) (chain : List ℕ)
      → sound.chain ≡ chain
      → Chain self.slots self.pending_head chain
      → ((self.pending ≡ 0) × (take_pending self ≡ (self, returned none)))
        ⊎ ((r : RootRegistry V) × (v : V) × Taken self r v)
  unfolding take_pending
  take-cases self sound [] split none_linked = inl (
    ground (arith, sound.pending_length, ap (λ (m : List ℕ). length m) split),
    ap (λ (o : Option ℕ). take_from o self) none_linked,
  )
  take-cases self sound (i ∷ rest) split (next, head, fresh, (s, at, full, waits), c) =
      elim (Option-cases s.value) [
        | inl e ↦ absurd (ground arith)
        | inr (v, e) ↦ inr (
          taken self sound i s at v e next rest split waits head,
          v,
          (
            take_pending-found self sound i s at v e next rest split waits head,
            lower self sound i s at v e next rest split waits head,
            lower_live self sound i s at v e next rest split waits head,
            taken-Keeps self sound i s at v e next rest split waits head,
            taken-get self sound i s at v e next rest split waits head,
          ),
        )
      ]

  pub take_pending-cases :
      (self : RootRegistry V)
      → IsSound self
      → ((self.pending ≡ 0) × (take_pending self ≡ (self, returned none)))
        ⊎ ((r : RootRegistry V) × (v : V) × Taken self r v)
  take_pending-cases self sound = take-cases self sound sound.chain refl sound.linked
