-- ===== src/Jsc/Roots/Releases.antt =====
-- backend-jsc/src/experimental.rs: `RootRegistry::remove`, `request_release`, `take_pending` and the
-- registry's invariant.
use rust_jsi.Base.{
  ℕ, suc, ◌+◌, ◌<◌, ◌≡◌, inl, inr, refl, sym, ap, subst, ◌∙◌, true, if◌then◌else◌, ◌==◌, List, ◌∷◌,
  length, Option, none, some, is_some, Bool-cases, arith,
}
use rust_jsi.Base.Slots.{get_elem?, set, get-set, get-set-same, length-set, some-injective}
use rust_jsi.Jsc.Generations.{
  max_generation, saturating_succ, saturating_succ_lem, Fresh, count, count-set, count-positive,
}
use rust_jsi.Jsc.Roots.{live_root, pending_root, RootSlot, RootRegistry, retire}
use rust_jsi.Jsc.Roots.Invariant.{
  IsSound, SlotFits, Chain, FreeList, Chain-set, Chain-Fresh, FreeList-set, FreeList-Fresh,
  occupied, awaiting, retired,
}

pending_root-injective : {m n : Option ℕ} → pending_root m ≡ pending_root n → m ≡ n
pending_root-injective e = cc

module _ {V : Type 0} (self : RootRegistry V) (sound : IsSound self) (i : ℕ) (s : RootSlot V)
    (at : get_elem? self.slots i ≡ some s) (full : is_some s.value ≡ true) where
  open sound use {
    chain, linked, free_list, fits, live_counted, pending_length, pending_counted, room, shared_out,
  }

  not_free : Fresh i self.free
  not_free = FreeList-Fresh self.slots self.free i s free_list at full

  pub young : s.generation < max_generation
  young = ground (arith, fits i s at)

  -- Writing a slot of the same value that is fit keeps what the chain does not concern.
  module _ (t : RootSlot V) (same : t.value ≡ s.value) (age : t.generation ≡ s.generation) where
    rewritten-SlotFits :
        (j : ℕ) (u : RootSlot V) → get_elem? (set self.slots i t) j ≡ some u → SlotFits u
    rewritten-SlotFits j u h = elim (get-set self.slots i j t u h) [
      | inl (e, f) ↦ inr (ground arith, ground (arith, young))
      | inr old ↦ fits j u old
    ]

    rewritten_shared_out :
        count occupied (set self.slots i t) + count retired (set self.slots i t) + length self.free
        ≡ length (set self.slots i t)
    rewritten_shared_out = ground (
      arith,
      shared_out,
      length-set self.slots i t,
      count-set occupied self.slots i s t at,
      count-set retired self.slots i s t at,
    )

    rewritten_live : self.live ≡ count occupied (set self.slots i t)
    rewritten_live = ground (arith, live_counted, count-set occupied self.slots i s t at)

  module _ (alive : s.release ≡ live_root) where
    abbrev requested : RootSlot V
    requested = record s { release = pending_root self.pending_head }

    not_linked : Fresh i chain
    not_linked = Chain-Fresh self.slots self.pending_head chain i s linked at alive

    pub requested-IsSound : IsSound (record self {
      slots = set self.slots i requested;
      pending_head = some i;
      pending = self.pending + 1;
    })
    requested-IsSound = record {
      chain = i ∷ chain;
      linked = (
        self.pending_head,
        refl,
        not_linked,
        (requested, get-set-same self.slots i requested s at, full, refl),
        Chain-set self.slots self.pending_head chain i requested linked not_linked,
      );
      free_list = FreeList-set self.slots self.free i requested free_list not_free;
      fits = rewritten-SlotFits requested refl refl;
      live_counted = rewritten_live requested refl refl;
      pending_length = ground (arith, pending_length);
      pending_counted =
          ground (arith, pending_counted, count-set awaiting self.slots i s requested at);
      room = ground (arith, room, length-set self.slots i requested);
      shared_out = rewritten_shared_out requested refl refl;
    }

    abbrev emptied : RootSlot V
    emptied = record s { value = none; generation = saturating_succ s.generation }

    emptied-SlotFits :
        (j : ℕ) (u : RootSlot V) → get_elem? (set self.slots i emptied) j ≡ some u → SlotFits u
    emptied-SlotFits j u h = elim (get-set self.slots i j emptied u h) [
      | inl (e, f) ↦
          inl (ground arith, ground arith, ground (arith, young, saturating_succ_lem s.generation))
      | inr old ↦ fits j u old
    ]

    emptied_free :
        FreeList
          (set self.slots i emptied)
          (if saturating_succ s.generation == max_generation then self.free else i ∷ self.free)
    emptied_free = elim (Bool-cases (saturating_succ s.generation == max_generation)) [
      | inl e ↦ rw e (FreeList-set self.slots self.free i emptied free_list not_free)
      | inr e ↦ rw e (
        (
          emptied,
          get-set-same self.slots i emptied s at,
          refl,
          alive,
          ground (arith, young, saturating_succ_lem s.generation),
        ),
        not_free,
        FreeList-set self.slots self.free i emptied free_list not_free,
      )
    ]

    pub retire-IsSound :
        (value : V) (live : ℕ) → self.live ≡ suc live → IsSound (retire i s value live self)
    retire-IsSound value live e = record {
      chain = chain;
      linked = Chain-set self.slots self.pending_head chain i emptied linked not_linked;
      free_list = emptied_free;
      fits = emptied-SlotFits;
      live_counted = ground (arith, live_counted, count-set occupied self.slots i s emptied at);
      pending_length = pending_length;
      pending_counted =
          ground (arith, pending_counted, count-set awaiting self.slots i s emptied at);
      room = ground (arith, room, length-set self.slots i emptied);
      shared_out = ground (
        arith,
        young,
        saturating_succ_lem s.generation,
        shared_out,
        length-set self.slots i emptied,
        count-set occupied self.slots i s emptied at,
        count-set retired self.slots i s emptied at,
      );
    }

    pub live-positive : 0 < self.live
    live-positive = ground (arith, live_counted, count-positive occupied self.slots i s at)

  module _ (next : Option ℕ) (rest : List ℕ) (split : chain ≡ i ∷ rest) where
    abbrev pub unlinked : RootSlot V
    unlinked = record s { release = live_root }

    head_linked : Chain self.slots self.pending_head (i ∷ rest)
    head_linked = subst (Chain self.slots self.pending_head) split linked

    unlink-Chain : s.release ≡ pending_root next → Chain (set self.slots i unlinked) next rest
    unlink-Chain waits =
        let (next', h, fresh, (s', at', v, r), c) = head_linked in
        let e : next' ≡ next =
          pending_root-injective
            (sym r ∙ ap (λ (u : RootSlot V). u.release) (some-injective (sym at' ∙ at)) ∙ waits) in
        Chain-set self.slots next rest i unlinked (subst (λ n. Chain self.slots n rest) e c) fresh

    pub unlink-IsSound :
        s.release ≡ pending_root next
        → (pending : ℕ) → self.pending ≡ suc pending
        → IsSound (record self {
          slots = set self.slots i unlinked;
          pending_head = next;
          pending = pending;
        })
    unlink-IsSound waits pending e = record {
      chain = rest;
      linked = unlink-Chain waits;
      free_list = FreeList-set self.slots self.free i unlinked free_list not_free;
      fits = rewritten-SlotFits unlinked refl refl;
      live_counted = rewritten_live unlinked refl refl;
      pending_length = ground (arith, pending_length, ap (λ (m : List ℕ). length m) split);
      pending_counted = ground (
        arith,
        pending_counted,
        ap (λ (m : List ℕ). length m) split,
        count-set awaiting self.slots i s unlinked at,
      );
      room = ground (arith, room, length-set self.slots i unlinked);
      shared_out = rewritten_shared_out unlinked refl refl;
    }
