-- ===== src/Jsc/Roots/Inserts.antt =====
-- backend-jsc/src/experimental.rs: `RootRegistry::insert` and the registry's invariant.
use rust_jsi.Base.{
  ℕ, ◌<◌, ◌≡◌, inl, inr, ap, subst, List, [], ◌∷◌, ◌++◌, length, length-append, Option, none, some,
  is_some, arith,
}
use rust_jsi.Base.Slots.{get_elem?, set, get-set, get-append, get-append-old, length-set}
use rust_jsi.Jsc.Generations.{max_generation, one-max_generation, count-set, count-append}
use rust_jsi.Jsc.Roots.{live_root, RootSlot, RootRegistry, occupy, grow}
use rust_jsi.Jsc.Roots.Invariant.{
  IsSound, SlotFits, Chain, FreeList, Chain-set, Chain-Fresh, FreeList-set, occupied, awaiting,
  retired,
}

module _ {V : Type 0} where
  Chain-append :
      (slots : List (RootSlot V)) (head : Option ℕ) (l : List ℕ) (m : List (RootSlot V))
      → Chain slots head l
      → Chain (slots ++ m) head l
  Chain-append slots head [] m c = c
  Chain-append slots head (j ∷ l) m (next, h, fresh, (s, at, v, r), c) =
      (next, h, fresh, (s, get-append-old slots m j s at, v, r), Chain-append slots next l m c)

  FreeList-append :
      (slots : List (RootSlot V)) (l : List ℕ) (m : List (RootSlot V))
      → FreeList slots l
      → FreeList (slots ++ m) l
  FreeList-append slots [] m c = tt
  FreeList-append slots (j ∷ l) m ((s, at, n, r, g), fresh, c) =
      ((s, get-append-old slots m j s at, n, r, g), fresh, FreeList-append slots l m c)

  module _ (value : V) (self : RootRegistry V) (sound : IsSound self) where
    open sound use {
      chain, linked, free_list, fits, live_counted, pending_length, pending_counted, room,
      shared_out,
    }

    abbrev pub fresh_slot : RootSlot V
    fresh_slot = record { generation = 1; value = some value; release = live_root }

    fresh_slot-SlotFits :
        (j : ℕ) (t : RootSlot V) → get_elem? (self.slots ++ fresh_slot ∷ []) j ≡ some t → SlotFits t
    fresh_slot-SlotFits j t h = elim (get-append self.slots j fresh_slot t h) [
      | inl (e, f) ↦
          inr (ap (λ (u : RootSlot V). is_some u.value) f, ground (arith, one-max_generation))
      | inr old ↦ fits j t old
    ]

    pub grow-IsSound : length self.slots < self.limit → IsSound (grow value self).0
    grow-IsSound h = record {
      chain = chain;
      linked = Chain-append self.slots self.pending_head chain (fresh_slot ∷ []) linked;
      free_list = FreeList-append self.slots self.free (fresh_slot ∷ []) free_list;
      fits = fresh_slot-SlotFits;
      live_counted =
          ground (arith, live_counted, count-append occupied self.slots (fresh_slot ∷ []));
      pending_length = pending_length;
      pending_counted =
          ground (arith, pending_counted, count-append awaiting self.slots (fresh_slot ∷ []));
      room = ground (arith, length-append self.slots (fresh_slot ∷ []));
      shared_out = ground (
        arith,
        shared_out,
        one-max_generation,
        length-append self.slots (fresh_slot ∷ []),
        count-append occupied self.slots (fresh_slot ∷ []),
        count-append retired self.slots (fresh_slot ∷ []),
      );
    }

    module _ (i : ℕ) (l : List ℕ) (split : self.free ≡ i ∷ l) where
      head_free : FreeList self.slots (i ∷ l)
      head_free = subst (FreeList self.slots) split free_list

      abbrev pub filled : RootSlot V → RootSlot V
      filled s = record s { value = some value }

      module _ (s : RootSlot V) (at : get_elem? self.slots i ≡ some s) (empty : s.value ≡ none)
          (alive : s.release ≡ live_root) (young : s.generation < max_generation) where
        filled-SlotFits :
            (j : ℕ) (t : RootSlot V)
            → get_elem? (set self.slots i (filled s)) j ≡ some t
            → SlotFits t
        filled-SlotFits j t h = elim (get-set self.slots i j (filled s) t h) [
          | inl (e, f) ↦ inr (ap (λ (u : RootSlot V). is_some u.value) f, ground arith)
          | inr old ↦ fits j t old
        ]

        pub occupy-IsSound : IsSound (occupy value i (some s) (record self { free = l })).0
        occupy-IsSound = record {
          chain = chain;
          linked =
              Chain-set self.slots self.pending_head chain i (filled s) linked
                (Chain-Fresh self.slots self.pending_head chain i s linked at alive);
          free_list = FreeList-set self.slots l i (filled s) head_free.2 head_free.1;
          fits = filled-SlotFits;
          live_counted =
              ground (arith, live_counted, count-set occupied self.slots i s (filled s) at);
          pending_length = pending_length;
          pending_counted =
              ground (arith, pending_counted, count-set awaiting self.slots i s (filled s) at);
          room = ground (arith, room, length-set self.slots i (filled s));
          shared_out = ground (
            arith,
            shared_out,
            ap (λ (m : List ℕ). length m) split,
            length-set self.slots i (filled s),
            count-set occupied self.slots i s (filled s) at,
            count-set retired self.slots i s (filled s) at,
          );
        }
