-- ===== src/Jsc/Roots/Invariant.antt =====
-- backend-jsc/src/experimental.rs: what holds of a registry of persistent roots between its calls.
use rust_jsi.Base.{
  ℕ, ◌+◌, ◌≤◌, ◌<◌, ◌≡◌, ◌⊎◌, refl, sym, ap, ◌∙◌, Bool, true, ◌&&◌, not, ◌==◌, List, [], ◌∷◌,
  length, Option, none, some, is_some, arith,
}
use rust_jsi.Base.Slots.{get_elem?, set, get-set-other, some-injective, none-some}
use rust_jsi.Jsc.Generations.{max_generation, Fresh, count}
use rust_jsi.Jsc.Roots.{live_root, pending_root, RootSlot, RootRegistry, is_live, new}

module _ {V : Type 0} where
  -- A slot that `insert` may reuse.
  abbrev pub IsFree : List (RootSlot V) → ℕ → Type 0
  IsFree slots i =
      (s : RootSlot V) × (get_elem? slots i ≡ some s)
      × (s.value ≡ none)
      × (s.release ≡ live_root)
      × (s.generation < max_generation)

  abbrev pub FreeList : List (RootSlot V) → List ℕ → Type 0
  FreeList slots [] = Unit
  FreeList slots (i ∷ l) = IsFree slots i × Fresh i l × FreeList slots l

  -- A slot that waits for its release, with the one after it.
  abbrev pub IsPending : List (RootSlot V) → ℕ → Option ℕ → Type 0
  IsPending slots i next =
      (s : RootSlot V) × (get_elem? slots i ≡ some s)
      × (is_some s.value ≡ true)
      × (s.release ≡ pending_root next)

  -- The list that is linked through the slots, without repetition.
  abbrev pub Chain : List (RootSlot V) → Option ℕ → List ℕ → Type 0
  Chain slots head [] = head ≡ none
  Chain slots head (i ∷ l) =
      (next : Option ℕ) × (head ≡ some i) × Fresh i l × IsPending slots i next × Chain slots next l

  -- An empty slot is not pending, and an occupied one has a later generation left.
  abbrev pub SlotFits : RootSlot V → Type 0
  SlotFits s =
      ((s.value ≡ none) × (s.release ≡ live_root) × (s.generation ≤ max_generation))
      ⊎ ((is_some s.value ≡ true) × (s.generation < max_generation))

  abbrev pub occupied : RootSlot V → Bool
  occupied s = is_some s.value

  abbrev pub awaiting : RootSlot V → Bool
  awaiting s = not (is_live s.release)

  -- An empty slot whose generations are used up.
  abbrev pub retired : RootSlot V → Bool
  retired s = not (is_some s.value) && s.generation == max_generation

  pub record IsSound (self : RootRegistry V) : Type 0 where
    pub chain : List ℕ
    pub linked : Chain self.slots self.pending_head chain
    pub free_list : FreeList self.slots self.free
    pub fits : (i : ℕ) (s : RootSlot V) → get_elem? self.slots i ≡ some s → SlotFits s
    pub live_counted : self.live ≡ count occupied self.slots
    pub pending_length : self.pending ≡ length chain
    pub pending_counted : count awaiting self.slots ≡ length chain
    pub room : length self.slots ≤ self.limit
    pub shared_out :
        count occupied self.slots + count retired self.slots + length self.free ≡ length self.slots

  pub Chain-set :
      (slots : List (RootSlot V)) (head : Option ℕ) (l : List ℕ) (i : ℕ) (t : RootSlot V)
      → Chain slots head l
      → Fresh i l
      → Chain (set slots i t) head l
  Chain-set slots head [] i t c f = c
  Chain-set slots head (j ∷ l) i t (next, h, fresh, (s, at, v, r), c) f = (
    next,
    h,
    fresh,
    (s, get-set-other slots i j t f.0 ∙ at, v, r),
    Chain-set slots next l i t c f.1,
  )

  pub FreeList-set :
      (slots : List (RootSlot V)) (l : List ℕ) (i : ℕ) (t : RootSlot V)
      → FreeList slots l
      → Fresh i l
      → FreeList (set slots i t) l
  FreeList-set slots [] i t c f = tt
  FreeList-set slots (j ∷ l) i t ((s, at, n, r, g), fresh, c) f =
      ((s, get-set-other slots i j t f.0 ∙ at, n, r, g), fresh, FreeList-set slots l i t c f.1)

  live-ne-pending :
      {s t : RootSlot V} {next : Option ℕ}
      → s.release ≡ pending_root next
      → t.release ≡ live_root
      → t ≡ s
      → ⊥
  live-ne-pending p q e = ground arith

  empty-ne-occupied : {s t : RootSlot V} → s.value ≡ none → is_some t.value ≡ true → t ≡ s → ⊥
  empty-ne-occupied p q e = ground arith

  pub Chain-Fresh :
      (slots : List (RootSlot V)) (head : Option ℕ) (l : List ℕ) (i : ℕ) (s : RootSlot V)
      → Chain slots head l
      → get_elem? slots i ≡ some s
      → s.release ≡ live_root
      → Fresh i l
  Chain-Fresh slots head [] i s c at r = tt
  Chain-Fresh slots head (j ∷ l) i s (next, h, fresh, (s', at', v, r'), c) at r = (
    λ e. live-ne-pending r' r (sym (some-injective (sym at' ∙ ap (get_elem? slots) e ∙ at))),
    Chain-Fresh slots next l i s c at r,
  )

  pub FreeList-Fresh :
      (slots : List (RootSlot V)) (l : List ℕ) (i : ℕ) (s : RootSlot V)
      → FreeList slots l
      → get_elem? slots i ≡ some s
      → is_some s.value ≡ true
      → Fresh i l
  FreeList-Fresh slots [] i s c at v = tt
  FreeList-Fresh slots (j ∷ l) i s ((s', at', n, r, g), fresh, c) at v = (
    λ e. empty-ne-occupied n v (sym (some-injective (sym at' ∙ ap (get_elem? slots) e ∙ at))),
    FreeList-Fresh slots l i s c at v,
  )

  pub new-IsSound : (limit : ℕ) → IsSound (new {V = V} limit)
  new-IsSound limit = record {
    chain = [];
    linked = refl;
    free_list = tt;
    fits = λ i s h. absurd (none-some h);
    live_counted = refl;
    pending_length = refl;
    pending_counted = refl;
    room = omega arith;
    shared_out = refl;
  }
