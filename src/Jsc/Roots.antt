-- ===== src/Jsc/Roots.antt =====
-- backend-jsc/src/experimental.rs: the registry of persistent roots. A root is an engine value, of any
-- type `V`; the free list is a stack with its top first; an index out of range, an `unreachable!` and
-- a counter below 0 panic.
pub mod Invariant
pub mod Inserts
pub mod Releases
pub mod Evolution
pub mod Drains
pub mod Results
pub mod Taking
pub mod Turnover
pub mod Calls
pub mod Laws
pub mod Releasing
use rust_jsi.Base.{
  ℕ, zero, suc, ◌+◌, Bool, true, false, ◌&&◌, not, if◌then◌else◌, ◌==◌, leb, List, [], ◌∷◌, ◌++◌,
  length, Option, none, some, is_some, Result, ok, err, Outcome, returned, panicked, Method,
}
use rust_jsi.Base.Slots.{get_elem?, set}
use rust_jsi.Jsc.Errors.{RuntimeError, persistent_root_limit_reached}
use rust_jsi.Jsc.Generations.{max_generation, saturating_succ, decrement}

pub record RootId : Type 0 where
  pub slot : ℕ
  pub generation : ℕ

pub data RootRelease : Type 0 where
  live_root : RootRelease
  pending_root : (next : Option ℕ) → RootRelease

pub record RootSlot (V : Type 0) : Type 0 where
  pub generation : ℕ
  pub value : Option V
  pub release : RootRelease

pub record RootRegistry (V : Type 0) : Type 0 where
  pub slots : List (RootSlot V)
  pub free : List ℕ
  pub pending_head : Option ℕ
  pub live : ℕ
  pub pending : ℕ
  pub limit : ℕ

abbrev pub is_live : RootRelease → Bool
is_live live_root = true
is_live (pending_root next) = false

abbrev pub new : {V : Type 0} → ℕ → RootRegistry V
new limit = record {
  slots = [];
  free = [];
  pending_head = none;
  live = 0;
  pending = 0;
  limit = limit;
}

module _ {V : Type 0} where
  abbrev pub occupy :
      V → ℕ → Option (RootSlot V) → Method (RootRegistry V) (Result RootId RuntimeError)
  occupy value slot none self = (self, panicked)
  occupy value slot (some entry) self = (
    record self {
      slots = set self.slots slot (record entry { value = some value });
      live = self.live + 1;
    },
    returned (ok (record { slot = slot; generation = entry.generation })),
  )

  abbrev pub grow : V → Method (RootRegistry V) (Result RootId RuntimeError)
  grow value self = (
    record self {
      slots = self.slots ++ record { generation = 1; value = some value; release = live_root } ∷ [];
      live = self.live + 1;
    },
    returned (ok (record { slot = length self.slots; generation = 1 })),
  )

  abbrev pub insert_by : V → List ℕ → Method (RootRegistry V) (Result RootId RuntimeError)
  insert_by value [] self =
      if leb self.limit (length self.slots)
      then (self, returned (err persistent_root_limit_reached))
      else grow value self
  insert_by value (slot ∷ free) self =
      occupy value slot (get_elem? self.slots slot) (record self { free = free })

  unfoldable pub insert : V → Method (RootRegistry V) (Result RootId RuntimeError)
  insert value self = insert_by value self.free self

  -- The test that `get`, `remove` and `request_release` make of a slot.
  abbrev pub answers : RootId → RootSlot V → Bool
  answers id slot = slot.generation == id.generation && is_live slot.release

  abbrev pub get_from : RootId → Option (RootSlot V) → Option V
  get_from id none = none
  get_from id (some slot) = if answers id slot then slot.value else none

  unfoldable pub get : RootRegistry V → RootId → Option V
  get self id = get_from id (get_elem? self.slots id.slot)

  abbrev pub retire : ℕ → RootSlot V → V → ℕ → RootRegistry V → RootRegistry V
  retire index slot value live self =
      let generation = saturating_succ slot.generation in
      record self {
        slots = set self.slots index (record slot { value = none; generation = generation });
        live = live;
        free = if generation == max_generation then self.free else index ∷ self.free;
      }

  -- The slot, the value that `take` finds in it and the decremented counter.
  abbrev pub remove_value :
      ℕ → RootSlot V → Option V → Outcome ℕ → Method (RootRegistry V) (Option V)
  remove_value index slot none live self = (self, returned none)
  remove_value index slot (some value) panicked self =
      (record self { slots = set self.slots index (record slot { value = none }) }, panicked)
  remove_value index slot (some value) (returned live) self =
      (retire index slot value live self, returned (some value))

  abbrev pub remove_from : RootId → Option (RootSlot V) → Method (RootRegistry V) (Option V)
  remove_from id none self = (self, returned none)
  remove_from id (some slot) self =
      if answers id slot
      then remove_value id.slot slot slot.value (decrement self.live) self
      else (self, returned none)

  unfoldable pub remove : RootId → Method (RootRegistry V) (Option V)
  remove id self = remove_from id (get_elem? self.slots id.slot) self

  abbrev pub request_from : RootId → Option (RootSlot V) → RootRegistry V → RootRegistry V
  request_from id none self = self
  request_from id (some slot) self =
      if answers id slot && is_some slot.value
      then record self {
        slots = set self.slots id.slot (record slot { release = pending_root self.pending_head });
        pending_head = some id.slot;
        pending = self.pending + 1;
      }
      else self

  unfoldable pub request_release : RootId → RootRegistry V → RootRegistry V
  request_release id self = request_from id (get_elem? self.slots id.slot) self

  -- The unlinked slot is live again when `pending -= 1` is reached.
  abbrev pub unlink :
      ℕ → RootSlot V → Option ℕ → Outcome ℕ → RootRegistry V → RootRegistry V × Outcome RootId
  unlink index slot next panicked self = (
    record self {
      slots = set self.slots index (record slot { release = live_root });
      pending_head = next;
    },
    panicked,
  )
  unlink index slot next (returned pending) self = (
    record self {
      slots = set self.slots index (record slot { release = live_root });
      pending_head = next;
      pending = pending;
    },
    returned (record { slot = index; generation = slot.generation }),
  )

  abbrev pub remove_unlinked : RootRegistry V × Outcome RootId → RootRegistry V × Outcome (Option V)
  unfolding remove
  remove_unlinked (self, panicked) = (self, panicked)
  remove_unlinked (self, returned id) = remove id self

  abbrev pub take_slot : ℕ → RootSlot V → RootRelease → Method (RootRegistry V) (Option V)
  take_slot index slot live_root self = (self, panicked)
  take_slot index slot (pending_root next) self =
      remove_unlinked (unlink index slot next (decrement self.pending) self)

  abbrev pub take_at : ℕ → Option (RootSlot V) → Method (RootRegistry V) (Option V)
  take_at index none self = (self, panicked)
  take_at index (some slot) self = take_slot index slot slot.release self

  abbrev pub take_from : Option ℕ → Method (RootRegistry V) (Option V)
  take_from none self = (self, returned none)
  take_from (some index) self = take_at index (get_elem? self.slots index) self

  unfoldable pub take_pending : Method (RootRegistry V) (Option V)
  take_pending self = take_from self.pending_head self

  abbrev pub drained_slot : RootSlot V → RootSlot V
  drained_slot slot = record {
    release = live_root;
    value = none;
    generation = saturating_succ slot.generation;
  }

  abbrev pub drained_slots : List (RootSlot V) → List (RootSlot V)
  drained_slots [] = []
  drained_slots (slot ∷ slots) = drained_slot slot ∷ drained_slots slots

  abbrev pub push_value : Option V → List V → List V
  push_value none values = values
  push_value (some value) values = value ∷ values

  abbrev pub values : List (RootSlot V) → List V
  values [] = []
  values (slot ∷ slots) = push_value slot.value (values slots)

  -- The indices from `index` on that are pushed, the last one on top of `free`.
  abbrev pub refill : ℕ → List (RootSlot V) → List ℕ → List ℕ
  refill index [] free = free
  refill index (slot ∷ slots) free =
      refill (suc index) slots
        (if saturating_succ slot.generation == max_generation then free else index ∷ free)

  unfoldable pub drain : RootRegistry V → RootRegistry V × List V
  drain self = (
    record self {
      slots = drained_slots self.slots;
      free = refill 0 self.slots [];
      pending_head = none;
      live = 0;
      pending = 0;
    },
    values self.slots,
  )

  abbrev pub counts : RootRegistry V → ℕ × ℕ
  counts self = (self.live, self.pending)
