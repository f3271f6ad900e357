-- ===== src/Testkit/SlotMap.antt =====
-- testkit/src/model.rs: the generational slot map of the deterministic backend. The free list is a
-- stack with its top first.
pub mod Laws
use rust_jsi.Base.{
  ℕ, if◌then◌else◌, ◌==◌, List, [], ◌∷◌, ◌++◌, length, Option, none, some, Outcome, returned,
  panicked, Method,
}
use rust_jsi.Base.Slots.{get_elem?, set}
use rust_jsi.Jsc.Generations.{max_generation, saturating_succ}

pub record Slot (T : Type 0) : Type 0 where
  pub generation : ℕ
  pub value : Option T

pub record SlotMap (T : Type 0) : Type 0 where
  pub slots : List (Slot T)
  pub free : List ℕ

abbrev pub empty : {T : Type 0} → SlotMap T
empty = record { slots = []; free = [] }

module _ {T : Type 0} where
  abbrev pub reuse : T → ℕ → Option (Slot T) → Method (SlotMap T) (ℕ × ℕ)
  reuse value index none self = (self, panicked)
  reuse value index (some slot) self = (
    record self { slots = set self.slots index (record slot { value = some value }) },
    returned (index, slot.generation),
  )

  abbrev pub insert_by : T → List ℕ → Method (SlotMap T) (ℕ × ℕ)
  insert_by value [] self = (
    record self { slots = self.slots ++ record { generation = 1; value = some value } ∷ [] },
    returned (length self.slots, 1),
  )
  insert_by value (index ∷ free) self =
      reuse value index (get_elem? self.slots index) (record self { free = free })

  unfoldable pub insert : T → Method (SlotMap T) (ℕ × ℕ)
  insert value self = insert_by value self.free self

  abbrev pub get_from : ℕ → Option (Slot T) → Option T
  get_from generation none = none
  get_from generation (some slot) = if slot.generation == generation then slot.value else none

  unfoldable pub get : SlotMap T → ℕ → ℕ → Option T
  get self index generation = get_from generation (get_elem? self.slots index)

  abbrev pub take_value : ℕ → Slot T → Option T → SlotMap T → SlotMap T × Option T
  take_value index slot none self = (self, none)
  take_value index slot (some value) self =
      let generation = saturating_succ slot.generation in
      (
        record self {
          slots = set self.slots index (record { generation = generation; value = none });
          free = if generation == max_generation then self.free else index ∷ self.free;
        },
        some value,
      )

  abbrev pub remove_from : ℕ → ℕ → Option (Slot T) → SlotMap T → SlotMap T × Option T
  remove_from index generation none self = (self, none)
  remove_from index generation (some slot) self =
      if slot.generation == generation then take_value index slot slot.value self else (self, none)

  unfoldable pub remove : ℕ → ℕ → SlotMap T → SlotMap T × Option T
  remove index generation self = remove_from index generation (get_elem? self.slots index) self

  abbrev pub values : List (Slot T) → List (Option T)
  values [] = []
  values (slot ∷ slots) = slot.value ∷ values slots

  unfoldable pub iter : SlotMap T → List (Option T)
  iter self = values self.slots
