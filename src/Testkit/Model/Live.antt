-- ===== src/Testkit/Model/Live.antt =====
-- testkit/src/model.rs: what holds of a scope of the deterministic backend between its calls.
use rust_jsi.Base.{
  ℕ, ◌≡◌, ◌⊎◌, inl, inr, true, ◌==◌, ==→≡, Bool-cases, List, Option, some, is_some, arith,
}
use rust_jsi.Testkit.SlotMap
use rust_jsi.Testkit.SlotMap.{SlotMap}
use rust_jsi.Testkit.SlotMap.Laws.{Other, IsSound}
use rust_jsi.Testkit.Model.Entries.{ModelValueEntry}
use rust_jsi.Testkit.Model.{ValueId, ModelScope, contains, is_rooted}

pub same_handle : (i g j h : ℕ) → ((j ≡ i) × (h ≡ g)) ⊎ Other i g j h
same_handle i g j h = elim (Bool-cases (j == i)) [
  | inr e ↦ inr (inl (ground arith))
  | inl e ↦ elim (Bool-cases (h == g)) [
    | inl f ↦ inl (==→≡ j i e, ==→≡ h g f)
    | inr f ↦ inr (inr (ground arith))
  ]
]

pub handle-value :
    (v w : ValueId)
    → v.backend ≡ w.backend
    → (w.slot ≡ v.slot) × (w.generation ≡ v.generation)
    → w ≡ v
handle-value v w b h = ground arith

module _ {F : Type 0} where
  -- The entry that an id of this backend names.
  abbrev pub entry : ModelScope F → ValueId → Option (ModelValueEntry F)
  unfolding SlotMap.get
  entry s v = SlotMap.get s.values v.slot v.generation

  abbrev pub id_at : ModelScope F → ℕ → ℕ → ValueId
  id_at s i g = record { backend = s.id; slot = i; generation = g }

  -- An id of this backend that names an entry.
  abbrev pub Names : ModelScope F → ValueId → Type 0
  Names s v = (v.backend ≡ s.id) × (is_some (SlotMap.get s.values v.slot v.generation) ≡ true)

  -- Every root names an entry, and every entry is rooted or one of the listed values.
  pub record IsOwned (l : List ValueId) (s : ModelScope F) : Type 0 where
    pub values_sound : IsSound s.values
    pub roots_sound : IsSound s.roots
    pub roots_name : (i g : ℕ) (v : ValueId) → SlotMap.get s.roots i g ≡ some v → Names s v
    pub owned :
        (i g : ℕ)
        → is_some (SlotMap.get s.values i g) ≡ true
        → (contains l (id_at s i g) ≡ true) ⊎ (is_rooted s (id_at s i g) ≡ true)

  -- Also, the local values name entries.
  pub record IsLive (s : ModelScope F) : Type 0 where
    pub is_owned : IsOwned s.locals s
    pub locals_name : (v : ValueId) → contains s.locals v ≡ true → Names s v
