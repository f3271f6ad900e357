-- ===== src/Testkit/Model/Members.antt =====
-- testkit/src/model.rs: the members of a scope's local values and of the roots.
use rust_jsi.Base.{
  ℕ, zero, suc, ◌≡◌, ◌⊎◌, inl, inr, refl, sym, ap, subst, ◌∙◌, Bool, true, false, ◌||◌, Bool-cases,
  List, [], ◌∷◌, Option, none, some, Option-cases, arith,
}
use rust_jsi.Base.Slots.{get_elem?, none-some, some-injective}
use rust_jsi.Testkit.SlotMap
use rust_jsi.Testkit.SlotMap.{SlotMap, Slot}
use rust_jsi.Testkit.Model.{
  ValueId, ModelScope, same_value, contains, insert_local, any_rooted, is_rooted,
}

pub same_value→≡ : (a b : ValueId) → same_value a b ≡ true → a ≡ b
same_value→≡ a b h = ground arith

pub same_value_refl : (a : ValueId) → same_value a a ≡ true
same_value_refl a = ground arith

pub contains-cons :
    (x v : ValueId) (l : List ValueId) → contains (x ∷ l) v ≡ true → (x ≡ v) ⊎ (contains l v ≡ true)
contains-cons x v l h = elim (Bool-cases (same_value x v)) [
  | inl e ↦ inl (same_value→≡ x v e)
  | inr e ↦ inr (ground arith)
]

insert_old : (x : ValueId) (l : List ValueId) → contains l x ≡ true → insert_local x l ≡ l
insert_old x l e = rw e refl

insert_new : (x : ValueId) (l : List ValueId) → contains l x ≡ false → insert_local x l ≡ x ∷ l
insert_new x l e = rw e refl

pub contains-insert_local :
    (x v : ValueId) (l : List ValueId)
    → contains (insert_local x l) v ≡ true
    → (x ≡ v) ⊎ (contains l v ≡ true)
contains-insert_local x v l h = elim (Bool-cases (contains l x)) [
  | inl e ↦ inr (subst (λ (m : List ValueId). contains m v ≡ true) (insert_old x l e) h)
  | inr e ↦
      contains-cons x v l (subst (λ (m : List ValueId). contains m v ≡ true) (insert_new x l e) h)
]

pub or_true : (a b : Bool) → b ≡ true → (a || b) ≡ true
or_true a b h = ground arith

insert_local_self : (x : ValueId) (l : List ValueId) → contains (insert_local x l) x ≡ true
insert_local_self x l = elim (Bool-cases (contains l x)) [
  | inl e ↦ rw e e
  | inr e ↦ rw (e, same_value_refl x) refl
]

pub insert_local-contains :
    (x v : ValueId) (l : List ValueId)
    → (x ≡ v) ⊎ (contains l v ≡ true)
    → contains (insert_local x l) v ≡ true
insert_local-contains x v l (inl e) =
    subst (λ (u : ValueId). contains (insert_local x l) u ≡ true) e (insert_local_self x l)
insert_local-contains x v l (inr h) = elim (Bool-cases (contains l x)) [
  | inl e ↦ rw e h
  | inr e ↦ rw e (or_true (same_value x v) (contains l v) h)
]

any-cons :
    (o : Option ValueId) (l : List (Option ValueId)) (v : ValueId)
    → any_rooted (o ∷ l) v ≡ true
    → (o ≡ some v) ⊎ (any_rooted l v ≡ true)
any-cons none l v h = inr h
any-cons (some w) l v h = elim (Bool-cases (same_value w v)) [
  | inl e ↦ inl (ap some (same_value→≡ w v e))
  | inr e ↦ inr (ground arith)
]

any-here :
    (o : Option ValueId) (l : List (Option ValueId)) (v : ValueId)
    → o ≡ some v
    → any_rooted (o ∷ l) v ≡ true
any-here none l v e = absurd (none-some e)
any-here (some w) l v e = rw (some-injective e, same_value_refl v) refl

any-there :
    (o : Option ValueId) (l : List (Option ValueId)) (v : ValueId)
    → any_rooted l v ≡ true
    → any_rooted (o ∷ l) v ≡ true
any-there none l v h = h
any-there (some w) l v h = or_true (same_value w v) (any_rooted l v) h

-- A root of the list is one of a slot, and the other way.
any_rooted-slot :
    (slots : List (Slot ValueId)) (v : ValueId)
    → any_rooted (SlotMap.values slots) v ≡ true
    → (i : ℕ) × (s : Slot ValueId) × (get_elem? slots i ≡ some s) × (s.value ≡ some v)
any_rooted-slot [] v h = absurd (ground arith)
any_rooted-slot (x ∷ slots) v h = elim (any-cons x.value (SlotMap.values slots) v h) [
  | inl e ↦ (zero, x, refl, e)
  | inr e ↦ let (i, s, at, f) = any_rooted-slot slots v e in (suc i, s, at, f)
]

slot-any_rooted :
    (slots : List (Slot ValueId)) (i : ℕ) (s : Slot ValueId) (v : ValueId)
    → get_elem? slots i ≡ some s
    → s.value ≡ some v
    → any_rooted (SlotMap.values slots) v ≡ true
slot-any_rooted [] i s v at e = absurd (none-some at)
slot-any_rooted (x ∷ slots) zero s v at e =
    any-here x.value (SlotMap.values slots) v
      (ap (λ (t : Slot ValueId). t.value) (some-injective at) ∙ e)
slot-any_rooted (x ∷ slots) (suc i) s v at e =
    any-there x.value (SlotMap.values slots) v (slot-any_rooted slots i s v at e)

own_generation :
    (t : Slot ValueId) (v : ValueId)
    → t.value ≡ some v
    → SlotMap.get_from t.generation (some t) ≡ some v
own_generation t v e = ground arith

found_value :
    (t : Slot ValueId) (g : ℕ) (v : ValueId)
    → SlotMap.get_from g (some t) ≡ some v
    → t.value ≡ some v
found_value t g v h = ground arith

module _ {F : Type 0} where
  pub is_rooted-root :
      (s : ModelScope F) (v : ValueId)
      → is_rooted s v ≡ true
      → (i g : ℕ) × (SlotMap.get s.roots i g ≡ some v)
  unfolding is_rooted SlotMap.iter SlotMap.get
  is_rooted-root s v h =
      let (i, t, at, e) = any_rooted-slot s.roots.slots v h in
      (i, t.generation, ap (SlotMap.get_from t.generation) at ∙ own_generation t v e)

  pub root-is_rooted :
      (s : ModelScope F) (i g : ℕ) (v : ValueId)
      → SlotMap.get s.roots i g ≡ some v
      → is_rooted s v ≡ true
  unfolding is_rooted SlotMap.iter SlotMap.get
  root-is_rooted s i g v h = elim (Option-cases (get_elem? s.roots.slots i)) [
    | inl e ↦ absurd (none-some (sym (ap (SlotMap.get_from g) e) ∙ h))
    | inr (t, at) ↦
        slot-any_rooted s.roots.slots i t v at
          (found_value t g v (sym (ap (SlotMap.get_from g) at) ∙ h))
  ]
