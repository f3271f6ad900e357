-- ===== src/Testkit/Model/Dropping.antt =====
-- testkit/src/model.rs: values that are removed when no root and no local value names them.
use rust_jsi.Base.{
  ℕ, ◌≡◌, ◌≢◌, ◌⊎◌, inl, inr, refl, sym, ap, subst, ◌∙◌, Bool, true, false, ◌||◌, Bool-cases, List,
  [], ◌∷◌, Option, none, is_some, Option-cases, arith,
}
use rust_jsi.Testkit.SlotMap
use rust_jsi.Testkit.SlotMap.{SlotMap}
use rust_jsi.Testkit.SlotMap.Laws.{Other, IsSound, remove-resolved, remove-unresolved}
use rust_jsi.Testkit.Model.{ValueId, ModelScope, contains, is_rooted, remove_value}
use rust_jsi.Testkit.Model.Calls.{drop_locals, drop_local, drop_scope}
use rust_jsi.Testkit.Model.Members.{same_value_refl, contains-cons, root-is_rooted}
use rust_jsi.Testkit.Model.Live.{id_at, Names, IsOwned, IsLive, same_handle, handle-value}

-- The map without a handle.
abbrev pub Without : {T : Type 0} → SlotMap T → ℕ → ℕ → SlotMap T → Type 0
Without m i g r =
    IsSound r
    × (SlotMap.get r i g ≡ none)
    × ((j h : ℕ) → Other i g j h → SlotMap.get r j h ≡ SlotMap.get m j h)

pub remove-Without :
    {T : Type 0} (m : SlotMap T) (i g : ℕ) → IsSound m → Without m i g (SlotMap.remove i g m).0
remove-Without m i g sound = elim (Option-cases (SlotMap.get m i g)) [
  | inl e ↦
      subst (λ (p : SlotMap _ × Option _). Without m i g p.0) (sym (remove-unresolved m i g e))
        (sound, e, λ j h other. refl)
  | inr (v, e) ↦
      let (r, f, s, n, others) = remove-resolved m i g v sound e in
      subst (λ (p : SlotMap _ × Option _). Without m i g p.0) (sym f) (s, n, others)
]

pub false-true : false ≡ true → ⊥
false-true h = cc

pub none-is_some : {T : Type 0} {o : Option T} → o ≡ none → is_some o ≡ true → ⊥
none-is_some e h = ground arith

pub contains-first : (v : ValueId) (l : List ValueId) → contains (v ∷ l) v ≡ true
contains-first v l = ap (λ (b : Bool). b || contains l v) (same_value_refl v)

pub contains-later :
    (v w : ValueId) (l : List ValueId) → contains l w ≡ true → contains (v ∷ l) w ≡ true
contains-later v w l h = ground arith

module _ {F : Type 0} where
  -- An id other than the removed one names its entry still.
  pub kept-Names :
      (s : ModelScope F) (v w : ValueId)
      → IsSound s.values
      → v.backend ≡ s.id
      → w ≢ v
      → Names s w
      → Names (remove_value v s) w
  unfolding remove_value
  kept-Names s v w sound own n (b, named) =
      let (r, gone, others) = remove-Without s.values v.slot v.generation sound in
      elim (same_handle v.slot v.generation w.slot w.generation) [
        | inl same ↦ absurd (n (handle-value v w (own ∙ sym b) same))
        | inr other ↦ (b, ap is_some (others w.slot w.generation other) ∙ named)
      ]

  Other-value :
      (s : ModelScope F) (v : ValueId) (i g : ℕ) → Other v.slot v.generation i g → v ≢ id_at s i g
  Other-value s v i g (inl n) e = n (sym (ap (λ (x : ValueId). x.slot) e))
  Other-value s v i g (inr n) e = n (sym (ap (λ (x : ValueId). x.generation) e))

  kept-owned :
      (s : ModelScope F) (v : ValueId) (l : List ValueId)
      → IsOwned (v ∷ l) s
      → (i g : ℕ) → is_some (SlotMap.get (remove_value v s).values i g) ≡ true
      → (contains l (id_at s i g) ≡ true) ⊎ (is_rooted s (id_at s i g) ≡ true)
  unfolding remove_value
  kept-owned s v l b i g h =
      let r = (SlotMap.remove v.slot v.generation s.values).0 in
      let (sound, gone, others) = remove-Without s.values v.slot v.generation b.values_sound in
      elim (same_handle v.slot v.generation i g) [
        | inl (e, f) ↦ absurd (
            none-is_some (ap (λ (x : ℕ). SlotMap.get r x g) e ∙ ap (SlotMap.get r v.slot) f ∙ gone)
              h)
        | inr other ↦ elim (b.owned i g (ap is_some (sym (others i g other)) ∙ h)) [
          | inr rooted ↦ inr rooted
          | inl listed ↦ elim (contains-cons v (id_at s i g) l listed) [
            | inl e ↦ absurd (Other-value s v i g other e)
            | inr there ↦ inl there
          ]
        ]
      ]

  not_rooted :
      (s : ModelScope F) (v w : ValueId) → is_rooted s v ≡ false → is_rooted s w ≡ true → w ≢ v
  not_rooted s v w free rooted e = false-true (sym free ∙ sym (ap (is_rooted s) e) ∙ rooted)

  pub remove_value-IsOwned :
      (s : ModelScope F) (v : ValueId) (l : List ValueId)
      → v.backend ≡ s.id
      → is_rooted s v ≡ false
      → IsOwned (v ∷ l) s
      → IsOwned l (remove_value v s)
  unfolding remove_value is_rooted
  remove_value-IsOwned s v l own free b = record {
    values_sound = (remove-Without s.values v.slot v.generation b.values_sound).0;
    roots_sound = b.roots_sound;
    roots_name = λ i g w h.
        kept-Names s v w b.values_sound own (not_rooted s v w free (root-is_rooted s i g w h))
          (b.roots_name i g w h);
    owned = kept-owned s v l b;
  }

  -- A rooted value need not be listed.
  pub rooted-IsOwned :
      (s : ModelScope F) (v : ValueId) (l : List ValueId)
      → is_rooted s v ≡ true
      → IsOwned (v ∷ l) s
      → IsOwned l s
  rooted-IsOwned s v l rooted b = record {
    values_sound = b.values_sound;
    roots_sound = b.roots_sound;
    roots_name = b.roots_name;
    owned = λ i g h. elim (b.owned i g h) [
      | inr r ↦ inr r
      | inl listed ↦ elim (contains-cons v (id_at s i g) l listed) [
        | inl e ↦ inr (sym (ap (is_rooted s) e) ∙ rooted)
        | inr there ↦ inl there
      ]
    ];
  }

  drop_local-IsOwned :
      (s : ModelScope F) (v : ValueId) (l : List ValueId)
      → v.backend ≡ s.id
      → IsOwned (v ∷ l) s
      → IsOwned l (drop_local v s)
        × ((drop_local v s).id ≡ s.id)
        × ((drop_local v s).roots ≡ s.roots)
  unfolding drop_local
  drop_local-IsOwned s v l own b = elim (Bool-cases (is_rooted s v)) [
    | inl e ↦ rw e (rooted-IsOwned s v l e b, refl, refl)
    | inr e ↦ rw e (
      remove_value-IsOwned s v l own e b,
      unfold remove_value in refl,
      unfold remove_value in refl,
    )
  ]

  unlisted : (s : ModelScope F) → IsOwned s.locals s → IsOwned s.locals (record s { locals = [] })
  unfolding is_rooted
  unlisted s b = record {
    values_sound = b.values_sound;
    roots_sound = b.roots_sound;
    roots_name = b.roots_name;
    owned = b.owned;
  }

  drop_locals-IsOwned :
      (l : List ValueId) (s : ModelScope F)
      → ((v : ValueId) → contains l v ≡ true → v.backend ≡ s.id)
      → IsOwned l s
      → IsOwned [] (drop_locals l s)
        × ((drop_locals l s).id ≡ s.id)
        × ((drop_locals l s).roots ≡ s.roots)
  unfolding drop_locals
  drop_locals-IsOwned [] s own b = (b, refl, refl)
  drop_locals-IsOwned (v ∷ l) s own b =
      let (c, i, r) = drop_local-IsOwned s v l (own v (contains-first v l)) b in
      let (d, i', r') =
        drop_locals-IsOwned l (drop_local v s) (λ w h. own w (contains-later v w l h) ∙ sym i) c in
      (d, i' ∙ i, r' ∙ r)

  -- Without its local values, a scope keeps the entries that its roots name and no other.
  pub drop_scope-IsOwned :
      (s : ModelScope F)
      → IsLive s
      → IsOwned [] (drop_scope s) × ((drop_scope s).id ≡ s.id) × ((drop_scope s).roots ≡ s.roots)
  unfolding drop_scope
  drop_scope-IsOwned s live =
      drop_locals-IsOwned s.locals (record s { locals = [] }) (λ v h. (live.locals_name v h).0)
        (unlisted s live.is_owned)
