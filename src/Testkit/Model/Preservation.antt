-- ===== src/Testkit/Model/Preservation.antt =====
-- testkit/src/model.rs: the calls of a scope keep what holds of it.
use rust_jsi.Base.{
  ℕ, ◌≡◌, ◌⊎◌, inl, inr, refl, sym, ap, subst, ◌∙◌, true, is_some, Outcome, returned,
}
use rust_jsi.Testkit.SlotMap
use rust_jsi.Testkit.SlotMap.{SlotMap}
use rust_jsi.Testkit.SlotMap.Laws.{Inserted, insert-Inserted}
use rust_jsi.Testkit.Model.Entries.{ModelValueEntry}
use rust_jsi.Testkit.Model.{
  ValueId, ModelScope, contains, insert_local, is_rooted, insert, inserted,
}
use rust_jsi.Testkit.Model.Members.{contains-insert_local, insert_local-contains}
use rust_jsi.Testkit.Model.Live.{id_at, Names, IsLive, same_handle}
use rust_jsi.Testkit.Model.Dropping.{none-is_some}

module _ {F : Type 0} where
  -- A new entry and its local value.
  abbrev pub Created :
      ModelScope F → ModelValueEntry F → ℕ → ℕ → SlotMap (ModelValueEntry F) → Type 0
  unfolding insert
  Created s entry i g r =
      let s' : ModelScope F = record s {
        values = r;
        locals = insert_local (id_at s i g) s.locals;
      } in
      (insert entry s ≡ (s', returned (id_at s i g))) × IsLive s'

  pub insert_local-Names :
      (s : ModelScope F) (w v : ValueId)
      → IsLive s
      → Names s w
      → contains (insert_local w s.locals) v ≡ true
      → Names s v
  insert_local-Names s w v live named h = elim (contains-insert_local w v s.locals h) [
    | inl e ↦ subst (Names s) e named
    | inr old ↦ live.locals_name v old
  ]

  Names-kept :
      (s : ModelScope F) (e : ModelValueEntry F) (i g : ℕ) (r : SlotMap (ModelValueEntry F))
      (v : ValueId)
      → Inserted s.values e i g r
      → Names s v
      → Names (record s { values = r; locals = insert_local (id_at s i g) s.locals }) v
  Names-kept s e i g r v (made, sound, free, found, others) (b, named) =
      elim (same_handle i g v.slot v.generation) [
        | inr other ↦ (b, ap is_some (others v.slot v.generation other) ∙ named)
        | inl (p, q) ↦ absurd (
            none-is_some
              (ap (λ (x : ℕ). SlotMap.get s.values x v.generation) p
                ∙ ap (SlotMap.get s.values i) q
                ∙ free)
              named)
      ]

  new-Names :
      (s : ModelScope F) (e : ModelValueEntry F) (i g : ℕ) (r : SlotMap (ModelValueEntry F))
      → Inserted s.values e i g r
      → Names (record s { values = r; locals = insert_local (id_at s i g) s.locals }) (id_at s i g)
  new-Names s e i g r (made, sound, free, found, others) = (refl, ap is_some found)

  created-owned :
      (s : ModelScope F) (e : ModelValueEntry F) (i g : ℕ) (r : SlotMap (ModelValueEntry F))
      → IsLive s
      → Inserted s.values e i g r
      → (j h : ℕ) → is_some (SlotMap.get r j h) ≡ true
      → (contains (insert_local (id_at s i g) s.locals) (id_at s j h) ≡ true)
        ⊎ (is_rooted s (id_at s j h) ≡ true)
  created-owned s e i g r live (made, sound, free, found, others) j h named =
      elim (same_handle i g j h) [
        | inl (p, q) ↦ inl (
            insert_local-contains (id_at s i g) (id_at s j h) s.locals
              (inl (sym (ap (λ (x : ℕ). id_at s x h) p ∙ ap (id_at s i) q))))
        | inr other ↦ elim (live.is_owned.owned j h (ap is_some (sym (others j h other)) ∙ named)) [
          | inl listed ↦
              inl (insert_local-contains (id_at s i g) (id_at s j h) s.locals (inr listed))
          | inr rooted ↦ inr rooted
        ]
      ]

  pub insert-Created :
      (s : ModelScope F) (e : ModelValueEntry F)
      → IsLive s
      → (i g : ℕ) × (r : SlotMap (ModelValueEntry F)) × Created s e i g r
  unfolding insert is_rooted
  insert-Created s e live =
      let (i, g, r, made) = insert-Inserted s.values e live.is_owned.values_sound in
      (
        i,
        g,
        r,
        (
          ap (inserted s) made.0,
          record {
            is_owned = record {
              values_sound = made.1;
              roots_sound = live.is_owned.roots_sound;
              roots_name =
                  λ j h v at. Names-kept s e i g r v made (live.is_owned.roots_name j h v at);
              owned = created-owned s e i g r live made;
            };
            locals_name = λ v h. elim (contains-insert_local (id_at s i g) v s.locals h) [
              | inl f ↦
                  subst
                    (Names (record s { values = r; locals = insert_local (id_at s i g) s.locals }))
                    f (new-Names s e i g r made)
              | inr old ↦ Names-kept s e i g r v made (live.locals_name v old)
            ];
          },
        ),
      )

  pub insert-IsLive : (s : ModelScope F) (e : ModelValueEntry F) → IsLive s → IsLive (insert e s).0
  unfolding Created
  insert-IsLive s e live =
      let (i, g, r, created) = insert-Created s e live in
      subst (λ (p : ModelScope F × Outcome ValueId). IsLive p.0) (sym created.0) created.1
