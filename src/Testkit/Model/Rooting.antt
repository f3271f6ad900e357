-- ===== src/Testkit/Model/Rooting.antt =====
-- testkit/src/model.rs: the calls on roots keep what holds of a scope.
use rust_jsi.Base.{ℕ, ◌≡◌, inl, inr, sym, ap, subst, ◌∙◌, true, some, returned}
use rust_jsi.Base.Slots.{none-some, some-injective}
use rust_jsi.Testkit.SlotMap
use rust_jsi.Testkit.SlotMap.{SlotMap}
use rust_jsi.Testkit.SlotMap.Laws.{Inserted, insert-Inserted}
use rust_jsi.Testkit.Model.{ValueId, ModelScope, insert_local, is_rooted}
use rust_jsi.Testkit.Model.Members.{insert_local-contains, is_rooted-root, root-is_rooted}
use rust_jsi.Testkit.Model.Live.{id_at, Names, IsLive, same_handle}
use rust_jsi.Testkit.Model.Preservation.{insert_local-Names}

module _ {F : Type 0} where
  new_root-IsRooted :
      (s : ModelScope F) (v w : ValueId) (i g : ℕ) (r : SlotMap ValueId)
      → Inserted s.roots v i g r
      → is_rooted s w ≡ true
      → is_rooted (record s { roots = r }) w ≡ true
  new_root-IsRooted s v w i g r (made, sound, free, found, others) h =
      let (j, k, at) = is_rooted-root s w h in
      elim (same_handle i g j k) [
        | inr other ↦ root-is_rooted (record s { roots = r }) j k w (others j k other ∙ at)
        | inl (p, q) ↦ absurd (
            none-some (
              sym free
              ∙ sym (ap (λ (x : ℕ). SlotMap.get s.roots x k) p ∙ ap (SlotMap.get s.roots i) q)
              ∙ at))
      ]

  new_root-Names :
      (s : ModelScope F) (v : ValueId) (i g : ℕ) (r : SlotMap ValueId)
      → IsLive s
      → Names s v
      → Inserted s.roots v i g r
      → (j k : ℕ) (w : ValueId) → SlotMap.get r j k ≡ some w
      → Names s w
  new_root-Names s v i g r live named (made, sound, free, found, others) j k w at =
      elim (same_handle i g j k) [
        | inr other ↦ live.is_owned.roots_name j k w (sym (others j k other) ∙ at)
        | inl (p, q) ↦
            subst (Names s)
              (some-injective (
                sym found
                ∙ sym (ap (λ (x : ℕ). SlotMap.get r x k) p ∙ ap (SlotMap.get r i) q)
                ∙ at))
              named
      ]

  pub rooted-IsLive :
      (s : ModelScope F) (v : ValueId)
      → IsLive s
      → Names s v
      → (i g : ℕ) × (r : SlotMap ValueId) × (SlotMap.insert v s.roots ≡ (r, returned (i, g)))
        × (SlotMap.get r i g ≡ some v)
        × IsLive (record s { roots = r })
  rooted-IsLive s v live named =
      let (i, g, r, made) = insert-Inserted s.roots v live.is_owned.roots_sound in
      (
        i,
        g,
        r,
        made.0,
        made.3,
        record {
          is_owned = record {
            values_sound = live.is_owned.values_sound;
            roots_sound = made.1;
            roots_name = new_root-Names s v i g r live named made;
            owned = λ j h named'. elim (live.is_owned.owned j h named') [
              | inl listed ↦ inl listed
              | inr old ↦ inr (new_root-IsRooted s v (id_at s j h) i g r made old)
            ];
          };
          locals_name = live.locals_name;
        },
      )

  -- A resolved value is a local value again.
  pub local-IsLive :
      (s : ModelScope F) (v : ValueId)
      → IsLive s
      → Names s v
      → IsLive (record s { locals = insert_local v s.locals })
  unfolding is_rooted
  local-IsLive s v live named = record {
    is_owned = record {
      values_sound = live.is_owned.values_sound;
      roots_sound = live.is_owned.roots_sound;
      roots_name = live.is_owned.roots_name;
      owned = λ i g h. elim (live.is_owned.owned i g h) [
        | inl listed ↦ inl (insert_local-contains v (id_at s i g) s.locals (inr listed))
        | inr old ↦ inr old
      ];
    };
    locals_name = λ w h. insert_local-Names s v w live named h;
  }
