-- ===== src/Testkit/Model/Releasing.antt =====
-- testkit/src/model.rs: what holds of a scope, kept by every call and left behind by its drop.
use rust_jsi.Base.{
  ℕ, ◌≡◌, ◌⊎◌, inl, inr, refl, sym, ap, subst, ◌∙◌, true, false, ◌==◌, ==→≡, Bool-cases, List, [],
  ◌∷◌, Option, some, is_some, Option-cases, Result, ok, err, Outcome, arith,
}
use rust_jsi.Base.Slots.{none-some, some-injective}
use rust_jsi.Backend.Errors.{BackendError, ValueKind}
use rust_jsi.Testkit.SlotMap
use rust_jsi.Testkit.SlotMap.{SlotMap}
use rust_jsi.Testkit.SlotMap.Laws.{IsSound, empty-IsSound, remove-resolved, remove-unresolved}
use rust_jsi.Testkit.Model.Entries.{ModelValueEntry}
use rust_jsi.Testkit.Model.{
  ValueId, ModelRoot, ModelScope, contains, is_rooted, remove_value, validate,
}
use rust_jsi.Testkit.Model.Calls.{
  rooted, persist_checked, resolved, released, persist, resolve, release, drop_scope,
}
use rust_jsi.Testkit.Model.Members.{contains-cons, is_rooted-root, root-is_rooted}
use rust_jsi.Testkit.Model.Live.{id_at, Names, IsOwned, IsLive, same_handle}
use rust_jsi.Testkit.Model.Dropping.{
  remove_value-IsOwned, rooted-IsOwned, Without, kept-Names, contains-later, contains-first,
  drop_scope-IsOwned, false-true, none-is_some,
}
use rust_jsi.Testkit.Model.Preservation.{Created, insert-Created}
use rust_jsi.Testkit.Model.Rooting.{rooted-IsLive, local-IsLive}

module _ {F : Type 0} where
  validate-Names :
      (s : ModelScope F) (v : ValueId) (k : ValueKind) → validate s v ≡ ok k → Names s v
  unfolding validate
  validate-Names s v k h = elim (Bool-cases (v.backend == s.id)) [
    | inr e ↦ ground arith
    | inl e ↦ (==→≡ v.backend s.id e, ground arith)
  ]

  unrooted-or :
      (s : ModelScope F) (v w : ValueId) (i g : ℕ) (r : SlotMap ValueId)
      → SlotMap.get s.roots i g ≡ some v
      → Without s.roots i g r
      → is_rooted s w ≡ true
      → (v ≡ w) ⊎ (is_rooted (record s { roots = r }) w ≡ true)
  unrooted-or s v w i g r found (sound, gone, others) h =
      let (j, k, at) = is_rooted-root s w h in
      elim (same_handle i g j k) [
        | inr other ↦ inr (root-is_rooted (record s { roots = r }) j k w (others j k other ∙ at))
        | inl (p, q) ↦ inl (
            some-injective (
              sym found
              ∙ sym (ap (λ (x : ℕ). SlotMap.get s.roots x k) p ∙ ap (SlotMap.get s.roots i) q)
              ∙ at))
      ]

  -- Without a root, its value is owned where it is listed.
  unrooted-IsOwned :
      (s : ModelScope F) (v : ValueId) (i g : ℕ) (r : SlotMap ValueId)
      → SlotMap.get s.roots i g ≡ some v
      → Without s.roots i g r
      → IsLive s
      → IsOwned (v ∷ s.locals) (record s { roots = r })
  unrooted-IsOwned s v i g r found (sound, gone, others) live = record {
    values_sound = live.is_owned.values_sound;
    roots_sound = sound;
    roots_name = λ j k w at. elim (same_handle i g j k) [
      | inr other ↦ live.is_owned.roots_name j k w (sym (others j k other) ∙ at)
      | inl (p, q) ↦ absurd (
          none-some
            (sym gone ∙ sym (ap (λ (x : ℕ). SlotMap.get r x k) p ∙ ap (SlotMap.get r i) q) ∙ at))
    ];
    owned = λ j h named. elim (live.is_owned.owned j h named) [
      | inl listed ↦ inl (contains-later v (id_at s j h) s.locals listed)
      | inr old ↦ elim (unrooted-or s v (id_at s j h) i g r found (sound, gone, others) old) [
        | inl e ↦ inl (
            subst (λ (w : ValueId). contains (v ∷ s.locals) w ≡ true) e (contains-first v s.locals))
        | inr still ↦ inr still
      ]
    ];
  }

  listed-IsOwned :
      (s : ModelScope F) (v : ValueId) (l : List ValueId)
      → contains l v ≡ true
      → IsOwned (v ∷ l) s
      → IsOwned l s
  listed-IsOwned s v l listed b = record {
    values_sound = b.values_sound;
    roots_sound = b.roots_sound;
    roots_name = b.roots_name;
    owned = λ i g h. elim (b.owned i g h) [
      | inr old ↦ inr old
      | inl e ↦ elim (contains-cons v (id_at s i g) l e) [
        | inl f ↦ inl (subst (λ (w : ValueId). contains l w ≡ true) f listed)
        | inr there ↦ inl there
      ]
    ];
  }

  removed-IsLive :
      (s : ModelScope F) (v : ValueId)
      → contains s.locals v ≡ false
      → is_rooted s v ≡ false
      → v.backend ≡ s.id
      → IsOwned (v ∷ s.locals) s
      → ((w : ValueId) → contains s.locals w ≡ true → Names s w)
      → IsLive (remove_value v s)
  removed-IsLive s v absent free own b names = record {
    is_owned = unfold remove_value in remove_value-IsOwned s v s.locals own free b;
    locals_name = λ w h.
        kept-Names s v w b.values_sound own
          (λ e. false-true (sym absent ∙ sym (ap (contains s.locals) e) ∙ unfold remove_value in h))
          (names w (unfold remove_value in h));
  }

  release_value :
      (s : ModelScope F) (v : ValueId) (r : SlotMap ValueId)
      → v.backend ≡ s.id
      → IsOwned (v ∷ s.locals) (record s { roots = r })
      → ((w : ValueId) → contains s.locals w ≡ true → Names s w)
      → IsLive (released (r, some v) s).0
  unfolding released
  release_value s v r own b names = elim (Bool-cases (contains s.locals v)) [
    | inl e ↦ rw e (record {
      is_owned = listed-IsOwned (record s { roots = r }) v s.locals e b;
      locals_name = names;
    })
    | inr e ↦ elim (Bool-cases (is_rooted (record s { roots = r }) v)) [
      | inl f ↦
          rw (e, f)
            (record {
              is_owned = rooted-IsOwned (record s { roots = r }) v s.locals f b;
              locals_name = names;
            })
      | inr f ↦ rw (e, f) (removed-IsLive (record s { roots = r }) v e f own b names)
    ]
  ]

  released-IsLive :
      (s : ModelScope F) (i g : ℕ) → IsLive s → IsLive (released (SlotMap.remove i g s.roots) s).0
  unfolding released
  released-IsLive s i g live = elim (Option-cases (SlotMap.get s.roots i g)) [
    | inl e ↦
        subst (λ (p : SlotMap ValueId × Option ValueId). IsLive (released p s).0)
          (sym (remove-unresolved s.roots i g e)) live
    | inr (v, e) ↦
        let (r, f, sound, gone, others) =
          remove-resolved s.roots i g v live.is_owned.roots_sound e in
        subst (λ (p : SlotMap ValueId × Option ValueId). IsLive (released p s).0) (sym f)
          (release_value s v r (live.is_owned.roots_name i g v e).0
            (unrooted-IsOwned s v i g r e (sound, gone, others) live) live.locals_name)
  ]

  release-IsLive : (s : ModelScope F) (root : ModelRoot) → IsLive s → IsLive (release root s).0
  unfolding release
  release-IsLive s root live = elim (Bool-cases (root.backend == s.id)) [
    | inl e ↦ rw e (released-IsLive s root.slot root.generation live)
    | inr e ↦ rw e live
  ]

  found-IsLive :
      (s : ModelScope F) (v : ValueId)
      → v.backend ≡ s.id
      → IsLive s
      → IsLive (resolved (some v) s).0
  found-IsLive s v own live =
      elim (Bool-cases (is_some (SlotMap.get s.values v.slot v.generation))) [
        | inl e ↦ rw e (local-IsLive s v live (own, e))
        | inr e ↦ rw e live
      ]

  resolved-IsLive :
      (s : ModelScope F) (i g : ℕ) → IsLive s → IsLive (resolved (SlotMap.get s.roots i g) s).0
  resolved-IsLive s i g live = elim (Option-cases (SlotMap.get s.roots i g)) [
    | inl e ↦ rw e live
    | inr (v, e) ↦ rw e (found-IsLive s v (live.is_owned.roots_name i g v e).0 live)
  ]

  pub resolve-IsLive : (s : ModelScope F) (root : ModelRoot) → IsLive s → IsLive (resolve root s).0
  unfolding resolve
  resolve-IsLive s root live = elim (Bool-cases (root.backend == s.id)) [
    | inl e ↦ rw e (resolved-IsLive s root.slot root.generation live)
    | inr e ↦ rw e live
  ]

  persist_checked-IsLive :
      (s : ModelScope F) (v : ValueId) (o : Result ValueKind BackendError)
      → validate s v ≡ o
      → IsLive s
      → IsLive (persist_checked v o s).0
  persist_checked-IsLive s v (err e) h live = live
  persist_checked-IsLive s v (ok k) h live =
      let (i, g, r, made, found, kept) = rooted-IsLive s v live (validate-Names s v k h) in
      subst (λ (p : SlotMap ValueId × Outcome (ℕ × ℕ)). IsLive (rooted s p).0) (sym made) kept

  pub persist-IsLive : (s : ModelScope F) (v : ValueId) → IsLive s → IsLive (persist v s).0
  unfolding persist
  persist-IsLive s v live = persist_checked-IsLive s v (validate s v) refl live

  -- Where every root and every local value names an entry, and every entry is rooted or local, so it
  -- stays: an insertion makes a local value of an entry and does not panic, and persisting,
  -- resolving and releasing keep it, errors included. The drop of the scope leaves the roots as they
  -- are, every one names an entry still, and there is no entry that is not rooted.
  pub scope_lives :
      (s : ModelScope F)
      → IsLive s
      → ((entry : ModelValueEntry F)
          → (i g : ℕ) × (r : SlotMap (ModelValueEntry F)) × Created s entry i g r)
        × ((v : ValueId) → IsLive (persist v s).0)
        × ((root : ModelRoot) → IsLive (resolve root s).0)
        × ((root : ModelRoot) → IsLive (release root s).0)
        × IsOwned [] (drop_scope s)
        × ((drop_scope s).roots ≡ s.roots)
  scope_lives s live =
      let (b, i, r) = drop_scope-IsOwned s live in
      (
        λ entry. insert-Created s entry live,
        λ v. persist-IsLive s v live,
        λ root. resolve-IsLive s root live,
        λ root. release-IsLive s root live,
        b,
        r,
      )

  -- A scope of a backend without entries.
  pub empty-IsLive :
      (s : ModelScope F)
      → s.values ≡ SlotMap.empty
      → s.roots ≡ SlotMap.empty
      → s.locals ≡ []
      → IsLive s
  unfolding SlotMap.get
  empty-IsLive s v r l = record {
    is_owned = record {
      values_sound = subst IsSound (sym v) empty-IsSound;
      roots_sound = subst IsSound (sym r) empty-IsSound;
      roots_name = λ i g w at.
          absurd (none-some (sym (ap (λ (m : SlotMap ValueId). SlotMap.get m i g) r) ∙ at));
      owned = λ i g h.
          absurd (none-is_some (ap (λ (m : SlotMap (ModelValueEntry F)). SlotMap.get m i g) v) h);
    };
    locals_name = λ w h. absurd (false-true (sym (ap (λ (m : List ValueId). contains m w) l) ∙ h));
  }
