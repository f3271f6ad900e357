-- ===== src/Jsc/Roots/Turnover.antt =====
-- backend-jsc/src/experimental.rs: what `RootRegistry::insert` and `drain` give and leave.
use rust_jsi.Base.{
  ℕ, ◌+◌, ◌<◌, ◌≡◌, ◌≢◌, ◌⊎◌, inl, inr, refl, sym, ap, subst, ◌∙◌, false, leb, ◌==◌, ==→≡, List, [],
  ◌∷◌, length, Option, none, some, Bool-cases, returned, ok, err, arith,
}
use rust_jsi.Base.Slots.{
  get_elem?, set, get-set-other, get-set-same, get-append-cases, get-append-last, get-last,
}
use rust_jsi.Jsc.Errors.{persistent_root_limit_reached}
use rust_jsi.Jsc.Generations.{max_generation, saturating_succ_lem, count, count-set, count-append}
use rust_jsi.Jsc.Roots.{
  RootId, live_root, RootSlot, RootRegistry, is_live, get, get_from, insert, insert_by, grow,
  occupy, drain, drained_slot,
}
use rust_jsi.Jsc.Roots.Invariant.{IsSound, FreeList, retired}
use rust_jsi.Jsc.Roots.Inserts.{grow-IsSound, occupy-IsSound}
use rust_jsi.Jsc.Roots.Releases.{young}
use rust_jsi.Jsc.Roots.Evolution.{
  set-Grows, append-Grows, drained_slots-Grows, get-drained_slots, Stale, holds, count-values,
  count-drained_slots,
}
use rust_jsi.Jsc.Roots.Drains.{drain-IsSound}
use rust_jsi.Jsc.Roots.Results.{Keeps, get-answers}

RootId-ext :
    (j : RootId) (i g : ℕ) → j.slot ≡ i → j.generation ≡ g → j ≡ record { slot = i; generation = g }
RootId-ext j i g e f = ground arith

module _ {V : Type 0} where
  -- A new id for the value; the other ids resolve as before.
  abbrev pub Inserted : RootRegistry V → V → RootId → RootRegistry V → Type 0
  Inserted self v id r =
      (insert v self ≡ (r, returned (ok id)))
      × Keeps self r (v ∷ []) []
      × (get self id ≡ none)
      × (get r id ≡ some v)
      × ((j : RootId) → j ≢ id → get r j ≡ get self j)
      × (self.live + count retired self.slots < self.limit)

  -- Every slot is occupied, or retired for good.
  abbrev pub Refused : RootRegistry V → V → Type 0
  Refused self v =
      (insert v self ≡ (self, returned (err persistent_root_limit_reached)))
      × (self.live + count retired self.slots ≡ self.limit)

  abbrev fresh : V → RootSlot V
  fresh v = record { generation = 1; value = some v; release = live_root }

  answers_not :
      (v : V) (s : RootSlot V) (j : RootId)
      → j.generation ≢ s.generation
      → get_from j (some s) ≡ none
  answers_not v s j n = ground arith

  fresh-other :
      (self : RootRegistry V) (v : V) (j : RootId)
      → j ≢ record { slot = length self.slots; generation = 1 }
      → get (grow v self).0 j ≡ get self j
  unfolding get
  fresh-other self v j n = elim (get-append-cases self.slots j.slot (fresh v)) [
    | inl e ↦ ap (get_from j) e
    | inr (e, f, g) ↦
        ap (get_from j) f
        ∙ answers_not v (fresh v) j (λ k. n (RootId-ext j (length self.slots) 1 e k))
        ∙ sym (ap (get_from j) g)
  ]

  insert-room :
      (self : RootRegistry V) (v : V)
      → length self.slots < self.limit
      → insert_by v [] self
        ≡ ((grow v self).0, returned (ok (record { slot = length self.slots; generation = 1 })))
  insert-room self v h =
      let e : leb self.limit (length self.slots) ≡ false = ground arith in rw e refl

  grow-Inserted :
      (self : RootRegistry V) (v : V)
      → IsSound self
      → self.free ≡ []
      → length self.slots < self.limit
      → Inserted self v (record { slot = length self.slots; generation = 1 }) (grow v self).0
  unfolding insert get
  grow-Inserted self v sound empty h = (
    ap (λ (l : List ℕ). insert_by v l self) empty ∙ insert-room self v h,
    record {
      sound = grow-IsSound v self sound h;
      grows = append-Grows self.slots (fresh v ∷ []);
      same_limit = refl;
      conserves = λ p. ground (arith, count-append (holds p) self.slots (fresh v ∷ []));
    },
    ap (get_from (record { slot = length self.slots; generation = 1 })) (get-last self.slots),
    ap (get_from (record { slot = length self.slots; generation = 1 }))
        (get-append-last self.slots (fresh v)),
    fresh-other self v,
    ground (arith, sound.shared_out, sound.live_counted),
  )

  module _ (self : RootRegistry V) (v : V) (sound : IsSound self) (i : ℕ) (l : List ℕ)
      (split : self.free ≡ i ∷ l) (s : RootSlot V) (at : get_elem? self.slots i ≡ some s)
      (empty : s.value ≡ none) (alive : s.release ≡ live_root)
      (young : s.generation < max_generation) where
    abbrev filling : RootSlot V
    filling = record s { value = some v }

    abbrev id : RootId
    id = record { slot = i; generation = s.generation }

    abbrev popped : RootRegistry V
    popped = record self { free = l }

    filled_at : get_elem? (set self.slots i filling) i ≡ some filling
    filled_at = get-set-same self.slots i filling s at

    filled-other : (j : RootId) → j ≢ id → get (occupy v i (some s) popped).0 j ≡ get self j
    unfolding get
    filled-other j n = elim (Bool-cases (j.slot == i)) [
      | inl e ↦
          let e' : j.slot ≡ i = ==→≡ j.slot i e in
          let g : j.generation ≢ s.generation = λ k. n (RootId-ext j i s.generation e' k) in
          ap (get_from j) (ap (get_elem? (set self.slots i filling)) e' ∙ filled_at)
          ∙ answers_not v filling j g
          ∙ sym (answers_not v s j g)
          ∙ sym (ap (get_from j) (ap (get_elem? self.slots) e' ∙ at))
      | inr e ↦ ap (get_from j) (get-set-other self.slots i j.slot filling (ground arith))
    ]

    occupy-Inserted : Inserted self v id (occupy v i (some s) popped).0
    unfolding insert get
    occupy-Inserted = (
      ap (λ (f : List ℕ). insert_by v f self) split
          ∙ ap (λ (o : Option (RootSlot V)). occupy v i o popped) at,
      record {
        sound = occupy-IsSound v self sound i l split s at empty alive young;
        grows = set-Grows self.slots i s filling at (inr (refl, inl (ap is_live alive)));
        same_limit = refl;
        conserves = λ p. ground (arith, count-set (holds p) self.slots i s filling at);
      },
      ap (get_from id) at ∙ ground arith,
      ap (get_from id) filled_at ∙ ground arith,
      filled-other,
      ground (
        arith,
        sound.shared_out,
        sound.room,
        sound.live_counted,
        ap (λ (m : List ℕ). length m) split,
      ),
    )

  insert_by-cases :
      (self : RootRegistry V) (v : V) (free : List ℕ)
      → IsSound self
      → self.free ≡ free
      → Refused self v ⊎ ((id : RootId) × (r : RootRegistry V) × Inserted self v id r)
  unfolding insert
  insert_by-cases self v [] sound e = elim (Bool-cases (leb self.limit (length self.slots))) [
    | inl full ↦ inl (
      ap (λ (f : List ℕ). insert_by v f self) e ∙ rw full refl,
      ground (
        arith,
        sound.shared_out,
        sound.room,
        sound.live_counted,
        ap (λ (m : List ℕ). length m) e,
      ),
    )
    | inr room ↦ inr (
      record { slot = length self.slots; generation = 1 },
      (grow v self).0,
      grow-Inserted self v sound e (ground arith),
    )
  ]
  insert_by-cases self v (i ∷ l) sound e =
      let ((s, at, empty, alive, young), fresh, rest) =
        subst (λ (f : List ℕ). FreeList self.slots f) e sound.free_list in
      inr (
        record { slot = i; generation = s.generation },
        (occupy v i (some s) (record self { free = l })).0,
        occupy-Inserted self v sound i l e s at empty alive young,
      )

  pub insert-cases :
      (self : RootRegistry V) (v : V)
      → IsSound self
      → Refused self v ⊎ ((id : RootId) × (r : RootRegistry V) × Inserted self v id r)
  insert-cases self v sound = insert_by-cases self v self.free sound refl

  -- Every value that is live is given back, and every id that resolved is stale.
  pub drain-Keeps :
      (self : RootRegistry V) → IsSound self → Keeps self (drain self).0 [] (drain self).1
  unfolding drain
  drain-Keeps self sound = record {
    sound = unfold drain in drain-IsSound self sound;
    grows = drained_slots-Grows self.slots sound.fits;
    same_limit = refl;
    conserves = λ p. omega (arith, count-values p self.slots, count-drained_slots p self.slots);
  }

  pub drain-Stale :
      (self : RootRegistry V) (id : RootId) (v : V)
      → IsSound self
      → get self id ≡ some v
      → Stale (drain self).0.slots id
  unfolding drain
  drain-Stale self id v sound h =
      let (s, at, full, age, alive) = get-answers self id v h in
      (
        drained_slot s,
        get-drained_slots self.slots id.slot s at,
        inl (ground (arith, sound.fits id.slot s at, saturating_succ_lem s.generation)),
      )
