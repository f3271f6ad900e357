-- ===== src/Testkit/SlotMap/Laws.antt =====
-- testkit/src/model.rs: the slot map as a partial map of handles.
use rust_jsi.Base.{
  ℕ, ◌≤◌, ◌<◌, ◌≡◌, ◌≢◌, ◌⊎◌, inl, inr, refl, sym, ap, subst, ◌∙◌, ◌==◌, ==→≡, Bool-cases, List, [],
  ◌∷◌, ◌++◌, length, Option, none, some, Option-cases, returned, arith,
}
use rust_jsi.Base.Slots.{
  get_elem?, set, get-set, get-set-other, get-set-same, get-append, get-append-cases,
  get-append-old, get-append-last, get-last, some-injective, none-some,
}
use rust_jsi.Jsc.Generations.{
  max_generation, one-max_generation, saturating_succ, saturating_succ_lem, Fresh,
}
use rust_jsi.Testkit.SlotMap.{
  Slot, SlotMap, empty, insert, insert_by, reuse, get, get_from, remove, remove_from, take_value,
}

-- The handle is another one.
abbrev pub Other : ℕ → ℕ → ℕ → ℕ → Type 0
Other i g j h = (j ≢ i) ⊎ (h ≢ g)

module _ {T : Type 0} where
  abbrev emptied : Slot T → Slot T
  emptied s = record { generation = saturating_succ s.generation; value = none }

  abbrev pub FreeList : List (Slot T) → List ℕ → Type 0
  FreeList slots [] = Unit
  FreeList slots (i ∷ l) =
      ((s : Slot T) × (get_elem? slots i ≡ some s)
        × (s.value ≡ none)
        × (s.generation < max_generation))
      × Fresh i l
      × FreeList slots l

  abbrev pub SlotFits : Slot T → Type 0
  SlotFits s =
      (s.generation ≤ max_generation) × ((s.value ≡ none) ⊎ (s.generation < max_generation))

  pub record IsSound (self : SlotMap T) : Type 0 where
    pub free_list : FreeList self.slots self.free
    pub fits : (i : ℕ) (s : Slot T) → get_elem? self.slots i ≡ some s → SlotFits s

  FreeList-set :
      (slots : List (Slot T)) (l : List ℕ) (i : ℕ) (t : Slot T)
      → FreeList slots l
      → Fresh i l
      → FreeList (set slots i t) l
  FreeList-set slots [] i t c f = tt
  FreeList-set slots (j ∷ l) i t ((s, at, n, g), fresh, c) f =
      ((s, get-set-other slots i j t f.0 ∙ at, n, g), fresh, FreeList-set slots l i t c f.1)

  FreeList-append :
      (slots : List (Slot T)) (l : List ℕ) (m : List (Slot T))
      → FreeList slots l
      → FreeList (slots ++ m) l
  FreeList-append slots [] m c = tt
  FreeList-append slots (j ∷ l) m ((s, at, n, g), fresh, c) =
      ((s, get-append-old slots m j s at, n, g), fresh, FreeList-append slots l m c)

  full-ne-empty : {s t : Slot T} {v : T} → s.value ≡ none → t.value ≡ some v → t ≡ s → ⊥
  full-ne-empty p q e = ground arith

  FreeList-Fresh :
      (slots : List (Slot T)) (l : List ℕ) (i : ℕ) (s : Slot T) (v : T)
      → FreeList slots l
      → get_elem? slots i ≡ some s
      → s.value ≡ some v
      → Fresh i l
  FreeList-Fresh slots [] i s v c at e = tt
  FreeList-Fresh slots (j ∷ l) i s v ((s', at', n, g), fresh, c) at e = (
    λ h. full-ne-empty n e (sym (some-injective (sym at' ∙ ap (get_elem? slots) h ∙ at))),
    FreeList-Fresh slots l i s v c at e,
  )

  pub empty-IsSound : IsSound (empty {T = T})
  empty-IsSound = record { free_list = tt; fits = λ i s h. absurd (none-some h) }

  -- A new handle for the value; the other handles resolve as before.
  abbrev pub Inserted : SlotMap T → T → ℕ → ℕ → SlotMap T → Type 0
  Inserted self v i g r =
      (insert v self ≡ (r, returned (i, g)))
      × IsSound r
      × (get self i g ≡ none)
      × (get r i g ≡ some v)
      × ((j h : ℕ) → Other i g j h → get r j h ≡ get self j h)

  set-Other :
      (slots : List (Slot T)) (free free' : List ℕ) (i g j h : ℕ) (s t : Slot T)
      → get_elem? slots i ≡ some s
      → Other i g j h
      → (h ≢ g → get_from h (some t) ≡ get_from h (some s))
      → get (record { slots = set slots i t; free = free }) j h
        ≡ get (record { slots = slots; free = free' }) j h
  unfolding get
  set-Other slots free free' i g j h s t at other same = elim (Bool-cases (j == i)) [
    | inr e ↦ ap (get_from h) (get-set-other slots i j t (ground arith))
    | inl e ↦
        let e' : j ≡ i = ==→≡ j i e in
        ap (get_from h) (ap (get_elem? (set slots i t)) e' ∙ get-set-same slots i t s at)
        ∙ same (elim other [ inl n ↦ absurd (n e') | inr n ↦ n ])
        ∙ sym (ap (get_from h) (ap (get_elem? slots) e' ∙ at))
  ]

  abbrev fresh : T → Slot T
  fresh v = record { generation = 1; value = some v }

  get_from-vacant : (s : Slot T) (g : ℕ) → s.value ≡ none → get_from g (some s) ≡ none
  get_from-vacant s g e = ground arith

  get_from-filled :
      (s : Slot T) (v : T) → get_from s.generation (some (record s { value = some v })) ≡ some v
  get_from-filled s v = ground arith

  unlike : (s : Slot T) (h : ℕ) → h ≢ s.generation → get_from h (some s) ≡ none
  unlike s h n = ground arith

  filled-SlotFits :
      (self : SlotMap T) (v : T) (i : ℕ) (s : Slot T)
      → IsSound self
      → s.generation < max_generation
      → (j : ℕ) (t : Slot T) → get_elem? (set self.slots i (record s { value = some v })) j ≡ some t
      → SlotFits t
  filled-SlotFits self v i s sound young j t h =
      elim (get-set self.slots i j (record s { value = some v }) t h) [
        | inl (e, f) ↦ ground arith
        | inr old ↦ sound.fits j t old
      ]

  remove_from-none :
      (i g : ℕ) (o : Option (Slot T)) (self : SlotMap T)
      → get_from g o ≡ none
      → remove_from i g o self ≡ (self, none)
  remove_from-none i g none self h = refl
  remove_from-none i g (some s) self h = ground arith

  emptied-SlotFits :
      (self : SlotMap T) (i : ℕ) (s : Slot T)
      → IsSound self
      → get_elem? self.slots i ≡ some s
      → (j : ℕ) (t : Slot T) → get_elem? (set self.slots i (emptied s)) j ≡ some t
      → SlotFits t
  emptied-SlotFits self i s sound at j t h = elim (get-set self.slots i j (emptied s) t h) [
    | inl (e, f) ↦ ground (arith, sound.fits i s at, saturating_succ_lem s.generation)
    | inr old ↦ sound.fits j t old
  ]

  taken-IsSound :
      (self : SlotMap T) (i : ℕ) (s : Slot T) (v : T)
      → IsSound self
      → get_elem? self.slots i ≡ some s
      → s.value ≡ some v
      → IsSound (take_value i s (some v) self).0
  taken-IsSound self i s v sound at full =
      let others : FreeList (set self.slots i (emptied s)) self.free =
        FreeList-set self.slots self.free i (emptied s) sound.free_list
          (FreeList-Fresh self.slots self.free i s v sound.free_list at full) in
      record {
        fits = emptied-SlotFits self i s sound at;
        free_list = elim (Bool-cases (saturating_succ s.generation == max_generation)) [
          | inl e ↦ rw e others
          | inr e ↦ rw e (
            (
              emptied s,
              get-set-same self.slots i (emptied s) s at,
              refl,
              ground (arith, sound.fits i s at, saturating_succ_lem s.generation),
            ),
            FreeList-Fresh self.slots self.free i s v sound.free_list at full,
            others,
          )
        ];
      }

  fresh-Other :
      (self : SlotMap T) (v : T) (j h : ℕ)
      → Other (length self.slots) 1 j h
      → get (record self { slots = self.slots ++ fresh v ∷ [] }) j h ≡ get self j h
  unfolding get
  fresh-Other self v j h other = elim (get-append-cases self.slots j (fresh v)) [
    | inl e ↦ ap (get_from h) e
    | inr (e, f, g) ↦
        ap (get_from h) f
        ∙ unlike (fresh v) h (elim other [ inl n ↦ absurd (n e) | inr n ↦ n ])
        ∙ sym (ap (get_from h) g)
  ]

  fresh-SlotFits :
      (self : SlotMap T) (v : T) (j : ℕ) (t : Slot T)
      → IsSound self
      → get_elem? (self.slots ++ fresh v ∷ []) j ≡ some t
      → SlotFits t
  fresh-SlotFits self v j t sound h = elim (get-append self.slots j (fresh v) t h) [
    | inl (e, f) ↦ ground (arith, one-max_generation)
    | inr old ↦ sound.fits j t old
  ]

  insert_by-Inserted :
      (self : SlotMap T) (v : T) (l : List ℕ)
      → IsSound self
      → self.free ≡ l
      → (i g : ℕ) × (r : SlotMap T) × Inserted self v i g r
  unfolding insert get
  insert_by-Inserted self v [] sound split = (
    length self.slots,
    1,
    record self { slots = self.slots ++ fresh v ∷ [] },
    (
      ap (λ (f : List ℕ). insert_by v f self) split,
      record {
        free_list = FreeList-append self.slots self.free (fresh v ∷ []) sound.free_list;
        fits = λ j t. fresh-SlotFits self v j t sound;
      },
      ap (get_from 1) (get-last self.slots),
      ap (get_from 1) (get-append-last self.slots (fresh v)),
      fresh-Other self v,
    ),
  )
  insert_by-Inserted self v (i ∷ l) sound split =
      let ((s, at, none_in, young), new, rest) =
        subst (λ (f : List ℕ). FreeList self.slots f) split sound.free_list in
      (
        i,
        s.generation,
        record { slots = set self.slots i (record s { value = some v }); free = l },
        (
          ap (λ (f : List ℕ). insert_by v f self) split
              ∙ ap (λ (o : Option (Slot T)). reuse v i o (record self { free = l })) at,
          record {
            free_list = FreeList-set self.slots l i (record s { value = some v }) rest new;
            fits = filled-SlotFits self v i s sound young;
          },
          ap (get_from s.generation) at ∙ get_from-vacant s s.generation none_in,
          ap (get_from s.generation) (get-set-same self.slots i (record s { value = some v }) s at)
              ∙ get_from-filled s v,
          λ j h other.
              set-Other self.slots l self.free i s.generation j h s (record s { value = some v }) at
                other (λ n. unlike (record s { value = some v }) h n ∙ sym (unlike s h n)),
        ),
      )

  pub insert-Inserted :
      (self : SlotMap T) (v : T)
      → IsSound self
      → (i g : ℕ) × (r : SlotMap T) × Inserted self v i g r
  insert-Inserted self v sound = insert_by-Inserted self v self.free sound refl

  pub remove-unresolved :
      (self : SlotMap T) (i g : ℕ) → get self i g ≡ none → remove i g self ≡ (self, none)
  unfolding get remove
  remove-unresolved self i g h = remove_from-none i g (get_elem? self.slots i) self h

  -- The value is taken out, and its handle resolves no more.
  pub remove-resolved :
      (self : SlotMap T) (i g : ℕ) (v : T)
      → IsSound self
      → get self i g ≡ some v
      → (r : SlotMap T) × (remove i g self ≡ (r, some v))
        × IsSound r
        × (get r i g ≡ none)
        × ((j h : ℕ) → Other i g j h → get r j h ≡ get self j h)
  unfolding get remove
  remove-resolved self i g v sound found = elim (Option-cases (get_elem? self.slots i)) [
    | inl e ↦ absurd (none-some (sym (ap (get_from g) e) ∙ found))
    | inr (s, at) ↦
        let h : get_from g (some s) ≡ some v = sym (ap (get_from g) at) ∙ found in
        let full : s.value ≡ some v = ground arith in
        let age : s.generation ≡ g = ground arith in
        (
          (take_value i s (some v) self).0,
          ap (λ (o : Option (Slot T)). remove_from i g o self) at ∙ ground arith,
          taken-IsSound self i s v sound at full,
          ap (get_from g) (get-set-same self.slots i (emptied s) s at) ∙ ground arith,
          λ j k other.
              set-Other self.slots (take_value i s (some v) self).0.free self.free i g j k s
                (emptied s) at other (λ n. ground arith),
        )
  ]
