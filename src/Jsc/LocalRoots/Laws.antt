-- ===== src/Jsc/LocalRoots/Laws.antt =====
-- backend-jsc/src/experimental/local_roots.rs: the roots are a queue, wherever they are kept.
use rust_jsi.Base.{
  ℕ, zero, suc, ◌≤◌, ◌<◌, ◌≡◌, ◌⊎◌, inl, inr, refl, sym, ap, ◌∙◌, true, false, ltb, Bool-cases,
  List, [], ◌∷◌, ◌++◌, append_assoc, append-nil, length, length-append, Option, none, some, arith,
}
use rust_jsi.Base.Slots.{set, length-set}
use rust_jsi.Jsc.LocalRoots.{LocalRoots, inline_local_roots, new, push, taken, cleared, drain}

module _ {V : Type 0} where
  -- The array has its places, and values spill only when it is full.
  pub record IsValid (self : LocalRoots V) : Type 0 where
    pub places : length self.inline ≡ inline_local_roots
    pub within : self.inline_len ≤ inline_local_roots
    pub spilled : (self.inline_len ≡ inline_local_roots) ⊎ (self.spill ≡ [])
    pub filled : length (taken self.inline_len self.inline) ≡ self.inline_len

  taken-set :
      (n : ℕ) (places : List (Option V)) (value : V)
      → n < length places
      → taken (suc n) (set places n (some value)) ≡ taken n places ++ value ∷ []
  unfolding taken
  taken-set zero [] value h = absurd (omega arith)
  taken-set zero (place ∷ places) value h = refl
  taken-set (suc n) [] value h = absurd (omega arith)
  taken-set (suc n) (none ∷ places) value h = taken-set n places value (omega arith)
  taken-set (suc n) (some v ∷ places) value h = ap (◌∷◌ v) (taken-set n places value (omega arith))

  length-cleared : (n : ℕ) (places : List (Option V)) → length (cleared n places) ≡ length places
  unfolding cleared
  length-cleared zero places = refl
  length-cleared (suc n) [] = refl
  length-cleared (suc n) (place ∷ places) = ap suc (length-cleared n places)

  push_inline :
      (value : V) (self : LocalRoots V)
      → IsValid self
      → ltb self.inline_len inline_local_roots ≡ true
      → ((drain (push value self)).1 ≡ (drain self).1 ++ value ∷ []) × IsValid (push value self)
  unfolding push drain
  push_inline value self valid e =
      let set_taken = taken-set self.inline_len self.inline value (ground (arith, valid.places)) in
      let none_spilled : self.spill ≡ [] = ground (arith, valid.spilled) in
      rw e (
        ap (λ (l : List V). l ++ self.spill) set_taken
            ∙ ap (λ (l : List V). (taken self.inline_len self.inline ++ value ∷ []) ++ l)
                none_spilled
            ∙ append-nil (taken self.inline_len self.inline ++ value ∷ [])
            ∙ sym (
                ap (λ (l : List V). l ++ value ∷ [])
                  (ap (λ (l : List V). taken self.inline_len self.inline ++ l) none_spilled
                    ∙ append-nil (taken self.inline_len self.inline))),
        record {
          places =
              ground (arith, valid.places, length-set self.inline self.inline_len (some value));
          within = ground arith;
          spilled = inr none_spilled;
          filled =
              ap (λ (l : List V). length l) set_taken
              ∙ ground (
                arith,
                valid.filled,
                length-append (taken self.inline_len self.inline) (value ∷ []),
              );
        },
      )

  push_spill :
      (value : V) (self : LocalRoots V)
      → IsValid self
      → ltb self.inline_len inline_local_roots ≡ false
      → ((drain (push value self)).1 ≡ (drain self).1 ++ value ∷ []) × IsValid (push value self)
  unfolding push drain
  push_spill value self valid e = rw e (
    sym (append_assoc (taken self.inline_len self.inline) self.spill (value ∷ [])),
    record {
      places = valid.places;
      within = valid.within;
      spilled = inl (ground (arith, valid.within));
      filled = valid.filled;
    },
  )

  -- A push adds the value at the end of what a drain gives.
  pub push-drain :
      (value : V) (self : LocalRoots V)
      → IsValid self
      → ((drain (push value self)).1 ≡ (drain self).1 ++ value ∷ []) × IsValid (push value self)
  push-drain value self valid = elim (Bool-cases (ltb self.inline_len inline_local_roots)) [
    | inl e ↦ push_inline value self valid e
    | inr e ↦ push_spill value self valid e
  ]

  pub drain-IsValid :
      (self : LocalRoots V)
      → IsValid self
      → IsValid (drain self).0 × ((drain (drain self).0).1 ≡ [])
  unfolding drain taken
  drain-IsValid self valid = (
    record {
      places = length-cleared self.inline_len self.inline ∙ valid.places;
      within = omega arith;
      spilled = inr refl;
      filled = refl;
    },
    refl,
  )

  pub new-IsValid : IsValid (new {V = V})
  unfolding new taken
  new-IsValid = record { places = refl; within = omega arith; spilled = inr refl; filled = refl }

  pub new-drain : (drain (new {V = V})).1 ≡ []
  unfolding new drain taken
  new-drain = refl
