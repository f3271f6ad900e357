-- ===== src/Base/Slots.antt =====
-- Sequences read and written by index, such as the slots of a registry or the places that an `Arc`
-- points to.
use Prim.Native.Nat.{ℕ, zero, suc, ◌<◌}
use mathlib.Core.Path.{◌≡◌, ap, refl}
use mathlib.Core.Logic.{◌≢◌, ◌⊎◌, inl, inr}
use mathlib.Core.List.{List, [], ◌∷◌, ◌++◌}
use mathlib.Core.Option.{Option, none, some}
use native.Mathlib.Omega.{arith}
use rust_jsi.Base.Lists.{length}

abbrev pub get_elem? : {B : Type 0} → List B → ℕ → Option B
get_elem? [] i = none
get_elem? (b ∷ l) zero = some b
get_elem? (b ∷ l) (suc i) = get_elem? l i

abbrev pub set : {B : Type 0} → List B → ℕ → B → List B
set [] i c = []
set (b ∷ l) zero c = c ∷ l
set (b ∷ l) (suc i) c = b ∷ set l i c

module _ {B : Type 0} where
  pub none-some : {b : B} → (none ≡ some b) → ⊥
  none-some h = cc

  pub get-set :
      (l : List B) (i j : ℕ) (c b : B)
      → get_elem? (set l i c) j ≡ some b
      → ((j ≡ i) × (b ≡ c)) ⊎ (get_elem? l j ≡ some b)
  get-set [] i j c b h = inr h
  get-set (x ∷ l) zero zero c b h = inl (refl, cc)
  get-set (x ∷ l) zero (suc j) c b h = inr h
  get-set (x ∷ l) (suc i) zero c b h = inr h
  get-set (x ∷ l) (suc i) (suc j) c b h = elim (get-set l i j c b h) [
    | inl (e, f) ↦ inl (ap suc e, f)
    | inr e ↦ inr e
  ]

  pub get-set-same :
      (l : List B) (i : ℕ) (c b : B) → get_elem? l i ≡ some b → get_elem? (set l i c) i ≡ some c
  get-set-same [] i c b h = absurd (none-some h)
  get-set-same (x ∷ l) zero c b h = refl
  get-set-same (x ∷ l) (suc i) c b h = get-set-same l i c b h

  pub get-set-other :
      (l : List B) (i j : ℕ) (c : B) → j ≢ i → get_elem? (set l i c) j ≡ get_elem? l j
  get-set-other [] i j c n = refl
  get-set-other (x ∷ l) zero zero c n = absurd (n refl)
  get-set-other (x ∷ l) zero (suc j) c n = refl
  get-set-other (x ∷ l) (suc i) zero c n = refl
  get-set-other (x ∷ l) (suc i) (suc j) c n = get-set-other l i j c (λ e. n (ap suc e))

  pub get-append :
      (l : List B) (j : ℕ) (c b : B)
      → get_elem? (l ++ c ∷ []) j ≡ some b
      → ((j ≡ length l) × (b ≡ c)) ⊎ (get_elem? l j ≡ some b)
  get-append [] zero c b h = inl (refl, cc)
  get-append [] (suc j) c b h = absurd (none-some h)
  get-append (x ∷ l) zero c b h = inr h
  get-append (x ∷ l) (suc j) c b h = elim (get-append l j c b h) [
    | inl (e, f) ↦ inl (ap suc e, f)
    | inr e ↦ inr e
  ]

  pub get-append-last : (l : List B) (c : B) → get_elem? (l ++ c ∷ []) (length l) ≡ some c
  get-append-last [] c = refl
  get-append-last (x ∷ l) c = get-append-last l c

  pub set-same : (l : List B) (i : ℕ) (b : B) → get_elem? l i ≡ some b → set l i b ≡ l
  set-same [] i b h = refl
  set-same (x ∷ l) zero b h = cc
  set-same (x ∷ l) (suc i) b h = ap (◌∷◌ x) (set-same l i b h)

  pub get-set-found :
      (l : List B) (i j : ℕ) (c b : B)
      → get_elem? l j ≡ some b
      → ((j ≡ i) × (get_elem? (set l i c) j ≡ some c)) ⊎ (get_elem? (set l i c) j ≡ some b)
  get-set-found [] i j c b h = inr h
  get-set-found (x ∷ l) zero zero c b h = inl (refl, refl)
  get-set-found (x ∷ l) zero (suc j) c b h = inr h
  get-set-found (x ∷ l) (suc i) zero c b h = inr h
  get-set-found (x ∷ l) (suc i) (suc j) c b h = elim (get-set-found l i j c b h) [
    | inl (e, f) ↦ inl (ap suc e, f)
    | inr e ↦ inr e
  ]

  pub some-injective : {a b : B} → some a ≡ some b → a ≡ b
  some-injective h = cc

  pub get-append-old :
      (l m : List B) (i : ℕ) (b : B) → get_elem? l i ≡ some b → get_elem? (l ++ m) i ≡ some b
  get-append-old [] m i b h = absurd (none-some h)
  get-append-old (x ∷ l) m zero b h = h
  get-append-old (x ∷ l) m (suc i) b h = get-append-old l m i b h

  pub length-set : (l : List B) (i : ℕ) (c : B) → length (set l i c) ≡ length l
  length-set [] i c = refl
  length-set (x ∷ l) zero c = refl
  length-set (x ∷ l) (suc i) c = ap suc (length-set l i c)

  pub get-lt : (l : List B) (i : ℕ) (b : B) → get_elem? l i ≡ some b → i < length l
  get-lt [] i b h = absurd (none-some h)
  get-lt (x ∷ l) zero b h = omega arith
  get-lt (x ∷ l) (suc i) b h = omega (arith, get-lt l i b h)

  pub get-last : (l : List B) → get_elem? l (length l) ≡ none
  get-last [] = refl
  get-last (x ∷ l) = get-last l

  pub set-set : (l : List B) (i : ℕ) (b c : B) → set (set l i b) i c ≡ set l i c
  set-set [] i b c = refl
  set-set (x ∷ l) zero b c = refl
  set-set (x ∷ l) (suc i) b c = ap (◌∷◌ x) (set-set l i b c)

  pub get-append-cases :
      (l : List B) (j : ℕ) (c : B)
      → (get_elem? (l ++ c ∷ []) j ≡ get_elem? l j)
        ⊎ ((j ≡ length l) × (get_elem? (l ++ c ∷ []) j ≡ some c) × (get_elem? l j ≡ none))
  get-append-cases [] zero c = inr (refl, refl, refl)
  get-append-cases [] (suc j) c = inl refl
  get-append-cases (x ∷ l) zero c = inl refl
  get-append-cases (x ∷ l) (suc j) c = elim (get-append-cases l j c) [
    | inl e ↦ inl e
    | inr (e, f, g) ↦ inr (ap suc e, f, g)
  ]
