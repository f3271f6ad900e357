-- ===== src/Testkit/Lifecycle/Swaps.antt =====
-- testkit/src/lifecycle.rs: `Iterator::position` and `Vec::swap_remove` on the live entries.
use rust_jsi.Base.{
  ℕ, zero, suc, ◌+◌, ◌≡◌, ◌⊎◌, inl, inr, refl, sym, ap, ==→≡, Option-cases, ◌<◌, ◌∙◌, if◌then◌else◌,
  ◌==◌, Bool-cases, List, [], ◌∷◌, length, Option, none, some, arith, ◌++◌,
}
use rust_jsi.Base.Slots.{set, get_elem?, none-some, some-injective, length-set}

-- The first place of a number.
unfoldable pub position : ℕ → List ℕ → Option ℕ
position n [] = none
position n (x ∷ l) =
    if x == n then some 0 else elim (position n l) [ none ↦ none | some i ↦ some (suc i) ]

-- The list without its last element, and that element.
abbrev pub init : List ℕ → List ℕ
init [] = []
init (x ∷ []) = []
init (x ∷ y ∷ l) = x ∷ init (y ∷ l)

abbrev pub last : ℕ → List ℕ → ℕ
last d [] = d
last d (x ∷ l) = last x l

-- The last element takes the place of the one that is removed, if there is such a place.
unfoldable pub swap_remove : ℕ → List ℕ → List ℕ
swap_remove index [] = []
swap_remove index (x ∷ l) = set (init (x ∷ l)) index (last x l)

-- How often a number stands in a list.
unfoldable pub occurrences : ℕ → List ℕ → ℕ
occurrences n [] = 0
occurrences n (x ∷ l) = (if x == n then 1 else 0) + occurrences n l

pub occurrences-append :
    (n : ℕ) (l m : List ℕ) → occurrences n (l ++ m) ≡ occurrences n l + occurrences n m
unfolding occurrences
occurrences-append n [] m = omega arith
occurrences-append n (x ∷ l) m = omega (arith, occurrences-append n l m)

abbrev one_of : ℕ → ℕ → ℕ
one_of n x = if x == n then 1 else 0

init-last :
    (m x : ℕ) (l : List ℕ)
    → occurrences m (init (x ∷ l)) + one_of m (last x l) ≡ occurrences m (x ∷ l)
unfolding occurrences
init-last m x [] = omega arith
init-last m x (y ∷ l) = omega (arith, init-last m y l)

occurrences-set :
    (m : ℕ) (l : List ℕ) (i b c : ℕ)
    → get_elem? l i ≡ some b
    → occurrences m (set l i c) + one_of m b ≡ occurrences m l + one_of m c
unfolding occurrences
occurrences-set m [] i b c h = absurd (none-some h)
occurrences-set m (x ∷ l) zero b c h = ground (arith, some-injective h)
occurrences-set m (x ∷ l) (suc i) b c h = omega (arith, occurrences-set m l i b c h)

position-cases :
    (n x : ℕ) (l : List ℕ)
    → ((x ≡ n) × (position n (x ∷ l) ≡ some 0))
      ⊎ ((position n l ≡ none) × (position n (x ∷ l) ≡ none))
      ⊎ ((k : ℕ) × (position n l ≡ some k) × (position n (x ∷ l) ≡ some (suc k)))
unfolding position
position-cases n x l = elim (Bool-cases (x == n)) [
  | inl e ↦ inl (==→≡ x n e, rw e refl)
  | inr e ↦ inr (elim (Option-cases (position n l)) [
    | inl f ↦ inl (f, rw (e, f) refl)
    | inr (k, f) ↦ inr (k, f, rw (e, f) refl)
  ])
]

pub position-get : (n : ℕ) (l : List ℕ) (i : ℕ) → position n l ≡ some i → get_elem? l i ≡ some n
unfolding position
position-get n [] i h = absurd (none-some h)
position-get n (x ∷ l) i h = elim (position-cases n x l) [
  | inl (e, f) ↦ ap (get_elem? (x ∷ l)) (some-injective (sym h ∙ f)) ∙ ap some e
  | inr (inl (e, f)) ↦ absurd (none-some (sym f ∙ h))
  | inr (inr (k, e, f)) ↦ ap (get_elem? (x ∷ l)) (some-injective (sym h ∙ f)) ∙ position-get n l k e
]

-- A place of a list that is not empty is one of `init`, or the last one, which `init` lacks.
get-init :
    (x : ℕ) (l : List ℕ) (i b c : ℕ)
    → get_elem? (x ∷ l) i ≡ some b
    → (get_elem? (init (x ∷ l)) i ≡ some b)
      ⊎ ((last x l ≡ b) × (set (init (x ∷ l)) i c ≡ init (x ∷ l)))
get-init x [] zero b c h = inr (some-injective h, refl)
get-init x [] (suc i) b c h = absurd (none-some h)
get-init x (y ∷ l) zero b c h = inl h
get-init x (y ∷ l) (suc i) b c h = elim (get-init y l i b c h) [
  | inl e ↦ inl e
  | inr (e, f) ↦ inr (e, ap (◌∷◌ x) f)
]

-- Removing the place of a number takes one of it and nothing else.
pub remove-occurrences :
    (n m i : ℕ) (l : List ℕ)
    → position n l ≡ some i
    → occurrences m (swap_remove i l) + one_of m n ≡ occurrences m l
unfolding swap_remove
remove-occurrences n m i [] h = absurd (none-some (position-get n [] i h))
remove-occurrences n m i (x ∷ l) h =
    elim (get-init x l i n (last x l) (position-get n (x ∷ l) i h)) [
      | inl e ↦ omega (arith, occurrences-set m (init (x ∷ l)) i n (last x l) e, init-last m x l)
      | inr (e, f) ↦ rw f (omega (arith, init-last m x l, ap (one_of m) e))
    ]

length-init : (x : ℕ) (l : List ℕ) → length (init (x ∷ l)) ≡ length l
length-init x [] = refl
length-init x (y ∷ l) = ap suc (length-init y l)

pub length-swap_remove :
    (n i : ℕ) (l : List ℕ) → position n l ≡ some i → length (swap_remove i l) + 1 ≡ length l
unfolding swap_remove
length-swap_remove n i [] h = absurd (none-some (position-get n [] i h))
length-swap_remove n i (x ∷ l) h =
    omega (arith, length-set (init (x ∷ l)) i (last x l), length-init x l)

pub position-occurrences :
    (n : ℕ) (l : List ℕ)
    → ((position n l ≡ none) × (occurrences n l ≡ 0))
      ⊎ ((i : ℕ) × (position n l ≡ some i) × (0 < occurrences n l))
unfolding position occurrences
position-occurrences n [] = inl (refl, refl)
position-occurrences n (x ∷ l) = elim (Bool-cases (x == n)) [
  | inl e ↦ inr (0, rw e refl, rw e (omega arith))
  | inr e ↦ elim (position-occurrences n l) [
    | inl (f, z) ↦ inl (rw (e, f) refl, rw e (omega arith))
    | inr (i, f, p) ↦ inr (suc i, rw (e, f) refl, rw e (omega arith))
  ]
]
