-- ===== src/Jsc/Generations.antt =====
-- The generations of reusable slots, counted by `u64::saturating_add(1)`, and free lists of slots.
use rust_jsi.Base.{
  ℕ, zero, suc, ◌+◌, ◌≤◌, ◌<◌, ◌≡◌, ◌≢◌, ◌⊎◌, Bool, if◌then◌else◌, ltb, List, [], ◌∷◌, ◌++◌, All,
  some, Outcome, returned, panicked, arith,
}
use rust_jsi.Base.Slots.{get_elem?, set, none-some, some-injective}
use rust_jsi.Host.Identity.{u64_max}

unfoldable pub max_generation : ℕ
max_generation = u64_max

pub saturating_succ : ℕ → ℕ
saturating_succ g = if ltb g max_generation then g + 1 else max_generation

pub saturating_succ_lem :
    (g : ℕ)
    → g ≤ max_generation
    → ((g < max_generation) × (saturating_succ g ≡ g + 1))
      ⊎ ((g ≡ max_generation) × (saturating_succ g ≡ max_generation))
unfolding saturating_succ
saturating_succ_lem g h = ground arith

pub one-max_generation : 1 < max_generation
unfolding max_generation
one-max_generation = omega arith

-- `x -= 1` on a counter; at 0 the subtraction overflows.
abbrev pub decrement : ℕ → Outcome ℕ
decrement zero = panicked
decrement (suc n) = returned n

-- No place of the list is this one.
abbrev pub Fresh : ℕ → List ℕ → Type 0
Fresh i = All (λ j. j ≢ i)

-- How many slots pass the test.
module _ {S : Type 0} (test : S → Bool) where
  abbrev pub one_if : S → ℕ
  one_if s = if test s then 1 else 0

  abbrev pub count : List S → ℕ
  count [] = 0
  count (s ∷ slots) = one_if s + count slots

  pub count-set :
      (slots : List S) (i : ℕ) (s t : S)
      → get_elem? slots i ≡ some s
      → count (set slots i t) + one_if s ≡ count slots + one_if t
  count-set [] i s t h = absurd (none-some h)
  count-set (x ∷ slots) zero s t h = ground (arith, some-injective h)
  count-set (x ∷ slots) (suc i) s t h = omega (arith, count-set slots i s t h)

  pub count-append : (l m : List S) → count (l ++ m) ≡ count l + count m
  count-append [] m = omega arith
  count-append (x ∷ l) m = omega (arith, count-append l m)

  pub count-positive :
      (slots : List S) (i : ℕ) (s : S) → get_elem? slots i ≡ some s → one_if s ≤ count slots
  count-positive [] i s h = absurd (none-some h)
  count-positive (x ∷ slots) zero s h = ground (arith, some-injective h)
  count-positive (x ∷ slots) (suc i) s h = omega (arith, count-positive slots i s h)
