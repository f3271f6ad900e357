-- ===== src/Base/Effects.antt =====
-- What a Rust call gives back: a value or a panic, a `Result`, and state passed through calls.

-- `panicked` is an `unreachable!`, a failed `expect` or an arithmetic overflow.
pub data Outcome {ℓ} (A : Type ℓ) : Type ℓ where
  returned : A → Outcome A
  panicked : Outcome A

-- `Result<A, E>`.
pub data Result {ℓ κ} (A : Type ℓ) (E : Type κ) : Type (ℓ ⊔ κ) where
  ok : A → Result A E
  err : E → Result A E

-- A method on `&self` or `&mut self`: the state it leaves and what it gives back. A panic unwinds
-- with the state as it was at that point.
abbrev pub Method : Type 0 → Type 0 → Type 0
Method S A = S → S × Outcome A

infixl 5 ◌>>=◌ ◌>>◌
abbrev pub ◌>>=◌ : {S A B : Type 0} → Method S A → (A → Method S B) → Method S B
◌>>=◌ m f s = elim (m s).1 [ returned a ↦ f a (m s).0 | panicked ↦ ((m s).0, panicked) ]

abbrev pub ◌>>◌ : {S B : Type 0} → Method S (Unit {0}) → Method S B → Method S B
m >> k = m >>= λ _. k

abbrev pub give : {S A : Type 0} → A → Method S A
give a s = (s, returned a)

abbrev pub unreachable : {S A : Type 0} → Method S A
unreachable s = (s, panicked)

-- Whatever the first call does, the second is made after it, as the drop of a guard is; its panic
-- wins.
abbrev pub finally : {S B : Type 0} → Method S B → Method S (Unit {0}) → Method S B
finally m drop_guard s = elim (drop_guard (m s).0).1 [
  | returned _ ↦ ((drop_guard (m s).0).0, (m s).1)
  | panicked ↦ ((drop_guard (m s).0).0, panicked)
]

abbrev pub map_ok : {A B E : Type 0} → (A → B) → Result A E → Result B E
map_ok f (ok a) = ok (f a)
map_ok f (err e) = err e

abbrev pub map_err : {A E F : Type 0} → (E → F) → Result A E → Result A F
map_err f (ok a) = ok a
map_err f (err e) = err (f e)
