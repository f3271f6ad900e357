-- ===== src/Jsc/LocalRoots.antt =====
-- backend-jsc/src/experimental/local_roots.rs: the roots of a scope, sixteen of them in place. The
-- array is a list; a value is one of any type.
pub mod Laws
use rust_jsi.Base.{
  ℕ, zero, suc, ◌+◌, Bool, if◌then◌else◌, ltb, List, [], ◌∷◌, ◌++◌, Option, none, some,
}
use rust_jsi.Base.Slots.{set}

abbrev pub inline_local_roots : ℕ
inline_local_roots = 16

pub record LocalRoots (V : Type 0) : Type 0 where
  pub inline : List (Option V)
  pub inline_len : ℕ
  pub spill : List V

abbrev pub nones : {V : Type 0} → ℕ → List (Option V)
nones zero = []
nones (suc n) = none ∷ nones n

module _ {V : Type 0} where
  unfoldable pub new : LocalRoots V
  new = record { inline = nones inline_local_roots; inline_len = 0; spill = [] }

  unfoldable pub push : V → LocalRoots V → LocalRoots V
  push value self =
      if ltb self.inline_len inline_local_roots
      then record self {
        inline = set self.inline self.inline_len (some value);
        inline_len = suc self.inline_len;
      }
      else record self { spill = self.spill ++ value ∷ [] }

  abbrev pub cons_some : Option V → List V → List V
  cons_some none l = l
  cons_some (some value) l = value ∷ l

  -- The values that `Option::take` takes out of the first places.
  pub taken : ℕ → List (Option V) → List V
  taken zero places = []
  taken (suc n) [] = []
  taken (suc n) (place ∷ places) = cons_some place (taken n places)

  pub cleared : ℕ → List (Option V) → List (Option V)
  cleared zero places = places
  cleared (suc n) [] = []
  cleared (suc n) (place ∷ places) = none ∷ cleared n places

  -- The iterator, run to its end.
  unfoldable pub drain : LocalRoots V → LocalRoots V × List V
  unfolding taken cleared
  drain self = (
    record { inline = cleared self.inline_len self.inline; inline_len = 0; spill = [] },
    taken self.inline_len self.inline ++ self.spill,
  )
