-- ===== src/Tests/Finalizers.antt =====
-- backend-jsc/src/experimental/native_state.rs: two tokens, of which one comes after the close.
use rust_jsi.Base.{ℕ, ◌+◌, ◌≡◌, refl, Bool, List, [], ◌∷◌, length}
use rust_jsi.Jsc.Generations.{count}
use rust_jsi.Jsc.Finalizers.{
  System, Access, closed_sentinel, announces, publishes, takes, closes, reclaims, settles, new,
  step, run,
}
use rust_jsi.Jsc.Finalizers.Safety.{unsettled, IsConserved, finalizers_settle}

abbrev earlier : List (Access ℕ)
earlier = announces 7 ∷ announces 8 ∷ publishes 1 ∷ takes ∷ []

abbrev later_on : List (Access ℕ)
later_on = publishes 0 ∷ reclaims ∷ settles ∷ []

finalizers_settle_example :
    let s : System ℕ = run earlier new in
    let c : System ℕ = run later_on (step closes s) in
    (s.pending ≡ unsettled s)
    × ((p : ℕ → Bool) → IsConserved p s)
    × (c.head ≡ closed_sentinel)
    × (c.pending ≡ length c.announced + length c.detached + c.refused)
    × ((p : ℕ → Bool)
        → count p c.created
          ≡ count p c.announced + count p c.detached + count p c.reclaimed + count p c.discarded)
finalizers_settle_example = finalizers_settle earlier later_on

all_settled : (run later_on (step closes (run earlier new))).pending ≡ 0
unfolding run step
all_settled = refl
