-- ===== src/Jsc/Scope/Sessions.antt =====
-- backend-jsc/src/experimental/common.rs: a scope from its opening through any calls to its drop.
use rust_jsi.Base.{
  ℕ, ◌+◌, ◌≡◌, refl, sym, ap, subst, ◌∙◌, Bool, List, [], ◌∷◌, Option, Result, Outcome, returned,
  panicked, Method, ◌>>◌, give, arith,
}
use rust_jsi.Backend.Errors.{BackendError, CallReceiver}
use rust_jsi.Jsc.Scope.Engine.{
  Engine, primitive, kind, as_boolean, as_number, to_string, evaluate, call,
}
use rust_jsi.Jsc.Scope.Transfer.{externalize}
use rust_jsi.Jsc.Scope.Engine.Laws.{
  primitive-Goes, kind-Goes, as_boolean-Goes, as_number-Goes, to_string-Goes, evaluate-Goes,
  call-Goes,
}
use rust_jsi.Jsc.Scope.Transfer.Laws.{externalize-Goes}
use rust_jsi.Jsc.Budget.{LocalBudget}
use rust_jsi.Jsc.Generations.{count}
use rust_jsi.Jsc.Roots.{RootRegistry}
use rust_jsi.Jsc.Roots.Invariant.{IsSound}
use rust_jsi.Jsc.Roots.Evolution.{holds}
use rust_jsi.Jsc.Scope.{
  Shared, JscScope, JscValue, JscRoot, string, persist, resolve, release, drop_scope,
}
use rust_jsi.Jsc.Scope.Laws.{IsBalanced, Goes, string-Goes}
use rust_jsi.Jsc.Scope.Rooting.{persist-Goes, resolve-Goes, release-Goes}
use rust_jsi.Jsc.Scope.Dropping.{opened, seq-eq, IsSettled, opened-IsBalanced, drop_scope-ends}

-- A call of a method of the scope, with what the engine gives to it.
pub data ScopeCall (V : Type 0) : Type 0 where
  primitives : Option V → ScopeCall V
  strings evaluates : Result (Option V) BackendError → ScopeCall V
  invokes :
      Result (Option V) BackendError
      → JscValue V
      → CallReceiver (JscValue V)
      → List (JscValue V)
      → ScopeCall V
  kinds as_booleans as_numbers to_strings : JscValue V → ScopeCall V
  persists : JscValue V → ScopeCall V
  resolves releases : JscRoot → ScopeCall V
  externalizes : List ℕ → Result V BackendError → ScopeCall V

module _ {V : Type 0} where
  abbrev dropped_answer : {A : Type 0} → JscScope V × Outcome A → JscScope V × Outcome (Unit {0})
  dropped_answer (s, returned a) = (s, returned tt)
  dropped_answer (s, panicked) = (s, panicked)

  dropped-Goes :
      {A : Type 0} (base : ℕ) (self : JscScope V) (r : JscScope V × Outcome A)
      → Goes base self r
      → Goes base self (dropped_answer r)
  dropped-Goes {A = A} base self r (s, o, e, b) =
      (s, tt, ap (λ (x : JscScope V × Outcome A). dropped_answer x) e, b)

module _ {V F : Type 0} (engine : Engine V F) where
  unfoldable pub call_one : ScopeCall V → Method (JscScope V) (Unit {0})
  call_one (primitives raw) self = dropped_answer (primitive engine raw self)
  call_one (strings made) self = dropped_answer (string made self)
  call_one (evaluates made) self = dropped_answer (evaluate engine made self)
  call_one (invokes made function target arguments) self =
      dropped_answer (call engine made function target arguments self)
  call_one (kinds v) self = dropped_answer (kind engine v self)
  call_one (as_booleans v) self = dropped_answer (as_boolean engine v self)
  call_one (as_numbers v) self = dropped_answer (as_number engine v self)
  call_one (to_strings v) self = dropped_answer (to_string engine v self)
  call_one (persists v) self = dropped_answer (persist v self)
  call_one (resolves root) self = dropped_answer (resolve root self)
  call_one (releases root) self = dropped_answer (release root self)
  call_one (externalizes owner made) self = dropped_answer (externalize owner made self)

  unfoldable pub calls : List (ScopeCall V) → Method (JscScope V) (Unit {0})
  calls [] = give tt
  calls (c ∷ l) = call_one c >> calls l

  -- A scope is opened, used and dropped.
  unfoldable pub session : List (ScopeCall V) → Shared V → JscScope V × Outcome (Unit {0})
  session l shared = (calls l >> drop_scope) (opened shared)

  call_one-Goes :
      (base : ℕ) (c : ScopeCall V) (self : JscScope V)
      → IsBalanced base self
      → Goes base self (call_one c self)
  unfolding call_one
  call_one-Goes base (primitives raw) self b =
      dropped-Goes base self _ (primitive-Goes engine base raw self b)
  call_one-Goes base (strings made) self b = dropped-Goes base self _ (string-Goes base made self b)
  call_one-Goes base (evaluates made) self b =
      dropped-Goes base self _ (evaluate-Goes engine base made self b)
  call_one-Goes base (invokes made function target arguments) self b =
      dropped-Goes base self _ (call-Goes engine base made function target arguments self b)
  call_one-Goes base (kinds v) self b = dropped-Goes base self _ (kind-Goes engine base v self b)
  call_one-Goes base (as_booleans v) self b =
      dropped-Goes base self _ (as_boolean-Goes engine base v self b)
  call_one-Goes base (as_numbers v) self b =
      dropped-Goes base self _ (as_number-Goes engine base v self b)
  call_one-Goes base (to_strings v) self b =
      dropped-Goes base self _ (to_string-Goes engine base v self b)
  call_one-Goes base (persists v) self b = dropped-Goes base self _ (persist-Goes base v self b)
  call_one-Goes base (resolves root) self b =
      dropped-Goes base self _ (resolve-Goes base root self b)
  call_one-Goes base (releases root) self b =
      dropped-Goes base self _ (release-Goes base root self b)
  call_one-Goes base (externalizes owner made) self b =
      dropped-Goes base self _ (externalize-Goes base owner made self b)

  calls-Goes :
      (base : ℕ) (l : List (ScopeCall V)) (self : JscScope V)
      → IsBalanced base self
      → Goes base self (calls l self)
  unfolding calls
  calls-Goes base [] self b = (self, tt, refl, b)
  calls-Goes base (c ∷ l) self b =
      let (s, o, e, b') = call_one-Goes base c self b in
      let (t, o', f, b'') = calls-Goes base l s b' in
      (t, o', seq-eq (call_one c) (calls l) self s e ∙ f, b'')

  -- A scope that is opened on settled state, used by any calls of its methods (the makers of values,
  -- evaluate, call, the readers, persist, resolve, release and externalize), whatever the engine
  -- gives to them, and dropped never panics, also not by the budget's check. Its drop unprotects each
  -- local root once: the budget is used as much as before, and the protections that are not undone
  -- are those of the persistent roots, counted by any test; the state is settled again.
  pub scope_balanced :
      (shared : Shared V) (l : List (ScopeCall V))
      → IsSettled shared
      → (s : JscScope V) × (session l shared ≡ (s, returned tt))
        × (s.shared.local_budget.used ≡ shared.local_budget.used)
        × ((p : V → Bool)
            → count p s.shared.protected
              ≡ count p s.shared.unprotected + count (holds p) s.shared.roots.slots)
        × IsSettled s.shared
  unfolding session
  scope_balanced shared l h =
      let (t, o, e, b) =
        calls-Goes shared.local_budget.used l (opened shared) (opened-IsBalanced shared h) in
      let (s, f, budget, r, u) = drop_scope-ends shared.local_budget.used t b in
      let same : (p : V → Bool)
          → count (holds p) t.shared.roots.slots ≡ count (holds p) s.shared.roots.slots =
        λ p. ap (λ (x : RootRegistry V). count (holds p) x.slots) (sym r) in
      let balanced : (p : V → Bool)
          → count p s.shared.protected
            ≡ count p s.shared.unprotected + count (holds p) s.shared.roots.slots =
        λ p. omega (arith, u p, same p) in
      (
        s,
        seq-eq (calls l) drop_scope (opened shared) t e ∙ f,
        ap (λ (x : LocalBudget). x.used) budget,
        balanced,
        record {
          sound = subst IsSound (sym r) b.sound;
          within = ground (arith, budget, b.within, b.counted);
          protections = balanced;
        },
      )
