-- ===== src/Jsc/Scope/Rooting.antt =====
-- backend-jsc/src/experimental/common.rs: the methods on persistent roots leave a scope balanced.
use rust_jsi.Base.{
  ℕ, inl, inr, refl, ap, Bool-cases, [], ◌∷◌, Option, none, some, Option-cases, Result, ok, err,
  Outcome, arith,
}
use rust_jsi.Host.Identity.{same_attachment}
use rust_jsi.Backend.Errors.{wrong_backend, stale_handle}
use rust_jsi.Jsc.Errors.{RuntimeError, persistent_root_limit_reached, map_runtime_error}
use rust_jsi.Jsc.Roots.{RootId, RootRegistry}
use rust_jsi.Jsc.Roots
use rust_jsi.Jsc.Roots.Results.{Keeps, remove-resolved, remove-unresolved}
use rust_jsi.Jsc.Roots.Turnover.{insert-cases}
use rust_jsi.Jsc.Scope.{
  JscScope, JscValue, JscRoot, protect, unprotect, with_roots, rooted_ok, persisted, persist,
  resolved, resolve, released, release,
}
use rust_jsi.Jsc.Scope.Laws.{IsBalanced, Goes, reserved-Goes, rooted_ok-Goes}

module _ {V : Type 0} where
  inserted-IsBalanced :
      (base : ℕ) (raw : V) (r : RootRegistry V) (self : JscScope V)
      → IsBalanced base self
      → Keeps self.shared.roots r (raw ∷ []) []
      → IsBalanced base (protect raw (with_roots r self)).0
  inserted-IsBalanced base raw r self b k = record {
    sound = k.sound;
    valid = b.valid;
    counted = b.counted;
    within = b.within;
    protections = λ p. omega (arith, b.protections p, k.conserves p);
  }

  persisted-Goes :
      (base : ℕ) (raw : V) (self : JscScope V)
      → IsBalanced base self
      → Goes base self (persisted raw (Roots.insert raw self.shared.roots) self)
  persisted-Goes base raw self b = elim (insert-cases self.shared.roots raw b.sound) [
    | inl (e, full) ↦ (
      self,
      err (map_runtime_error persistent_root_limit_reached),
      ap (λ (x : RootRegistry V × Outcome (Result RootId RuntimeError)). persisted raw x self) e,
      b,
    )
    | inr (id, r, (e, k, before, at, others, room)) ↦ (
      (protect raw (with_roots r self)).0,
      ok (record { attachment = self.shared.id; id = id }),
      ap (λ (x : RootRegistry V × Outcome (Result RootId RuntimeError)). persisted raw x self) e,
      inserted-IsBalanced base raw r self b k,
    )
  ]

  pub persist-Goes :
      (base : ℕ) (v : JscValue V) (self : JscScope V)
      → IsBalanced base self
      → Goes base self (persist v self)
  unfolding persist
  persist-Goes base v self b = elim (Bool-cases (same_attachment v.attachment self.shared.id)) [
    | inl e ↦ rw e (persisted-Goes base v.raw self b)
    | inr e ↦ rw e (self, err wrong_backend, refl, b)
  ]

  resolved-Goes :
      (base : ℕ) (o : Option V) (self : JscScope V)
      → IsBalanced base self
      → Goes base self (resolved o self)
  unfolding resolved
  resolved-Goes base none self b = (self, err stale_handle, refl, b)
  resolved-Goes base (some raw) self b =
      reserved-Goes base (rooted_ok raw) self b (rooted_ok-Goes base raw self b)

  pub resolve-Goes :
      (base : ℕ) (root : JscRoot) (self : JscScope V)
      → IsBalanced base self
      → Goes base self (resolve root self)
  unfolding resolve
  resolve-Goes base root self b =
      elim (Bool-cases (same_attachment root.attachment self.shared.id)) [
        | inl e ↦ rw e (resolved-Goes base (Roots.get self.shared.roots root.id) self b)
        | inr e ↦ rw e (self, err wrong_backend, refl, b)
      ]

  removed-IsBalanced :
      (base : ℕ) (raw : V) (r : RootRegistry V) (self : JscScope V)
      → IsBalanced base self
      → Keeps self.shared.roots r [] (raw ∷ [])
      → IsBalanced base (unprotect raw (with_roots r self)).0
  removed-IsBalanced base raw r self b k = record {
    sound = k.sound;
    valid = b.valid;
    counted = b.counted;
    within = b.within;
    protections = λ p. omega (arith, b.protections p, k.conserves p);
  }

  released-Goes :
      (base : ℕ) (id : RootId) (self : JscScope V)
      → IsBalanced base self
      → Goes base self (released (Roots.remove id self.shared.roots) self)
  released-Goes base id self b = elim (Option-cases (Roots.get self.shared.roots id)) [
    | inl e ↦ (
      self,
      err stale_handle,
      ap (λ (x : RootRegistry V × Outcome (Option V)). released x self)
          (remove-unresolved self.shared.roots id e),
      b,
    )
    | inr (raw, e) ↦
        let (r, f, k, stale) = remove-resolved self.shared.roots id raw b.sound e in
        (
          (unprotect raw (with_roots r self)).0,
          ok tt,
          ap (λ (x : RootRegistry V × Outcome (Option V)). released x self) f,
          removed-IsBalanced base raw r self b k,
        )
  ]

  pub release-Goes :
      (base : ℕ) (root : JscRoot) (self : JscScope V)
      → IsBalanced base self
      → Goes base self (release root self)
  unfolding release
  release-Goes base root self b =
      elim (Bool-cases (same_attachment root.attachment self.shared.id)) [
        | inl e ↦ rw e (released-Goes base root.id self b)
        | inr e ↦ rw e (self, err wrong_backend, refl, b)
      ]
