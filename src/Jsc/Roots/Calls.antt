-- ===== src/Jsc/Roots/Calls.antt =====
-- backend-jsc/src/experimental.rs: sequences of calls on a registry of persistent roots, with the
-- values that are protected for it and those that it gives back for `value_unprotect`.
use rust_jsi.Base.{
  ◌+◌, ◌≡◌, inl, inr, refl, ap, ◌∙◌, Bool, List, [], ◌∷◌, ◌++◌, Option, none, some, Option-cases,
  Outcome, returned, panicked, Result, ok, err, arith,
}
use rust_jsi.Jsc.Errors.{RuntimeError}
use rust_jsi.Jsc.Generations.{count, count-append}
use rust_jsi.Jsc.Roots.{
  RootId, RootRegistry, get, insert, remove, request_release, take_pending, drain,
}
use rust_jsi.Jsc.Roots.Invariant.{IsSound}
use rust_jsi.Jsc.Roots.Evolution.{Grows, Grows-refl, Grows-trans, holds}
use rust_jsi.Jsc.Roots.Results.{
  Keeps, Keeps-refl, remove-resolved, remove-unresolved, request-resolved, request-unresolved,
}
use rust_jsi.Jsc.Roots.Taking.{take_pending-cases}
use rust_jsi.Jsc.Roots.Turnover.{insert-cases, drain-Keeps}

pub data RootCall (V : Type 0) : Type 0 where
  inserts : V → RootCall V
  removes : RootId → RootCall V
  requests : RootId → RootCall V
  takes : RootCall V
  drains : RootCall V

-- A registry, the values inserted into it and the values that it gave back.
pub record Account (V : Type 0) : Type 0 where
  pub registry : RootRegistry V
  pub protected : List V
  pub unprotected : List V

module _ {V : Type 0} where
  abbrev pub inserted :
      V → Account V → RootRegistry V × Outcome (Result RootId RuntimeError) → Outcome (Account V)
  inserted v a (r, returned (ok id)) =
      returned (record a { registry = r; protected = v ∷ a.protected })
  inserted v a (r, returned (err e)) = returned (record a { registry = r })
  inserted v a (r, panicked) = panicked

  abbrev pub given : Account V → RootRegistry V × Outcome (Option V) → Outcome (Account V)
  given a (r, returned (some v)) =
      returned (record a { registry = r; unprotected = v ∷ a.unprotected })
  given a (r, returned none) = returned (record a { registry = r })
  given a (r, panicked) = panicked

  abbrev pub drained : Account V → RootRegistry V × List V → Account V
  drained a (r, l) = record a { registry = r; unprotected = l ++ a.unprotected }

  unfoldable pub call : RootCall V → Account V → Outcome (Account V)
  call (inserts v) a = inserted v a (insert v a.registry)
  call (removes id) a = given a (remove id a.registry)
  call (requests id) a = returned (record a { registry = request_release id a.registry })
  call takes a = given a (take_pending a.registry)
  call drains a = returned (drained a (drain a.registry))

  unfoldable pub after : List (RootCall V) → Outcome (Account V) → Outcome (Account V)
  unfolding call
  after calls panicked = panicked
  after [] (returned a) = returned a
  after (c ∷ calls) (returned a) = after calls (call c a)

  -- A call went on without a panic, and kept what holds between calls.
  abbrev pub Went : Account V → Account V → Type 0
  Went a b =
      IsSound b.registry
      × Grows a.registry.slots b.registry.slots
      × (b.registry.limit ≡ a.registry.limit)
      × ((p : V → Bool)
          → count (holds p) b.registry.slots + count p b.unprotected + count p a.protected
            ≡ count (holds p) a.registry.slots + count p a.unprotected + count p b.protected)

  Went-of :
      (a : Account V) (r : RootRegistry V) (came went : List V)
      → Keeps a.registry r came went
      → Went a (record {
        registry = r;
        protected = came ++ a.protected;
        unprotected = went ++ a.unprotected;
      })
  Went-of a r came went k = (
    k.sound,
    k.grows,
    k.same_limit,
    λ p.
        omega (
          arith,
          k.conserves p,
          count-append p came a.protected,
          count-append p went a.unprotected,
        ),
  )

  pub call-Went :
      (c : RootCall V) (a : Account V)
      → IsSound a.registry
      → (b : Account V) × (call c a ≡ returned b) × Went a b
  unfolding call
  call-Went (inserts v) a sound = elim (insert-cases a.registry v sound) [
    | inl (e, full) ↦
        (a, ap (inserted v a) e, Went-of a a.registry [] [] (Keeps-refl a.registry sound))
    | inr (id, r, (e, k, before, at, others, room)) ↦ (
      record a { registry = r; protected = v ∷ a.protected },
      ap (inserted v a) e,
      Went-of a r (v ∷ []) [] k,
    )
  ]
  call-Went (removes id) a sound = elim (Option-cases (get a.registry id)) [
    | inl e ↦ (
      a,
      ap (given a) (remove-unresolved a.registry id e),
      Went-of a a.registry [] [] (Keeps-refl a.registry sound),
    )
    | inr (v, e) ↦
        let (r, f, k, stale) = remove-resolved a.registry id v sound e in
        (
          record a { registry = r; unprotected = v ∷ a.unprotected },
          ap (given a) f,
          Went-of a r [] (v ∷ []) k,
        )
  ]
  call-Went (requests id) a sound = elim (Option-cases (get a.registry id)) [
    | inl e ↦ (
      a,
      ap (λ (r : RootRegistry V). returned (record a { registry = r }))
          (request-unresolved a.registry id e),
      Went-of a a.registry [] [] (Keeps-refl a.registry sound),
    )
    | inr (v, e) ↦
        let (r, f, k, stale) = request-resolved a.registry id v sound e in
        (
          record a { registry = r },
          ap (λ (r : RootRegistry V). returned (record a { registry = r })) f,
          Went-of a r [] [] k,
        )
  ]
  call-Went takes a sound = elim (take_pending-cases a.registry sound) [
    | inl (z, e) ↦ (a, ap (given a) e, Went-of a a.registry [] [] (Keeps-refl a.registry sound))
    | inr (r, v, (e, less, less_live, k, same)) ↦ (
      record a { registry = r; unprotected = v ∷ a.unprotected },
      ap (given a) e,
      Went-of a r [] (v ∷ []) k,
    )
  ]
  call-Went drains a sound = (
    drained a (drain a.registry),
    refl,
    Went-of a (drain a.registry).0 [] (drain a.registry).1 (drain-Keeps a.registry sound),
  )

  Went-trans : (a b c : Account V) → Went a b → Went b c → Went a c
  Went-trans a b c (s, g, m, k) (s', g', m', k') = (
    s',
    Grows-trans a.registry.slots b.registry.slots c.registry.slots g g',
    m' ∙ m,
    λ p. omega (arith, k p, k' p),
  )

  Went-refl : (a : Account V) → IsSound a.registry → Went a a
  Went-refl a sound = (sound, Grows-refl a.registry.slots, refl, λ p. refl)

  pub after-Went :
      (calls : List (RootCall V)) (a : Account V)
      → IsSound a.registry
      → (b : Account V) × (after calls (returned a) ≡ returned b) × Went a b
  unfolding after
  after-Went [] a sound = (a, refl, Went-refl a sound)
  after-Went (c ∷ calls) a sound =
      let (b, e, w) = call-Went c a sound in
      let (d, f, w') = after-Went calls b w.0 in (d, ap (after calls) e ∙ f, Went-trans a b d w w')
