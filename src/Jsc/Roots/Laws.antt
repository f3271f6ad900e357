-- ===== src/Jsc/Roots/Laws.antt =====
-- backend-jsc/src/experimental.rs: the registry of persistent roots through any sequence of calls.
use rust_jsi.Base.{
  ℕ, ◌+◌, ◌≤◌, ◌<◌, ◌≡◌, ◌≢◌, ◌⊎◌, inl, inr, refl, ap, ◌∙◌, Bool, List, [], ◌∷◌, length, none, some,
  returned, ok, err, arith,
}
use rust_jsi.Jsc.Generations.{count}
use rust_jsi.Jsc.Errors.{persistent_root_limit_reached}
use rust_jsi.Jsc.Roots.{
  RootId, RootRegistry, new, counts, get, insert, remove, request_release, drain,
}
use rust_jsi.Jsc.Roots.Invariant.{retired, IsSound, new-IsSound, occupied, awaiting}
use rust_jsi.Jsc.Roots.Evolution.{Stale, Stale-Grows, Stale-get, holds}
use rust_jsi.Jsc.Roots.Results.{remove-resolved, request-resolved}
use rust_jsi.Jsc.Roots.Turnover.{insert-cases, drain-Keeps, drain-Stale}
use rust_jsi.Jsc.Roots.Calls.{
  RootCall, inserts, removes, requests, takes, drains, Account, given, drained, call, after,
  after-Went,
}

module _ {V : Type 0} where
  abbrev pub opened : ℕ → Account V
  opened limit = record { registry = new limit; protected = []; unprotected = [] }

  -- Whatever the sequence of calls on a new registry, no call panics: no index is out of range, no
  -- counter falls below 0 and the pending list never reaches a live slot. There are never more slots
  -- than the limit, `counts` gives the occupied and the pending slots exactly, and every value that
  -- was inserted, counted by any test, is in the registry or was given back, once each.
  pub roots_balanced :
      (limit : ℕ) (calls : List (RootCall V))
      → (b : Account V) × (after calls (returned (opened limit)) ≡ returned b)
        × (length b.registry.slots ≤ limit)
        × (counts b.registry ≡ (count occupied b.registry.slots, count awaiting b.registry.slots))
        × ((p : V → Bool)
            → count p b.protected ≡ count (holds p) b.registry.slots + count p b.unprotected)
  roots_balanced limit calls =
      let (b, e, (sound, g, m, k)) = after-Went calls (opened limit) (new-IsSound limit) in
      (
        b,
        e,
        omega (arith, sound.room, m),
        ground (arith, sound.live_counted, sound.pending_length, sound.pending_counted),
        λ p. omega (arith, k p),
      )

  abbrev pub EndsRoot : RootId → RootCall V → Type 0
  EndsRoot id (removes j) = j ≡ id
  EndsRoot id (requests j) = j ≡ id
  EndsRoot id drains = Unit
  EndsRoot id (inserts v) = ⊥
  EndsRoot id takes = ⊥

  ended-Stale :
      (a : Account V) (id : RootId) (v : V) (c : RootCall V)
      → IsSound a.registry
      → get a.registry id ≡ some v
      → EndsRoot id c
      → (b : Account V) × (call c a ≡ returned b) × IsSound b.registry × Stale b.registry.slots id
  unfolding call
  ended-Stale a id v (removes j) sound h e =
      let (r, f, k, stale) = remove-resolved a.registry id v sound h in
      (
        record a { registry = r; unprotected = v ∷ a.unprotected },
        ap (λ (j : RootId). given a (remove j a.registry)) e ∙ ap (given a) f,
        k.sound,
        stale,
      )
  ended-Stale a id v (requests j) sound h e =
      let (r, f, k, stale) = request-resolved a.registry id v sound h in
      (
        record a { registry = r },
        ap (λ (j : RootId). returned (record a { registry = request_release j a.registry })) e
            ∙ ap (λ (r : RootRegistry V). returned (record a { registry = r })) f,
        k.sound,
        stale,
      )
  ended-Stale a id v drains sound h e = (
    drained a (drain a.registry),
    refl,
    (drain-Keeps a.registry sound).sound,
    drain-Stale a.registry id v sound h,
  )
  ended-Stale a id v (inserts w) sound h e = elim e [ ]
  ended-Stale a id v takes sound h e = elim e [ ]

  -- Once a root that resolves is removed, asked to be released or drained, its id never resolves
  -- again: not while the release is pending, and not after the slot is used again for another value,
  -- whatever calls follow.
  pub stale_never_resolves :
      (a : Account V) (id : RootId) (v : V) (c : RootCall V) (calls : List (RootCall V))
      → IsSound a.registry
      → get a.registry id ≡ some v
      → EndsRoot id c
      → (b : Account V) × (after (c ∷ calls) (returned a) ≡ returned b) × (get b.registry id ≡ none)
  unfolding after
  stale_never_resolves a id v c calls sound h ends =
      let (b, e, sound', stale) = ended-Stale a id v c sound h ends in
      let (d, f, w) = after-Went calls b sound' in
      (
        d,
        ap (after calls) e ∙ f,
        Stale-get d.registry id (Stale-Grows b.registry.slots d.registry.slots id w.1 stale),
      )

  -- `insert` refuses a value exactly when every slot up to the limit is occupied or has used up its
  -- generations, and changes nothing then. Otherwise it gives an id that did not resolve before and
  -- resolves to the value now, while every other id resolves as before; removing that id gives the
  -- value back, and it resolves no more.
  pub insert_lem :
      (self : RootRegistry V) (v : V)
      → IsSound self
      → ((insert v self ≡ (self, returned (err persistent_root_limit_reached)))
          × (self.live + count retired self.slots ≡ self.limit))
        ⊎ ((id : RootId) × (r q : RootRegistry V) × (insert v self ≡ (r, returned (ok id)))
            × (self.live + count retired self.slots < self.limit)
            × (get self id ≡ none)
            × (get r id ≡ some v)
            × ((j : RootId) → j ≢ id → get r j ≡ get self j)
            × (remove id r ≡ (q, returned (some v)))
            × (get q id ≡ none))
  insert_lem self v sound = elim (insert-cases self v sound) [
    | inl full ↦ inl full
    | inr (id, r, (e, k, before, at, others, room)) ↦
        let (q, f, k', stale) = remove-resolved r id v k.sound at in
        inr (id, r, q, e, room, before, at, others, f, Stale-get q id stale)
  ]
