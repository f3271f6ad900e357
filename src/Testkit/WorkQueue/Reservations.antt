-- ===== src/Testkit/WorkQueue/Reservations.antt =====
-- testkit/src/work_queue.rs: the sequence numbers of reservations.
use rust_jsi.Base.{
  ℕ, ◌+◌, ◌≤◌, ◌<◌, ◌≡◌, ◌≢◌, ◌⊎◌, refl, subst, Bool, true, false, List, [], ◌∷◌, All, Option, none,
  some, err, arith, inl, inr, ◌==◌, ◌||◌, Bool-cases, Option-cases, ==→≡,
}
use rust_jsi.Host.Identity.{u64_max}
use rust_jsi.Testkit.WorkQueue.{
  WorkQueueModel, WorkQueueState, PublishError, contains, remove, after, new, reserve, publish,
  abandon, begin_close, begin_drain, pop, finish_drain, begin_terminal_drain, pop_terminal,
  finish_terminal_drain, release_terminal_drain,
}
use rust_jsi.Testkit.WorkQueue.Laws.{Action, reserves, publishes, abandons, act, run}

-- The next number that is issued; past the end when none is left.
abbrev fresh : Option ℕ → ℕ
fresh none = u64_max + 1
fresh (some n) = n

or-false : (a b : Bool) → (a || b) ≡ false → (a ≡ false) × (b ≡ false)
or-false a b h = ground arith

or-right : (a b : Bool) → a ≡ false → (a || b) ≡ true → b ≡ true
or-right a b e h = ground arith

contains-remove : (r : ℕ) (l : List ℕ) → contains r (remove r l) ≡ false
contains-remove r [] = refl
contains-remove r (m ∷ l) = elim (Bool-cases (m == r)) [
  | inl e ↦ rw (e) (contains-remove r l)
  | inr e ↦ ground (arith, e, contains-remove r l)
]

contains-remove-other :
    (r s : ℕ) (l : List ℕ) → contains r l ≡ false → contains r (remove s l) ≡ false
contains-remove-other r s [] h = refl
contains-remove-other r s (m ∷ l) h =
    let (other, rest) = or-false (m == r) (contains r l) h in
    elim (Bool-cases (m == s)) [
      | inl e ↦ rw (e) (contains-remove-other r s l rest)
      | inr e ↦ rw (e, other) (contains-remove-other r s l rest)
    ]

All-remove : (b s : ℕ) (l : List ℕ) → All (λ r. r < b) l → All (λ r. r < b) (remove s l)
All-remove b s [] h = tt
All-remove b s (m ∷ l) h = elim (Bool-cases (m == s)) [
  | inl e ↦ rw (e) (All-remove b s l h.1)
  | inr e ↦ rw (e) (h.0, All-remove b s l h.1)
]

All-mono : (b c : ℕ) (l : List ℕ) → b ≤ c → All (λ r. r < b) l → All (λ r. r < c) l
All-mono b c [] k h = tt
All-mono b c (m ∷ l) k h = (omega (arith, h.0), All-mono b c l k h.1)

contains-All : (b r : ℕ) (l : List ℕ) → All (λ m. m < b) l → contains r l ≡ true → r < b
contains-All b r [] h c = absurd (ground arith)
contains-All b r (m ∷ l) h c = elim (Bool-cases (m == r)) [
  | inl e ↦ subst (λ k. k < b) (==→≡ m r e) h.0
  | inr e ↦ contains-All b r l h.1 (or-right (m == r) (contains r l) e c)
]

InRange : Option ℕ → Type 0
InRange o = (o ≡ none) ⊎ (fresh o ≤ u64_max)

fresh-after : (n : ℕ) → n ≤ u64_max → (n < fresh (after n)) × InRange (after n)
unfolding InRange
fresh-after n h = ground arith

State-cases :
    (s : WorkQueueState) → (s ≡ WorkQueueState.open_queue) ⊎ (s ≢ WorkQueueState.open_queue)
State-cases s = ground arith

-- What a call does to the reservations and to the next number: nothing, a removal, or the issue of
-- the next number.
Moved : List ℕ → Option ℕ → List ℕ → Option ℕ → Type 0
Moved l o k p =
    ((k ≡ l) × (p ≡ o))
    ⊎ ((s : ℕ) × (k ≡ remove s l) × (p ≡ o))
    ⊎ ((n : ℕ) × (o ≡ some n) × (k ≡ n ∷ l) × (p ≡ after n))

module _ {T : Type 0} where
  act-Moved :
      (a : Action T) (m : WorkQueueModel T)
      → Moved m.reservations m.next_reservation (act a m).reservations (act a m).next_reservation
  unfolding Moved reserve publish abandon begin_close begin_drain pop finish_drain
      begin_terminal_drain pop_terminal finish_terminal_drain release_terminal_drain
  act-Moved reserves m = elim (Option-cases m.next_reservation) [
    | inl e ↦ inl (ground (arith, e))
    | inr (n, e) ↦ elim (State-cases m.state) [
      | inl o ↦ inr (inr (n, e, ground (arith, e, o), ground (arith, e, o)))
      | inr c ↦ inl (ground (arith, c))
    ]
  ]
  act-Moved (publishes r x) m = elim (Bool-cases (contains r m.reservations)) [
    | inl e ↦ inr (inl (r, ground (arith, e), ground (arith, e)))
    | inr e ↦ inl (ground (arith, e))
  ]
  act-Moved (abandons r) m = elim (Bool-cases (contains r m.reservations)) [
    | inl e ↦ inr (inl (r, ground (arith, e), ground (arith, e)))
    | inr e ↦ inl (ground (arith, e))
  ]
  act-Moved _ m = inl (ground arith)

-- The reservations in flight are numbers that have been issued.
record Issued (l : List ℕ) (o : Option ℕ) : Type 0 where
  in_range : InRange o
  below : All (λ r. r < fresh o) l

-- A number that has been issued and is not in flight.
record Settled (r : ℕ) (l : List ℕ) (o : Option ℕ) : Type 0 where
  in_range : InRange o
  issued : r < fresh o
  gone : contains r l ≡ false

issued-InRange : (n : ℕ) (o : Option ℕ) → o ≡ some n → InRange o → n ≤ u64_max
unfolding InRange
issued-InRange n o e v = ground (arith, v, e)

Moved-Issued :
    (l : List ℕ) (o : Option ℕ) (k : List ℕ) (p : Option ℕ)
    → Moved l o k p
    → Issued l o
    → Issued k p
unfolding Moved
Moved-Issued l o k p (inl (e, f)) v = rw (e, f) v
Moved-Issued l o k p (inr (inl (s, e, f))) v =
    rw (e, f) (record { in_range = v.in_range; below = All-remove _ s l v.below })
Moved-Issued l o k p (inr (inr (n, e, f, g))) v =
    let room : n ≤ u64_max = issued-InRange n o e v.in_range in
    let more = fresh-after n room in
    let below : All (λ r. r < n) l = subst (λ q. All (λ r. r < fresh q) l) e v.below in
    rw (f, g)
      (record { in_range = more.1; below = (more.0, All-mono n _ l (omega (arith, more.0)) below) })

Moved-Settled :
    (r : ℕ) (l : List ℕ) (o : Option ℕ) (k : List ℕ) (p : Option ℕ)
    → Moved l o k p
    → Settled r l o
    → Settled r k p
unfolding Moved
Moved-Settled r l o k p (inl (e, f)) v = rw (e, f) v
Moved-Settled r l o k p (inr (inl (s, e, f))) v =
    rw (e, f)
      (record {
        in_range = v.in_range;
        issued = v.issued;
        gone = contains-remove-other r s l v.gone;
      })
Moved-Settled r l o k p (inr (inr (n, e, f, g))) v =
    let room : n ≤ u64_max = issued-InRange n o e v.in_range in
    let more = fresh-after n room in
    let earlier : r < n = subst (λ q. r < fresh q) e v.issued in
    rw (f, g)
      (record {
        in_range = more.1;
        issued = omega (arith, more.0, earlier);
        gone = ground (arith, earlier, v.gone);
      })

new-Issued : Issued [] (some 1)
unfolding InRange
new-Issued = record { in_range = inr (omega arith); below = tt }

module _ {T : Type 0} where
  run-Issued :
      (l : List (Action T)) (m : WorkQueueModel T)
      → Issued m.reservations m.next_reservation
      → Issued (run l m).reservations (run l m).next_reservation
  run-Issued [] m v = v
  run-Issued (a ∷ l) m v = run-Issued l (act a m) (Moved-Issued _ _ _ _ (act-Moved a m) v)

  run-Settled :
      (r : ℕ) (l : List (Action T)) (m : WorkQueueModel T)
      → Settled r m.reservations m.next_reservation
      → Settled r (run l m).reservations (run l m).next_reservation
  run-Settled r [] m v = v
  run-Settled r (a ∷ l) m v = run-Settled r l (act a m) (Moved-Settled r _ _ _ _ (act-Moved a m) v)

  settles :
      (r : ℕ) (x : T) (m : WorkQueueModel T)
      → contains r m.reservations ≡ true
      → ((publish r x m).0.reservations ≡ remove r m.reservations)
        × ((publish r x m).0.next_reservation ≡ m.next_reservation)
  unfolding publish
  settles r x m h = (ground (arith, h), ground (arith, h))

  stale :
      (r : ℕ) (x : T) (m : WorkQueueModel T)
      → contains r m.reservations ≡ false
      → publish r x m ≡ (m, err (PublishError.stale_reservation x))
  unfolding publish
  stale r x m h = ground (arith, h)

  -- A reservation is settled once: after any calls, a publication that uses it up makes every later
  -- publication with it stale, whatever is called in between, and gives that payload back.
  pub reservation_used_once :
      (l k : List (Action T)) (n r : ℕ) (x y : T)
      → contains r (run l (new n)).reservations ≡ true
      → let m = run k (publish r x (run l (new n))).0 in
        publish r y m ≡ (m, err (PublishError.stale_reservation y))
  reservation_used_once l k n r x y h =
      let before = run l (new n) in
      let v : Issued before.reservations before.next_reservation =
        run-Issued l (new n) new-Issued in
      let (removed, same) = settles r x before h in
      let first : Settled r (publish r x before).0.reservations
          (publish r x before).0.next_reservation =
        rw (removed, same)
          (record {
            in_range = v.in_range;
            issued = contains-All _ r before.reservations v.below h;
            gone = contains-remove r before.reservations;
          }) in
      stale r y _ (run-Settled r k (publish r x before).0 first).gone
