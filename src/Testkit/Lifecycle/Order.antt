-- ===== src/Testkit/Lifecycle/Order.antt =====
-- testkit/src/lifecycle.rs: the order of the events, as an automaton that reads them.
use rust_jsi.Base.{
  ℕ, zero, suc, ◌≡◌, ◌⊎◌, inl, inr, refl, sym, ap, subst, ◌∙◌, Bool, true, false, not,
  if◌then◌else◌, Bool-cases, List, [], ◌∷◌, ◌++◌, null, length, Option, none, some, Result, ok, err,
  arith, length-append,
}
use rust_jsi.Host.Identity.{AttachmentId, same_attachment, checked_add}
use rust_jsi.Testkit.Lifecycle.{
  RuntimeState, LifecycleModel, LifecycleEvent, entered, exited, drain_requested, drain_ready,
  invalidated, Entry, entry_of, new, enter, enter_in, enter_next, exit, exit_at, ready_in,
  invalidate_in, request_invalidate, finish_drain, finish_in, destroy, destroy_in, emit,
  entries_remain, LifecycleError, active_entries,
}
use rust_jsi.Testkit.Lifecycle.Swaps.{position, swap_remove, length-swap_remove}
use rust_jsi.Testkit.Lifecycle.Laws.{
  Call, enters, exits, invalidates, finishes, destroys, step, run,
}

-- What the events so far amount to, with the number of live entries.
pub data Phase : Type 0 where
  open_phase : ℕ → Phase
  waiting : ℕ → Phase
  ready ended gone : Phase

-- The events that may come next.
pub advance : Phase → LifecycleEvent → Option Phase
advance (open_phase n) (entered e) = some (open_phase (suc n))
advance (open_phase (suc n)) (exited e) = some (open_phase n)
advance (open_phase n) drain_requested = some (waiting n)
advance (waiting (suc n)) (exited e) = some (waiting n)
advance (waiting zero) drain_ready = some ready
advance ready invalidated = some ended
advance ended LifecycleEvent.destroyed = some gone
advance phase event = none

abbrev pub advanced : Option Phase → LifecycleEvent → Option Phase
unfolding advance
advanced none event = none
advanced (some phase) event = advance phase event

pub replay : Option Phase → List LifecycleEvent → Option Phase
unfolding advanced
replay phase [] = phase
replay phase (e ∷ l) = replay (advanced phase e) l

replay-append :
    (o : Option Phase) (l : List LifecycleEvent) (e : LifecycleEvent)
    → replay o (l ++ e ∷ []) ≡ advanced (replay o l) e
unfolding replay
replay-append o [] e = refl
replay-append o (x ∷ l) e = replay-append (advanced o x) l e

-- The phase of a state with this many live entries; a draining model without one is ready.
abbrev pub phase_of : RuntimeState → ℕ → Phase
phase_of RuntimeState.active n = open_phase n
phase_of RuntimeState.draining zero = ready
phase_of RuntimeState.draining (suc n) = waiting (suc n)
phase_of RuntimeState.invalid n = ended
phase_of RuntimeState.destroyed n = gone

-- The events are in order, and they tell the state; no entry is live once the drain is finished.
abbrev pub InOrder : LifecycleModel → Type 0
InOrder m =
    (replay (some (open_phase 0)) m.events ≡ some (phase_of m.state (length m.live_entries)))
    × ((m.state ≡ RuntimeState.active) ⊎ (m.state ≡ RuntimeState.draining) ⊎ (m.live_entries ≡ []))

abbrev start : Option Phase
start = some (open_phase 0)

-- One more event.
push_event :
    (l : List LifecycleEvent) (e : LifecycleEvent) (p q : Phase)
    → replay start l ≡ some p
    → advance p e ≡ some q
    → replay start (l ++ e ∷ []) ≡ some q
unfolding advanced
push_event l e p q h k = replay-append start l e ∙ ap (λ (o : Option Phase). advanced o e) h ∙ k

abbrev over : RuntimeState → Bool
over RuntimeState.active = false
over RuntimeState.draining = false
over RuntimeState.invalid = true
over RuntimeState.destroyed = true

ended_alive :
    (r : RuntimeState) (l : List ℕ)
    → over r ≡ true
    → (r ≡ RuntimeState.active) ⊎ (r ≡ RuntimeState.draining) ⊎ (l ≡ [])
    → l ≡ []
ended_alive r l o (inl e) = ground arith
ended_alive r l o (inr (inl e)) = ground arith
ended_alive r l o (inr (inr e)) = e

new-InOrder : (a : AttachmentId) → InOrder (new a)
unfolding replay
new-InOrder a = (refl, inl refl)

-- The fields that an operation leaves, by the state that it is called in.
abbrev InOrderAs : RuntimeState → LifecycleModel → Type 0
InOrderAs r m =
    (replay start m.events ≡ some (phase_of r (length m.live_entries)))
    × ((r ≡ RuntimeState.active) ⊎ (r ≡ RuntimeState.draining) ⊎ (m.live_entries ≡ []))

InOrder-of : (r : RuntimeState) (m : LifecycleModel) → m.state ≡ r → InOrderAs r m → InOrder m
InOrder-of r m e s = subst (λ (x : RuntimeState). InOrderAs x m) (sym e) s

next_opened :
    (m : LifecycleModel) (o : Option ℕ)
    → m.state ≡ RuntimeState.active
    → InOrderAs RuntimeState.active m
    → InOrder (enter_next o m).0
unfolding advance
next_opened m none e s = InOrder-of RuntimeState.active m e s
next_opened m (some n) e (h, alive) = InOrder-of RuntimeState.active (enter_next (some n) m).0 e (
  push_event m.events (entered (entry_of m)) (open_phase (length m.live_entries))
      (open_phase (length (m.live_entries ++ m.next_entry ∷ []))) h
      (ap (λ (n : ℕ). some (open_phase n))
        (omega (arith, length-append m.live_entries (m.next_entry ∷ [])))),
  inl refl,
)

enter_in-InOrder :
    (r : RuntimeState) (m : LifecycleModel) → m.state ≡ r → InOrderAs r m → InOrder (enter_in r m).0
enter_in-InOrder RuntimeState.active m e s = next_opened m (checked_add m.next_entry 1) e s
enter_in-InOrder RuntimeState.draining m e s = InOrder-of RuntimeState.draining m e s
enter_in-InOrder RuntimeState.invalid m e s = InOrder-of RuntimeState.invalid m e s
enter_in-InOrder RuntimeState.destroyed m e s = InOrder-of RuntimeState.destroyed m e s

enter-InOrder : (m : LifecycleModel) → InOrder m → InOrder (enter m).0
unfolding enter
enter-InOrder m s = enter_in-InOrder m.state m refl s

ready_list :
    (l : List ℕ) (m : LifecycleModel)
    → m.live_entries ≡ l
    → m.state ≡ RuntimeState.draining
    → replay start m.events ≡ some (waiting (length l))
    → InOrder (if null l then emit drain_ready m else m)
unfolding advance
ready_list [] m e s h = InOrder-of RuntimeState.draining (emit drain_ready m) s (
  push_event m.events drain_ready (waiting 0) ready h refl
      ∙ ap (λ (l : List ℕ). some (phase_of RuntimeState.draining (length l))) (sym e),
  inr (inl refl),
)
ready_list (x ∷ l) m e s h = InOrder-of RuntimeState.draining m s (
  h ∙ ap (λ (l : List ℕ). some (phase_of RuntimeState.draining (length l))) (sym e),
  inr (inl refl),
)

ready-InOrder :
    (m : LifecycleModel)
    → m.state ≡ RuntimeState.draining
    → replay start m.events ≡ some (waiting (length m.live_entries))
    → InOrder (ready_in RuntimeState.draining m)
ready-InOrder m s h = ready_list m.live_entries m refl s h

module _ (e : Entry) (i : ℕ) (m : LifecycleModel)
    (h : position e.sequence m.live_entries ≡ some i) where
  abbrev left : LifecycleModel
  left = record m {
    live_entries = swap_remove i m.live_entries;
    events = m.events ++ exited e ∷ [];
  }

  one_less : length m.live_entries ≡ suc (length left.live_entries)
  one_less = omega (arith, length-swap_remove e.sequence i m.live_entries h)

  not_empty : m.live_entries ≡ [] → ⊥
  not_empty z = absurd (omega (arith, one_less, ap (λ (l : List ℕ). length l) z))

  exit_in-InOrder : (r : RuntimeState) → m.state ≡ r → InOrderAs r m → InOrder (ready_in r left)
  unfolding advance
  exit_in-InOrder RuntimeState.active s (f, alive) = InOrder-of RuntimeState.active left s (
    push_event m.events (exited e) (open_phase (suc (length left.live_entries)))
        (open_phase (length left.live_entries)) (f ∙ ap (λ (n : ℕ). some (open_phase n)) one_less)
        refl,
    inl refl,
  )
  exit_in-InOrder RuntimeState.draining s (f, alive) = ready-InOrder left s (
      push_event m.events (exited e) (waiting (suc (length left.live_entries)))
        (waiting (length left.live_entries))
        (f ∙ ap (λ (n : ℕ). some (phase_of RuntimeState.draining n)) one_less) refl)
  exit_in-InOrder RuntimeState.invalid s (f, alive) =
      absurd (not_empty (ended_alive RuntimeState.invalid m.live_entries refl alive))
  exit_in-InOrder RuntimeState.destroyed s (f, alive) =
      absurd (not_empty (ended_alive RuntimeState.destroyed m.live_entries refl alive))

exit_at-InOrder :
    (e : Entry) (o : Option ℕ) (m : LifecycleModel)
    → position e.sequence m.live_entries ≡ o
    → InOrder m
    → InOrder (exit_at o e m).0
exit_at-InOrder e none m h s = s
exit_at-InOrder e (some i) m h s = exit_in-InOrder e i m h m.state refl s

exit-InOrder : (e : Entry) (m : LifecycleModel) → InOrder m → InOrder (exit e m).0
unfolding exit
exit-InOrder e m s = elim (Bool-cases (same_attachment e.attachment m.attachment)) [
  | inl h ↦ rw h (exit_at-InOrder e (position e.sequence m.live_entries) m refl s)
  | inr h ↦ rw h s
]

invalidate_in-InOrder :
    (r : RuntimeState) (m : LifecycleModel)
    → m.state ≡ r
    → InOrderAs r m
    → InOrder (invalidate_in r m)
unfolding advance
invalidate_in-InOrder RuntimeState.active m e (h, alive) =
    ready-InOrder
      (record m { state = RuntimeState.draining; events = m.events ++ drain_requested ∷ [] }) refl
      (push_event m.events drain_requested (open_phase (length m.live_entries))
        (waiting (length m.live_entries)) h refl)
invalidate_in-InOrder RuntimeState.draining m e s = InOrder-of RuntimeState.draining m e s
invalidate_in-InOrder RuntimeState.invalid m e s = InOrder-of RuntimeState.invalid m e s
invalidate_in-InOrder RuntimeState.destroyed m e s = InOrder-of RuntimeState.destroyed m e s

abbrev finished : List ℕ → LifecycleModel → LifecycleModel × Result (Unit {0}) LifecycleError
finished l m =
    if not (null l)
    then (m, err (entries_remain (active_entries m)))
    else (record m { state = RuntimeState.invalid; events = m.events ++ invalidated ∷ [] }, ok tt)

finish_list :
    (l : List ℕ) (m : LifecycleModel)
    → m.live_entries ≡ l
    → InOrderAs RuntimeState.draining m
    → m.state ≡ RuntimeState.draining
    → InOrder (finished l m).0
unfolding advance
finish_list [] m e (h, alive) s = (
  push_event m.events invalidated ready ended
      (h ∙ ap (λ (l : List ℕ). some (phase_of RuntimeState.draining (length l))) e) refl,
  inr (inr e),
)
finish_list (x ∷ l) m e h s = InOrder-of RuntimeState.draining m s h

finish_in-InOrder :
    (r : RuntimeState) (m : LifecycleModel)
    → m.state ≡ r
    → InOrderAs r m
    → InOrder (finish_in r m).0
finish_in-InOrder RuntimeState.active m e s = InOrder-of RuntimeState.active m e s
finish_in-InOrder RuntimeState.draining m e s = finish_list m.live_entries m refl s e
finish_in-InOrder RuntimeState.invalid m e s = InOrder-of RuntimeState.invalid m e s
finish_in-InOrder RuntimeState.destroyed m e s = InOrder-of RuntimeState.destroyed m e s

destroy_in-InOrder :
    (r : RuntimeState) (m : LifecycleModel)
    → m.state ≡ r
    → InOrderAs r m
    → InOrder (destroy_in r m).0
unfolding advance
destroy_in-InOrder RuntimeState.active m e s = InOrder-of RuntimeState.active m e s
destroy_in-InOrder RuntimeState.draining m e s = InOrder-of RuntimeState.draining m e s
destroy_in-InOrder RuntimeState.invalid m e (h, alive) = (
  push_event m.events LifecycleEvent.destroyed ended gone h refl,
  inr (inr (ended_alive RuntimeState.invalid m.live_entries refl alive)),
)
destroy_in-InOrder RuntimeState.destroyed m e s = InOrder-of RuntimeState.destroyed m e s

step-InOrder : (c : Call) (m : LifecycleModel) → InOrder m → InOrder (step c m)
unfolding step request_invalidate finish_drain destroy
step-InOrder enters m s = enter-InOrder m s
step-InOrder (exits e) m s = exit-InOrder e m s
step-InOrder invalidates m s = invalidate_in-InOrder m.state m refl s
step-InOrder finishes m s = finish_in-InOrder m.state m refl s
step-InOrder destroys m s = destroy_in-InOrder m.state m refl s

run-InOrder : (calls : List Call) (m : LifecycleModel) → InOrder m → InOrder (run calls m)
unfolding run
run-InOrder [] m s = s
run-InOrder (c ∷ calls) m s = run-InOrder calls (step c m) (step-InOrder c m s)

-- Whatever the sequence of calls, the events are in the order of the lifecycle: entries and exits
-- while it is open; then the request, exits only, one `DrainReady` as soon as no entry is live, and
-- after it the invalidation and the destruction, each at most once. Read in that way, the events
-- tell the state and the number of live entries, and after the invalidation no entry is live.
pub events_in_order :
    (a : AttachmentId) (calls : List Call)
    → let m = run calls (new a) in
      (replay (some (open_phase 0)) m.events ≡ some (phase_of m.state (length m.live_entries)))
      × ((m.state ≡ RuntimeState.active)
          ⊎ (m.state ≡ RuntimeState.draining)
          ⊎ (m.live_entries ≡ []))
events_in_order a calls = run-InOrder calls (new a) (new-InOrder a)
