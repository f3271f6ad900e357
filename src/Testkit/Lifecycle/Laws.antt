-- ===== src/Testkit/Lifecycle/Laws.antt =====
-- testkit/src/lifecycle.rs: entries through any sequence of calls.
use rust_jsi.Base.{
  ℕ, ◌+◌, ◌≤◌, ◌<◌, ◌≡◌, ◌⊎◌, inl, inr, refl, ap, ◌∙◌, true, if◌then◌else◌, ◌==◌, Bool-cases, List,
  [], ◌∷◌, ◌++◌, Option, none, some, ok, err, arith,
}
use rust_jsi.Host.Identity.{AttachmentId, same_attachment}
use rust_jsi.Testkit.Lifecycle.{
  RuntimeState, LifecycleModel, LifecycleEvent, stale_entry, Entry, entered, exited, drain_ready,
  entry_of, new, enter, exit, exit_at, ready_in, invalidate_in, request_invalidate, finish_drain,
  destroy,
}
use rust_jsi.Testkit.Lifecycle.Swaps.{
  position, swap_remove, occurrences, occurrences-append, remove-occurrences, position-occurrences,
}

pub data Call : Type 0 where
  enters : Call
  exits : Entry → Call
  invalidates finishes destroys : Call

unfoldable pub step : Call → LifecycleModel → LifecycleModel
unfolding enter exit request_invalidate finish_drain destroy
step enters m = (enter m).0
step (exits entry) m = (exit entry m).0
step invalidates m = request_invalidate m
step finishes m = (finish_drain m).0
step destroys m = (destroy m).0

unfoldable pub run : List Call → LifecycleModel → LifecycleModel
run [] m = m
run (c ∷ calls) m = run calls (step c m)

abbrev enters_of : ℕ → LifecycleEvent → ℕ
enters_of n (entered e) = if e.sequence == n then 1 else 0
enters_of n e = 0

abbrev exits_of : ℕ → LifecycleEvent → ℕ
exits_of n (exited e) = if e.sequence == n then 1 else 0
exits_of n e = 0

-- How often an entry of this sequence number began and ended.
pub begun : ℕ → List LifecycleEvent → ℕ
begun n [] = 0
begun n (e ∷ l) = enters_of n e + begun n l

pub ended : ℕ → List LifecycleEvent → ℕ
ended n [] = 0
ended n (e ∷ l) = exits_of n e + ended n l

begun-append : (n : ℕ) (l m : List LifecycleEvent) → begun n (l ++ m) ≡ begun n l + begun n m
unfolding begun
begun-append n [] m = omega arith
begun-append n (e ∷ l) m = omega (arith, begun-append n l m)

ended-append : (n : ℕ) (l m : List LifecycleEvent) → ended n (l ++ m) ≡ ended n l + ended n m
unfolding ended
ended-append n [] m = omega arith
ended-append n (e ∷ l) m = omega (arith, ended-append n l m)

-- What holds of one sequence number, whose entry has ended at least `k` times.
record IsCounted (n k : ℕ) (m : LifecycleModel) : Type 0 where
  issued : (begun n m.events ≡ 0) ⊎ (n < m.next_entry)
  later : k ≤ ended n m.events
  once : begun n m.events ≤ 1
  balanced : occurrences n m.live_entries + ended n m.events ≡ begun n m.events

enter-IsCounted : (n k : ℕ) (m : LifecycleModel) → IsCounted n k m → IsCounted n k (enter m).0
unfolding enter begun ended occurrences
enter-IsCounted n k m s = ground (
  arith,
  begun-append n m.events (entered (entry_of m) ∷ []),
  ended-append n m.events (entered (entry_of m) ∷ []),
  occurrences-append n m.live_entries (m.next_entry ∷ []),
)

ready-IsCounted :
    (n k : ℕ) (r : RuntimeState) (m : LifecycleModel)
    → IsCounted n k m
    → IsCounted n k (ready_in r m)
unfolding begun ended
ready-IsCounted n k r m s =
    ground (
      arith,
      begun-append n m.events (drain_ready ∷ []),
      ended-append n m.events (drain_ready ∷ []),
    )

-- An exit, before a last `DrainReady`.
exited-IsCounted :
    (n k i : ℕ) (e : Entry) (m : LifecycleModel)
    → position e.sequence m.live_entries ≡ some i
    → IsCounted n k m
    → IsCounted n k (record m {
      live_entries = swap_remove i m.live_entries;
      events = m.events ++ exited e ∷ [];
    })
unfolding begun ended
exited-IsCounted n k i e m h s = ground (
  arith,
  begun-append n m.events (exited e ∷ []),
  ended-append n m.events (exited e ∷ []),
  remove-occurrences e.sequence n i m.live_entries h,
)

exit_at-IsCounted :
    (n k : ℕ) (e : Entry) (o : Option ℕ) (m : LifecycleModel)
    → position e.sequence m.live_entries ≡ o
    → IsCounted n k m
    → IsCounted n k (exit_at o e m).0
exit_at-IsCounted n k e none m h s = s
exit_at-IsCounted n k e (some i) m h s =
    ready-IsCounted n k m.state
      (record m { live_entries = swap_remove i m.live_entries; events = m.events ++ exited e ∷ [] })
      (exited-IsCounted n k i e m h s)

exit-IsCounted :
    (n k : ℕ) (e : Entry) (m : LifecycleModel) → IsCounted n k m → IsCounted n k (exit e m).0
unfolding exit
exit-IsCounted n k e m s = elim (Bool-cases (same_attachment e.attachment m.attachment)) [
  | inl h ↦ rw h (exit_at-IsCounted n k e (position e.sequence m.live_entries) m refl s)
  | inr h ↦ rw h s
]

abbrev requested : LifecycleModel → LifecycleModel
requested m = record m {
  state = RuntimeState.draining;
  events = m.events ++ LifecycleEvent.drain_requested ∷ [];
}

requested-IsCounted : (n k : ℕ) (m : LifecycleModel) → IsCounted n k m → IsCounted n k (requested m)
unfolding begun ended
requested-IsCounted n k m s = ground (
  arith,
  begun-append n m.events (LifecycleEvent.drain_requested ∷ []),
  ended-append n m.events (LifecycleEvent.drain_requested ∷ []),
)

invalidate_in-IsCounted :
    (n k : ℕ) (r : RuntimeState) (m : LifecycleModel)
    → IsCounted n k m
    → IsCounted n k (invalidate_in r m)
invalidate_in-IsCounted n k RuntimeState.active m s =
    ready-IsCounted n k RuntimeState.draining (requested m) (requested-IsCounted n k m s)
invalidate_in-IsCounted n k RuntimeState.draining m s = s
invalidate_in-IsCounted n k RuntimeState.invalid m s = s
invalidate_in-IsCounted n k RuntimeState.destroyed m s = s

step-IsCounted :
    (n k : ℕ) (c : Call) (m : LifecycleModel) → IsCounted n k m → IsCounted n k (step c m)
unfolding step request_invalidate finish_drain destroy begun ended
step-IsCounted n k enters m s = enter-IsCounted n k m s
step-IsCounted n k (exits e) m s = exit-IsCounted n k e m s
step-IsCounted n k invalidates m s = invalidate_in-IsCounted n k m.state m s
step-IsCounted n k finishes m s = ground (
  arith,
  begun-append n m.events (LifecycleEvent.invalidated ∷ []),
  ended-append n m.events (LifecycleEvent.invalidated ∷ []),
)
step-IsCounted n k destroys m s = ground (
  arith,
  begun-append n m.events (LifecycleEvent.destroyed ∷ []),
  ended-append n m.events (LifecycleEvent.destroyed ∷ []),
)

run-IsCounted :
    (n k : ℕ) (calls : List Call) (m : LifecycleModel)
    → IsCounted n k m
    → IsCounted n k (run calls m)
unfolding run
run-IsCounted n k [] m s = s
run-IsCounted n k (c ∷ calls) m s = run-IsCounted n k calls (step c m) (step-IsCounted n k c m s)

new-IsCounted : (n : ℕ) (a : AttachmentId) → IsCounted n 0 (new a)
unfolding begun ended occurrences
new-IsCounted n a = ground arith

-- Whatever the sequence of calls, the events record each entry at most once, its end at most once
-- and after its beginning, and the live entries are those that began and have not ended.
pub entries_counted :
    (a : AttachmentId) (calls : List Call) (n : ℕ)
    → let m = run calls (new a) in
      (begun n m.events ≤ 1)
      × (ended n m.events ≤ begun n m.events)
      × (occurrences n m.live_entries + ended n m.events ≡ begun n m.events)
entries_counted a calls n =
    let s = run-IsCounted n 0 calls (new a) (new-IsCounted n a) in
    (s.once, omega (arith, s.balanced), s.balanced)

step-attachment : (c : Call) (m : LifecycleModel) → (step c m).attachment ≡ m.attachment
unfolding step enter exit request_invalidate finish_drain destroy
step-attachment enters m = ground arith
step-attachment (exits e) m = ground arith
step-attachment invalidates m = ground arith
step-attachment finishes m = ground arith
step-attachment destroys m = ground arith

exit-attachment : (e : Entry) (m : LifecycleModel) → (exit e m).0.attachment ≡ m.attachment
unfolding exit
exit-attachment e m = ground arith

run-attachment : (calls : List Call) (m : LifecycleModel) → (run calls m).attachment ≡ m.attachment
unfolding run
run-attachment [] m = refl
run-attachment (c ∷ calls) m = run-attachment calls (step c m) ∙ step-attachment c m

-- An exit that is accepted is one of a live entry of this attachment, and it is recorded.
exit_ok :
    (e : Entry) (m : LifecycleModel)
    → (exit e m).1 ≡ ok tt
    → (same_attachment e.attachment m.attachment ≡ true)
      × (ended e.sequence (exit e m).0.events ≡ ended e.sequence m.events + 1)
unfolding exit ended
exit_ok e m h = ground (
  arith,
  position-occurrences e.sequence m.live_entries,
  ended-append e.sequence m.events (exited e ∷ []),
  ended-append e.sequence (m.events ++ exited e ∷ []) (drain_ready ∷ []),
)

counted_once :
    (e : Entry) (m : LifecycleModel)
    → IsCounted e.sequence 1 m
    → position e.sequence m.live_entries ≡ none
counted_once e m s = elim (position-occurrences e.sequence m.live_entries) [
  | inl (h, z) ↦ h
  | inr (i, h, p) ↦ absurd (omega (arith, s.balanced, s.once, s.later))
]

exit-gone :
    (e : Entry) (m : LifecycleModel)
    → same_attachment e.attachment m.attachment ≡ true
    → position e.sequence m.live_entries ≡ none
    → exit e m ≡ (m, err stale_entry)
unfolding exit
exit-gone e m same gone = rw (same, gone) refl

-- An entry that ended ended for good: a second exit is refused as stale and changes nothing,
-- whatever happened before, in between and after the drain.
pub exit_once :
    (a : AttachmentId) (earlier later : List Call) (e : Entry)
    → (exit e (run earlier (new a))).1 ≡ ok tt
    → let m = run later (exit e (run earlier (new a))).0 in exit e m ≡ (m, err stale_entry)
exit_once a earlier later e h =
    let m = run earlier (new a) in
    let (same, more) = exit_ok e m h in
    let s =
      exit-IsCounted e.sequence 0 e m
        (run-IsCounted e.sequence 0 earlier (new a) (new-IsCounted e.sequence a)) in
    let s' : IsCounted e.sequence 1 (exit e m).0 = record {
      issued = s.issued;
      later = omega (arith, more);
      once = s.once;
      balanced = s.balanced;
    } in
    let gone =
      counted_once e (run later (exit e m).0) (run-IsCounted e.sequence 1 later (exit e m).0 s') in
    exit-gone e (run later (exit e m).0)
      (ap (same_attachment e.attachment) (run-attachment later (exit e m).0 ∙ exit-attachment e m)
        ∙ same)
      gone
