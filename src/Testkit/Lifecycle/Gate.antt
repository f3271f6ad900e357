-- ===== src/Testkit/Lifecycle/Gate.antt =====
-- testkit/src/lifecycle.rs and host/src/entry.rs: the model beside the gate that the host crate uses.
use rust_jsi.Base.{
  ℕ, ◌<◌, ◌≡◌, ◌⊎◌, inl, inr, refl, Bool, true, false, ◌==◌, Bool-cases, List, [], ◌∷◌, null,
  length, length-append, Option, none, some, Result, ok, err, returned, arith,
}
use rust_jsi.Host.Identity.{same_attachment, u64_max}
use rust_jsi.Host.Entry
use rust_jsi.Host.Entry.{HostState, EntryGate, FinalEntryPolicy}
use rust_jsi.Testkit.Lifecycle.{
  RuntimeState, LifecycleModel, Entry, enter, exit, exit_at, request_invalidate, finish_drain,
  destroy,
}
use rust_jsi.Testkit.Lifecycle.Swaps.{position, length-swap_remove}

abbrev pub host_state : RuntimeState → HostState
host_state RuntimeState.active = HostState.active
host_state RuntimeState.draining = HostState.draining
host_state RuntimeState.invalid = HostState.invalid
host_state RuntimeState.destroyed = HostState.destroyed

-- A gate in which no cleanup runs, at the same state with as many entries.
abbrev pub Matches : LifecycleModel → EntryGate → Type 0
Matches m g =
    (g.state ≡ host_state m.state) × (g.entries ≡ length m.live_entries) × (g.cleanup ≡ false)

abbrev pub is_ok : {A E : Type 0} → Result A E → Bool
is_ok (ok a) = true
is_ok (err e) = false

null-length : (l : List ℕ) → null l ≡ (length l == 0)
null-length [] = refl
null-length (x ∷ l) = ground arith

-- The two make the same step: they match again, and both accept or both refuse.
abbrev pub SameStep :
    {A B E F : Type 0} → LifecycleModel × Result A E → EntryGate × Result B F → Type 0
SameStep (m, o) (g, p) = Matches m g × (is_ok o ≡ is_ok p)

enter-Matches :
    (m : LifecycleModel) (g : EntryGate)
    → Matches m g
    → g.entries < g.limit
    → m.next_entry < u64_max
    → SameStep (enter m) (Entry.try_enter g)
unfolding enter Entry.try_enter
enter-Matches m g h room fresh = ground (arith, length-append m.live_entries (m.next_entry ∷ []))

request-Matches :
    (m : LifecycleModel) (g : EntryGate)
    → Matches m g
    → Matches (request_invalidate m) (Entry.request_drain g)
unfolding request_invalidate Entry.request_drain
request-Matches m g h = ground arith

-- The gate refuses the end of a drain that the model accepts: it waits for a final entry.
abbrev pub Waits : LifecycleModel → EntryGate → Type 0
Waits m g =
    (g.final_entry_policy ≡ FinalEntryPolicy.guaranteed)
    × (g.final_entry ≡ none)
    × (g.state ≡ HostState.draining)
    × (g.entries ≡ 0)
    × (Entry.finish_drain g ≡ (g, err Entry.final_entry_required))
    × ((finish_drain m).1 ≡ ok tt)

finish-Matches :
    (m : LifecycleModel) (g : EntryGate)
    → Matches m g
    → SameStep (finish_drain m) (Entry.finish_drain g) ⊎ Waits m g
unfolding finish_drain Entry.finish_drain
finish-Matches m g h = ground (arith, null-length m.live_entries)

destroy-Matches :
    (m : LifecycleModel) (g : EntryGate)
    → Matches m g
    → SameStep (destroy m) (Entry.mark_destroyed g)
unfolding destroy Entry.mark_destroyed
destroy-Matches m g h = ground arith

-- The right to drop a guard of the gate is a live entry of the model.
abbrev pub Leaves : LifecycleModel → EntryGate → Entry → Type 0
Leaves m g e =
    ((is_ok (exit e m).1 ≡ false) × ((exit e m).0 ≡ m))
    ⊎ (Matches (exit e m).0 (Entry.drop_entry g).0 × ((Entry.drop_entry g).1 ≡ returned tt))

exit_at-Matches :
    (m : LifecycleModel) (g : EntryGate) (e : Entry) (i : ℕ)
    → Matches m g
    → position e.sequence m.live_entries ≡ some i
    → Matches (exit_at (some i) e m).0 (Entry.drop_entry g).0
      × ((Entry.drop_entry g).1 ≡ returned tt)
unfolding Entry.drop_entry
exit_at-Matches m g e i h at = ground (arith, length-swap_remove e.sequence i m.live_entries at)

exit_by-Leaves :
    (m : LifecycleModel) (g : EntryGate) (e : Entry) (o : Option ℕ)
    → Matches m g
    → position e.sequence m.live_entries ≡ o
    → exit e m ≡ exit_at o e m
    → Leaves m g e
exit_by-Leaves m g e none h at f = inl (rw f refl, rw f refl)
exit_by-Leaves m g e (some i) h at f = inr (rw f (exit_at-Matches m g e i h at))

exit-Leaves : (m : LifecycleModel) (g : EntryGate) (e : Entry) → Matches m g → Leaves m g e
unfolding exit
exit-Leaves m g e h = elim (Bool-cases (same_attachment e.attachment m.attachment)) [
  | inl same ↦ exit_by-Leaves m g e (position e.sequence m.live_entries) h refl (rw same refl)
  | inr other ↦ inl (rw other refl, rw other refl)
]

-- The model and the gate agree call by call, with one exception. From states that match, which
-- includes that no cleanup runs in the gate, with room for an entry in both, an entry, the end of a
-- drain and a destruction are accepted by both or refused by both, and the states match again, also
-- after a request to drain; an exit that the model accepts is a drop of a guard that does not
-- panic, and one that it refuses changes nothing. The exception is the end of a drain under the
-- policy that guarantees a final entry, where there was none: the gate then refuses, unchanged,
-- what the model accepts.
pub model_agrees :
    (m : LifecycleModel) (g : EntryGate) (e : Entry)
    → Matches m g
    → g.entries < g.limit
    → m.next_entry < u64_max
    → SameStep (enter m) (Entry.try_enter g)
      × Leaves m g e
      × Matches (request_invalidate m) (Entry.request_drain g)
      × (SameStep (finish_drain m) (Entry.finish_drain g) ⊎ Waits m g)
      × SameStep (destroy m) (Entry.mark_destroyed g)
model_agrees m g e h room fresh = (
  enter-Matches m g h room fresh,
  exit-Leaves m g e h,
  request-Matches m g h,
  finish-Matches m g h,
  destroy-Matches m g h,
)
