-- ===== src/Testkit/WorkQueue.antt =====
-- testkit/src/work_queue.rs: the deterministic model of a closable work queue. A `BTreeSet` is the
-- list of its members; a reservation or a lease is its sequence number.
pub mod Laws
pub mod Reservations
use rust_jsi.Base.{
  ℕ, ◌+◌, not, ◌||◌, Bool, true, false, if◌then◌else◌, ◌==◌, List, [], ◌∷◌, ◌++◌, length, null,
  Option, none, some, is_some, Result, ok, err,
}
use rust_jsi.Runtime.Queue.{head?, tail}
use rust_jsi.Host.Identity.{checked_add, nonzero_next}

pub data WorkQueueState : Type 0 where
  open_queue closing terminal_pending terminal_draining closed : WorkQueueState

pub data ReserveError : Type 0 where
  not_open : WorkQueueState → ReserveError
  reservation_space_exhausted : ReserveError

pub data PublishError (T : Type 0) : Type 0 where
  stale_reservation full : T → PublishError T

pub data AbandonError : Type 0 where
  stale_reservation : AbandonError

pub data DrainError : Type 0 where
  empty busy closed terminal_ownership stale_lease lease_space_exhausted : DrainError

pub data TerminalDrainError : Type 0 where
  invalid_state : WorkQueueState → TerminalDrainError
  reservations_remain : ℕ → TerminalDrainError
  drain_active terminal_drain_active lease_space_exhausted stale_lease : TerminalDrainError
  payloads_remain : ℕ → TerminalDrainError

pub record WorkQueueModel (T : Type 0) : Type 0 where
  pub capacity : ℕ
  pub state : WorkQueueState
  pub queue : List T
  pub reservations : List ℕ
  pub active_drain : Option ℕ
  pub active_terminal_drain : Option ℕ
  pub next_reservation : Option ℕ
  pub next_lease : Option ℕ
  pub next_terminal_lease : Option ℕ

abbrev pub contains : ℕ → List ℕ → Bool
contains n [] = false
contains n (m ∷ l) = m == n || contains n l

abbrev pub remove : ℕ → List ℕ → List ℕ
remove n [] = []
remove n (m ∷ l) = if m == n then remove n l else m ∷ remove n l

-- `sequence.get().checked_add(1).and_then(NonZeroU64::new)`.
abbrev pub after : ℕ → Option ℕ
after sequence = nonzero_next (checked_add sequence 1)

abbrev is_lease : Option ℕ → ℕ → Bool
is_lease none sequence = false
is_lease (some n) sequence = n == sequence

module _ {T : Type 0} where
  abbrev pub new : ℕ → WorkQueueModel T
  new capacity = record {
    capacity = capacity;
    state = WorkQueueState.open_queue;
    queue = [];
    reservations = [];
    active_drain = none;
    active_terminal_drain = none;
    next_reservation = some 1;
    next_lease = some 1;
    next_terminal_lease = some 1;
  }

  -- The `debug_assert` that the sequence is a new one is left out.
  abbrev reserve_next : WorkQueueModel T → Option ℕ → WorkQueueModel T × Result ℕ ReserveError
  reserve_next self none = (self, err reservation_space_exhausted)
  reserve_next self (some sequence) = (
    record self { next_reservation = after sequence; reservations = sequence ∷ self.reservations },
    ok sequence,
  )

  abbrev reserve_in : WorkQueueState → WorkQueueModel T → WorkQueueModel T × Result ℕ ReserveError
  reserve_in WorkQueueState.open_queue self = reserve_next self self.next_reservation
  reserve_in s self = (self, err (not_open s))

  unfoldable pub reserve : WorkQueueModel T → WorkQueueModel T × Result ℕ ReserveError
  reserve self = reserve_in self.state self

  unfoldable pub publish :
      ℕ → T → WorkQueueModel T → WorkQueueModel T × Result (Unit {0}) (PublishError T)
  publish reservation payload self =
      if not (contains reservation self.reservations)
      then (self, err (PublishError.stale_reservation payload))
      else if length self.queue == self.capacity
      then (
        record self { reservations = remove reservation self.reservations },
        err (PublishError.full payload),
      )
      else (
        record self {
          reservations = remove reservation self.reservations;
          queue = self.queue ++ payload ∷ [];
        },
        ok tt,
      )

  unfoldable pub abandon : ℕ → WorkQueueModel T → WorkQueueModel T × Result (Unit {0}) AbandonError
  abandon reservation self =
      if contains reservation self.reservations
      then (record self { reservations = remove reservation self.reservations }, ok tt)
      else (self, err AbandonError.stale_reservation)

  abbrev close_in : WorkQueueState → WorkQueueModel T → WorkQueueModel T
  close_in WorkQueueState.open_queue self = record self { state = WorkQueueState.closing }
  close_in _ self = self

  unfoldable pub begin_close : WorkQueueModel T → WorkQueueModel T
  begin_close self = close_in self.state self

  abbrev drain_next : WorkQueueModel T → Option ℕ → WorkQueueModel T × Result ℕ DrainError
  drain_next self none = (self, err DrainError.lease_space_exhausted)
  drain_next self (some sequence) =
      (record self { next_lease = after sequence; active_drain = some sequence }, ok sequence)

  abbrev drain_if_free : WorkQueueModel T → WorkQueueModel T × Result ℕ DrainError
  drain_if_free self =
      if is_some self.active_drain
      then (self, err DrainError.busy)
      else if null self.queue
      then (self, err DrainError.empty)
      else drain_next self self.next_lease

  abbrev drain_in : WorkQueueState → WorkQueueModel T → WorkQueueModel T × Result ℕ DrainError
  drain_in WorkQueueState.closed self = (self, err DrainError.closed)
  drain_in WorkQueueState.terminal_pending self = (self, err DrainError.terminal_ownership)
  drain_in WorkQueueState.terminal_draining self = (self, err DrainError.terminal_ownership)
  drain_in _ self = drain_if_free self

  unfoldable pub begin_drain : WorkQueueModel T → WorkQueueModel T × Result ℕ DrainError
  begin_drain self = drain_in self.state self

  unfoldable pub pop : ℕ → WorkQueueModel T → WorkQueueModel T × Result (Option T) DrainError
  pop lease self =
      if is_lease self.active_drain lease
      then (record self { queue = tail self.queue }, ok (head? self.queue))
      else (self, err DrainError.stale_lease)

  unfoldable pub finish_drain :
      ℕ → WorkQueueModel T → WorkQueueModel T × Result (Unit {0}) DrainError
  finish_drain lease self =
      if is_lease self.active_drain lease
      then (record self { active_drain = none }, ok tt)
      else (self, err DrainError.stale_lease)

  abbrev terminal_next :
      WorkQueueModel T → Option ℕ → WorkQueueModel T × Result ℕ TerminalDrainError
  terminal_next self none = (self, err TerminalDrainError.lease_space_exhausted)
  terminal_next self (some sequence) = (
    record self {
      next_terminal_lease = after sequence;
      active_terminal_drain = some sequence;
      state = WorkQueueState.terminal_draining;
    },
    ok sequence,
  )

  abbrev terminal_in :
      WorkQueueState → WorkQueueModel T → WorkQueueModel T × Result ℕ TerminalDrainError
  terminal_in WorkQueueState.terminal_draining self =
      (self, err TerminalDrainError.terminal_drain_active)
  terminal_in WorkQueueState.terminal_pending self = terminal_next self self.next_terminal_lease
  terminal_in WorkQueueState.closing self =
      if not (null self.reservations)
      then (self, err (TerminalDrainError.reservations_remain (length self.reservations)))
      else if is_some self.active_drain
      then (self, err TerminalDrainError.drain_active)
      else terminal_next self self.next_terminal_lease
  terminal_in s self = (self, err (TerminalDrainError.invalid_state s))

  unfoldable pub begin_terminal_drain :
      WorkQueueModel T → WorkQueueModel T × Result ℕ TerminalDrainError
  begin_terminal_drain self = terminal_in self.state self

  unfoldable pub pop_terminal :
      ℕ → WorkQueueModel T → WorkQueueModel T × Result (Option T) TerminalDrainError
  pop_terminal lease self =
      if is_lease self.active_terminal_drain lease
      then (record self { queue = tail self.queue }, ok (head? self.queue))
      else (self, err TerminalDrainError.stale_lease)

  unfoldable pub finish_terminal_drain :
      ℕ → WorkQueueModel T → WorkQueueModel T × Result (Unit {0}) TerminalDrainError
  finish_terminal_drain lease self =
      if not (is_lease self.active_terminal_drain lease)
      then (self, err TerminalDrainError.stale_lease)
      else if not (null self.queue)
      then (self, err (TerminalDrainError.payloads_remain (length self.queue)))
      else (record self { active_terminal_drain = none; state = WorkQueueState.closed }, ok tt)

  unfoldable pub release_terminal_drain :
      ℕ → WorkQueueModel T → WorkQueueModel T × Result (Unit {0}) TerminalDrainError
  release_terminal_drain lease self =
      if is_lease self.active_terminal_drain lease
      then (
        record self { active_terminal_drain = none; state = WorkQueueState.terminal_pending },
        ok tt,
      )
      else (self, err TerminalDrainError.stale_lease)
