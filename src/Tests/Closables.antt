-- ===== src/Tests/Closables.antt =====
-- runtime/src/closable_mailbox.rs at a mailbox of two places: the producers' and the consumers' methods.
use rust_jsi.Base.{ℕ, zero, suc, ◌+◌, ◌≡◌, refl, List, [], ◌∷◌, Result, returned, ok, err, arith}
use rust_jsi.Runtime.Queue.{ArrayQueue, list_queue}
use rust_jsi.Runtime.Drain.{DrainAfter}
use rust_jsi.Runtime.Ingress.{IngressState}
use rust_jsi.Runtime.Ingress.Spec.{Gate, IsValid, raw}
use rust_jsi.Runtime.Mailbox.{MailboxEnqueue}
use rust_jsi.Runtime.Closable.State.{
  ClosableMailbox, ClosableMailboxState, TerminalAcquireError, payloads_remain, state,
}
use rust_jsi.Runtime.Closable.{Hosted, enqueue_and_post}
use rust_jsi.Runtime.Closable.Terminal.{try_begin_terminal_drain, finish_terminal}
use rust_jsi.Runtime.Closable.Laws.{IsGated}
use rust_jsi.Runtime.Closable.Laws.Drains.{state_lem}
use rust_jsi.Runtime.Closable.Laws.Posts.{enqueue_and_post_lem}
use rust_jsi.Runtime.Closable.Laws.Closing.{try_begin_terminal_drain_lem, finish_terminal_lem}

abbrev numbers : ArrayQueue ℕ
numbers = list_queue ℕ

abbrev open_with : ℕ → Gate
open_with n = record { phase = IngressState.open_gate; in_flight = n }

abbrev closing_with : ℕ → Gate
closing_with n = record { phase = IngressState.closing; in_flight = n }

abbrev mailbox_at : ℕ → List ℕ → Gate → Gate → ℕ → ClosableMailbox numbers
mailbox_at signal stored p n terminal = record {
  queue = record { bound = 2; stored = stored };
  signal = signal;
  producer_gate = raw p;
  normal_drain_gate = raw n;
  terminal_state = terminal;
}

-- One payload waits for its drain.
abbrev waiting : ClosableMailbox numbers
waiting = mailbox_at 1 (7 ∷ []) (open_with 0) (open_with 0) 0

waiting-IsGated : IsGated numbers waiting (open_with 0) (open_with 0)
waiting-IsGated = ground arith

-- The mailbox is closing while a consumer holds its drain.
abbrev held : ClosableMailbox numbers
held = mailbox_at 2 (7 ∷ []) (closing_with 0) (open_with 1) 0

held-IsGated : IsGated numbers held (closing_with 0) (open_with 1)
held-IsGated = ground arith

-- The world counts posts; the host refuses them from the second on.
abbrev post : ℕ → ℕ × Result (Unit {0}) ℕ
post zero = (1, ok tt)
post (suc n) = (suc (suc n), err n)

state_lem_example : state numbers held ≡ (held, returned ClosableMailboxState.closing)
state_lem_example = state_lem numbers held (closing_with 0) (open_with 1) held-IsGated (omega arith)

abbrev hosted : ClosableMailbox numbers → ℕ → Hosted numbers ℕ
hosted b w = record { mailbox = b; world = w }

abbrev count_pending : DrainAfter → ℕ → ℕ × DrainAfter
count_pending DrainAfter.pending w = (w + 1, DrainAfter.pending)
count_pending after w = (w, after)

enqueue_and_post_lem_example :
    (enqueue_and_post numbers post 8 (hosted waiting 3)).1 ≡ returned (ok MailboxEnqueue.coalesced)
enqueue_and_post_lem_example = ground (
  arith,
  enqueue_and_post_lem numbers post (hosted waiting 3) 8 (open_with 0) (open_with 0) waiting-IsGated
      (omega arith),
)

closing-IsValid : IsValid (closing_with 0)
closing-IsValid = ground arith

open-IsValid : IsValid (open_with 1)
open-IsValid = ground arith

try_begin_terminal_drain_lem_example :
    (try_begin_terminal_drain numbers held).1
    ≡ returned (err (TerminalAcquireError.normal_drain_reservations_remain 1))
try_begin_terminal_drain_lem_example = ground (
  arith,
  try_begin_terminal_drain_lem numbers held (closing_with 0) (open_with 1) held-IsGated
      closing-IsValid open-IsValid (omega arith) (omega arith),
)

-- A terminal owner with a payload left.
abbrev owned : ClosableMailbox numbers
owned = mailbox_at 4 (7 ∷ []) (closing_with 0) (open_with 0) 2

finish_terminal_lem_example : (finish_terminal numbers owned).1 ≡ returned (err (payloads_remain 1))
finish_terminal_lem_example = ground (arith, finish_terminal_lem numbers owned refl)
