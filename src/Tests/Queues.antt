-- ===== src/Tests/Queues.antt =====
-- testkit/src/work_queue.rs: a queue of one place, whose second publication finds it full.
use rust_jsi.Base.{ℕ, ◌≤◌, ◌≡◌, ◌≢◌, ◌⊎◌, refl, true, false, List, [], ◌∷◌, length, none, err}
use rust_jsi.Testkit.WorkQueue.{WorkQueueState, PublishError, contains, new, publish, reserve}
use rust_jsi.Testkit.WorkQueue.Laws.{
  Action, reserves, publishes, begin_closes, drains, terminals, pops_terminal, finishes_terminal,
  run, is_terminal, terminal_owns,
}
use rust_jsi.Testkit.WorkQueue.Reservations.{reservation_used_once}

abbrev closing_trace : List (Action ℕ)
closing_trace =
    reserves ∷ publishes 1 7 ∷ begin_closes ∷ terminals ∷ pops_terminal 1 ∷ finishes_terminal 1 ∷ []

terminal_owns_example :
    let m = run closing_trace (new 1) in
    (length m.queue ≤ 1)
    × ((is_terminal m.state ≡ false) ⊎ ((m.reservations ≡ []) × (m.active_drain ≡ none)))
    × ((m.state ≢ WorkQueueState.closed) ⊎ (m.queue ≡ []))
terminal_owns_example = terminal_owns closing_trace 1

abbrev two_reserved : List (Action ℕ)
two_reserved = reserves ∷ reserves ∷ publishes 1 7 ∷ []

second_in_flight : contains 2 (run two_reserved (new 1)).reservations ≡ true
unfolding reserve publish
second_in_flight = refl

abbrev reserved_again : List (Action ℕ)
reserved_again = drains ∷ reserves ∷ []

reservation_used_once_example :
    let m = run reserved_again (publish 2 8 (run two_reserved (new 1))).0 in
    publish 2 9 m ≡ (m, err (PublishError.stale_reservation 9))
reservation_used_once_example =
    reservation_used_once two_reserved reserved_again 1 2 8 9 second_in_flight
