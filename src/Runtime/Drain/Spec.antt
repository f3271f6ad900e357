-- ===== src/Runtime/Drain/Spec.antt =====
-- What the drain signal promises, over its five observable states.
use rust_jsi.Base.{ℕ}
use rust_jsi.Runtime.Drain.{DrainState, DrainRequest, DrainAcquire, DrainAfter, DrainClose}
use rust_jsi.Runtime.Drain.Raw

abbrev pub raw : DrainState → ℕ
raw DrainState.idle = Raw.idle
raw DrainState.pending = Raw.pending
raw DrainState.draining = Raw.draining
raw DrainState.draining_with_pending = Raw.draining_pending
raw DrainState.closed = Raw.closed

-- A request is remembered by the state, and only the first one asks for a post.
abbrev pub request : DrainState → DrainState × DrainRequest
request DrainState.idle = (DrainState.pending, DrainRequest.scheduled)
request DrainState.pending = (DrainState.pending, DrainRequest.coalesced)
request DrainState.draining = (DrainState.draining_with_pending, DrainRequest.coalesced)
request DrainState.draining_with_pending =
    (DrainState.draining_with_pending, DrainRequest.coalesced)
request DrainState.closed = (DrainState.closed, DrainRequest.closed)

abbrev pub acquire : DrainState → DrainState × DrainAcquire
acquire DrainState.idle = (DrainState.idle, DrainAcquire.idle)
acquire DrainState.pending = (DrainState.draining, DrainAcquire.acquired)
acquire DrainState.draining = (DrainState.draining, DrainAcquire.busy)
acquire DrainState.draining_with_pending = (DrainState.draining_with_pending, DrainAcquire.busy)
acquire DrainState.closed = (DrainState.closed, DrainAcquire.closed)

abbrev pub close : DrainState → DrainState × DrainClose
close DrainState.closed = (DrainState.closed, DrainClose.already_closed)
close s = (DrainState.closed, DrainClose.closed s)

-- Finishing outside a drain tells the permit's owner that the signal was closed.
abbrev pub finish_drain : DrainState → DrainState × DrainAfter
finish_drain DrainState.draining = (DrainState.idle, DrainAfter.idle)
finish_drain DrainState.draining_with_pending = (DrainState.pending, DrainAfter.pending)
finish_drain s = (s, DrainAfter.closed)
