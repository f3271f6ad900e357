-- ===== src/Lib.antt =====
-- RustJSI admits, schedules and retires work for a JavaScript engine attachment. This library
-- models the runtime crate's lock-free primitives and the host crate's lifecycle on top of them.
--
-- How the parts interact. A `DrainSignal` (one atomic byte) coalesces requests for one future
-- drain; an `IngressGate` (one atomic word) counts reservations and closes. A `BoundedMailbox` puts
-- a signal beside a bounded queue. A `ClosableMailbox` adds a gate for producers, a gate for normal
-- drains and a terminal word, so that one terminal owner can take what is left. In the host crate
-- an `EntryGate` admits engine entries and leads an attachment to its destruction; identities
-- number runtimes and attachments; a `DrainRegistration` decides which drain tasks still count;
-- `ScheduledWork` is a payload bound to one attachment, kept in a mailbox, and
-- `AttachmentWorkOwner` owns the current mailbox and hands out senders that keep pointing to the
-- mailbox they were made for. The testkit's `WorkQueueModel` states the protocol of a closable
-- queue with numbered reservations and leases, its `LifecycleModel` that of a runtime's entries and
-- end, and its `ModelBackend` is an engine without an engine: a slot map of values, another of roots.
--
-- A backend states its contract version and its `CapabilitySet` and a caller requires both. The
-- JavaScriptCore backend keeps persistent roots in a `RootRegistry`, whose handles carry a generation
-- and whose releases are queued until a drain; a scope roots its results in `LocalRoots` against a
-- `LocalBudget` that it gives back when it is dropped; an `ExternalLedger`, shared by threads, counts
-- the buffers that the engine owns; `CallLimits` judges the arguments of a call; an exception's
-- message is cut on its way in and out; a lock-free `FinalizerQueue` brings the tokens of collected
-- objects to the runtime's thread.
--
-- Which file models which part (a directory of the same name holds a file's children):
--   Base                  shared names, lists, Boolean tests, and what a Rust call gives back
--   Runtime/Atomic        programs of loads, compare-exchanges and updates of one atomic word, alone
--                         and under any schedule
--   Runtime/Drain         runtime/src/drain.rs: state, request, acquire, close, finish_drain
--   Runtime/Ingress       runtime/src/ingress.rs: reserve, begin_close, try_seal, settle_reservation
--   Runtime/Queue         crossbeam's ArrayQueue, a parameter with its documented behaviour
--   Runtime/Mailbox       runtime/src/mailbox.rs; Mailbox/Concurrent its threads
--   Runtime/Closable      runtime/src/closable_mailbox.rs; Closable/Terminal the close owner's methods,
--                         Closable/Concurrent its threads
--   Host/Identity         host/src/identity.rs
--   Host/Registration     host/src/drain_registration.rs
--   Host/Entry            host/src/entry.rs
--   Host/Work             host/src/work.rs
--   Host/WorkMailbox      host/src/work_mailbox.rs
--   Host/WorkOwner        host/src/work_owner.rs
--   Testkit/WorkQueue     testkit/src/work_queue.rs: the deterministic model of a closable queue
--   Testkit/Lifecycle     testkit/src/lifecycle.rs; Lifecycle/Gate beside the host's entry gate
--   Testkit/SlotMap       testkit/src/model.rs: SlotMap
--   Testkit/Model         testkit/src/model.rs: the scopes of the deterministic backend
--   Backend               backend/src/lib.rs; Backend/Errors the types of failures
--   Jsc/Roots             backend-jsc/src/experimental.rs: RootRegistry and drain_root_releases
--   Jsc/CallLimits        backend-jsc/src/experimental.rs: CallLimits::validate
--   Jsc/Finalizers        backend-jsc/src/experimental/native_state.rs: FinalizerQueue and its threads
--   Jsc/Messages          backend-jsc/src/experimental/exception_message.rs
--   Jsc/Errors            backend-jsc/src/experimental.rs: RuntimeError, and its mapping in common.rs
--   Jsc/Generations       the arithmetic of generations and counters
--   Jsc/Budget            backend-jsc/src/experimental/local_budget.rs
--   Jsc/LocalRoots        backend-jsc/src/experimental/local_roots.rs
--   Jsc/Scope             backend-jsc/src/experimental/common.rs: string, persist, resolve, release, drop;
--                         Scope/Engine the methods that read values or run code, with the types of
--                         backend-jsc/src/sys.rs; Scope/Transfer externalize; Scope/Sessions a scope from its
--                         opening to its drop
--   Jsc/Ledger            backend-jsc/src/experimental/external_buffer.rs; Ledger/Threads its threads
--   Tests                 the theorems at concrete inputs
--
-- How state and operations correspond. A struct is a record and an enum a data type. A method on
-- `&self` or `&mut self` is a `Method`: it takes the state and gives the state it leaves and an
-- `Outcome`, which is a value or a panic (`unreachable!`, a failed `debug_assert!`, an overflow). A
-- method of an atomic word is a `Program`; `call` runs it alone, and `run` under a list of events,
-- in which other threads change the word at will and weak exchanges fail at will.
-- `Mailbox.Concurrent` and `Closable.Concurrent` take each such method as one step, and the steps
-- of any number of threads in any order: the state counts the threads at each point of the methods.
-- A guard (`DrainPermit`, `IngressPermit`, `MailboxDrain`, `EntryGuard`) is the right to make its
-- finishing call or its drop once; forgetting a guard is a thread that stays where it is.
--
-- Assumptions. The accesses of one atomic word have one modification order, and the accesses of
-- different words interleave as sequentially consistent steps: the `Ordering` arguments are not
-- modelled. `usize` has 64 bits, so the gate counts in 62; a `|` of disjoint bits is a sum. The
-- queue's operations are single steps. There are fewer than 2^64 finalizer tokens. While the engine
-- runs for a scope it does not use that scope or what it shares. A host's callback acts on the
-- host's own state and not on the mailbox it is called from. A program is a finite tree of accesses
-- whose `restart` begins it again, and a run is as long as its list of events; no bound is claimed
-- for a thread that others disturb for ever. One definition runs on fuel, the loop that releases
-- the pending roots: it is given one more than their number, and the results say what that is
-- enough for. An engine value and a float are of any type, and the calls that protect and unprotect
-- a value are the lists of their arguments.
--
-- Not modelled: of the JavaScriptCore backend, what only calls into the engine, the registry of
-- native state, attachment and detachment, the host adapter and callbacks; of the testkit, views
-- that outlive their buffer, the wrappers of the deterministic backend, the drain-post queue and
-- the conformance driver; host/src/resource.rs (records without operations); formatting; the empty
-- crates. The traits `Host` and `DrainPoster` have no body: an implementation is a parameter
-- wherever one is called. The traits of a backend have none either.
pub mod Base
pub mod Runtime
pub mod Host
pub mod Backend
pub mod Jsc
pub mod Testkit
pub mod Tests
