-- ===== src/Jsc/Finalizers.antt =====
-- backend-jsc/src/experimental/native_state.rs: the queue of finalizer tokens, with any number of
-- threads that push and the runtime's thread, which takes, closes and reclaims. A list of linked
-- tokens is a list; a push, a take and a close are their successful access of `head`, since an
-- exchange that fails changes nothing and is tried again. A token is an allocation, and there are
-- fewer than 2^64 of them: none is announced that would not fit.
pub mod Safety
use rust_jsi.Base.{
  ℕ, zero, suc, ◌+◌, ◌-◌, ltb, if◌then◌else◌, ◌==◌, List, [], ◌∷◌, ◌++◌, Option, none, some,
}
use rust_jsi.Base.Slots.{get_elem?}
use rust_jsi.Host.Identity.{u64_max}
use rust_jsi.Jsc.Ledger.Threads.{without}

pub data Head (T : Type 0) : Type 0 where
  linked : List T → Head T
  closed_sentinel : Head T

-- The queue, the tokens at each point of a push and of a reclaim, and the ends of the tokens.
pub record System (T : Type 0) : Type 0 where
  pub head : Head T
  pub pending : ℕ
  pub announced : List T  -- counted, not published
  pub refused : ℕ  -- discarded by their producers, not settled
  pub detached : List T  -- handed to the runtime's thread
  pub created : List T
  pub reclaimed : List T
  pub discarded : List T

pub data Access (T : Type 0) : Type 0 where
  announces : T → Access T
  publishes : ℕ → Access T
  takes closes reclaims settles : Access T

abbrev pub new : {T : Type 0} → System T
new = record {
  head = linked [];
  pending = 0;
  announced = [];
  refused = 0;
  detached = [];
  created = [];
  reclaimed = [];
  discarded = [];
}

module _ {T : Type 0} where
  -- A counter of 0 stays.
  abbrev pub settle_pending : System T → System T
  settle_pending s = record s { pending = s.pending - 1 }

  abbrev pub announce : T → System T → System T
  announce token s =
      if ltb s.pending u64_max
      then record s {
        pending = s.pending + 1;
        announced = token ∷ s.announced;
        created = token ∷ s.created;
      }
      else s

  abbrev pub publish : ℕ → Option T → Head T → System T → System T
  publish i none head s = s
  publish i (some token) (linked l) s = record s {
    head = linked (token ∷ l);
    announced = without i s.announced;
  }
  publish i (some token) closed_sentinel s = record s {
    announced = without i s.announced;
    refused = s.refused + 1;
    discarded = token ∷ s.discarded;
  }

  abbrev pub take : Head T → System T → System T
  take closed_sentinel s = s
  take (linked l) s = record s { head = linked []; detached = l ++ s.detached }

  abbrev pub close : Head T → System T → System T
  close closed_sentinel s = s
  close (linked l) s = record s { head = closed_sentinel; detached = l ++ s.detached }

  -- One round of `reclaim_finalized`, without its report and without the removal of the token's state
  -- from the registry of native states.
  abbrev pub reclaim : List T → System T → System T
  reclaim [] s = s
  reclaim (token ∷ l) s =
      settle_pending (record s { detached = l; reclaimed = token ∷ s.reclaimed })

  unfoldable pub step : Access T → System T → System T
  step (announces token) s = announce token s
  step (publishes i) s = publish i (get_elem? s.announced i) s.head s
  step takes s = take s.head s
  step closes s = close s.head s
  step reclaims s = reclaim s.detached s
  step settles s =
      if s.refused == 0 then s else settle_pending (record s { refused = s.refused - 1 })

  unfoldable pub run : List (Access T) → System T → System T
  unfolding step
  run [] s = s
  run (a ∷ l) s = run l (step a s)
