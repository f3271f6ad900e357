-- ===== src/Jsc/Budget.antt =====
-- backend-jsc/src/experimental/local_budget.rs: the budget of local roots. The `Cell` of a budget is
-- its field; a `Reservation` is the number that it holds, and its drop is a call on the budget.
use rust_jsi.Base.{
  ℕ, ◌-◌, if◌then◌else◌, ◌==◌, ltb, Option, none, some, Result, ok, err, returned, panicked, Method,
}
use rust_jsi.Host.Identity.{checked_add}
use rust_jsi.Jsc.Errors.{RuntimeError, local_root_limit_reached}

pub record LocalBudget : Type 0 where
  pub used : ℕ
  pub limit : ℕ

pub record Reservation : Type 0 where
  pub held : ℕ

abbrev pub new : ℕ → LocalBudget
new limit = record { used = 0; limit = limit }

abbrev pub reserve_next : ℕ → Option ℕ → LocalBudget → LocalBudget × Result Reservation RuntimeError
reserve_next count none self = (self, err local_root_limit_reached)
reserve_next count (some next) self =
    if ltb self.limit next
    then (self, err local_root_limit_reached)
    else (record self { used = next }, ok (record { held = count }))

unfoldable pub reserve_many : ℕ → LocalBudget → LocalBudget × Result Reservation RuntimeError
reserve_many count self =
    if count == 0
    then (self, ok (record { held = 0 }))
    else reserve_next count (checked_add self.used count) self

unfoldable pub reserve : LocalBudget → LocalBudget × Result Reservation RuntimeError
unfolding reserve_many
reserve self = reserve_many 1 self

-- A `checked_sub` that fails is a panic of `expect`.
unfoldable pub release_many : ℕ → Method LocalBudget (Unit {0})
release_many count self =
    if ltb self.used count
    then (self, panicked)
    else (record self { used = self.used - count }, returned tt)

unfoldable pub release : Method LocalBudget (Unit {0})
unfolding release_many
release self = release_many 1 self

unfoldable pub drop_reservation : Reservation → Method LocalBudget (Unit {0})
unfolding release_many
drop_reservation reservation self =
    if reservation.held == 0 then (self, returned tt) else release_many reservation.held self

-- `commit` clears what is held and drops the reservation.
unfoldable pub commit : Reservation → Method LocalBudget (Unit {0})
unfolding drop_reservation
commit reservation self = drop_reservation (record reservation { held = 0 }) self
