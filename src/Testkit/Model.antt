-- ===== src/Testkit/Model.antt =====
-- testkit/src/model.rs: the deterministic backend. A number is of any type of floats; a `HashSet` is
-- the list of its members; a view of a buffer is its bytes, so a buffer's owner is freed with its
-- entry. The cells that a backend shares with its scope are the fields of one record.
pub mod Entries
pub mod Calls
pub mod Backends
pub mod Members
pub mod Live
pub mod Dropping
pub mod Preservation
pub mod Rooting
pub mod Releasing
use Prim.Native.String.{String}
use rust_jsi.Base.{
  ℕ, zero, suc, ◌+◌, ◌-◌, Bool, true, false, ◌&&◌, ◌||◌, not, if◌then◌else◌, ◌==◌, ltb, List, [],
  ◌∷◌, length, Option, none, some, Result, ok, err, Outcome, returned, panicked, Method,
}
use rust_jsi.Host.Identity.{u64_max}
use rust_jsi.Backend.Errors.{
  BackendError, ValueKind, CallReceiver, global, receiver, exceptional, exception, wrong_backend,
  stale_handle, kind_error, failure, OwnershipTransferError, rejected, accepted,
}
use rust_jsi.Testkit.SlotMap
use rust_jsi.Testkit.SlotMap.{SlotMap}
use Entries.{
  Primitive, Evaluation, Invocation, ModelValueEntry, primitive_entry, function_entry,
  external_entry, kind, same_kind, is_object_like,
}

pub record ValueId : Type 0 where
  pub backend : ℕ
  pub slot : ℕ
  pub generation : ℕ

pub record ModelRoot : Type 0 where
  pub backend : ℕ
  pub slot : ℕ
  pub generation : ℕ

abbrev pub same_value : ValueId → ValueId → Bool
same_value a b = a.backend == b.backend && (a.slot == b.slot && a.generation == b.generation)

pub record ExternalBufferStats : Type 0 where
  pub accepted_owners : ℕ
  pub live_bytes : ℕ
  pub finalized : ℕ
  pub copied_bytes : ℕ

pub data ExternalFault : Type 0 where
  no_fault reject accept_then_fail : ExternalFault

-- `u64::saturating_add`.
abbrev pub saturating_add : ℕ → ℕ → ℕ
saturating_add a b = if ltb u64_max (a + b) then u64_max else a + b

abbrev pub byte_count : List ℕ → ℕ
byte_count bytes = if ltb u64_max (length bytes) then u64_max else length bytes

-- `ModelExternalOwner::accept` and its drop.
abbrev pub accept : List ℕ → ExternalBufferStats → ExternalBufferStats
accept bytes stats = record stats {
  accepted_owners = saturating_add stats.accepted_owners 1;
  live_bytes = saturating_add stats.live_bytes (byte_count bytes);
}

abbrev pub drop_owner : List ℕ → ExternalBufferStats → ExternalBufferStats
drop_owner bytes stats = record stats {
  live_bytes = stats.live_bytes - byte_count bytes;
  finalized = saturating_add stats.finalized 1;
}

-- A scope with the backend that it borrows.
pub record ModelScope (F : Type 0) : Type 0 where
  pub id : ℕ
  pub values : SlotMap (ModelValueEntry F)
  pub roots : SlotMap ValueId
  pub evaluations : List (Evaluation F)
  pub invocations : List (Invocation F)
  pub external_fault : ExternalFault
  pub buffer_stats : ExternalBufferStats
  pub locals : List ValueId

abbrev pub contains : List ValueId → ValueId → Bool
contains [] value = false
contains (x ∷ l) value = same_value x value || contains l value

abbrev pub insert_local : ValueId → List ValueId → List ValueId
insert_local value locals = if contains locals value then locals else value ∷ locals

abbrev pub any_rooted : List (Option ValueId) → ValueId → Bool
any_rooted [] value = false
any_rooted (none ∷ l) value = any_rooted l value
any_rooted (some rooted ∷ l) value = same_value rooted value || any_rooted l value

abbrev pub expect_kind :
    ValueId → ValueKind → Result ValueKind BackendError → Result ValueId BackendError
expect_kind value expected (err e) = err e
expect_kind value expected (ok actual) =
    if same_kind actual expected then ok value else err (kind_error expected actual)

module _ {F : Type 0} where
  unfoldable pub is_rooted : ModelScope F → ValueId → Bool
  unfolding SlotMap.iter
  is_rooted self value = any_rooted (SlotMap.iter self.roots) value

  abbrev pub dropped_entry : Option (ModelValueEntry F) → ExternalBufferStats → ExternalBufferStats
  dropped_entry (some (external_entry bytes)) stats = drop_owner bytes stats
  dropped_entry entry stats = stats

  unfoldable pub remove_value : ValueId → ModelScope F → ModelScope F
  remove_value value self =
      let (values, entry) = SlotMap.remove value.slot value.generation self.values in
      record self { values = values; buffer_stats = dropped_entry entry self.buffer_stats }

  abbrev pub inserted :
      ModelScope F → SlotMap (ModelValueEntry F) × Outcome (ℕ × ℕ) → ModelScope F × Outcome ValueId
  inserted self (values, panicked) = (record self { values = values }, panicked)
  inserted self (values, returned (slot, generation)) =
      let id : ValueId = record { backend = self.id; slot = slot; generation = generation } in
      (record self { values = values; locals = insert_local id self.locals }, returned id)

  unfoldable pub insert : ModelValueEntry F → Method (ModelScope F) ValueId
  insert entry self = inserted self (SlotMap.insert entry self.values)

  abbrev pub insert_ok : {E : Type 0} → ModelValueEntry F → Method (ModelScope F) (Result ValueId E)
  unfolding insert
  insert_ok entry self = elim (insert entry self).1 [
    | returned id ↦ ((insert entry self).0, returned (ok id))
    | panicked ↦ ((insert entry self).0, panicked)
  ]

  abbrev pub kind_of : Option (ModelValueEntry F) → Result ValueKind BackendError
  kind_of none = err stale_handle
  kind_of (some entry) = ok (kind entry)

  unfoldable pub validate : ModelScope F → ValueId → Result ValueKind BackendError
  validate self value =
      if not (value.backend == self.id)
      then err wrong_backend
      else kind_of (SlotMap.get self.values value.slot value.generation)

  unfoldable pub require_kind : ModelScope F → ValueId → ValueKind → Result ValueId BackendError
  unfolding validate
  require_kind self value expected = expect_kind value expected (validate self value)

  -- A read of an entry whose kind was checked; another kind is `unreachable!`.
  abbrev pub read :
      {A : Type 0}
      → ModelScope F
      → (Option (ModelValueEntry F) → Outcome A)
      → Result ValueId BackendError
      → Outcome (Result A BackendError)
  read self view (err e) = returned (err e)
  read self view (ok id) = elim (view (SlotMap.get self.values id.slot id.generation)) [
    | returned a ↦ returned (ok a)
    | panicked ↦ panicked
  ]

  abbrev pub boolean_of : Option (ModelValueEntry F) → Outcome Bool
  boolean_of (some (primitive_entry (Primitive.boolean b))) = returned b
  boolean_of entry = panicked

  abbrev pub number_of : Option (ModelValueEntry F) → Outcome F
  number_of (some (primitive_entry (Primitive.number x))) = returned x
  number_of entry = panicked

  abbrev pub string_of : Option (ModelValueEntry F) → Outcome String
  string_of (some (primitive_entry (Primitive.string s))) = returned s
  string_of entry = panicked

  abbrev pub bytes_of : Option (ModelValueEntry F) → Outcome (List ℕ)
  bytes_of (some (external_entry bytes)) = returned bytes
  bytes_of entry = panicked

  unfoldable pub as_boolean : ModelScope F → ValueId → Outcome (Result Bool BackendError)
  unfolding require_kind
  as_boolean self value = read self boolean_of (require_kind self value ValueKind.boolean)

  unfoldable pub as_number : ModelScope F → ValueId → Outcome (Result F BackendError)
  unfolding require_kind
  as_number self value = read self number_of (require_kind self value ValueKind.number)

  unfoldable pub to_string : ModelScope F → ValueId → Outcome (Result String BackendError)
  unfolding require_kind
  to_string self value = read self string_of (require_kind self value ValueKind.string)

  unfoldable pub buffer_bytes : ModelScope F → ValueId → Outcome (Result (List ℕ) BackendError)
  unfolding require_kind
  buffer_bytes self value = read self bytes_of (require_kind self value ValueKind.buffer)
