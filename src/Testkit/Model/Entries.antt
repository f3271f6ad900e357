-- ===== src/Testkit/Model/Entries.antt =====
-- testkit/src/model.rs: the values of the deterministic backend and the outcomes programmed for it.
use Prim.Native.String.{String}
use rust_jsi.Base.{ℕ, Bool, true, false, ◌==◌, List}
use rust_jsi.Backend.Errors.{ValueKind}

pub data Primitive (F : Type 0) : Type 0 where
  undefined null : Primitive F
  boolean : Bool → Primitive F
  number : F → Primitive F
  string : String → Primitive F

pub data Evaluation (F : Type 0) : Type 0 where
  return_value : Primitive F → Evaluation F
  return_function : Evaluation F
  throw : String → Evaluation F
  fail : String → Evaluation F

pub data Invocation (F : Type 0) : Type 0 where
  return_value : Primitive F → Invocation F
  throw : String → Invocation F
  fail : String → Invocation F

pub data ModelValueEntry (F : Type 0) : Type 0 where
  primitive_entry : Primitive F → ModelValueEntry F
  function_entry : ModelValueEntry F
  external_entry : (bytes : List ℕ) → ModelValueEntry F

abbrev pub kind : {F : Type 0} → ModelValueEntry F → ValueKind
kind (primitive_entry Primitive.undefined) = ValueKind.undefined
kind (primitive_entry Primitive.null) = ValueKind.null
kind (primitive_entry (Primitive.boolean b)) = ValueKind.boolean
kind (primitive_entry (Primitive.number x)) = ValueKind.number
kind (primitive_entry (Primitive.string s)) = ValueKind.string
kind function_entry = ValueKind.function
kind (external_entry bytes) = ValueKind.buffer

-- The derived `PartialEq` of `ValueKind`, by the order of its constructors.
abbrev pub place : ValueKind → ℕ
place ValueKind.undefined = 0
place ValueKind.null = 1
place ValueKind.boolean = 2
place ValueKind.number = 3
place ValueKind.string = 4
place ValueKind.symbol = 5
place ValueKind.big_int = 6
place ValueKind.object = 7
place ValueKind.function = 8
place ValueKind.buffer = 9

abbrev pub same_kind : ValueKind → ValueKind → Bool
same_kind a b = place a == place b

abbrev pub is_object_like : ValueKind → Bool
is_object_like ValueKind.object = true
is_object_like ValueKind.function = true
is_object_like ValueKind.buffer = true
is_object_like _ = false
