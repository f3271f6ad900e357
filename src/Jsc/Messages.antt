-- ===== src/Jsc/Messages.antt =====
-- backend-jsc/src/experimental/exception_message.rs: the bounded copies of an exception's message. A
-- `String` is its UTF-8 bytes. The engine's answers about a string, the test of UTF-8 and the count
-- of UTF-16 units are parameters.
pub mod Laws
use rust_jsi.Base.{
  ℕ, zero, suc, ◌+◌, ◌-◌, Bool, true, false, ◌||◌, ◌&&◌, not, if◌then◌else◌, ◌==◌, ltb, leb, List,
  [], ◌∷◌, ◌++◌, length, Option, none, some, Result, ok, err,
}
use rust_jsi.Base.Slots.{get_elem?}
use Prim.Native.String.{String}

abbrev pub max_message_bytes : ℕ
max_message_bytes = 4096

-- "… [truncated]", where the ellipsis is three bytes.
abbrev pub truncation_suffix : List ℕ
truncation_suffix =
    226 ∷ 128 ∷ 166 ∷ 32 ∷ 91 ∷ 116 ∷ 114 ∷ 117 ∷ 110 ∷ 99 ∷ 97 ∷ 116 ∷ 101 ∷ 100 ∷ 93 ∷ []

-- `&message[..end]`, of an `end` within the message.
abbrev pub take : ℕ → List ℕ → List ℕ
take zero l = []
take (suc n) [] = []
take (suc n) (x ∷ l) = x ∷ take n l

abbrev pub min : ℕ → ℕ → ℕ
min a b = if leb a b then a else b

-- A byte that begins a character.
abbrev pub leads : Option ℕ → Bool
leads none = false
leads (some byte) = ltb byte 128 || leb 192 byte

-- `str::is_char_boundary`.
abbrev pub is_char_boundary : List ℕ → ℕ → Bool
is_char_boundary message index =
    index == 0 || (index == length message || leads (get_elem? message index))

-- The loop of `truncation_end`; 0 is a boundary.
abbrev pub retreat : List ℕ → ℕ → ℕ
retreat message zero = zero
retreat message (suc end) =
    let rest = retreat message end in if is_char_boundary message (suc end) then suc end else rest

unfoldable pub truncation_end : List ℕ → ℕ
truncation_end message =
    retreat message (min (length message) (max_message_bytes - length truncation_suffix))

unfoldable pub truncate : List ℕ → List ℕ
unfolding truncation_end
truncate message = take (truncation_end message) message ++ truncation_suffix

-- A `Cow` is its string.
unfoldable pub truncate_for_engine : List ℕ → List ℕ
unfolding truncation_end
truncate_for_engine message =
    if leb (length message) max_message_bytes
    then message
    else take (truncation_end message) message ++ truncation_suffix

pub record JsException : Type 0 where
  pub message : List ℕ
  pub truncated : Bool

-- A string of the engine, with what its calls answer. `get_utf8` is given the capacity; its bytes are
-- without the terminating NUL, which it counts as written.
pub record JsString : Type 0 where
  pub maximum_utf8_size : ℕ
  pub get_utf8 : ℕ → ℕ × List ℕ
  pub units : ℕ

abbrev pub is_ascii : List ℕ → Bool
is_ascii [] = true
is_ascii (byte ∷ l) = ltb byte 128 && is_ascii l

module _ (is_utf8 : List ℕ → Bool) (count_utf16 : List ℕ → ℕ) where
  abbrev pub copied_units : List ℕ → ℕ
  copied_units message = if is_ascii message then length message else count_utf16 message

  unfoldable pub exception_of : List ℕ → ℕ → JsException
  unfolding truncate
  exception_of message original_units =
      if ltb (copied_units message) original_units
      then record { message = truncate message; truncated = true }
      else record { message = message; truncated = false }

  abbrev pub copy_bytes : ℕ → ℕ → ℕ × List ℕ → Result JsException String
  unfolding exception_of
  copy_bytes capacity original_units (written, bytes) =
      if written == 0 || ltb capacity written
      then err "JavaScriptCore string conversion failed"
      else let message = take (written - 1) bytes in
        if not (is_utf8 message)
        then err "JSC produced invalid UTF-8"
        else ok (exception_of message original_units)

  unfoldable pub copy : JsString → Result JsException String
  unfolding copy_bytes
  copy string =
      let capacity = min string.maximum_utf8_size (max_message_bytes + 1) in
      if string.maximum_utf8_size == 0
      then err "JavaScriptCore reported an invalid string size"
      else copy_bytes capacity string.units (string.get_utf8 capacity)
