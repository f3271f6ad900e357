-- ===== src/Jsc/CallLimits.antt =====
-- backend-jsc/src/experimental.rs: the admission of one call's arguments. A string is its UTF-8 bytes,
-- and a number any type of floats.
use rust_jsi.Base.{
  ℕ, ◌+◌, ◌≤◌, ◌<◌, ◌≡◌, ◌⊎◌, inl, Bool, if◌then◌else◌, ltb, List, [], ◌∷◌, length, Option, none,
  some, Result, ok, err, arith,
}
use rust_jsi.Host.Identity.{u64_max, checked_add}
use rust_jsi.Jsc.Errors.{RuntimeError, call_argument_limit_reached, call_string_data_limit_reached}

pub record CallLimits : Type 0 where
  pub arguments : ℕ
  pub string_utf8_bytes : ℕ

pub data Value (F : Type 0) : Type 0 where
  undefined null : Value F
  boolean : Bool → Value F
  number : F → Value F
  string : (utf8 : List ℕ) → Value F

abbrev pub charge : Option ℕ → (ℕ → Result (ℕ × ℕ) RuntimeError) → Result (ℕ × ℕ) RuntimeError
charge none rest = err call_string_data_limit_reached
charge (some bytes) rest = rest bytes

abbrev pub admit : CallLimits → Result (ℕ × ℕ) RuntimeError → Result ℕ RuntimeError
admit self (err e) = err e
admit self (ok (strings, bytes)) =
    if ltb self.string_utf8_bytes bytes then err call_string_data_limit_reached else ok strings

abbrev pub total : List (List ℕ) → ℕ
total [] = 0
total (utf8 ∷ l) = length utf8 + total l

module _ {F : Type 0} where
  -- The loop over the arguments, with its two counters.
  unfoldable pub scan : List (Value F) → ℕ → ℕ → Result (ℕ × ℕ) RuntimeError
  scan [] strings bytes = ok (strings, bytes)
  scan (string utf8 ∷ l) strings bytes =
      charge (checked_add bytes (length utf8)) (scan l (strings + 1))
  scan (undefined ∷ l) strings bytes = scan l strings bytes
  scan (null ∷ l) strings bytes = scan l strings bytes
  scan (boolean b ∷ l) strings bytes = scan l strings bytes
  scan (number x ∷ l) strings bytes = scan l strings bytes

  unfoldable pub validate : CallLimits → List (Value F) → Result ℕ RuntimeError
  unfolding scan
  validate self arguments =
      if ltb self.arguments (length arguments)
      then err call_argument_limit_reached
      else admit self (scan arguments 0 0)

  -- What the limits are about.
  abbrev pub strings_of : List (Value F) → List (List ℕ)
  strings_of [] = []
  strings_of (string utf8 ∷ l) = utf8 ∷ strings_of l
  strings_of (undefined ∷ l) = strings_of l
  strings_of (null ∷ l) = strings_of l
  strings_of (boolean b ∷ l) = strings_of l
  strings_of (number x ∷ l) = strings_of l

  -- The counters never wrap: the loop ends early exactly where their sum would pass 2^64 - 1.
  scan_lem :
      (l : List (Value F)) (strings bytes : ℕ)
      → bytes ≤ u64_max
      → ((bytes + total (strings_of l) ≤ u64_max)
          × (scan l strings bytes
              ≡ ok (strings + length (strings_of l), bytes + total (strings_of l))))
        ⊎ ((u64_max < bytes + total (strings_of l))
            × (scan l strings bytes ≡ err call_string_data_limit_reached))
  unfolding scan
  scan_lem [] strings bytes h = inl (omega (arith, h), ground arith)
  scan_lem (string utf8 ∷ l) strings bytes h =
      ground (arith, scan_lem l (strings + 1) (bytes + length utf8))
  scan_lem (undefined ∷ l) strings bytes h = scan_lem l strings bytes h
  scan_lem (null ∷ l) strings bytes h = scan_lem l strings bytes h
  scan_lem (boolean b ∷ l) strings bytes h = scan_lem l strings bytes h
  scan_lem (number x ∷ l) strings bytes h = scan_lem l strings bytes h

  -- A call is admitted, with the number of its strings, exactly when it has no more arguments than
  -- the limit and the bytes of its strings together are within theirs; the number of arguments is
  -- judged first, and a sum that does not fit in 64 bits is refused as too much data.
  pub validate_lem :
      (self : CallLimits) (arguments : List (Value F))
      → self.string_utf8_bytes ≤ u64_max
      → ((self.arguments < length arguments)
          × (validate self arguments ≡ err call_argument_limit_reached))
        ⊎ ((length arguments ≤ self.arguments)
            × (((self.string_utf8_bytes < total (strings_of arguments))
                  × (validate self arguments ≡ err call_string_data_limit_reached))
                ⊎ ((total (strings_of arguments) ≤ self.string_utf8_bytes)
                    × (validate self arguments ≡ ok (length (strings_of arguments))))))
  unfolding validate
  validate_lem self arguments h = ground (arith, scan_lem arguments 0 0)
