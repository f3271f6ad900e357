-- ===== src/Jsc/Messages/Laws.antt =====
-- backend-jsc/src/experimental/exception_message.rs: the copies are bounded and end at a character.
use rust_jsi.Base.{
  ℕ, zero, suc, ◌+◌, ◌-◌, ◌≤◌, ◌<◌, ◌≡◌, ◌⊎◌, inl, inr, refl, sym, ap, ◌∙◌, Bool, true, false, ◌==◌,
  ltb, leb, Bool-cases, List, [], ◌∷◌, ◌++◌, length, length-append, ok, arith,
}
use rust_jsi.Jsc.Messages.{
  max_message_bytes, truncation_suffix, take, min, is_char_boundary, retreat, truncation_end,
  truncate, truncate_for_engine, JsException, JsString, copied_units, exception_of, copy_bytes,
  copy,
}

length-take : (n : ℕ) (l : List ℕ) → n ≤ length l → length (take n l) ≡ n
length-take zero l h = refl
length-take (suc n) [] h = absurd (omega (arith, h))
length-take (suc n) (x ∷ l) h = ap suc (length-take n l (omega (arith, h)))

length-take_le : (n : ℕ) (l : List ℕ) → length (take n l) ≤ n
length-take_le zero l = omega arith
length-take_le (suc n) [] = omega arith
length-take_le (suc n) (x ∷ l) = ground (arith, length-take_le n l)

-- The greatest boundary up to an index.
abbrev pub Greatest : List ℕ → ℕ → ℕ → Type 0
Greatest message bound e =
    (e ≤ bound)
    × (is_char_boundary message e ≡ true)
    × ((j : ℕ) → j ≤ bound → is_char_boundary message j ≡ true → j ≤ e)

next_le : (j n : ℕ) → j ≤ suc n → (j ≡ suc n) ⊎ (j ≤ n)
next_le j n h = ground arith

true-false : {b : Bool} → b ≡ true → b ≡ false → ⊥
true-false h e = ground arith

retreat-Greatest : (message : List ℕ) (bound : ℕ) → Greatest message bound (retreat message bound)
retreat-Greatest message zero = (omega arith, refl, λ j h b. h)
retreat-Greatest message (suc bound) =
    let (le, at, most) = retreat-Greatest message bound in
    elim (Bool-cases (is_char_boundary message (suc bound))) [
      | inl e ↦ rw e (omega arith, e, λ j h b. h)
      | inr e ↦ rw e (
        omega (arith, le),
        at,
        λ j h b. elim (next_le j bound h) [
          | inl f ↦ absurd (true-false (sym (ap (is_char_boundary message) f) ∙ b) e)
          | inr less ↦ most j less b
        ],
      )
    ]

min_le : (a b : ℕ) → (min a b ≤ a) × (min a b ≤ b)
min_le a b = (ground arith, ground arith)

cut_length :
    (e : ℕ) (message : List ℕ)
    → e ≤ min (length message) 4081
    → length (take e message ++ truncation_suffix) ≡ e + 15
cut_length e message h =
    length-append (take e message) truncation_suffix
    ∙ ap (λ (n : ℕ). n + 15)
        (length-take e message (omega (arith, h, (min_le (length message) 4081).0)))

end_le : (message : List ℕ) → truncation_end message ≤ min (length message) 4081
unfolding truncation_end
end_le message = (retreat-Greatest message (min (length message) 4081)).0

length-truncate : (message : List ℕ) → length (truncate message) ≤ max_message_bytes
unfolding truncate
length-truncate message =
    let below = end_le message in
    omega (
      arith,
      cut_length (truncation_end message) message below,
      below,
      (min_le (length message) 4081).1,
    )

min_long : (n : ℕ) → 4096 < n → min n 4081 ≡ 4081
min_long n h = ground arith

-- A message of at most 4096 bytes is given to the engine whole. A longer one is cut at the last
-- boundary of characters within its first 4081 bytes, and the suffix of 15 bytes follows, so that it
-- has at most 4096 bytes.
pub truncate_for_engine_lem :
    (message : List ℕ)
    → ((length message ≤ max_message_bytes) × (truncate_for_engine message ≡ message))
      ⊎ ((max_message_bytes < length message)
          × (e : ℕ) × Greatest message 4081 e
          × (truncate_for_engine message ≡ take e message ++ truncation_suffix)
          × (length (truncate_for_engine message) ≤ max_message_bytes))
unfolding truncate_for_engine
truncate_for_engine_lem message = elim (Bool-cases (leb (length message) max_message_bytes)) [
  | inl e ↦ inl (ground arith, rw e refl)
  | inr e ↦
      let long : max_message_bytes < length message = ground arith in
      inr (
        long,
        truncation_end message,
        unfold truncation_end in
            rw (min_long (length message) long) (retreat-Greatest message 4081),
        rw e refl,
        rw e (unfold truncate in length-truncate message),
      )
]

module _ (is_utf8 : List ℕ → Bool) (count_utf16 : List ℕ → ℕ) where
  -- The whole message, or its truncation where the engine has more units.
  abbrev pub Copied : List ℕ → ℕ → JsException → Type 0
  Copied message units x =
      ((units ≤ copied_units is_utf8 count_utf16 message)
        × (x ≡ record { message = message; truncated = false }))
      ⊎ ((copied_units is_utf8 count_utf16 message < units)
          × (x ≡ record { message = truncate message; truncated = true }))

  exception_of-Copied :
      (message : List ℕ) (units : ℕ)
      → length message ≤ max_message_bytes
      → Copied message units (exception_of is_utf8 count_utf16 message units)
        × (length (exception_of is_utf8 count_utf16 message units).message ≤ max_message_bytes)
  unfolding exception_of
  exception_of-Copied message units h =
      elim (Bool-cases (ltb (copied_units is_utf8 count_utf16 message) units)) [
        | inl e ↦ rw e (inr (ground arith, refl), length-truncate message)
        | inr e ↦ rw e (inl (ground arith, refl), h)
      ]

  abbrev pub Copy : List ℕ → JsString → Type 0
  unfolding copy
  Copy message string =
      (x : JsException) × (copy is_utf8 count_utf16 string ≡ ok x)
      × Copied message string.units x
      × (length x.message ≤ max_message_bytes)

  copy_bytes_ok :
      (capacity units written : ℕ) (bytes : List ℕ)
      → 0 < written
      → written ≤ capacity
      → is_utf8 (take (written - 1) bytes) ≡ true
      → copy_bytes is_utf8 count_utf16 capacity units (written, bytes)
        ≡ ok (exception_of is_utf8 count_utf16 (take (written - 1) bytes) units)
  unfolding copy_bytes
  copy_bytes_ok capacity units written bytes some_written fits valid =
      let nonzero : (written == 0) ≡ false = ground arith in
      let within : ltb capacity written ≡ false = ground arith in rw (nonzero, within, valid) refl

  -- Where the engine knows the size of a string and writes a part of it that is UTF-8, the copy gives
  -- a message of at most 4096 bytes: that part, marked as whole, if it has the string's UTF-16 units,
  -- and else its truncation, marked as such.
  pub copy_lem :
      (string : JsString) (written : ℕ) (bytes : List ℕ)
      → 0 < string.maximum_utf8_size
      → string.get_utf8 (min string.maximum_utf8_size (max_message_bytes + 1)) ≡ (written, bytes)
      → 0 < written
      → written ≤ min string.maximum_utf8_size (max_message_bytes + 1)
      → is_utf8 (take (written - 1) bytes) ≡ true
      → Copy (take (written - 1) bytes) string
  unfolding copy Copy
  copy_lem string written bytes sized answer some_written fits valid =
      let message = take (written - 1) bytes in
      let capacity = min string.maximum_utf8_size (max_message_bytes + 1) in
      let nonzero : (string.maximum_utf8_size == 0) ≡ false = ground arith in
      let short : length message ≤ max_message_bytes = omega (
        arith,
        length-take_le (written - 1) bytes,
        fits,
        (min_le string.maximum_utf8_size (max_message_bytes + 1)).1,
      ) in
      let (copied, bounded) = exception_of-Copied message string.units short in
      (
        exception_of is_utf8 count_utf16 message string.units,
        rw nonzero (
            ap (copy_bytes is_utf8 count_utf16 capacity string.units) answer
            ∙ copy_bytes_ok capacity string.units written bytes some_written fits valid),
        copied,
        bounded,
      )
