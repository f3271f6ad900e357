-- ===== src/Tests/Messages.antt =====
-- backend-jsc/src/experimental/exception_message.rs: 4100 letters, and an ellipsis that is not cut.
use rust_jsi.Base.{ℕ, zero, suc, ◌≡◌, ◌≤◌, ◌<◌, ◌⊎◌, refl, List, [], ◌∷◌, ◌++◌, length}
use rust_jsi.Jsc.Messages.{max_message_bytes, truncation_suffix, take, retreat, truncate_for_engine}
use rust_jsi.Jsc.Messages.Laws.{Greatest, truncate_for_engine_lem}

letters : ℕ → List ℕ
letters zero = []
letters (suc n) = 97 ∷ letters n

truncate_for_engine_lem_example :
    ((length (letters 4100) ≤ max_message_bytes)
      × (truncate_for_engine (letters 4100) ≡ letters 4100))
    ⊎ ((max_message_bytes < length (letters 4100))
        × (e : ℕ) × Greatest (letters 4100) 4081 e
        × (truncate_for_engine (letters 4100) ≡ take e (letters 4100) ++ truncation_suffix)
        × (length (truncate_for_engine (letters 4100)) ≤ max_message_bytes))
truncate_for_engine_lem_example = truncate_for_engine_lem (letters 4100)

inside_a_character : retreat (97 ∷ 226 ∷ 128 ∷ 166 ∷ 98 ∷ []) 3 ≡ 1
inside_a_character = refl
