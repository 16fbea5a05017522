-- ===== src/Context/Window.antt =====
-- Truncation to a budget of tokens: the two loops that `_truncate_context` of
-- python-glue/unified_ai/context/advanced.py and `_manage_window_python` of
-- python-glue/unified_ai/context_manager.py share, over any messages with a count of tokens.
pub mod Truncation
pub mod Order
pub mod Manager
mod Tests
use unified_ai_orchestrator.Base.{
  ℕ, zero, suc, ◌+◌, Bool, true, false, List, [], ◌∷◌, ◌++◌, reverse, length, select, leb, ◌&&◌,
  if◌then◌else◌,
}

-- `l.insert(i, x)`
unfoldable pub insert_at {ℓ} : {A : Type ℓ} → ℕ → A → List A → List A
insert_at zero x l = x ∷ l
insert_at (suc i) x [] = x ∷ []
insert_at (suc i) x (y ∷ l) = y ∷ insert_at i x l

-- `token_count + tokens <= window_size - reserved`, where the right side may be negative.
abbrev pub fits : {A : Type 0} → (A → ℕ) → ℕ → ℕ → ℕ → A → Bool
fits tokens window_size reserved token_count m = leb (token_count + tokens m + reserved) window_size

module _ {A : Type 0} (is_system : A → Bool) (tokens : A → ℕ) (window_size reserved : ℕ) where
  -- The first loop: the system messages that fit, in order. It keeps the messages and their count.
  unfoldable pub keep_system : List A → List A × ℕ → List A × ℕ
  keep_system [] (kept, token_count) = (kept, token_count)
  keep_system (m ∷ ms) (kept, token_count) = keep_system ms (
      if is_system m && fits tokens window_size reserved token_count m
      then (kept ++ m ∷ [], token_count + tokens m)
      else (kept, token_count))

  -- The second loop, over the reversed messages: each other message that fits is inserted behind
  -- the system messages, and the first that does not fit ends the loop.
  unfoldable pub keep_recent : List A → List A × ℕ → List A × ℕ
  keep_recent [] s = s
  keep_recent (m ∷ ms) (kept, token_count) = elim (is_system m) [
    | true ↦ keep_recent ms (kept, token_count)
    | false ↦ elim (fits tokens window_size reserved token_count m) [
      | true ↦
          keep_recent ms (insert_at (length (select is_system kept)) m kept, token_count + tokens m)
      | false ↦ (kept, token_count)
    ]
  ]

  -- Both loops, and `kept_messages.reverse()`.
  unfoldable pub truncate : List A → List A
  truncate messages = reverse (keep_recent (reverse messages) (keep_system messages ([], 0))).0
