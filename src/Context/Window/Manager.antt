-- ===== src/Context/Window/Manager.antt =====
-- `ContextWindowManager` of python-glue/unified_ai/context/advanced.py, and the window of
-- `ContextManager._manage_window_python` in python-glue/unified_ai/context_manager.py, both over the
-- truncation of the module above.
use Prim.Native.String.{String}
use unified_ai_orchestrator.Base.{
  ℕ, ◌+◌, ◌-◌, ◌/◌, ◌≤◌, ◌<◌, ◌≡◌, Bool, false, Option, none, some, List, [], ◌∷◌, ltb, leb, length,
  if◌then◌else◌, arith, dec_lt,
}
use unified_ai_orchestrator.Base.Dict.{Dict, get_or}
use unified_ai_orchestrator.Base.Text.{Text}
use unified_ai_orchestrator.Context.{Context, Message, is_system_role}
use unified_ai_orchestrator.Context.Tokens.{
  DictMessage, text, dict, count_message_tokens, get_context_window,
}
use unified_ai_orchestrator.Context.Window.{truncate}
use unified_ai_orchestrator.Context.Window.Truncation.{total}
use unified_ai_orchestrator.Context.Window.Order.{truncate-budget, truncate-none}

-- The window manager takes messages that are `Message` objects or dicts.
pub data Entry : Type 0 where
  message : Message → Entry
  raw : DictMessage → Entry

-- `{"role": message.role, "content": message.content}`
abbrev pub message_dict : Message → DictMessage
message_dict m = record { role = some m.role; content = some (text m.content) }

is_system_dict : Option Text → Bool
is_system_dict none = false
is_system_dict (some role) = is_system_role role

unfoldable pub is_system_entry : Entry → Bool
unfolding is_system_dict
is_system_entry (message m) = is_system_role m.role
is_system_entry (raw d) = is_system_dict d.role

abbrev pub with_messages : {J M : Type 0} → Context J M → List M → Context J M
with_messages c ms = record c { messages = ms }

-- The tokens of one message, as both methods count them.
unfoldable pub entry_tokens : (String → Text → ℕ) → String → Entry → ℕ
entry_tokens encode model (message m) =
    count_message_tokens encode model (dict (message_dict m) ∷ [])
entry_tokens encode model (raw d) = count_message_tokens encode model (dict d ∷ [])

module _ (encode : String → Text → ℕ) {J : Type 0} (reserved : ℕ) (model : String) where
  -- `_estimate_context_tokens`
  pub estimate : Context J Entry → ℕ
  estimate c = total (entry_tokens encode model) c.messages

  -- `_truncate_context`
  pub truncate_context : Context J Entry → ℕ → Context J Entry
  truncate_context c window_size =
      with_messages c
        (truncate is_system_entry (entry_tokens encode model) window_size reserved c.messages)

  -- `manage_context`
  pub manage_context : Context J Entry → Context J Entry
  manage_context c =
      let window_size = get_context_window model in
      if ltb window_size (estimate c + reserved) then truncate_context c window_size else c

  -- Whatever the context, what `manage_context` returns leaves the reserved tokens free in the
  -- model's window (or has no tokens, if more is reserved than the window holds), and nothing but
  -- the messages is changed.
  pub manage_context-fits :
      (c : Context J Entry)
      → (estimate (manage_context c) ≤ get_context_window model - reserved)
        × (manage_context c ≡ with_messages c (manage_context c).messages)
  unfolding manage_context truncate_context estimate
  manage_context-fits c =
      let w = get_context_window model in
      let b = truncate-budget is_system_entry (entry_tokens encode model) w reserved c.messages in
      (ground (arith, b), ground arith)

  -- A context that fits is left as it is.
  settled :
      (c : Context J Entry)
      → estimate c + reserved ≤ get_context_window model
      → manage_context c ≡ c
  unfolding manage_context
  settled c h = ground arith

  emptied :
      (c : Context J Entry)
      → get_context_window model < reserved
      → manage_context c ≡ with_messages c []
  unfolding manage_context truncate_context
  emptied c h = ground (
    arith,
    truncate-none is_system_entry (entry_tokens encode model) (get_context_window model) reserved
        c.messages h,
  )

  -- Managing a context that was managed changes nothing.
  pub manage_context_idem :
      (c : Context J Entry) → manage_context (manage_context c) ≡ manage_context c
  manage_context_idem c = elim (dec_lt (get_context_window model) reserved) [
    | no enough ↦ settled (manage_context c) (omega (arith, (manage_context-fits c).0))
    | yes over ↦ rw (emptied c over) (emptied (with_messages c []) over)
  ]

abbrev pub model_windows : Dict ℕ
model_windows =
    ("gpt-4", 8192)
    ∷ ("gpt-3.5-turbo", 4096)
    ∷ ("claude-3-5-sonnet-20241022", 200000)
    ∷ ("claude-3-opus", 200000)
    ∷ ("claude-3-sonnet", 200000)
    ∷ ("claude-3-haiku", 200000)
    ∷ []

-- Four characters for a token.
unfoldable pub quarter : Message → ℕ
quarter m = length m.content / 4

-- `sum(len(msg.content) for msg in context.messages)`
total_chars : List Message → ℕ
total_chars [] = 0
total_chars (m ∷ ms) = length m.content + total_chars ms

total-quarter-le : (ms : List Message) → total quarter ms ≤ total_chars ms / 4
unfolding total quarter total_chars
total-quarter-le [] = omega arith
total-quarter-le (m ∷ ms) = omega (arith, total-quarter-le ms)

module _ {J : Type 0} where
  -- `_manage_window_python`; `reserved` is what `manage_window` passes on.
  pub manage_window_python : Context J Message → String → ℕ → Context J Message
  manage_window_python c model reserved =
      let window_size = get_or model model_windows 4096 in
      if leb (total_chars c.messages / 4 + reserved) window_size
      then c
      else with_messages c
          (truncate (λ m. is_system_role m.role) quarter window_size reserved c.messages)

  -- The fallback keeps to its budget too: by its own count, what it returns leaves the reserved
  -- tokens free in the window.
  pub manage_window_python-fits :
      (c : Context J Message) (model : String) (reserved : ℕ)
      → total quarter (manage_window_python c model reserved).messages
        ≤ get_or model model_windows 4096 - reserved
  unfolding manage_window_python
  manage_window_python-fits c model reserved =
      let w = get_or model model_windows 4096 in
      let b =
        truncate-budget (λ (m : Message). is_system_role m.role) quarter w reserved c.messages in
      ground (arith, b, total-quarter-le c.messages)
