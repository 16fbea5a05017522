-- ===== src/Context.antt =====
-- The data of a conversation (python-glue/unified_ai/context_manager.py) and the parts that work on
-- it: token counting, the window that a model leaves, compression, summaries and the manager that
-- stores contexts.
pub mod Tokens
pub mod Window
pub mod Compression
pub mod Summary
pub mod Store
use unified_ai_orchestrator.Base.{ℕ, Bool, Option, List}
use unified_ai_orchestrator.Base.Text.{Text, codes, text_eq}

pub record Message : Type 0 where
  pub role : Text
  pub content : Text
  pub timestamp : ℕ

pub record ToolCall : Type 0 where
  pub tool : Text
  pub timestamp : ℕ
  pub request : Text
  pub response : Text

-- A context over its type of messages; `J` is the JSON of `codebase_context`, which is only carried.
pub record Context (J M : Type 0) : Type 0 where
  pub conversation_id : Text
  pub project_id : Option Text
  pub messages : List M
  pub codebase_context : Option J
  pub tool_history : List ToolCall

abbrev pub system : Text
system = codes "system"

abbrev pub is_system_role : Text → Bool
is_system_role role = text_eq role system
