-- ===== src/Context/Store.antt =====
-- `ContextManager` of python-glue/unified_ai/context_manager.py: what it reads and writes of the
-- storage. The storage is an interface, which Context/Store/Sqlite implements. JSON texts are
-- a type of their own, made and read by `dumps` and `loads` (`none` where it raises); all else that is
-- read of one is whether it is empty. The time and the fresh identifier are
-- arguments.
pub mod Sqlite
pub mod Conversation
mod Tests
use unified_ai_orchestrator.Base.{
  ℕ, ◌≡◌, Bool, true, false, Option, none, some, List, [], ◌∷◌, ◌++◌, map, if◌then◌else◌,
}
use unified_ai_orchestrator.Base.Text.{Text, text_eq}
use unified_ai_orchestrator.Context.{Message, ToolCall, Context}

-- The dict of `to_dict`, where a key may be missing: `asdict` of a message has its three fields.
pub record ContextDict (J : Type 0) : Type 0 where
  pub conversation_id : Option Text
  pub project_id : Option (Option Text)
  pub messages : Option (List Message)
  pub codebase_context : Option (Option J)
  pub tool_history : Option (List ToolCall)

-- The storage that the manager calls, in the words of `StorageBackend`.
pub record Storage (S D : Type 0) : Type 0 where
  pub load_context : Text → S → Option D
  pub save_context : Text → Option Text → D → ℕ → S → S
  pub add_message : Text → Text → Text → ℕ → S → S

-- What the manager relies on: a context that was saved is loaded, and messages do not change it.
pub record IsStorage {S D : Type 0} (st : Storage S D) : Type 0 where
  pub load-save :
      (i j : Text) (project_id : Option Text) (data_given : D) (updated_at : ℕ) (s : S)
      → st.load_context j (st.save_context i project_id data_given updated_at s)
        ≡ (if text_eq i j then some data_given else st.load_context j s)
  pub load-add_message :
      (i j role content : Text) (timestamp : ℕ) (s : S)
      → st.load_context j (st.add_message i role content timestamp s) ≡ st.load_context j s

with_default : {A : Type 0} → Option A → A → A
with_default none a = a
with_default (some b) a = b

module _ {J : Type 0} where
  -- `Context.to_dict`
  unfoldable pub to_dict : Context J Message → ContextDict J
  to_dict c = record {
    conversation_id = some c.conversation_id;
    project_id = some c.project_id;
    messages = some c.messages;
    codebase_context = some c.codebase_context;
    tool_history = some c.tool_history;
  }

  -- `Context.from_dict`; `none` is the `KeyError` of `data["conversation_id"]`.
  unfoldable pub from_dict : ContextDict J → Option (Context J Message)
  unfolding with_default
  from_dict d = elim d.conversation_id [
    | none ↦ none
    | some i ↦ some (record {
      conversation_id = i;
      project_id = with_default d.project_id none;
      messages = with_default d.messages [];
      codebase_context = with_default d.codebase_context none;
      tool_history = with_default d.tool_history [];
    })
  ]

  -- `get_or_create_context` creates the context without messages.
  unfoldable pub new_context : Text → Option Text → Context J Message
  new_context i project_id = record {
    conversation_id = i;
    project_id = project_id;
    messages = [];
    codebase_context = none;
    tool_history = [];
  }

  module _ {S D : Type 0} (st : Storage S D) (dumps : ContextDict J → D)
      (loads : D → Option (ContextDict J)) (no_text : D → Bool) where
    -- The context of a loaded text; `none` is an exception, `some none` no context. An empty text
    -- counts as no text.
    parse : Option D → Option (Option (Context J Message))
    parse none = some none
    parse (some t) = elim (no_text t) [
      | true ↦ some none
      | false ↦ elim (loads t) [
        | none ↦ none
        | some d ↦ elim (from_dict d) [ none ↦ none | some context ↦ some (some context) ]
      ]
    ]

    -- `get_context`
    unfoldable pub get_context : Text → S → Option (Option (Context J Message))
    unfolding parse
    get_context i s = parse (st.load_context i s)

    -- `save_context`, at the time `now`.
    unfoldable pub save_context : Context J Message → ℕ → S → S
    save_context c now s = st.save_context c.conversation_id c.project_id (dumps (to_dict c)) now s

    create : Text → Option Text → ℕ → S → Context J Message × S
    create i project_id now s =
        (new_context i project_id, save_context (new_context i project_id) now s)

    or_create :
        Option (Option (Context J Message))
        → Text
        → Option Text
        → ℕ
        → S
        → Option (Context J Message × S)
    or_create none i project_id now s = none
    or_create (some none) i project_id now s = some (create i project_id now s)
    or_create (some (some c)) i project_id now s = some (c, s)

    -- `get_or_create_context`: `fresh` is `str(uuid.uuid4())`.
    unfoldable pub get_or_create_context :
        Option Text → Option Text → Text → ℕ → S → Option (Context J Message × S)
    unfolding create or_create
    get_or_create_context none project_id fresh now s = some (create fresh project_id now s)
    get_or_create_context (some []) project_id fresh now s = some (create fresh project_id now s)
    get_or_create_context (some (c ∷ i)) project_id fresh now s =
        or_create (get_context (c ∷ i) s) (c ∷ i) project_id now s

    -- `add_message` at the time `now`: to the context, to the table of messages (whose row number is
    -- not used), and the context is saved at the time `later`.
    unfoldable pub add_message : Text → Text → ℕ → ℕ → Context J Message × S → Context J Message × S
    add_message role content now later (c, s) =
        let m : Message = record { role = role; content = content; timestamp = now } in
        let after = record c { messages = c.messages ++ m ∷ [] } in
        (after, save_context after later (st.add_message c.conversation_id role content now s))

    -- `add_tool_call` at the time `now`, saved at the time `later`.
    unfoldable pub add_tool_call :
        Text → Text → Text → ℕ → ℕ → Context J Message × S → Context J Message × S
    add_tool_call tool request response now later (c, s) =
        let call : ToolCall = record {
          tool = tool;
          timestamp = now;
          request = request;
          response = response;
        } in
        let after = record c { tool_history = c.tool_history ++ call ∷ [] } in
        (after, save_context after later s)
