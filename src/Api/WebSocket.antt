-- ===== src/Api/WebSocket.antt =====
-- `handle_websocket_chat` of python-glue/unified_ai/api/websocket.py: what one message does, and a run of
-- messages until the connection ends. Sending is taken not to fail. The adapters stream a text as
-- chunks, after which they may raise; the clients of the services are a parameter, and so are the
-- storage, JSON, the fresh identifiers and the time.
pub mod Locked
mod Tests
use Prim.Native.String.{String}
use unified_ai_orchestrator.Base.{
  ℕ, zero, suc, Bool, true, false, Option, none, some, List, [], ◌∷◌, ◌++◌, map, ◌&&◌, not,
  if◌then◌else◌,
}
use unified_ai_orchestrator.Base.Text.{Text, codes, text_eq, has_text}
use unified_ai_orchestrator.Base.Dict.{Dict, lookup}
use unified_ai_orchestrator.Context.Store.{Storage, ContextDict, get_or_create_context}
use unified_ai_orchestrator.Router.{Router, route}

-- The JSON of a message; a key may be missing.
pub record WsMessage : Type 0 where
  pub message_type : Option Text
  pub api_key : Option Text
  pub message : Option Text
  pub tool : Option String

-- What is sent; `failed` is the error of a stream.
pub data Sent : Type 0 where
  auth_success invalid_key auth_required pong : Sent
  not_available start : String → Sent
  chunk : Text → Sent
  end_of_stream failed : Sent

-- A call of a coroutine function of the context manager that nothing awaits: the coroutine is made,
-- and its body never runs.
pub data Coroutine : Type 0 where
  add_message : Text → Text → Coroutine
  save_context : Coroutine

-- `unawaited` are the coroutines that were made.
pub record Socket (S : Type 0) : Type 0 where
  pub authenticated : Bool
  pub connected : Bool
  pub storage : S
  pub unawaited : List Coroutine

or_text : Option Text → Text → Text
or_text none t = t
or_text (some s) t = s

-- `provided_key == mobile_api_key`
unfoldable pub same_key : Option Text → Option Text → Bool
same_key none none = true
same_key none (some k) = false
same_key (some p) none = false
same_key (some p) (some k) = text_eq p k

-- The chunks of an adapter and whether it raises after them.
abbrev pub Stream : Type 0
Stream = List Text × Bool

-- `data.get("type", "chat")`
unfoldable pub type_of : WsMessage → Text
unfolding or_text
type_of m = or_text m.message_type (codes "chat")

-- `authenticated = mobile_api_key is None`
unfoldable pub new_socket : {S : Type 0} → Option Text → S → Socket S
new_socket none s = record { authenticated = true; connected = true; storage = s; unawaited = [] }
new_socket (some k) s = record {
  authenticated = false;
  connected = true;
  storage = s;
  unawaited = [];
}

-- The message `auth`.
unfoldable pub authenticate :
    {S : Type 0} → Option Text → WsMessage → Socket S → List Sent × Socket S
unfolding same_key
authenticate mobile_api_key m w =
    if has_text mobile_api_key
    then (if same_key m.api_key mobile_api_key
        then (auth_success ∷ [], record w { authenticated = true })
        else (invalid_key ∷ [], record w { connected = false }))
    else (auth_success ∷ [], record w { authenticated = true })

-- `# Update context`
update_context : Text → List Coroutine
update_context message =
    add_message (codes "user") message
    ∷ add_message (codes "assistant") (codes "Response streamed")
    ∷ save_context
    ∷ []

-- What a stream sends after `start`, and the calls after its end.
streamed : Text → Stream → List Sent × List Coroutine
unfolding update_context
streamed message (chunks, false) = (map chunk chunks ++ end_of_stream ∷ [], update_context message)
streamed message (chunks, true) = (map chunk chunks ++ failed ∷ [], [])

module _ {S D J A : Type 0} (st : Storage S D) (dumps : ContextDict J → D)
    (loads : D → Option (ContextDict J)) (no_text : D → Bool) (lower : Text → Text)
    (router : Router) (adapters : Dict A) (stream_chat : A → Text → Stream)
    (mobile_api_key conversation_id project_id : Option Text) where
  by_adapter : Option A → String → Text → Socket S → List Sent × Socket S
  unfolding streamed
  by_adapter none tool message w = (not_available tool ∷ [], w)
  by_adapter (some a) tool message w =
      let (sent, calls) = streamed message (stream_chat a message) in
      (start tool ∷ sent, record w { unawaited = w.unawaited ++ calls })

  -- `routing_decision["selected_tools"][0]`; an empty list raises, and the connection ends.
  by_tools : List String → Text → Socket S → List Sent × Socket S
  unfolding by_adapter
  by_tools [] message w = ([], record w { connected = false })
  by_tools (tool ∷ tools) message w = by_adapter (lookup tool adapters) tool message w

  -- The message `chat`, once the context is there.
  chat_in : Option S → WsMessage → Socket S → List Sent × Socket S
  unfolding by_tools
  chat_in none m w = ([], record w { connected = false })
  chat_in (some s) m w =
      by_tools (route lower router (or_text m.message []) m.tool).selected_tools
        (or_text m.message []) (record w { storage = s })

  -- The storage after `get_or_create_context`, whose context is not read but for its identifier.
  unfoldable pub opened : Text → ℕ → S → Option S
  opened fresh now s =
      elim (get_or_create_context st dumps loads no_text conversation_id project_id fresh now s) [
        | none ↦ none
        | some cs ↦ some cs.1
      ]

  -- One message, at the time `now`.
  unfoldable pub receive : Text → ℕ → WsMessage → Socket S → List Sent × Socket S
  unfolding chat_in or_text
  receive fresh now m w =
      if text_eq (type_of m) (codes "auth")
      then authenticate mobile_api_key m w
      else if not w.authenticated && has_text mobile_api_key
      then (auth_required ∷ [], w)
      else if text_eq (type_of m) (codes "chat")
      then chat_in (opened fresh now w.storage) m w
      else if text_eq (type_of m) (codes "ping")
      then (pong ∷ [], w)
      else ([], w)

  -- The messages that are received while the connection lasts, each with a fresh identifier and a time.
  unfoldable pub run : List (Text × ℕ × WsMessage) → Socket S → List Sent × Socket S
  run [] w = ([], w)
  run ((fresh, now, m) ∷ ms) w =
      let (sent, w') = receive fresh now m w in
      let (later, w'') = run ms w' in if w'.connected then (sent ++ later, w'') else (sent, w')
