-- ===== src/Api/WebSocket/Tests.antt =====
-- A chat over a web socket, and the theorems on it.
use unified_ai_orchestrator.Base.{
  ℕ, ◌≡◌, refl, Bool, true, false, Option, none, some, List, [], ◌∷◌, All,
}
use unified_ai_orchestrator.Base.Text.{Text, codes}
use unified_ai_orchestrator.Base.Dict.{Dict}
use unified_ai_orchestrator.Context.{Message, Context}
use unified_ai_orchestrator.Context.Store.{
  ContextDict, to_dict, from_dict, new_context, get_context, save_context, get_or_create_context,
}
use unified_ai_orchestrator.Context.Store.Sqlite
use unified_ai_orchestrator.Context.Store.Sqlite.{Tables, sqlite}
use unified_ai_orchestrator.Router.{Router, analyze_lower, select_tools, mentions, route}
use unified_ai_orchestrator.Api.WebSocket
use unified_ai_orchestrator.Api.WebSocket.{
  WsMessage, Sent, auth_success, invalid_key, auth_required, pong, start, chunk, end_of_stream,
  add_message, Socket, Stream, same_key, type_of, new_socket, authenticate, opened, receive, run,
}
use unified_ai_orchestrator.Api.WebSocket.Locked.{IsRefusal, run-refuses}

program : Unit {0}
unfolding to_dict from_dict new_context get_context save_context get_or_create_context
    Sqlite.load_context Sqlite.save_context Sqlite.add_message analyze_lower select_tools mentions
    route same_key type_of new_socket authenticate opened receive run
program = tt

abbrev same : ContextDict ℕ → ContextDict ℕ
same d = d

abbrev loads : ContextDict ℕ → Option (ContextDict ℕ)
loads d = some d

abbrev never : ContextDict ℕ → Bool
never d = false

abbrev lower : Text → Text
lower t = t

abbrev router : Router
router = record { routing_rules = []; default_tool = "claude" }

abbrev adapters : Dict ℕ
adapters = ("claude", 0) ∷ []

abbrev echo : ℕ → Text → Stream
echo a message = (message ∷ [], false)

abbrev conversation : Context ℕ Message
conversation = record {
  conversation_id = codes "c1";
  project_id = none;
  messages = [];
  codebase_context = none;
  tool_history = [];
}

no_rows : Tables (ContextDict ℕ)
no_rows = record { contexts = []; messages = [] }

abbrev created : Tables (ContextDict ℕ)
created = save_context sqlite same loads never conversation 5 no_rows

abbrev says : Text → WsMessage
says t = record { message_type = none; api_key = none; message = some t; tool = none }

abbrev ping : WsMessage
ping = record { message_type = some (codes "ping"); api_key = none; message = none; tool = none }

abbrev auth : Text → WsMessage
auth key = record {
  message_type = some (codes "auth");
  api_key = some key;
  message = none;
  tool = none;
}

abbrev at_once : List WsMessage → List (Text × ℕ × WsMessage)
at_once [] = []
at_once (m ∷ ms) = (codes "f", 9, m) ∷ at_once ms

abbrev chat : List WsMessage → List Sent × Socket (Tables (ContextDict ℕ))
chat ms =
    run sqlite same loads never lower router adapters echo (some (codes "k")) (some (codes "c1"))
      none (at_once ms) (new_socket (some (codes "k")) created)

echoed :
    (chat (says (codes "hi") ∷ auth (codes "k") ∷ says (codes "hi") ∷ ping ∷ [])).0
    ≡ auth_required ∷ auth_success ∷ start "claude" ∷ chunk (codes "hi") ∷ end_of_stream ∷ pong ∷ []
unfolding program no_rows
echoed = refl

-- A wrong key ends the connection.
ended : (chat (auth (codes "x") ∷ auth (codes "k") ∷ ping ∷ [])).0 ≡ invalid_key ∷ []
unfolding program no_rows
ended = refl

-- The empty key lets everyone in.
empty_key :
    (run sqlite same loads never lower router adapters echo
      (some [])
      (some (codes "c1"))
      none
      (at_once (ping ∷ []))
      (new_socket (some []) created)).0
    ≡ pong ∷ []
unfolding program no_rows
empty_key = refl

run-refuses_example :
    let (sent, w') = chat (says (codes "hi") ∷ ping ∷ auth (codes "x") ∷ []) in
    All IsRefusal sent × (w'.authenticated ≡ false) × (w'.storage ≡ created)
unfolding program
run-refuses_example =
    run-refuses sqlite same loads never lower router adapters echo (some (codes "k"))
      (some (codes "c1")) none (at_once (says (codes "hi") ∷ ping ∷ auth (codes "x") ∷ []))
      (new_socket (some (codes "k")) created) refl refl (refl, (refl, (refl, tt)))

-- The question and the answer are not stored: the calls that would store them are never awaited.
not_stored : (chat (auth (codes "k") ∷ says (codes "hi") ∷ [])).1 ≡ record {
  authenticated = true;
  connected = true;
  storage = created;
  unawaited =
      add_message (codes "user") (codes "hi")
      ∷ add_message (codes "assistant") (codes "Response streamed")
      ∷ WebSocket.save_context
      ∷ [];
}
unfolding program no_rows
not_stored = refl
