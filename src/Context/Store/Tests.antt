-- ===== src/Context/Store/Tests.antt =====
-- Runs of the context manager over the tables, and the theorems about it at concrete inputs. A JSON
-- text is here the dict itself.
use unified_ai_orchestrator.Base.{
  ℕ, ◌≡◌, refl, Bool, false, Option, none, some, List, [], ◌∷◌, ◌++◌, if◌then◌else◌,
}
use unified_ai_orchestrator.Base.Text.{Text, codes, text_eq}
use unified_ai_orchestrator.Context.{Message, Context}
use unified_ai_orchestrator.Context.Store.{
  ContextDict, IsStorage, to_dict, from_dict, new_context, get_context, save_context,
  get_or_create_context, add_message, add_tool_call,
}
use unified_ai_orchestrator.Context.Store.Sqlite
use unified_ai_orchestrator.Context.Store.Sqlite.{Tables, sqlite, sqlite-IsStorage, delete_context}
use unified_ai_orchestrator.Context.Store.Conversation.{
  Loads, Event, said, called, replay, messages_of, Stored, replay-Stored,
}

program : Unit {0}
unfolding to_dict from_dict new_context get_context save_context get_or_create_context add_message
    add_tool_call delete_context Sqlite.load_context Sqlite.save_context Sqlite.add_message
program = tt

abbrev same : ContextDict ℕ → ContextDict ℕ
same d = d

abbrev loads : ContextDict ℕ → Option (ContextDict ℕ)
loads d = some d

abbrev never : ContextDict ℕ → Bool
never d = false

json : Loads same loads never
json d = (refl, refl)

abbrev no_rows : Tables (ContextDict ℕ)
no_rows = record { contexts = []; messages = [] }

abbrev fresh_context : Context ℕ Message
fresh_context = record {
  conversation_id = codes "c1";
  project_id = none;
  messages = [];
  codebase_context = none;
  tool_history = [];
}

abbrev created : Tables (ContextDict ℕ)
created = save_context sqlite same loads never fresh_context 5 no_rows

abbrev events : List Event
events =
    said (codes "user") (codes "hi") 6 6 ∷ called (codes "gpt") (codes "hi") (codes "ho") 7 8 ∷ []

creates :
    get_or_create_context sqlite same loads never (some (codes "c1")) none (codes "u") 5 no_rows
    ≡ some (fresh_context, created)
unfolding program
creates = refl

created-Stored : Stored sqlite sqlite-IsStorage same loads never json (fresh_context, created)
unfolding program
created-Stored = refl

-- Deleting a context leaves its messages.
orphan :
    (delete_context
      (codes "c1")
      (add_message sqlite same loads never
        (codes "user")
        (codes "hi")
        6
        6
        (fresh_context, created)).1).messages
    ≡ record {
      conversation_id = codes "c1";
      role = codes "user";
      content = codes "hi";
      timestamp = 6;
    }
      ∷ []
unfolding program
orphan = refl

abbrev later : Context ℕ Message × Tables (ContextDict ℕ)
later = replay sqlite sqlite-IsStorage same loads never json events (fresh_context, created)

replay-Stored_example :
    Stored sqlite sqlite-IsStorage same loads never json later
    × (later.0.messages
        ≡ fresh_context.messages
          ++ messages_of sqlite sqlite-IsStorage same loads never json events)
    × (get_context sqlite same loads never (codes "c2") later.1 ≡ (
        if text_eq fresh_context.conversation_id (codes "c2")
        then some (some later.0)
        else get_context sqlite same loads never (codes "c2") created))
replay-Stored_example =
    replay-Stored sqlite sqlite-IsStorage same loads never json events fresh_context created
      (codes "c2") created-Stored

sqlite-IsStorage_example : IsStorage (sqlite {D = Text})
sqlite-IsStorage_example = sqlite-IsStorage {D = Text}
