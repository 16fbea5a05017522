-- ===== src/Config/Tests.antt =====
-- A configuration on its way through a file, and the theorem on it.
use Prim.Native.String.{String}
use unified_ai_orchestrator.Base.{◌≡◌, refl, true, false, Option, none, some, [], ◌∷◌}
use unified_ai_orchestrator.Config.{
  ToolConfig, Config, ConfigData, storage_of, routing_of, codebase_of, api_of, tools_of, from_dict,
  to_dict, with_keys, load_config, save_config,
}
use unified_ai_orchestrator.Config.File.{load-save_config}

program : Unit {0}
unfolding storage_of routing_of codebase_of api_of tools_of from_dict to_dict with_keys load_config
    save_config
program = tt

abbrev claude : ToolConfig
claude = record { api_key_env = some "CLAUDE"; enabled = true; model = none; api_key = none }

abbrev gpt : ToolConfig
gpt = record { api_key_env = none; enabled = true; model = some "gpt-4"; api_key = some "k" }

abbrev empty_file : ConfigData
empty_file = record { storage = none; routing = none; codebase = none; api = none; tools = none }

abbrev config : Config
config = record {
  storage = record {
    db_type = "sqlite";
    db_path = "db";
    connection_string = none;
    index_path = "ix";
  };
  routing = record {
    default_tool = "gpt";
    code_editing = [];
    research = "gpt" ∷ [];
    general_chat = [];
  };
  codebase = record { auto_index = false; watch_paths = []; index_depth = 1 };
  api = record {
    enable_mobile = true;
    api_key = some "m";
    allowed_origins = [];
    rate_limit_per_minute = 5;
  };
  tools = ("claude", claude) ∷ ("gpt", gpt) ∷ [];
}

abbrev env : String → Option String
env name = some "e"

abbrev model_of : Option Config → Option String
model_of none = none
model_of (some c) = some c.routing.default_tool

defaults : model_of (load_config env none empty_file) ≡ some "claude"
unfolding program
defaults = refl

unknown_key :
    load_config env none (record empty_file {
      codebase =
          some
            (record { auto_index = none; watch_paths = none; index_depth = none; unknown = true });
    })
    ≡ none
unfolding program
unknown_key = refl

abbrev loaded : Config
loaded = record config {
  api = record config.api { api_key = some "s" };
  tools =
      ("claude", record claude { api_key = some "e" })
      ∷ ("gpt", record gpt { api_key = none })
      ∷ [];
}

load-save_config_example : load_config env (some "s") (save_config config) ≡ some loaded
unfolding program
load-save_config_example = load-save_config env (some "s") config ((refl, tt), (tt, tt))
