-- ===== src/Config.antt =====
-- python-glue/unified_ai/config/loader.py. The dict of a file is a record of its keys, `none` for one that is
-- missing or None, with whether a section has a key that its class has not; TOML itself, the environment
-- and the keyring are outside: a file is the dict that it holds.
pub mod File
mod Tests
use Prim.Native.String.{String}
use unified_ai_orchestrator.Base.{
  ℕ, Bool, true, false, Option, none, some, List, [], ◌∷◌, map, if◌then◌else◌,
}
use unified_ai_orchestrator.Base.Dict.{Dict, insert, truthy, get_or}

pub record ToolConfig : Type 0 where
  pub api_key_env : Option String
  pub enabled : Bool
  pub model : Option String
  pub api_key : Option String

pub record StorageConfig : Type 0 where
  pub db_type : String
  pub db_path : String
  pub connection_string : Option String
  pub index_path : String

pub record RoutingConfig : Type 0 where
  pub default_tool : String
  pub code_editing : List String
  pub research : List String
  pub general_chat : List String

pub record CodebaseConfig : Type 0 where
  pub auto_index : Bool
  pub watch_paths : List String
  pub index_depth : ℕ

pub record ApiConfig : Type 0 where
  pub enable_mobile : Bool
  pub api_key : Option String
  pub allowed_origins : List String
  pub rate_limit_per_minute : ℕ

pub record Config : Type 0 where
  pub storage : StorageConfig
  pub routing : RoutingConfig
  pub codebase : CodebaseConfig
  pub api : ApiConfig
  pub tools : Dict ToolConfig

-- The sections of a file. `unknown` is whether there is another key.
pub record StorageData : Type 0 where
  pub db_type : Option String
  pub db_path : Option String
  pub connection_string : Option String
  pub index_path : Option String

pub record RoutingData : Type 0 where
  pub default_tool : Option String
  pub code_editing : Option (List String)
  pub research : Option (List String)
  pub general_chat : Option (List String)
  pub unknown : Bool

pub record CodebaseData : Type 0 where
  pub auto_index : Option Bool
  pub watch_paths : Option (List String)
  pub index_depth : Option ℕ
  pub unknown : Bool

pub record ApiData : Type 0 where
  pub enable_mobile : Option Bool
  pub api_key : Option String
  pub allowed_origins : Option (List String)
  pub rate_limit_per_minute : Option ℕ
  pub unknown : Bool

pub record ToolData : Type 0 where
  pub api_key_env : Option String
  pub enabled : Option Bool
  pub model : Option String
  pub api_key : Option String
  pub unknown : Bool

pub record ConfigData : Type 0 where
  pub storage : Option StorageData
  pub routing : Option RoutingData
  pub codebase : Option CodebaseData
  pub api : Option ApiData
  pub tools : Option (Dict ToolData)

or_default {ℓ} : {A : Type ℓ} → Option A → A → A
or_default none a = a
or_default (some b) a = b

-- `StorageConfig(...)` of a section.
unfoldable pub storage_of : Option StorageData → StorageConfig
unfolding or_default
storage_of none = record {
  db_type = "sqlite";
  db_path = "~/.uai/db.sqlite";
  connection_string = none;
  index_path = "~/.uai/indexes";
}
storage_of (some d) = record {
  db_type = or_default d.db_type "sqlite";
  db_path = or_default d.db_path "~/.uai/db.sqlite";
  connection_string = d.connection_string;
  index_path = or_default d.index_path "~/.uai/indexes";
}

-- `RoutingConfig(**data["routing"])`; `none` is the `TypeError` of an unknown key, here and below.
unfoldable pub routing_of : Option RoutingData → Option RoutingConfig
unfolding or_default
routing_of none = some (record {
  default_tool = "claude";
  code_editing = "claude" ∷ [];
  research = "claude" ∷ [];
  general_chat = "claude" ∷ "gpt" ∷ [];
})
routing_of (some d) =
    if d.unknown
    then none
    else some (record {
      default_tool = or_default d.default_tool "claude";
      code_editing = or_default d.code_editing ("claude" ∷ []);
      research = or_default d.research ("claude" ∷ []);
      general_chat = or_default d.general_chat ("claude" ∷ "gpt" ∷ []);
    })

-- `CodebaseConfig(**data["codebase"])`
unfoldable pub codebase_of : Option CodebaseData → Option CodebaseConfig
unfolding or_default
codebase_of none =
    some (record { auto_index = true; watch_paths = "~/projects" ∷ []; index_depth = 3 })
codebase_of (some d) =
    if d.unknown
    then none
    else some (record {
      auto_index = or_default d.auto_index true;
      watch_paths = or_default d.watch_paths ("~/projects" ∷ []);
      index_depth = or_default d.index_depth 3;
    })

-- `APIConfig(**data["api"])`
unfoldable pub api_of : Option ApiData → Option ApiConfig
unfolding or_default
api_of none = some (record {
  enable_mobile = true;
  api_key = none;
  allowed_origins = "*" ∷ [];
  rate_limit_per_minute = 60;
})
api_of (some d) =
    if d.unknown
    then none
    else some (record {
      enable_mobile = or_default d.enable_mobile true;
      api_key = d.api_key;
      allowed_origins = or_default d.allowed_origins ("*" ∷ []);
      rate_limit_per_minute = or_default d.rate_limit_per_minute 60;
    })

-- The loop over the tools: `config.tools[tool_name] = ToolConfig(**tool_data)`.
unfoldable pub tools_of : Dict ToolConfig → Dict ToolData → Option (Dict ToolConfig)
unfolding or_default
tools_of out [] = some out
tools_of out ((name, d) ∷ tools) =
    let tool : ToolConfig = record {
      api_key_env = d.api_key_env;
      enabled = or_default d.enabled true;
      model = d.model;
      api_key = d.api_key;
    } in
    let rest = tools_of (insert name tool out) tools in if d.unknown then none else rest

assembled :
    StorageConfig
    → Option RoutingConfig
    → Option CodebaseConfig
    → Option ApiConfig
    → Option (Dict ToolConfig)
    → Option Config
assembled s none c a t = none
assembled s (some r) none a t = none
assembled s (some r) (some c) none t = none
assembled s (some r) (some c) (some a) none = none
assembled s (some r) (some c) (some a) (some t) =
    some (record { storage = s; routing = r; codebase = c; api = a; tools = t })

-- `Config.from_dict`
unfoldable pub from_dict : ConfigData → Option Config
unfolding assembled or_default
from_dict d =
    assembled (storage_of d.storage) (routing_of d.routing) (codebase_of d.codebase) (api_of d.api)
      (tools_of [] (or_default d.tools []))

-- The tools of `to_dict`, without their keys.
tool_data : Dict ToolConfig → Dict ToolData
tool_data [] = []
tool_data ((name, t) ∷ tools) =
    (
      name,
      record {
        api_key_env = t.api_key_env;
        enabled = some t.enabled;
        model = t.model;
        api_key = none;
        unknown = false;
      },
    )
    ∷ tool_data tools

-- `Config.to_dict`
unfoldable pub to_dict : Config → ConfigData
unfolding tool_data
to_dict c = record {
  storage = some (record {
    db_type = some c.storage.db_type;
    db_path = some c.storage.db_path;
    connection_string = c.storage.connection_string;
    index_path = some c.storage.index_path;
  });
  routing = some (record {
    default_tool = some c.routing.default_tool;
    code_editing = some c.routing.code_editing;
    research = some c.routing.research;
    general_chat = some c.routing.general_chat;
    unknown = false;
  });
  codebase = some (record {
    auto_index = some c.codebase.auto_index;
    watch_paths = some c.codebase.watch_paths;
    index_depth = some c.codebase.index_depth;
    unknown = false;
  });
  api = some (record {
    enable_mobile = some c.api.enable_mobile;
    api_key = none;
    allowed_origins = some c.api.allowed_origins;
    rate_limit_per_minute = some c.api.rate_limit_per_minute;
    unknown = false;
  });
  tools = some (tool_data c.tools);
}

-- `os.getenv(tool_config.api_key_env)`, where both are given and not empty.
with_env : (String → Option String) → Option String → ToolConfig → ToolConfig
with_env env none t = t
with_env env (some name) t =
    if truthy (some name)
    then (if truthy (env name) then record t { api_key = env name } else t)
    else t

tools_with_env : (String → Option String) → Dict ToolConfig → Dict ToolConfig
unfolding with_env
tools_with_env env [] = []
tools_with_env env ((name, t) ∷ tools) =
    (name, with_env env t.api_key_env t) ∷ tools_with_env env tools

-- The mobile key of the keyring, if the file has none.
mobile_key : Option String → ApiConfig → ApiConfig
mobile_key secret a =
    if truthy a.api_key then a else (if truthy secret then record a { api_key = secret } else a)

-- The keys that `load_config` puts in: `secret` is what `get_secret("mobile_api_key")` finds, `none` where it raises.
unfoldable pub with_keys : (String → Option String) → Option String → Config → Config
unfolding tools_with_env mobile_key
with_keys env secret c = record c {
  api = mobile_key secret c.api;
  tools = tools_with_env env c.tools;
}

-- `load_config` of a file that is there; the branch that writes the defaults for a missing one is left out.
unfoldable pub load_config : (String → Option String) → Option String → ConfigData → Option Config
load_config env secret file = elim (from_dict file) [
  | none ↦ none
  | some c ↦ some (with_keys env secret c)
]

-- `save_config`
unfoldable pub save_config : Config → ConfigData
save_config c = to_dict c
