-- ===== src/Config/File.antt =====
-- What a configuration keeps when it is saved and loaded.
use Prim.Native.String.{String}
use text.Mathlib.Text.{◌==◌}
use unified_ai_orchestrator.Base.{
  ◌≡◌, refl, sym, ap, ◌∙◌, false, Option, none, some, [], ◌∷◌, ◌++◌, All, append_assoc, append-nil,
}
use unified_ai_orchestrator.Base.Dict.{Dict, insert}
use unified_ai_orchestrator.Base.Rows.{All-snoc}
use unified_ai_orchestrator.Config.{
  ToolConfig, Config, or_default, storage_of, routing_of, codebase_of, api_of, tools_of, assembled,
  from_dict, tool_data, to_dict, with_keys, load_config, save_config,
}

abbrev pub no_keys : Dict ToolConfig → Dict ToolConfig
no_keys [] = []
no_keys ((name, t) ∷ tools) = (name, record t { api_key = none }) ∷ no_keys tools

-- The configuration without its keys.
abbrev pub without_keys : Config → Config
without_keys c = record c { api = record c.api { api_key = none }; tools = no_keys c.tools }

-- No two tools share a name.
abbrev pub Distinct : Dict ToolConfig → Type 0
Distinct [] = Unit
Distinct ((name, t) ∷ tools) =
    All (λ (e : String × ToolConfig). (name == e.0) ≡ false) tools × Distinct tools

-- No entry of the dict has the name.
abbrev Lacks : String → Dict ToolConfig → Type 0
Lacks name out = All (λ (o : String × ToolConfig). (o.0 == name) ≡ false) out

Lacks-insert :
    (name : String) (t : ToolConfig) (out : Dict ToolConfig)
    → Lacks name out
    → insert name t out ≡ out ++ (name, t) ∷ []
Lacks-insert name t [] lacks = refl
Lacks-insert name t ((j, u) ∷ out) (here, lacks) =
    rw here (ap (◌∷◌ (j, u)) (Lacks-insert name t out lacks))

later-Lacks :
    (name : String) (t : ToolConfig) (out tools : Dict ToolConfig)
    → All (λ (e : String × ToolConfig). (name == e.0) ≡ false) tools
    → All (λ (e : String × ToolConfig). Lacks e.0 out) tools
    → All (λ (e : String × ToolConfig). Lacks e.0 (out ++ (name, t) ∷ [])) tools
later-Lacks name t out [] other lacks = tt
later-Lacks name t out ((j, u) ∷ tools) (here, other) (free, lacks) = (
  All-snoc (λ (o : String × ToolConfig). (o.0 == j) ≡ false) out (name, t) free here,
  later-Lacks name t out tools other lacks,
)

tools_of-tool_data :
    (out tools : Dict ToolConfig)
    → Distinct tools
    → All (λ (e : String × ToolConfig). Lacks e.0 out) tools
    → tools_of out (tool_data tools) ≡ some (out ++ no_keys tools)
unfolding tools_of tool_data or_default
tools_of-tool_data out [] distinct lacks = ap some (sym (append-nil out))
tools_of-tool_data out ((name, t) ∷ tools) (other, distinct) (free, lacks) =
    let u : ToolConfig = record t { api_key = none } in
    rw (Lacks-insert name u out free) (
      tools_of-tool_data (out ++ (name, u) ∷ []) tools distinct
        (later-Lacks name u out tools other lacks)
      ∙ ap some (append_assoc out ((name, u) ∷ []) (no_keys tools)))

none-Lacks : (tools : Dict ToolConfig) → All (λ (e : String × ToolConfig). Lacks e.0 []) tools
none-Lacks [] = tt
none-Lacks (e ∷ tools) = (tt, none-Lacks tools)

from_dict-to_dict_lem :
    (c : Config) → Distinct c.tools → from_dict (to_dict c) ≡ some (without_keys c)
unfolding from_dict to_dict storage_of routing_of codebase_of api_of assembled or_default
from_dict-to_dict_lem c distinct =
    rw (tools_of-tool_data [] c.tools distinct (none-Lacks c.tools)) refl

-- A configuration that is saved and loaded again is the same but for its keys: the key of the API is the one
-- of the keyring, the key of a tool the one of its environment variable, and a key that was set
-- directly is gone. No two tools share a name, as in every dict.
pub load-save_config :
    (env : String → Option String) (secret : Option String) (c : Config)
    → Distinct c.tools
    → load_config env secret (save_config c) ≡ some (with_keys env secret (without_keys c))
unfolding load_config save_config
load-save_config env secret c distinct = rw (load_config, from_dict-to_dict_lem c distinct) refl
