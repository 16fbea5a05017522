-- ===== src/Router/Tests.antt =====
-- Runs of the router, and the theorems about it at concrete inputs.
use unified_ai_orchestrator.Base.{◌≡◌, refl, true, false, none, some, [], ◌∷◌}
use unified_ai_orchestrator.Base.Dict.{Dict}
use unified_ai_orchestrator.Base.Text.{Text, codes}
use unified_ai_orchestrator.Router.{
  Router, TaskType, mentions, analyze_lower, select_tools, route, first_available, choose_tool,
}
use unified_ai_orchestrator.Router.Adapters.{
  ToolConfig, Adapter, Secrets, get_api_key, build, add, get_adapters,
}

program : Unit {0}
unfolding mentions analyze_lower select_tools route first_available choose_tool get_api_key build
    add get_adapters
program = tt

abbrev same : Text → Text
same t = t

abbrev router : Router
router = record {
  routing_rules =
      ("code_editing", "cursor" ∷ "claude" ∷ []) ∷ ("general_chat", "claude" ∷ "gpt" ∷ []) ∷ [];
  default_tool = "gpt";
}

abbrev secrets : Secrets
secrets = record { environment = λ service. none; keyring = λ service. some "key" }

abbrev tools : Dict ToolConfig
tools =
    ("claude", record { enabled = true; model = none; api_key = some "own" })
    ∷ ("gpt", record { enabled = false; model = none; api_key = none })
    ∷ []

abbrev adapters : Dict Adapter
adapters = ("claude", record { api_key = "own"; model = "claude-3-5-sonnet-20241022" }) ∷ []

one_adapter : get_adapters secrets true tools ≡ adapters
unfolding program
one_adapter = refl

-- `test` stands in `latest`.
latest_news : analyze_lower (codes "what is the latest news") ≡ TaskType.code_editing
unfolding program
latest_news = refl

run_it : analyze_lower (codes "run it") ≡ TaskType.terminal_automation
unfolding program
run_it = refl

cursor_is_missing : choose_tool same router adapters (codes "fix it") none ≡ some "claude"
unfolding program
cursor_is_missing = refl

-- There is no rule for research, and no adapter for the default tool.
no_tool : choose_tool same router adapters (codes "explain it") none ≡ none
unfolding program
no_tool = refl
