-- ===== src/Router.antt =====
-- python-glue/unified_ai/router.py, and the choice of a tool in `chat` of
-- python-glue/unified_ai/api/routes.py. `lower` is Python's `str.lower`.
pub mod Adapters
pub mod Classes
pub mod Choice
mod Tests
use Prim.Native.String.{String}
use unified_ai_orchestrator.Base.{
  Bool, true, false, Option, none, some, List, [], ◌∷◌, any, if◌then◌else◌,
}
use unified_ai_orchestrator.Base.Dict.{Dict, get_or, has_key, nonempty, truthy}
use unified_ai_orchestrator.Base.Text.{Text, codes, contains}

-- The names that `_analyze_request` returns.
pub data TaskType : Type 0 where
  code_editing research terminal_automation general_chat : TaskType

abbrev pub code_keywords : List Text
code_keywords =
    codes "refactor"
    ∷ codes "edit"
    ∷ codes "fix"
    ∷ codes "bug"
    ∷ codes "function"
    ∷ codes "class"
    ∷ codes "import"
    ∷ codes "code"
    ∷ codes "file"
    ∷ codes "module"
    ∷ codes "package"
    ∷ codes "syntax"
    ∷ codes "error"
    ∷ codes "compile"
    ∷ codes "test"
    ∷ codes "debug"
    ∷ codes "implement"
    ∷ codes "rewrite"
    ∷ codes "optimize"
    ∷ []

abbrev pub research_keywords : List Text
research_keywords =
    codes "research"
    ∷ codes "find"
    ∷ codes "search"
    ∷ codes "what is"
    ∷ codes "explain"
    ∷ codes "how does"
    ∷ codes "information"
    ∷ codes "article"
    ∷ codes "paper"
    ∷ codes "source"
    ∷ codes "citation"
    ∷ codes "reference"
    ∷ codes "learn about"
    ∷ codes "tell me about"
    ∷ codes "investigate"
    ∷ []

abbrev pub terminal_keywords : List Text
terminal_keywords =
    codes "run"
    ∷ codes "execute"
    ∷ codes "command"
    ∷ codes "terminal"
    ∷ codes "shell"
    ∷ codes "script"
    ∷ codes "automate"
    ∷ codes "workflow"
    ∷ codes "cli"
    ∷ codes "bash"
    ∷ codes "zsh"
    ∷ []

abbrev pub generation_keywords : List Text
generation_keywords =
    codes "generate"
    ∷ codes "create"
    ∷ codes "write"
    ∷ codes "make"
    ∷ codes "build"
    ∷ codes "new"
    ∷ codes "scaffold"
    ∷ codes "boilerplate"
    ∷ codes "template"
    ∷ []

-- `any(kw in lower for kw in keywords)`
unfoldable pub mentions : List Text → Text → Bool
mentions keywords lower = any (λ kw. contains kw lower) keywords

-- `_analyze_request`, on the message in lower case.
unfoldable pub analyze_lower : Text → TaskType
analyze_lower lower =
    if mentions code_keywords lower
    then TaskType.code_editing
    else if mentions research_keywords lower
    then TaskType.research
    else if mentions terminal_keywords lower
    then TaskType.terminal_automation
    else if mentions generation_keywords lower
    then TaskType.code_editing
    else TaskType.general_chat

-- The key of the rules that `_select_tools` looks up.
abbrev pub rule_key : TaskType → String
rule_key TaskType.code_editing = "code_editing"
rule_key TaskType.research = "research"
rule_key TaskType.terminal_automation = "general_chat"
rule_key TaskType.general_chat = "general_chat"

pub record Router : Type 0 where
  pub routing_rules : Dict (List String)
  pub default_tool : String

-- `_select_tools`
unfoldable pub select_tools : Router → TaskType → List String
select_tools r task = get_or (rule_key task) r.routing_rules (r.default_tool ∷ [])

-- What `reasoning` says.
pub data Reasoning : Type 0 where
  explicit : String → Reasoning
  by_task : TaskType → List String → Reasoning

pub record Decision : Type 0 where
  pub selected_tools : List String
  pub reasoning : Reasoning

-- `route`, with its explicit tool; the conversation and the project are not used.
unfoldable pub route : (Text → Text) → Router → Text → Option String → Decision
route lower r message none =
    let task = analyze_lower (lower message) in
    let tools = select_tools r task in
    record { selected_tools = tools; reasoning = by_task task tools }
route lower r message (some tool) =
    let task = analyze_lower (lower message) in
    let tools = select_tools r task in
    if nonempty tool
    then record { selected_tools = tool ∷ []; reasoning = explicit tool }
    else record { selected_tools = tools; reasoning = by_task task tools }

-- The loop of `chat` over the selected tools, for the first that has an adapter.
unfoldable pub first_available {ℓ} : {V : Type ℓ} → Dict V → List String → Option String
first_available adapters [] = none
first_available adapters (t ∷ ts) =
    let rest = first_available adapters ts in if has_key t adapters then some t else rest

available {ℓ} : {V : Type ℓ} → Dict V → Option String → Option String
available adapters none = none
available adapters (some t) =
    if nonempty t then (if has_key t adapters then some t else none) else none

-- The tool that `chat` uses, or `none` where it answers that no tool is suitable.
unfoldable pub choose_tool {ℓ} :
    {V : Type ℓ} → (Text → Text) → Router → Dict V → Text → Option String → Option String
unfolding available
choose_tool lower r adapters message tool =
    let decision = route lower r message tool in
    if truthy tool
    then available adapters tool
    else available adapters (first_available adapters decision.selected_tools)
