-- ===== src/Router/Adapters.antt =====
-- `get_adapters` of python-glue/unified_ai/utils/adapters.py, over `get_api_key` of
-- python-glue/unified_ai/utils/auth.py. The environment and the keyring are functions; a keyring
-- that raises answers `none`. `gemini_installed` tells whether the import of its package succeeds.
use Prim.Native.String.{String}
use text.Mathlib.Text.{◌==◌}
use text.Mathlib.TextEquality.{eq_iff}
use unified_ai_orchestrator.Base.{
  ◌≡◌, Bool, true, Option, none, some, [], if◌then◌else◌, arith, Bool-cases, inl, inr, Option-cases,
}
use unified_ai_orchestrator.Base.Dict.{
  Dict, lookup, insert, nonempty, truthy, or_text, lookup-insert,
}

pub record ToolConfig : Type 0 where
  pub enabled : Bool
  pub model : Option String
  pub api_key : Option String

pub record Adapter : Type 0 where
  pub api_key : String
  pub model : String

-- Where keys come from: the environment variable of a service, its entry in the keyring.
pub record Secrets : Type 0 where
  pub environment : String → Option String
  pub keyring : String → Option String

-- `get_api_key`
unfoldable pub get_api_key : Secrets → String → Option String
get_api_key s service =
    if truthy (s.environment service) then s.environment service else s.keyring service

keyed : Option String → String → Option Adapter
keyed none model = none
keyed (some key) model =
    if nonempty key then some (record { api_key = key; model = model }) else none

named : Option String → String → String
named none default = default
named (some m) default = if nonempty m then m else default

-- The adapter of one configured tool: it is enabled and has a key, its own or the service's.
unfoldable pub build : Secrets → String → String → ToolConfig → Option Adapter
unfolding keyed named
build s service default_model t =
    if t.enabled
    then keyed (or_text t.api_key (get_api_key s service)) (named t.model default_model)
    else none

configured : Secrets → String → String → Option ToolConfig → Option Adapter
configured s service default_model none = none
configured s service default_model (some t) = build s service default_model t

put : String → Option Adapter → Dict Adapter → Dict Adapter
put name none d = d
put name (some a) d = insert name a d

unfoldable pub add :
    Secrets → Dict ToolConfig → String → String → String → Dict Adapter → Dict Adapter
unfolding configured put
add s tools name service default_model d =
    put name (configured s service default_model (lookup name tools)) d

-- `get_adapters`
unfoldable pub get_adapters : Secrets → Bool → Dict ToolConfig → Dict Adapter
get_adapters s gemini_installed tools =
    let claude = add s tools "claude" "anthropic" "claude-3-5-sonnet-20241022" [] in
    let gpt = add s tools "gpt" "openai" "gpt-4" claude in
    let perplexity =
      add s tools "perplexity" "perplexity" "llama-3.1-sonar-large-128k-online" gpt in
    if gemini_installed then add s tools "gemini" "gemini" "gemini-pro" perplexity else perplexity

module _ (s : Secrets) (tools : Dict ToolConfig) where
  lookup-add :
      (k name service default_model : String) (d : Dict Adapter)
      → lookup k (add s tools name service default_model d) ≡ (
          if name == k
          then (elim (configured s service default_model (lookup name tools)) [
            | none ↦ lookup k d
            | some a ↦ some a
          ])
          else lookup k d)
  unfolding add put
  lookup-add k name service default_model d =
      elim (Option-cases (configured s service default_model (lookup name tools))) [
        | inl no_adapter ↦ ground (arith, no_adapter)
        | inr (a, made) ↦ ground (arith, made, lookup-insert name k a d)
      ]

  -- The adapter named `k` belongs to an enabled tool of that name, and has a key.
  abbrev pub Usable : String → Adapter → Type 0
  Usable k a =
      (t : ToolConfig) × (lookup k tools ≡ some t)
      × (t.enabled ≡ true)
      × (nonempty a.api_key ≡ true)

  configured-Usable :
      (k service default_model : String) {a : Adapter}
      → configured s service default_model (lookup k tools) ≡ some a
      → Usable k a
  unfolding configured build
  configured-Usable k service default_model h = elim (Option-cases (lookup k tools)) [
    | inl absent ↦ absurd (ground arith)
    | inr (t, found) ↦ (t, found, ground arith, ground arith)
  ]

  add-Usable :
      (k name service default_model : String) (d : Dict Adapter) {a : Adapter}
      → (lookup k d ≡ some a → Usable k a)
      → lookup k (add s tools name service default_model d) ≡ some a
      → Usable k a
  add-Usable k name service default_model d {a} before h = elim (Bool-cases (name == k)) [
    | inr other ↦ before (ground (arith, lookup-add k name service default_model d))
    | inl same ↦ elim (Option-cases (configured s service default_model (lookup name tools))) [
      | inl none_made ↦ before (ground (arith, lookup-add k name service default_model d))
      | inr (b, made) ↦
          configured-Usable k service default_model {a = a}
            (ground (arith, lookup-add k name service default_model d, (eq_iff name k).0 same))
    ]
  ]

  -- Every adapter that `get_adapters` offers belongs to an enabled tool and has a key that is not
  -- empty.
  pub get_adapters-Usable :
      (gemini_installed : Bool) (k : String) {a : Adapter}
      → lookup k (get_adapters s gemini_installed tools) ≡ some a
      → Usable k a
  unfolding get_adapters
  get_adapters-Usable gemini_installed k {a} h =
      let claude = add s tools "claude" "anthropic" "claude-3-5-sonnet-20241022" [] in
      let gpt = add s tools "gpt" "openai" "gpt-4" claude in
      let perplexity =
        add s tools "perplexity" "perplexity" "llama-3.1-sonar-large-128k-online" gpt in
      let upto_claude =
        add-Usable k "claude" "anthropic" "claude-3-5-sonnet-20241022" [] {a = a} (λ e. cc) in
      let upto_gpt = add-Usable k "gpt" "openai" "gpt-4" claude {a = a} upto_claude in
      let upto_perplexity =
        add-Usable k "perplexity" "perplexity" "llama-3.1-sonar-large-128k-online" gpt {a = a}
          upto_gpt in
      elim (Bool-cases gemini_installed) [
        | inl yes_installed ↦
            add-Usable k "gemini" "gemini" "gemini-pro" perplexity {a = a} upto_perplexity
              (rw yes_installed at h)
        | inr not_installed ↦ upto_perplexity (rw not_installed at h)
      ]
