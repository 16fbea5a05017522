-- ===== src/Router/Choice.antt =====
-- The tool that `chat` ends up with.
use Prim.Native.String.{String}
use unified_ai_orchestrator.Base.{
  ◌≡◌, ap, true, false, Option, none, some, List, [], ◌∷◌, ◌++◌, All, if◌then◌else◌, arith,
  Bool-cases, inl, inr,
}
use unified_ai_orchestrator.Base.Dict.{Dict, has_key, get_or, nonempty}
use unified_ai_orchestrator.Base.Text.{Text}
use unified_ai_orchestrator.Router.{
  Router, route, rule_key, analyze_lower, select_tools, first_available, choose_tool, available,
}

module _ {ℓ} {V : Type ℓ} (adapters : Dict V) where
  -- The first of the tools that has an adapter.
  first_available-splits :
      (tools : List String) {t : String}
      → first_available adapters tools ≡ some t
      → (before after : List String) × (tools ≡ before ++ (t ∷ after))
        × All (λ (u : String). has_key u adapters ≡ false) before
        × (has_key t adapters ≡ true)
  unfolding first_available
  first_available-splits [] h = cc
  first_available-splits (u ∷ tools) {t} h = elim (Bool-cases (has_key u adapters)) [
    | inl here ↦ ([], tools, ground arith, tt, ground arith)
    | inr not_here ↦
        let (before, after, e, skipped, found) =
          first_available-splits tools {t = t} (ground arith) in
        (u ∷ before, after, ap (◌∷◌ u) e, (not_here, skipped), found)
  ]

  available-some : {t : String} (o : Option String) → available adapters o ≡ some t → o ≡ some t
  unfolding available
  available-some none h = cc
  available-some (some u) h = ground arith

module _ {ℓ} {V : Type ℓ} (lower : Text → Text) (r : Router) (adapters : Dict V)
    (message : Text) where
  -- Without an explicit tool `chat` uses the first tool of the rule of the message's class (of the
  -- default tool, where there is no such rule) that has an adapter, if its name is not empty.
  pub choose_tool-first :
      {t : String}
      → choose_tool lower r adapters message none ≡ some t
      → (before after : List String) × (get_or
            (rule_key (analyze_lower (lower message)))
            r.routing_rules
            (r.default_tool ∷ [])
          ≡ before ++ (t ∷ after))
        × All (λ (u : String). has_key u adapters ≡ false) before
        × (has_key t adapters ≡ true)
  unfolding choose_tool route select_tools
  choose_tool-first {t} h =
      first_available-splits adapters
        (get_or (rule_key (analyze_lower (lower message))) r.routing_rules (r.default_tool ∷ []))
        (available-some adapters
          (first_available adapters (
            get_or (rule_key (analyze_lower (lower message))) r.routing_rules
              (r.default_tool ∷ [])))
          h)

  -- An explicit tool is used exactly if it has an adapter: no other tool takes its place.
  pub choose_tool-explicit :
      (tool : String)
      → nonempty tool ≡ true
      → choose_tool lower r adapters message (some tool)
        ≡ (if has_key tool adapters then some tool else none)
  unfolding choose_tool route
  choose_tool-explicit tool h = ground arith
