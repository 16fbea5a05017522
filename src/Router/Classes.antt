-- ===== src/Router/Classes.antt =====
-- The classes of `_analyze_request`.
use unified_ai_orchestrator.Base.{
  ◌≡◌, refl, ap, ◌↔◌, Bool, true, false, ◌||◌, List, [], ◌∷◌, ◌++◌, any, arith,
}
use unified_ai_orchestrator.Base.Text.{Text, contains, starts_with}
use unified_ai_orchestrator.Router.{
  TaskType, mentions, analyze_lower, code_keywords, research_keywords, terminal_keywords,
  generation_keywords,
}

-- A message is general chat exactly if it holds no keyword of any list.
pub analyze_lower-general :
    (lower : Text)
    → (analyze_lower lower ≡ TaskType.general_chat) ↔ (
        (mentions code_keywords lower
          || mentions research_keywords lower
          || mentions terminal_keywords lower
          || mentions generation_keywords lower)
        ≡ false)
unfolding analyze_lower
analyze_lower-general lower = (λ h. ground arith, λ h. ground arith)

starts_with-append : (p t : Text) → starts_with (p ++ t) p ≡ true
starts_with-append [] t = refl
starts_with-append (c ∷ p) t = ground (arith, starts_with-append p t)

contains_front : (p after : Text) → contains p (p ++ after) ≡ true
contains_front [] [] = refl
contains_front [] (c ∷ after) = refl
contains_front (c ∷ p) after = ground (arith, starts_with-append (c ∷ p) after)

contains-append : (p before after : Text) → contains p (before ++ (p ++ after)) ≡ true
contains-append p [] after = contains_front p after
contains-append p (c ∷ before) after = ground (arith, contains-append p before after)

any-append :
    (f : Text → Bool) (k : Text) (before after : List Text)
    → f k ≡ true
    → any f (before ++ (k ∷ after)) ≡ true
any-append f k [] after h = ground arith
any-append f k (x ∷ before) after h = ground (arith, any-append f k before after h)

-- A code keyword anywhere in the message, also inside a longer word, makes it code editing, whatever
-- other keywords there are.
pub analyze_lower-code :
    (before after : List Text) (k left right : Text)
    → code_keywords ≡ before ++ (k ∷ after)
    → analyze_lower (left ++ (k ++ right)) ≡ TaskType.code_editing
unfolding analyze_lower mentions
analyze_lower-code before after k left right among =
    let message = left ++ (k ++ right) in
    let found =
      any-append (λ w. contains w message) k before after (contains-append k left right) in
    ground (arith, ap (any (λ w. contains w message)) among, found)
