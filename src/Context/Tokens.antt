-- ===== src/Context/Tokens.antt =====
-- python-glue/unified_ai/context/token_counter.py. The encodings are tiktoken's: `encode name text`
-- is the number of tokens of the text (one without special tokens) in the encoding of that name.
use Prim.Native.String.{String}
use unified_ai_orchestrator.Base.{ℕ, ◌+◌, ◌*◌, Option, none, some, List, [], ◌∷◌}
use unified_ai_orchestrator.Base.Dict.{Dict, get_or}
use unified_ai_orchestrator.Base.Text.{Text}

abbrev pub model_encodings : Dict String
model_encodings =
    ("gpt-4", "cl100k_base")
    ∷ ("gpt-4-turbo", "cl100k_base")
    ∷ ("gpt-4o", "o200k_base")
    ∷ ("gpt-3.5-turbo", "cl100k_base")
    ∷ ("gpt-3.5-turbo-16k", "cl100k_base")
    ∷ ("claude-3-opus", "cl100k_base")
    ∷ ("claude-3-sonnet", "cl100k_base")
    ∷ ("claude-3-haiku", "cl100k_base")
    ∷ ("claude-3-5-sonnet", "cl100k_base")
    ∷ ("default", "cl100k_base")
    ∷ []

abbrev pub model_context_windows : Dict ℕ
model_context_windows =
    ("gpt-4", 8192)
    ∷ ("gpt-4-turbo", 128000)
    ∷ ("gpt-4o", 128000)
    ∷ ("gpt-3.5-turbo", 16385)
    ∷ ("gpt-3.5-turbo-16k", 16385)
    ∷ ("claude-3-opus", 200000)
    ∷ ("claude-3-sonnet", 200000)
    ∷ ("claude-3-haiku", 200000)
    ∷ ("claude-3-5-sonnet", 200000)
    ∷ ("default", 8192)
    ∷ []

-- `_get_encoding`, by name: both names of the table are known to tiktoken, so the fallback on a
-- `KeyError` is not taken.
unfoldable pub get_encoding : String → String
get_encoding model = get_or model model_encodings "cl100k_base"

-- The `content` of a message dict: a text, a list whose items are dicts with or without a `text`,
-- or something else.
pub data Content : Type 0 where
  text : Text → Content
  parts : List (Option Text) → Content
  other : Content

pub record DictMessage : Type 0 where
  pub role : Option Text
  pub content : Option Content

-- An item of the list that `count_message_tokens` takes.
pub data Item : Type 0 where
  dict : DictMessage → Item
  plain : Text → Item

module _ (encode : String → Text → ℕ) (model : String) where
  -- `count_tokens`
  pub count_tokens : Text → ℕ
  count_tokens t = encode (get_encoding model) t

  count_parts : List (Option Text) → ℕ
  count_parts [] = 0
  count_parts (none ∷ ps) = count_parts ps
  count_parts (some t ∷ ps) = encode (get_encoding model) t + count_parts ps

  count_role : Option Text → ℕ
  count_role none = 0
  count_role (some r) = encode (get_encoding model) r

  count_content : Option Content → ℕ
  count_content none = 0
  count_content (some (text t)) = encode (get_encoding model) t
  count_content (some (parts ps)) = count_parts ps
  count_content (some other) = 0

  -- One round of the loop of `count_message_tokens`.
  unfoldable pub count_item : Item → ℕ
  unfolding count_role count_content count_parts
  count_item (dict m) = 4 + count_role m.role + count_content m.content
  count_item (plain t) = 4 + encode (get_encoding model) t

  -- `count_message_tokens`
  unfoldable pub count_message_tokens : List Item → ℕ
  count_message_tokens [] = 0
  count_message_tokens (m ∷ ms) = count_item m + count_message_tokens ms

-- `get_context_window`
unfoldable pub get_context_window : String → ℕ
get_context_window model = get_or model model_context_windows 8192

-- Prices in quarters of a dollar for a million tokens: input and output.
abbrev pub pricing : Dict (ℕ × ℕ)
pricing =
    ("gpt-4", (120, 240))
    ∷ ("gpt-4-turbo", (40, 120))
    ∷ ("gpt-4o", (10, 40))
    ∷ ("gpt-3.5-turbo", (2, 6))
    ∷ ("claude-3-opus", (60, 300))
    ∷ ("claude-3-sonnet", (12, 60))
    ∷ ("claude-3-haiku", (1, 5))
    ∷ ("claude-3-5-sonnet", (12, 60))
    ∷ []

-- `estimate_cost`, exact, in quarters of a millionth of a dollar.
unfoldable pub estimate_cost : ℕ → ℕ → String → ℕ
estimate_cost input_tokens output_tokens model =
    let (input, output) = get_or model pricing (4, 8) in
    input_tokens * input + output_tokens * output
