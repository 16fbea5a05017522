-- ===== src/Context/Summary.antt =====
-- `ContextSummarizer` of python-glue/unified_ai/context/advanced.py. What the source takes from
-- elsewhere is a record of functions: `str.lower` and `str.upper`, MD5, and the adapter's `chat`,
-- which answers with a content or raises (`none`; in the sync method also a timeout of its thread).
-- The ratio is a fraction, so that `int(len * ratio)` is a quotient.
pub mod Cache
pub mod Loss
mod Tests
use Prim.Native.String.{String}
use unified_ai_orchestrator.Base.{
  ℕ, zero, suc, ◌+◌, ◌*◌, ◌/◌, ◌%◌, Bool, true, false, Option, none, some, List, [], ◌∷◌, ◌++◌,
  length, take, drop, any, map, leb, ltb, ◌&&◌, if◌then◌else◌,
}
use unified_ai_orchestrator.Base.Text.{Text, codes, contains, text_eq}
use unified_ai_orchestrator.Context.{Context, Message, system}
use unified_ai_orchestrator.Context.Compression.{strip}
use unified_ai_orchestrator.Context.Window.Manager.{with_messages}

pub record Outside : Type 0 where
  pub lower : Text → Text
  pub upper : Text → Text
  pub md5 : Text → Text
  pub chat : List (Text × Text) → Option Text

pub record Summarizer : Type 0 where
  pub message_threshold : ℕ
  pub ratio_top : ℕ
  pub ratio_bottom : ℕ
  pub use_llm : Bool
  pub has_adapter : Bool
  pub cache_summaries : Bool
  pub cache : List (Text × Text)

-- `sep.join(texts)`
unfoldable pub join : Text → List Text → Text
join sep [] = []
join sep (t ∷ []) = t
join sep (t ∷ t' ∷ ts) = t ++ (sep ++ join sep (t' ∷ ts))

-- `str(n)`; the fuel is more than the number of digits.
show_digits : ℕ → ℕ → Text → Text
show_digits zero n after = after
show_digits (suc fuel) n after =
    let rest = show_digits fuel (n / 10) ((48 + n % 10) ∷ after) in
    if ltb n 10 then (48 + n) ∷ after else rest

unfoldable pub show : ℕ → Text
unfolding show_digits
show n = show_digits (suc n) n []

-- `content.split(".")`
first_part : ℕ → List Text → List Text
first_part c [] = (c ∷ []) ∷ []
first_part c (s ∷ ss) = (c ∷ s) ∷ ss

unfoldable pub sentences : Text → List Text
unfolding first_part
sentences [] = [] ∷ []
sentences (c ∷ s) =
    let rest = sentences s in if text_eq (c ∷ []) (codes ".") then [] ∷ rest else first_part c rest

-- The first of the sentences that hold one of the words, in lower case.
first_with : (Text → Text) → List Text → List Text → Option Text
first_with lower words [] = none
first_with lower words (s ∷ ss) =
    let rest = first_with lower words ss in
    if any (λ w. contains w (lower s)) words then some s else rest

abbrev pub statement_words : List Text
statement_words = codes "decided" ∷ codes "decision" ∷ codes "important" ∷ codes "note" ∷ []

abbrev pub sentence_words : List Text
sentence_words = codes "decided" ∷ codes "decision" ∷ codes "important" ∷ []

code_parts : Message → List Text
code_parts m =
    if contains (codes "```") m.content
    then (codes "[Code discussion: " ++ (m.role ++ codes "]")) ∷ []
    else []

quoted : Message → Option Text → List Text
quoted m none = []
quoted m (some s) = (codes "[" ++ (m.role ++ (codes "]: " ++ s))) ∷ []

-- The parts that one message gives to an extractive summary.
unfoldable pub summary_parts : (Text → Text) → Message → List Text
unfolding code_parts quoted first_with
summary_parts lower m =
    code_parts m
    ++ (if any (λ w. contains w (lower m.content)) statement_words
        then quoted m (first_with lower sentence_words (sentences m.content))
        else [])

all_parts : (Text → Text) → List Message → List Text
all_parts lower [] = []
all_parts lower (m ∷ ms) = summary_parts lower m ++ all_parts lower ms

joined : ℕ → List Text → Text
joined n [] = codes "Summarized " ++ (show n ++ codes " messages")
joined n (p ∷ ps) = join (codes "; ") (p ∷ ps)

-- `_generate_extractive_summary`
unfoldable pub extractive : (Text → Text) → List Message → Text
unfolding all_parts joined
extractive lower ms = joined (length ms) (all_parts lower ms)

-- The text that `_get_cache_key` hashes.
unfoldable pub key_text : List Message → Text
key_text ms = join (10 ∷ []) (map (λ m. m.role ++ (codes ": " ++ take 100 m.content)) ms)

-- The cache, newest entry first.
unfoldable pub find : Text → List (Text × Text) → Option Text
find k [] = none
find k ((j, v) ∷ c) = if text_eq j k then some v else find k c

-- How the async method ends: with a value, or by the exception of the adapter.
pub data Ended : Type 0 where
  value : Option Text → Ended
  raised : Ended

newline : Text
newline = 10 ∷ []

strip_answer : Option Text → Option Text
strip_answer none = none
strip_answer (some answer) = some (strip answer)

-- How many messages are summarized.
unfoldable pub split_at : Summarizer → List Message → ℕ
split_at s ms = length ms * s.ratio_top / s.ratio_bottom

first_timestamp : List Message → ℕ
first_timestamp [] = 0
first_timestamp (m ∷ ms) = m.timestamp

-- The message that stands for the summarized ones.
unfoldable pub summary_message : Text → List Message → Message
unfolding first_timestamp
summary_message summary ms = record {
  role = system;
  content = codes "Previous conversation summary: " ++ summary;
  timestamp = first_timestamp ms;
}

-- The end of the async method, behind the cut of the messages.
finish : {J : Type 0} → Option Text → List Message → Context J Message → Ended × Context J Message
finish none old c = (raised, c)
finish (some summary) old c =
    (value (some summary), with_messages c (summary_message summary old ∷ c.messages))

module _ (o : Outside) where
  -- `_generate_summary`: the summary, and the summarizer with its cache.
  unfoldable pub generate_summary : Summarizer → List Message → Text × Summarizer
  generate_summary s ms =
      let key = o.md5 (key_text ms) in
      let fresh = extractive o.lower ms in
      if s.cache_summaries
      then elim (find key s.cache) [
        | some summary ↦ (summary, s)
        | none ↦ (fresh, record s { cache = (key, fresh) ∷ s.cache })
      ]
      else (fresh, s)

  -- The prompt of `_generate_llm_summary`.
  prompt : List Message → Text
  prompt ms = join newline (
      codes "Please provide a concise summary of the following conversation. Focus on:"
      ∷ codes "1. Key decisions made"
      ∷ codes "2. Important information discussed"
      ∷ codes "3. Action items or next steps"
      ∷ codes "4. Technical details that are relevant"
      ∷ []
      ∷ codes "Conversation:"
      ∷ join (10 ∷ 10 ∷ []) (map (λ m. o.upper m.role ++ (codes ": " ++ m.content)) ms)
      ∷ []
      ∷ codes "Summary:"
      ∷ [])

  -- `_generate_llm_summary`
  unfoldable pub llm_summary : List Message → Option Text
  unfolding prompt strip_answer newline
  llm_summary ms = strip_answer (
      o.chat (
        (system, codes "You are a helpful assistant that summarizes conversations concisely.")
        ∷ (codes "user", prompt ms)
        ∷ []))

  or_extractive : Option Text → List Message → Text
  or_extractive none ms = extractive o.lower ms
  or_extractive (some summary) ms = summary

  -- The summary of the sync method: the model's, or the extractive one where it raised; without a
  -- model the cached one.
  unfoldable pub sync_summary : Summarizer → List Message → Text × Summarizer
  unfolding or_extractive
  sync_summary s ms =
      if s.use_llm && s.has_adapter
      then (or_extractive (llm_summary ms) ms, s)
      else generate_summary s ms

  module _ {J : Type 0} where
    -- `summarize_if_needed`: the summary returned, the context and the summarizer.
    unfoldable pub summarize_if_needed :
        Summarizer → Context J Message → Option Text × Context J Message × Summarizer
    summarize_if_needed s c =
        let n = split_at s c.messages in
        let old = take n c.messages in
        let (summary, s') = sync_summary s old in
        if leb (length c.messages) s.message_threshold
        then (none, c, s)
        else (some summary, with_messages c (summary_message summary old ∷ drop n c.messages), s')

    -- `summarize_if_needed_async`: the messages are cut before the summary is there.
    unfoldable pub summarize_if_needed_async :
        Summarizer → Context J Message → Ended × Context J Message
    unfolding finish
    summarize_if_needed_async s c =
        let n = split_at s c.messages in
        let old = take n c.messages in
        let cut = with_messages c (drop n c.messages) in
        if leb (length c.messages) s.message_threshold
        then (value none, c)
        else finish
            (if s.use_llm && s.has_adapter then llm_summary old else some (extractive o.lower old))
            old cut
