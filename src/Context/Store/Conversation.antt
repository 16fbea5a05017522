-- ===== src/Context/Store/Conversation.antt =====
-- What is read back of a conversation.
use unified_ai_orchestrator.Base.{
  ℕ, ◌≡◌, ◌≢◌, refl, sym, ap, ◌∙◌, Bool, true, false, Option, none, some, List, [], ◌∷◌, ◌++◌,
  append_assoc, append-nil, if◌then◌else◌, arith, Bool-cases, inl, inr,
}
use unified_ai_orchestrator.Base.Text.{Text, text_eq, text_eq→eq, text_eq_refl}
use unified_ai_orchestrator.Context.{Message, Context}
use unified_ai_orchestrator.Context.Store.{
  ContextDict, Storage, IsStorage, to_dict, from_dict, with_default, new_context, parse,
  get_context, save_context, create, or_create, get_or_create_context, add_message, add_tool_call,
}

-- What `json` documents: a dict that was dumped is loaded again, and its text is not empty.
abbrev pub Loads :
    {J D : Type 0} → (ContextDict J → D) → (D → Option (ContextDict J)) → (D → Bool) → Type 0
Loads {J} dumps loads no_text =
    (d : ContextDict J) → (loads (dumps d) ≡ some d) × (no_text (dumps d) ≡ false)

pub from_dict-to_dict : {J : Type 0} (c : Context J Message) → from_dict (to_dict c) ≡ some c
unfolding from_dict to_dict with_default
from_dict-to_dict c = refl

-- What is done to a conversation, with the time of it and of saving it.
pub data Event : Type 0 where
  said : Text → Text → ℕ → ℕ → Event
  called : Text → Text → Text → ℕ → ℕ → Event

module _ {J S D : Type 0} (st : Storage S D) (dumps : ContextDict J → D)
    (loads : D → Option (ContextDict J)) (no_text : D → Bool) where
  -- A conversation that is there is returned, and nothing is written.
  pub get_or_create_context-found :
      (a : ℕ) (i : Text) (project_id : Option Text) (fresh : Text) (now : ℕ) (s : S)
      {c : Context J Message}
      → get_context st dumps loads no_text (a ∷ i) s ≡ some (some c)
      → get_or_create_context st dumps loads no_text (some (a ∷ i)) project_id fresh now s
        ≡ some (c, s)
  unfolding get_or_create_context or_create
  get_or_create_context-found a i project_id fresh now s h = rw (h, or_create) refl

module _ {J S D : Type 0} (st : Storage S D) (laws : IsStorage st) (dumps : ContextDict J → D)
    (loads : D → Option (ContextDict J)) (no_text : D → Bool)
    (json : Loads dumps loads no_text) where
  parse-dumps :
      (c : Context J Message)
      → parse st dumps loads no_text (some (dumps (to_dict c))) ≡ some (some c)
  unfolding parse
  parse-dumps c =
      let (loaded, filled) = json (to_dict c) in
      rw (parse, filled, loaded, from_dict-to_dict c) refl

  -- After a context was saved, `get_context` returns it under its identifier, and returns under any
  -- other what it returned before.
  pub get_context-save_context :
      (c : Context J Message) (now : ℕ) (s : S) (j : Text)
      → get_context st dumps loads no_text j (save_context st dumps loads no_text c now s) ≡ (
          if text_eq c.conversation_id j
          then some (some c)
          else get_context st dumps loads no_text j s)
  unfolding get_context save_context
  get_context-save_context c now s j =
      rw (laws.load-save c.conversation_id j c.project_id (dumps (to_dict c)) now s)
        (elim (Bool-cases (text_eq c.conversation_id j)) [
          | inl same ↦ rw same (parse-dumps c)
          | inr other ↦ rw other refl
        ])

  abbrev pub happen : Event → Context J Message × S → Context J Message × S
  happen (said role content now later) cs =
      add_message st dumps loads no_text role content now later cs
  happen (called tool request response now later) cs =
      add_tool_call st dumps loads no_text tool request response now later cs

  abbrev pub replay : List Event → Context J Message × S → Context J Message × S
  replay [] cs = cs
  replay (e ∷ es) cs = replay es (happen e cs)

  abbrev pub messages_of : List Event → List Message
  messages_of [] = []
  messages_of (said role content now later ∷ es) =
      record { role = role; content = content; timestamp = now } ∷ messages_of es
  messages_of (called tool request response now later ∷ es) = messages_of es

  abbrev pub Stored : Context J Message × S → Type 0
  Stored (c, s) = get_context st dumps loads no_text c.conversation_id s ≡ some (some c)

  get_context-add_message :
      (i role content : Text) (now : ℕ) (s : S) (j : Text)
      → get_context st dumps loads no_text j (st.add_message i role content now s)
        ≡ get_context st dumps loads no_text j s
  unfolding get_context
  get_context-add_message i role content now s j =
      ap (parse st dumps loads no_text) (laws.load-add_message i j role content now s)

  happen-get :
      (e : Event) (c : Context J Message) (s : S) (j : Text)
      → get_context st dumps loads no_text j (happen e (c, s)).1 ≡ (
          if text_eq c.conversation_id j
          then some (some (happen e (c, s)).0)
          else get_context st dumps loads no_text j s)
  unfolding add_message add_tool_call
  happen-get (said role content now later) c s j =
      get_context-save_context (happen (said role content now later) (c, s)).0 later
        (st.add_message c.conversation_id role content now s) j
      ∙ ap
          (λ g.
            if text_eq c.conversation_id j
            then some (some (happen (said role content now later) (c, s)).0)
            else g)
          (get_context-add_message c.conversation_id role content now s j)
  happen-get (called tool request response now later) c s j =
      get_context-save_context (happen (called tool request response now later) (c, s)).0 later s j

  happen-id :
      (e : Event) (c : Context J Message) (s : S)
      → (happen e (c, s)).0.conversation_id ≡ c.conversation_id
  unfolding add_message add_tool_call
  happen-id (said role content now later) c s = refl
  happen-id (called tool request response now later) c s = refl

  happen-messages :
      (e : Event) (c : Context J Message) (s : S)
      → (happen e (c, s)).0.messages ≡ c.messages ++ messages_of (e ∷ [])
  unfolding add_message add_tool_call
  happen-messages (said role content now later) c s = refl
  happen-messages (called tool request response now later) c s = sym (append-nil c.messages)

  messages_of-cons :
      (e : Event) (es : List Event) → messages_of (e ∷ es) ≡ messages_of (e ∷ []) ++ messages_of es
  messages_of-cons (said role content now later) es = refl
  messages_of-cons (called tool request response now later) es = refl

  nested :
      {A : Type 0} (b : Bool) (x y z : A)
      → (if b then x else (if b then y else z)) ≡ (if b then x else z)
  nested true x y z = refl
  nested false x y z = refl

  -- A conversation that is stored stays so, whatever messages and tool calls are added: what is read
  -- back under its identifier is the context that the caller holds, whose messages are the old ones
  -- and the added ones, in order; every other conversation is read back as before.
  pub replay-Stored :
      (es : List Event) (c : Context J Message) (s : S) (j : Text)
      → Stored (c, s)
      → Stored (replay es (c, s))
        × ((replay es (c, s)).0.messages ≡ c.messages ++ messages_of es)
        × (get_context st dumps loads no_text j (replay es (c, s)).1 ≡ (
            if text_eq c.conversation_id j
            then some (some (replay es (c, s)).0)
            else get_context st dumps loads no_text j s))
  replay-Stored [] c s j stored = (
    stored,
    sym (append-nil c.messages),
    elim (Bool-cases (text_eq c.conversation_id j)) [
      | inl same ↦ rw same (rw (sym (text_eq→eq c.conversation_id j same)) stored)
      | inr other ↦ rw other refl
    ],
  )
  replay-Stored (e ∷ es) c s j stored =
      let after = happen e (c, s) in
      let key = happen-id e c s in
      let stored_now : Stored after =
        happen-get e c s after.0.conversation_id ∙ rw (key, text_eq_refl c.conversation_id) refl in
      let (stored_later, messages, read) = replay-Stored es after.0 after.1 j stored_now in
      (
        stored_later,
        messages
            ∙ ap (λ l. l ++ messages_of es) (happen-messages e c s)
            ∙ append_assoc c.messages (messages_of (e ∷ [])) (messages_of es)
            ∙ ap (λ l. c.messages ++ l) (sym (messages_of-cons e es)),
        read ∙ rw (key, happen-get e c s j) (nested (text_eq c.conversation_id j) _ _ _),
      )

  same_id :
      (i : Text) (project_id : Option Text)
      → text_eq (new_context {J = J} i project_id).conversation_id i ≡ true
  unfolding new_context
  same_id i project_id = text_eq_refl i

  found :
      (g : Option (Option (Context J Message))) (i : Text) (project_id : Option Text) (now : ℕ)
      (s : S) {c : Context J Message} {after : S}
      → or_create st dumps loads no_text g i project_id now s ≡ some (c, after)
      → get_context st dumps loads no_text i s ≡ g
      → get_context st dumps loads no_text i after ≡ some (some c)
  unfolding or_create create
  found none i project_id now s h loaded = absurd (ground arith)
  found (some none) i project_id now s h loaded =
      let made : Context J Message = new_context i project_id in
      let saved = get_context-save_context made now s i in
      let same : text_eq made.conversation_id i ≡ true = same_id i project_id in
      ground (arith, saved, same)
  found (some (some d)) i project_id now s h loaded = ground arith

  -- Asked twice for one conversation, `get_or_create_context` gives the same context, and the second
  -- time it writes nothing, whatever project and time it is asked with.
  pub get_or_create_context_again :
      (i : Text) (project_id later_project : Option Text) (fresh later_fresh : Text) (now later : ℕ)
      (s : S) {c : Context J Message} {after : S}
      → get_or_create_context st dumps loads no_text (some i) project_id fresh now s
        ≡ some (c, after)
      → i ≢ []
      → get_or_create_context st dumps loads no_text (some i) later_project later_fresh later after
        ≡ some (c, after)
  unfolding get_or_create_context or_create create new_context
  get_or_create_context_again [] project_id later_project fresh later_fresh now later s h filled =
      absurd (filled refl)
  get_or_create_context_again (x ∷ i) project_id later_project fresh later_fresh now later s {c}
        {after} h filled =
      rw
        (
          found (get_context st dumps loads no_text (x ∷ i) s) (x ∷ i) project_id now s h refl,
          or_create,
        )
        refl
