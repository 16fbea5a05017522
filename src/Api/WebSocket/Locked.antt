-- ===== src/Api/WebSocket/Locked.antt =====
-- What a client gets before it has given the key.
use unified_ai_orchestrator.Base.{
  ℕ, ◌≡◌, ◌⊎◌, refl, ◌∙◌, Bool, true, false, Option, List, [], ◌∷◌, ◌++◌, ◌&&◌, All, arith,
  Bool-cases, inl, inr,
}
use unified_ai_orchestrator.Base.Text.{Text, codes, text_eq, has_text}
use unified_ai_orchestrator.Base.Dict.{Dict}
use unified_ai_orchestrator.Context.Store.{Storage, ContextDict}
use unified_ai_orchestrator.Router.{Router}
use unified_ai_orchestrator.Api.WebSocket.{
  WsMessage, Sent, invalid_key, auth_required, Socket, same_key, Stream, type_of, authenticate,
  receive, run,
}

-- The message is no `auth` with the configured key.
abbrev pub NoKey : Option Text → Text × ℕ × WsMessage → Type 0
NoKey mobile_api_key (fresh, now, m) =
    (text_eq (type_of m) (codes "auth") && same_key m.api_key mobile_api_key) ≡ false

-- Only refusals are sent.
abbrev pub IsRefusal : Sent → Type 0
IsRefusal sent = (sent ≡ auth_required) ⊎ (sent ≡ invalid_key)

All-append : (xs ys : List Sent) → All IsRefusal xs → All IsRefusal ys → All IsRefusal (xs ++ ys)
All-append [] ys h k = k
All-append (x ∷ xs) ys (here, h) k = (here, All-append xs ys h k)

module _ {S D J A : Type 0} (st : Storage S D) (dumps : ContextDict J → D)
    (loads : D → Option (ContextDict J)) (no_text : D → Bool) (lower : Text → Text)
    (router : Router) (adapters : Dict A) (stream_chat : A → Text → Stream)
    (mobile_api_key conversation_id project_id : Option Text) where
  receive-refuses :
      (fresh : Text) (now : ℕ) (m : WsMessage) (w : Socket S)
      → has_text mobile_api_key ≡ true
      → w.authenticated ≡ false
      → NoKey mobile_api_key (fresh, now, m)
      → let (sent, w') =
          receive st dumps loads no_text lower router adapters stream_chat mobile_api_key
            conversation_id project_id fresh now m w in
        All IsRefusal sent × (w'.authenticated ≡ false) × (w'.storage ≡ w.storage)
  unfolding receive authenticate
  receive-refuses fresh now m w configured out no_key =
      elim (Bool-cases (text_eq (type_of m) (codes "auth"))) [
        | inl auth ↦
            let wrong : same_key m.api_key mobile_api_key ≡ false = ground (arith, auth, no_key) in
            rw (auth, configured, wrong) ((inr refl, tt), out, refl)
        | inr other ↦ rw (other, out, configured) ((inl refl, tt), refl, refl)
      ]

  -- Before a client has given the configured key, it gets nothing but refusals, and nothing is stored:
  -- in any run of messages of which none is an `auth` with the key, where a key that is not empty
  -- is configured.
  pub run-refuses :
      (ms : List (Text × ℕ × WsMessage)) (w : Socket S)
      → has_text mobile_api_key ≡ true
      → w.authenticated ≡ false
      → All (NoKey mobile_api_key) ms
      → let (sent, w') =
          run st dumps loads no_text lower router adapters stream_chat mobile_api_key
            conversation_id project_id ms w in
        All IsRefusal sent × (w'.authenticated ≡ false) × (w'.storage ≡ w.storage)
  unfolding run
  run-refuses [] w configured out no_key = (tt, out, refl)
  run-refuses ((fresh, now, m) ∷ ms) w configured out (here, no_key) =
      let (refused, still_out, kept) = receive-refuses fresh now m w configured out here in
      let w' =
        (receive st dumps loads no_text lower router adapters stream_chat mobile_api_key
          conversation_id project_id fresh now m w).1 in
      let (later, end_out, end_kept) = run-refuses ms w' configured still_out no_key in
      elim (Bool-cases w'.connected) [
        | inl lasts ↦ rw lasts (
          All-append
              (receive st dumps loads no_text lower router adapters stream_chat mobile_api_key
                conversation_id project_id fresh now m w).0
              (run st dumps loads no_text lower router adapters stream_chat mobile_api_key
                conversation_id project_id ms w').0
              refused later,
          end_out,
          end_kept ∙ kept,
        )
        | inr over ↦ rw over (refused, still_out, kept)
      ]
