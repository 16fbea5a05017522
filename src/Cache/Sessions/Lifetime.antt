-- ===== src/Cache/Sessions/Lifetime.antt =====
-- How long sessions, refresh tokens and the blacklist last.
use unified_ai_orchestrator.Base.{
  ℕ, ◌+◌, ◌<◌, ◌≡◌, Bool, true, Option, none, some, List, [], ◌∷◌, ◌&&◌, ◌||◌, not, ltb, is_some,
  if◌then◌else◌, arith,
}
use unified_ai_orchestrator.Base.Text.{Text, codes, text_eq_refl}
use unified_ai_orchestrator.Base.Dict.{Dict}
use unified_ai_orchestrator.Cache.{
  Redis, IsRedis, Client, connect, command, cache_get, cache_set, cache_exists, kept_for,
}
use unified_ai_orchestrator.Cache.Sessions.{
  Cached, entry, mark, session_timeout, session_key, blacklist_key, new_session, touched,
  create_session, refreshed, get_session, is_token_blacklisted, blacklist_token,
}

-- What a method that found something, or nothing, says; `none` is still its exception.
abbrev pub says : Option (Option Cached) → Option Bool
says none = none
says (some answer) = some (is_some answer)

module _ {S : Type 0} (r : Redis S Cached) (law : IsRedis r) where
  -- What was set for some seconds is there until they have passed.
  get-set_for :
      (key : Text) (v : Cached) (ttl now later : ℕ) (s : S)
      → 0 < ttl
      → r.get key later (kept_for r true true (some ttl) key v now s)
        ≡ (if ltb later (now + ttl) then some v else none)
  unfolding kept_for
  get-set_for key v ttl now later s h =
      let law_here = law.get-setex key key ttl v now later s in
      ground (arith, law_here, text_eq_refl key)

  module _ (iso : ℕ → Text) where
    -- The session can be read until its timeout after the time `t`, and not after.
    Lives : Text → ℕ → Cached → Client S → Type 0
    Lives session_id t d c =
        (later : ℕ)
        → r.get (session_key session_id) later c.store
          ≡ (if ltb later (t + session_timeout) then some d else none)

    created-Lives :
        (session_id user_id : Text) (session_data : Option (Dict Text)) (now : ℕ) (c : Client S)
        → Lives session_id now
            (entry (new_session iso user_id session_data now))
            (create_session r true true true iso session_id user_id session_data now c).1
    unfolding Lives create_session cache_set connect command
    created-Lives session_id user_id session_data now c later =
        get-set_for (session_key session_id) (entry (new_session iso user_id session_data now))
          session_timeout now later c.store (omega arith)

    get_session-Lives :
        (session_id : Text) (t now : ℕ) (d : Cached) (c : Client S)
        → now < t + session_timeout
        → Lives session_id t d c
        → Lives session_id now
            (touched iso now d)
            (get_session r true true true iso session_id now c).1
    unfolding Lives get_session refreshed cache_get cache_set connect command
    get_session-Lives session_id t now d c h lives later =
        let found : r.get (session_key session_id) now c.store ≡ some d =
          ground (arith, lives now) in
        rw found (
          get-set_for (session_key session_id) (touched iso now d) session_timeout now later c.store
            (omega arith))

    -- A session that is read at these times, one after the other.
    abbrev pub visits : Text → List ℕ → Client S → Client S
    visits session_id [] c = c
    visits session_id (t ∷ ts) c =
        visits session_id ts (get_session r true true true iso session_id t c).1

    -- Each reading comes before the timeout of the one before.
    abbrev pub InTime : ℕ → List ℕ → Type 0
    InTime t [] = Unit
    InTime t (u ∷ ts) = (u < t + session_timeout) × InTime u ts

    abbrev pub last_of : ℕ → List ℕ → ℕ
    last_of t [] = t
    last_of t (u ∷ ts) = last_of u ts

    visits-Lives :
        (session_id : Text) (t : ℕ) (ts : List ℕ) (d : Cached) (c : Client S)
        → InTime t ts
        → Lives session_id t d c
        → (e : Cached) × Lives session_id (last_of t ts) e (visits session_id ts c)
    visits-Lives session_id t [] d c in_time lives = (d, lives)
    visits-Lives session_id t (u ∷ ts) d c (here, in_time) lives =
        visits-Lives session_id u ts (touched iso u d)
          (get_session r true true true iso session_id u c).1 in_time
          (get_session-Lives session_id t u d c here lives)

    read_back :
        (session_id : Text) (t later : ℕ) (d : Cached) (c : Client S)
        → Lives session_id t d c
        → says (get_session r true true true iso session_id later c).0
          ≡ some (ltb later (t + session_timeout))
    unfolding Lives get_session refreshed cache_get cache_set connect command
    read_back session_id t later d c lives = ground (arith, lives later)

    -- A session lives on by being read: after `create_session`, and readings that each come within thirty
    -- minutes of the one before, `get_session` at a later time does not raise, and finds the session
    -- exactly if fewer than thirty minutes have passed since the last reading, if Redis is configured,
    -- can be reached, works and keeps its laws.
    pub get_session-lasts :
        (session_id user_id : Text) (session_data : Option (Dict Text)) (now later : ℕ)
        (ts : List ℕ) (c : Client S)
        → InTime now ts
        → says
            (get_session r true true true iso session_id later (
              visits session_id ts
                (create_session r true true true iso session_id user_id session_data now c).1)).0
          ≡ some (ltb later (last_of now ts + session_timeout))
    get_session-lasts session_id user_id session_data now later ts c in_time =
        let after = (create_session r true true true iso session_id user_id session_data now c).1 in
        let (e, lives) =
          visits-Lives session_id now ts (entry (new_session iso user_id session_data now)) after
            in_time (created-Lives session_id user_id session_data now c) in
        read_back session_id (last_of now ts) later e (visits session_id ts after) lives

    -- What the blacklist says of a token that `blacklist_token` was called with, for a time that is not
    -- zero. The call raises exactly where Redis is configured, there is no client yet and the ping
    -- fails. `is_token_blacklisted`, called after it, never raises. Where Redis is configured, the
    -- write was made and the reading works, it says whether the time has passed; where the write was
    -- not made, it says what it would have said before; and where Redis is not configured or the
    -- reading fails, it says that the token is not on the blacklist.
    pub is_token_blacklisted-blacklist_token :
        (configured up works up_later works_later : Bool) (token_hash : Text)
        (ttl_seconds now later : ℕ) (c : Client S)
        → 0 < ttl_seconds
        → let (answer, c') =
            blacklist_token r up works configured iso token_hash ttl_seconds now c in
          let written = works && (up || c.connected) in
          let before = is_some (r.get (blacklist_key token_hash) later c.store) in
          (is_some answer ≡ not (configured && not (up || c.connected)))
          × ((is_token_blacklisted r up_later works_later configured iso token_hash later c').0
              ≡ some (
                  configured
                  && works_later
                  && (if written then ltb later (now + ttl_seconds) else before)))
    unfolding is_token_blacklisted blacklist_token cache_exists cache_set connect command kept_for
    is_token_blacklisted-blacklist_token configured up works up_later works_later token_hash
          ttl_seconds now later c h =
        let key = blacklist_key token_hash in
        let read = law.get-setex key key ttl_seconds (mark (codes "1")) now later c.store in
        let same = text_eq_refl key in (ground arith, ground (arith, read, same))
