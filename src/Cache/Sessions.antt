-- ===== src/Cache/Sessions.antt =====
-- `SessionStore` of python-glue/unified_ai/cache/session.py over the cache. `configured` is whether there is a
-- Redis cache; `iso` is the text of a time, and fresh identifiers and hashes are arguments.
pub mod Lifetime
mod Tests
use Prim.Native.String.{String}
use unified_ai_orchestrator.Base.{
  ℕ, ◌+◌, ◌-◌, ◌*◌, Bool, true, false, Option, none, some, List, [], ◌∷◌, ◌++◌, ltb, not,
  if◌then◌else◌,
}
use unified_ai_orchestrator.Base.Text.{Text, codes}
use unified_ai_orchestrator.Base.Dict.{Dict, insert}
use unified_ai_orchestrator.Cache.{
  Redis, M, pure, ◌>>=◌, ◌>>◌, connect, cache_get, cache_set, cache_delete, cache_exists,
}

-- What the cache holds: the data of a session or token, or the mark of the blacklist.
pub data Cached : Type 0 where
  entry : Dict Text → Cached
  mark : Text → Cached

abbrev pub session_timeout : ℕ
session_timeout = 30 * 60

abbrev pub session_key : Text → Text
session_key session_id = codes "session:" ++ session_id

abbrev pub token_key : Text → Text
token_key token_hash = codes "refresh_token:" ++ token_hash

abbrev pub blacklist_key : Text → Text
blacklist_key token_hash = codes "blacklist:" ++ token_hash

-- `{..., **extra}`
merged : Dict Text → Dict Text → Dict Text
merged d [] = d
merged d ((k, v) ∷ extra) = merged (insert k v d) extra

-- `session_data or {}`
or_empty : Option (Dict Text) → Dict Text
or_empty none = []
or_empty (some d) = d

-- The data of a new session.
unfoldable pub new_session : (ℕ → Text) → Text → Option (Dict Text) → ℕ → Dict Text
unfolding merged or_empty
new_session iso user_id session_data now =
    merged (("user_id", user_id) ∷ ("created_at", iso now) ∷ ("last_activity", iso now) ∷ [])
      (or_empty session_data)

-- `data["last_activity"] = ...`; an entry of the blacklist is not read as a session.
unfoldable pub touched : (ℕ → Text) → ℕ → Cached → Cached
touched iso now (entry d) = entry (insert "last_activity" (iso now) d)
touched iso now (mark t) = mark t

module _ {S : Type 0} (r : Redis S Cached) (up works configured : Bool) (iso : ℕ → Text) where
  -- `create_session`: the identifier is returned, also where nothing is stored.
  unfoldable pub create_session : Text → Text → Option (Dict Text) → ℕ → M S Text
  create_session session_id user_id session_data now =
      if not configured then pure session_id else do
        connect up
        cache_set r up works (session_key session_id)
            (entry (new_session iso user_id session_data now)) (some session_timeout) now
        pure session_id

  refreshed : Text → ℕ → Option Cached → M S (Option Cached)
  refreshed session_id now none = pure none
  refreshed session_id now (some d) = do
    cache_set r up works (session_key session_id) (touched iso now d) (some session_timeout) now
    pure (some (touched iso now d))

  -- `get_session`
  unfoldable pub get_session : Text → ℕ → M S (Option Cached)
  unfolding refreshed
  get_session session_id now = if not configured then pure none else do
    connect up
    d ← cache_get r up works (session_key session_id) now
    refreshed session_id now d

  -- `delete_session`
  unfoldable pub delete_session : Text → M S (Unit {0})
  delete_session session_id =
      if not configured
      then pure tt
      else do connect up; cache_delete r up works (session_key session_id)

  -- `store_refresh_token`
  unfoldable pub store_refresh_token : Text → Text → ℕ → ℕ → M S (Unit {0})
  store_refresh_token token_hash user_id expires_at now =
      let ttl = expires_at - now in
      let d = entry (("user_id", user_id) ∷ ("expires_at", iso expires_at) ∷ []) in
      if not configured then pure tt else do
        connect up
        if ltb 0 ttl then cache_set r up works (token_key token_hash) d (some ttl) now else pure tt

  -- `get_refresh_token`
  unfoldable pub get_refresh_token : Text → ℕ → M S (Option Cached)
  get_refresh_token token_hash now =
      if not configured
      then pure none
      else do connect up; cache_get r up works (token_key token_hash) now

  -- `revoke_refresh_token`
  unfoldable pub revoke_refresh_token : Text → M S (Unit {0})
  revoke_refresh_token token_hash =
      if not configured
      then pure tt
      else do connect up; cache_delete r up works (token_key token_hash)

  -- `is_token_blacklisted`
  unfoldable pub is_token_blacklisted : Text → ℕ → M S Bool
  is_token_blacklisted token_hash now =
      if not configured
      then pure false
      else do connect up; cache_exists r up works (blacklist_key token_hash) now

  -- `blacklist_token`
  unfoldable pub blacklist_token : Text → ℕ → ℕ → M S (Unit {0})
  blacklist_token token_hash ttl_seconds now = if not configured then pure tt else do
    connect up
    cache_set r up works (blacklist_key token_hash) (mark (codes "1")) (some ttl_seconds) now
