-- ===== src/Cache/Sessions/Tests.antt =====
-- Sessions over a toy of Redis, the list of its keys with the times at which they expire, and the theorems.
use unified_ai_orchestrator.Base.{
  ℕ, ◌+◌, ◌≡◌, refl, arith, Bool, true, false, Option, none, some, [], ◌∷◌, ltb, is_some,
  if◌then◌else◌,
}
use unified_ai_orchestrator.Base.Text.{Text, codes, text_eq}
use unified_ai_orchestrator.Base.Dict.{lookup}
use unified_ai_orchestrator.Cache.{
  Redis, IsRedis, Client, connect, command, cache_get, cache_set, cache_delete, cache_exists,
}
use unified_ai_orchestrator.Cache.Sessions.{
  Cached, session_timeout, new_session, touched, create_session, get_session, delete_session,
  store_refresh_token, get_refresh_token, revoke_refresh_token, is_token_blacklisted,
  blacklist_token,
}
use unified_ai_orchestrator.Cache.Sessions.Lifetime.{
  says, visits, get_session-lasts, is_token_blacklisted-blacklist_token,
}

-- A key holds a value, or nothing, with the time at which it expires.
abbrev Held : Type 0
Held = Option (Cached × Option ℕ)

abbrev Toy : Type 0
Toy = Text → Held

abbrev alive : ℕ → Held → Option Cached
alive now none = none
alive now (some (v, none)) = some v
alive now (some (v, some t)) = if ltb now t then some v else none

abbrev put : Text → Held → Toy → Toy
put k h s j = if text_eq k j then h else s j

abbrev toy : Redis Toy Cached
toy = record {
  get = λ k now s. alive now (s k);
  setex = λ k seconds v now s. put k (some (v, some (now + seconds))) s;
  set = λ k v s. put k (some (v, none)) s;
  delete = λ k s. put k none s;
}

alive-if :
    (later : ℕ) (b : Bool) (h g : Held)
    → alive later (if b then h else g) ≡ (if b then alive later h else alive later g)
alive-if later true h g = refl
alive-if later false h g = refl

toy-IsRedis : IsRedis toy
toy-IsRedis = record {
  get-setex = λ k j seconds v now later s.
      alive-if later (text_eq k j) (some (v, some (now + seconds))) (s j);
  get-set = λ k j v later s. alive-if later (text_eq k j) (some (v, none)) (s j);
  get-delete = λ k j later s. alive-if later (text_eq k j) none (s j);
}

abbrev nothing : Client Toy
nothing = record { connected = false; store = λ k. none }

abbrev iso : ℕ → Text
iso n = n ∷ []

program : Unit {0}
unfolding connect command cache_get cache_set cache_delete cache_exists new_session touched
    create_session get_session delete_session store_refresh_token get_refresh_token
    revoke_refresh_token is_token_blacklisted blacklist_token
program = tt

abbrev started : Client Toy
started = (create_session toy true true true iso (codes "s") (codes "u1") none 100 nothing).1

found : says (get_session toy true true true iso (codes "s") 1899 started).0 ≡ some true
unfolding program
found = refl

timed_out : says (get_session toy true true true iso (codes "s") 1900 started).0 ≡ some false
unfolding program
timed_out = refl

ended :
    says
      (get_session toy true true true iso
        (codes "s")
        101
        (delete_session toy true true true iso (codes "s") started).1).0
    ≡ some false
unfolding program
ended = refl

-- The first call without Redis raises; the ones after it do not.
raises :
    (create_session toy false false true iso (codes "s") (codes "u1") none 100 nothing).0 ≡ none
unfolding program
raises = refl

then_silent :
    (create_session toy false false true iso
      (codes "t")
      (codes "u1")
      none
      101
      ((create_session toy false false true iso (codes "s") (codes "u1") none 100 nothing).1)).0
    ≡ some (codes "t")
unfolding program
then_silent = refl

-- The data that is given for a session replaces the user.
other_user :
    lookup "user_id" (new_session iso (codes "u1") (some (("user_id", codes "root") ∷ [])) 1)
    ≡ some (codes "root")
unfolding program
other_user = refl

get_session-lasts_example :
    says
      (get_session toy true true true iso
        (codes "s")
        5000
        (visits toy toy-IsRedis iso (codes "s") (1800 ∷ 3500 ∷ []) started)).0
    ≡ some (ltb 5000 (3500 + session_timeout))
get_session-lasts_example =
    get_session-lasts toy toy-IsRedis iso (codes "s") (codes "u1") none 100 5000 (1800 ∷ 3500 ∷ [])
      nothing (omega arith, (omega arith, tt))

-- Redis is down at the first call, which raises, and up again at the second, which finds nothing.
is_token_blacklisted-blacklist_token_example :
    let (answer, c) = blacklist_token toy false false true iso (codes "t") 60 5 nothing in
    (is_some answer ≡ false)
    × ((is_token_blacklisted toy true true true iso (codes "t") 6 c).0 ≡ some false)
is_token_blacklisted-blacklist_token_example =
    is_token_blacklisted-blacklist_token toy toy-IsRedis iso true false false true true (codes "t")
      60 5 6 nothing (omega arith)
