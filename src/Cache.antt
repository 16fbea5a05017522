-- ===== src/Cache.antt =====
-- `RedisCache` of python-glue/unified_ai/cache/redis.py. Redis is an interface with laws. `up` is whether
-- the ping of `connect` is answered, whose exception reaches the caller, and `works` whether a command
-- is, whose exception is swallowed. A value stands for its JSON text, which is never empty.
pub mod Sessions
use unified_ai_orchestrator.Base.{
  ℕ, ◌+◌, ◌≡◌, Bool, true, false, Option, none, some, ltb, is_some, ◌||◌, if◌then◌else◌,
}
use unified_ai_orchestrator.Base.Text.{Text, text_eq}

-- The commands, at a time in seconds.
pub record Redis (S V : Type 0) : Type 0 where
  pub get : Text → ℕ → S → Option V
  pub setex : Text → ℕ → V → ℕ → S → S
  pub set : Text → V → S → S
  pub delete : Text → S → S

-- What Redis documents: a key that was set is there, until its seconds have passed where it has some;
-- a key that was deleted is not; and the other keys stay.
pub record IsRedis {S V : Type 0} (r : Redis S V) : Type 0 where
  pub get-setex :
      (k j : Text) (seconds : ℕ) (v : V) (now later : ℕ) (s : S)
      → r.get j later (r.setex k seconds v now s) ≡ (
          if text_eq k j
          then (if ltb later (now + seconds) then some v else none)
          else r.get j later s)
  pub get-set :
      (k j : Text) (v : V) (later : ℕ) (s : S)
      → r.get j later (r.set k v s) ≡ (if text_eq k j then some v else r.get j later s)
  pub get-delete :
      (k j : Text) (later : ℕ) (s : S)
      → r.get j later (r.delete k s) ≡ (if text_eq k j then none else r.get j later s)

-- The cache's side: whether `self.client` is set, and what Redis holds.
pub record Client (S : Type 0) : Type 0 where
  pub connected : Bool
  pub store : S

-- A method: `none` is an exception, and what was done before it stays.
abbrev pub M : Type 0 → Type 0 → Type 0
M S A = Client S → Option A × Client S

abbrev pub pure : {S A : Type 0} → A → M S A
pure a c = (some a, c)

infixl 5 ◌>>=◌ ◌>>◌
abbrev pub ◌>>=◌ : {S A B : Type 0} → M S A → (A → M S B) → M S B
◌>>=◌ m f c = let (a, c') = m c in elim a [ none ↦ (none, c') | some x ↦ f x c' ]

abbrev pub ◌>>◌ : {S B : Type 0} → M S (Unit {0}) → M S B → M S B
m >> k = m >>= λ _. k

-- `connect`: the ping of a new client, which raises where Redis is not `up`; the client is set before.
unfoldable pub connect : {S : Type 0} → Bool → M S (Unit {0})
connect up c = (if up || c.connected then some tt else none, record c { connected = true })

-- A command inside its `try`: where it does not work, its exception becomes `failed`.
unfoldable pub command : {S A : Type 0} → Bool → A → (S → A × S) → M S A
command works failed run c =
    let (a, s) = run c.store in if works then (some a, record c { store = s }) else (some failed, c)

module _ {S V : Type 0} (r : Redis S V) (up works : Bool) where
  -- `get`
  unfoldable pub cache_get : Text → ℕ → M S (Option V)
  cache_get key now = do connect up; command works none (λ s. (r.get key now s, s))

  -- `if ttl_seconds`
  kept_for : Option ℕ → Text → V → ℕ → S → S
  kept_for none key v now s = r.set key v s
  kept_for (some ttl) key v now s = if ltb 0 ttl then r.setex key ttl v now s else r.set key v s

  -- `set`
  unfoldable pub cache_set : Text → V → Option ℕ → ℕ → M S (Unit {0})
  unfolding kept_for
  cache_set key v ttl_seconds now = do
    connect up
    command works tt (λ s. (tt, kept_for ttl_seconds key v now s))

  -- `delete`
  unfoldable pub cache_delete : Text → M S (Unit {0})
  cache_delete key = do connect up; command works tt (λ s. (tt, r.delete key s))

  -- `exists`
  unfoldable pub cache_exists : Text → ℕ → M S Bool
  cache_exists key now = do connect up; command works false (λ s. (is_some (r.get key now s), s))
