-- ===== src/Lib.antt =====
-- The verification library of the unified AI orchestrator: the Python package
-- python-glue/unified_ai, which takes a chat message, chooses an AI tool for it, keeps the
-- conversation's context within the tool's window, and guards its HTTP API.
--
-- Parts, and the files that model them (paths from the repository's root; the modules under a part's
-- module prove its theorems, and its Tests.antt runs it):
--   Base            Names shared by all: tests on numbers, lists, Python texts as lists of code points
--                   (Base/Text), dicts as association lists (Base/Dict), rows of a table (Base/Rows). No
--                   code of the program.
--   Resilience      python-glue/unified_ai/resilience/.
--     CircuitBreaker  circuit_breaker.py: `_check_state`, `_on_success`, `_on_failure`, `call` are
--                     check_state, on_success, on_failure, call. Time is an argument.
--     RateLimiter     rate_limiter.py: `_refill`, `try_acquire`, `wait_time` and the limiter's methods.
--     Retry           retry.py: `delay`, `should_retry`, and the loop of the decorator.
--   Context         The data of context_manager.py.
--     Tokens          context/token_counter.py, over the encoder as a parameter.
--     Window          context/advanced.py, `_truncate_context`; Window/Manager: `manage_context`, and
--                     `_manage_window_python` of context_manager.py, which is the same truncation.
--     Compression     context/advanced.py, `ContextCompressor`, and `_compress_python` of
--                     context_manager.py.
--     Summary         context/advanced.py, `ContextSummarizer`, sync and async.
--     Store           context_manager.py: reading and saving contexts over a storage interface;
--                     Store/Sqlite: the tables of storage/sqlite.py that implement it.
--   Router          router.py, the choice of the tool in cli/main.py (`_chat_async`); Router/Adapters:
--                   utils/adapters.py over `get_api_key` of utils/auth.py.
--   Security        security/.
--     Auth            auth.py: the secret, access and refresh tokens, API keys, `require_auth`.
--     Authorization   authorization.py: roles, permissions, access to resources.
--     Validation      validation.py: inputs, commands, SQL texts, paths.
--   Storage         storage/ and what records in it.
--     Accounts        storage/sqlite.py: the tables users and api_keys, `create_user` to
--                     `list_api_keys`.
--     Postgres        storage/postgres.py: the same operations, on the same rows, with the constraints
--                     that PostgreSQL checks and its own reading of the time.
--     Costs           storage/sqlite.py, `record_cost` and `get_costs`, and cost/tracker.py over them.
--     Audit           storage/sqlite.py, `log_audit_event` and `get_audit_logs`, and `AuditLogger` of
--                     security/audit.py.
--   Cache           cache/redis.py, `RedisCache`, over Redis as an interface with laws; a method is a
--                   function of the client and what Redis holds, with exceptions.
--     Sessions        cache/session.py: sessions, refresh tokens and the blacklist. No route uses it.
--   Config          config/loader.py: `Config.from_dict`, `to_dict`, `load_config`, `save_config`.
--   Api             api/.
--     Request         What the middleware reads of a request.
--     ApiKey          middleware.py, `APIKeyMiddleware`.
--     RateLimit       middleware.py, `RateLimitMiddleware`: `begin` is `dispatch` up to the handler, and
--                     `finish` what it does after.
--     Csrf            csrf.py: `dispatch` of the CSRF middleware.
--     Stack           server.py, the order of the middleware in `create_app` and its check of the size;
--                     `InputValidationMiddleware` of middleware.py.
--     AuthRoutes      auth_routes.py: `login` and `refresh`; AuthRoutes/Keys: the other routes.
--     WebSocket       websocket.py: `handle_websocket_chat`, one message at a time and in runs.
--   Migrations      migrations/sqlite.py: the runner, its table of migrations and its transactions.
-- The HTTP API passes a request through the middleware of Api/Stack, whose rate limit has one limiter of
-- Resilience for each client, to a route; those of Api/AuthRoutes read and write Storage/Accounts,
-- make tokens with Security/Auth and write Storage/Audit. Router chooses among the adapters, and the
-- manager of Context reads and saves the conversation. The retry decorator is called by
-- api/routes.py; no module calls the circuit breaker, and none but their package the classes of
-- context/advanced.py. Migrations prepares the tables of the storage.
--
-- How the code is read. A method that changes its object is a function from the old record to the new
-- one, with its result beside it. Exceptions are values: `none`, or a constructor of a result type
-- (Reply, Answer, Checked, Ending). The clock, random draws, environment variables, the tokenizer, the
-- language model, the JWT library, hashes, the database's statements and the resolution of paths are
-- parameters; what the code relies on is a hypothesis named where it is used. Floats are numbers of
-- small fixed units: a token bucket counts in ticks, and rates, delays and prices have their units at
-- their definitions. Rounding of floats is not modelled.
--
-- Loops are structural, except two on fuel. The retry loop has one round more than the attempts allowed:
-- a round for each attempt, and the one that finds none left. `RateLimiter.acquire` may run for ever, so
-- the number of its rounds is an argument, and so is what other callers do to the bucket in between.
--
-- Not modelled: the chat routes (python-glue/unified_ai/api/routes.py), the middleware that only logs or
-- adds headers, how Starlette answers a preflight request (a parameter), contexts, costs and the audit
-- log in PostgreSQL, cost reports, metrics, logging and tracing, encryption, the indexer, and the
-- clients of the AI services (adapters). The Rust crate under rust-core is another implementation of
-- the router and of the context manager.
pub mod Base
pub mod Resilience
pub mod Context
pub mod Router
pub mod Security
pub mod Storage
pub mod Cache
pub mod Config
pub mod Api
pub mod Migrations
