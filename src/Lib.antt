-- ===== src/Lib.antt =====
-- The web server of this repository (canonical-web-server.rs): how it authenticates, keeps sessions,
-- refreshes them, logs out durably, synchronizes records, and tells the browser of changes.
--
-- The parts. `RateLimit` models `LoginRateLimiter` (canonical-web-server.rs/src/auth/rate_limit.rs):
-- its state, `check` and `retry_after`. `Auth` models
-- canonical-web-server.rs/crates/canonical-auth/src/lib.rs: the identity types, the reading of token
-- claims (Auth/Token.antt), and how the answers of the identity provider are read
-- (Auth/Supabase.antt). `Session` models `SessionService` of
-- canonical-web-server.rs/crates/canonical-session/src/lib.rs on the rows of
-- canonical-web-server.rs/crates/canonical-store/src/entity/web_session.rs:
--   Session/Model, Policy     the rows, the claims, the errors, the pure rules and the constants
--   Session/Cipher            `encrypt`, `decrypt`, `hash_token`
--   Session/Create            `create`
--   Session/Refresh           `mark_revocation`, `claim_refresh`, `finish_refresh_claim`,
--                             `outcome_after_lost_refresh` and the last transaction of
--                             `execute_refresh_claim`
--   Session/Revocation        `queue_revocation`, `claim_revocation`, the transaction of
--                             `persist_revocation_rotation`, `confirm_revocation`,
--                             `abandon_revocation`, `defer_revocation`
--   Session/Reconcile         the transaction of `reconcile_revocations`
--   Session/World             how an operation runs among others
--   Session/Flows             `attempt_revocation`, `revoke`, `reconcile_revocations`
--   Session/Refreshing        `authenticate`, `revalidate`, `refresh_fenced`,
--                             `refresh_as_local_leader`, `execute_refresh_claim`
--   Session/Coordinator       `RefreshCoordinator`: `lock_for`, `prune`
--   Session/Bearer            `authenticate_bearer`, `bearer_expiry`
--   Session/Evolution, Steps, Batch, Reach      the invariant, and the transactions as steps
--   Session/Fences, Attempts, Logout, Delays    what the transactions make sure of
--   Session/Coalescing        which tasks share a lock of the coordinator
--   Session/Spending, Calls, Polling            how often it calls the provider and polls
--   Session/Guarantee, Genuine, Interference, Durable      the logout operations among other tasks
--   Session/Identity, Authenticating      the authentication of a cookie among other tasks
--   Session/Entering, Sweeping      that `create` and `reconcile_revocations` take those steps
-- `Sync` models the types of canonical-web-server.rs/src/sync/protocol.rs and, of
-- canonical-web-server.rs/src/sync/service.rs, `push_mutations` and what it calls (Sync/Push.antt,
-- Sync/Rules.antt, Sync/Versions.antt), `CursorCodec` (Sync/Cursor.antt) and `pull_changes` (Sync/Pull.antt), on the
-- rows of one account; Sync/Replay, Resending, Log, Optimistic
-- and Paging have their theorems.
-- `WebSocket` models canonical-web-server.rs/src/ws/mod.rs:
--   WebSocket/Hub, Capacity        the permits of an instance, against the sockets that are open
--   WebSocket/Backplane, Relay     the invalidations that instances send each other, the reconnects
--   WebSocket/Serve                `serve`, over what its `select!` picks, one turn each
--   WebSocket/Hints, Challenge, Ending, Expiry      what a socket learns, and how it ends
-- A heartbeat runs `revalidate` of `Session` on its world.
-- `Config` models canonical-web-server.rs/crates/canonical-config/src/lib.rs: Config/Values and
-- Config/Urls the readers of single settings, Config/Load the three `from_env`, Config/Safety, Loaded
-- and Keys what a loaded configuration is sure to have. `Http` models the side of the requests:
--   Http/Errors          canonical-web-server.rs/src/error.rs
--   Http/Extractor       canonical-web-server.rs/src/auth/extractor.rs
--   Http/SharedAuth      canonical-web-server.rs/src/auth/shared_auth.rs
--   Http/Routes          `login` and `logout` of canonical-web-server.rs/src/routes/auth.rs, `push` of
--                        canonical-web-server.rs/src/routes/api/mod.rs, `upgrade` of
--                        canonical-web-server.rs/src/routes/websocket.rs
--   Http/Guards, Logins, Logouts, Verified      what they let through
-- `Store` models the checks of the database login in
-- canonical-web-server.rs/crates/canonical-store/src/lib.rs (Store/Roles); what a process may start
-- with is in Store/Isolation.
-- `Quote` models canonical-web-server.rs/src/routes/quote.rs (Quote/Forms, and `submit` in
-- Quote/Client) and canonical-web-server.rs/src/quote_api.rs (Quote/Client); Quote/Checks has what they
-- let through.
-- A login runs the limiter and `create`, a logout runs `revoke`, an upgrade takes a permit of the hub.
-- `Base` has what the parts share: Boolean tests on the native numbers, lists, texts, results and
-- association lists. The modules called Tests run the models on concrete inputs.
--
-- The correspondence. A transaction is a function from the table to its result and the table that it
-- commits; a transaction that returns an error before it commits leaves the table as it was. An
-- operation with several transactions is an action on a world that has the table, two clocks (the
-- server's and the database's), the calls of the identity provider, and the events of its waits: at
-- each `await` on the database or the provider time passes, other tasks and replicas change the
-- table, and the database may fail, with nothing committed. A commit whose answer is lost is not
-- modelled. The provider's answers are a function of the calls before. The row locks of the
-- database make each transaction one step, but for the one of `reconcile_revocations`: it selects the
-- expired rows without a lock, so that other transactions come between, and writes then what it has
-- selected; the rows that it writes stay locked up to its commit. A login, the insertion of `create`,
-- is one of the transactions; it draws an identifier that no session had before.
--
-- Numbers. An instant is a number of nanoseconds and never negative. `i32` and `u32` counters saturate
-- as in the code; `revocation_attempts` starts at 0 and never falls, so it has no sign. Versions and cursors of the sync
-- service count mutations from 0 and are taken to stay below `2 ^ 63`.
--
-- Bounds and fuel. The sign-out loop of `attempt_revocation` refreshes once at most, and is unrolled
-- on the number of refreshes left. The polling of `refresh_as_local_leader` runs on 27
-- rounds: its deadline, which is read off the server's clock, is 22 seconds away, and the sleeps
-- double from 50 milliseconds to a second, so that Session/Polling.antt finds no run that needs more.
-- The loop of a socket is a function of the list of its turns.
--
-- Parameters. AES-GCM, SHA-256, base64, UTF-8, JSON and UUID parsing, the HTTP client, the random
-- draws and the identity provider are arguments of the model. The one law asked of them, that
-- decryption and decoding undo encryption and encoding, is a hypothesis of the theorem that uses it.
--
-- Not modelled. The pages and their templates, but for the cookies of a login and a logout; the quote
-- pages; the store's migrations and the queries of its role checks, which are SQL; metrics and telemetry; the
-- construction of HTTP clients; the background worker of `SessionRevoker`, which calls
-- `reconcile_revocations` on a timer; the scheduling of the tasks that
-- wait for a lock: whether a caller is the leader, a follower or refused is an argument of
-- `refresh_fenced`; the semaphores, whose free permits are an argument.
-- An instant before 1970 that a token names is 0.
pub mod Auth
pub mod Base
pub mod Config
pub mod Http
pub mod Quote
pub mod RateLimit
pub mod Session
pub mod Store
pub mod Sync
pub mod WebSocket
