-- ===== src/Lib.antt =====
-- Corrall: a proxy that spreads the requests of coding agents over a fleet of accounts, and moves
-- on before an account runs out of its quota.
--
-- The program reads utilization and reset times from response headers and from a usage endpoint
-- (src/quota.rs), follows the sessions of its clients (src/session.rs), and for each request
-- selects an account (`Fleet::select` in src/manager.rs), admits the request to it, and tells the
-- fleet what came back: holds, errors, usage. The proxy under src/proxy calls these operations.
--
-- Which file models what:
--   Prelude      words of Rust and its standard library: i64 arithmetic with its wrap-around (Int),
--                f64 as an interface (Float), tables (Maps), stable sorting (Sort), texts as lists
--                of code points (Bytes) or as they are (Texts), and values of serde_json (Json)
--   Model        src/model.rs: families, bucket names, globs; Model/Requests: the models a body names
--   Security     src/security.rs: key comparison, address classes, cleaning of texts
--   Auth         src/proxy/auth.rs: who may use the proxy
--   Body         src/proxy/body.rs: the repair and the rewrites of request bodies
--   Quota        src/quota.rs: buckets, expiry, headers, usage payloads
--   Codex        src/codex.rs: the readings in the headers of Codex
--   Session      src/session.rs: the session table
--   Config       src/config.rs: the settings that the fleet reads; Config/Pools: the pools of the file,
--                their names, the ids of accounts and the handles that name one; Config/Matching:
--                src/pool_match.rs, the pool of a launch
--   Fleet        src/manager.rs: the state; Upstream and Eligibility say who may serve, Ranking in
--                which order, Cursor has the small steps, Select the stages of the selection and
--                Selection the whole of it; Admission has the storm ramp, Health and Tallies what
--                answers do to an account, Probes the runs of the prober; Logins and Tokens have the
--                credentials and their refresh, Sync the reload of the settings, Responses the
--                readings of each response
--   Forward      src/proxy/forward.rs: the loop that tries a request on one account after another;
--                Attempts and Statuses say what one attempt comes to
--   Prober       src/prober.rs: the schedule of the probes
--   Fleet/Bookkeeping, Fleet/Selection, Fleet/Admission, Fleet/Health, Fleet/Tallies: what is shown
--                of them
--   Tests        a fixed-point number, a platform and a small fleet, and each theorem applied
--
-- A `&mut self` method is a function that returns the new state. `now_ms()` is an argument. A
-- `HashMap` is an association list whose order stands for its order of iteration; a `BTreeMap` is
-- kept in order by `insert_sorted`. A reason for which the source formats a text is a constructor,
-- so its tests on the beginning of a text are tests on the constructor. Operations on `i64`, `u32`
-- and `u64` wrap as those of the release build; differences of two times that are only compared are
-- exact. `f64` is any type with the operations of `Float`: no law of it is assumed but where a
-- theorem names one. What comes from other crates or from the environment (hosts of URLs, addresses,
-- ISO times, the stale limit) is the record `Platform`.
--
-- `Manager::ensure_token_fresh` waits twice, for the lock and for the token endpoint. What other
-- calls do to the fleet meanwhile is a function on the fleet, and the answer of the endpoint is an
-- argument, so that its theorems hold under any interleaving. Fresh uuids are a sequence of texts.
--
-- The one loop by fuel is `Manager::admit`: its fuel counts attempts, 50 milliseconds apart, and
-- enough of them to pass the end of the ramp window are shown to be enough. The loop of `forward` is
-- bounded in the source, by three times MAX_ATTEMPTS passes, and is recursion on the passes left.
-- Its world (the answers of the network, the clock, what other requests do between two passes) is an
-- argument; Attempts says what an answer comes to.
--
-- Not modelled: HTTP, TLS, streams, files, timers, the command line and the terminal; the login flow and
-- what it writes to the settings file; the registry of the pools (src/pools.rs).
pub mod Prelude
pub mod Model
pub mod Security
pub mod Quota
pub mod Session
pub mod Codex
pub mod Config
pub mod Fleet
pub mod Forward
pub mod Prober
pub mod Auth
pub mod Body
pub mod Tests
