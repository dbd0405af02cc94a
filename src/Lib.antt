-- ===== src/Lib.antt =====
-- llm-ctl, the daemon that manages one llama-server: a verification of its core.
--
-- The daemon is an OpenAI-compatible proxy in front of a single worker process, a supervisor for that
-- process, a store for sessions and turns, and jobs that download models and rebuild the worker. The
-- proxy admits one completion at a time, records each turn in the store, and notes its figures on the
-- worker's state, which the supervisor owns. The files here follow that division; paths are from the
-- repository's root.
--
--   Base        native numbers, lists, `i64` integers, and texts as lists of code points
--   External    serde_json and `f64`, as records of operations: neither is in the repository
--   Collect     src/collect.rs: LineSink and collect_capped. Window: the sink as a sliding window
--   Config      src/config.rs: the records, serde's defaults, and Config::load over what the file and
--               the parser answer
--   Jobs        src/download.rs and src/rebuild.rs: job states, the two readers on one sink.
--               Rebuild: RebuildManager, its start and its task. Download: DownloadManager::start and
--               its task, derive_id, persist_model, list_files. Cache: resolve_gguf. Logs and the
--               children of these: proofs
--   Stats       src/stats.rs: the CPU counters, the GPU's choice, the sample. Shares: proofs
--   Supervisor  src/supervisor.rs. State: WorkerState. Sections: each hold of the state's lock, one
--               function each. Lifecycle: spawn, stop, start_model, composed of them. Health: poll,
--               maybe_restart, poll_slots, list. Metrics: parse_metrics. Run: the operations in any
--               order. Tasks: its tasks at every hold of the lock, with the children that run and the
--               requests that are dropped. Stops, Restarts, CrashLoop, Undone and the children of
--               Tasks: proofs
--   Store       src/store.rs and migrations/. Session: ids and the lock key. Tables: the two tables
--               and the statements on them. Index, Rollup, Recording, Ids: proofs. Service: the store
--               as the proxy calls it
--   Proxy       src/proxy.rs. Gate: InFlight. Http: responses and header filters. BuildTurn:
--               build_turn. Sse: Collector and the line buffer. App: AppState and record_turn. Stream:
--               the task of stream_and_record. Completion: handle_completion, from one await to the
--               next, forward, fallback. Exclusion.History: its handlers as they interleave. Headers, Exclusion, Storekeeping and the children of Sse and Stream: proofs; Events
--               says what reply a stream's lines make up
--   Pve         src/pve.rs: the secret, the certificate blocks, the client. Pem, Pinning: proofs
--   Daemon      src/main.rs: AppState, its parts that change
--   Api         src/main.rs: the handlers of the control API. Messages: routes, requests, answers.
--               Writes, Reads: the handlers. Guard, Contract: proofs
--   Reap        src/reap.rs: the scan of /proc and the two rounds of signals. Ownership: proofs
--   Db          src/db.rs: the probe of the database's port. Names: proofs
--   Startup     src/main.rs: `main`, up to the listening socket and after the signal. Shutdown: proofs
--   System      all of it: requests to API and proxy, ends of tasks, the supervisor, in any order.
--               Parts, Invariants, ShuttingDown: proofs
--   Tests       the theorems at concrete inputs
--
-- An asynchronous function is a function of the state and of what the world answers to it: the exit of
-- a process, the worker's reply, the rounds of a stream. Where the supervisor waits between two holds
-- of a lock, an argument says what the other tasks do to the state meanwhile; a completion stands in a
-- list of those under way, and any event may come between two of its awaits, the drop of its handler
-- with its client too. A send to a client that is connected and never reads waits for ever, and so may
-- the shutdown on an open connection; a call of the store whose answer is too late may have changed the
-- tables. Library code is an argument, `sort_by_key` for one. An `Instant` counts nanoseconds. Integers
-- are exact, and wrap where the source's type does: `restarts` is taken modulo
-- 256 and an `i64` sum is wrapped, as in a release build; a `BIGINT` sum out of range fails its
-- transaction, which leaves the tables as they were. `Store.Tables.record_turn` takes what else the
-- server may refuse as a test on the turn.
--
-- Two loops run on fuel. One is the draining of a stream's line buffer, with one unit more than the
-- buffer has bytes. Each round but the last removes a byte, so the fuel is enough. The
-- other is the walk of a directory of the cache: fuel above the number of directories below it, weighed
-- as its theorem says, is enough. The other loops are recursions on the list that they go through.
--
-- Not modelled: HTTP, TLS, JSON and TOML parsing, PostgreSQL itself, the operating system; the text of
-- most error messages of libraries; the log; the routing of the control API, which is axum's, and the
-- files of the panel that it serves; the panel's script, the editor extension and the deployment, which
-- are not Rust.
pub mod Base
pub mod Collect
pub mod Config
pub mod Jobs
pub mod Stats
pub mod Pve
pub mod Daemon
pub mod Api
pub mod System
pub mod Reap
pub mod Db
pub mod Startup
pub mod Supervisor
pub mod External
pub mod Store
pub mod Proxy
mod Tests
