-- ===== src/Startup.antt =====
-- src/main.rs, `main`: what happens before the daemon listens, and after it stops. `S` is the type of
-- the operating system's state as the reaper sees it.
pub mod Shutdown
use llm_ctl.Base.{ℕ, Option, none, some, Bool, true, false, List, [], ◌∷◌, if◌then◌else◌}
use llm_ctl.Base.Text.{Text, lit, is_empty, trim}
use llm_ctl.External.{Json, Floats}
use llm_ctl.Config.{Model, Llama, Config, TomlConfig, LoadError, Loaded, load}
use llm_ctl.Supervisor.State as State
use llm_ctl.Supervisor.State.{WorkerState}
use llm_ctl.Supervisor.Lifecycle.{
  Others, SpawnEnv, StopEnv, SpawnError, Spawned, already, waits_for, err, Signal, spawn,
  stop_inner,
}
use llm_ctl.Store.Service.{Server, Database}
use llm_ctl.Jobs.Download as Download
use llm_ctl.Jobs.Rebuild as Rebuild
use llm_ctl.Reap.{Os, reap_legacy_llama}
use llm_ctl.Daemon.{Daemon}
use llm_ctl.System.{Site, Event, run_system}

-- What git says: whether it exits well, and its output, decoded; or it cannot be run.
abbrev pub Git : Type 0
Git = Option (Bool × Text)

-- `.ok().filter(success).map(trim)`.
unfoldable pub git_line : Git → Option Text
unfolding trim
git_line none = none
git_line (some (false, out)) = none
git_line (some (true, out)) = some (trim out)

abbrev pub or_else : Text → Option Text → Text
or_else t none = t
or_else t (some s) = s

-- `branch.filter(|b| !b.is_empty())`.
abbrev pub non_blank : Option Text → Option Text
non_blank none = none
non_blank (some b) = if is_empty b then none else some b

pub record LlamaInfo : Type 0 where
  pub commit : Text
  pub branch : Text
  pub binary : Text

unfoldable pub llama_build_info : Git → Git → Text → LlamaInfo
unfolding git_line lit
llama_build_info commit branch binary = record {
  commit = or_else (lit "unknown") (git_line commit);
  branch = or_else (lit "detached") (non_blank (git_line branch));
  binary = binary;
}

-- `cfg.models.iter().find(|m| m.autostart)`.
unfoldable pub autostarted : List Model → Option Model
autostarted [] = none
autostarted (m ∷ ms) = if m.autostart then some m else autostarted ms

-- What the world answers while the daemon comes up.
pub record StartWorld (V F S : Type 0) : Type 0 where
  pub config_var : Option Text  -- LLM_CTL_CONFIG
  pub home : Option Text
  pub read : Text → Option Text
  pub parse : Text → Option TomlConfig
  pub machine : S
  pub launch : SpawnEnv V F
  pub poller : Others V F  -- what the poller and the child's task do before the daemon listens
  pub connect : Option Text
  pub database : Database V F
  pub builds : Option (List (Rebuild.BuildRecord F))
  pub commit : Git
  pub branch : Git
  pub bind : Option Text

pub data StartError : Type 0 where
  bad_config : LoadError → StartError
  not_spawned : SpawnError → StartError
  not_bound : Text → StartError

-- `main` returns an error, with the worker that it leaves behind; or it serves.
pub data Boot (V F S : Type 0) : Type 0 where
  failed : StartError → WorkerState V F → Boot V F S
  serving : Config → Daemon V F → LlamaInfo → S → List ℕ → Boot V F S

-- The store is there if it could be reached; a migration that fails is only logged.
abbrev pub reached : Option Text → Bool
reached none = true
reached (some e) = false

module _ {V F S : Type 0} where
  unfoldable pub daemon_of : StartWorld V F S → Text → Config → WorkerState V F → Daemon V F
  unfolding Download.new_manager Rebuild.new_manager
  daemon_of w path cfg st = record {
    worker = st;
    shutting_down = false;
    busy = false;
    active_session = none;
    database = w.database;
    has_store = reached w.connect;
    download = record {
      manager = Download.new_manager cfg.hf cfg.models (w.read path);
      tasks = [];
    };
    rebuild = record { manager = Rebuild.new_manager w.builds; claims = 0; tasks = [] };
  }

  -- From the reaper's return on, given the worker's state and what its launch said.
  unfoldable pub listen :
      StartWorld V F S → Text → Config → S × List ℕ → WorkerState V F → Boot V F S
  unfolding daemon_of llama_build_info
  listen w path cfg (machine, reaped) st = elim w.bind [
    | some e ↦ failed (not_bound e) (w.poller st)
    | none ↦
        serving cfg (daemon_of w path cfg (w.poller st))
          (llama_build_info w.commit w.branch cfg.llama.binary) machine reaped
  ]

  unfoldable pub launched :
      StartWorld V F S → Text → Config → S × List ℕ → WorkerState V F × Spawned → Boot V F S
  unfolding listen
  launched w path cfg r (st, already) = listen w path cfg r st
  launched w path cfg r (st, waits_for pid) = listen w path cfg r st
  launched w path cfg r (st, err e) = failed (not_spawned e) st

module _ {V F S : Type 0} (os : Os S) (self : ℕ) where
  -- The worker is launched only once the reaper has run.
  unfoldable pub configured : StartWorld V F S → Text → Config → Boot V F S
  unfolding launched reap_legacy_llama autostarted
  configured w path cfg =
      let r = reap_legacy_llama os self w.machine in
      elim (autostarted cfg.models) [
        | none ↦ listen w path cfg r State.new
        | some m ↦ launched w path cfg r (spawn w.launch m State.new)
      ]

  unfoldable pub boot : StartWorld V F S → Boot V F S
  unfolding configured load
  boot w =
      let path = or_else (lit "config.toml") w.config_var in
      elim (load w.home (w.read path) w.parse) [
        | Loaded.err e ↦ failed (bad_config e) State.new
        | Loaded.ok cfg ↦ configured w path cfg
      ]

-- How `main` ends: with an error at the start, a panic of a job, or cleanly, with the signals that
-- the worker was sent. It lingers if a connection that is open at the signal never closes.
pub data Exit (V F : Type 0) : Type 0 where
  not_started : StartError → WorkerState V F → Exit V F
  panicked lingers : Exit V F
  stopped : Site V F → List Signal → Exit V F

module _ {V F : Type 0} where
  abbrev pub put_down : Site V F → Site V F
  put_down s = record s { daemon = record (s.daemon) { shutting_down = true } }

  -- `sup.stop()`, once the requests in flight are served.
  unfoldable pub stop_worker : StopEnv V F → Site V F → Exit V F
  stop_worker halt s =
      let (st, sent) = stop_inner halt s.daemon.worker in
      stopped (record s { daemon = record (s.daemon) { worker = st } }) sent

module _ {V F C S : Type 0} (j : Json V F) (decode : List ℕ → Text) (fl : Floats F)
    (servers : ℕ → Server V F) (alphanumeric : ℕ → Bool) (file_stem : Text → Option Text)
    (parse_f64 : Text → Option F) (base : Text) (os : Os S) (self : ℕ) where
  -- What happens up to the signal, and from then until the last connection closes, if it does.
  unfoldable pub drained :
      Config → Option (List (Event V F C)) → StopEnv V F → Option (Site V F) → Exit V F
  unfolding stop_worker run_system
  drained cfg draining halt none = panicked
  drained cfg none halt (some s) = lingers
  drained cfg (some draining) halt (some s) =
      elim (run_system j decode fl servers alphanumeric file_stem parse_f64 cfg.worker base draining
        (put_down s)) [ none ↦ panicked | some s' ↦ stop_worker halt s' ]

  unfoldable pub serve_until :
      List (Event V F C) → Option (List (Event V F C)) → StopEnv V F → Boot V F S → Exit V F
  unfolding drained
  serve_until es draining halt (failed e st) = not_started e st
  serve_until es draining halt (serving cfg d info machine reaped) = drained cfg draining halt (
      run_system j decode fl servers alphanumeric file_stem parse_f64 cfg.worker base es
        (record { daemon = d; flights = [] }))

  unfoldable pub main :
      StartWorld V F S → List (Event V F C) → Option (List (Event V F C)) → StopEnv V F → Exit V F
  unfolding boot serve_until
  main w es draining halt = serve_until es draining halt (boot os self w)
