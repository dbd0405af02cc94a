-- ===== src/Startup/Shutdown.antt =====
-- The daemon comes up sound, stays so, and leaves the worker stopped.
use llm_ctl.Base.{
  ℕ, Bool, ◌≡◌, refl, Option, none, some, true, Option-cases, inl, inr, List, arith, [],
}
use llm_ctl.Base.Text.{Text, lit}
use llm_ctl.External.{Json, Floats}
use llm_ctl.Config.{Config, Loaded, load}
use llm_ctl.Supervisor.State as State
use llm_ctl.Supervisor.State.{WorkerState, WorkerStatus}
use llm_ctl.Supervisor.Lifecycle.{StopEnv, Signal, child, Spawned, err, spawn, stop_inner}
use llm_ctl.Supervisor.Run.{Op, attempts}
use llm_ctl.Supervisor.Restarts.{attempts_down}
use llm_ctl.Supervisor.Stops.{stop_inner-IsStopped}
use llm_ctl.Store.Service.{Server}
use llm_ctl.Proxy.Exclusion.History as History
use llm_ctl.Proxy.Storekeeping.Consistency.{IsOrderly}
use llm_ctl.Jobs.{is_running}
use llm_ctl.Jobs.Download.Single as Downloads
use llm_ctl.Jobs.Download.Registry.{UniqueIds}
use llm_ctl.Jobs.Rebuild.Single as Rebuilds
use llm_ctl.Reap.{Os}
use llm_ctl.System.{Site, Event}
use llm_ctl.System.Invariants.{IsSound, supervised, run_system-IsSound}
use llm_ctl.System.ShuttingDown.{Down, run_system-Down}
use llm_ctl.Startup.{
  StartWorld, Boot, serving, LlamaInfo, llama_build_info, stopped, or_else, autostarted, daemon_of,
  listen, launched, configured, boot, put_down, stop_worker, drained, serve_until, main,
}

module _ {V F S : Type 0} (os : Os S) (self : ℕ) (w : StartWorld V F S) (path : Text)
    (cfg : Config) where
  -- The daemon serves, with a worker in some state.
  abbrev Serves : Boot V F S → Type 0
  Serves b =
      (st : WorkerState V F) × (info : LlamaInfo) × (machine : S) × (reaped : List ℕ) × (b
        ≡ serving cfg (daemon_of w path cfg st) info machine reaped)

  listen-Serves :
      (r : S × List ℕ) (st : WorkerState V F) → w.bind ≡ none → Serves (listen w path cfg r st)
  unfolding listen
  listen-Serves (machine, reaped) st bound = (
    w.poller st,
    llama_build_info w.commit w.branch cfg.llama.binary,
    machine,
    reaped,
    rw (bound, listen),
  )

  spawn-ran :
      (p : Option ℕ) (m : _)
      → w.launch.launch ≡ child p
      → (e : _) → (spawn w.launch m State.new).1 ≡ err e
      → ⊥
  unfolding spawn State.new
  spawn-ran p m l e h = ground arith

  launched-Serves :
      (r : S × List ℕ) (x : WorkerState V F × Spawned)
      → ((e : _) → x.1 ≡ err e → ⊥)
      → w.bind ≡ none
      → Serves (launched w path cfg r x)
  unfolding launched
  launched-Serves r (st, Spawned.already) ran bound = listen-Serves r st bound
  launched-Serves r (st, Spawned.waits_for pid) ran bound = listen-Serves r st bound
  launched-Serves r (st, err e) ran bound = absurd (ran e refl)

  configured-Serves :
      (p : Option ℕ)
      → w.launch.launch ≡ child p
      → w.bind ≡ none
      → Serves (configured os self w path cfg)
  unfolding configured
  configured-Serves p l bound = elim (Option-cases (autostarted cfg.models)) [
    | inl idle ↦ rw (idle, configured) (listen-Serves _ _ bound)
    | inr (m, wanted) ↦ rw (wanted, configured) (launched-Serves _ _ (spawn-ran p m l) bound)
  ]

module _ {V F S : Type 0} (os : Os S) (self : ℕ) where
  boot-Serves :
      (w : StartWorld V F S) (cfg : Config) (p : Option ℕ)
      → let path = or_else (lit "config.toml") w.config_var in
        load w.home (w.read path) w.parse ≡ Loaded.ok cfg
        → w.launch.launch ≡ child p
        → w.bind ≡ none
        → Serves os self w path cfg (boot os self w)
  unfolding boot
  boot-Serves w cfg p loaded l bound =
      rw (loaded, boot) (configured-Serves os self w _ cfg p l bound)

module _ {V F : Type 0} (j : Json V F) (decode : List ℕ → Text) (fl : Floats F)
    (servers : ℕ → Server V F) (base : Text) where
  daemon_of-IsSound :
      {S : Type 0} (w : StartWorld V F S) (path : Text) (cfg : Config) (st : WorkerState V F)
      → IsOrderly fl w.database
      → UniqueIds cfg.models
      → IsSound j decode fl servers base (record { daemon = daemon_of w path cfg st; flights = [] })
  unfolding daemon_of is_running History.holders
  daemon_of-IsSound w path cfg st o u = record {
    exclusive = refl;
    fit = record {
      orderly = o;
      downloads = record { single = Downloads.vacant refl refl; unique = u };
      rebuilds = Rebuilds.settled refl refl;
    };
  }

  put_down-IsSound :
      (s : Site V F)
      → IsSound j decode fl servers base s
      → IsSound j decode fl servers base (put_down s)
  put_down-IsSound s h = supervised j decode fl servers base s s.daemon.worker true h

  -- The end of a clean run: the daemon is sound, its worker stopped, and it is shutting down.
  pub record IsOver (s : Site V F) : Type 0 where
    pub sound : IsSound j decode fl servers base s
    pub no_pid : s.daemon.worker.pid ≡ none
    pub status : s.daemon.worker.status ≡ WorkerStatus.stopped
    pub down : s.daemon.shutting_down ≡ true

  stop_worker-IsOver :
      (halt : StopEnv V F) (s : Site V F)
      → IsSound j decode fl servers base s
      → s.daemon.shutting_down ≡ true
      → (s' : Site V F) × (sent : List Signal) × (stop_worker halt s ≡ stopped s' sent) × IsOver s'
  unfolding stop_worker
  stop_worker-IsOver halt s h d =
      let (none_left, is_stopped, _, _) = stop_inner-IsStopped halt s.daemon.worker 0 in
      (
        _,
        _,
        refl,
        record {
          sound =
              supervised j decode fl servers base s (stop_inner halt s.daemon.worker).0
                s.daemon.shutting_down h;
          no_pid = none_left;
          status = is_stopped;
          down = d;
        },
      )

module _ {V F C S : Type 0} (j : Json V F) (decode : List ℕ → Text) (fl : Floats F)
    (servers : ℕ → Server V F) (alphanumeric : ℕ → Bool) (file_stem : Text → Option Text)
    (parse_f64 : Text → Option F) (base : Text) (os : Os S) (self : ℕ) where
  drained-IsOver :
      (cfg : Config) (draining : List (Event V F C)) (halt : StopEnv V F) (s : Site V F)
      → IsSound j decode fl servers base s
      → (s' : Site V F) × (sent : List Signal) × (drained j decode fl servers alphanumeric file_stem
            parse_f64 base os self cfg
            (some draining)
            halt
            (some s)
          ≡ stopped s' sent)
        × IsOver j decode fl servers base s'
  unfolding drained
  drained-IsOver cfg draining halt s h =
      let k = put_down-IsSound j decode fl servers base s h in
      let (s₁, ran, sound) =
        run_system-IsSound j decode fl servers alphanumeric file_stem parse_f64 cfg.worker base
          draining (put_down s) k in
      let down : Down (some s₁) = rw ran at (
        run_system-Down j decode fl servers alphanumeric file_stem parse_f64 base cfg.worker
          draining (put_down s) k refl) in
      let (s', sent, ends, over) = stop_worker-IsOver j decode fl servers base halt s₁ sound down in
      (s', sent, rw (ran, drained) ends, over)

  -- If the configuration loads and no two of its models share an id, the model to start, if any, can
  -- be launched, the address can be bound, the tables are orderly, and the connections that are open
  -- when the signal to shut down comes all close at some time, then `main` ends cleanly, whatever
  -- happens before the signal and from it until then: no task of a job panics, the worker is stopped
  -- with no pid, the daemon is sound, and no run restarts the worker any more.
  pub main-IsOver :
      (w : StartWorld V F S) (cfg : Config) (p : Option ℕ) (es draining : List (Event V F C))
      (halt : StopEnv V F) (ops : List Op)
      → load w.home (w.read (or_else (lit "config.toml") w.config_var)) w.parse ≡ Loaded.ok cfg
      → UniqueIds cfg.models
      → w.launch.launch ≡ child p
      → w.bind ≡ none
      → IsOrderly fl w.database
      → (s' : Site V F) × (sent : List Signal) × (main j decode fl servers alphanumeric file_stem
            parse_f64 base os self w es
            (some draining)
            halt
          ≡ stopped s' sent)
        × IsOver j decode fl servers base s'
        × (attempts cfg.worker ops
              (record { state = s'.daemon.worker; shutting_down = s'.daemon.shutting_down })
            ≡ 0)
  unfolding main serve_until
  main-IsOver w cfg p es draining halt ops loaded u l bound o =
      let (st, info, machine, reaped, up) = boot-Serves os self w cfg p loaded l bound in
      let start : Site V F = record {
        daemon = daemon_of w (or_else (lit "config.toml") w.config_var) cfg st;
        flights = [];
      } in
      let (s₁, ran, sound) =
        run_system-IsSound j decode fl servers alphanumeric file_stem parse_f64 cfg.worker base es
          start (daemon_of-IsSound j decode fl servers base w _ cfg st o u) in
      let (s', sent, ends, over) = drained-IsOver cfg draining halt s₁ sound in
      (
        s',
        sent,
        rw (up, main, serve_until) (rw (ran, serve_until) ends),
        over,
        attempts_down cfg.worker ops _ over.down,
      )
