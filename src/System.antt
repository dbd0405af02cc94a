-- ===== src/System.antt =====
-- The daemon as a whole: every request and every end of a task, one after the other.
pub mod Parts
pub mod Invariants
pub mod ShuttingDown
use llm_ctl.Base.{ℕ, Option, none, some, Bool, List, [], ◌∷◌}
use llm_ctl.Base.Text.{Text}
use llm_ctl.External.{Json, Floats}
use llm_ctl.Config.{Worker}
use llm_ctl.Supervisor.Run as Supervisor
use llm_ctl.Supervisor.Health.{poll_slots}
use llm_ctl.Store.Service.{Server, Database, service}
use llm_ctl.Proxy.Http.{Request}
use llm_ctl.Proxy.BuildTurn.{Asked}
use llm_ctl.Proxy.Stream.{Round}
use llm_ctl.Proxy.Completion.{Progress}
use llm_ctl.Proxy.Exclusion.History as History
use llm_ctl.Jobs.Download as Download
use llm_ctl.Jobs.Rebuild as Rebuild
use llm_ctl.Daemon.{Daemon, app_of, put_app}
use llm_ctl.Api.Messages.{ApiRequest, ApiWorld}
use llm_ctl.Api.{serve}

-- The daemon, with the completions under way, and the tasks of their streams.
pub record Site (V F : Type 0) : Type 0 where
  pub daemon : Daemon V F
  pub flights : List (Progress V F)

pub data Event (V F C : Type 0) : Type 0 where
  calls : ApiRequest V → ApiWorld V F C → Event V F C
  proxies : History.Event F → Event V F C  -- a request to the proxy, or what goes on with one
  rebuilds : Rebuild.Event F → Event V F C  -- its start's parts, and its task's end
  downloads : Download.Fetched F → Event V F C
  supervises : Supervisor.Op → Event V F C
  scrapes : Option V → Option Text → Event V F C  -- what the poller reads of slots and metrics

module _ {V F : Type 0} where
  abbrev pub front_of : Site V F → History.Front (Database V F) V F
  front_of s = record { app = app_of s.daemon; flights = s.flights }

  abbrev pub put_front : History.Front (Database V F) V F → Site V F → Site V F
  put_front f s = record { daemon = put_app f.app s.daemon; flights = f.flights }

  abbrev put_download : Site V F → Option (Download.Site F) → Option (Site V F)
  put_download s none = none
  put_download s (some d) = some (record s { daemon = record (s.daemon) { download = d } })

  abbrev put_rebuild : Site V F → Option (Rebuild.Site F) → Option (Site V F)
  put_rebuild s none = none
  put_rebuild s (some r) = some (record s { daemon = record (s.daemon) { rebuild = r } })

  abbrev put_supervisor : Supervisor.Supervisor V F → Site V F → Site V F
  put_supervisor u s = record s {
    daemon = record (s.daemon) { worker = u.state; shutting_down = u.shutting_down };
  }

module _ {V F C : Type 0} (j : Json V F) (decode : List ℕ → Text) (fl : Floats F)
    (servers : ℕ → Server V F) (alphanumeric : ℕ → Bool) (file_stem : Text → Option Text)
    (parse_f64 : Text → Option F) (worker : Worker) (base : Text) where
  -- `none` stands for a panic of a job's task.
  unfoldable pub step : Event V F C → Site V F → Option (Site V F)
  step (calls q w) s = some (record s { daemon = (serve j fl w q s.daemon).0 })
  step (proxies e) s =
      some (put_front (History.step j decode fl (service fl servers) base e (front_of s)) s)
  step (rebuilds e) s = put_rebuild s (Rebuild.step e s.daemon.rebuild)
  step (downloads f) s =
      put_download s (Download.step alphanumeric file_stem (Download.ended f) s.daemon.download)
  step (supervises o) s = some (
      put_supervisor
        (Supervisor.step worker o
          (record { state = s.daemon.worker; shutting_down = s.daemon.shutting_down }))
        s)
  step (scrapes slots metrics) s = some (record s {
    daemon = record (s.daemon) {
      worker = poll_slots parse_f64 slots metrics (λ st. st) s.daemon.worker;
    };
  })

  unfoldable pub run_system : List (Event V F C) → Site V F → Option (Site V F)
  unfolding step
  run_system [] s = some s
  run_system (e ∷ es) s = elim (step e s) [ none ↦ none | some s' ↦ run_system es s' ]
