-- ===== src/Daemon.antt =====
-- src/main.rs, `AppState`: the parts of the daemon's state that change, in one record.
use llm_ctl.Base.{Option, none, some, Bool, true, false, List}
use llm_ctl.Base.Text.{Text}
use llm_ctl.Config.{Model}
use llm_ctl.Supervisor.State.{WorkerState}
use llm_ctl.Store.Service.{Database}
use llm_ctl.Proxy.App.{App}
use llm_ctl.Jobs.Download as Download
use llm_ctl.Jobs.Rebuild as Rebuild

-- The registry of models is the download manager's, which shares it. `database` is what the server
-- holds, also where the daemon came up without it and `has_store` is false.
pub record Daemon (V F : Type 0) : Type 0 where
  pub worker : WorkerState V F
  pub shutting_down : Bool
  pub busy : Bool
  pub active_session : Option Text
  pub database : Database V F
  pub has_store : Bool
  pub download : Download.Site F
  pub rebuild : Rebuild.Site F

module _ {V F : Type 0} where
  abbrev pub models : Daemon V F → List Model
  models d = d.download.manager.models

  abbrev pub store_of : Bool → Database V F → Option (Database V F)
  store_of true db = some db
  store_of false db = none

  -- The proxy's part of the state.
  abbrev pub app_of : Daemon V F → App (Database V F) V F
  app_of d = record {
    worker = d.worker;
    busy = d.busy;
    active_session = d.active_session;
    store = store_of d.has_store d.database;
  }

  abbrev pub stored : Database V F → Option (Database V F) → Database V F
  stored db none = db
  stored db (some db') = db'

  -- The state once the proxy has run on its part.
  abbrev pub put_app : App (Database V F) V F → Daemon V F → Daemon V F
  put_app a d = record d {
    worker = a.worker;
    busy = a.busy;
    active_session = a.active_session;
    database = stored d.database a.store;
  }
