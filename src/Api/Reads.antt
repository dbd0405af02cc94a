-- ===== src/Api/Reads.antt =====
-- src/main.rs: the handlers that only read the daemon's state.
use llm_ctl.Base.{ℕ, Option, none, some, Bool, true, false, ◌&&◌, List, [], map, if◌then◌else◌}
use llm_ctl.Base.Int.{pos}
use llm_ctl.Base.Text.{Text, lit, is_empty, trim}
use llm_ctl.External.{Json, Floats}
use llm_ctl.Supervisor.Health.{list}
use llm_ctl.Store.Tables.{SessionRow, list_sessions}
use llm_ctl.Store.Service.{Database}
use llm_ctl.Jobs.Download.Files.{Listed, files, error, list_files}
use llm_ctl.Pve as Pve
use llm_ctl.Db as Db
use llm_ctl.Daemon.{Daemon, models, store_of}
use llm_ctl.Api.Messages.{
  Health, Reply, ApiWorld, reply, refuse, containers, postgres_up, postgres_down, session_rows,
  file_rows, rolled_up,
}

abbrev pub trimmed : Option Text → Text
trimmed none = []
trimmed (some r) = trim r

module _ {V F C : Type 0} (j : Json V F) (fl : Floats F) (w : ApiWorld V F C) where
  unfoldable pub handle_db : Reply V F
  handle_db = elim w.connect [
    | some e ↦ reply 503 (postgres_down e)
    | none ↦ elim w.migrate [
      | some e ↦ reply 503 (postgres_down e)
      | none ↦ elim w.ping [ some e ↦ reply 503 (postgres_down e) | none ↦ reply 200 postgres_up ]
    ]
  ]

  unfoldable pub listed : Database V F → List (SessionRow F)
  listed store = list_sessions fl w.newest_first 20 store.tables.sessions

  unfoldable pub handle_sessions : Daemon V F → Reply V F
  unfolding listed
  handle_sessions d = elim (store_of d.has_store d.database) [
    | none ↦ refuse 503 (lit "store unavailable")
    | some store ↦ elim w.list_error [
      | some e ↦ refuse 502 e
      | none ↦ reply 200 (session_rows (listed store))
    ]
  ]

  unfoldable pub handle_pve : Reply V F
  handle_pve = elim (Pve.list_containers w.pve w.cfg) [
    | Pve.ok cts ↦ reply 200 (containers cts)
    | Pve.err e ↦ refuse 502 (w.pve_error e)
  ]

  unfoldable pub file_row : Text × ℕ → Text × F
  file_row (path, size) = (path, w.round (fl.div (fl.of_i64 (pos size)) (fl.of_i64 (pos 1000000))))

  unfoldable pub files_reply : Text → Listed → Reply V F
  unfolding file_row
  files_reply repo (files fs) = reply 200 (file_rows repo (map file_row fs))
  files_reply repo (error e) = refuse 502 e

  unfoldable pub handle_hf_files : Option Text → Reply V F
  unfolding files_reply trim
  handle_hf_files query =
      let repo = trimmed query in
      if is_empty repo
      then refuse 400 (lit "missing repo query param")
      else files_reply repo (list_files j w.sort repo w.listing)

  unfoldable pub is_ok : {A : Type 0} → Pve.Result A → Bool
  is_ok (Pve.ok a) = true
  is_ok (Pve.err e) = false

  unfoldable pub health_of : Daemon V F → Health V F
  unfolding is_ok Db.probe
  health_of d = record {
    model = d.worker.model_id;
    pid = d.worker.pid;
    status = d.worker.status;
    slots = d.worker.last_slots;
    metrics = d.worker.last_metrics;
    pve_reachable = w.pve_in_time && is_ok (Pve.list_containers w.pve w.cfg);
    postgres_reachable = Db.is_up (Db.probe w.db w.cfg.db.pgurl);
  }

  unfoldable pub sessions_or_none : Daemon V F → List (SessionRow F)
  unfolding listed
  sessions_or_none d = elim (store_of d.has_store d.database) [
    | none ↦ []
    | some store ↦ elim w.list_error [ some e ↦ [] | none ↦ listed store ]
  ]

  unfoldable pub handle_status_rollup : Daemon V F → Reply V F
  unfolding health_of sessions_or_none
  handle_status_rollup d = reply 200 (
      rolled_up (record {
        health = health_of d;
        last_request_at = d.worker.last_request_at;
        last_turn = d.worker.last_turn;
        models = list (models d) d.worker;
        sessions = sessions_or_none d;
        download = d.download.manager.job;
        rebuild = d.rebuild.manager.job;
        builds = d.rebuild.manager.history;
        llama = w.llama;
        stats = w.stats;
      }))
