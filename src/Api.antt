-- ===== src/Api.antt =====
-- src/main.rs: the control API under /api, from the route on, with its guard.
pub mod Messages
pub mod Writes
pub mod Reads
pub mod Guard
pub mod Contract
use llm_ctl.Base.{
  ℕ, Option, none, some, Bool, true, false, not, ◌&&◌, List, [], ◌∷◌, ◌++◌, map, if◌then◌else◌,
}
use llm_ctl.Base.Int.{pos}
use llm_ctl.Base.Text.{Text, lit, is_empty, text_eq, trim}
use llm_ctl.External.{Json, Floats}
use llm_ctl.Config.{Model, Config}
use llm_ctl.Supervisor.State.{WorkerState, WorkerStatus, LastTurn, is_text}
use llm_ctl.Supervisor.Lifecycle.{
  SpawnEnv, StopEnv, SpawnError, Spawned, already, waits_for, err, start_model, stop_inner,
}
use llm_ctl.Supervisor.Health.{ModelRow, list}
use llm_ctl.Store.Tables.{Session, SessionRow, Tables, list_sessions}
use llm_ctl.Store.Service.{Server, Database}
use llm_ctl.Store.Seed.{record_fake_turn}
use llm_ctl.Proxy.Http.{Method, get, head, post, other, is_post, header}
use llm_ctl.Proxy.BuildTurn.{and_then}
use llm_ctl.Jobs.Download as Download
use llm_ctl.Jobs.Download.Files.{Listing, Listed, files, error, list_files}
use llm_ctl.Jobs.Rebuild as Rebuild
use llm_ctl.Stats.{HostStats}
use llm_ctl.Pve as Pve
use llm_ctl.Daemon.{Daemon, models, store_of}
use llm_ctl.Api.Messages.{
  Endpoint, Access, access, takes, Health, Rollup, Answer, Reply, ApiRequest, ApiWorld, reply,
  refuse, message, done, started, downloading, containers, postgres_up, postgres_down, counted,
  session_rows, model_rows, download_job, rebuild_job, file_rows, healthy, rolled_up,
}
use llm_ctl.Api.Messages.{
  health, pve, db, session_test, sessions, models_list, model_stop, model_start, hf_download,
  hf_files, rebuild, status_rollup, session_active,
}
use llm_ctl.Api.Writes.{
  handle_model_start, handle_model_stop, download_reply, handle_hf_download, handle_rebuild_start,
  handle_session_active, test_counted, handle_session_test,
}
use llm_ctl.Api.Reads.{
  handle_db, listed, handle_sessions, handle_pve, file_row, files_reply, handle_hf_files, is_ok,
  health_of, sessions_or_none, handle_status_rollup,
}

-- `req.headers().get("x-llm-ctl") == Some("1")`.
unfoldable pub ctl_ok : List (Text × Text) → Bool
ctl_ok hs = is_text (header (lit "x-llm-ctl") hs) (lit "1")

module _ {V F C : Type 0} (j : Json V F) (fl : Floats F) (w : ApiWorld V F C) where
  -- What a route's GET handler does.
  unfoldable pub read : ApiRequest V → Endpoint → Daemon V F → Daemon V F × Reply V F
  unfolding health_of handle_pve handle_db handle_session_test handle_sessions handle_hf_files
      handle_status_rollup
  read q health d = (d, reply 200 (healthy (health_of j fl w d)))
  read q pve d = (d, handle_pve j fl w)
  read q db d = (d, handle_db j fl w)
  read q session_test d = handle_session_test j fl w d
  read q sessions d = (d, handle_sessions j fl w d)
  read q models_list d = (d, reply 200 (model_rows (list (models d) d.worker)))
  read q hf_download d = (d, reply 200 (download_job d.download.manager.job))
  read q hf_files d = (d, handle_hf_files j fl w q.repo)
  read q rebuild d = (d, reply 200 (rebuild_job d.rebuild.manager.job))
  read q status_rollup d = (d, handle_status_rollup j fl w d)
  read q e d = (d, refuse 405 [])

  -- What a route's POST handler does.
  unfoldable pub write : ApiRequest V → Endpoint → Daemon V F → Daemon V F × Reply V F
  unfolding handle_model_start handle_model_stop handle_hf_download handle_rebuild_start
      handle_session_active
  write q (model_start id) d = handle_model_start j fl w id d
  write q model_stop d = handle_model_stop j fl w d
  write q hf_download d = handle_hf_download j fl w q.download d
  write q rebuild d = handle_rebuild_start j fl w d
  write q session_active d = handle_session_active j fl w q.body d
  write q e d = (d, refuse 405 [])

  unfoldable pub run_handler : ApiRequest V → Daemon V F → Daemon V F × Reply V F
  unfolding read write
  run_handler q d = if is_post q.method then write q q.endpoint d else read q q.endpoint d

  -- `require_ctl_header`, before the handler of a route that takes the method.
  unfoldable pub require_ctl_header : ApiRequest V → Daemon V F → Daemon V F × Reply V F
  unfolding run_handler ctl_ok
  require_ctl_header q d =
      if is_post q.method && not (ctl_ok q.headers)
      then (d, refuse 403 (lit "missing X-LLM-CTL header"))
      else run_handler q d

  unfoldable pub serve : ApiRequest V → Daemon V F → Daemon V F × Reply V F
  unfolding require_ctl_header access takes
  serve q d =
      if takes (access q.endpoint) q.method then require_ctl_header q d else (d, refuse 405 [])
