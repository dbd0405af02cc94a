-- ===== src/Api/Writes.antt =====
-- src/main.rs: the handlers that change the daemon's state.
use llm_ctl.Base.{ℕ, Option, none, some, List, [], ◌∷◌, ◌++◌, if◌then◌else◌}
use llm_ctl.Base.Text.{Text, lit, is_empty, text_eq}
use llm_ctl.External.{Json, Floats}
use llm_ctl.Config.{Model}
use llm_ctl.Supervisor.Lifecycle.{
  SpawnError, Spawned, already, waits_for, err, start_model, stop_inner,
}
use llm_ctl.Store.Tables.{Tables}
use llm_ctl.Store.Seed.{record_fake_turn}
use llm_ctl.Proxy.BuildTurn.{and_then}
use llm_ctl.Jobs.Download as Download
use llm_ctl.Jobs.Rebuild as Rebuild
use llm_ctl.Daemon.{Daemon, models}
use llm_ctl.Api.Messages.{Reply, ApiWorld, reply, refuse, done, started, downloading, counted}

-- `ms.iter().find(|m| m.id == id)`.
unfoldable pub find_model : Text → List Model → Option Model
find_model id [] = none
find_model id (m ∷ ms) = if text_eq m.id id then some m else find_model id ms

unfoldable pub non_empty : Option Text → Option Text
non_empty none = none
non_empty (some s) = if is_empty s then none else some s

module _ {V F : Type 0} where
  unfoldable pub worker_started : (SpawnError → Text) → Text → Spawned → Reply V F
  worker_started text id already = reply 200 (started id)
  worker_started text id (waits_for pid) = reply 200 (started id)
  worker_started text id (err e) = refuse 502 (text e)

module _ {V F C : Type 0} (j : Json V F) (fl : Floats F) (w : ApiWorld V F C) where
  unfoldable pub handle_model_start : Text → Daemon V F → Daemon V F × Reply V F
  unfolding find_model worker_started
  handle_model_start id d = elim (find_model id (models d)) [
    | none ↦ (d, refuse 404 (lit "model '" ++ (id ++ lit "' not found")))
    | some m ↦
        let (worker', r, sent) = start_model w.switch w.halt w.launch m d.worker in
        (record d { worker = worker' }, worker_started w.spawn_text m.id r)
  ]

  unfoldable pub handle_model_stop : Daemon V F → Daemon V F × Reply V F
  handle_model_stop d = (record d { worker = (stop_inner w.halt d.worker).0 }, reply 200 done)

  unfoldable pub download_reply : Text → Option Text → Reply V F
  download_reply repo none = reply 200 (downloading repo)
  download_reply repo (some e) = refuse 409 e

  unfoldable pub handle_hf_download :
      Option Download.HfDownloadReq → Daemon V F → Daemon V F × Reply V F
  unfolding download_reply
  handle_hf_download none d = (d, refuse 422 [])
  handle_hf_download (some req) d =
      let r = Download.start w.hf_now req w.hf_spawn d.download.manager in
      (
        record d { download = Download.started req.repo d.download.tasks r },
        download_reply req.repo r.1,
      )

  unfoldable pub handle_rebuild_start : Daemon V F → Daemon V F × Reply V F
  handle_rebuild_start d = elim (Rebuild.claim w.rebuild_now d.rebuild.manager) [
    | none ↦ (d, refuse 409 (lit "a rebuild is already running"))
    | some m ↦ (
      record d {
        rebuild = record s { manager = Rebuild.note_before w.sha m; tasks = w.sha ∷ s.tasks };
      },
      reply 200 done,
    )
  ]
    where
      s : Rebuild.Site F
      s = d.rebuild

  unfoldable pub handle_session_active : Option V → Daemon V F → Daemon V F × Reply V F
  unfolding non_empty
  handle_session_active none d = (d, refuse 400 [])
  handle_session_active (some body) d = (
    record d { active_session = non_empty (and_then (j.get body "id") j.as_str) },
    reply 200 done,
  )

  unfoldable pub test_counted : Daemon V F → Tables V F × Option ℕ → Daemon V F × Reply V F
  test_counted d (t, none) =
      (record d { database = record (d.database) { tables = t } }, refuse 502 w.turn_error)
  test_counted d (t, some n) =
      (record d { database = record (d.database) { tables = t } }, reply 200 (counted n))

  unfoldable pub handle_session_test : Daemon V F → Daemon V F × Reply V F
  unfolding test_counted
  handle_session_test d = elim w.connect [
    | some e ↦ (d, refuse 502 e)
    | none ↦ elim w.migrate [
      | some e ↦ (d, refuse 502 e)
      | none ↦ test_counted d (
          record_fake_turn fl w.server w.counts (lit "m3-test-session") (lit "lfm2.5-8b")
            d.database.tables)
    ]
  ]
