-- ===== src/Api/Contract.antt =====
-- What the panel may rely on: the payload of each route, or an error.
use llm_ctl.Base.{
  ℕ, ◌≤◌, ◌<◌, ◌≡◌, ◌⊎◌, refl, inl, inr, arith, Option, none, some, Bool, List, true, false, not,
  ◌&&◌, ltb, leb, Bool-cases, Option-cases,
}
use llm_ctl.Base.Text.{Text, is_empty}
use llm_ctl.External.{Json, Floats}
use llm_ctl.Store.Tables.{Tables}
use llm_ctl.Supervisor.Lifecycle.{Spawned, already, waits_for, err}
use llm_ctl.Proxy.Http.{is_post}
use llm_ctl.Jobs.Download.Files.{Listed, files, error}
use llm_ctl.Jobs.Download as Download
use llm_ctl.Jobs.Rebuild as Rebuild
use llm_ctl.Pve as Pve
use llm_ctl.Daemon.{Daemon, models, store_of}
use llm_ctl.Api.Messages.{
  Endpoint, Answer, Reply, reply, ApiRequest, ApiWorld, access, takes, message, done, started,
  downloading, containers, postgres_up, postgres_down, counted, session_rows, model_rows,
  download_job, rebuild_job, file_rows, healthy, rolled_up,
}
use llm_ctl.Api.Messages.{
  health, pve, db, session_test, sessions, models_list, model_stop, model_start, hf_download,
  hf_files, rebuild, status_rollup, session_active,
}
use llm_ctl.Api.Writes.{
  find_model, worker_started, handle_model_start, handle_model_stop, download_reply,
  handle_hf_download, handle_rebuild_start, handle_session_active, test_counted,
  handle_session_test,
}
use llm_ctl.Api.Reads.{
  trimmed, handle_db, handle_sessions, handle_pve, files_reply, handle_hf_files,
  handle_status_rollup,
}
use llm_ctl.Api.{ctl_ok, read, write, run_handler, require_ctl_header, serve}

module _ {V F : Type 0} where
  -- The payload that a route answers a GET with.
  abbrev pub got : Endpoint → Answer V F → Bool
  got health (healthy h) = true
  got pve (containers cts) = true
  got db postgres_up = true
  got session_test (counted n) = true
  got sessions (session_rows rows) = true
  got models_list (model_rows rows) = true
  got hf_download (download_job job) = true
  got hf_files (file_rows repo rows) = true
  got rebuild (rebuild_job job) = true
  got status_rollup (rolled_up r) = true
  got _ a = false

  -- The payload that a route answers a POST with.
  abbrev pub posted : Endpoint → Answer V F → Bool
  posted (model_start id) (started m) = true
  posted model_stop done = true
  posted hf_download (downloading repo) = true
  posted rebuild done = true
  posted session_active done = true
  posted _ a = false

  abbrev pub payload : Bool → Endpoint → Answer V F → Bool
  payload true = posted
  payload false = got

  abbrev pub is_error : Answer V F → Bool
  is_error (message e) = true
  is_error (postgres_down e) = true
  is_error _ = false

  -- A payload with the status 200, or an error with a status from 400 on.
  unfoldable pub Fits : (Answer V F → Bool) → Reply V F → Type 0
  Fits p r =
      ((r.status ≡ 200) × (p r.answer ≡ true))
      ⊎ ((400 ≤ r.status) × (r.status < 600) × (is_error r.answer ≡ true))

module _ {V F C : Type 0} (j : Json V F) (fl : Floats F) (w : ApiWorld V F C) where
  refused :
      (p : Answer V F → Bool) (status : ℕ) (a : Answer V F)
      → (leb 400 status && ltb status 600) ≡ true
      → is_error a ≡ true
      → Fits p (reply status a)
  unfolding Fits
  refused p status a failing e = inr (ground arith, ground arith, e)

  accepted : (p : Answer V F → Bool) (a : Answer V F) → p a ≡ true → Fits p (reply 200 a)
  unfolding Fits
  accepted p a e = inl (refl, e)

  test_counted-Fits :
      (d : Daemon V F) (x : Tables V F × Option ℕ)
      → Fits (got session_test) (test_counted j fl w d x).1
  unfolding test_counted
  test_counted-Fits d (t, none) = refused _ _ _ refl refl
  test_counted-Fits d (t, some n) = accepted _ _ refl

  session_test-Fits : (d : Daemon V F) → Fits (got session_test) (handle_session_test j fl w d).1
  unfolding handle_session_test
  session_test-Fits d = elim (Option-cases w.connect) [
    | inl up ↦ elim (Option-cases w.migrate) [
      | inl fine ↦ rw (up, fine, handle_session_test) (test_counted-Fits d _)
      | inr (e, failed) ↦ rw (up, failed, handle_session_test) (refused _ _ _ refl refl)
    ]
    | inr (e, failed) ↦ rw (failed, handle_session_test) (refused _ _ _ refl refl)
  ]

  pve-Fits : Fits (got pve) (handle_pve j fl w)
  unfolding handle_pve
  pve-Fits = go (Pve.list_containers w.pve w.cfg) refl
    where
      go :
          (r : Pve.Result (List Pve.Lxc))
          → Pve.list_containers w.pve w.cfg ≡ r
          → Fits (got pve) (handle_pve j fl w)
      go (Pve.ok cts) e = rw (e, handle_pve) (accepted _ _ refl)
      go (Pve.err x) e = rw (e, handle_pve) (refused _ _ _ refl refl)

  db-Fits : Fits (got db) (handle_db j fl w)
  unfolding handle_db
  db-Fits = elim (Option-cases w.connect) [
    | inr (e, failed) ↦ rw (failed, handle_db) (refused _ _ _ refl refl)
    | inl up ↦ elim (Option-cases w.migrate) [
      | inr (e, failed) ↦ rw (up, failed, handle_db) (refused _ _ _ refl refl)
      | inl ready ↦ elim (Option-cases w.ping) [
        | inr (e, failed) ↦ rw (up, ready, failed, handle_db) (refused _ _ _ refl refl)
        | inl fine ↦ rw (up, ready, fine, handle_db) (accepted _ _ refl)
      ]
    ]
  ]

  sessions-Fits : (d : Daemon V F) → Fits (got sessions) (handle_sessions j fl w d)
  unfolding handle_sessions
  sessions-Fits d = elim (Option-cases (store_of d.has_store d.database)) [
    | inl missing ↦ rw (missing, handle_sessions) (refused _ _ _ refl refl)
    | inr (store, there) ↦ elim (Option-cases w.list_error) [
      | inr (e, failed) ↦ rw (there, failed, handle_sessions) (refused _ _ _ refl refl)
      | inl fine ↦ rw (there, fine, handle_sessions) (accepted _ _ refl)
    ]
  ]

  files-Fits : (repo : Text) (l : Listed) → Fits (got hf_files) (files_reply j fl w repo l)
  unfolding files_reply
  files-Fits repo (files fs) = accepted _ _ refl
  files-Fits repo (error e) = refused _ _ _ refl refl

  hf_files-Fits : (query : Option Text) → Fits (got hf_files) (handle_hf_files j fl w query)
  unfolding handle_hf_files
  hf_files-Fits query = elim (Bool-cases (is_empty (trimmed query))) [
    | inl missing ↦ rw (missing, handle_hf_files) (refused _ _ _ refl refl)
    | inr given ↦ rw (given, handle_hf_files) (files-Fits _ _)
  ]

  read-Fits :
      (q : ApiRequest V) (e : Endpoint) (d : Daemon V F) → Fits (got e) (read j fl w q e d).1
  unfolding read handle_status_rollup
  read-Fits q health d = accepted _ _ refl
  read-Fits q pve d = pve-Fits
  read-Fits q db d = db-Fits
  read-Fits q session_test d = session_test-Fits d
  read-Fits q sessions d = sessions-Fits d
  read-Fits q models_list d = accepted _ _ refl
  read-Fits q hf_download d = accepted _ _ refl
  read-Fits q hf_files d = hf_files-Fits q.repo
  read-Fits q rebuild d = accepted _ _ refl
  read-Fits q status_rollup d = accepted _ _ refl
  read-Fits q (model_start id) d = refused _ _ _ refl refl
  read-Fits q model_stop d = refused _ _ _ refl refl
  read-Fits q session_active d = refused _ _ _ refl refl

  worker_started-Fits :
      (id m : Text) (r : Spawned)
      → Fits {V = V} {F = F} (posted (model_start id)) (worker_started w.spawn_text m r)
  unfolding worker_started
  worker_started-Fits id m already = accepted _ _ refl
  worker_started-Fits id m (waits_for pid) = accepted _ _ refl
  worker_started-Fits id m (err e) = refused _ _ _ refl refl

  model_start-Fits :
      (id : Text) (d : Daemon V F)
      → Fits (posted (model_start id)) (handle_model_start j fl w id d).1
  unfolding handle_model_start
  model_start-Fits id d = elim (Option-cases (find_model id (models d))) [
    | inl missing ↦ rw (missing, handle_model_start) (refused _ _ _ refl refl)
    | inr (m, found) ↦ rw (found, handle_model_start) (worker_started-Fits id m.id _)
  ]

  download_reply-Fits :
      (repo : Text) (e : Option Text) → Fits (posted hf_download) (download_reply j fl w repo e)
  unfolding download_reply
  download_reply-Fits repo none = accepted _ _ refl
  download_reply-Fits repo (some e) = refused _ _ _ refl refl

  hf_download-Fits :
      (req : Option Download.HfDownloadReq) (d : Daemon V F)
      → Fits (posted hf_download) (handle_hf_download j fl w req d).1
  unfolding handle_hf_download
  hf_download-Fits none d = refused _ _ _ refl refl
  hf_download-Fits (some req) d = download_reply-Fits req.repo _

  rebuild-Fits : (d : Daemon V F) → Fits (posted rebuild) (handle_rebuild_start j fl w d).1
  unfolding handle_rebuild_start
  rebuild-Fits d = elim (Option-cases (Rebuild.claim w.rebuild_now d.rebuild.manager)) [
    | inl busy ↦ rw (busy, handle_rebuild_start) (refused _ _ _ refl refl)
    | inr (m, taken) ↦ rw (taken, handle_rebuild_start) (accepted _ _ refl)
  ]

  session_active-Fits :
      (body : Option V) (d : Daemon V F)
      → Fits (posted session_active) (handle_session_active j fl w body d).1
  unfolding handle_session_active
  session_active-Fits none d = refused _ _ _ refl refl
  session_active-Fits (some body) d = accepted _ _ refl

  write-Fits :
      (q : ApiRequest V) (e : Endpoint) (d : Daemon V F) → Fits (posted e) (write j fl w q e d).1
  unfolding write handle_model_stop
  write-Fits q (model_start id) d = model_start-Fits id d
  write-Fits q model_stop d = accepted _ _ refl
  write-Fits q hf_download d = hf_download-Fits q.download d
  write-Fits q rebuild d = rebuild-Fits d
  write-Fits q session_active d = session_active-Fits q.body d
  write-Fits q _ d = refused _ _ _ refl refl

  run_handler-Fits :
      (q : ApiRequest V) (d : Daemon V F)
      → Fits (payload (is_post q.method) q.endpoint) (run_handler j fl w q d).1
  unfolding run_handler
  run_handler-Fits q d = elim (Bool-cases (is_post q.method)) [
    | inl is ↦ rw (is, run_handler) (write-Fits q q.endpoint d)
    | inr gets ↦ rw (gets, run_handler) (read-Fits q q.endpoint d)
  ]

  guarded-Fits :
      (q : ApiRequest V) (d : Daemon V F)
      → Fits (payload (is_post q.method) q.endpoint) (require_ctl_header j fl w q d).1
  unfolding require_ctl_header
  guarded-Fits q d = elim (Bool-cases (is_post q.method && not (ctl_ok q.headers))) [
    | inl unmarked ↦ rw (unmarked, require_ctl_header) (refused _ _ _ refl refl)
    | inr passed ↦ rw (passed, require_ctl_header) (run_handler-Fits q d)
  ]

  -- Every request to the API is answered either with the status 200 and the payload that its route
  -- has for its kind of method, or with an error and a status from 400 to 599.
  pub serve-Fits :
      (q : ApiRequest V) (d : Daemon V F)
      → Fits (payload (is_post q.method) q.endpoint) (serve j fl w q d).1
  unfolding serve
  serve-Fits q d = elim (Bool-cases (takes (access q.endpoint) q.method)) [
    | inl taken ↦ rw (taken, serve) (guarded-Fits q d)
    | inr wrong ↦ rw (wrong, serve) (refused _ _ _ refl refl)
  ]
