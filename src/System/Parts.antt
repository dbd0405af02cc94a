-- ===== src/System/Parts.antt =====
-- What the API's handlers keep of the daemon's parts.
use llm_ctl.Base.{
  ℕ, ◌≡◌, refl, Option, none, some, Bool, not, ◌&&◌, Bool-cases, Option-cases, inl, inr,
}
use llm_ctl.Base.Text.{Text}
use llm_ctl.External.{Json, Floats}
use llm_ctl.Store.Turn.{Turn}
use llm_ctl.Store.Tables.{Tables, record_turn}
use llm_ctl.Store.Index.{record_turn-IsNumbered}
use llm_ctl.Store.Recording.{record_turn-IsConsistent}
use llm_ctl.Store.Service.{Server, Database}
use llm_ctl.Store.Seed.{fake_turn, record_fake_turn}
use llm_ctl.Proxy.Http.{is_post}
use llm_ctl.Proxy.Storekeeping.Consistency.{IsOrderly}
use llm_ctl.Jobs.Download as Download
use llm_ctl.Jobs.Download.Single as Downloads
use llm_ctl.Jobs.Rebuild as Rebuild
use llm_ctl.Jobs.Rebuild.Single as Rebuilds
use llm_ctl.Daemon.{Daemon, models}
use llm_ctl.Api.Messages.{
  Endpoint, ApiRequest, ApiWorld, health, session_test, model_stop, model_start, hf_download,
  rebuild, session_active, takes, access,
}
use llm_ctl.Api.Writes.{
  find_model, handle_model_start, handle_model_stop, handle_hf_download, handle_rebuild_start,
  handle_session_active, handle_session_test, test_counted,
}
use llm_ctl.Api.{ctl_ok, read, write, run_handler, require_ctl_header, serve}

module _ {V F : Type 0} (fl : Floats F) where
  -- The invariants of the parts that the API can reach.
  pub record IsFit (d : Daemon V F) : Type 0 where
    pub orderly : IsOrderly fl d.database
    pub downloads : Downloads.IsSound d.download
    pub rebuilds : Rebuilds.IsSingle d.rebuild

  -- From a state whose parts are sound, one whose parts are, with the same gate, and shutting down if
  -- that one was.
  pub record Keeps (d d' : Daemon V F) : Type 0 where
    pub fit : IsFit d'
    pub busy : d'.busy ≡ d.busy
    pub down : d'.shutting_down ≡ d.shutting_down

module _ {V F C : Type 0} (j : Json V F) (fl : Floats F) (w : ApiWorld V F C) where
  same-Keeps : (d : Daemon V F) → IsFit fl d → Keeps fl d d
  same-Keeps d h = record { fit = h; busy = refl; down = refl }

  handle_model_start-Keeps :
      (id : Text) (d : Daemon V F) → IsFit fl d → Keeps fl d (handle_model_start j fl w id d).0
  unfolding handle_model_start
  handle_model_start-Keeps id d h = elim (Option-cases (find_model id (models d))) [
    | inl missing ↦ rw (missing, handle_model_start) (same-Keeps d h)
    | inr (m, found) ↦
        rw (found, handle_model_start)
          (record {
            fit = record { orderly = h.orderly; downloads = h.downloads; rebuilds = h.rebuilds };
            busy = refl;
            down = refl;
          })
  ]

  handle_hf_download-Keeps :
      (req : Option Download.HfDownloadReq) (d : Daemon V F)
      → IsFit fl d
      → Keeps fl d (handle_hf_download j fl w req d).0
  unfolding handle_hf_download
  handle_hf_download-Keeps none d h = same-Keeps d h
  handle_hf_download-Keeps (some req) d h = record {
    fit = record {
      orderly = h.orderly;
      downloads = Downloads.started_sound w.hf_now req w.hf_spawn d.download h.downloads;
      rebuilds = h.rebuilds;
    };
    busy = refl;
    down = refl;
  }

  handle_rebuild_start-Keeps :
      (d : Daemon V F) → IsFit fl d → Keeps fl d (handle_rebuild_start j fl w d).0
  unfolding handle_rebuild_start
  handle_rebuild_start-Keeps d h =
      elim (Option-cases (Rebuild.claim w.rebuild_now d.rebuild.manager)) [
        | inl refused ↦ rw (refused, handle_rebuild_start) (same-Keeps d h)
        | inr (m, taken) ↦
            rw (taken, handle_rebuild_start)
              (record {
                fit = record {
                  orderly = h.orderly;
                  downloads = h.downloads;
                  rebuilds =
                      Rebuilds.claimed_single w.rebuild_now w.sha d.rebuild m taken h.rebuilds;
                };
                busy = refl;
                down = refl;
              })
      ]

  handle_session_active-Keeps :
      (body : Option V) (d : Daemon V F)
      → IsFit fl d
      → Keeps fl d (handle_session_active j fl w body d).0
  unfolding handle_session_active
  handle_session_active-Keeps none d h = same-Keeps d h
  handle_session_active-Keeps (some body) d h = record {
    fit = record { orderly = h.orderly; downloads = h.downloads; rebuilds = h.rebuilds };
    busy = refl;
    down = refl;
  }

  -- The tables with one more turn are orderly.
  recorded-IsOrderly :
      (accepts : Turn V F → Bool) (t : Turn V F) (now : F) (old : Database V F)
      (tables' : Tables V F)
      → IsOrderly fl old
      → record_turn fl accepts t now old.tables ≡ some tables'
      → IsOrderly fl (record old { tables = tables' })
  recorded-IsOrderly accepts t now old tables' h e = record {
    consistent = record_turn-IsConsistent fl accepts t now old.tables tables' h.consistent e;
    numbered = record_turn-IsNumbered fl accepts t now old.tables tables' h.numbered e;
  }

  test_counted-Keeps :
      (d : Daemon V F) (tables' : Tables V F) (n : Option ℕ)
      → IsFit fl d
      → IsOrderly fl (record (d.database) { tables = tables' })
      → Keeps fl d (test_counted j fl w d (tables', n)).0
  unfolding test_counted
  test_counted-Keeps d tables' none h o = record {
    fit = record { orderly = o; downloads = h.downloads; rebuilds = h.rebuilds };
    busy = refl;
    down = refl;
  }
  test_counted-Keeps d tables' (some n) h o = record {
    fit = record { orderly = o; downloads = h.downloads; rebuilds = h.rebuilds };
    busy = refl;
    down = refl;
  }

  record_fake_turn-Keeps :
      (id m : Text) (d : Daemon V F)
      → IsFit fl d
      → Keeps fl d
          (test_counted j fl w d (record_fake_turn fl w.server w.counts id m d.database.tables)).0
  unfolding record_fake_turn
  record_fake_turn-Keeps id m d h =
      let sv : Server V F = w.server in
      elim (Option-cases (record_turn fl sv.accepts (fake_turn fl id m) sv.now d.database.tables)) [
        | inl e ↦
            rw (e, record_fake_turn)
              (test_counted-Keeps d d.database.tables none h
                (record { consistent = h.orderly.consistent; numbered = h.orderly.numbered }))
        | inr (t, e) ↦
            rw (e, record_fake_turn)
              (test_counted-Keeps d t _ h
                (recorded-IsOrderly sv.accepts (fake_turn fl id m) sv.now d.database t h.orderly e))
      ]

  handle_session_test-Keeps :
      (d : Daemon V F) → IsFit fl d → Keeps fl d (handle_session_test j fl w d).0
  unfolding handle_session_test
  handle_session_test-Keeps d h = elim (Option-cases w.connect) [
    | inl up ↦ elim (Option-cases w.migrate) [
      | inl fine ↦ rw (up, fine, handle_session_test) (record_fake_turn-Keeps _ _ d h)
      | inr (e, failed) ↦ rw (up, failed, handle_session_test) (same-Keeps d h)
    ]
    | inr (e, failed) ↦ rw (failed, handle_session_test) (same-Keeps d h)
  ]

  read-Keeps :
      (q : ApiRequest V) (e : Endpoint) (d : Daemon V F)
      → IsFit fl d
      → Keeps fl d (read j fl w q e d).0
  unfolding read
  read-Keeps q session_test d h = handle_session_test-Keeps d h
  read-Keeps q health d h = same-Keeps d h
  read-Keeps q _ d h = same-Keeps d h

  write-Keeps :
      (q : ApiRequest V) (e : Endpoint) (d : Daemon V F)
      → IsFit fl d
      → Keeps fl d (write j fl w q e d).0
  unfolding write handle_model_stop
  write-Keeps q (model_start id) d h = handle_model_start-Keeps id d h
  write-Keeps q model_stop d h = record {
    fit = record { orderly = h.orderly; downloads = h.downloads; rebuilds = h.rebuilds };
    busy = refl;
    down = refl;
  }
  write-Keeps q hf_download d h = handle_hf_download-Keeps q.download d h
  write-Keeps q rebuild d h = handle_rebuild_start-Keeps d h
  write-Keeps q session_active d h = handle_session_active-Keeps q.body d h
  write-Keeps q _ d h = same-Keeps d h

  run_handler-Keeps :
      (q : ApiRequest V) (d : Daemon V F) → IsFit fl d → Keeps fl d (run_handler j fl w q d).0
  unfolding run_handler
  run_handler-Keeps q d h = elim (Bool-cases (is_post q.method)) [
    | inl posted ↦ rw (posted, run_handler) (write-Keeps q q.endpoint d h)
    | inr gets ↦ rw (gets, run_handler) (read-Keeps q q.endpoint d h)
  ]

  guarded-Keeps :
      (q : ApiRequest V) (d : Daemon V F)
      → IsFit fl d
      → Keeps fl d (require_ctl_header j fl w q d).0
  unfolding require_ctl_header
  guarded-Keeps q d h = elim (Bool-cases (is_post q.method && not (ctl_ok q.headers))) [
    | inl refused ↦ rw (refused, require_ctl_header) (same-Keeps d h)
    | inr passed ↦ rw (passed, require_ctl_header) (run_handler-Keeps q d h)
  ]

  -- No request to the API breaks the store, the jobs or the gate.
  pub serve-Keeps :
      (q : ApiRequest V) (d : Daemon V F) → IsFit fl d → Keeps fl d (serve j fl w q d).0
  unfolding serve
  serve-Keeps q d h = elim (Bool-cases (takes (access q.endpoint) q.method)) [
    | inl taken ↦ rw (taken, serve) (guarded-Keeps q d h)
    | inr wrong ↦ rw (wrong, serve) (same-Keeps d h)
  ]
