-- ===== src/Tests/SystemRuns.antt =====
-- Runs of the API and of the daemon as a whole.
use llm_ctl.Base.{ℕ, ◌≡◌, ◌⊎◌, refl, Option, none, some, true, false, List, [], ◌∷◌}
use llm_ctl.Base.Text.{Text, lit, is_ascii_alphanumeric}
use llm_ctl.Store.Tables.{indices}
use llm_ctl.Store.Index.{upto}
use llm_ctl.Supervisor.Lifecycle.{calm, child}
use llm_ctl.Supervisor.Run.{quiet_stop, quiet_switch, stops}
use llm_ctl.Proxy.Http.{Method, get, post, header}
use llm_ctl.Proxy.Exclusion.History.{arrives, goes, streams, holders}
use llm_ctl.Stats.{HostStats}
use llm_ctl.Jobs.{is_running}
use llm_ctl.Jobs.Download as Download
use llm_ctl.Jobs.Download.Files.{answered}
use llm_ctl.Jobs.Download.Single.{vacant}
use llm_ctl.Jobs.Rebuild as Rebuild
use llm_ctl.Jobs.Rebuild.Single.{settled}
use llm_ctl.Daemon.{Daemon}
use llm_ctl.Api.Messages.{
  Endpoint, session_test, rebuild, hf_download, ApiRequest, ApiWorld, takes, access,
}
use llm_ctl.Api.{ctl_ok, serve}
use llm_ctl.Api.Contract.{Fits, posted, serve-Fits}
use llm_ctl.Api.Guard.{OnlyTables, serve_unmarked}
use llm_ctl.System.{
  Site, Event, calls, proxies, rebuilds, downloads, supervises, scrapes, run_system,
}
use llm_ctl.System.Invariants.{IsSound, run_system-IsSound}
use llm_ctl.Tests.World.{Doc, json, floats, running, model, worker, config, gone}
use llm_ctl.Tests.ListingRuns.{sort_by_size}
use llm_ctl.Tests.PveRuns.{pve_world}
use llm_ctl.Tests.DbRuns.{db_world}
use llm_ctl.Tests.ProxyRuns.{server, world, completion, decode, rounds}
use llm_ctl.Tests.JobRuns.{hf, request, fetched, built, whole_path}

abbrev daemon : Daemon Doc ℕ
unfolding Download.new_manager Rebuild.new_manager
daemon = record {
  worker = running;
  shutting_down = false;
  busy = false;
  active_session = none;
  database = record { tables = record { sessions = []; turns = [] }; calls = 0 };
  has_store = true;
  download = record { manager = Download.new_manager hf (model ∷ []) none; tasks = [] };
  rebuild = record { manager = Rebuild.new_manager none; claims = 0; tasks = [] };
}

abbrev pub stats : HostStats ℕ
stats = record {
  cpu_pct = 0;
  gpu_pct = none;
  vram_used_mb = none;
  vram_total_mb = none;
  gpu_temp_c = none;
}

abbrev pub api_world : ApiWorld Doc ℕ Text
api_world = record {
  cfg = config;
  pve = pve_world;
  pve_error = λ e. [];
  pve_in_time = true;
  db = db_world;
  connect = none;
  migrate = none;
  ping = none;
  server = server 0;
  counts = true;
  turn_error = [];
  list_error = none;
  newest_first = λ ss. ss;
  switch = quiet_switch;
  halt = quiet_stop gone;
  launch = calm (child (some 42)) 5;
  spawn_text = λ e. [];
  hf_now = 1;
  hf_spawn = none;
  listing = answered (Doc.flag true);
  sort = sort_by_size;
  round = λ n. n;
  rebuild_now = 2;
  sha = none;
  llama = Doc.flag true;
  stats = stats;
}

abbrev pub asks : Method → Endpoint → List (Text × Text) → ApiRequest Doc
asks m e hs = record {
  method = m;
  endpoint = e;
  headers = hs;
  body = none;
  download = some request;
  repo = none;
}

serve_unmarked_example :
    let (d', r) = serve json floats api_world (asks post rebuild []) daemon in
    OnlyTables daemon d'
    × ((rebuild ≡ session_test) ⊎ (d' ≡ daemon))
    × (post ≡ post → takes (access rebuild) post ≡ true → r.status ≡ 403)
unfolding ctl_ok lit header
serve_unmarked_example = serve_unmarked json floats api_world (asks post rebuild []) daemon refl

serve-Fits_example :
    Fits (posted rebuild) (serve json floats api_world (asks post rebuild []) daemon).1
serve-Fits_example = serve-Fits json floats api_world (asks post rebuild []) daemon

abbrev pub marked : List (Text × Text)
unfolding lit
marked = (lit "x-llm-ctl", lit "1") ∷ []

abbrev pub history : List (Event Doc ℕ Text)
history =
    calls (asks get session_test []) api_world
    ∷ calls (asks post hf_download marked) api_world
    ∷ calls (asks post rebuild marked) api_world
    ∷ proxies (arrives world completion)
    ∷ proxies (arrives world completion)
    ∷ downloads fetched
    ∷ rebuilds (Rebuild.ended built)
    ∷ supervises (stops gone)
    ∷ scrapes none none
    ∷ proxies (goes 0 world)
    ∷ proxies (goes 0 world)
    ∷ proxies (goes 0 world)
    ∷ proxies (goes 0 world)
    ∷ proxies (goes 1 world)
    ∷ proxies (goes 1 world)
    ∷ proxies (goes 0 world)
    ∷ proxies (streams 0 0 rounds 8)
    ∷ []

abbrev site : Site Doc ℕ
site = record { daemon = daemon; flights = [] }

pub no_number : Text → Option ℕ
no_number t = none

run_system-IsSound_example :
    (s' : Site Doc ℕ) × (run_system json decode floats server is_ascii_alphanumeric whole_path
        no_number worker
        (lit "http")
        history
        site
      ≡ some s')
    × IsSound json decode floats server (lit "http") s'
unfolding daemon holders indices upto is_running Download.has_id
run_system-IsSound_example =
    run_system-IsSound json decode floats server is_ascii_alphanumeric whole_path no_number worker
      (lit "http") history site
      (record {
        exclusive = refl;
        fit = record {
          orderly = record {
            consistent = record { summed = tt; referenced = tt };
            numbered = λ k. refl;
          };
          downloads = record { single = vacant refl refl; unique = (refl, tt) };
          rebuilds = settled refl refl;
        };
      })
