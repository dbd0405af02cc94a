-- ===== src/Tests/StartupRuns.antt =====
-- Runs of `main`.
use llm_ctl.Base.{ℕ, ◌≡◌, refl, none, some, true, List, [], ◌∷◌}
use llm_ctl.Base.Text.{lit, is_ascii_alphanumeric, strip_prefix, starts_with}
use llm_ctl.Config.{TomlConfig, load, expand_tilde}
use llm_ctl.Supervisor.Lifecycle.{Signal, calm, child}
use llm_ctl.Supervisor.Run.{quiet_stop, attempts}
use llm_ctl.Store.Tables.{indices}
use llm_ctl.Store.Index.{upto}
use llm_ctl.Jobs.Download as Download
use llm_ctl.System.{Site}
use llm_ctl.Startup.{StartWorld, stopped, main}
use llm_ctl.Startup.Shutdown.{IsOver, main-IsOver}
use llm_ctl.Tests.World.{Doc, json, floats, worker, config, gone}
use llm_ctl.Tests.ProxyRuns.{server, decode}
use llm_ctl.Tests.JobRuns.{whole_path}
use llm_ctl.Tests.SupervisorRuns.{night}
use llm_ctl.Tests.SystemRuns.{history, no_number}
use llm_ctl.Tests.ReapRuns.{Process, os, table}

-- The file of the test configuration, with no key left out.
abbrev toml : TomlConfig
toml = record {
  listen = config.listen;
  llama = config.llama;
  worker = record {
    port = 8080;
    default_args = some [];
    gpu_env = some [];
    restart_on_crash = some true;
    max_restarts = some 3;
  };
  hf = record { cli = some (lit "hf" ∷ []); cache = lit "/c"; autoregister = some true };
  proxmox = record {
    api = lit "https://p";
    node = lit "n";
    token_id = lit "t";
    ct_storage = [];
    ct_tag = lit "llm";
    ct_vmid_start = some 100;
    cert_file = some (lit "~/c.pem");
    cts = some [];
  };
  db = record { pgurl = lit "postgres://d"; schema_migrate = some true };
  models = some (
      record { id = lit "m"; model = lit "m.gguf"; autostart = some true; description = some [] }
      ∷ []);
}

abbrev start_world : StartWorld Doc ℕ (List Process)
start_world = record {
  config_var = none;
  home = some (lit "/h");
  read = λ path. some path;
  parse = λ text. some toml;
  machine = table;
  launch = calm (child (some 42)) 1;
  poller = λ st. st;
  connect = none;
  database = record { tables = record { sessions = []; turns = [] }; calls = 0 };
  builds = none;
  commit = some (true, lit "abc\n");
  branch = some (true, lit "\n");
  bind = none;
}

main-IsOver_example :
    (s' : Site Doc ℕ) × (sent : List Signal) × (main json decode floats server is_ascii_alphanumeric
        whole_path no_number
        (lit "http")
        os
        70
        start_world
        history
        (some history)
        (quiet_stop gone)
      ≡ stopped s' sent)
    × IsOver json decode floats server (lit "http") s'
    × (attempts worker night
          (record { state = s'.daemon.worker; shutting_down = s'.daemon.shutting_down })
        ≡ 0)
unfolding load lit Download.has_id indices upto starts_with expand_tilde strip_prefix
main-IsOver_example =
    main-IsOver json decode floats server is_ascii_alphanumeric whole_path no_number (lit "http") os
      70 start_world config (some 42) history history (quiet_stop gone) night refl (refl, tt) refl
      refl (record { consistent = record { summed = tt; referenced = tt }; numbered = λ k. refl })
