-- ===== src/Tests/JobRuns.antt =====
-- Runs of the jobs.
use llm_ctl.Base.{ℕ, Option, ◌≡◌, refl, none, some, true, false, List, [], ◌∷◌, ◌++◌}
use llm_ctl.Base.Text.{Text, lit, is_ascii_alphanumeric, starts_with}
use llm_ctl.Collect.{line, eof}
use llm_ctl.Jobs.{out, err, is_running}
use llm_ctl.Config.{Hf}
use llm_ctl.Jobs.Download as Download
use llm_ctl.Jobs.Download.{contains, needle_of, block_of, persist_model}
use llm_ctl.Jobs.Download.Persisted.{persist_model_again}
use llm_ctl.Jobs.Download.Registry.{IsDone, Judged, task-IsDone}
use llm_ctl.Jobs.Download.Single.{vacant, IsSound, run-IsSound}
use llm_ctl.Jobs.Rebuild.{
  RebuildManager, new_manager, spawn_failed, ran, Built, task, Site, Event, requested, launched,
  dropped, ended, run,
}
use llm_ctl.Jobs.Rebuild.Outcome.{IsConcluded, task-IsConcluded}
use llm_ctl.Jobs.Rebuild.Single.{IsSingle, settled, run-IsSingle, run-dropped}

abbrev manager : RebuildManager ℕ
unfolding new_manager
manager = new_manager none

-- The pull says a line on each of its outputs, and the build cannot be spawned.
abbrev pub built : Built ℕ
built = record {
  pull = ran (out (line (lit "up")) ∷ err (line (lit "hint")) ∷ out eof ∷ []) (some true);
  build = spawn_failed;
  after_sha = some (lit "b");
  finished_at = 8;
  recorded_at = 9;
  saved = false;
}

task-IsConcluded_example :
    (m' : RebuildManager ℕ) × (task (some (lit "a")) built manager ≡ some m')
    × IsConcluded (some (lit "a")) built manager m'
unfolding manager
task-IsConcluded_example = task-IsConcluded (some (lit "a")) built manager refl

abbrev site : Site ℕ
site = record { manager = manager; claims = 0; tasks = [] }

abbrev orders : List (Event ℕ)
orders =
    requested 1
    ∷ requested 2
    ∷ launched (some (lit "a"))
    ∷ requested 3
    ∷ ended built
    ∷ requested 4
    ∷ dropped
    ∷ []

run-IsSingle_example : (s' : Site ℕ) × (run orders site ≡ some s') × IsSingle s'
run-IsSingle_example = run-IsSingle orders site (settled refl refl)

run-dropped_example :
    (m' : RebuildManager ℕ) × (run (requested 7 ∷ dropped ∷ orders) site
      ≡ some (record { manager = m'; claims = 0; tasks = [] }))
    × (is_running m'.job.status ≡ true)
unfolding is_running manager
run-dropped_example = run-dropped 7 manager orders refl

abbrev pub hf : Hf
hf = record { cli = lit "hf" ∷ []; cache = lit "/c"; autoregister = true }

abbrev downloads : Download.DownloadManager ℕ
unfolding Download.new_manager
downloads = Download.new_manager hf [] (some (lit "[llama]"))

abbrev pub whole_path : Text → Option Text
whole_path path = some path

abbrev pub fetched : Download.Fetched ℕ
fetched = record {
  said = out (line (lit "ok")) ∷ [];
  exit = some true;
  exit_shown = lit "Some(Some(0))";
  resolved = some (lit "M_1");
  finished_at = 4;
  writable = true;
}

task-IsDone_example :
    (m' : Download.DownloadManager ℕ) × (Download.task is_ascii_alphanumeric whole_path
        (lit "r/m")
        fetched
        downloads
      ≡ some m')
    × IsDone downloads m'
    × Judged is_ascii_alphanumeric whole_path fetched.exit fetched.resolved m'
task-IsDone_example = task-IsDone is_ascii_alphanumeric whole_path (lit "r/m") fetched downloads

abbrev pub request : Download.HfDownloadReq
request = record { repo = lit "r/m"; include = none }

abbrev wishes : List (Download.Event ℕ)
wishes =
    Download.requested 1 request none
    ∷ Download.requested 2 request none
    ∷ Download.ended fetched
    ∷ Download.requested 5 request none
    ∷ Download.ended fetched
    ∷ []

abbrev hub : Download.Site ℕ
hub = record { manager = downloads; tasks = [] }

run-IsSound_example :
    (s' : Download.Site ℕ) × (Download.run is_ascii_alphanumeric whole_path wishes hub ≡ some s')
    × IsSound s'
unfolding is_running downloads
run-IsSound_example =
    run-IsSound is_ascii_alphanumeric whole_path wishes hub
      (record { single = vacant refl refl; unique = tt })

abbrev saved_config : Text
unfolding lit
saved_config = lit "[worker]\nport = 8080\n"

persist_model_again_example :
    let block = block_of (lit "lfm") (lit "/m/lfm.gguf") (lit "hf: r") in
    (persist_model true (lit "lfm") (lit "/m/lfm.gguf") (lit "hf: r") (some saved_config)
      ≡ some (saved_config ++ block))
    × (persist_model true
          (lit "lfm")
          (lit "/m/lfm.gguf")
          (lit "hf: r")
          (some (saved_config ++ block))
        ≡ some ((saved_config ++ block) ++ block))
unfolding lit contains needle_of starts_with
persist_model_again_example =
    persist_model_again (lit "lfm") (lit "/m/lfm.gguf") (lit "hf: r") saved_config refl refl refl
      refl refl
