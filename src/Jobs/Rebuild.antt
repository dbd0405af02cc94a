-- ===== src/Jobs/Rebuild.antt =====
-- src/rebuild.rs: the rebuild job and the history of builds.
pub mod Outcome
pub mod Single
use llm_ctl.Base.{
  ℕ, zero, suc, Option, none, some, Bool, true, false, ◌&&◌, List, [], ◌∷◌, ◌++◌, if◌then◌else◌,
  take,
}
use llm_ctl.Base.Text.{Text, lit}
use llm_ctl.Collect.{new, snapshot, push_capped}
use llm_ctl.Jobs.{
  JobStatus, idle, running, succeeded, failed, is_running, push_lines, Said, collect_both, or_false,
}

pub record Job (F : Type 0) : Type 0 where
  pub status : JobStatus
  pub started_at : Option F
  pub finished_at : Option F
  pub before_sha : Option Text
  pub after_sha : Option Text
  pub error : Option Text
  pub log : List Text

-- One completed build attempt.
pub record BuildRecord (F : Type 0) : Type 0 where
  pub at : F
  pub before_sha : Option Text
  pub after_sha : Option Text
  pub ok : Bool

-- The job, the history, newest first, and the history's file, if one was ever written or read.
pub record RebuildManager (F : Type 0) : Type 0 where
  pub job : Job F
  pub history : List (BuildRecord F)
  pub file : Option (List (BuildRecord F))

abbrev pub log_cap : ℕ
log_cap = 800

load_history : {F : Type 0} → Option (List (BuildRecord F)) → List (BuildRecord F)
load_history none = []
load_history (some h) = h

-- A job of a status, all else as `Default` has it.
unfoldable fresh : {F : Type 0} → JobStatus → Option F → Job F
fresh status started_at = record {
  status = status;
  started_at = started_at;
  finished_at = none;
  before_sha = none;
  after_sha = none;
  error = none;
  log = [];
}

unfoldable pub new_manager : {F : Type 0} → Option (List (BuildRecord F)) → RebuildManager F
unfolding load_history fresh
new_manager file = record { job = fresh idle none; history = load_history file; file = file }

-- The start's claim under the lock: `none` is the refusal, "a rebuild is already running".
unfoldable pub claim : {F : Type 0} → F → RebuildManager F → Option (RebuildManager F)
unfolding is_running fresh
claim now m =
    if is_running m.job.status then none else some (record m { job = fresh running (some now) })

-- `git rev-parse HEAD` has answered the start.
unfoldable pub note_before : {F : Type 0} → Option Text → RebuildManager F → RebuildManager F
note_before sha m = record m { job = record job { before_sha = sha } }
  where
    open m use {job}

-- A child: it cannot be spawned, or what it says, in order, and whether it exits well. `none` is an
-- exit that cannot be had, as when the watchdog kills it.
pub data Ran : Type 0 where
  spawn_failed : Ran
  ran : List Said → Option Bool → Ran

unfoldable pub run_and_collect : Ran → Option (Bool × List Text)
unfolding collect_both new snapshot or_false
run_and_collect spawn_failed = some (false, lit "spawn failed" ∷ [])
run_and_collect (ran said exit) = elim (collect_both true true said (new log_cap)) [
  | none ↦ none
  | some sink ↦ some (or_false exit, snapshot sink)
]

-- What the task of a job meets.
pub record Built (F : Type 0) : Type 0 where
  pub pull : Ran
  pub build : Ran
  pub after_sha : Option Text
  pub finished_at : F
  pub recorded_at : F
  pub saved : Bool  -- whether the history's file could be written

shown_bool : Bool → Text
shown_bool true = lit "true"
shown_bool false = lit "false"

abbrev pub ok_line : Text
ok_line = lit "rebuild ok; relaunch the worker to pick up the new binary"

-- The job's last state, given the log so far.
unfoldable conclude : {F : Type 0} → Bool → Bool → Job F → List Text → Option (Job F)
unfolding shown_bool
conclude pull_ok build_ok job log =
    if pull_ok && build_ok
    then (elim (push_capped log_cap log ok_line) [
      | none ↦ none
      | some log' ↦ some (record job { status = succeeded; log = log' })
    ])
    else some (record job {
      status = failed;
      error =
          some (lit "pull_ok=" ++ shown_bool pull_ok ++ lit " build_ok=" ++ shown_bool build_ok);
      log = log;
    })

-- `insert(0, …)`, `truncate(20)` and `save_history`.
unfoldable record_build : {F : Type 0} → Bool → BuildRecord F → RebuildManager F → RebuildManager F
record_build saved r m =
    let history = take 20 (r ∷ m.history) in
    record m { history = history; file = if saved then some history else m.file }

-- The task's end, under the lock.
unfoldable settle :
    {F : Type 0}
    → Option Text
    → Built F
    → Bool × List Text
    → Bool × List Text
    → RebuildManager F
    → Option (RebuildManager F)
unfolding push_lines conclude record_build
settle before b (pull_ok, pull_lines) (build_ok, build_lines) m =
    elim (push_lines log_cap m.job.log (pull_lines ++ build_lines)) [
      | none ↦ none
      | some log ↦
          elim (conclude pull_ok build_ok
            (record job { finished_at = some b.finished_at; after_sha = b.after_sha }) log) [
              | none ↦ none
              | some job' ↦ some (
                  record_build b.saved
                    (record {
                      at = b.recorded_at;
                      before_sha = before;
                      after_sha = b.after_sha;
                      ok = pull_ok && build_ok;
                    })
                    (record m { job = job' }))
            ]
    ]
  where
    open m use {job}

-- The whole task: the build is tried even where the pull failed.
unfoldable pub task :
    {F : Type 0} → Option Text → Built F → RebuildManager F → Option (RebuildManager F)
unfolding run_and_collect settle
task before b m = elim (run_and_collect b.pull) [
  | none ↦ none
  | some pull ↦ elim (run_and_collect b.build) [
    | none ↦ none
    | some build ↦ settle before b pull build m
  ]
]

-- The manager with the starts that wait for git, and the tasks that run, each with the revision
-- before it.
pub record Site (F : Type 0) : Type 0 where
  pub manager : RebuildManager F
  pub claims : ℕ
  pub tasks : List (Option Text)

-- A start claims the job; git answers it and the task begins; its client goes away first, and the
-- server drops the handler; or a task runs to its end.
pub data Event (F : Type 0) : Type 0 where
  requested : F → Event F
  launched : Option Text → Event F
  dropped : Event F
  ended : Built F → Event F

unfoldable requesting : {F : Type 0} → Site F → Option (RebuildManager F) → Site F
requesting s none = s
requesting s (some m) = record s { manager = m; claims = suc s.claims }

unfoldable launching : {F : Type 0} → Option Text → ℕ → Site F → Site F
launching sha zero s = s
launching sha (suc n) s = record {
  manager = note_before sha s.manager;
  claims = n;
  tasks = sha ∷ s.tasks;
}

unfoldable dropping : {F : Type 0} → ℕ → Site F → Site F
dropping zero s = s
dropping (suc n) s = record s { claims = n }

unfoldable ending : {F : Type 0} → Built F → List (Option Text) → Site F → Option (Site F)
ending b [] s = some s
ending b (before ∷ rest) s = elim (task before b s.manager) [
  | none ↦ none
  | some m ↦ some (record s { manager = m; tasks = rest })
]

unfoldable pub step : {F : Type 0} → Event F → Site F → Option (Site F)
unfolding requesting claim launching note_before dropping ending
step (requested now) s = some (requesting s (claim now s.manager))
step (launched sha) s = some (launching sha s.claims s)
step dropped s = some (dropping s.claims s)
step (ended b) s = ending b s.tasks s

unfoldable pub run : {F : Type 0} → List (Event F) → Site F → Option (Site F)
unfolding step
run [] s = some s
run (e ∷ es) s = elim (step e s) [ none ↦ none | some s' ↦ run es s' ]
