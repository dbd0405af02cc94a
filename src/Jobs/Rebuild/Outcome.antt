-- ===== src/Jobs/Rebuild/Outcome.antt =====
-- How a rebuild's task ends.
use llm_ctl.Base.{
  ◌<◌, ◌≡◌, refl, sym, ◌∙◌, subst, Option, none, some, Bool, true, false, ◌&&◌, List, [], ◌∷◌, ◌++◌,
  arith, if◌then◌else◌, take, Bool-cases, inl, inr,
}
use llm_ctl.Base.Text.{Text, lit}
use mathlib.Core.List.{append-nil}
use llm_ctl.Collect.Window.{last, last_nil, push_capped-last}
use llm_ctl.Jobs.{succeeded, failed, is_running, push_lines, or_false}
use llm_ctl.Jobs.Logs.{collect_new, both_read, push_lines-last}
use llm_ctl.Jobs.Rebuild.{
  Job, BuildRecord, RebuildManager, log_cap, Ran, spawn_failed, ran, run_and_collect, Built,
  ok_line, conclude, shown_bool, record_build, settle, task,
}

-- Whether a child exits well, and the lines that its run gives.
pub exits_well : Ran → Bool
exits_well spawn_failed = false
exits_well (ran said none) = false
exits_well (ran said (some good)) = good

pub shown : Ran → List Text
shown spawn_failed = lit "spawn failed" ∷ []
shown (ran said exit) = last log_cap (both_read true true said)

positive : 0 < log_cap
positive = omega arith

run_and_collect-shown : (r : Ran) → run_and_collect r ≡ some (exits_well r, shown r)
unfolding run_and_collect exits_well shown or_false
run_and_collect-shown spawn_failed = refl
run_and_collect-shown (ran said none) = rw (collect_new log_cap said positive, run_and_collect) refl
run_and_collect-shown (ran said (some good)) =
    rw (collect_new log_cap said positive, run_and_collect) refl

abbrev pub went_well : {F : Type 0} → Built F → Bool
went_well b = exits_well b.pull && exits_well b.build

abbrev pub told : {F : Type 0} → Built F → List Text
told b = shown b.pull ++ shown b.build

abbrev pub attempt : {F : Type 0} → Option Text → Built F → BuildRecord F
attempt before b = record {
  at = b.recorded_at;
  before_sha = before;
  after_sha = b.after_sha;
  ok = went_well b;
}

-- The job is over, with its log and its place in the history.
pub record IsConcluded {F : Type 0} (before : Option Text) (b : Built F) (m m' : RebuildManager F)
    : Type 0 where
  pub over : is_running m'.job.status ≡ false
  pub status : m'.job.status ≡ (if went_well b then succeeded else failed)
  pub log : m'.job.log ≡ last log_cap (told b ++ (if went_well b then ok_line ∷ [] else []))
  pub history : m'.history ≡ take 20 (attempt before b ∷ m.history)

push_lines_empty :
    (log lines : List Text) → log ≡ [] → push_lines log_cap log lines ≡ some (last log_cap lines)
push_lines_empty log lines e =
    subst (λ v. push_lines log_cap v lines ≡ some (last log_cap lines)) (last_nil log_cap ∙ sym e)
      (push_lines-last log_cap [] lines positive)

module _ {F : Type 0} where
  conclude-eq :
      (p q : Bool) (job : Job F) (xs : List Text)
      → (job' : Job F) × (conclude p q job (last log_cap xs) ≡ some job')
        × (is_running job'.status ≡ false)
        × (job'.status ≡ (if p && q then succeeded else failed))
        × (job'.log ≡ last log_cap (xs ++ (if p && q then ok_line ∷ [] else [])))
  unfolding conclude is_running
  conclude-eq p q job xs = elim (Bool-cases (p && q)) [
    | inl good ↦ (
      record job { status = succeeded; log = last log_cap (xs ++ ok_line ∷ []) },
      rw (good, push_capped-last log_cap xs ok_line positive, conclude) refl,
      refl,
      rw good refl,
      rw good refl,
    )
    | inr bad ↦ (
      record job {
        status = failed;
        error = some (lit "pull_ok=" ++ shown_bool p ++ lit " build_ok=" ++ shown_bool q);
        log = last log_cap xs;
      },
      rw (bad, conclude) refl,
      refl,
      rw bad refl,
      rw (bad, append-nil xs) refl,
    )
  ]

  task-settle :
      (before : Option Text) (b : Built F) (m : RebuildManager F)
      → task before b m
        ≡ settle before b (exits_well b.pull, shown b.pull) (exits_well b.build, shown b.build) m
  unfolding task
  task-settle before b m =
      rw (run_and_collect-shown b.pull, run_and_collect-shown b.build, task) refl

  settle-eq :
      (before : Option Text) (b : Built F) (m : RebuildManager F) (p q : Bool)
      (lines lines' log : List Text) (job' : Job F)
      → push_lines log_cap m.job.log (lines ++ lines') ≡ some log
      → conclude p q
          (record (m.job) { finished_at = some b.finished_at; after_sha = b.after_sha })
          log
        ≡ some job'
      → settle before b (p, lines) (q, lines') m
        ≡ some (
            record_build b.saved
              (record {
                at = b.recorded_at;
                before_sha = before;
                after_sha = b.after_sha;
                ok = p && q;
              })
              (record m { job = job' }))
  unfolding settle
  settle-eq before b m p q lines lines' log job' logged e = rw (logged, e, settle) refl

  -- A task that began with an empty log ends, never in a panic, and the job is then over: it went
  -- well exactly if both the pull and the build did, its log is the last 800 of the lines of the
  -- two and of the closing one, and the history has it first and at most twenty builds.
  pub task-IsConcluded :
      (before : Option Text) (b : Built F) (m : RebuildManager F)
      → m.job.log ≡ []
      → (m' : RebuildManager F) × (task before b m ≡ some m') × IsConcluded before b m m'
  unfolding record_build
  task-IsConcluded before b m empty_log =
      let logged = push_lines_empty m.job.log (told b) empty_log in
      let (job', e, over, status, log) =
        conclude-eq (exits_well b.pull) (exits_well b.build)
          (record (m.job) { finished_at = some b.finished_at; after_sha = b.after_sha }) (told b) in
      (
        record_build b.saved (attempt before b) (record m { job = job' }),
        task-settle before b m
            ∙ settle-eq before b m (exits_well b.pull) (exits_well b.build) (shown b.pull)
                (shown b.build) _ job' logged e,
        record { over = over; status = status; log = log; history = refl },
      )
