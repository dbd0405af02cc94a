-- ===== src/Tests/SupervisorRuns.antt =====
-- Runs of the supervisor and of the line sink.
use llm_ctl.Base.{ℕ, ◌+◌, ◌≤◌, ◌≡◌, refl, none, some, true, false, List, [], ◌∷◌, arith}
use llm_ctl.Base.Text.{lit, text_eq}
use llm_ctl.Collect.{LineSink, ReadLine, line, eof, new, snapshot, collect_capped}
use llm_ctl.Collect.Window.{lines_read, last, collect_capped-last}
use llm_ctl.Config.{Model, Worker, TomlWorker, worker_of}
use llm_ctl.Supervisor.State.{WorkerState, WorkerStatus, from_secs, is_crashed}
use llm_ctl.Supervisor.Sections.{is_running}
use llm_ctl.Supervisor.Lifecycle.{child, no_log, calm, waits_for, spawn, start_model}
use llm_ctl.Supervisor.Health.{triggered, poll, maybe_restart}
use llm_ctl.Supervisor.Undone.{crossed_poll, maybe_restart-crossed_poll}
use llm_ctl.Supervisor.Run.{
  Op, polls, restarts, exits, Supervisor, run, attempts, quiet_stop, quiet_switch, quiet_restart,
}
use llm_ctl.Supervisor.Stops.{start_model-switches, sent_to}
use llm_ctl.Supervisor.Restarts.{attempts-le-max, attempts-worker_of}
use llm_ctl.Supervisor.CrashLoop.{IsDown, crash_ops, attempts-crash_ops, run-no_log}
use llm_ctl.Tests.World.{Doc, model, worker, running, dead, gone}

abbrev three_lines : List ReadLine
three_lines =
    line (lit "one") ∷ line (lit "two") ∷ line (lit "three") ∷ eof ∷ line (lit "four") ∷ []

collect_capped-last_example :
    (sink : LineSink) × (collect_capped three_lines (new 2) ≡ some sink)
    × (snapshot sink ≡ last 2 (lines_read three_lines))
collect_capped-last_example = collect_capped-last 2 three_lines (omega arith)

abbrev other_model : Model
other_model = record model { id = lit "n" }

start_model-switches_example :
    let (st, r, sent) =
      start_model quiet_switch (quiet_stop gone) (calm (child (some 42)) 9) other_model running in
    (r ≡ waits_for (some 42))
    × (st.pid ≡ some 42)
    × (st.model_id ≡ some (lit "n"))
    × (st.model ≡ some other_model)
    × (st.status ≡ WorkerStatus.starting)
    × (st.stopping ≡ false)
    × (st.restarts ≡ 0)
    × (sent ≡ sent_to gone (some 41))
unfolding is_running text_eq lit
start_model-switches_example =
    start_model-switches quiet_switch (quiet_stop gone) 9 other_model running 42 refl (λ x h. h)

abbrev supervised : WorkerState Doc ℕ → Supervisor Doc ℕ
supervised st = record { state = st; shutting_down = false }

abbrev pub night : List Op
night =
    exits (some 41)
    ∷ restarts gone (child (some 42)) 0
    ∷ exits (some 42)
    ∷ polls false 1
    ∷ restarts gone (child (some 43)) (from_secs 9)
    ∷ []

attempts-le-max_example : attempts worker night (supervised running) + 0 ≤ 3
attempts-le-max_example =
    attempts-le-max worker night (supervised running) (omega arith)
      ((λ h. h), ((λ h. h), ((λ h. h), ((λ h. h), ((λ h. h), tt))))) (omega arith)

-- A `[worker]` section with the port alone.
abbrev bare : TomlWorker
bare = record {
  port = 8080;
  default_args = none;
  gpu_env = none;
  restart_on_crash = none;
  max_restarts = none;
}

attempts-worker_of_example :
    ((worker_of bare).restart_on_crash ≡ true)
    × (attempts (worker_of bare) night (supervised running) ≡ 0)
attempts-worker_of_example = attempts-worker_of bare night (supervised running) refl refl

dead-IsDown : IsDown model 7 dead
dead-IsDown = record { model_kept = refl; no_pid = refl; crashed = refl; cooled = λ l e. cc }

abbrev generous : Worker
generous = record worker { max_restarts = 300 }

attempts-crash_ops_example : attempts generous (crash_ops 1000 gone 42 7) (supervised dead) ≡ 1000
attempts-crash_ops_example =
    attempts-crash_ops 1000 generous model 7 42 gone (supervised dead) refl (omega arith)
      (omega arith) refl dead-IsDown

abbrev ticks : List Op
ticks = polls true 3 ∷ restarts gone (child (some 42)) 4 ∷ []

run-no_log_example :
    let stuck = supervised (spawn (calm (no_log (lit "denied")) 2) model dead).0 in
    (stuck.state.status ≡ WorkerStatus.starting) × (run worker ticks stuck ≡ stuck)
run-no_log_example = run-no_log worker ticks (lit "denied") 2 model dead false (tt, (tt, tt)) refl

maybe_restart-crossed_poll_example :
    let st₁ = poll (crossed_poll gone 9) running in
    let (st₂, r) = maybe_restart worker false (quiet_restart gone (child (some 42)) 9) st₁ in
    (st₁.pid ≡ none)
    × (is_crashed st₁.status ≡ true)
    × (triggered r ≡ true)
    × (st₂.pid ≡ some 42)
    × (st₂.model ≡ some model)
    × (st₂.status ≡ WorkerStatus.starting)
maybe_restart-crossed_poll_example =
    maybe_restart-crossed_poll worker model 9 41 42 gone running refl (omega arith) refl refl refl
      (λ l e. cc)
