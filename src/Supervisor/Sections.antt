-- ===== src/Supervisor/Sections.antt =====
-- src/supervisor.rs, the critical sections: what each task does to the state in one hold of its lock.
use llm_ctl.Base.{
  ℕ, ◌+◌, ◌%◌, Option, none, some, Bool, true, false, ◌&&◌, ◌++◌, if◌then◌else◌, ltb,
}
use llm_ctl.Base.Text.{Text, lit}
use llm_ctl.Config.{Model, Worker}
use llm_ctl.Supervisor.State.{
  WorkerState, WorkerStatus, elapsed_over, is_some, is_crashed, pid_eq, is_text,
}

-- `started_at.map(|s| s.elapsed() > 60s).unwrap_or(false)`.
abbrev load_timed_out : ℕ → Option ℕ → Bool
load_timed_out now none = false
load_timed_out now (some s) = elapsed_over 60 now s

-- `last_restart.map(|l| l.elapsed() > 5s).unwrap_or(true)`.
abbrev pub cooled_down : ℕ → Option ℕ → Bool
cooled_down now none = true
cooled_down now (some l) = elapsed_over 5 now l

module _ {V F : Type 0} where
  -- The test that `spawn` and `start_model` begin with.
  unfoldable pub is_running : Model → WorkerState V F → Bool
  is_running m st = is_text st.model_id m.id && is_some st.pid

  unfoldable pub spawn_begin : Model → ℕ → WorkerState V F → WorkerState V F
  spawn_begin m now st = record st {
    status = WorkerStatus.starting;
    model_id = some m.id;
    model = some m;
    started_at = some now;
    stopping = false;
  }

  unfoldable pub spawn_crashed : Text → WorkerState V F → WorkerState V F
  unfolding lit
  spawn_crashed e st = record st {
    pid = none;
    status = WorkerStatus.crashed (lit "spawn failed: " ++ e);
  }

  unfoldable pub store_pid : Option ℕ → WorkerState V F → WorkerState V F
  store_pid pid st = record st { pid = pid }

  -- The task that waits for the child with this pid.
  unfoldable pub child_exited : Option ℕ → WorkerState V F → WorkerState V F
  unfolding lit
  child_exited pid st =
      if pid_eq st.pid pid
      then record st {
        pid = none;
        status =
            if st.stopping
            then WorkerStatus.stopped
            else WorkerStatus.crashed (lit "worker exited unexpectedly");
      }
      else st

  unfoldable pub reset_restarts : WorkerState V F → WorkerState V F
  reset_restarts st = record st { restarts = 0 }

  unfoldable pub mark_stopping : WorkerState V F → WorkerState V F
  mark_stopping st = record st { stopping = true }

  unfoldable pub mark_stopped : WorkerState V F → WorkerState V F
  mark_stopped st = record st { pid = none; status = WorkerStatus.stopped; stopping = false }

  -- The `match status` of `poll`: the status and start time are those of an earlier hold of the lock.
  unfoldable pub judge_unhealthy : WorkerStatus → Option ℕ → ℕ → WorkerState V F → WorkerState V F
  unfolding lit
  judge_unhealthy WorkerStatus.starting started_at now st =
      if load_timed_out now started_at
      then record st { status = WorkerStatus.crashed (lit "model load timed out") }
      else st
  judge_unhealthy WorkerStatus.ready started_at now st = record st {
    status = WorkerStatus.crashed (lit "worker health check failed");
  }
  judge_unhealthy (WorkerStatus.crashed why) started_at now st = record st {
    status = WorkerStatus.crashed (lit "worker health check failed");
  }
  judge_unhealthy _ started_at now st = st

  unfoldable pub poll_apply : Bool → WorkerStatus → Option ℕ → ℕ → WorkerState V F → WorkerState V F
  unfolding judge_unhealthy
  poll_apply true status started_at now st = record st { status = WorkerStatus.ready }
  poll_apply false status started_at now st = judge_unhealthy status started_at now st

  -- The `want` of `maybe_restart`.
  unfoldable pub wants_restart : Worker → ℕ → WorkerState V F → Bool
  wants_restart w now st =
      w.restart_on_crash
      && (ltb st.restarts w.max_restarts
          && (is_crashed st.status && cooled_down now st.last_restart))

  -- `restarts += 1` on a `u8`, which wraps in a release build.
  unfoldable pub count_restart : ℕ → WorkerState V F → WorkerState V F
  count_restart now st = record st { restarts = (st.restarts + 1) % 256; last_restart = some now }
