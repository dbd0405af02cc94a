-- ===== src/Supervisor/Run.antt =====
-- The supervisor as a whole: operations one after the other, each undisturbed while it runs.
use llm_ctl.Base.{ℕ, ◌+◌, Option, Bool, true, false, List, [], ◌∷◌}
use llm_ctl.Config.{Model, Worker}
use llm_ctl.Supervisor.State.{WorkerState}
use llm_ctl.Supervisor.Sections.{child_exited}
use llm_ctl.Supervisor.Lifecycle.{Launch, calm, StopEnv, SwitchEnv, stop_inner, start_model}
use llm_ctl.Supervisor.Health.{
  PollEnv, RestartEnv, Restart, not_wanted, recovered, restarted, poll, maybe_restart,
}

-- A stop undisturbed by other tasks.
abbrev pub quiet_stop : {V F : Type 0} → (ℕ → Bool) → StopEnv V F
quiet_stop alive = record { alive = alive; before_mark = λ st. st; grace = λ st. st }

abbrev pub quiet_switch : {V F : Type 0} → SwitchEnv V F
quiet_switch = record { before_look = λ st. st; before_halt = λ st. st; before_reset = λ st. st }

abbrev pub quiet_restart : {V F : Type 0} → (ℕ → Bool) → Launch → ℕ → RestartEnv V F
quiet_restart alive l now = record {
  now = now;
  lock_wait = λ st. st;
  halt = quiet_stop alive;
  launch = calm l now;
}

abbrev pub quiet_poll : {V F : Type 0} → Bool → ℕ → PollEnv V F
quiet_poll ok now = record { ok = ok; now = now; request = λ st. st; between = λ st. st }

-- The two mutable parts of `Supervisor`.
pub record Supervisor (V F : Type 0) : Type 0 where
  pub state : WorkerState V F
  pub shutting_down : Bool

-- `Supervisor::new`, over a state given to it.
unfoldable pub new : {V F : Type 0} → WorkerState V F → Supervisor V F
new st = record { state = st; shutting_down = false }

unfoldable pub mark_shutting_down : {V F : Type 0} → Supervisor V F → Supervisor V F
mark_shutting_down s = record s { shutting_down = true }

-- What happens to the supervisor, with what the world answers.
pub data Op : Type 0 where
  starts : Model → (ℕ → Bool) → Launch → ℕ → Op
  stops : (ℕ → Bool) → Op
  polls : Bool → ℕ → Op
  restarts : (ℕ → Bool) → Launch → ℕ → Op
  exits : Option ℕ → Op
  shuts_down : Op

unfoldable pub attempted : Restart → ℕ
attempted not_wanted = 0
attempted recovered = 0
attempted (restarted r) = 1

module _ {V F : Type 0} where
  unfoldable pub step : Worker → Op → Supervisor V F → Supervisor V F
  unfolding mark_shutting_down
  step w (starts m alive l now) s = record s {
    state = (start_model quiet_switch (quiet_stop alive) (calm l now) m s.state).0;
  }
  step w (stops alive) s = record s { state = (stop_inner (quiet_stop alive) s.state).0 }
  step w (polls ok now) s = record s { state = poll (quiet_poll ok now) s.state }
  step w (restarts alive l now) s = record s {
    state = (maybe_restart w s.shutting_down (quiet_restart alive l now) s.state).0;
  }
  step w (exits pid) s = record s { state = child_exited pid s.state }
  step w shuts_down s = mark_shutting_down s

  unfoldable pub run : Worker → List Op → Supervisor V F → Supervisor V F
  unfolding step
  run w [] s = s
  run w (o ∷ os) s = run w os (step w o s)

  unfoldable pub attempts_of : Worker → Op → Supervisor V F → ℕ
  unfolding attempted
  attempts_of w (restarts alive l now) s =
      attempted (maybe_restart w s.shutting_down (quiet_restart alive l now) s.state).1
  attempts_of w _ s = 0

  -- How many restarts the poller makes in a run.
  unfoldable pub attempts : Worker → List Op → Supervisor V F → ℕ
  unfolding attempts_of step
  attempts w [] s = 0
  attempts w (o ∷ os) s = attempts_of w o s + attempts w os (step w o s)
