-- ===== src/Supervisor/Health.antt =====
-- src/supervisor.rs, what the poller task runs every two seconds: poll, maybe_restart, poll_slots;
-- and the model list of the API.
use llm_ctl.Base.{ℕ, Option, none, some, Bool, true, false, not, ◌||◌, List, if◌then◌else◌, map}
use llm_ctl.Base.Text.{Text}
use llm_ctl.Config.{Model, Worker}
use llm_ctl.Supervisor.State.{WorkerState, WorkerStatus, is_some, is_crashed, is_text}
use llm_ctl.Supervisor.Sections.{poll_apply, wants_restart, count_restart}
use llm_ctl.Supervisor.Lifecycle.{
  Others, SpawnEnv, StopEnv, Spawned, already, waits_for, err, spawn, stop_inner,
}
use llm_ctl.Supervisor.Metrics.{parse_metrics}

pub record PollEnv (V F : Type 0) : Type 0 where
  pub ok : Bool  -- the health request succeeded with a 2xx status
  pub now : ℕ
  pub request : Others V F  -- while the health request runs
  pub between : Others V F  -- between the two holds of the lock that follow it

pub record RestartEnv (V F : Type 0) : Type 0 where
  pub now : ℕ
  pub lock_wait : Others V F  -- while waiting for the `lifecycle` lock
  pub halt : StopEnv V F
  pub launch : SpawnEnv V F

pub data Restart : Type 0 where
  not_wanted recovered : Restart
  restarted : Spawned → Restart

-- The value that `maybe_restart` returns.
unfoldable pub triggered : Restart → Bool
triggered not_wanted = false
triggered recovered = false
triggered (restarted already) = true
triggered (restarted (waits_for pid)) = true
triggered (restarted (err e)) = false

-- A row of `/api/models`; its status is printed by `{:?}`.
pub record ModelRow : Type 0 where
  pub id : Text
  pub model : Text
  pub autostart : Bool
  pub description : Text
  pub active : Bool
  pub status : WorkerStatus

module _ {V F : Type 0} where
  unfoldable pub poll : PollEnv V F → WorkerState V F → WorkerState V F
  unfolding poll_apply
  poll e st =
      if is_some st.pid
      then (let seen = e.request st in
          poll_apply e.ok seen.status seen.started_at e.now (e.between seen))
      else st

  -- The part of `maybe_restart` that holds the `lifecycle` lock.
  unfoldable pub restart_locked :
      RestartEnv V F → Model → WorkerState V F → WorkerState V F × Restart
  unfolding count_restart stop_inner spawn
  restart_locked e m st =
      if is_crashed st.status
      then (let (st', sent) = stop_inner e.halt (count_restart e.now st) in
          let (st'', r) = spawn e.launch m st' in (st'', restarted r))
      else (st, recovered)

  restart_model : RestartEnv V F → Option Model → WorkerState V F → WorkerState V F × Restart
  unfolding restart_locked
  restart_model e none st = (st, not_wanted)
  restart_model e (some m) st = restart_locked e m (e.lock_wait st)

  unfoldable pub maybe_restart :
      Worker → Bool → RestartEnv V F → WorkerState V F → WorkerState V F × Restart
  unfolding wants_restart restart_model
  maybe_restart w shutting_down e st =
      if shutting_down || not (wants_restart w e.now st)
      then (st, not_wanted)
      else restart_model e st.model st

  keep_slots : Option V → WorkerState V F → WorkerState V F
  keep_slots none st = st
  keep_slots (some s) st = record st { last_slots = some s }

  keep_metrics : (Text → Option F) → Option Text → WorkerState V F → WorkerState V F
  keep_metrics parse_f64 none st = st
  keep_metrics parse_f64 (some m) st = record st { last_metrics = some (parse_metrics parse_f64 m) }

  -- `slots` and `metrics` are the bodies of the two answers, where there is one.
  unfoldable pub poll_slots :
      (Text → Option F) → Option V → Option Text → Others V F → WorkerState V F → WorkerState V F
  unfolding keep_slots keep_metrics
  poll_slots parse_f64 slots metrics requests st =
      if is_some st.pid then keep_metrics parse_f64 metrics (keep_slots slots (requests st)) else st

  unfoldable pub list : List Model → WorkerState V F → List ModelRow
  list models st =
      map
        (λ m. record {
          id = m.id;
          model = m.model;
          autostart = m.autostart;
          description = m.description;
          active = is_text st.model_id m.id;
          status = st.status;
        })
        models
