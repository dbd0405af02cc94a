-- ===== src/Supervisor/Lifecycle.antt =====
-- src/supervisor.rs, the operations under the `lifecycle` lock: spawn, start_model, stop. Between two
-- holds of the state's lock other tasks may run: `Others` is what they do to the state there.
use llm_ctl.Base.{
  ℕ, zero, suc, Option, none, some, Bool, true, false, List, [], ◌∷◌, ◌++◌, if◌then◌else◌,
}
use llm_ctl.Base.Text.{Text, lit}
use llm_ctl.Config.{Model, Worker}
use llm_ctl.Supervisor.State.{WorkerState, is_some}
use llm_ctl.Supervisor.Sections.{
  is_running, spawn_begin, spawn_crashed, store_pid, reset_restarts, mark_stopping, mark_stopped,
}

abbrev pub Others : Type 0 → Type 0 → Type 0
Others V F = WorkerState V F → WorkerState V F

-- What the operating system answers to `spawn`.
pub data Launch : Type 0 where
  no_log no_clone spawn_failed : Text → Launch
  child : Option ℕ → Launch

pub data SpawnError : Type 0 where
  log_error launch_error : Text → SpawnError

-- What is passed on to `child_exited` when a child runs: the pid of its wait task.
pub data Spawned : Type 0 where
  already : Spawned
  waits_for : Option ℕ → Spawned
  err : SpawnError → Spawned

pub record SpawnEnv (V F : Type 0) : Type 0 where
  pub launch : Launch
  pub now : ℕ
  pub before_check : Others V F
  pub before_begin : Others V F
  pub before_pid : Others V F

-- A launch during which no other task touches the state.
abbrev pub calm : {V F : Type 0} → Launch → ℕ → SpawnEnv V F
calm l now = record {
  launch = l;
  now = now;
  before_check = λ st. st;
  before_begin = λ st. st;
  before_pid = λ st. st;
}

-- The argument vector of the child. `port` is the port in decimal, as `to_string` prints it.
unfoldable pub command_line : Worker → Text → Model → Text → List Text
unfolding lit
command_line w port m host =
    w.default_args ++ (lit "-m" ∷ m.model ∷ lit "--host" ∷ host ∷ lit "--port" ∷ port ∷ [])

-- Signals that `/bin/kill` is run with.
pub data Signal : Type 0 where
  term kill : ℕ → Signal

pub record StopEnv (V F : Type 0) : Type 0 where
  pub alive : ℕ → Bool  -- the answer of the n-th call of `pid_alive`
  pub before_mark : Others V F
  pub grace : Others V F  -- from `stopping = true` to the last hold of the lock

-- What runs between the holds of `start_model` that no other operation has.
pub record SwitchEnv (V F : Type 0) : Type 0 where
  pub before_look : Others V F  -- then it is asked whether any model runs
  pub before_halt : Others V F  -- then `stop_inner` reads the pid
  pub before_reset : Others V F

-- `for _ in 0..10 { if !pid_alive(pid) { break; } sleep }`: the number of calls made, from the
-- `i`-th on.
unfoldable pub grace_loop : (ℕ → Bool) → ℕ → ℕ → ℕ
grace_loop alive zero i = i
grace_loop alive (suc rounds) i = elim (alive i) [
  | true ↦ grace_loop alive rounds (suc i)
  | false ↦ suc i
]

unfoldable pub signals : (ℕ → Bool) → ℕ → List Signal
unfolding grace_loop
signals alive pid = term pid ∷ (if alive (grace_loop alive 10 0) then kill pid ∷ [] else [])

module _ {V F : Type 0} where
  launch_child : SpawnEnv V F → Launch → WorkerState V F → WorkerState V F × Spawned
  launch_child e (no_log why) st = (st, err (log_error why))
  launch_child e (no_clone why) st = (st, err (log_error why))
  launch_child e (spawn_failed why) st =
      (spawn_crashed why (e.before_pid st), err (launch_error why))
  launch_child e (child pid) st = (store_pid pid (e.before_pid st), waits_for pid)

  unfoldable pub spawn : SpawnEnv V F → Model → WorkerState V F → WorkerState V F × Spawned
  unfolding is_running spawn_begin spawn_crashed store_pid launch_child
  spawn e m st =
      let checked = e.before_check st in
      if is_running m checked
      then (checked, already)
      else launch_child e e.launch (spawn_begin m e.now (e.before_begin checked))

  unfoldable pub stop_inner : StopEnv V F → WorkerState V F → WorkerState V F × List Signal
  unfolding mark_stopping mark_stopped signals
  stop_inner e st = elim st.pid [
    | none ↦ (mark_stopped (e.grace st), [])
    | some pid ↦ (mark_stopped (e.grace (mark_stopping (e.before_mark st))), signals e.alive pid)
  ]

  -- `start_model`, holding the `lifecycle` lock: the state, the child, and the signals sent.
  unfoldable pub start_model :
      SwitchEnv V F
      → StopEnv V F
      → SpawnEnv V F
      → Model
      → WorkerState V F
      → WorkerState V F × Spawned × List Signal
  unfolding is_running reset_restarts spawn stop_inner
  start_model between halt e m st =
      if is_running m st
      then (st, already, [])
      else let looked = between.before_look st in
        let (st', sent) =
          if is_some looked.pid
          then stop_inner halt (between.before_halt looked)
          else (looked, []) in
        let (st'', r) = spawn e m (reset_restarts (between.before_reset st')) in (st'', r, sent)
