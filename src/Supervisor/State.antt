-- ===== src/Supervisor/State.antt =====
-- src/supervisor.rs, the state: `WorkerStatus` and `WorkerState`. `V` is the type of a JSON value and
-- `F` that of `f64`; an `Instant` is a number of nanoseconds.
use llm_ctl.Base.{ℕ, ◌-◌, ◌*◌, Option, none, some, Bool, true, false, List, ltb, ◌==◌}
use llm_ctl.Base.Int.{ℤ}
use llm_ctl.Base.Text.{Text, text_eq}
use llm_ctl.Config.{Model}

pub data WorkerStatus : Type 0 where
  stopped starting ready stopping : WorkerStatus
  crashed : Text → WorkerStatus

-- The object that the proxy stashes: the cache figures of the last recorded turn.
pub record LastTurn : Type 0 where
  pub session_id : Text
  pub cache_n : ℤ
  pub prompt_n : ℤ
  pub predicted_n : ℤ

pub record WorkerState (V F : Type 0) : Type 0 where
  pub model_id : Option Text
  pub model : Option Model
  pub pid : Option ℕ
  pub status : WorkerStatus
  pub stopping : Bool
  pub started_at : Option ℕ
  pub restarts : ℕ
  pub last_restart : Option ℕ
  pub last_request_at : Option F
  pub last_turn : Option LastTurn
  pub last_slots : Option V
  pub last_metrics : Option (List (Text × F))

unfoldable pub new : {V F : Type 0} → WorkerState V F
new = record {
  model_id = none;
  model = none;
  pid = none;
  status = WorkerStatus.stopped;
  stopping = false;
  started_at = none;
  restarts = 0;
  last_restart = none;
  last_request_at = none;
  last_turn = none;
  last_slots = none;
  last_metrics = none;
}

-- `Duration::from_secs`.
abbrev pub from_secs : ℕ → ℕ
from_secs n = n * 1000000000

-- `l.elapsed() > Duration::from_secs(n)`, at the instant `now`.
abbrev pub elapsed_over : ℕ → ℕ → ℕ → Bool
elapsed_over n now l = ltb (from_secs n) (now - l)

abbrev pub is_some {ℓ} : {A : Type ℓ} → Option A → Bool
is_some none = false
is_some (some a) = true

abbrev pub is_crashed : WorkerStatus → Bool
is_crashed (WorkerStatus.crashed why) = true
is_crashed _ = false

-- `st.pid == pid`.
abbrev pub pid_eq : Option ℕ → Option ℕ → Bool
pid_eq none none = true
pid_eq none (some q) = false
pid_eq (some p) none = false
pid_eq (some p) (some q) = p == q

-- `model_id.as_deref() == Some(id)`.
abbrev pub is_text : Option Text → Text → Bool
is_text none id = false
is_text (some a) id = text_eq a id
