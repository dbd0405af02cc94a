-- ===== src/Tests/World.antt =====
-- A small world to run in: floats are natural numbers, and a JSON value is one of a few documents.
use llm_ctl.Base.{
  ◌∷◌, ℕ, ◌+◌, ◌*◌, ◌/◌, String, Option, none, some, Bool, true, false, [], if◌then◌else◌,
}
use llm_ctl.Base.Int.{ℤ, pos, pos_part}
use llm_ctl.Base.Text.{Text, lit}
use llm_ctl.Config.{Model, Worker, Config}
use llm_ctl.External.{Json, Floats}
use llm_ctl.Supervisor.State.{WorkerState, WorkerStatus}
use llm_ctl.Store.Turn.{Turn}
use text.Mathlib.Text.{◌==◌ as str_eq}

pub data Doc : Type 0 where
  request timings : Doc
  words : Text → Doc
  flag : Bool → Doc
  number : ℕ → Doc

abbrev field : Doc → String → Option Doc
field request k =
    if str_eq k "model"
    then some (words (lit "m"))
    else if str_eq k "stream"
    then some (flag true)
    else if str_eq k "timings"
    then some timings
    else none
field timings k = if str_eq k "cache_n" then some (number 7) else none
field _ k = none

abbrev text_of : Doc → Option Text
text_of (words t) = some t
text_of _ = none

abbrev flag_of : Doc → Option Bool
flag_of (flag b) = some b
flag_of _ = none

abbrev number_of : Doc → Option ℕ
number_of (number n) = some n
number_of _ = none

abbrev integer_of : Doc → Option ℤ
integer_of (number n) = some (pos n)
integer_of _ = none

abbrev pub json : Json Doc ℕ
json = record {
  get = field;
  get_index = λ v i. none;
  as_str = text_of;
  as_bool = flag_of;
  as_i64 = integer_of;
  as_f64 = number_of;
  as_u64 = number_of;
  as_array = λ v. some (v ∷ []);
  from_slice = λ bytes. some request;
  slice_error = λ bytes. [];
  from_str = λ t. some request;
}

abbrev pub floats : Floats ℕ
floats = record {
  zero = 0;
  add = λ a b. a + b;
  of_i64 = pos_part;
  mul = λ a b. a * b;
  div = λ a b. a / b;
}

abbrev pub model : Model
model = record { id = lit "m"; model = lit "m.gguf"; autostart = true; description = [] }

abbrev pub worker : Worker
worker = record {
  port = 8080;
  default_args = [];
  gpu_env = [];
  restart_on_crash = true;
  max_restarts = 3;
}

abbrev pub config : Config
config = record {
  listen = record { host = lit "0.0.0.0"; port = 80 };
  llama = record {
    repo = lit "/l";
    build_dir = lit "/b";
    binary = lit "/s";
    git_remote = lit "o";
    git_branch = lit "m";
  };
  worker = worker;
  hf = record { cli = lit "hf" ∷ []; cache = lit "/c"; autoregister = true };
  proxmox = record {
    api = lit "https://p";
    node = lit "n";
    token_id = lit "t";
    ct_storage = [];
    ct_tag = lit "llm";
    ct_vmid_start = 100;
    cert_file = some (lit "~/c.pem");
    cts = [];
  };
  db = record { pgurl = lit "postgres://d"; schema_migrate = true };
  models = model ∷ [];
}

-- A worker that runs as process 41.
abbrev pub running : WorkerState Doc ℕ
running = record {
  model_id = some (lit "m");
  model = some model;
  pid = some 41;
  status = WorkerStatus.ready;
  stopping = false;
  started_at = some 0;
  restarts = 0;
  last_restart = none;
  last_request_at = none;
  last_turn = none;
  last_slots = none;
  last_metrics = none;
}

-- The same worker after it died by itself.
abbrev pub dead : WorkerState Doc ℕ
dead = record running {
  pid = none;
  status = WorkerStatus.crashed (lit "worker exited unexpectedly");
}

-- A process that is gone at once.
abbrev pub gone : ℕ → Bool
gone n = false

abbrev pub turn : Turn Doc ℕ
turn = record {
  session_id = lit "s";
  request_model = lit "m";
  request_messages = none;
  request_max_tokens = none;
  request_temperature = none;
  response_id = none;
  response_content = none;
  response_finish_reason = none;
  cache_n = pos 7;
  prompt_n = pos 3;
  prompt_ms = 5;
  prompt_per_second = 0;
  predicted_n = pos 40;
  predicted_ms = 9;
  predicted_per_second = 0;
  usage_prompt_tokens = pos 10;
  usage_completion_tokens = pos 40;
  usage_cached_tokens = pos 7;
  duration_ms = 14;
}
