-- ===== src/Api/Messages.antt =====
-- src/main.rs: the routes of the control API, and what its handlers are asked and answer.
use llm_ctl.Base.{ℕ, Option, Bool, true, false, List}
use llm_ctl.Base.Text.{Text}
use llm_ctl.Config.{Config}
use llm_ctl.Supervisor.State.{WorkerStatus, LastTurn}
use llm_ctl.Supervisor.Lifecycle.{SpawnEnv, StopEnv, SwitchEnv, SpawnError}
use llm_ctl.Supervisor.Health.{ModelRow}
use llm_ctl.Store.Tables.{Session, SessionRow}
use llm_ctl.Store.Service.{Server}
use llm_ctl.Proxy.Http.{Method, get, head, post, other}
use llm_ctl.Jobs.Download as Download
use llm_ctl.Jobs.Download.Files.{Listing}
use llm_ctl.Jobs.Rebuild as Rebuild
use llm_ctl.Stats.{HostStats}
use llm_ctl.Pve as Pve
use llm_ctl.Db as Db

-- The routes, as axum's router finds them.
pub data Endpoint : Type 0 where
  health pve db session_test sessions models_list model_stop : Endpoint
  model_start : Text → Endpoint
  hf_download hf_files rebuild status_rollup session_active : Endpoint

pub data Access : Type 0 where
  reads writes both : Access

-- The methods that a route is made with: `get`, `post` or both.
unfoldable pub access : Endpoint → Access
access health = reads
access pve = reads
access db = reads
access session_test = reads
access sessions = reads
access models_list = reads
access (model_start id) = writes
access model_stop = writes
access hf_download = both
access hf_files = reads
access rebuild = both
access status_rollup = reads
access session_active = writes

-- Whether a route of that kind takes the method; axum's `get` takes HEAD too.
unfoldable pub takes : Access → Method → Bool
takes reads get = true
takes reads head = true
takes reads m = false
takes writes post = true
takes writes m = false
takes both other = false
takes both m = true

pub record Health (V F : Type 0) : Type 0 where
  pub model : Option Text
  pub pid : Option ℕ
  pub status : WorkerStatus
  pub slots : Option V
  pub metrics : Option (List (Text × F))
  pub pve_reachable : Bool
  pub postgres_reachable : Bool

pub record Rollup (V F : Type 0) : Type 0 where
  pub health : Health V F
  pub last_request_at : Option F
  pub last_turn : Option LastTurn
  pub models : List ModelRow
  pub sessions : List (SessionRow F)
  pub download : Download.Job F
  pub rebuild : Rebuild.Job F
  pub builds : List (Rebuild.BuildRecord F)
  pub llama : V
  pub stats : HostStats F

pub data Answer (V F : Type 0) : Type 0 where
  message : Text → Answer V F
  done : Answer V F
  started downloading : Text → Answer V F
  containers : List Pve.Lxc → Answer V F
  postgres_up : Answer V F
  postgres_down : Text → Answer V F
  counted : ℕ → Answer V F
  session_rows : List (SessionRow F) → Answer V F
  model_rows : List ModelRow → Answer V F
  download_job : Download.Job F → Answer V F
  rebuild_job : Rebuild.Job F → Answer V F
  file_rows : Text → List (Text × F) → Answer V F
  healthy : Health V F → Answer V F
  rolled_up : Rollup V F → Answer V F

pub record Reply (V F : Type 0) : Type 0 where
  pub status : ℕ
  pub answer : Answer V F

pub record ApiRequest (V : Type 0) : Type 0 where
  pub method : Method
  pub endpoint : Endpoint
  pub headers : List (Text × Text)
  pub body : Option V  -- what the `Json` extractor makes of the body
  pub download : Option Download.HfDownloadReq
  pub repo : Option Text  -- the query's `repo`

-- What the world answers to one request; an error is its text.
pub record ApiWorld (V F C : Type 0) : Type 0 where
  pub cfg : Config
  pub pve : Pve.PveWorld C
  pub pve_error : Pve.Error → Text
  pub pve_in_time : Bool  -- within the second that a rollup gives it
  pub db : Db.DbWorld
  pub connect : Option Text
  pub migrate : Option Text
  pub ping : Option Text
  pub server : Server V F
  pub counts : Bool
  pub turn_error : Text
  pub list_error : Option Text
  pub newest_first : List (Session F) → List (Session F)
  pub switch : SwitchEnv V F
  pub halt : StopEnv V F
  pub launch : SpawnEnv V F
  pub spawn_text : SpawnError → Text
  pub hf_now : F
  pub hf_spawn : Option Text
  pub listing : Listing V
  pub sort : List (Text × ℕ) → List (Text × ℕ)  -- `sort_by_key` on a listing
  pub round : F → F
  pub rebuild_now : F
  pub sha : Option Text
  pub llama : V
  pub stats : HostStats F

module _ {V F : Type 0} where
  abbrev pub reply : ℕ → Answer V F → Reply V F
  reply status answer = record { status = status; answer = answer }

  abbrev pub refuse : ℕ → Text → Reply V F
  refuse status e = reply status (message e)
