-- ===== src/Jobs/Download.antt =====
-- src/download.rs: the download job, and the model that it registers.
pub mod Persisted
pub mod Files
pub mod Cache
pub mod Listing
pub mod Registry
pub mod Single
use llm_ctl.Base.{
  ℕ, Option, none, some, Bool, true, false, ◌||◌, List, [], ◌∷◌, ◌++◌, if◌then◌else◌, ◌==◌,
}
use llm_ctl.Base.Text.{
  Text, lit, is_empty, text_eq, starts_with, trim_start, trim_end, to_ascii_lowercase,
}
use llm_ctl.Config.{Hf, Model}
use llm_ctl.Collect.{new, snapshot, push_capped}
use llm_ctl.Jobs.{
  JobStatus, idle, running, succeeded, failed, is_running, push_lines, Said, collect_both, or_false,
}

pub record Job (F : Type 0) : Type 0 where
  pub status : JobStatus
  pub repo : Option Text
  pub include : Option Text
  pub started_at : Option F
  pub finished_at : Option F
  pub error : Option Text
  pub registered : Option Text
  pub log : List Text

pub record HfDownloadReq : Type 0 where
  pub repo : Text
  pub include : Option Text

-- The manager with the models that it shares, and the text of the config file, if it has a path.
pub record DownloadManager (F : Type 0) : Type 0 where
  pub cfg : Hf
  pub job : Job F
  pub models : List Model
  pub config : Option Text

abbrev pub log_cap : ℕ
log_cap = 500

unfoldable pub new_manager : {F : Type 0} → Hf → List Model → Option Text → DownloadManager F
new_manager cfg models config = record {
  cfg = cfg;
  job = record {
    status = idle;
    repo = none;
    include = none;
    started_at = none;
    finished_at = none;
    error = none;
    registered = none;
    log = [];
  };
  models = models;
  config = config;
}

default_include : Option Text → Text
default_include none = lit "*.gguf"
default_include (some pattern) = pattern

unfoldable pub begun : {F : Type 0} → F → HfDownloadReq → Job F
unfolding default_include
begun now req = record {
  status = running;
  repo = some req.repo;
  include = some (default_include req.include);
  started_at = some now;
  finished_at = none;
  error = none;
  registered = none;
  log = [];
}

unfoldable pub fail : {F : Type 0} → Text → DownloadManager F → DownloadManager F
fail e m = record m { job = record job { status = failed; error = some e } }
  where
    open m use {job}

unfoldable pub spawned :
    {F : Type 0} → Option Text → DownloadManager F → DownloadManager F × Option Text
unfolding fail
spawned none m = (m, none)
spawned (some e) m = (fail (lit "spawn failed: " ++ e) m, some (lit "spawn failed: " ++ e))

unfoldable pub no_command : List Text → Bool
no_command [] = true
no_command (c ∷ cs) = false

-- `start`, up to the spawn: with the error that it answers, given the error of the spawn, if any.
unfoldable pub start :
    {F : Type 0}
    → F
    → HfDownloadReq
    → Option Text
    → DownloadManager F
    → DownloadManager F × Option Text
unfolding spawned begun is_running no_command
start now req spawn m =
    if no_command m.cfg.cli
    then (m, some (lit "hf.cli is empty in config"))
    else if is_running m.job.status
    then (m, some (lit "a download is already running"))
    else spawned spawn (record m { job = begun now req })

-- What the task meets: what the child says, whether it exits well, `{:?}` of its exit, the file
-- found in the cache, and whether the config file can be appended to.
pub record Fetched (F : Type 0) : Type 0 where
  pub said : List Said
  pub exit : Option Bool
  pub exit_shown : Text
  pub resolved : Option Text
  pub finished_at : F
  pub writable : Bool

-- `ms.iter().any(|m| m.id == id)`.
unfoldable pub has_id : Text → List Model → Bool
has_id id [] = false
has_id id (m ∷ ms) = text_eq m.id id || has_id id ms

-- `str::contains`.
unfoldable pub contains : Text → Text → Bool
contains needle [] = is_empty needle
contains needle (c ∷ cs) = starts_with (c ∷ cs) needle || contains needle cs

unfoldable pub needle_of : Text → Text
needle_of id = lit "id = \"" ++ id ++ lit "\""

unfoldable pub block_of : Text → Text → Text → Text
block_of id path desc =
    lit "\n[[models]]\nid          = \""
    ++ id
    ++ lit "\"\nmodel       = \""
    ++ path
    ++ lit "\"\nautostart   = false\ndescription = \""
    ++ desc
    ++ lit "\"\n"

unfoldable pub persist_model : Bool → Text → Text → Text → Option Text → Option Text
unfolding contains needle_of block_of
persist_model writable id path desc none = none
persist_model writable id path desc (some existing) =
    if contains (needle_of id) existing
    then some existing
    else if writable
    then some (existing ++ block_of id path desc)
    else some existing

unfoldable pub finished : {F : Type 0} → Text → DownloadManager F → DownloadManager F
finished id m = record m { job = record job { status = succeeded; registered = some id } }
  where
    open m use {job}

stem_of : Option Text → Text
stem_of none = []
stem_of (some stem) = stem

-- The manager with the tasks that run, each with its repo.
pub record Site (F : Type 0) : Type 0 where
  pub manager : DownloadManager F
  pub tasks : List Text

-- A start, with the error of its spawn if any; or a task runs to its end.
pub data Event (F : Type 0) : Type 0 where
  requested : F → HfDownloadReq → Option Text → Event F
  ended : Fetched F → Event F

-- A start that answers no error has begun a task.
unfoldable pub started : {F : Type 0} → Text → List Text → DownloadManager F × Option Text → Site F
started repo tasks (m, none) = record { manager = m; tasks = repo ∷ tasks }
started repo tasks (m, some e) = record { manager = m; tasks = tasks }

-- `alphanumeric` is `char::is_alphanumeric`, and `file_stem` that of the standard library's paths.
module _ (alphanumeric : ℕ → Bool) (file_stem : Text → Option Text) where
  -- Each run of other characters becomes one dash; the flag says that one has just been put.
  unfoldable slug : Bool → Text → Text
  slug dash [] = []
  slug dash (c ∷ cs) =
      if alphanumeric c
      then to_ascii_lowercase c ∷ slug false cs
      else if dash
      then slug true cs
      else 45 ∷ slug true cs

  unfoldable pub derive_id : Text → Text
  unfolding slug stem_of
  derive_id path =
      let id = trim_end (◌==◌ 45) (trim_start (◌==◌ 45) (slug false (stem_of (file_stem path)))) in
      if is_empty id then lit "hf-model" else id

module _ {F : Type 0} (alphanumeric : ℕ → Bool) (file_stem : Text → Option Text) where
  unfoldable pub register :
      Text → Text → Text → Bool → DownloadManager F → Option (DownloadManager F)
  unfolding finished has_id persist_model
  register repo path id writable m =
      if has_id id m.models
      then some (finished id m)
      else (elim (push_capped log_cap m.job.log (lit "registered model '" ++ id ++ lit "'")) [
        | none ↦ none
        | some log ↦ some (
            finished id (record m {
              job = record job { log = log };
              models = m.models ++ model ∷ [];
              config = persist_model writable id path (lit "hf: " ++ repo) m.config;
            }))
      ])
    where
      open m use {job}

      model : Model
      model = record { id = id; model = path; autostart = false; description = lit "hf: " ++ repo }

  unfoldable pub found : Text → Bool → Option Text → DownloadManager F → Option (DownloadManager F)
  unfolding register derive_id fail
  found repo writable none m = some (fail (lit "resolved GGUF not found in HF cache") m)
  found repo writable (some path) m =
      register repo path (derive_id alphanumeric file_stem path) writable m

  -- After the log: the state's lock is held to the end.
  unfoldable pub judge : Text → Fetched F → DownloadManager F → Option (DownloadManager F)
  unfolding found fail or_false
  judge repo f m =
      if or_false f.exit
      then found repo f.writable f.resolved m
      else some (fail (lit "hf download exit " ++ f.exit_shown) m)

  unfoldable pub logged :
      Text → Fetched F → DownloadManager F → Option (List Text) → Option (DownloadManager F)
  unfolding judge
  logged repo f m none = none
  logged repo f m (some log) =
      judge repo f (record m { job = record job { log = log; finished_at = some f.finished_at } })
    where
      open m use {job}

  -- The whole task; `none` stands for a panic.
  unfoldable pub task : Text → Fetched F → DownloadManager F → Option (DownloadManager F)
  unfolding collect_both new snapshot push_lines logged
  task repo f m = elim (collect_both true true f.said (new log_cap)) [
    | none ↦ none
    | some sink ↦ logged repo f m (push_lines log_cap m.job.log (snapshot sink))
  ]

  unfoldable pub ending : Fetched F → List Text → Site F → Option (Site F)
  ending f [] s = some s
  ending f (repo ∷ rest) s = elim (task repo f s.manager) [
    | none ↦ none
    | some m ↦ some (record { manager = m; tasks = rest })
  ]

  unfoldable pub step : Event F → Site F → Option (Site F)
  unfolding start started ending
  step (requested now req spawn) s = some (started req.repo s.tasks (start now req spawn s.manager))
  step (ended f) s = ending f s.tasks s

  unfoldable pub run : List (Event F) → Site F → Option (Site F)
  unfolding step
  run [] s = some s
  run (e ∷ es) s = elim (step e s) [ none ↦ none | some s' ↦ run es s' ]
