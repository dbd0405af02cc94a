-- ===== src/Jobs/Download/Registry.antt =====
-- One download at a time, and one model of each id.
use llm_ctl.Base.{
  ℕ, ◌≡◌, refl, ap, sym, ◌∙◌, Option, none, some, Bool, true, false, List, [], ◌∷◌, ◌++◌, arith,
  Bool-cases, inl, inr,
}
use llm_ctl.Base.Text.{Text, lit, text_eq, text_eq_comm}
use llm_ctl.Config.{Model}
use llm_ctl.Collect.{snapshot}
use llm_ctl.Collect.Window.{last}
use llm_ctl.Jobs.{succeeded, failed, is_running, or_false}
use llm_ctl.Jobs.Logs.{both_read, push_capped_total, push_lines_total, collect_new}
use llm_ctl.Jobs.Download.{
  DownloadManager, log_cap, Fetched, fail, finished, has_id, derive_id, register, found, judge,
  logged, task, persist_model,
}

abbrev pub UniqueIds : List Model → Type 0
UniqueIds [] = Unit
UniqueIds (m ∷ ms) = (has_id m.id ms ≡ false) × UniqueIds ms

has_id-append :
    (id : Text) (ms : List Model) (m : Model)
    → has_id id ms ≡ false
    → text_eq m.id id ≡ false
    → has_id id (ms ++ m ∷ []) ≡ false
unfolding has_id
has_id-append id [] m h e = rw e refl
has_id-append id (x ∷ ms) m h e = ground (arith, has_id-append id ms m)

append-UniqueIds :
    (ms : List Model) (m : Model) → UniqueIds ms → has_id m.id ms ≡ false → UniqueIds (ms ++ m ∷ [])
unfolding has_id
append-UniqueIds [] m u h = (refl, tt)
append-UniqueIds (x ∷ ms) m u h =
    let others : has_id m.id ms ≡ false = ground arith in
    let other : text_eq x.id m.id ≡ false = ground arith in
    (has_id-append x.id ms m u.0 (text_eq_comm m.id x.id ∙ other), append-UniqueIds ms m u.1 others)

module _ {F : Type 0} where
  -- How a task ends: the job failed and no model is new; or it went well and names a model that is
  -- on the list, either one that was, or one that is new at its end.
  pub data IsDone (m m' : DownloadManager F) : Type 0 where
    lost : m'.job.status ≡ failed → m'.models ≡ m.models → IsDone m m'
    kept :
        (id : Text)
        → m'.job.status ≡ succeeded
        → m'.job.registered ≡ some id
        → has_id id m.models ≡ true
        → m'.models ≡ m.models
        → IsDone m m'
    added :
        (model : Model)
        → m'.job.status ≡ succeeded
        → m'.job.registered ≡ some model.id
        → has_id model.id m.models ≡ false
        → m'.models ≡ m.models ++ model ∷ []
        → IsDone m m'

  pub over : (m m' : DownloadManager F) → IsDone m m' → is_running m'.job.status ≡ false
  unfolding is_running
  over m m' (lost s k) = rw s refl
  over m m' (kept id s r h k) = rw s refl
  over m m' (added model s r h k) = rw s refl

  pub IsDone-UniqueIds :
      (m m' : DownloadManager F) → IsDone m m' → UniqueIds m.models → UniqueIds m'.models
  IsDone-UniqueIds m m' (lost s k) u = rw k u
  IsDone-UniqueIds m m' (kept id s r h k) u = rw k u
  IsDone-UniqueIds m m' (added model s r h k) u = rw k (append-UniqueIds m.models model u h)

  module _ (alphanumeric : ℕ → Bool) (file_stem : Text → Option Text) where
    -- What `task` is shown to give.
    Ends : Option (DownloadManager F) → DownloadManager F → Type 0
    Ends r m = (m' : DownloadManager F) × (r ≡ some m') × IsDone m m'

    register_done :
        (repo path id : Text) (writable : Bool) (m : DownloadManager F)
        → Ends (register alphanumeric file_stem repo path id writable m) m
    unfolding register finished Ends
    register_done repo path id writable m = elim (Bool-cases (has_id id m.models)) [
      | inl there ↦ (finished id m, rw (there, register) refl, kept id refl refl there refl)
      | inr fresh ↦
          let line : Text = lit "registered model '" ++ id ++ lit "'" in
          let (log, e) = push_capped_total log_cap m.job.log line (omega arith) in
          let model : Model = record {
            id = id;
            model = path;
            autostart = false;
            description = lit "hf: " ++ repo;
          } in
          (
            finished id (record m {
              job = record (m.job) { log = log };
              models = m.models ++ model ∷ [];
              config = persist_model writable id path (lit "hf: " ++ repo) m.config;
            }),
            rw (fresh, e, register) refl,
            added model refl refl fresh refl,
          )
    ]

    found_done :
        (repo : Text) (writable : Bool) (path : Option Text) (m : DownloadManager F)
        → Ends (found alphanumeric file_stem repo writable path m) m
    unfolding found fail Ends
    found_done repo writable none m =
        (fail (lit "resolved GGUF not found in HF cache") m, refl, lost refl refl)
    found_done repo writable (some path) m =
        register_done repo path (derive_id alphanumeric file_stem path) writable m

    judge_done :
        (repo : Text) (f : Fetched F) (m : DownloadManager F)
        → Ends (judge alphanumeric file_stem repo f m) m
    unfolding judge fail Ends
    judge_done repo f m = elim (Bool-cases (or_false f.exit)) [
      | inl good ↦
          let (m', e, d) = found_done repo f.writable f.resolved m in (m', rw (good, judge) e, d)
      | inr bad ↦
          (fail (lit "hf download exit " ++ f.exit_shown) m, rw (bad, judge) refl, lost refl refl)
    ]

    -- The two managers differ in the job's log and time only, so what is done is the same.
    IsDone-from : (m n m' : DownloadManager F) → n.models ≡ m.models → IsDone n m' → IsDone m m'
    IsDone-from m n m' e (lost s k) = lost s (k ∙ e)
    IsDone-from m n m' e (kept id s r h k) = kept id s r (ap (has_id id) (sym e) ∙ h) (k ∙ e)
    IsDone-from m n m' e (added model s r h k) =
        added model s r (ap (has_id model.id) (sym e) ∙ h) (k ∙ ap (λ ms. ms ++ model ∷ []) e)

    logged_done :
        (repo : Text) (f : Fetched F) (m : DownloadManager F) (log : List Text)
        → Ends (logged alphanumeric file_stem repo f m (some log)) m
    unfolding logged Ends
    logged_done repo f m log =
        let n : DownloadManager F = record m {
          job = record (m.job) { log = log; finished_at = some f.finished_at };
        } in
        let (m', e, d) = judge_done repo f n in (m', e, IsDone-from m n m' refl d)

    task-logged :
        (repo : Text) (f : Fetched F) (m : DownloadManager F)
        → (log : List Text) × (task alphanumeric file_stem repo f m
            ≡ logged alphanumeric file_stem repo f m (some log))
    unfolding task snapshot
    task-logged repo f m =
        let shown = last log_cap (both_read true true f.said) in
        let (log, e) = push_lines_total log_cap m.job.log shown (omega arith) in
        (log, rw (collect_new log_cap f.said (omega arith), e, task) refl)

    -- The job has gone well exactly if the child exited well and the file was found in the cache, and
    -- then it names the model that the file's path gives.
    pub Judged : Option Bool → Option Text → DownloadManager F → Type 0
    Judged (some true) (some path) m =
        (m.job.status ≡ succeeded)
        × (m.job.registered ≡ some (derive_id alphanumeric file_stem path))
    Judged exit resolved m = m.job.status ≡ failed

    register-finishes :
        (repo path id : Text) (writable : Bool) (m m' : DownloadManager F)
        → register alphanumeric file_stem repo path id writable m ≡ some m'
        → (m'.job.status ≡ succeeded) × (m'.job.registered ≡ some id)
    unfolding register finished
    register-finishes repo path id writable m m' e = ground arith

    failing :
        (why : Text) (m m' : DownloadManager F)
        → ◌≡◌ {A = Option (DownloadManager F)} (some (fail why m)) (some m')
        → m'.job.status ≡ failed
    unfolding fail
    failing why m m' e = ground arith

    judge-Judged :
        (repo : Text) (f : Fetched F) (m m' : DownloadManager F) (exit : Option Bool)
        (resolved : Option Text)
        → f.exit ≡ exit
        → f.resolved ≡ resolved
        → judge alphanumeric file_stem repo f m ≡ some m'
        → Judged exit resolved m'
    unfolding judge found fail Judged
    judge-Judged repo f m m' (some true) (some path) x y e =
        register-finishes repo path (derive_id alphanumeric file_stem path) f.writable m m'
          (rw (x, y, judge, found) at e)
    judge-Judged repo f m m' (some true) none x y e =
        failing (lit "resolved GGUF not found in HF cache") m m' (rw (x, y, judge, found) at e)
    judge-Judged repo f m m' (some false) resolved x y e =
        failing (lit "hf download exit " ++ f.exit_shown) m m' (rw (x, judge) at e)
    judge-Judged repo f m m' none resolved x y e =
        failing (lit "hf download exit " ++ f.exit_shown) m m' (rw (x, judge) at e)

    logged-Judged :
        (repo : Text) (f : Fetched F) (m m' : DownloadManager F) (log : List Text)
        → logged alphanumeric file_stem repo f m (some log) ≡ some m'
        → Judged f.exit f.resolved m'
    unfolding logged
    logged-Judged repo f m m' log e = judge-Judged repo f _ m' f.exit f.resolved refl refl e

    -- The task of a download never panics. At its end the job has gone well exactly if the child
    -- exited well and the file was found in the cache, and has failed otherwise; if it failed, no
    -- model is new, and if it went well it names the model that the file's path gives, which is on
    -- the list, new only if its id was not there.
    pub task-IsDone :
        (repo : Text) (f : Fetched F) (m : DownloadManager F)
        → (m' : DownloadManager F) × (task alphanumeric file_stem repo f m ≡ some m')
          × IsDone m m'
          × Judged f.exit f.resolved m'
    unfolding Ends
    task-IsDone repo f m =
        let (log, e) = task-logged repo f m in
        let (m', e', d) = logged_done repo f m log in
        (m', e ∙ e', d, logged-Judged repo f m m' log e')
