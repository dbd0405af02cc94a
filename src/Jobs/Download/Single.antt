-- ===== src/Jobs/Download/Single.antt =====
-- One download at a time, and one model of each id.
use llm_ctl.Base.{
  ℕ, ◌≡◌, refl, ap, ◌∙◌, Option, none, some, Bool, true, false, List, [], ◌∷◌, Bool-cases, inl, inr,
}
use llm_ctl.Base.Text.{Text}
use llm_ctl.Jobs.{is_running}
use llm_ctl.Jobs.Download.{
  DownloadManager, Fetched, fail, no_command, Site, Event, requested, ended, start, spawned,
  started, begun, ending, step, run, HfDownloadReq,
}
use llm_ctl.Jobs.Download.Registry.{UniqueIds, over, IsDone-UniqueIds, task-IsDone}

module _ {F : Type 0} where
  -- The job is on record as running exactly if a task runs, and then one does.
  pub data IsSingle (s : Site F) : Type 0 where
    vacant : is_running s.manager.job.status ≡ false → s.tasks ≡ [] → IsSingle s
    taken :
        (repo : Text) → is_running s.manager.job.status ≡ true → s.tasks ≡ repo ∷ [] → IsSingle s

  pub record IsSound (s : Site F) : Type 0 where
    pub single : IsSingle s
    pub unique : UniqueIds s.manager.models

  started_refused :
      (now : F) (req : HfDownloadReq) (spawn : Option Text) (s : Site F)
      → is_running s.manager.job.status ≡ true
      → started req.repo s.tasks (start now req spawn s.manager) ≡ s
  unfolding start started
  started_refused now req spawn s r = elim (Bool-cases (no_command s.manager.cfg.cli)) [
    | inl bare ↦ rw (bare, start) refl
    | inr given ↦ rw (given, r, start) refl
  ]

  spawned-IsSound :
      (now : F) (req : HfDownloadReq) (spawn : Option Text) (m : DownloadManager F)
      → UniqueIds m.models
      → IsSound (started req.repo [] (spawned spawn (record m { job = begun now req })))
  unfolding spawned started begun fail is_running
  spawned-IsSound now req none m u = record { single = taken req.repo refl refl; unique = u }
  spawned-IsSound now req (some e) m u = record { single = vacant refl refl; unique = u }

  started-IsSound :
      (now : F) (req : HfDownloadReq) (spawn : Option Text) (m : DownloadManager F)
      → is_running m.job.status ≡ false
      → UniqueIds m.models
      → IsSound (started req.repo [] (start now req spawn m))
  unfolding start started
  started-IsSound now req spawn m r u = elim (Bool-cases (no_command m.cfg.cli)) [
    | inl bare ↦ rw (bare, start) (record { single = vacant r refl; unique = u })
    | inr given ↦ rw (given, r, start) (spawned-IsSound now req spawn m u)
  ]

  -- A start keeps the downloads sound, whatever it answers.
  pub started_sound :
      (now : F) (req : HfDownloadReq) (spawn : Option Text) (s : Site F)
      → IsSound s
      → IsSound (started req.repo s.tasks (start now req spawn s.manager))
  started_sound now req spawn s h = elim h.single [
    | vacant r t ↦ rw t (started-IsSound now req spawn s.manager r h.unique)
    | taken repo r t ↦ rw (started_refused now req spawn s r) h
  ]

  module _ (alphanumeric : ℕ → Bool) (file_stem : Text → Option Text) where
    abbrev pub Kept : Event F → Site F → Type 0
    Kept e s = (s' : Site F) × (step alphanumeric file_stem e s ≡ some s') × IsSound s'

    pub requested-Kept :
        (now : F) (req : HfDownloadReq) (spawn : Option Text) (s : Site F)
        → IsSingle s
        → UniqueIds s.manager.models
        → Kept (requested now req spawn) s
    unfolding step
    requested-Kept now req spawn s (vacant r t) u = (
      started req.repo [] (start now req spawn s.manager),
      ap (λ ts. some (started req.repo ts (start now req spawn s.manager))) t,
      started-IsSound now req spawn s.manager r u,
    )
    requested-Kept now req spawn s (taken repo r t) u = (
      s,
      ap some (started_refused now req spawn s r),
      record { single = taken repo r t; unique = u },
    )

    ended-Kept :
        (f : Fetched F) (s : Site F) → IsSingle s → UniqueIds s.manager.models → Kept (ended f) s
    unfolding step
    ended-Kept f s (vacant r t) u = (
      s,
      ap (λ ts. ending alphanumeric file_stem f ts s) t ∙ unfold ending in refl,
      record { single = vacant r t; unique = u },
    )
    ended-Kept f s (taken repo r t) u =
        let (m, e, d, _) = task-IsDone alphanumeric file_stem repo f s.manager in
        (
          record { manager = m; tasks = [] },
          rw (t, e, ending) refl,
          record {
            single = vacant (over s.manager m d) refl;
            unique = IsDone-UniqueIds s.manager m d u;
          },
        )

    pub step-Kept : (e : Event F) (s : Site F) → IsSound s → Kept e s
    step-Kept (requested now req spawn) s h = requested-Kept now req spawn s h.single h.unique
    step-Kept (ended f) s h = ended-Kept f s h.single h.unique

    -- Whatever downloads are asked for and however they end, nothing panics, one download runs
    -- exactly while the job is on record as running, and no two models get the same id.
    pub run-IsSound :
        (es : List (Event F)) (s : Site F)
        → IsSound s
        → (s' : Site F) × (run alphanumeric file_stem es s ≡ some s') × IsSound s'
    unfolding run
    run-IsSound [] s h = (s, refl, h)
    run-IsSound (e ∷ es) s h =
        let (s₁, e₁, h₁) = step-Kept e s h in
        let (s₂, e₂, h₂) = run-IsSound es s₁ h₁ in (s₂, rw (e₁, run) e₂, h₂)
