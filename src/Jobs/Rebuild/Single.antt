-- ===== src/Jobs/Rebuild/Single.antt =====
-- One rebuild at a time.
use llm_ctl.Base.{
  suc, ◌≡◌, refl, ap, ◌∙◌, Option, none, some, true, false, List, [], ◌∷◌, Bool-cases, inl, inr,
}
use llm_ctl.Base.Text.{Text}
use llm_ctl.Jobs.{is_running, running}
use llm_ctl.Jobs.Rebuild.{
  RebuildManager, claim, note_before, fresh, Built, Site, Event, requested, launched, dropped,
  ended, requesting, launching, dropping, ending, step, run,
}
use llm_ctl.Jobs.Rebuild.Outcome.{task-IsConcluded}

module _ {F : Type 0} where
  abbrev pub Busy : Site F → Type 0
  Busy s = (is_running s.manager.job.status ≡ true) × (s.manager.job.log ≡ [])

  -- No start waits and no task runs, or one start waits, or one task runs; in the last two cases
  -- the job is on record as running.
  pub data IsSingle (s : Site F) : Type 0 where
    settled : s.claims ≡ 0 → s.tasks ≡ [] → IsSingle s
    claimed : Busy s → s.claims ≡ 1 → s.tasks ≡ [] → IsSingle s
    building : (sha : Option Text) → Busy s → s.claims ≡ 0 → s.tasks ≡ sha ∷ [] → IsSingle s

  claim_refused :
      (now : F) (s : Site F)
      → is_running s.manager.job.status ≡ true
      → step (requested now) s ≡ some s
  unfolding step
  claim_refused now s r = rw (r, claim, requesting) refl

  claim_taken :
      (now : F) (s : Site F)
      → is_running s.manager.job.status ≡ false
      → step (requested now) s
        ≡ some (record s {
          manager = record (s.manager) { job = fresh running (some now) };
          claims = suc s.claims;
        })
  unfolding step
  claim_taken now s r = rw (r, claim, requesting) refl

  abbrev pub Kept : Event F → Site F → Type 0
  Kept e s = (s' : Site F) × (step e s ≡ some s') × IsSingle s'

  begun : F → RebuildManager F → RebuildManager F
  begun now m = record m { job = fresh running (some now) }

  idle_site :
      (s : Site F)
      → is_running s.manager.job.status ≡ false
      → IsSingle s
      → (s.claims ≡ 0) × (s.tasks ≡ [])
  idle_site s free (settled c t) = (c, t)
  idle_site s free (claimed b c t) = let r : is_running s.manager.job.status ≡ true = b.0 in cc
  idle_site s free (building sha b c t) = let r : is_running s.manager.job.status ≡ true = b.0 in cc

  -- A claim that is taken, and whose start git answers, begins the one task.
  pub claimed_single :
      (now : F) (sha : Option Text) (s : Site F) (m : RebuildManager F)
      → claim now s.manager ≡ some m
      → IsSingle s
      → IsSingle (record s { manager = note_before sha m; tasks = sha ∷ s.tasks })
  unfolding note_before begun claim
  claimed_single now sha s m e h = elim (Bool-cases (is_running s.manager.job.status)) [
    | inl r ↦ let refused : claim now s.manager ≡ none = rw (r, claim) refl in cc
    | inr free ↦
        let taken : claim now s.manager ≡ some (begun now s.manager) = rw (free, claim) refl in
        let same : m ≡ begun now s.manager = cc in
        let (c, t) = idle_site s free h in
        rw same (building sha (unfold fresh is_running in (refl, refl)) c (ap (◌∷◌ sha) t))
  ]

  requested-Kept : (now : F) (s : Site F) → IsSingle s → Kept (requested now) s
  requested-Kept now s (settled c t) = elim (Bool-cases (is_running s.manager.job.status)) [
    | inl r ↦ (s, claim_refused now s r, settled c t)
    | inr free ↦
        (_, claim_taken now s free, claimed (unfold fresh is_running in (refl, refl)) (ap suc c) t)
  ]
  requested-Kept now s (claimed b c t) = (s, claim_refused now s b.0, claimed b c t)
  requested-Kept now s (building sha b c t) = (s, claim_refused now s b.0, building sha b c t)

  launched-Kept : (sha : Option Text) (s : Site F) → IsSingle s → Kept (launched sha) s
  unfolding step note_before
  launched-Kept sha s (settled c t) = (s, rw (c, launching) refl, settled c t)
  launched-Kept sha s (claimed b c t) = (
    record { manager = note_before sha s.manager; claims = 0; tasks = sha ∷ s.tasks },
    rw (c, launching) refl,
    building sha b refl (ap (◌∷◌ sha) t),
  )
  launched-Kept sha s (building sha' b c t) = (s, rw (c, launching) refl, building sha' b c t)

  dropped-Kept : (s : Site F) → IsSingle s → Kept dropped s
  unfolding step
  dropped-Kept s (settled c t) = (s, rw (c, dropping) refl, settled c t)
  dropped-Kept s (claimed b c t) = (record s { claims = 0 }, rw (c, dropping) refl, settled refl t)
  dropped-Kept s (building sha b c t) = (s, rw (c, dropping) refl, building sha b c t)

  ended-Kept : (b : Built F) (s : Site F) → IsSingle s → Kept (ended b) s
  unfolding step
  ended-Kept b s (settled c t) = (s, rw (t, ending) refl, settled c t)
  ended-Kept b s (claimed h c t) = (s, rw (t, ending) refl, claimed h c t)
  ended-Kept b s (building sha h c t) =
      let (m, e, over) = task-IsConcluded sha b s.manager h.1 in
      (record s { manager = m; tasks = [] }, rw (t, e, ending) refl, settled c refl)

  pub step-Kept : (e : Event F) (s : Site F) → IsSingle s → Kept e s
  step-Kept (requested now) s h = requested-Kept now s h
  step-Kept (launched sha) s h = launched-Kept sha s h
  step-Kept dropped s h = dropped-Kept s h
  step-Kept (ended b) s h = ended-Kept b s h

  -- Whatever starts arrive, are answered by git or dropped, and whenever tasks end, nothing panics
  -- and at most one rebuild is under way, as it was before.
  pub run-IsSingle :
      (es : List (Event F)) (s : Site F)
      → IsSingle s
      → (s' : Site F) × (run es s ≡ some s') × IsSingle s'
  unfolding run
  run-IsSingle [] s h = (s, refl, h)
  run-IsSingle (e ∷ es) s h =
      let (s₁, e₁, h₁) = step-Kept e s h in
      let (s₂, e₂, h₂) = run-IsSingle es s₁ h₁ in (s₂, rw (e₁, run) e₂, h₂)

  run-step :
      (e : Event F) (es : List (Event F)) (s s' : Site F)
      → step e s ≡ some s'
      → run (e ∷ es) s ≡ run es s'
  unfolding run
  run-step e es s s' h = rw (h, run) refl

  stuck :
      (es : List (Event F)) (s : Site F)
      → is_running s.manager.job.status ≡ true
      → s.claims ≡ 0
      → s.tasks ≡ []
      → run es s ≡ some s
  unfolding run step
  stuck [] s r c t = refl
  stuck (requested now ∷ es) s r c t =
      run-step (requested now) es s s (claim_refused now s r) ∙ stuck es s r c t
  stuck (launched sha ∷ es) s r c t =
      run-step (launched sha) es s s (rw (c, launching) refl) ∙ stuck es s r c t
  stuck (dropped ∷ es) s r c t = run-step dropped es s s (rw (c, dropping) refl) ∙ stuck es s r c t
  stuck (ended b ∷ es) s r c t = run-step (ended b) es s s (rw (t, ending) refl) ∙ stuck es s r c t

  -- A start whose handler is dropped while git is asked leaves the job running for good: whatever
  -- follows, nothing changes any more.
  pub run-dropped :
      (now : F) (m : RebuildManager F) (es : List (Event F))
      → is_running m.job.status ≡ false
      → (m' : RebuildManager F) × (run
            (requested now ∷ dropped ∷ es)
            (record { manager = m; claims = 0; tasks = [] })
          ≡ some (record { manager = m'; claims = 0; tasks = [] }))
        × (is_running m'.job.status ≡ true)
  run-dropped now m es free =
      let m' : RebuildManager F = record m { job = fresh running (some now) } in
      let running_now : is_running m'.job.status ≡ true = unfold fresh is_running in refl in
      let start : Site F = record { manager = m; claims = 0; tasks = [] } in
      let begun : Site F = record { manager = m'; claims = 1; tasks = [] } in
      let gone : Site F = record { manager = m'; claims = 0; tasks = [] } in
      (
        m',
        run-step (requested now) (dropped ∷ es) start begun (claim_taken now start free)
            ∙ run-step dropped es begun gone (unfold step dropping in refl)
            ∙ stuck es gone running_now refl refl,
        running_now,
      )
