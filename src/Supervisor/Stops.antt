-- ===== src/Supervisor/Stops.antt =====
-- Stopping and switching: what is left of the worker, whatever other tasks do meanwhile.
use llm_ctl.Base.{
  ℕ, zero, suc, ◌+◌, ◌≤◌, ◌≡◌, refl, inl, inr, Option, none, some, Bool, false, true, List, [], ◌∷◌,
  arith, ap, sym, ◌∙◌, if◌then◌else◌, Bool-cases, subst,
}
use llm_ctl.Config.{Model}
use llm_ctl.Supervisor.State.{is_some, WorkerState, WorkerStatus}
use llm_ctl.Supervisor.Sections.{is_running, child_exited, reset_restarts}
use llm_ctl.Supervisor.Lifecycle.{
  Spawned, spawn, child, StopEnv, SwitchEnv, waits_for, Signal, term, kill, grace_loop, signals,
  stop_inner, start_model, calm,
}

-- A process that has died does not come back.
abbrev pub StaysDead : (ℕ → Bool) → Type 0
StaysDead alive = (i j : ℕ) → i ≤ j → alive i ≡ false → alive j ≡ false

grace_loop-alive :
    (alive : ℕ → Bool) (rounds i : ℕ)
    → StaysDead alive
    → alive (grace_loop alive rounds i) ≡ alive (i + rounds)
unfolding grace_loop
grace_loop-alive alive zero i dead = ap alive (omega arith)
grace_loop-alive alive (suc rounds) i dead = elim (Bool-cases (alive i)) [
  | inl up ↦
      rw (up, grace_loop) (grace_loop-alive alive rounds (suc i) dead ∙ ap alive (omega arith))
  | inr down ↦
      rw (down, grace_loop)
        (dead i (suc i) (omega arith) down ∙ sym (dead i (i + suc rounds) (omega arith) down))
]

-- For a process that stays dead once it is, SIGTERM is always sent first, and SIGKILL follows
-- exactly if the eleventh check, after ten that are half a second apart, finds it alive.
pub signals-alive :
    (alive : ℕ → Bool) (pid : ℕ)
    → StaysDead alive
    → signals alive pid ≡ term pid ∷ (if alive 10 then kill pid ∷ [] else [])
unfolding signals
signals-alive alive pid dead = rw (grace_loop-alive alive 10 0 dead)

-- The signals that end the worker on record, if there is one.
pub sent_to : (ℕ → Bool) → Option ℕ → List Signal
sent_to alive none = []
sent_to alive (some old) = signals alive old

module _ {V F : Type 0} where
  -- Whatever the other tasks do while a stop waits, it ends with the worker stopped, with no pid
  -- and no stop in progress, and the exit of any child that comes after it changes nothing.
  pub stop_inner-IsStopped :
      (e : StopEnv V F) (st : WorkerState V F) (p : ℕ)
      → let st' = (stop_inner e st).0 in
        (st'.pid ≡ none)
        × (st'.status ≡ WorkerStatus.stopped)
        × (st'.stopping ≡ false)
        × (child_exited (some p) st' ≡ st')
  unfolding stop_inner child_exited
  stop_inner-IsStopped e st p = ground arith

  -- The child that is on record once no model was.
  abbrev Launched : Model → ℕ → WorkerState V F × Spawned → Type 0
  Launched m p (st', r) =
      (r ≡ waits_for (some p))
      × (st'.pid ≡ some p)
      × (st'.model_id ≡ some m.id)
      × (st'.model ≡ some m)
      × (st'.status ≡ WorkerStatus.starting)
      × (st'.stopping ≡ false)
      × (st'.restarts ≡ 0)

  spawn-launches :
      (now : ℕ) (m : Model) (p : ℕ) (st : WorkerState V F)
      → st.pid ≡ none
      → Launched m p (spawn (calm (child (some p)) now) m (reset_restarts st))
  unfolding spawn reset_restarts is_running
  spawn-launches now m p st e = ground arith

  stop_inner-sent :
      (e : StopEnv V F) (st : WorkerState V F) → (stop_inner e st).1 ≡ sent_to e.alive st.pid
  unfolding stop_inner sent_to
  stop_inner-sent e st = ground arith

  abbrev Switched : Model → ℕ → List Signal → WorkerState V F × Spawned × List Signal → Type 0
  Switched m p want (st', r, sent) =
      (r ≡ waits_for (some p))
      × (st'.pid ≡ some p)
      × (st'.model_id ≡ some m.id)
      × (st'.model ≡ some m)
      × (st'.status ≡ WorkerStatus.starting)
      × (st'.stopping ≡ false)
      × (st'.restarts ≡ 0)
      × (sent ≡ want)

  switch_running :
      (between : SwitchEnv V F) (halt : StopEnv V F) (now : ℕ) (m : Model) (st : WorkerState V F)
      (p : ℕ)
      → is_running m st ≡ false
      → is_some (between.before_look st).pid ≡ true
      → let (st', sent) = stop_inner halt (between.before_halt (between.before_look st)) in
        let (st'', r) =
          spawn (calm (child (some p)) now) m (reset_restarts (between.before_reset st')) in
        start_model between halt (calm (child (some p)) now) m st ≡ (st'', r, sent)
  unfolding start_model
  switch_running between halt now m st p idle runs = rw (idle, start_model) (rw runs refl)

  switch_idle :
      (between : SwitchEnv V F) (halt : StopEnv V F) (now : ℕ) (m : Model) (st : WorkerState V F)
      (p : ℕ)
      → is_running m st ≡ false
      → is_some (between.before_look st).pid ≡ false
      → let (st'', r) =
          spawn
            (calm (child (some p)) now)
            m
            (reset_restarts (between.before_reset (between.before_look st))) in
        start_model between halt (calm (child (some p)) now) m st ≡ (st'', r, [])
  unfolding start_model
  switch_idle between halt now m st p idle runs = rw (idle, start_model) (rw runs refl)

  -- A start of a model that is not running, while no other task touches the state during the launch,
  -- and none stores a pid while the start holds `lifecycle`: the old worker, if one is found, gets its
  -- signals, and the new one is on record with its pid, starting, with no restart counted, whatever
  -- else the other tasks do to the state between the holds of its lock before the launch.
  pub start_model-switches :
      (between : SwitchEnv V F) (halt : StopEnv V F) (now : ℕ) (m : Model) (st : WorkerState V F)
      (p : ℕ)
      → is_running m st ≡ false
      → ((x : WorkerState V F) → x.pid ≡ none → (between.before_reset x).pid ≡ none)
      → let looked = between.before_look st in
        let (st', r, sent) = start_model between halt (calm (child (some p)) now) m st in
        (r ≡ waits_for (some p))
        × (st'.pid ≡ some p)
        × (st'.model_id ≡ some m.id)
        × (st'.model ≡ some m)
        × (st'.status ≡ WorkerStatus.starting)
        × (st'.stopping ≡ false)
        × (st'.restarts ≡ 0)
        × (sent ≡ (
            if is_some looked.pid then sent_to halt.alive (between.before_halt looked).pid else []))
  unfolding start_model sent_to
  start_model-switches between halt now m st p idle keeps =
      let looked = between.before_look st in
      let before : WorkerState V F = between.before_halt looked in
      let halted : WorkerState V F = (stop_inner halt before).0 in
      elim (Bool-cases (is_some looked.pid)) [
        | inl runs ↦
            let (a, b, c, d, e, f, g) =
              spawn-launches now m p (between.before_reset halted)
                (keeps halted (stop_inner-IsStopped halt before 0).0) in
            subst (Switched m p _) (sym (switch_running between halt now m st p idle runs))
              (a, b, c, d, e, f, g, stop_inner-sent halt before ∙ rw runs refl)
        | inr idles ↦
            let (a, b, c, d, e, f, g) =
              spawn-launches now m p (between.before_reset looked) (keeps looked (ground arith)) in
            subst (Switched m p _) (sym (switch_idle between halt now m st p idle idles))
              (a, b, c, d, e, f, g, rw idles refl)
      ]
