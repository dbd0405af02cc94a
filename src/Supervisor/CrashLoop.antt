-- ===== src/Supervisor/CrashLoop.antt =====
-- A worker that crashes again and again: when it is brought back, and when nothing stops the loop.
use llm_ctl.Base.{
  ℕ, zero, suc, ◌+◌, ◌-◌, ◌%◌, ◌≤◌, ◌<◌, ◌≡◌, refl, inl, inr, none, some, Bool, true, false, List,
  [], ◌∷◌, arith, sym, ◌∙◌, Option-cases, lt→ltb,
}
use llm_ctl.Base.Text.{Text}
use llm_ctl.Config.{Model, Worker}
use llm_ctl.Supervisor.State.{WorkerState, WorkerStatus, from_secs, is_crashed}
use llm_ctl.Supervisor.Sections.{child_exited, wants_restart, cooled_down}
use llm_ctl.Supervisor.Lifecycle.{child, no_log, spawn, calm}
use llm_ctl.Supervisor.Health.{
  Restart, not_wanted, recovered, restarted, poll, maybe_restart, triggered,
}
use llm_ctl.Supervisor.Run.{
  Op, polls, restarts, exits, Supervisor, step, run, attempts, attempts_of, attempted,
  quiet_restart,
}

-- The same worker crashes after each of `n` restarts, six seconds apart.
unfoldable pub crash_ops : ℕ → (ℕ → Bool) → ℕ → ℕ → List Op
crash_ops zero alive p now = []
crash_ops (suc n) alive p now =
    restarts alive (child (some p)) now ∷ exits (some p) ∷ crash_ops n alive p (now + from_secs 6)

attempted-triggered : (r : Restart) → triggered r ≡ true → attempted r ≡ 1
unfolding triggered attempted
attempted-triggered not_wanted h = cc
attempted-triggered recovered h = cc
attempted-triggered (restarted r) h = refl

module _ {V F : Type 0} where
  -- The worker died by itself some time ago: nothing is running, and a restart may begin at `now`.
  pub record IsDown (m : Model) (now : ℕ) (st : WorkerState V F) : Type 0 where
    pub model_kept : st.model ≡ some m
    pub no_pid : st.pid ≡ none
    pub crashed : is_crashed st.status ≡ true
    pub cooled : (l : ℕ) → st.last_restart ≡ some l → from_secs 5 < now - l

  cooled_IsDown :
      (m : Model) (now : ℕ) (st : WorkerState V F)
      → IsDown m now st
      → cooled_down now st.last_restart ≡ true
  cooled_IsDown m now st d = elim (Option-cases st.last_restart) [
    | inl e ↦ rw e
    | inr (l, e) ↦ rw e (lt→ltb (from_secs 5) (now - l) (d.cooled l e))
  ]

  wants-IsDown :
      (w : Worker) (m : Model) (now : ℕ) (st : WorkerState V F)
      → w.restart_on_crash ≡ true
      → st.restarts < w.max_restarts
      → IsDown m now st
      → wants_restart w now st ≡ true
  unfolding wants_restart
  wants-IsDown w m now st on few d = ground (arith, cooled_IsDown m now st d)

  -- A worker that crashed and has no pid on record, with restarts on and left and the last one more
  -- than five seconds ago, is restarted: the poller launches the same model again, and counts it.
  pub maybe_restart-IsDown :
      (w : Worker) (m : Model) (now p : ℕ) (alive : ℕ → Bool) (st : WorkerState V F)
      → w.restart_on_crash ≡ true
      → st.restarts < w.max_restarts
      → IsDown m now st
      → let (st', r) = maybe_restart w false (quiet_restart alive (child (some p)) now) st in
        (triggered r ≡ true)
        × (st'.pid ≡ some p)
        × (st'.model ≡ some m)
        × (st'.status ≡ WorkerStatus.starting)
        × (st'.stopping ≡ false)
        × (st'.restarts ≡ (st.restarts + 1) % 256)
        × (st'.last_restart ≡ some now)
  unfolding maybe_restart triggered
  maybe_restart-IsDown w m now p alive st on few d =
      ground (arith, wants-IsDown w m now st on few d)

  after_crash :
      (p now : ℕ) (st : WorkerState V F)
      → st.pid ≡ some p
      → st.stopping ≡ false
      → let st' = child_exited (some p) st in
        (st'.pid ≡ none)
        × (is_crashed st'.status ≡ true)
        × (st'.model ≡ st.model)
        × (st'.restarts ≡ st.restarts)
        × (st'.last_restart ≡ st.last_restart)
  unfolding child_exited
  after_crash p now st e f = ground arith

  crash-IsDown :
      (m : Model) (p now : ℕ) (st : WorkerState V F)
      → st.pid ≡ some p
      → st.model ≡ some m
      → st.stopping ≡ false
      → st.last_restart ≡ some now
      → IsDown m (now + from_secs 6) (child_exited (some p) st)
  crash-IsDown m p now st e f g h =
      let (gone, down, same_model, _, same_time) = after_crash p now st e g in
      record {
        model_kept = same_model ∙ f;
        no_pid = gone;
        crashed = down;
        cooled = λ l k. ground (arith, sym h ∙ sym same_time ∙ k);
      }

  crash_round :
      (w : Worker) (m : Model) (now p : ℕ) (alive : ℕ → Bool) (s : Supervisor V F)
      → w.restart_on_crash ≡ true
      → s.state.restarts < w.max_restarts
      → IsDown m now s.state
      → let s' = step w (exits (some p)) (step w (restarts alive (child (some p)) now) s) in
        s.shutting_down ≡ false
        → IsDown m (now + from_secs 6) s'.state
          × (s'.state.restarts ≡ (s.state.restarts + 1) % 256)
          × (s'.shutting_down ≡ false)
          × (attempts_of w (restarts alive (child (some p)) now) s ≡ 1)
  unfolding step attempts_of
  crash_round w m now p alive s on few d up =
      let st' : WorkerState V F =
        (maybe_restart w false (quiet_restart alive (child (some p)) now) s.state).0 in
      let (again, e, f, _, g, count, h) = maybe_restart-IsDown w m now p alive s.state on few d in
      let (_, _, _, same_count, _) = after_crash p now st' e g in
      rw up
        (crash-IsDown m p now st' e f g h, same_count ∙ count, refl, attempted-triggered _ again)

  -- With a cap of 256 or more the `u8` counter wraps below it: a worker that crashes after every
  -- launch is restarted `n` times, for every `n`.
  pub attempts-crash_ops :
      (n : ℕ) (w : Worker) (m : Model) (now p : ℕ) (alive : ℕ → Bool) (s : Supervisor V F)
      → w.restart_on_crash ≡ true
      → 256 ≤ w.max_restarts
      → s.state.restarts < 256
      → s.shutting_down ≡ false
      → IsDown m now s.state
      → attempts w (crash_ops n alive p now) s ≡ n
  unfolding attempts crash_ops
  attempts-crash_ops zero w m now p alive s on big low up d = refl
  attempts-crash_ops (suc n) w m now p alive s on big low up d =
      let s₁ = step w (restarts alive (child (some p)) now) s in
      let s₂ = step w (exits (some p)) s₁ in
      let (d', count, up', one) = crash_round w m now p alive s on (omega arith) d up in
      omega (
        arith,
        one,
        attempts-crash_ops n w m (now + from_secs 6) p alive s₂ on big (omega arith) up' d',
      )

abbrev pub IsTick : Op → Type 0
IsTick (polls ok now) = Unit
IsTick (restarts alive l now) = Unit
IsTick _ = ⊥

abbrev pub Ticks : List Op → Type 0
Ticks [] = Unit
Ticks (o ∷ os) = IsTick o × Ticks os

module _ {V F : Type 0} (w : Worker) where
  step_starting :
      (o : Op) (s : Supervisor V F)
      → IsTick o
      → s.state.pid ≡ none
      → s.state.status ≡ WorkerStatus.starting
      → step w o s ≡ s
  unfolding step poll maybe_restart
  step_starting (polls ok now) s t e f = rw e
  step_starting (restarts alive l now) s t e f = ground arith
  step_starting (Op.starts m alive l now) s t e f = elim t [ ]
  step_starting (Op.stops alive) s t e f = elim t [ ]
  step_starting (exits pid) s t e f = elim t [ ]
  step_starting Op.shuts_down s t e f = elim t [ ]

  run_starting :
      (os : List Op) (s : Supervisor V F)
      → Ticks os
      → s.state.pid ≡ none
      → s.state.status ≡ WorkerStatus.starting
      → run w os s ≡ s
  unfolding run
  run_starting [] s t e f = refl
  run_starting (o ∷ os) s t e f =
      let same = step_starting o s t.0 e f in rw same (run_starting os s t.1 e f)

  -- A spawn, with no worker on record, that cannot open its log leaves the worker `Starting` with
  -- no pid, and no number of health polls and restart checks changes that.
  pub run-no_log :
      (os : List Op) (why : Text) (now : ℕ) (m : Model) (st : WorkerState V F) (down : Bool)
      → Ticks os
      → st.pid ≡ none
      → let stuck : Supervisor V F = record {
        state = (spawn (calm (no_log why) now) m st).0;
        shutting_down = down;
      } in
        (stuck.state.status ≡ WorkerStatus.starting) × (run w os stuck ≡ stuck)
  unfolding spawn
  run-no_log os why now m st down t e =
      let stuck : Supervisor V F = record {
        state = (spawn (calm (no_log why) now) m st).0;
        shutting_down = down;
      } in
      let waiting : stuck.state.status ≡ WorkerStatus.starting = ground arith in
      let gone : stuck.state.pid ≡ none = ground arith in
      (waiting, run_starting os stuck t gone waiting)
