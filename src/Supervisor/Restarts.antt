-- ===== src/Supervisor/Restarts.antt =====
-- The cap on automatic restarts.
use llm_ctl.Base.{◌+◌, ◌≤◌, ◌≡◌, refl, none, true, List, [], ◌∷◌, arith}
use llm_ctl.Config.{Worker, TomlWorker, worker_of}
use llm_ctl.Supervisor.Sections.{child_exited}
use llm_ctl.Supervisor.Lifecycle.{stop_inner}
use llm_ctl.Supervisor.Health.{poll, maybe_restart}
use llm_ctl.Supervisor.Run.{
  Op, starts, stops, polls, restarts, exits, shuts_down, Supervisor, mark_shutting_down, step,
  attempts_of, attempts,
}

abbrev pub IsStart : Op → Type 0
IsStart (starts m alive l now) = Unit
IsStart _ = ⊥

abbrev pub NoStart : List Op → Type 0
NoStart [] = Unit
NoStart (o ∷ os) = (¬ IsStart o) × NoStart os

module _ {V F : Type 0} (w : Worker) where
  -- Short of a start, one operation counts the restart that it attempts, and stays below the cap.
  step-attempts :
      (o : Op) (s : Supervisor V F)
      → w.max_restarts ≤ 255
      → ¬ IsStart o
      → s.state.restarts ≤ w.max_restarts
      → (attempts_of w o s + s.state.restarts ≤ (step w o s).state.restarts)
        × ((step w o s).state.restarts ≤ w.max_restarts)
  unfolding step attempts_of maybe_restart poll child_exited stop_inner
  step-attempts (starts m alive l now) s small ns h = absurd (ns tt)
  step-attempts (stops alive) s small ns h = ground arith
  step-attempts (polls ok now) s small ns h = ground arith
  step-attempts (restarts alive l now) s small ns h = ground arith
  step-attempts (exits pid) s small ns h = ground arith
  step-attempts shuts_down s small ns h = omega arith

  -- A crash loop ends: with a cap of at most 255, the restarts that the poller attempts in any run
  -- without a start are no more than the cap less those already counted.
  pub attempts-le-max :
      (os : List Op) (s : Supervisor V F)
      → w.max_restarts ≤ 255
      → NoStart os
      → s.state.restarts ≤ w.max_restarts
      → attempts w os s + s.state.restarts ≤ w.max_restarts
  unfolding attempts
  attempts-le-max [] s small ns h = omega arith
  attempts-le-max (o ∷ os) s small ns h =
      let (grows, capped) = step-attempts o s small ns.0 h in
      omega (arith, attempts-le-max os (step w o s) small ns.1 capped)

  pub step_down :
      (o : Op) (s : Supervisor V F)
      → s.shutting_down ≡ true
      → (attempts_of w o s ≡ 0) × ((step w o s).shutting_down ≡ true)
  unfolding step attempts_of maybe_restart
  step_down (restarts alive l now) s d = rw d (refl, refl)
  step_down shuts_down s d = (refl, refl)
  step_down _ s d = (refl, d)

  pub attempts_down :
      (os : List Op) (s : Supervisor V F) → s.shutting_down ≡ true → attempts w os s ≡ 0
  unfolding attempts
  attempts_down [] s d = refl
  attempts_down (o ∷ os) s d =
      let (idle, still) = step_down o s d in
      omega (arith, idle, attempts_down os (step w o s) still)

  -- Once the daemon is shutting down, no run restarts the worker.
  pub attempts-mark_shutting_down :
      (os : List Op) (s : Supervisor V F) → attempts w os (mark_shutting_down s) ≡ 0
  unfolding mark_shutting_down
  attempts-mark_shutting_down os s = attempts_down os (mark_shutting_down s) refl

module _ {V F : Type 0} (t : TomlWorker) where
  attempts_of_uncapped :
      (o : Op) (s : Supervisor V F) → t.max_restarts ≡ none → attempts_of (worker_of t) o s ≡ 0
  unfolding attempts_of maybe_restart worker_of
  attempts_of_uncapped (restarts alive l now) s left_out = ground arith
  attempts_of_uncapped _ s left_out = refl

  attempts_uncapped :
      (os : List Op) (s : Supervisor V F) → t.max_restarts ≡ none → attempts (worker_of t) os s ≡ 0
  unfolding attempts
  attempts_uncapped [] s left_out = refl
  attempts_uncapped (o ∷ os) s left_out = omega (
    arith,
    attempts_of_uncapped o s left_out,
    attempts_uncapped os (step (worker_of t) o s) left_out,
  )

  -- A configuration that leaves out `max_restarts` and `restart_on_crash` has restarts on, and yet no
  -- run of the supervisor, its starts included, ever restarts the worker.
  pub attempts-worker_of :
      (os : List Op) (s : Supervisor V F)
      → t.max_restarts ≡ none
      → t.restart_on_crash ≡ none
      → ((worker_of t).restart_on_crash ≡ true) × (attempts (worker_of t) os s ≡ 0)
  unfolding worker_of
  attempts-worker_of os s left_out on = (rw on, attempts_uncapped os s left_out)
