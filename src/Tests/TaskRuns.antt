-- ===== src/Tests/TaskRuns.antt =====
-- Runs of the supervisor's tasks.
use llm_ctl.Base.{ℕ, zero, suc, ◌≤◌, ◌≡◌, ◌≢◌, refl, some, false, [], ◌∷◌}
use llm_ctl.Base.Text.{lit, text_eq}
use llm_ctl.Config.{Model}
use llm_ctl.Supervisor.Sections.{is_running, child_exited}
use llm_ctl.Supervisor.Lifecycle.{child, no_log}
use llm_ctl.Supervisor.Tasks.{
  Tasks, Phase, free, asking, rests, starts, stops, advances, ticks, exits, Reach, here, next,
  advance, tick, forget, signal,
}
use llm_ctl.Supervisor.Tasks.Children.{IsSingle, Owned, unsignalled}
use llm_ctl.Supervisor.Tasks.Single.{Reach_single, Reach-IsSingle}
use llm_ctl.Supervisor.Tasks.Orphan.{Runs, lost, Reach-lost}
use llm_ctl.Tests.World.{Doc, model, worker, running}

abbrev other_model : Model
other_model = record model { id = lit "n" }

-- The worker runs, and the poller has asked for its health.
abbrev before : Tasks Doc ℕ
before = record {
  worker = running;
  shutting_down = false;
  lifecycle = free;
  poller = asking;
  children = record { pid = 41; signalled = false } ∷ [];
}

-- The holder of `lifecycle` goes on by so many steps.
abbrev advanced : ℕ → Tasks Doc ℕ → Tasks Doc ℕ
unfolding advance
advanced zero t = t
advanced (suc n) t = let u = advanced n t in advance 0 (no_log []) u.lifecycle u

Reach-advanced :
    (n : ℕ) (t : Tasks Doc ℕ) → Reach worker before t → Reach worker before (advanced n t)
unfolding advance
Reach-advanced zero t r = r
Reach-advanced (suc n) t r = next (Reach-advanced n t r) (advances 0 (no_log []) tt)

-- A start of another model: it has signalled the worker, which exits while the poller looks.
abbrev halted : Tasks Doc ℕ
halted = advanced 5 (record before { lifecycle = Phase.checking other_model })

abbrev looked : Tasks Doc ℕ
unfolding tick
looked = tick worker false 5 halted.poller halted

abbrev seen_exit : Tasks Doc ℕ
unfolding child_exited forget
seen_exit = record looked {
  worker = child_exited (some 41) looked.worker;
  children = forget 41 looked.children;
}

abbrev ready : Tasks Doc ℕ
ready = advanced 4 seen_exit

abbrev launched : Tasks Doc ℕ
unfolding advance
launched = advance 6 (child (some 42)) ready.lifecycle ready

abbrev switched : Tasks Doc ℕ
switched = advanced 1 launched

before-IsSingle : IsSingle before
before-IsSingle = record {
  distinct = (tt, tt);
  owned = ((λ u. refl), tt);
  vacant = λ v. cc;
  aimed = tt;
}

Reach-ready : Reach worker before ready
unfolding advance tick is_running text_eq lit child_exited forget signal
Reach-ready = Reach-advanced 4 seen_exit (
    next (next (Reach-advanced 5 _ (next here (starts other_model refl))) (ticks false 5))
      (exits 41 (λ e. cc)))

ready-IsSingle : IsSingle ready
ready-IsSingle = Reach_single worker Reach-ready before-IsSingle

Reach-switched : Reach worker before switched
unfolding advance tick is_running text_eq lit child_exited forget signal
Reach-switched = Reach-advanced 1 launched (next Reach-ready (advances 6 (child (some 42)) tt))

Reach-IsSingle_example :
    IsSingle switched
    × (unsignalled switched.children ≤ 1)
    × (switched.lifecycle ≡ free → Owned switched.worker.pid switched.children)
Reach-IsSingle_example = Reach-IsSingle worker Reach-switched before-IsSingle

-- The same start, dropped once it has launched the worker, and a stop after it.
abbrev stopped : Tasks Doc ℕ
stopped = record (lost 6 other_model 42 ready) { lifecycle = Phase.halting rests }

abbrev stopping_run : Reach worker (lost 6 other_model 42 ready) (advanced 2 stopped)
unfolding lost advance
stopping_run =
    next (next (next here (stops refl)) (advances 0 (no_log []) tt)) (advances 0 (no_log []) tt)

Reach-lost_example :
    Runs 42 (advanced 2 stopped).children × ((advanced 2 stopped).worker.pid ≢ some 42)
unfolding advance tick is_running text_eq lit child_exited forget signal lost stopping_run
Reach-lost_example =
    Reach-lost worker 6 42 other_model ready (advanced 2 stopped) ready-IsSingle refl tt
      stopping_run (((tt, tt), tt), tt)

switched_runs :
    (switched.lifecycle ≡ free)
    × (switched.worker.pid ≡ some 42)
    × (unsignalled switched.children ≡ 1)
unfolding advance tick is_running text_eq lit child_exited forget signal
switched_runs = (refl, refl, refl)
