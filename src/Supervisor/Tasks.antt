-- ===== src/Supervisor/Tasks.antt =====
-- src/supervisor.rs, its tasks as they interleave. The `lifecycle` lock has one holder at most, whose
-- next hold of the state's lock `Phase` names; the poller and the tasks that wait for children go on
-- meanwhile. A step is one hold of the state's lock, or one call to the operating system.
pub mod Children
pub mod Handover
pub mod Orphan
pub mod Single
use llm_ctl.Base.{
  ℕ, Option, none, some, Bool, true, false, ◌≡◌, ◌≢◌, List, [], ◌∷◌, if◌then◌else◌, ◌==◌,
}
use llm_ctl.Base.Text.{Text}
use llm_ctl.Config.{Model, Worker}
use llm_ctl.Supervisor.State.{WorkerState, WorkerStatus, LastTurn, is_some, is_crashed}
use llm_ctl.Supervisor.Sections.{
  is_running, spawn_begin, spawn_crashed, store_pid, child_exited, reset_restarts, mark_stopping,
  mark_stopped, poll_apply, wants_restart, count_restart,
}
use llm_ctl.Supervisor.Lifecycle.{Launch, no_log, no_clone, spawn_failed, child}

-- What follows a stop: nothing, the rest of `start_model`, or that of `maybe_restart`.
pub data Then : Type 0 where
  rests : Then
  switches respawns : Model → Then

pub data Phase : Type 0 where
  free : Phase
  checking looking resetting : Model → Phase  -- `start_model`
  rechecking counting : Model → Phase  -- `maybe_restart`
  halting clearing : Then → Phase  -- `stop_inner`
  marking killing : Then → ℕ → Phase
  spawning beginning launching : Model → Phase  -- `spawn`
  storing : Option ℕ → Phase
  failing : Text → Phase

pub data Poller : Type 0 where
  idle asking deciding weighing : Poller
  judging : Bool → WorkerStatus → Option ℕ → Poller
  waiting : Model → Poller

-- A child whose exit was not seen yet, and whether `stop_inner` has sent it its signals.
pub record Child : Type 0 where
  pub pid : ℕ
  pub signalled : Bool

pub record Tasks (V F : Type 0) : Type 0 where
  pub worker : WorkerState V F
  pub shutting_down : Bool
  pub lifecycle : Phase
  pub poller : Poller
  pub children : List Child

unfoldable pub signal : ℕ → List Child → List Child
signal p [] = []
signal p (c ∷ cs) = (if c.pid == p then record c { signalled = true } else c) ∷ signal p cs

unfoldable pub forget : ℕ → List Child → List Child
forget p [] = []
forget p (c ∷ cs) = let rest = forget p cs in if c.pid == p then rest else c ∷ rest

abbrev pub wanting : Bool → Option Model → Poller
wanting false m = idle
wanting true none = idle
wanting true (some m) = waiting m

abbrev pub after : Then → Phase
after rests = free
after (switches m) = resetting m
after (respawns m) = spawning m

module _ {V F : Type 0} where
  abbrev pub goes : Phase → WorkerState V F → Tasks V F → Tasks V F
  goes ph st t = record t { worker = st; lifecycle = ph }

  abbrev pub halts : Then → Option ℕ → Tasks V F → Tasks V F
  halts k none t = goes (clearing k) t.worker t
  halts k (some p) t = goes (marking k p) t.worker t

  abbrev pub launches : Launch → Tasks V F → Tasks V F
  launches (no_log why) t = goes free t.worker t
  launches (no_clone why) t = goes free t.worker t
  launches (spawn_failed why) t = goes (failing why) t.worker t
  launches (child none) t = goes (storing none) t.worker t
  launches (child (some p)) t = record t {
    lifecycle = storing (some p);
    children = record { pid = p; signalled = false } ∷ t.children;
  }

  -- The next step of the holder of `lifecycle`; `now` and `l` are the world's answers.
  unfoldable pub advance : ℕ → Launch → Phase → Tasks V F → Tasks V F
  unfolding is_running spawn_begin spawn_crashed store_pid reset_restarts mark_stopping mark_stopped
      count_restart signal
  advance now l free t = t
  advance now l (checking m) t = goes (if is_running m t.worker then free else looking m) t.worker t
  advance now l (looking m) t =
      goes (if is_some t.worker.pid then halting (switches m) else resetting m) t.worker t
  advance now l (resetting m) t = goes (spawning m) (reset_restarts t.worker) t
  advance now l (rechecking m) t =
      goes (if is_crashed t.worker.status then counting m else free) t.worker t
  advance now l (counting m) t = goes (halting (respawns m)) (count_restart now t.worker) t
  advance now l (halting k) t = halts k t.worker.pid t
  advance now l (marking k p) t = goes (killing k p) (mark_stopping t.worker) t
  advance now l (killing k p) t = record t {
    lifecycle = clearing k;
    children = signal p t.children;
  }
  advance now l (clearing k) t = goes (after k) (mark_stopped t.worker) t
  advance now l (spawning m) t =
      goes (if is_running m t.worker then free else beginning m) t.worker t
  advance now l (beginning m) t = goes (launching m) (spawn_begin m now t.worker) t
  advance now l (launching m) t = launches l t
  advance now l (storing pid) t = goes free (store_pid pid t.worker) t
  advance now l (failing why) t = goes free (spawn_crashed why t.worker) t

  abbrev pub takes_over : Model → Phase → Tasks V F → Tasks V F
  takes_over m free t = record t { lifecycle = rechecking m; poller = idle }
  takes_over m _ t = t

  -- The next step of the poller: `poll`, and `maybe_restart` up to its hold of `lifecycle`. It then
  -- goes on while its restart runs, which is more than the source lets it do.
  unfoldable pub tick : Worker → Bool → ℕ → Poller → Tasks V F → Tasks V F
  unfolding poll_apply wants_restart
  tick w ok now idle t = record t { poller = if is_some t.worker.pid then asking else deciding }
  tick w ok now asking t = record t { poller = judging ok t.worker.status t.worker.started_at }
  tick w ok now (judging healthy status started_at) t = record t {
    worker = poll_apply healthy status started_at now t.worker;
    poller = deciding;
  }
  tick w ok now deciding t = record t { poller = if t.shutting_down then idle else weighing }
  tick w ok now weighing t = record t {
    poller = wanting (wants_restart w now t.worker) t.worker.model;
  }
  tick w ok now (waiting m) t = takes_over m t.lifecycle t

-- No child whose exit is still to be seen has the pid.
abbrev pub Fresh : ℕ → List Child → Type 0
Fresh p [] = Unit
Fresh p (c ∷ cs) = (p ≢ c.pid) × Fresh p cs

-- What the operating system can answer to a launch: a child that was just spawned has a pid.
abbrev pub Answers : Launch → List Child → Type 0
Answers (child none) cs = ⊥
Answers (child (some p)) cs = Fresh p cs
Answers _ cs = Unit

-- Where a request that its client gave up can be dropped: the server drops it at an await, which also
-- gives `lifecycle` back. The hold that stores the pid has one too, which `Orphan` is about.
abbrev pub droppable : Phase → Bool
droppable free = false
droppable (rechecking m) = false
droppable (counting m) = false
droppable (launching m) = false
droppable (storing pid) = false
droppable _ = true

module _ {V F : Type 0} (w : Worker) where
  pub data Step (t : Tasks V F) : Tasks V F → Type 0 where
    starts : (m : Model) → t.lifecycle ≡ free → Step t (record t { lifecycle = checking m })
    stops : t.lifecycle ≡ free → Step t (record t { lifecycle = halting rests })
    advances : (now : ℕ) (l : Launch) → Answers l t.children → Step t (advance now l t.lifecycle t)
    ticks : (ok : Bool) (now : ℕ) → Step t (tick w ok now t.poller t)
    -- The task that waits for a child is there once the child's pid was stored.
    exits :
        (p : ℕ)
        → t.lifecycle ≢ storing (some p)
        → Step t
            (record t { worker = child_exited (some p) t.worker; children = forget p t.children })
    -- What the proxy and `poll_slots` write.
    notes :
        (at : Option F) (turn : Option LastTurn) (slots : Option V)
        (metrics : Option (List (Text × F)))
        → Step t (record t {
          worker = record (t.worker) {
            last_request_at = at;
            last_turn = turn;
            last_slots = slots;
            last_metrics = metrics;
          };
        })
    drops : droppable t.lifecycle ≡ true → Step t (record t { lifecycle = free })
    shuts_down : Step t (record t { shutting_down = true })

  pub data Reach (t : Tasks V F) : Tasks V F → Type 0 where
    here : Reach t t
    next : {u v : Tasks V F} → Reach t u → Step u v → Reach t v
