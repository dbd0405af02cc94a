-- ===== src/Supervisor/Undone.antt =====
-- A stop that ends between the two holds of the state's lock that follow a poll's health request.
use llm_ctl.Base.{ℕ, ◌-◌, ◌<◌, ◌≡◌, none, some, Bool, true, false, arith}
use llm_ctl.Config.{Model, Worker}
use llm_ctl.Supervisor.State.{WorkerState, WorkerStatus, from_secs, is_crashed}
use llm_ctl.Supervisor.Lifecycle.{child, stop_inner}
use llm_ctl.Supervisor.Health.{PollEnv, poll, maybe_restart, triggered}
use llm_ctl.Supervisor.Run.{quiet_stop, quiet_restart}
use llm_ctl.Supervisor.CrashLoop.{IsDown, maybe_restart-IsDown}

-- The health request fails, and a stop runs to its end before the poll's last hold of the lock.
abbrev pub crossed_poll : {V F : Type 0} → (ℕ → Bool) → ℕ → PollEnv V F
crossed_poll alive now = record {
  ok = false;
  now = now;
  request = λ st. st;
  between = λ st. (stop_inner (quiet_stop alive) st).0;
}

module _ {V F : Type 0} where
  crossed-IsDown :
      (m : Model) (now q : ℕ) (alive : ℕ → Bool) (st : WorkerState V F)
      → st.pid ≡ some q
      → st.model ≡ some m
      → st.status ≡ WorkerStatus.ready
      → ((l : ℕ) → st.last_restart ≡ some l → from_secs 5 < now - l)
      → IsDown m now (poll (crossed_poll alive now) st)
  unfolding poll stop_inner
  crossed-IsDown m now q alive st e f g c = record {
    model_kept = ground arith;
    no_pid = ground arith;
    crashed = ground arith;
    cooled = λ l k. c l (ground arith);
  }

  crossed-restarts :
      (now q : ℕ) (alive : ℕ → Bool) (st : WorkerState V F)
      → st.pid ≡ some q
      → st.status ≡ WorkerStatus.ready
      → (poll (crossed_poll alive now) st).restarts ≡ st.restarts
  unfolding poll stop_inner
  crossed-restarts now q alive st e g = ground arith

  -- A ready worker whose health request fails, and whose stop ends before the poll looks at the
  -- state for the last time: the stop is undone. The poll leaves the stopped worker crashed, and,
  -- with restarts on and left and the last one more than five seconds ago, `maybe_restart` launches
  -- the model again.
  pub maybe_restart-crossed_poll :
      (w : Worker) (m : Model) (now q p : ℕ) (alive : ℕ → Bool) (st : WorkerState V F)
      → w.restart_on_crash ≡ true
      → st.restarts < w.max_restarts
      → st.pid ≡ some q
      → st.model ≡ some m
      → st.status ≡ WorkerStatus.ready
      → ((l : ℕ) → st.last_restart ≡ some l → from_secs 5 < now - l)
      → let st₁ = poll (crossed_poll alive now) st in
        let (st₂, r) = maybe_restart w false (quiet_restart alive (child (some p)) now) st₁ in
        (st₁.pid ≡ none)
        × (is_crashed st₁.status ≡ true)
        × (triggered r ≡ true)
        × (st₂.pid ≡ some p)
        × (st₂.model ≡ some m)
        × (st₂.status ≡ WorkerStatus.starting)
  maybe_restart-crossed_poll w m now q p alive st on few e f g c =
      let st₁ : WorkerState V F = poll (crossed_poll alive now) st in
      let d = crossed-IsDown m now q alive st e f g c in
      let (again, pid, model, status, _, _, _) =
        maybe_restart-IsDown w m now p alive st₁ on (rw (crossed-restarts now q alive st e g) few)
          d in
      (d.no_pid, d.crashed, again, pid, model, status)
