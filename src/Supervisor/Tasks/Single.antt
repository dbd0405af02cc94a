-- ===== src/Supervisor/Tasks/Single.antt =====
-- However the supervisor's tasks interleave, one worker at most runs that no stop has signalled.
use llm_ctl.Base.{ℕ, ◌≤◌, ◌≡◌, inr, refl, sym, ◌∙◌, Option, none, some, Bool, List, arith}
use llm_ctl.Config.{Model, Worker}
use llm_ctl.Supervisor.State.{WorkerState, WorkerStatus}
use llm_ctl.Supervisor.Sections.{child_exited, poll_apply}
use llm_ctl.Supervisor.Lifecycle.{Launch, no_log, no_clone, spawn_failed, child}
use llm_ctl.Supervisor.Tasks.{
  Then, Phase, free, checking, looking, resetting, rechecking, counting, halting, clearing, marking,
  killing, spawning, beginning, launching, storing, failing, Poller, judging, waiting, takes_over,
  Child, Tasks, forget, halts, launches, advance, tick, Answers, Step, starts, stops, advances,
  ticks, exits, notes, drops, shuts_down, Reach, here, next,
}
use llm_ctl.Supervisor.Tasks.Children.{
  owner, Owned, Distinct, unsignalled, Agree, IsSingle, Aimed, Owned-mono, Owned-none,
  Distinct-signal, Owned-signal, Distinct-forget, Owned-forget, Owned-unless, unsignalled-le,
  unless,
}
use llm_ctl.Supervisor.Tasks.Handover.{
  looked, cleared, either, vacated, aimed-Owned, dropped, unless-aimed,
}

module _ {V F : Type 0} where
  pub child_exited-pid :
      (p : ℕ) (st : WorkerState V F) → (child_exited (some p) st).pid ≡ unless p st.pid
  unfolding child_exited
  child_exited-pid p st = ground arith

  exited-Owned :
      (p : ℕ) (ph : Phase) (st : WorkerState V F) (cs : List Child)
      → Owned (owner ph st.pid) cs
      → Owned (owner ph (child_exited (some p) st).pid) (forget p cs)
  exited-Owned p (storing o) st cs h = Owned-unless p o (forget p cs) (Owned-forget p o cs h)
  exited-Owned p (clearing k) st cs h = Owned-forget p none cs h
  exited-Owned p _ st cs h = rw (child_exited-pid p st) (Owned-forget p st.pid cs h)

  exited-vacant :
      (p : ℕ) (st : WorkerState V F) → st.pid ≡ none → (child_exited (some p) st).pid ≡ none
  exited-vacant p st e = child_exited-pid p st ∙ rw e

  exited-Aimed :
      (p : ℕ) (ph : Phase) (st : WorkerState V F)
      → Aimed ph st.pid
      → Aimed ph (child_exited (some p) st).pid
  exited-Aimed p (marking k q) st h = rw (child_exited-pid p st) (unless-aimed p q st.pid h)
  exited-Aimed p (killing k q) st h = rw (child_exited-pid p st) (unless-aimed p q st.pid h)
  exited-Aimed p _ st h = tt

  exits-IsSingle :
      (p : ℕ) (t : Tasks V F)
      → IsSingle t
      → IsSingle
          (record t { worker = child_exited (some p) t.worker; children = forget p t.children })
  exits-IsSingle p t h = record {
    distinct = Distinct-forget p t.children h.distinct;
    owned = exited-Owned p t.lifecycle t.worker t.children h.owned;
    vacant = λ v. exited-vacant p t.worker (h.vacant v);
    aimed = exited-Aimed p t.lifecycle t.worker h.aimed;
  }

  launches-IsSingle :
      (l : Launch) (t : Tasks V F)
      → Answers l t.children
      → t.worker.pid ≡ none
      → Distinct t.children
      → Owned none t.children
      → IsSingle (launches l t)
  launches-IsSingle (no_log why) t a e d h = record {
    distinct = d;
    owned = Owned-none _ _ h;
    vacant = λ v. e;
    aimed = tt;
  }
  launches-IsSingle (no_clone why) t a e d h = record {
    distinct = d;
    owned = Owned-none _ _ h;
    vacant = λ v. e;
    aimed = tt;
  }
  launches-IsSingle (spawn_failed why) t a e d h = record {
    distinct = d;
    owned = Owned-none _ _ h;
    vacant = λ v. e;
    aimed = tt;
  }
  launches-IsSingle (child none) t a e d h = absurd a
  launches-IsSingle (child (some p)) t a e d h = record {
    distinct = (a, d);
    owned = ((λ u. refl), Owned-none (some p) t.children h);
    vacant = λ v. e;
    aimed = tt;
  }

  halts-IsSingle :
      (k : Then) (pid : Option ℕ) (t : Tasks V F)
      → t.worker.pid ≡ pid
      → Distinct t.children
      → Owned t.worker.pid t.children
      → IsSingle (halts k pid t)
  halts-IsSingle k none t e d h = record {
    distinct = d;
    owned = Owned-mono _ none t.children (sym e) h;
    vacant = λ v. cc;
    aimed = tt;
  }
  halts-IsSingle k (some p) t e d h = record {
    distinct = d;
    owned = h;
    vacant = λ v. cc;
    aimed = inr e;
  }

  advance-IsSingle :
      (now : ℕ) (l : Launch) (ph : Phase) (t : Tasks V F)
      → t.lifecycle ≡ ph
      → Answers l t.children
      → Agree ph t.worker.pid t.children
      → IsSingle (advance now l ph t)
  unfolding advance
  advance-IsSingle now l free t e a h = rw e h
  advance-IsSingle now l (checking m) t e a h =
      either _ free (looking m) t.worker.pid t.children
        (record { distinct = h.distinct; owned = h.owned; vacant = λ v. cc; aimed = tt })
        (record { distinct = h.distinct; owned = h.owned; vacant = λ v. cc; aimed = tt })
  advance-IsSingle now l (looking m) t e a h = looked m t.worker.pid t.children h
  advance-IsSingle now l (resetting m) t e a h =
      vacated (spawning m) t.worker.pid t.children (h.vacant refl) h.distinct h.owned
  advance-IsSingle now l (rechecking m) t e a h =
      either _ (counting m) free t.worker.pid t.children
        (record { distinct = h.distinct; owned = h.owned; vacant = λ v. cc; aimed = tt })
        (record { distinct = h.distinct; owned = h.owned; vacant = λ v. cc; aimed = tt })
  advance-IsSingle now l (counting m) t e a h = record {
    distinct = h.distinct;
    owned = h.owned;
    vacant = λ v. cc;
    aimed = tt;
  }
  advance-IsSingle now l (halting k) t e a h =
      halts-IsSingle k t.worker.pid t refl h.distinct h.owned
  advance-IsSingle now l (marking k p) t e a h = record {
    distinct = h.distinct;
    owned = h.owned;
    vacant = λ v. cc;
    aimed = h.aimed;
  }
  advance-IsSingle now l (killing k p) t e a h = record {
    distinct = Distinct-signal p t.children h.distinct;
    owned = Owned-signal p t.children (aimed-Owned p t.worker.pid t.children h.aimed h.owned);
    vacant = λ v. cc;
    aimed = tt;
  }
  advance-IsSingle now l (clearing k) t e a h = cleared k t.children h.distinct h.owned
  advance-IsSingle now l (spawning m) t e a h =
      either _ free (beginning m) t.worker.pid t.children
        (vacated free t.worker.pid t.children (h.vacant refl) h.distinct h.owned)
        (vacated (beginning m) t.worker.pid t.children (h.vacant refl) h.distinct h.owned)
  advance-IsSingle now l (beginning m) t e a h =
      vacated (launching m) t.worker.pid t.children (h.vacant refl) h.distinct h.owned
  advance-IsSingle now l (launching m) t e a h =
      launches-IsSingle l t a (h.vacant refl) h.distinct
        (Owned-mono t.worker.pid none t.children (sym (h.vacant refl)) h.owned)
  advance-IsSingle now l (storing p) t e a h = record {
    distinct = h.distinct;
    owned = h.owned;
    vacant = λ v. cc;
    aimed = tt;
  }
  advance-IsSingle now l (failing why) t e a h = record {
    distinct = h.distinct;
    owned = Owned-mono t.worker.pid none t.children (sym (h.vacant refl)) h.owned;
    vacant = λ v. refl;
    aimed = tt;
  }

  pub poll_apply-pid :
      (ok : Bool) (status : WorkerStatus) (at : Option ℕ) (now : ℕ) (st : WorkerState V F)
      → (poll_apply ok status at now st).pid ≡ st.pid
  unfolding poll_apply
  poll_apply-pid ok status at now st = ground arith

  taken :
      (m : Model) (ph : Phase) (t : Tasks V F)
      → t.lifecycle ≡ ph
      → Agree ph t.worker.pid t.children
      → IsSingle (takes_over m ph t)
  taken m free t e h = record {
    distinct = h.distinct;
    owned = h.owned;
    vacant = λ v. cc;
    aimed = tt;
  }
  taken m _ t e h = rw e h

  tick-IsSingle :
      (w : Worker) (ok : Bool) (now : ℕ) (po : Poller) (t : Tasks V F)
      → IsSingle t
      → IsSingle (tick w ok now po t)
  unfolding tick
  tick-IsSingle w ok now (judging healthy status at) t h =
      rw (poll_apply-pid healthy status at now t.worker) h
  tick-IsSingle w ok now (waiting m) t h = taken m t.lifecycle t refl h
  tick-IsSingle w ok now _ t h = h

  step-IsSingle : (w : Worker) {t u : Tasks V F} → Step w t u → IsSingle t → IsSingle u
  step-IsSingle w {t} (starts m e) h =
      let k = rw e at h in
      record { distinct = k.distinct; owned = k.owned; vacant = λ v. cc; aimed = tt }
  step-IsSingle w {t} (stops e) h =
      let k = rw e at h in
      record { distinct = k.distinct; owned = k.owned; vacant = λ v. cc; aimed = tt }
  step-IsSingle w {t} (advances now l a) h = advance-IsSingle now l t.lifecycle t refl a h
  step-IsSingle w {t} (ticks ok now) h = tick-IsSingle w ok now t.poller t h
  step-IsSingle w {t} (exits p e) h = exits-IsSingle p t h
  step-IsSingle w {t} (notes at turn slots metrics) h = h
  step-IsSingle w {t} (drops e) h = dropped t.lifecycle t.worker.pid t.children e h
  step-IsSingle w {t} shuts_down h = h

  pub Reach_single : (w : Worker) {t u : Tasks V F} → Reach w t u → IsSingle t → IsSingle u
  Reach_single w here h = h
  Reach_single w (next r s) h = step-IsSingle w s (Reach_single w r h)

  -- However the supervisor's tasks interleave, with requests dropped at any await but the one that
  -- stores a pid, from a state in which the holder of `lifecycle`, the pid on record and the children
  -- agree, they go on to agree: at most one child runs that no stop has signalled, and while nobody
  -- holds `lifecycle` it is the one on record.
  pub Reach-IsSingle :
      (w : Worker) {t u : Tasks V F}
      → Reach w t u
      → IsSingle t
      → IsSingle u
        × (unsignalled u.children ≤ 1)
        × (u.lifecycle ≡ free → Owned u.worker.pid u.children)
  Reach-IsSingle w {t} {u} r h =
      let k = Reach_single w r h in
      (k, unsignalled-le _ u.children k.distinct k.owned, λ e. let k' = rw e at k in k'.owned)
