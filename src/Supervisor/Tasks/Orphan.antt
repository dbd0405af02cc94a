-- ===== src/Supervisor/Tasks/Orphan.antt =====
-- src/supervisor.rs: what follows when a request is dropped between the launch of a worker and the
-- hold that stores its pid.
use llm_ctl.Base.{
  ℕ, ◌≡◌, ◌≢◌, ◌⊎◌, inl, inr, refl, sym, ◌∙◌, Option, none, some, Bool, true, false, List, [], ◌∷◌,
  arith, ◌==◌, if◌then◌else◌, Bool-cases,
}
use llm_ctl.Config.{Model, Worker}
use llm_ctl.Supervisor.Lifecycle.{Launch, no_log, no_clone, spawn_failed, child}
use llm_ctl.Supervisor.Tasks.{
  Then, rests, switches, respawns, Phase, free, checking, looking, resetting, rechecking, counting,
  halting, clearing, marking, killing, spawning, beginning, launching, storing, failing, Poller,
  judging, waiting, takes_over, Child, Tasks, forget, signal, after, halts, launches, advance, tick,
  Fresh, Answers, Step, starts, stops, advances, ticks, exits, notes, drops, shuts_down, Reach,
  here, next,
}
use llm_ctl.Supervisor.Tasks.Children.{IsSingle, unless}
use llm_ctl.Supervisor.Tasks.Single.{child_exited-pid, poll_apply-pid}

-- A child with that pid runs with no signal sent to it.
abbrev pub Runs : ℕ → List Child → Type 0
Runs p [] = ⊥
Runs p (c ∷ cs) = ((c.pid ≡ p) × (c.signalled ≡ false)) ⊎ Runs p cs

-- The holder of `lifecycle` is not about to signal or to store the pid.
abbrev pub Away : ℕ → Phase → Type 0
Away p (marking k q) = q ≢ p
Away p (killing k q) = q ≢ p
Away p (storing o) = o ≢ some p
Away p _ = Unit

pub record IsOrphan (p : ℕ) (ph : Phase) (pid : Option ℕ) (cs : List Child) : Type 0 where
  pub runs : Runs p cs
  pub unseen : pid ≢ some p
  pub away : Away p ph

Runs-signal : (p q : ℕ) (cs : List Child) → q ≢ p → Runs p cs → Runs p (signal q cs)
unfolding signal
Runs-signal p q [] n h = h
Runs-signal p q (c ∷ cs) n (inl (e, u)) = inl (ground (arith, n))
Runs-signal p q (c ∷ cs) n (inr h) = inr (Runs-signal p q cs n h)

Runs-forget : (p q : ℕ) (cs : List Child) → q ≢ p → Runs p cs → Runs p (forget q cs)
unfolding forget
Runs-forget p q [] n h = h
Runs-forget p q (c ∷ cs) n (inl (e, u)) =
    let other : c.pid == q ≡ false = ground (arith, n) in rw (other, forget) (inl (e, u))
Runs-forget p q (c ∷ cs) n (inr h) = elim (Bool-cases (c.pid == q)) [
  | inl same ↦ rw (same, forget) (Runs-forget p q cs n h)
  | inr other ↦ rw (other, forget) (inr (Runs-forget p q cs n h))
]

Fresh-Runs : (p q : ℕ) (cs : List Child) → Fresh q cs → Runs p cs → q ≢ p
Fresh-Runs p q [] f h = absurd h
Fresh-Runs p q (c ∷ cs) (n, f) (inl (e, u)) = λ k. n (k ∙ sym e)
Fresh-Runs p q (c ∷ cs) (n, f) (inr h) = Fresh-Runs p q cs f h

unless-unseen : (p q : ℕ) (o : Option ℕ) → o ≢ some p → unless q o ≢ some p
unless-unseen p q none n = λ e. cc
unless-unseen p q (some r) n = elim (Bool-cases (r == q)) [
  | inl same ↦ rw same (λ e. cc)
  | inr other ↦ rw other n
]

branch : (b : Bool) (p : ℕ) (x y : Phase) → Away p x → Away p y → Away p (if b then x else y)
branch true p x y h k = h
branch false p x y h k = k

after-Away : (p : ℕ) (k : Then) → Away p (after k)
after-Away p rests = tt
after-Away p (switches m) = tt
after-Away p (respawns m) = tt

module _ {V F : Type 0} where
  -- A start that is about to launch the worker and is dropped before it has stored the new pid.
  unfoldable pub lost : ℕ → Model → ℕ → Tasks V F → Tasks V F
  unfolding advance
  lost now m p t = record (advance now (child (some p)) (launching m) t) { lifecycle = free }

module _ {V F : Type 0} (w : Worker) where
  abbrev pub Orphaned : ℕ → Tasks V F → Type 0
  Orphaned p t = IsOrphan p t.lifecycle t.worker.pid t.children

  -- No step of the run is the exit of a child with that pid.
  abbrev pub Spares : {t u : Tasks V F} → ℕ → Step w t u → Type 0
  Spares p (exits q n) = q ≢ p
  Spares p _ = Unit

  abbrev pub Lasts : {t u : Tasks V F} → ℕ → Reach w t u → Type 0
  Lasts p here = Unit
  Lasts p (next r s) = Lasts p r × Spares p s

  launches-Orphaned :
      (p : ℕ) (l : Launch) (t : Tasks V F)
      → Answers l t.children
      → Runs p t.children
      → t.worker.pid ≢ some p
      → Orphaned p (launches l t)
  launches-Orphaned p (no_log why) t a h n = record { runs = h; unseen = n; away = tt }
  launches-Orphaned p (no_clone why) t a h n = record { runs = h; unseen = n; away = tt }
  launches-Orphaned p (spawn_failed why) t a h n = record { runs = h; unseen = n; away = tt }
  launches-Orphaned p (child none) t a h n = absurd a
  launches-Orphaned p (child (some q)) t a h n = record {
    runs = inr h;
    unseen = n;
    away = λ e. Fresh-Runs p q t.children a h (ground arith);
  }

  halts-Orphaned :
      (p : ℕ) (k : Then) (pid : Option ℕ) (t : Tasks V F)
      → t.worker.pid ≡ pid
      → Runs p t.children
      → t.worker.pid ≢ some p
      → Orphaned p (halts k pid t)
  halts-Orphaned p k none t e h n = record { runs = h; unseen = n; away = tt }
  halts-Orphaned p k (some q) t e h n = record {
    runs = h;
    unseen = n;
    away = λ same. n (e ∙ rw same);
  }

  advance-Orphaned :
      (p now : ℕ) (l : Launch) (ph : Phase) (t : Tasks V F)
      → t.lifecycle ≡ ph
      → Answers l t.children
      → IsOrphan p ph t.worker.pid t.children
      → Orphaned p (advance now l ph t)
  unfolding advance
  advance-Orphaned p now l free t e a h = rw e h
  advance-Orphaned p now l (checking m) t e a h = record {
    runs = h.runs;
    unseen = h.unseen;
    away = branch _ p free (looking m) tt tt;
  }
  advance-Orphaned p now l (looking m) t e a h = record {
    runs = h.runs;
    unseen = h.unseen;
    away = branch _ p (halting (switches m)) (resetting m) tt tt;
  }
  advance-Orphaned p now l (rechecking m) t e a h = record {
    runs = h.runs;
    unseen = h.unseen;
    away = branch _ p (counting m) free tt tt;
  }
  advance-Orphaned p now l (halting k) t e a h =
      halts-Orphaned p k t.worker.pid t refl h.runs h.unseen
  advance-Orphaned p now l (marking k q) t e a h = record {
    runs = h.runs;
    unseen = h.unseen;
    away = h.away;
  }
  advance-Orphaned p now l (killing k q) t e a h = record {
    runs = Runs-signal p q t.children h.away h.runs;
    unseen = h.unseen;
    away = tt;
  }
  advance-Orphaned p now l (clearing k) t e a h = record {
    runs = h.runs;
    unseen = λ e. cc;
    away = after-Away p k;
  }
  advance-Orphaned p now l (spawning m) t e a h = record {
    runs = h.runs;
    unseen = h.unseen;
    away = branch _ p free (beginning m) tt tt;
  }
  advance-Orphaned p now l (launching m) t e a h = launches-Orphaned p l t a h.runs h.unseen
  advance-Orphaned p now l (storing o) t e a h = record {
    runs = h.runs;
    unseen = h.away;
    away = tt;
  }
  advance-Orphaned p now l (failing why) t e a h = record {
    runs = h.runs;
    unseen = λ e. cc;
    away = tt;
  }
  advance-Orphaned p now l _ t e a h = record { runs = h.runs; unseen = h.unseen; away = tt }

  taken :
      (p : ℕ) (m : Model) (ph : Phase) (t : Tasks V F)
      → t.lifecycle ≡ ph
      → IsOrphan p ph t.worker.pid t.children
      → Orphaned p (takes_over m ph t)
  taken p m free t e h = record { runs = h.runs; unseen = h.unseen; away = tt }
  taken p m _ t e h = rw e h

  tick-Orphaned :
      (p : ℕ) (ok : Bool) (now : ℕ) (po : Poller) (t : Tasks V F)
      → Orphaned p t
      → Orphaned p (tick w ok now po t)
  unfolding tick
  tick-Orphaned p ok now (judging healthy status at) t h =
      rw (poll_apply-pid healthy status at now t.worker) h
  tick-Orphaned p ok now (waiting m) t h = taken p m t.lifecycle t refl h
  tick-Orphaned p ok now _ t h = h

  step-Orphaned :
      (p : ℕ) {t u : Tasks V F} (s : Step w t u) → Spares p s → Orphaned p t → Orphaned p u
  step-Orphaned p (starts m e) n h = record { runs = h.runs; unseen = h.unseen; away = tt }
  step-Orphaned p (stops e) n h = record { runs = h.runs; unseen = h.unseen; away = tt }
  step-Orphaned p {t} (advances now l a) n h = advance-Orphaned p now l t.lifecycle t refl a h
  step-Orphaned p {t} (ticks ok now) n h = tick-Orphaned p ok now t.poller t h
  step-Orphaned p {t} (exits q e) n h = record {
    runs = Runs-forget p q t.children n h.runs;
    unseen = rw (child_exited-pid q t.worker) (unless-unseen p q t.worker.pid h.unseen);
    away = h.away;
  }
  step-Orphaned p (notes at turn slots metrics) n h = h
  step-Orphaned p (drops e) n h = record { runs = h.runs; unseen = h.unseen; away = tt }
  step-Orphaned p shuts_down n h = h

  Reach-Orphaned :
      (p : ℕ) {t u : Tasks V F} (r : Reach w t u) → Lasts p r → Orphaned p t → Orphaned p u
  Reach-Orphaned p here n h = h
  Reach-Orphaned p (next r s) n h = step-Orphaned p s n.1 (Reach-Orphaned p r n.0 h)

  -- If a start is dropped between the launch of a worker, under a pid that no child has, and the hold
  -- that stores the pid, from a state in which `lifecycle`, the pid on record and the children agree,
  -- then however the tasks go on, until a child with that pid exits, it runs with no signal sent to it
  -- and its pid is not the one on record.
  pub Reach-lost :
      (now p : ℕ) (m : Model) (t u : Tasks V F)
      → IsSingle t
      → t.lifecycle ≡ launching m
      → Fresh p t.children
      → (r : Reach w (lost now m p t) u) → Lasts p r
      → Runs p u.children × (u.worker.pid ≢ some p)
  unfolding lost advance
  Reach-lost now p m t u h e f r n =
      let vacant = h.vacant (rw e) in
      let k =
        Reach-Orphaned p r n (record { runs = inl (refl, refl); unseen = λ same. cc; away = tt }) in
      (k.runs, k.unseen)
