-- ===== src/Supervisor/Tasks/Handover.antt =====
-- What the holder of `lifecycle`, the pid on record and the children agree on, from phase to phase.
use llm_ctl.Base.{
  ℕ, ◌≡◌, ◌⊎◌, inl, inr, refl, sym, Option, none, some, Bool, true, false, List, arith,
  if◌then◌else◌,
}
use llm_ctl.Config.{Model}
use llm_ctl.Supervisor.State.{is_some}
use llm_ctl.Supervisor.Tasks.{
  Then, rests, switches, respawns, Phase, free, looking, resetting, halting, clearing, marking,
  killing, storing, Child, after, droppable,
}
use llm_ctl.Supervisor.Tasks.Children.{
  Owned, Distinct, Agree, Aimed, Owned-mono, Owned-none, unless,
}

pub looked :
    (m : Model) (pid : Option ℕ) (cs : List Child)
    → Agree (looking m) pid cs
    → Agree (if is_some pid then halting (switches m) else resetting m) pid cs
looked m none cs h = record {
  distinct = h.distinct;
  owned = h.owned;
  vacant = λ v. refl;
  aimed = tt;
}
looked m (some p) cs h = record {
  distinct = h.distinct;
  owned = h.owned;
  vacant = λ v. cc;
  aimed = tt;
}

pub cleared : (k : Then) (cs : List Child) → Distinct cs → Owned none cs → Agree (after k) none cs
cleared rests cs d h = record { distinct = d; owned = h; vacant = λ v. refl; aimed = tt }
cleared (switches m) cs d h = record { distinct = d; owned = h; vacant = λ v. refl; aimed = tt }
cleared (respawns m) cs d h = record { distinct = d; owned = h; vacant = λ v. refl; aimed = tt }

pub either :
    (b : Bool) (x y : Phase) (pid : Option ℕ) (cs : List Child)
    → Agree x pid cs
    → Agree y pid cs
    → Agree (if b then x else y) pid cs
either true x y pid cs h k = h
either false x y pid cs h k = k

pub Aimed-none : (ph : Phase) (pid : Option ℕ) → pid ≡ none → Aimed ph pid
Aimed-none (marking k p) pid e = inl e
Aimed-none (killing k p) pid e = inl e
Aimed-none _ pid e = tt

-- A phase in which no pid is on record leads to any other but a launch's.
pub vacated :
    (ph : Phase) (pid : Option ℕ) (cs : List Child)
    → pid ≡ none
    → Distinct cs
    → Owned pid cs
    → Agree ph pid cs
vacated ph pid cs e d h = record {
  distinct = d;
  owned = Owned-none _ cs (Owned-mono pid none cs (sym e) h);
  vacant = λ v. e;
  aimed = Aimed-none ph pid e;
}

pub aimed-Owned :
    (p : ℕ) (pid : Option ℕ) (cs : List Child)
    → (pid ≡ none) ⊎ (pid ≡ some p)
    → Owned pid cs
    → Owned (some p) cs
aimed-Owned p pid cs (inl e) h = Owned-none (some p) cs (Owned-mono pid none cs (sym e) h)
aimed-Owned p pid cs (inr e) h = Owned-mono pid (some p) cs (sym e) h

-- A holder of `lifecycle` that is dropped.
pub dropped :
    (ph : Phase) (pid : Option ℕ) (cs : List Child)
    → droppable ph ≡ true
    → Agree ph pid cs
    → Agree free pid cs
dropped (clearing k) pid cs e h = record {
  distinct = h.distinct;
  owned = Owned-none pid cs h.owned;
  vacant = λ v. cc;
  aimed = tt;
}
dropped (storing p) pid cs e h = cc
dropped _ pid cs e h = record {
  distinct = h.distinct;
  owned = h.owned;
  vacant = λ v. cc;
  aimed = tt;
}

pub unless-aimed :
    (p q : ℕ) (o : Option ℕ)
    → (o ≡ none) ⊎ (o ≡ some q)
    → (unless p o ≡ none) ⊎ (unless p o ≡ some q)
unless-aimed p q none h = inl refl
unless-aimed p q (some r) h = ground arith
