-- ===== src/Supervisor/Tasks/Children.antt =====
-- The children of the worker: which of them runs with no signal sent to it, through the operations on
-- their list.
use llm_ctl.Base.{
  ℕ, ◌+◌, ◌≤◌, ◌≡◌, ◌⊎◌, refl, sym, inl, inr, Option, none, some, Bool, true, false, List, [], ◌∷◌,
  arith, ◌==◌, if◌then◌else◌, Bool-cases,
}
use llm_ctl.Supervisor.Tasks.{
  Phase, resetting, clearing, marking, killing, spawning, beginning, launching, storing, failing,
  Child, Tasks, signal, forget, Fresh,
}

-- The pid of the one child that may run with no signal sent to it, given the pid on record.
abbrev pub owner : Phase → Option ℕ → Option ℕ
owner (storing o) pid = o
owner (clearing k) pid = none
owner _ pid = pid

-- The phases in which no pid is on record.
abbrev pub is_vacant : Phase → Bool
is_vacant (resetting m) = true
is_vacant (spawning m) = true
is_vacant (beginning m) = true
is_vacant (launching m) = true
is_vacant (storing p) = true
is_vacant (failing why) = true
is_vacant _ = false

-- The stop that is under way is about the pid on record, if that is still there.
abbrev pub Aimed : Phase → Option ℕ → Type 0
Aimed (marking k p) pid = (pid ≡ none) ⊎ (pid ≡ some p)
Aimed (killing k p) pid = (pid ≡ none) ⊎ (pid ≡ some p)
Aimed _ pid = Unit

-- Every child with no signal sent to it has that pid.
abbrev pub Owned : Option ℕ → List Child → Type 0
Owned o [] = Unit
Owned o (c ∷ cs) = (c.signalled ≡ false → o ≡ some c.pid) × Owned o cs

abbrev pub Distinct : List Child → Type 0
Distinct [] = Unit
Distinct (c ∷ cs) = Fresh c.pid cs × Distinct cs

-- How many children run with no signal sent to them.
abbrev pub unsignalled : List Child → ℕ
unsignalled [] = 0
unsignalled (c ∷ cs) = (if c.signalled then 0 else 1) + unsignalled cs

-- Who holds `lifecycle`, the pid on record and the children agree.
pub record Agree (ph : Phase) (pid : Option ℕ) (cs : List Child) : Type 0 where
  pub distinct : Distinct cs
  pub owned : Owned (owner ph pid) cs
  pub vacant : is_vacant ph ≡ true → pid ≡ none
  pub aimed : Aimed ph pid

abbrev pub IsSingle : {V F : Type 0} → Tasks V F → Type 0
IsSingle t = Agree t.lifecycle t.worker.pid t.children

pub Owned-mono : (o o' : Option ℕ) (cs : List Child) → o' ≡ o → Owned o cs → Owned o' cs
Owned-mono o o' cs e h = rw e h

-- Where nobody owns a child, all are signalled.
pub Owned-none : (o : Option ℕ) (cs : List Child) → Owned none cs → Owned o cs
Owned-none o [] h = tt
Owned-none o (c ∷ cs) h =
    ((λ u. let k : ◌≡◌ {A = Option ℕ} none (some c.pid) = h.0 u in cc), Owned-none o cs h.1)

Fresh-signal : (q p : ℕ) (cs : List Child) → Fresh q cs → Fresh q (signal p cs)
unfolding signal
Fresh-signal q p [] h = tt
Fresh-signal q p (c ∷ cs) h = elim (Bool-cases (c.pid == p)) [
  | inl e ↦ rw (e, signal) (h.0, Fresh-signal q p cs h.1)
  | inr e ↦ rw (e, signal) (h.0, Fresh-signal q p cs h.1)
]

pub Distinct-signal : (p : ℕ) (cs : List Child) → Distinct cs → Distinct (signal p cs)
unfolding signal
Distinct-signal p [] h = tt
Distinct-signal p (c ∷ cs) h = elim (Bool-cases (c.pid == p)) [
  | inl e ↦ rw (e, signal) (Fresh-signal c.pid p cs h.0, Distinct-signal p cs h.1)
  | inr e ↦ rw (e, signal) (Fresh-signal c.pid p cs h.0, Distinct-signal p cs h.1)
]

-- Once the owner is signalled, no child is without a signal.
pub Owned-signal : (p : ℕ) (cs : List Child) → Owned (some p) cs → Owned none (signal p cs)
unfolding signal
Owned-signal p [] h = tt
Owned-signal p (c ∷ cs) h = (ground (arith, h.0), Owned-signal p cs h.1)

Fresh-forget : (q p : ℕ) (cs : List Child) → Fresh q cs → Fresh q (forget p cs)
unfolding forget
Fresh-forget q p [] h = tt
Fresh-forget q p (c ∷ cs) h = elim (Bool-cases (c.pid == p)) [
  | inl e ↦ rw (e, forget) (Fresh-forget q p cs h.1)
  | inr e ↦ rw (e, forget) (h.0, Fresh-forget q p cs h.1)
]

pub Distinct-forget : (p : ℕ) (cs : List Child) → Distinct cs → Distinct (forget p cs)
unfolding forget
Distinct-forget p [] h = tt
Distinct-forget p (c ∷ cs) h = elim (Bool-cases (c.pid == p)) [
  | inl e ↦ rw (e, forget) (Distinct-forget p cs h.1)
  | inr e ↦ rw (e, forget) (Fresh-forget c.pid p cs h.0, Distinct-forget p cs h.1)
]

-- The owner, unless it is the child that is gone.
abbrev pub unless : ℕ → Option ℕ → Option ℕ
unless p none = none
unless p (some q) = if q == p then none else some q

pub Owned-forget :
    (p : ℕ) (o : Option ℕ) (cs : List Child) → Owned o cs → Owned (unless p o) (forget p cs)
unfolding forget
Owned-forget p o [] h = tt
Owned-forget p o (c ∷ cs) h = elim (Bool-cases (c.pid == p)) [
  | inl e ↦ rw (e, forget) (Owned-forget p o cs h.1)
  | inr e ↦
      rw (e, forget)
        ((λ u. let mine : o ≡ some c.pid = h.0 u in rw mine (rw e)), Owned-forget p o cs h.1)
]

pub Owned-unless : (p : ℕ) (o : Option ℕ) (cs : List Child) → Owned (unless p o) cs → Owned o cs
Owned-unless p none cs h = h
Owned-unless p (some q) cs h = elim (Bool-cases (q == p)) [
  | inl e ↦
      let gone : unless p (some q) ≡ none = rw e in
      Owned-none (some q) cs (Owned-mono _ none cs (sym gone) h)
  | inr e ↦ let kept : unless p (some q) ≡ some q = rw e in Owned-mono _ (some q) cs (sym kept) h
]

unsignalled-eq-zero :
    (q : ℕ) (cs : List Child) → Fresh q cs → Owned (some q) cs → unsignalled cs ≡ 0
unsignalled-eq-zero q [] f h = refl
unsignalled-eq-zero q (c ∷ cs) f h = ground (arith, h.0, unsignalled-eq-zero q cs f.1 h.1)

pub unsignalled-le :
    (o : Option ℕ) (cs : List Child) → Distinct cs → Owned o cs → unsignalled cs ≤ 1
unsignalled-le o [] d h = omega arith
unsignalled-le o (c ∷ cs) d h = elim (Bool-cases c.signalled) [
  | inl told ↦ rw told (omega (arith, unsignalled-le o cs d.1 h.1))
  | inr alone ↦ rw alone (
      omega (
        arith,
        unsignalled-eq-zero c.pid cs d.0 (Owned-mono o (some c.pid) cs (sym (h.0 alone)) h.1),
      ))
]
