-- ===== src/Jobs/Logs.antt =====
-- The logs are windows: the last lines of what the children say.
use native.Mathlib.Decide.{dec_le}
use llm_ctl.Base.{
  subst, arith, length, drop, ◌+◌, ◌-◌, refl, ℕ, ◌<◌, ◌≡◌, ◌∙◌, some, Bool, true, false, List, [],
  ◌∷◌, ◌++◌,
}
use llm_ctl.Base.Text.{Text, trim_end, is_whitespace}
use mathlib.Core.List.{append_assoc, append-nil}
use llm_ctl.Collect.{new, push, line, eof, failed as read_failed, push_capped}
use llm_ctl.Collect.Window.{last, last_nil, push_capped-last}
use llm_ctl.Jobs.{push_lines, Said, out, err, collect_both}

push_line-eq :
    (cap : ℕ) (v w : List Text) (l : Text) (lines : List Text)
    → push_capped cap v l ≡ some w
    → push_lines cap v (l ∷ lines) ≡ push_lines cap w lines
unfolding push_lines
push_line-eq cap v w l lines e = rw (e, push_lines)

pub push_lines-last :
    (cap : ℕ) (xs lines : List Text)
    → 0 < cap
    → push_lines cap (last cap xs) lines ≡ some (last cap (xs ++ lines))
unfolding push_lines
push_lines-last cap xs [] p = rw (append-nil xs)
push_lines-last cap xs (l ∷ lines) p =
    push_line-eq cap (last cap xs) (last cap (xs ++ l ∷ [])) l lines (push_capped-last cap xs l p)
    ∙ rw (← append_assoc xs (l ∷ []) lines) (push_lines-last cap (xs ++ l ∷ []) lines p)

-- The lines of both readers, in the order in which they are read.
pub both_read : Bool → Bool → List Said → List Text
both_read o e [] = []
both_read true e (out (line l) ∷ rest) = trim_end is_whitespace l ∷ both_read true e rest
both_read true e (out eof ∷ rest) = both_read false e rest
both_read true e (out read_failed ∷ rest) = both_read false e rest
both_read false e (out r ∷ rest) = both_read false e rest
both_read o true (err (line l) ∷ rest) = trim_end is_whitespace l ∷ both_read o true rest
both_read o true (err eof ∷ rest) = both_read o false rest
both_read o true (err read_failed ∷ rest) = both_read o false rest
both_read o false (err r ∷ rest) = both_read o false rest

out_line-eq :
    (cap : ℕ) (v w : List Text) (e : Bool) (l : Text) (rest : List Said)
    → push_capped cap v (trim_end is_whitespace l) ≡ some w
    → collect_both true e (out (line l) ∷ rest) (record { inner = v; cap = cap })
      ≡ collect_both true e rest (record { inner = w; cap = cap })
unfolding collect_both push
out_line-eq cap v w e l rest h = rw (h, collect_both, push)

err_line-eq :
    (cap : ℕ) (v w : List Text) (o : Bool) (l : Text) (rest : List Said)
    → push_capped cap v (trim_end is_whitespace l) ≡ some w
    → collect_both o true (err (line l) ∷ rest) (record { inner = v; cap = cap })
      ≡ collect_both o true rest (record { inner = w; cap = cap })
unfolding collect_both push
err_line-eq cap v w o l rest h = rw (h, collect_both, push)

pub collect_both-last :
    (cap : ℕ) (xs : List Text) (o e : Bool) (said : List Said)
    → 0 < cap
    → collect_both o e said (record { inner = last cap xs; cap = cap })
      ≡ some (record { inner = last cap (xs ++ both_read o e said); cap = cap })
unfolding collect_both both_read
collect_both-last cap xs o e [] p = rw (append-nil xs)
collect_both-last cap xs true e (out (line l) ∷ rest) p =
    let t : Text = trim_end is_whitespace l in
    out_line-eq cap (last cap xs) (last cap (xs ++ t ∷ [])) e l rest (push_capped-last cap xs t p)
    ∙ rw (← append_assoc xs (t ∷ []) (both_read true e rest))
        (collect_both-last cap (xs ++ t ∷ []) true e rest p)
collect_both-last cap xs true e (out eof ∷ rest) p = collect_both-last cap xs false e rest p
collect_both-last cap xs true e (out read_failed ∷ rest) p = collect_both-last cap xs false e rest p
collect_both-last cap xs false e (out r ∷ rest) p = collect_both-last cap xs false e rest p
collect_both-last cap xs o true (err (line l) ∷ rest) p =
    let t : Text = trim_end is_whitespace l in
    err_line-eq cap (last cap xs) (last cap (xs ++ t ∷ [])) o l rest (push_capped-last cap xs t p)
    ∙ rw (← append_assoc xs (t ∷ []) (both_read o true rest))
        (collect_both-last cap (xs ++ t ∷ []) o true rest p)
collect_both-last cap xs o true (err eof ∷ rest) p = collect_both-last cap xs o false rest p
collect_both-last cap xs o true (err read_failed ∷ rest) p = collect_both-last cap xs o false rest p
collect_both-last cap xs o false (err r ∷ rest) p = collect_both-last cap xs o false rest p

-- A push never panics.
pub push_capped_total :
    (cap : ℕ) (log : List Text) (l : Text)
    → 0 < cap
    → (log' : List Text) × (push_capped cap log l ≡ some log')
unfolding push_capped
push_capped_total cap log l p = elim (dec_le cap (length log)) [
  | yes full ↦ (drop (length log - cap + 1) log ++ l ∷ [], ground arith)
  | no room ↦ (log ++ l ∷ [], ground arith)
]

pub push_lines_total :
    (cap : ℕ) (log lines : List Text)
    → 0 < cap
    → (log' : List Text) × (push_lines cap log lines ≡ some log')
unfolding push_lines
push_lines_total cap log [] p = (log, refl)
push_lines_total cap log (l ∷ lines) p =
    let (log₁, e) = push_capped_total cap log l p in
    let (log₂, e₂) = push_lines_total cap log₁ lines p in
    (log₂, push_line-eq cap log log₁ l lines e ∙ e₂)

pub collect_new :
    (cap : ℕ) (said : List Said)
    → 0 < cap
    → collect_both true true said (new cap)
      ≡ some (record { inner = last cap (both_read true true said); cap = cap })
unfolding new
collect_new cap said p =
    subst
      (λ v.
        collect_both true true said (record { inner = v; cap = cap })
        ≡ some (record { inner = last cap (both_read true true said); cap = cap }))
      (last_nil cap) (collect_both-last cap [] true true said p)
