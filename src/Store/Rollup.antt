-- ===== src/Store/Rollup.antt =====
-- The totals on a session's row are those of its turns.
use llm_ctl.Base.{
  ◌≡◌, refl, sym, some, Bool, true, false, ◌||◌, List, [], ◌∷◌, ◌++◌, arith, if◌then◌else◌,
  Bool-cases, inl, inr,
}
use llm_ctl.Base.Int.{pos, ◌+ℤ◌}
use llm_ctl.Base.Text.{Text, text_eq, text_eq→eq, text_eq_refl}
use llm_ctl.External.{Floats}
use llm_ctl.Store.Turn.{Turn}
use llm_ctl.Store.Tables.{Session, Tables, TurnRow, fresh, upsert}

-- A figure summed over the turns of session `k`, in the order of their recording.
module _ {V F A : Type 0} (add : A → A → A) (figure : Turn V F → A) (k : Text) where
  unfoldable pub sum_of : A → List (TurnRow V F) → A
  sum_of acc [] = acc
  sum_of acc (r ∷ rs) =
      sum_of (if text_eq r.turn.session_id k then add acc (figure r.turn) else acc) rs

  pub sum_of-append :
      (acc : A) (rs : List (TurnRow V F)) (r : TurnRow V F)
      → sum_of acc (rs ++ r ∷ []) ≡ (
          if text_eq r.turn.session_id k
          then add (sum_of acc rs) (figure r.turn)
          else sum_of acc rs)
  unfolding sum_of
  sum_of-append acc [] r = refl
  sum_of-append acc (x ∷ rs) r =
      sum_of-append (if text_eq x.turn.session_id k then add acc (figure x.turn) else acc) rs r

module _ {V F : Type 0} (fl : Floats F) where
  -- The six totals of a row, against the turns.
  pub record IsSummed (rs : List (TurnRow V F)) (s : Session F) : Type 0 where
    pub requests : s.total_requests ≡ sum_of ◌+ℤ◌ (λ t. pos 1) s.id (pos 0) rs
    pub prompt_tokens :
        s.total_prompt_tokens ≡ sum_of ◌+ℤ◌ (λ t. t.usage_prompt_tokens) s.id (pos 0) rs
    pub completion_tokens :
        s.total_completion_tokens ≡ sum_of ◌+ℤ◌ (λ t. t.usage_completion_tokens) s.id (pos 0) rs
    pub cache_tokens :
        s.total_cache_tokens ≡ sum_of ◌+ℤ◌ (λ t. t.usage_cached_tokens) s.id (pos 0) rs
    pub prompt_ms : s.total_prompt_ms ≡ sum_of fl.add (λ t. t.prompt_ms) s.id fl.zero rs
    pub completion_ms : s.total_completion_ms ≡ sum_of fl.add (λ t. t.predicted_ms) s.id fl.zero rs

  abbrev pub AllSummed : List (TurnRow V F) → List (Session F) → Type 0
  AllSummed rs [] = Unit
  AllSummed rs (s ∷ ss) = IsSummed rs s × AllSummed rs ss

-- Whether a session has a row.
unfoldable pub known : {F : Type 0} → Text → List (Session F) → Bool
known k [] = false
known k (s ∷ ss) = text_eq s.id k || known k ss

-- Every turn's session has a row: the foreign key of `turns`.
abbrev pub AllKnown : {V F : Type 0} → List (Session F) → List (TurnRow V F) → Type 0
AllKnown ss [] = Unit
AllKnown ss (r ∷ rs) = (known r.turn.session_id ss ≡ true) × AllKnown ss rs

pub record IsConsistent {V F : Type 0} (fl : Floats F) (db : Tables V F) : Type 0 where
  pub summed : AllSummed fl db.turns db.sessions
  pub referenced : AllKnown db.sessions db.turns

module _ {V F A : Type 0} (add : A → A → A) (figure : Turn V F → A) (k : Text) where
  -- A session without a row has no turns to sum.
  sum_of_unknown :
      (acc : A) (ss : List (Session F)) (rs : List (TurnRow V F))
      → known k ss ≡ false
      → AllKnown ss rs
      → sum_of add figure k acc rs ≡ acc
  unfolding sum_of
  sum_of_unknown acc ss [] n h = refl
  sum_of_unknown acc ss (r ∷ rs) n h = elim (Bool-cases (text_eq r.turn.session_id k)) [
    | inl same ↦ cc (text_eq→eq r.turn.session_id k same, h.0, n)
    | inr other ↦ rw other (sum_of_unknown acc ss rs n h.1)
  ]

module _ {F : Type 0} (fl : Floats F) (k m : Text) (now : F) where
  pub known-upsert_self : (ss : List (Session F)) → known k (upsert fl k m now ss) ≡ true
  unfolding upsert known fresh
  known-upsert_self [] = rw (text_eq_refl k) refl
  known-upsert_self (s ∷ ss) = ground (arith, known-upsert_self ss)

  known-upsert :
      (c : Text) (ss : List (Session F)) → known c ss ≡ true → known c (upsert fl k m now ss) ≡ true
  unfolding upsert known
  known-upsert c [] h = cc
  known-upsert c (s ∷ ss) h = ground (arith, known-upsert c ss)

module _ {V F : Type 0} (fl : Floats F) (k m : Text) (now : F) where
  fresh-IsSummed :
      (ss : List (Session F)) (rs : List (TurnRow V F))
      → known k ss ≡ false
      → AllKnown ss rs
      → IsSummed fl rs (fresh fl k m now)
  unfolding fresh
  fresh-IsSummed ss rs n h = record {
    requests = sym (sum_of_unknown _ _ k (pos 0) ss rs n h);
    prompt_tokens = sym (sum_of_unknown _ _ k (pos 0) ss rs n h);
    completion_tokens = sym (sum_of_unknown _ _ k (pos 0) ss rs n h);
    cache_tokens = sym (sum_of_unknown _ _ k (pos 0) ss rs n h);
    prompt_ms = sym (sum_of_unknown _ _ k fl.zero ss rs n h);
    completion_ms = sym (sum_of_unknown _ _ k fl.zero ss rs n h);
  }

  touched-IsSummed :
      (rs : List (TurnRow V F)) (s : Session F)
      → IsSummed fl rs s
      → IsSummed fl rs (record s { model = some m; updated_at = now })
  touched-IsSummed rs s h = record {
    requests = h.requests;
    prompt_tokens = h.prompt_tokens;
    completion_tokens = h.completion_tokens;
    cache_tokens = h.cache_tokens;
    prompt_ms = h.prompt_ms;
    completion_ms = h.completion_ms;
  }

  upsert-AllSummed :
      (rs : List (TurnRow V F)) (ss : List (Session F))
      → (known k ss ≡ false → IsSummed fl rs (fresh fl k m now))
      → AllSummed fl rs ss
      → AllSummed fl rs (upsert fl k m now ss)
  unfolding upsert known
  upsert-AllSummed rs [] new h = (new refl, tt)
  upsert-AllSummed rs (s ∷ ss) new h = elim (Bool-cases (text_eq s.id k)) [
    | inl same ↦ rw same (touched-IsSummed rs s h.0, h.1)
    | inr other ↦ rw other (h.0, upsert-AllSummed rs ss (λ e. new (rw other e)) h.1)
  ]

  upsert-AllKnown :
      (ss : List (Session F)) (rs : List (TurnRow V F))
      → AllKnown ss rs
      → AllKnown (upsert fl k m now ss) rs
  upsert-AllKnown ss [] h = tt
  upsert-AllKnown ss (r ∷ rs) h =
      (known-upsert fl k m now r.turn.session_id ss h.0, upsert-AllKnown ss rs h.1)

  pub upsert-IsConsistent :
      (db : Tables V F)
      → IsConsistent fl db
      → IsConsistent fl (record db { sessions = upsert fl k m now db.sessions })
  upsert-IsConsistent db h = record {
    summed =
        upsert-AllSummed db.turns db.sessions
          (λ n. fresh-IsSummed db.sessions db.turns n h.referenced) h.summed;
    referenced = upsert-AllKnown db.sessions db.turns h.referenced;
  }
