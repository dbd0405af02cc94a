-- ===== src/Store/Recording.antt =====
-- Recording a turn keeps the tables consistent.
use llm_ctl.Base.{
  ◌≡◌, refl, ap, sym, ◌∙◌, Option, none, some, Bool, true, false, List, [], ◌∷◌, ◌++◌, arith,
  if◌then◌else◌, Bool-cases, inl, inr, subst,
}
use llm_ctl.Base.Int.{pos, ◌+ℤ◌}
use llm_ctl.Base.Text.{Text, text_eq, text_eq_comm}
use llm_ctl.External.{Floats}
use llm_ctl.Store.Turn.{Turn}
use llm_ctl.Store.Session.{session_id}
use llm_ctl.Store.Tables.{
  Session, Tables, TurnRow, upsert, add_turn, cons?, update_totals, record_turn, resolve_session,
}
use llm_ctl.Store.Index.{row_of, record_turn-turns}
use llm_ctl.Store.Rollup.{
  sum_of, sum_of-append, IsSummed, AllSummed, known, AllKnown, IsConsistent, known-upsert_self,
  upsert-IsConsistent,
}

module _ {V F A : Type 0} (add : A → A → A) (figure : Turn V F → A) (k : Text) where
  sum_same :
      (acc : A) (rs : List (TurnRow V F)) (r : TurnRow V F)
      → text_eq r.turn.session_id k ≡ true
      → sum_of add figure k acc (rs ++ r ∷ []) ≡ add (sum_of add figure k acc rs) (figure r.turn)
  sum_same acc rs r h = rw (sum_of-append add figure k acc rs r, h) refl

  grown :
      (zero old total : A) (rs : List (TurnRow V F)) (r : TurnRow V F)
      → text_eq r.turn.session_id k ≡ true
      → total ≡ add old (figure r.turn)
      → old ≡ sum_of add figure k zero rs
      → total ≡ sum_of add figure k zero (rs ++ r ∷ [])
  grown zero old total rs r same e h =
      e ∙ ap (λ n. add n (figure r.turn)) h ∙ sym (sum_same zero rs r same)

  sum_other :
      (acc : A) (rs : List (TurnRow V F)) (r : TurnRow V F)
      → text_eq r.turn.session_id k ≡ false
      → sum_of add figure k acc (rs ++ r ∷ []) ≡ sum_of add figure k acc rs
  sum_other acc rs r h = rw (sum_of-append add figure k acc rs r, h) refl

module _ {V F : Type 0} (fl : Floats F) where
  -- What `UPDATE sessions` does to one row of the turn's session.
  add_turn-eq :
      (t : Turn V F) (s s' : Session F)
      → add_turn fl t s ≡ some s'
      → (s'.id ≡ s.id)
        × (s'.total_requests ≡ s.total_requests +ℤ pos 1)
        × (s'.total_prompt_tokens ≡ s.total_prompt_tokens +ℤ t.usage_prompt_tokens)
        × (s'.total_completion_tokens ≡ s.total_completion_tokens +ℤ t.usage_completion_tokens)
        × (s'.total_cache_tokens ≡ s.total_cache_tokens +ℤ t.usage_cached_tokens)
        × (s'.total_prompt_ms ≡ fl.add s.total_prompt_ms t.prompt_ms)
        × (s'.total_completion_ms ≡ fl.add s.total_completion_ms t.predicted_ms)
  unfolding add_turn
  add_turn-eq t s s' e = ground arith

  module _ (rs : List (TurnRow V F)) (r : TurnRow V F) where
    counted-IsSummed :
        (s s' : Session F)
        → text_eq r.turn.session_id s.id ≡ true
        → add_turn fl r.turn s ≡ some s'
        → IsSummed fl rs s
        → IsSummed fl (rs ++ r ∷ []) s'
    counted-IsSummed s s' same e h =
        let (i, a, b, c, d, x, y) = add_turn-eq r.turn s s' e in
        rw i (record {
          requests = grown _ _ s.id (pos 0) s.total_requests _ rs r same a h.requests;
          prompt_tokens =
              grown _ _ s.id (pos 0) s.total_prompt_tokens _ rs r same b h.prompt_tokens;
          completion_tokens =
              grown _ _ s.id (pos 0) s.total_completion_tokens _ rs r same c h.completion_tokens;
          cache_tokens = grown _ _ s.id (pos 0) s.total_cache_tokens _ rs r same d h.cache_tokens;
          prompt_ms = grown _ _ s.id fl.zero s.total_prompt_ms _ rs r same x h.prompt_ms;
          completion_ms =
              grown _ _ s.id fl.zero s.total_completion_ms _ rs r same y h.completion_ms;
        })

    other-IsSummed :
        (s : Session F)
        → text_eq r.turn.session_id s.id ≡ false
        → IsSummed fl rs s
        → IsSummed fl (rs ++ r ∷ []) s
    other-IsSummed s other h = record {
      requests = h.requests ∙ sym (sum_other _ _ s.id (pos 0) rs r other);
      prompt_tokens = h.prompt_tokens ∙ sym (sum_other _ _ s.id (pos 0) rs r other);
      completion_tokens = h.completion_tokens ∙ sym (sum_other _ _ s.id (pos 0) rs r other);
      cache_tokens = h.cache_tokens ∙ sym (sum_other _ _ s.id (pos 0) rs r other);
      prompt_ms = h.prompt_ms ∙ sym (sum_other _ _ s.id fl.zero rs r other);
      completion_ms = h.completion_ms ∙ sym (sum_other _ _ s.id fl.zero rs r other);
    }

    cons?-eq :
        (o : Option (Session F)) (os : Option (List (Session F))) (ss : List (Session F))
        → cons? o os ≡ some ss
        → (s : Session F) × (rest : List (Session F)) × (o ≡ some s)
          × (os ≡ some rest)
          × (ss ≡ s ∷ rest)
    unfolding cons?
    cons?-eq none os ss e = cc
    cons?-eq (some s) none ss e = cc
    cons?-eq (some s) (some rest) ss e = (s, rest, refl, refl, cc)

    -- One row of `UPDATE sessions`: its totals stay those of its turns, and its id stays.
    row-IsSummed :
        (s s' : Session F)
        → (if text_eq s.id r.turn.session_id then add_turn fl r.turn s else some s) ≡ some s'
        → IsSummed fl rs s
        → IsSummed fl (rs ++ r ∷ []) s' × (s'.id ≡ s.id)
    row-IsSummed s s' e h = elim (Bool-cases (text_eq s.id r.turn.session_id)) [
      | inl same ↦
          let added : add_turn fl r.turn s ≡ some s' = ground (arith, e, same) in
          (
            counted-IsSummed s s' (text_eq_comm r.turn.session_id s.id ∙ same) added h,
            (add_turn-eq r.turn s s' added).0,
          )
      | inr other ↦
          let kept : s ≡ s' = ground (arith, e, other) in
          (
            subst (IsSummed fl (rs ++ r ∷ [])) kept
                (other-IsSummed s (text_eq_comm r.turn.session_id s.id ∙ other) h),
            cc kept,
          )
    ]

    update_totals-AllSummed :
        (ss ss' : List (Session F))
        → update_totals fl r.turn ss ≡ some ss'
        → AllSummed fl rs ss
        → AllSummed fl (rs ++ r ∷ []) ss' × ((c : Text) → known c ss' ≡ known c ss)
    unfolding update_totals known
    update_totals-AllSummed [] ss' e h = let nothing : ss' ≡ [] = cc in rw nothing (tt, λ c. refl)
    update_totals-AllSummed (s ∷ ss) ss' e h =
        let (s₁, ss₁, e₁, e₂, e₃) = cons?-eq _ (update_totals fl r.turn ss) ss' e in
        let (first, same_id) = row-IsSummed s s₁ e₁ h.0 in
        let (others, same_ids) = update_totals-AllSummed ss ss₁ e₂ h.1 in
        rw e₃ ((first, others), λ c. rw (same_id, same_ids c) refl)

  AllKnown-of_known :
      (ss ss' : List (Session F)) (rs : List (TurnRow V F))
      → ((c : Text) → known c ss' ≡ known c ss)
      → AllKnown ss rs
      → AllKnown ss' rs
  AllKnown-of_known ss ss' [] same h = tt
  AllKnown-of_known ss ss' (r ∷ rs) same h =
      (same r.turn.session_id ∙ h.0, AllKnown-of_known ss ss' rs same h.1)

  AllKnown-append :
      (ss : List (Session F)) (rs : List (TurnRow V F)) (r : TurnRow V F)
      → AllKnown ss rs
      → known r.turn.session_id ss ≡ true
      → AllKnown ss (rs ++ r ∷ [])
  AllKnown-append ss [] r h k = (k, tt)
  AllKnown-append ss (x ∷ rs) r h k = (h.0, AllKnown-append ss rs r h.1 k)

  module _ (accepts : Turn V F → Bool) where
    -- Recording a turn keeps the tables consistent: each session's six totals are the sums of its
    -- turns' figures, in the order of their recording, and every turn's session has a row.
    pub record_turn-IsConsistent :
        (t : Turn V F) (now : F) (db db' : Tables V F)
        → IsConsistent fl db
        → record_turn fl accepts t now db ≡ some db'
        → IsConsistent fl db'
    record_turn-IsConsistent t now db db' h e =
        let (turns, updated) = record_turn-turns fl accepts t now db db' e in
        let ss : List (Session F) = upsert fl t.session_id t.request_model now db.sessions in
        let r : TurnRow V F = row_of t now db in
        let begun = upsert-IsConsistent fl t.session_id t.request_model now db h in
        let (summed, same) =
          update_totals-AllSummed db.turns r ss db'.sessions updated begun.summed in
        let new_known = known-upsert_self fl t.session_id t.request_model now db.sessions in
        record {
          summed = rw turns summed;
          referenced = rw turns (
              AllKnown-append db'.sessions db.turns r
                (AllKnown-of_known ss db'.sessions db.turns same begun.referenced)
                (same t.session_id ∙ new_known));
        }

  -- Resolving a session keeps the tables consistent, whatever id the client sends, and the session
  -- has a row afterwards.
  pub resolve_session-IsConsistent :
      (generated : Text) (client_id : Option Text) (model : Text) (now : F) (db db' : Tables V F)
      (sid : Text)
      → IsConsistent fl db
      → resolve_session fl true generated client_id model now db ≡ some (db', sid)
      → IsConsistent fl db' × (known sid db'.sessions ≡ true)
  unfolding resolve_session
  resolve_session-IsConsistent generated client_id model now db db' sid h e =
      let k : Text = session_id client_id generated in
      let same_id : sid ≡ k = ground arith in
      let same_db : db' ≡ record db { sessions = upsert fl k model now db.sessions } =
        ground arith in
      rw (same_id, same_db)
        (upsert-IsConsistent fl k model now db h, known-upsert_self fl k model now db.sessions)
