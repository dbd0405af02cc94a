-- ===== src/Store/Seed.antt =====
-- src/store.rs, `record_fake_turn`: the turn that `/api/session-test` records.
use llm_ctl.Base.{ℕ, Option, none, some, Bool, if◌then◌else◌}
use llm_ctl.Base.Int.{pos}
use llm_ctl.Base.Text.{Text}
use llm_ctl.External.{Floats}
use llm_ctl.Store.Turn.{Turn}
use llm_ctl.Store.Tables.{Tables, record_turn, count_turns}
use llm_ctl.Store.Service.{Server}

-- A literal with digits after the point is the quotient of two integers, correctly rounded.
hundredths : {F : Type 0} → Floats F → ℕ → F
hundredths fl n = fl.div (fl.of_i64 (pos n)) (fl.of_i64 (pos 100))

module _ {V F : Type 0} (fl : Floats F) where
  unfoldable pub fake_turn : Text → Text → Turn V F
  unfolding hundredths
  fake_turn session_id model = record {
    session_id = session_id;
    request_model = model;
    request_messages = none;
    request_max_tokens = none;
    request_temperature = none;
    response_id = none;
    response_content = none;
    response_finish_reason = none;
    cache_n = pos 7;
    prompt_n = pos 3;
    prompt_ms = fl.zero;
    prompt_per_second = hundredths fl 5530;
    predicted_n = pos 40;
    predicted_ms = fl.zero;
    predicted_per_second = hundredths fl 24320;
    usage_prompt_tokens = pos 0;
    usage_completion_tokens = pos 0;
    usage_cached_tokens = pos 0;
    duration_ms = hundredths fl 43557;
  }

  -- The tables afterwards and the count, if both statements go through; `counts` is whether the
  -- second does.
  unfoldable pub record_fake_turn :
      Server V F → Bool → Text → Text → Tables V F → Tables V F × Option ℕ
  unfolding fake_turn
  record_fake_turn sv counts session_id model db =
      elim (record_turn fl sv.accepts (fake_turn session_id model) sv.now db) [
        | none ↦ (db, none)
        | some db' ↦ (db', if counts then some (count_turns session_id db') else none)
      ]
