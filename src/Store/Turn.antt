-- ===== src/Store/Turn.antt =====
-- src/store.rs: `Turn`, one recorded request and response.
use llm_ctl.Base.{Option}
use llm_ctl.Base.Int.{ℤ}
use llm_ctl.Base.Text.{Text}

pub record Turn (V F : Type 0) : Type 0 where
  pub session_id : Text
  pub request_model : Text
  pub request_messages : Option V
  pub request_max_tokens : Option ℤ
  pub request_temperature : Option F
  pub response_id : Option Text
  pub response_content : Option Text
  pub response_finish_reason : Option Text
  pub cache_n : ℤ
  pub prompt_n : ℤ
  pub prompt_ms : F
  pub prompt_per_second : F
  pub predicted_n : ℤ
  pub predicted_ms : F
  pub predicted_per_second : F
  pub usage_prompt_tokens : ℤ
  pub usage_completion_tokens : ℤ
  pub usage_cached_tokens : ℤ
  pub duration_ms : F
