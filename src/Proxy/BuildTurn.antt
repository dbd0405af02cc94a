-- ===== src/Proxy/BuildTurn.antt =====
-- src/proxy.rs: the figures of a turn, from the `usage` and `timings` objects of the response.
use llm_ctl.Base.{String, Option, none, some, if◌then◌else◌}
use llm_ctl.Base.Int.{ℤ, pos, ◌+ℤ◌, ltb_ℤ, wrap_i64}
use llm_ctl.Base.Text.{Text}
use llm_ctl.External.{Json, Floats}
use llm_ctl.Store.Turn.{Turn}

-- `and_then`.
abbrev pub and_then {ℓ κ} : {A : Type ℓ} {B : Type κ} → Option A → (A → Option B) → Option B
and_then none f = none
and_then (some a) f = f a

abbrev pub or_zero : Option ℤ → ℤ
or_zero none = pos 0
or_zero (some n) = n

abbrev or_f64 : {F : Type 0} → F → Option F → F
or_f64 d none = d
or_f64 d (some x) = x

-- `if n > 0 { n } else { other }`.
abbrev pub positive_or : ℤ → ℤ → ℤ
positive_or n other = if ltb_ℤ (pos 0) n then n else other

-- What a request says of a turn.
pub record Asked (V F : Type 0) : Type 0 where
  pub session_id : Text
  pub model : Text
  pub messages : Option V
  pub max_tokens : Option ℤ
  pub temperature : Option F

-- What the response says of it.
pub record Replied (V : Type 0) : Type 0 where
  pub id : Option Text
  pub content : Option Text
  pub finish : Option Text
  pub usage : Option V
  pub timings : Option V

module _ {V F : Type 0} (j : Json V F) (fl : Floats F) where
  unfoldable pub num : Option V → String → F
  num v k = or_f64 fl.zero (and_then (and_then v (λ x. j.get x k)) j.as_f64)

  unfoldable pub num_i : Option V → String → ℤ
  num_i v k = or_zero (and_then (and_then v (λ x. j.get x k)) j.as_i64)

  -- `usage.prompt_tokens_details.cached_tokens`, or 0.
  unfoldable pub cached : Option V → ℤ
  cached usage = or_zero (
      and_then
        (and_then (and_then usage (λ u. j.get u "prompt_tokens_details"))
          (λ d. j.get d "cached_tokens"))
        j.as_i64)

  unfoldable pub build_turn : Asked V F → Replied V → F → Turn V F
  unfolding num num_i cached
  build_turn a r duration_ms = record {
    session_id = a.session_id;
    request_model = a.model;
    request_messages = a.messages;
    request_max_tokens = a.max_tokens;
    request_temperature = a.temperature;
    response_id = r.id;
    response_content = r.content;
    response_finish_reason = r.finish;
    cache_n = num_i r.timings "cache_n";
    prompt_n = num_i r.timings "prompt_n";
    prompt_ms = num r.timings "prompt_ms";
    prompt_per_second = num r.timings "prompt_per_second";
    predicted_n = num_i r.timings "predicted_n";
    predicted_ms = num r.timings "predicted_ms";
    predicted_per_second = num r.timings "predicted_per_second";
    usage_prompt_tokens =
        positive_or (num_i r.usage "prompt_tokens")
          (wrap_i64 (num_i r.timings "prompt_n" +ℤ num_i r.timings "cache_n"));
    usage_completion_tokens =
        positive_or (num_i r.usage "completion_tokens") (num_i r.timings "predicted_n");
    usage_cached_tokens = positive_or (cached r.usage) (num_i r.timings "cache_n");
    duration_ms = duration_ms;
  }
