-- ===== src/Tests/StreamRuns.antt =====
-- A run of a stream's task, with events that are plain texts.
use llm_ctl.Base.{
  ℕ, String, ◌≡◌, refl, Option, none, some, true, false, List, [], ◌∷◌, arith, if◌then◌else◌, ◌||◌,
}
use mathlib.Core.List.{flatten}
use text.Mathlib.Text.{◌==◌ as str_eq}
use llm_ctl.Base.Text.{Text, lit, strip_prefix, trim, text_eq}
use llm_ctl.External.{Json}
use llm_ctl.Store.Turn.{Turn}
use llm_ctl.Supervisor.State.{new, from_secs}
use llm_ctl.Proxy.BuildTurn.{Asked, build_turn}
use llm_ctl.Proxy.App.{App, StoreOps, record_turn}
use llm_ctl.Proxy.Sse.Lines.{full_lines, partial}
use llm_ctl.Proxy.Sse.Events.{events, contents, streamed_reply}
use llm_ctl.Proxy.Stream.{chunk, eof, takes, gone, Round, Sent, stream_task}
use llm_ctl.Proxy.Stream.Disconnect.{finishes}
use llm_ctl.Proxy.Stream.Recorded.{chunks_of, stream_task-streamed_reply}
use llm_ctl.Tests.World.{floats}
use llm_ctl.Tests.ProxyRuns.{decode}

-- An event is a text, which is also its one choice, the delta of that and the content.
abbrev spoken : Text → String → Option Text
spoken t k = if str_eq k "choices" || str_eq k "delta" || str_eq k "content" then some t else none

abbrev texts : Json Text ℕ
texts = record {
  get = spoken;
  get_index = λ v i. some v;
  as_str = λ v. some v;
  as_bool = λ v. none;
  as_i64 = λ v. none;
  as_f64 = λ v. none;
  as_u64 = λ v. none;
  as_array = λ v. none;
  from_slice = λ bytes. none;
  slice_error = λ bytes. [];
  from_str = λ t. some t;
}

abbrev turns : StoreOps (List (Turn Text ℕ)) Text ℕ
turns = record { resolve_session = λ client_id model s. (s, none); record_turn = λ t s. t ∷ s }

abbrev streaming : App (List (Turn Text ℕ)) Text ℕ
unfolding new
streaming = record { worker = new; busy = true; active_session = none; store = some [] }

abbrev question : Asked Text ℕ
question = record {
  session_id = lit "pi";
  model = lit "m";
  messages = none;
  max_tokens = none;
  temperature = none;
}

-- Two events in three chunks; the client is gone at the second.
abbrev speech : List Round
unfolding lit
speech =
    record { now = 1; next = chunk (lit "data: ab\nda"); client = takes }
    ∷ record { now = 2; next = chunk (lit "ta: c"); client = gone }
    ∷ record { now = 3; next = chunk (lit "d\n"); client = gone }
    ∷ record { now = 4; next = eof; client = gone }
    ∷ []

heard :
    contents texts (events texts decode (full_lines (flatten (chunks_of (from_secs 1800) speech))))
    ≡ lit "abcd"
unfolding chunks_of flatten full_lines events contents lit strip_prefix trim text_eq
heard = refl

stream_task-streamed_reply_example :
    (sent : List Sent) × (stream_task texts decode floats turns question 0 speech 8 streaming
      ≡ some (
        record (record_turn turns
            (build_turn texts floats question
              (streamed_reply texts
                (events texts decode (full_lines (flatten (chunks_of (from_secs 1800) speech)))))
              8)
            streaming) { busy = false },
        sent,
      ))
unfolding chunks_of flatten full_lines partial lit finishes
stream_task-streamed_reply_example =
    stream_task-streamed_reply texts decode floats turns question 0 speech 8 streaming refl
      (omega arith) refl
