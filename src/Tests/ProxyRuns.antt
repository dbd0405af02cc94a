-- ===== src/Tests/ProxyRuns.antt =====
-- Runs of the proxy, over the real store.
use llm_ctl.Base.{
  ℕ, ◌≤◌, ◌≡◌, refl, none, some, Bool, true, false, List, [], ◌∷◌, arith, if◌then◌else◌, length,
  all,
}
use mathlib.Core.List.{flatten}
use llm_ctl.Base.Text.{Text, lit, text_eq, ends_with, trim, bytes}
use llm_ctl.Store.Tables.{indices, resolve_session}
use llm_ctl.Store.Index.{upto}
use llm_ctl.Store.Service.{Server, Database, service}
use llm_ctl.Proxy.Http.{post, Request, answers, hop_request, filtered_headers, header}
use llm_ctl.Proxy.BuildTurn.{Asked}
use llm_ctl.Proxy.App.{App, StoreOps}
use llm_ctl.Proxy.Headers.{last_value, header-filtered_headers}
use llm_ctl.Proxy.Sse.{on_chunks, on_chunk, position}
use llm_ctl.Proxy.Sse.Lines.{full_lines, partial}
use llm_ctl.Proxy.Sse.Chunks.{on_chunks-flatten}
use llm_ctl.Proxy.Stream.{chunk, eof, takes, gone, Round, Sent, stream_task}
use llm_ctl.Proxy.Stream.Disconnect.{attended_all, finishes, stream_task_same}
use llm_ctl.Proxy.Completion.{
  World, advance, handle_completion, fallback, enforce_model, is_completion, admit,
}
use llm_ctl.Proxy.Exclusion.{bit, is_ended, status_of, handle_completion_refused}
use llm_ctl.Proxy.Exclusion.History.{
  Front, Event, arrives, goes, drops, streams, holders, run, run-IsExclusive,
}
use llm_ctl.Proxy.Storekeeping.{Holds}
use llm_ctl.Proxy.Storekeeping.Consistency.{IsOrderly, run-IsOrderly}
use llm_ctl.Tests.World.{Doc, json, floats, running}

abbrev pub server : ℕ → Server Doc ℕ
server call = record {
  now = call;
  reachable = true;
  generated = lit "0f";
  accepts = λ t. true;
  in_time = true;
}

abbrev ops : StoreOps (Database Doc ℕ) Doc ℕ
ops = service floats server

abbrev app : Bool → App (Database Doc ℕ) Doc ℕ
app busy = record {
  worker = running;
  busy = busy;
  active_session = some (lit "pi");
  store = some (record { tables = record { sessions = []; turns = [] }; calls = 0 });
}

abbrev pub world : World ℕ
world = record {
  epoch = 3;
  to_str = λ t. some t;
  upstream = λ r. answers (record { status = 200; headers = []; bytes = some [] });
  duration_ms = 8;
}

abbrev pub completion : Request
completion = record {
  method = post;
  path = lit "/v1/chat/completions";
  query = none;
  headers = [];
  to_bytes = λ limit. some [];
}

abbrev pub decode : List ℕ → Text
decode bytes = bytes

handle_completion_refused_example :
    let (before', p) =
      advance json floats ops world
        (handle_completion json (lit "http") world completion)
        (app true) in
    let (app', p') = advance json floats ops world p (app true) in
    (before' ≡ app true)
    × (is_ended p' ≡ true)
    × (400 ≤ status_of p')
    × (app'.busy ≡ true)
    × (app'.store ≡ (app true).store)
    × (app'.active_session ≡ some (lit "pi"))
    × (app'.worker.last_turn ≡ none)
handle_completion_refused_example =
    handle_completion_refused json floats ops (lit "http") world completion (app true) (app true)
      refl

-- The client is gone at the second chunk.
abbrev pub rounds : List Round
rounds =
    record { now = 1; next = chunk (lit "data: {}"); client = takes }
    ∷ record { now = 2; next = chunk (10 ∷ []); client = gone }
    ∷ record { now = 3; next = eof; client = takes }
    ∷ []

abbrev asked : Asked Doc ℕ
asked = record {
  session_id = lit "pi";
  model = lit "m";
  messages = none;
  max_tokens = none;
  temperature = none;
}

stream_task_same_example :
    (app' : App (Database Doc ℕ) Doc ℕ) × (sent : List Sent) × (sent' : List Sent) × (stream_task
        json decode floats ops asked 0 rounds 8
        (app true)
      ≡ some (app', sent))
    × (stream_task json decode floats ops asked 0 (attended_all rounds) 8 (app true)
        ≡ some (app', sent'))
    × (app'.busy ≡ false)
unfolding finishes
stream_task_same_example = stream_task_same json decode floats ops asked 0 rounds 8 (app true) refl

abbrev front : Front (Database Doc ℕ) Doc ℕ
front = record { app = app false; flights = [] }

abbrev traffic : List (Event ℕ)
traffic =
    arrives world completion
    ∷ arrives world completion
    ∷ goes 0 world
    ∷ goes 1 world
    ∷ goes 0 world
    ∷ goes 1 world
    ∷ goes 0 world
    ∷ goes 0 world
    ∷ goes 0 world
    ∷ streams 0 0 rounds 8
    ∷ arrives world completion
    ∷ goes 0 world
    ∷ goes 0 world
    ∷ drops 0
    ∷ []

run-IsExclusive_example :
    let f = run json decode floats ops (lit "http") traffic front in
    (holders f.flights ≡ bit f.app.busy) × (holders f.flights ≤ 1)
unfolding holders
run-IsExclusive_example = run-IsExclusive json decode floats ops (lit "http") traffic front refl

-- Two completions side by side: the second to reach the gate is refused, the first streams.
abbrev side_by_side : List (Event ℕ)
side_by_side =
    arrives world completion
    ∷ arrives world completion
    ∷ goes 0 world
    ∷ goes 1 world
    ∷ goes 0 world
    ∷ goes 1 world
    ∷ []

traffic_runs :
    let f = run json decode floats ops (lit "http") side_by_side front in
    let f' = run json decode floats ops (lit "http") traffic front in
    (length f.flights ≡ 1)
    × (holders f.flights ≡ 1)
    × (f.app.busy ≡ true)
    × (f'.flights ≡ [])
    × (f'.app.busy ≡ false)
unfolding holders run fallback handle_completion advance enforce_model is_completion admit lit
    text_eq ends_with stream_task service resolve_session header trim bytes all on_chunk position
traffic_runs = (refl, refl, refl, refl, refl)

run-IsOrderly_example :
    Holds
      (IsOrderly floats)
      (run json decode floats (service floats server) (lit "http") traffic front).app.store
unfolding indices upto
run-IsOrderly_example =
    run-IsOrderly floats server json decode (lit "http") traffic front
      (record { consistent = record { summed = tt; referenced = tt }; numbered = λ k. refl })

abbrev note_line : List (List ℕ) → List ℕ → List (List ℕ)
note_line ls l = l ∷ ls

abbrev cut : List (List ℕ)
cut = (1 ∷ 2 ∷ []) ∷ (10 ∷ 3 ∷ []) ∷ (4 ∷ 10 ∷ 5 ∷ []) ∷ []

on_chunks-flatten_example :
    on_chunks note_line cut ([], []) ≡ some (5 ∷ [], (3 ∷ 4 ∷ 10 ∷ []) ∷ (1 ∷ 2 ∷ 10 ∷ []) ∷ [])
unfolding full_lines partial flatten
on_chunks-flatten_example = on_chunks-flatten note_line cut [] [] refl (omega arith)

abbrev sent_headers : List (Text × Text)
sent_headers = (lit "host", lit "a") ∷ (lit "accept", lit "x") ∷ (lit "accept", lit "y") ∷ []

header-filtered_headers_example :
    header (lit "accept") (filtered_headers sent_headers)
    ≡ (if hop_request (lit "accept") then none else last_value (lit "accept") sent_headers)
header-filtered_headers_example = header-filtered_headers (lit "accept") sent_headers
