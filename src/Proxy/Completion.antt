-- ===== src/Proxy/Completion.antt =====
-- src/proxy.rs, `handle_completion`, `record_from_response`, `forward` and `fallback`.
use llm_ctl.Base.{
  ℕ, Option, none, some, Bool, false, not, ◌&&◌, ◌||◌, List, [], ◌++◌, if◌then◌else◌,
}
use llm_ctl.Base.Int.{ℤ}
use llm_ctl.Base.Text.{Text, lit, is_empty, text_eq, ends_with}
use llm_ctl.External.{Json, Floats}
use llm_ctl.Proxy.Http.{
  Method, post, is_post, Request, Response, Answer, Upstream, unreachable, answers, bytes, stream,
  max_body, ok_json, err_json, filtered_headers, passed_headers, header,
}
use llm_ctl.Proxy.BuildTurn.{and_then, Asked, Replied, build_turn}
use llm_ctl.Proxy.App.{App, StoreOps, record_turn}
use llm_ctl.Proxy.Gate.{acquire, release}
use llm_ctl.Proxy.Sse.{or_empty}

-- The request that goes to the worker: its URL's path and query, headers and body.
pub record Forwarded : Type 0 where
  pub method : Method
  pub url : Text
  pub headers : List (Text × Text)
  pub body : List ℕ

-- What the world answers to one completion.
pub record World (F : Type 0) : Type 0 where
  pub epoch : F  -- seconds since 1970
  pub to_str : Text → Option Text  -- `HeaderValue::to_str`
  pub upstream : Forwarded → Upstream
  pub duration_ms : F  -- from the sending of the request to its recording

-- The fields of the request's JSON object that the proxy reads.
pub record Parsed (V F : Type 0) : Type 0 where
  pub req_model : Text
  pub stream : Bool
  pub messages : Option V
  pub max_tokens : Option ℤ
  pub temperature : Option F

-- How far the handler of a completion has come: what it does at its next lock or answer. From
-- `hinting` on it holds the guard, until it has ended; the task of a stream holds it then.
pub data Progress (V F : Type 0) : Type 0 where
  looking : Forwarded → Option Text → Parsed V F → Progress V F
  gating hinting binding : Forwarded → Option Text → Text → Parsed V F → Progress V F
  sending : Forwarded → Bool → Asked V F → Progress V F
  reading : Answer → Asked V F → Progress V F
  recording : Answer → List ℕ → Asked V F → Progress V F
  flowing : Response → Asked V F → Progress V F
  ended : Response → Progress V F

abbrev or_false : Option Bool → Bool
or_false none = false
or_false (some b) = b

-- `a.or(b)`.
abbrev pub or_else : {A : Type 0} → Option A → Option A → Option A
or_else none b = b
or_else (some a) b = some a

-- A completion goes to the worker without its query.
completion_request : Text → Request → List ℕ → Forwarded
unfolding filtered_headers
completion_request base req body = record {
  method = post;
  url = base ++ req.path;
  headers = filtered_headers req.headers;
  body = body;
}

module _ {V F : Type 0} (j : Json V F) where
  unfoldable pub parse_request : V → Parsed V F
  parse_request v = record {
    req_model = or_empty (and_then (j.get v "model") j.as_str);
    stream = or_false (and_then (j.get v "stream") j.as_bool);
    messages = j.get v "messages";
    max_tokens = and_then (j.get v "max_tokens") j.as_i64;
    temperature = and_then (j.get v "temperature") j.as_f64;
  }

module _ {S V F : Type 0} (j : Json V F) (fl : Floats F) (ops : StoreOps S V F) where
  -- The turn that a whole response gives.
  unfoldable pub reply_of : V → Replied V
  reply_of v =
      let ch0 = and_then (j.get v "choices") (λ c. j.get_index c 0) in
      record {
        id = and_then (j.get v "id") j.as_str;
        content =
            and_then (and_then (and_then ch0 (λ c. j.get c "message")) (λ m. j.get m "content"))
              j.as_str;
        finish = and_then (and_then ch0 (λ c. j.get c "finish_reason")) j.as_str;
        usage = j.get v "usage";
        timings = j.get v "timings";
      }

  unfoldable pub record_from_response : Asked V F → List ℕ → F → App S V F → App S V F
  unfolding reply_of record_turn build_turn
  record_from_response a body duration_ms app =
      if is_empty a.session_id then app else elim (j.from_slice body) [
        | none ↦ app
        | some v ↦ record_turn ops (build_turn j fl a (reply_of v) duration_ms) app
      ]

  unfoldable pub resolved : S × Option Text → App S V F → App S V F × Text
  resolved (s, none) app = (record app { store = some s }, [])
  resolved (s, some id) app = (record app { store = some s }, id)

  -- The session is recorded in the store, if there is one. The empty id means that the turn is not
  -- recorded.
  unfoldable pub bind_session : Option Text → Text → App S V F → App S V F × Text
  unfolding resolved
  bind_session client_id model app = elim app.store [
    | none ↦ (app, [])
    | some s ↦ resolved (ops.resolve_session client_id model s) app
  ]

  abbrev pub drop_guard : App S V F → App S V F
  drop_guard app = record app { busy = release app.busy }

  unfoldable pub asked : Text → Text → Parsed V F → Asked V F
  asked session_id model p = record {
    session_id = session_id;
    model = model;
    messages = p.messages;
    max_tokens = p.max_tokens;
    temperature = p.temperature;
  }

  unfoldable pub touch : F → App S V F → App S V F
  touch epoch app = record app { worker = record worker { last_request_at = some epoch } }
    where
      open app use {worker}

  not_loaded : Text → Text → Text
  not_loaded req_model active =
      lit "model '"
      ++ (req_model ++ (lit "' is not loaded; active model is '" ++ (active ++ lit "'")))

  -- The check of the model, against the one that is active.
  unfoldable pub enforce_model : Forwarded → Option Text → Parsed V F → Option Text → Progress V F
  unfolding not_loaded
  enforce_model sent client_id p none =
      ended (err_json 503 (lit "no model loaded; start one first"))
  enforce_model sent client_id p (some active) =
      if not (is_empty p.req_model) && not (text_eq p.req_model active)
      then ended (err_json 409 (not_loaded p.req_model active))
      else gating sent client_id (if is_empty p.req_model then active else p.req_model) p

  -- The single-client gate.
  unfoldable pub admit :
      Forwarded → Option Text → Text → Parsed V F → App S V F → App S V F × Progress V F
  unfolding acquire
  admit sent client_id model p app =
      let (got, busy') = acquire app.busy in
      (
        record app { busy = busy' },
        if got
            then hinting sent client_id model p
            else ended
                (err_json 409 (lit "another completion is already in flight; single-client mode")),
      )

  -- The request is sent, and the worker's head of a response is there, or none comes.
  unfoldable pub by_answer : Bool → Asked V F → App S V F → Upstream → App S V F × Progress V F
  unfolding release err_json passed_headers
  by_answer streamed a app (unreachable e) =
      (drop_guard app, ended (err_json 502 (lit "upstream unreachable: " ++ e)))
  by_answer streamed a app (answers r) = (
    app,
    if streamed
        then flowing
            (record { status = r.status; headers = passed_headers r.headers; body = stream }) a
        else reading r a,
  )

  -- The body of a response that is read whole.
  unfoldable pub read_whole :
      Answer → Asked V F → App S V F → Option (List ℕ) → App S V F × Progress V F
  unfolding release err_json
  read_whole r a app none = (drop_guard app, ended (err_json 502 (lit "upstream read failed")))
  read_whole r a app (some body) = (app, recording r body a)

  unfoldable pub answer_whole :
      World F → Answer → List ℕ → Asked V F → App S V F → App S V F × Progress V F
  unfolding release record_from_response passed_headers
  answer_whole w r body a app = (
    drop_guard (record_from_response a body w.duration_ms app),
    ended (record { status = r.status; headers = passed_headers r.headers; body = bytes body }),
  )

  -- One step of a handler, from one await to the next. Other tasks run before it.
  unfoldable pub advance : World F → Progress V F → App S V F → App S V F × Progress V F
  unfolding enforce_model admit touch bind_session asked by_answer read_whole answer_whole
  advance w (looking sent client_id p) app =
      (app, enforce_model sent client_id p app.worker.model_id)
  advance w (gating sent client_id model p) app = admit sent client_id model p (touch w.epoch app)
  advance w (hinting sent client_id model p) app =
      (app, binding sent (or_else client_id app.active_session) model p)
  advance w (binding sent client_id model p) app =
      let (app', session_id) = bind_session client_id model app in
      (app', sending sent p.stream (asked session_id model p))
  advance w (sending sent streamed a) app = by_answer streamed a app (w.upstream sent)
  advance w (reading r a) app = read_whole r a app r.bytes
  advance w (recording r body a) app = answer_whole w r body a app
  advance w (flowing r a) app = (app, flowing r a)
  advance w (ended r) app = (app, ended r)

-- `.and_then(|h| h.to_str().ok())`.
session_header : {F : Type 0} → World F → Option Text → Option Text
session_header w h = and_then h w.to_str

module _ {V F : Type 0} (j : Json V F) where
  -- A completion up to its first lock: its body is read and parsed.
  unfoldable pub handle_completion : Text → World F → Request → Progress V F
  unfolding parse_request completion_request session_header err_json
  handle_completion base w req = elim (req.to_bytes max_body) [
    | none ↦ ended (err_json 413 (lit "request body too large"))
    | some body ↦ elim (j.from_slice body) [
      | none ↦ ended (err_json 400 (lit "invalid JSON body: " ++ j.slice_error body))
      | some v ↦
          looking (completion_request base req body)
            (session_header w (header (lit "x-session-id") req.headers)) (parse_request j v)
    ]
  ]

query_text : Option Text → Text
query_text none = []
query_text (some q) = lit "?" ++ q

unfoldable pub forward_request : Text → Request → Option Forwarded
unfolding query_text filtered_headers
forward_request base req = elim (req.to_bytes max_body) [
  | none ↦ none
  | some body ↦ some (record {
    method = req.method;
    url = base ++ (req.path ++ query_text req.query);
    headers = filtered_headers req.headers;
    body = body;
  })
]

forwarded_response : Upstream → Response
unfolding err_json passed_headers
forwarded_response (unreachable e) = err_json 502 (lit "upstream unreachable: " ++ e)
forwarded_response (answers r) = record {
  status = r.status;
  headers = passed_headers r.headers;
  body = stream;
}

-- `upstream` is what the worker answers to the request.
unfoldable pub forward : Text → Request → (Forwarded → Upstream) → Response
unfolding forward_request forwarded_response
forward base req upstream = elim (forward_request base req) [
  | none ↦ err_json 413 (lit "request body too large")
  | some r ↦ forwarded_response (upstream r)
]

unfoldable pub is_completion : Request → Bool
is_completion req =
    is_post req.method
    && (ends_with req.path (lit "/chat/completions") || ends_with req.path (lit "/completions"))

module _ {V F : Type 0} (j : Json V F) where
  unfoldable pub fallback : Text → World F → Request → Progress V F
  unfolding is_completion handle_completion forward ok_json
  fallback base w req =
      if text_eq req.path (lit "/")
      then ended (ok_json base)
      else if is_completion req
      then handle_completion j base w req
      else ended (forward base req w.upstream)
