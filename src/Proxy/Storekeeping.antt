-- ===== src/Proxy/Storekeeping.antt =====
-- What the store's own operations keep, the whole proxy keeps.
pub mod Consistency
use llm_ctl.Base.{
  ℕ, zero, suc, ◌≡◌, refl, sym, Option, none, some, Bool, true, false, not, ◌+◌, List, [], ◌∷◌,
  arith, Bool-cases, Option-cases, inl, inr, subst, if◌then◌else◌,
}
use llm_ctl.Base.Text.{Text, is_empty, text_eq, lit}
use llm_ctl.External.{Json, Floats}
use llm_ctl.Supervisor.State.{from_secs}
use llm_ctl.Store.Turn.{Turn}
use llm_ctl.Proxy.Http.{Request, Answer, Upstream, unreachable, answers, max_body, ok_json}
use llm_ctl.Proxy.BuildTurn.{Asked, build_turn}
use llm_ctl.Proxy.App.{App, StoreOps, stash, write, record_turn}
use llm_ctl.Proxy.Sse.{Collector}
use llm_ctl.Proxy.Stream.{Round, Sent, begin, drain, replied, finish_stream, stream_task}
use llm_ctl.Proxy.Completion.{
  Progress, looking, gating, hinting, binding, sending, reading, recording, flowing, ended, World,
  record_from_response, resolved, bind_session, admit, touch, by_answer, read_whole, answer_whole,
  advance,
}
use llm_ctl.Proxy.Exclusion.History.{
  Front, Event, arrives, goes, drops, streams, Turned, at_flight, go, drop_flight, stream_on, step,
  run,
}

abbrev pub Holds : {S : Type 0} → (S → Type 0) → Option S → Type 0
Holds P none = Unit
Holds P (some s) = P s

-- A property of the store that each of its operations keeps.
pub record Keeps {S V F : Type 0} (ops : StoreOps S V F) (P : S → Type 0) : Type 0 where
  pub resolves : (c : Option Text) (m : Text) (s : S) → P s → P (ops.resolve_session c m s).0
  pub records : (t : Turn V F) (s : S) → P s → P (ops.record_turn t s)

module _ {S V F : Type 0} (j : Json V F) (fl : Floats F) (ops : StoreOps S V F) (P : S → Type 0)
    (keep : Keeps ops P) where
  abbrev Good : App S V F → Type 0
  Good app = Holds P app.store

  write-Good : (t : Turn V F) (app : App S V F) → Good app → Good (write ops t app)
  unfolding write
  write-Good t app h = elim (Option-cases app.store) [
    | inl e ↦ rw (e, write) h
    | inr (s, e) ↦ rw (e, write) (keep.records t s (subst (Holds P) e h))
  ]

  record_turn-Good : (t : Turn V F) (app : App S V F) → Good app → Good (record_turn ops t app)
  unfolding record_turn
  record_turn-Good t app h = elim (Bool-cases (is_empty t.session_id)) [
    | inl unbound ↦ rw (unbound, record_turn) h
    | inr bound ↦ rw (bound, record_turn) (write-Good t (stash ops t app) h)
  ]

  record_from_response-Good :
      (a : Asked V F) (body : List ℕ) (d : F) (app : App S V F)
      → Good app
      → Good (record_from_response j fl ops a body d app)
  unfolding record_from_response
  record_from_response-Good a body d app h = elim (Bool-cases (is_empty a.session_id)) [
    | inl unbound ↦ rw (unbound, record_from_response) h
    | inr bound ↦ elim (Option-cases (j.from_slice body)) [
      | inl e ↦ rw (bound, e, record_from_response) h
      | inr (v, e) ↦ rw (bound, e, record_from_response) (record_turn-Good _ app h)
    ]
  ]

  resolved-Good : (r : S × Option Text) (app : App S V F) → P r.0 → Good (resolved j fl ops r app).0
  unfolding resolved
  resolved-Good (s, none) app h = h
  resolved-Good (s, some id) app h = h

  bind_session-Good :
      (c : Option Text) (m : Text) (app : App S V F)
      → Good app
      → Good (bind_session j fl ops c m app).0
  unfolding bind_session
  bind_session-Good c m app h = elim (Option-cases app.store) [
    | inl e ↦ rw (e, bind_session) h
    | inr (s, e) ↦
        rw (e, bind_session)
          (resolved-Good (ops.resolve_session c m s) app
            (keep.resolves c m s (subst (Holds P) e h)))
  ]

  by_answer-Good :
      (streamed : Bool) (a : Asked V F) (app : App S V F) (u : Upstream)
      → Good app
      → Good (by_answer j fl ops streamed a app u).0
  unfolding by_answer
  by_answer-Good streamed a app (unreachable e) h = h
  by_answer-Good streamed a app (answers r) h = h

  read_whole-Good :
      (r : Answer) (a : Asked V F) (app : App S V F) (body : Option (List ℕ))
      → Good app
      → Good (read_whole j fl ops r a app body).0
  unfolding read_whole
  read_whole-Good r a app none h = h
  read_whole-Good r a app (some body) h = h

  advance-Good :
      (w : World F) (p : Progress V F) (app : App S V F)
      → Good app
      → Good (advance j fl ops w p app).0
  unfolding advance admit touch answer_whole
  advance-Good w (looking sent c p) app h = h
  advance-Good w (gating sent c m p) app h = h
  advance-Good w (hinting sent c m p) app h = h
  advance-Good w (binding sent c m p) app h = bind_session-Good c m app h
  advance-Good w (sending sent streamed a) app h = by_answer-Good streamed a app (w.upstream sent) h
  advance-Good w (reading r a) app h = read_whole-Good r a app r.bytes h
  advance-Good w (recording r body a) app h = record_from_response-Good a body w.duration_ms app h
  advance-Good w (flowing r a) app h = h
  advance-Good w (ended r) app h = h

  finish_stream-Good :
      (decode : List ℕ → Text) (a : Asked V F) (c : Collector V) (d : F) (app : App S V F)
      → Good app
      → Good (finish_stream j decode fl ops a c d app)
  unfolding finish_stream
  finish_stream-Good decode a c d app h = elim (Bool-cases (is_empty a.session_id)) [
    | inl unbound ↦ rw (unbound, finish_stream) h
    | inr bound ↦
        let t : Turn V F = build_turn j fl a (replied j decode c) d in
        rw (bound, finish_stream) (write-Good t (stash ops t app) h)
  ]

  module _ (decode : List ℕ → Text) (base : Text) where
    stream_on-Good :
        (begun : ℕ) (rs : List Round) (d : F) (p : Progress V F) (app : App S V F)
        → Good app
        → Good (stream_on j decode fl ops base begun rs d p app).0
    unfolding stream_on stream_task
    stream_on-Good begun rs d (flowing r a) app h =
        elim (Option-cases
          (drain j decode (not (is_empty a.session_id)) (begun + from_secs 1800) rs begin)) [
            | inl e ↦ rw (e, stream_on, stream_task) h
            | inr (st, e) ↦
                rw (e, stream_on, stream_task) (finish_stream-Good decode a st.collector d app h)
          ]
    stream_on-Good begun rs d p app h = h

    drop_flight-Good :
        (p : Progress V F) (app : App S V F)
        → Good app
        → Good (drop_flight j decode fl ops base p app).0
    unfolding drop_flight
    drop_flight-Good (flowing r a) app h = h
    drop_flight-Good (looking sent c p) app h = h
    drop_flight-Good (gating sent c m p) app h = h
    drop_flight-Good (ended r) app h = h
    drop_flight-Good _ app h = h

    at_flight-Good :
        (n : ℕ) (act : Progress V F → App S V F → Turned S V F)
        → ((p : Progress V F) (app : App S V F) → Good app → Good (act p app).0)
        → (app : App S V F) (ps : List (Progress V F)) → Good app
        → Good (at_flight n act app ps).0
    unfolding at_flight
    at_flight-Good n act keeps app [] h = h
    at_flight-Good zero act keeps app (p ∷ ps) h = keeps p app h
    at_flight-Good (suc n) act keeps app (p ∷ ps) h = at_flight-Good n act keeps app ps h

    pub step-Holds :
        (e : Event F) (f : Front S V F)
        → Holds P f.app.store
        → Holds P (step j decode fl ops base e f).app.store
    unfolding step go
    step-Holds (arrives w req) f h = h
    step-Holds (goes n w) f h =
        at_flight-Good n (go j decode fl ops base w) (advance-Good w) f.app f.flights h
    step-Holds (drops n) f h =
        at_flight-Good n (drop_flight j decode fl ops base) drop_flight-Good f.app f.flights h
    step-Holds (streams n begun rs d) f h =
        at_flight-Good n (stream_on j decode fl ops base begun rs d) (stream_on-Good begun rs d)
          f.app f.flights h

    -- What the store's operations keep holds of the store after any requests and streams, from a
    -- front where it holds.
    pub run-Holds :
        (es : List (Event F)) (f : Front S V F)
        → Holds P f.app.store
        → Holds P (run j decode fl ops base es f).app.store
    unfolding run
    run-Holds [] f h = h
    run-Holds (e ∷ es) f h = run-Holds es (step j decode fl ops base e f) (step-Holds e f h)
