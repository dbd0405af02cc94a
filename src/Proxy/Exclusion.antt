-- ===== src/Proxy/Exclusion.antt =====
-- The single-client gate over whole histories of requests and streams.
pub mod History
use llm_ctl.Base.{
  ℕ, ◌+◌, ◌≤◌, ◌≡◌, refl, Option, none, some, Bool, true, false, List, [], ◌∷◌, arith,
  if◌then◌else◌,
}
use llm_ctl.Base.Text.{Text}
use llm_ctl.External.{Json, Floats}
use llm_ctl.Proxy.Http.{Request, Response, Upstream, unreachable, answers, Answer, err_json}
use llm_ctl.Proxy.BuildTurn.{Asked}
use llm_ctl.Proxy.App.{App, StoreOps, record_turn}
use llm_ctl.Proxy.Gate.{acquire, release}
use llm_ctl.Proxy.Completion.{
  Progress, looking, gating, hinting, binding, sending, reading, recording, flowing, ended, World,
  Forwarded, Parsed, bind_session, enforce_model, admit, by_answer, read_whole, answer_whole,
  record_from_response, drop_guard, advance, handle_completion,
}

-- Whether a handler, or the task of its stream, holds the guard.
abbrev pub holds : {V F : Type 0} → Progress V F → Bool
holds (looking sent c p) = false
holds (gating sent c m p) = false
holds (ended r) = false
holds _ = true

abbrev pub bit : Bool → ℕ
bit b = if b then 1 else 0

abbrev pub is_ended : {V F : Type 0} → Progress V F → Bool
is_ended (ended r) = true
is_ended _ = false

-- The status that a handler has ended with.
abbrev pub status_of : {V F : Type 0} → Progress V F → ℕ
status_of (ended r) = r.status
status_of _ = 0

module _ {S V F : Type 0} (j : Json V F) (fl : Floats F) (ops : StoreOps S V F) where
  -- A step is fair to the gate: from a state in which the gate is taken if the handler holds the
  -- guard, the gate changes exactly as the handler's holding does.
  abbrev pub Fair : Progress V F → App S V F → App S V F × Bool → Type 0
  Fair p app (app', still) =
      (holds p ≡ true → app.busy ≡ true) → bit app'.busy + bit (holds p) ≡ bit app.busy + bit still

  enforce_model-holds :
      (sent : Forwarded) (c : Option Text) (p : Parsed V F) (active : Option Text)
      → holds (enforce_model j fl ops sent c p active) ≡ false
  unfolding enforce_model
  enforce_model-holds sent c p active = ground arith

  bind_session-busy :
      (c : Option Text) (model : Text) (app : App S V F)
      → (bind_session j fl ops c model app).0.busy ≡ app.busy
  unfolding bind_session
  bind_session-busy c model app = ground arith

  abbrev Fairly : Progress V F → App S V F → App S V F × Progress V F → Type 0
  Fairly p app (app', p') = Fair p app (app', holds p')

  by_answer-Fair :
      (streamed : Bool) (a : Asked V F) (app : App S V F) (u : Upstream)
      → app.busy ≡ true
      → let (app', p') = by_answer j fl ops streamed a app u in
        bit app'.busy + 1 ≡ bit app.busy + bit (holds p')
  unfolding by_answer
  by_answer-Fair streamed a app (unreachable e) taken = rw taken refl
  by_answer-Fair true a app (answers r) taken = refl
  by_answer-Fair false a app (answers r) taken = refl

  read_whole-Fair :
      (r : Answer) (a : Asked V F) (app : App S V F) (body : Option (List ℕ))
      → app.busy ≡ true
      → let (app', p') = read_whole j fl ops r a app body in
        bit app'.busy + 1 ≡ bit app.busy + bit (holds p')
  unfolding read_whole
  read_whole-Fair r a app none taken = rw taken refl
  read_whole-Fair r a app (some body) taken = refl

  pub advance-Fair :
      (w : World F) (p : Progress V F) (app : App S V F) → Fairly p app (advance j fl ops w p app)
  unfolding advance admit
  advance-Fair w (looking sent c p) app h =
      rw (enforce_model-holds sent c p app.worker.model_id) refl
  advance-Fair w (gating sent c m p) app h = ground arith
  advance-Fair w (hinting sent c m p) app h = refl
  advance-Fair w (binding sent c m p) app h = rw (bind_session-busy c m app) refl
  advance-Fair w (sending sent streamed a) app h =
      by_answer-Fair streamed a app (w.upstream sent) (h refl)
  advance-Fair w (reading r a) app h = read_whole-Fair r a app r.bytes (h refl)
  advance-Fair w (recording r body a) app h = let taken = h refl in rw taken refl
  advance-Fair w (flowing r a) app h = refl
  advance-Fair w (ended r) app h = refl

  -- A completion that comes to the gate while another is in flight ends with a status of at least
  -- 400, if it comes there at all, and changes neither the gate, the store, the session hint nor the
  -- last turn's figures, whatever other tasks do between its steps.
  pub handle_completion_refused :
      (base : Text) (w : World F) (req : Request) (before app : App S V F)
      → app.busy ≡ true
      → let (before', p) = advance j fl ops w (handle_completion j base w req) before in
        let (app', p') = advance j fl ops w p app in
        (before' ≡ before)
        × (is_ended p' ≡ true)
        × (400 ≤ status_of p')
        × (app'.busy ≡ true)
        × (app'.store ≡ app.store)
        × (app'.active_session ≡ app.active_session)
        × (app'.worker.last_turn ≡ app.worker.last_turn)
  unfolding handle_completion advance enforce_model admit err_json
  handle_completion_refused base w req before app e = ground arith
