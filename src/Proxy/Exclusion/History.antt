-- ===== src/Proxy/Exclusion/History.antt =====
-- Completions and stream tasks as they interleave at every await: at most one is in flight.
use llm_ctl.Base.{
  ℕ, zero, suc, ◌+◌, ◌≤◌, ◌≡◌, refl, ap, sym, ◌∙◌, none, some, Bool, true, false, List, [], ◌∷◌,
  ◌++◌, arith, Option-cases, inl, inr, if◌then◌else◌,
}
use llm_ctl.Base.Text.{Text}
use llm_ctl.External.{Json, Floats}
use llm_ctl.Proxy.Http.{Request}
use llm_ctl.Proxy.App.{App, StoreOps}
use llm_ctl.Proxy.Gate.{release}
use llm_ctl.Proxy.Stream.{Round, stream_task}
use llm_ctl.Proxy.Stream.Disconnect.{stream_task-opens}
use llm_ctl.Proxy.Completion.{
  Progress, looking, gating, flowing, ended, World, advance, handle_completion, fallback,
  drop_guard,
}
use llm_ctl.Proxy.Exclusion.{holds, bit, advance-Fair}

-- The proxy with the handlers and stream tasks that are under way.
pub record Front (S V F : Type 0) : Type 0 where
  pub app : App S V F
  pub flights : List (Progress V F)

-- What happens next: a request arrives; the handler with a number goes on to its next await; its
-- client goes away, and the server drops it; or the task of its stream meets these rounds.
pub data Event (F : Type 0) : Type 0 where
  arrives : World F → Request → Event F
  goes : ℕ → World F → Event F
  drops : ℕ → Event F
  streams : ℕ → ℕ → List Round → F → Event F

-- A handler that has ended is no longer under way.
abbrev pub left : {V F : Type 0} → Progress V F → List (Progress V F)
left (ended r) = []
left p = p ∷ []

-- How many of the handlers hold the guard.
unfoldable pub holders : {V F : Type 0} → List (Progress V F) → ℕ
holders [] = 0
holders (p ∷ ps) = bit (holds p) + holders ps

-- The state, and what has become of one handler, or of all.
abbrev pub Turned : Type 0 → Type 0 → Type 0 → Type 0
Turned S V F = App S V F × List (Progress V F)

module _ {S V F : Type 0} where
  -- What becomes of the handler with that number.
  unfoldable pub at_flight :
      ℕ → (Progress V F → App S V F → Turned S V F) → App S V F → List (Progress V F) → Turned S V F
  at_flight n act app [] = (app, [])
  at_flight zero act app (p ∷ ps) = let (app', here) = act p app in (app', here ++ ps)
  at_flight (suc n) act app (p ∷ ps) =
      let (app', others) = at_flight n act app ps in (app', p ∷ others)

module _ {S V F : Type 0} (j : Json V F) (decode : List ℕ → Text) (fl : Floats F)
    (ops : StoreOps S V F) (base : Text) where
  unfoldable pub go : World F → Progress V F → App S V F → Turned S V F
  go w p app = let (app', p') = advance j fl ops w p app in (app', left p')

  -- A handler is dropped with its guard; the task of a stream has the guard and goes on.
  unfoldable pub drop_flight : Progress V F → App S V F → Turned S V F
  drop_flight (flowing r a) app = (app, flowing r a ∷ [])
  drop_flight p app = (if holds p then drop_guard j fl ops app else app, [])

  unfoldable pub stream_on : ℕ → List Round → F → Progress V F → App S V F → Turned S V F
  stream_on begun rs duration (flowing r a) app =
      elim (stream_task j decode fl ops a begun rs duration app) [
        | none ↦ (app, flowing r a ∷ [])
        | some (app', sent) ↦ (app', [])
      ]
  stream_on begun rs duration p app = (app, p ∷ [])

  abbrev pub put : Turned S V F → Front S V F
  put (app, flights) = record { app = app; flights = flights }

  unfoldable pub step : Event F → Front S V F → Front S V F
  unfolding at_flight go drop_flight stream_on
  step (arrives w req) f = record {
    app = f.app;
    flights = left (fallback j base w req) ++ f.flights;
  }
  step (goes n w) f = put (at_flight n (go w) f.app f.flights)
  step (drops n) f = put (at_flight n drop_flight f.app f.flights)
  step (streams n begun rs duration) f =
      put (at_flight n (stream_on begun rs duration) f.app f.flights)

  unfoldable pub run : List (Event F) → Front S V F → Front S V F
  unfolding step
  run [] f = f
  run (e ∷ es) f = run es (step e f)

  -- The gate is taken exactly if one handler or stream task holds the guard, and no more than one does.
  abbrev pub IsExclusive : Front S V F → Type 0
  IsExclusive f = holders f.flights ≡ bit f.app.busy

  -- What is done to one handler changes the gate as it changes that handler's holding.
  abbrev Turns : Progress V F → App S V F → Turned S V F → Type 0
  Turns p app (app', here) =
      (holds p ≡ true → app.busy ≡ true)
      → bit app'.busy + bit (holds p) ≡ bit app.busy + holders here

  holders-append : (ps qs : List (Progress V F)) → holders (ps ++ qs) ≡ holders ps + holders qs
  unfolding holders
  holders-append [] qs = omega arith
  holders-append (p ∷ ps) qs = omega (arith, holders-append ps qs)

  holders-left : (p : Progress V F) → holders (left p) ≡ bit (holds p)
  unfolding holders
  holders-left p = ground arith

  held :
      (p : Progress V F) (k : ℕ) (app : App S V F)
      → k + bit (holds p) ≡ bit app.busy
      → holds p ≡ true
      → app.busy ≡ true
  held p k app e h = ground arith

  at_flight-holders :
      (n : ℕ) (act : Progress V F → App S V F → Turned S V F)
      → ((p : Progress V F) (app : App S V F) → Turns p app (act p app))
      → (k : ℕ) (app : App S V F) (ps : List (Progress V F)) → k + holders ps ≡ bit app.busy
      → let (app', ps') = at_flight n act app ps in k + holders ps' ≡ bit app'.busy
  unfolding at_flight holders
  at_flight-holders n act fair k app [] e = e
  at_flight-holders zero act fair k app (p ∷ ps) e =
      let (app', here) = act p app in
      let taken : holds p ≡ true → app.busy ≡ true =
        held p (k + holders ps) app (omega (arith, e)) in
      omega (arith, e, fair p app taken, holders-append here ps)
  at_flight-holders (suc n) act fair k app (p ∷ ps) e =
      let others = at_flight-holders n act fair (k + bit (holds p)) app ps (omega (arith, e)) in
      omega (arith, others)

  go-Turns : (w : World F) (p : Progress V F) (app : App S V F) → Turns p app (go w p app)
  unfolding go
  go-Turns w p app h =
      let (app', p') = advance j fl ops w p app in
      advance-Fair j fl ops w p app h ∙ ap (λ n. bit app.busy + n) (sym (holders-left p'))

  holders-one : (p : Progress V F) → holders (p ∷ []) ≡ bit (holds p)
  unfolding holders
  holders-one p = omega arith

  turned-IsExclusive :
      (n : ℕ) (act : Progress V F → App S V F → Turned S V F)
      → ((p : Progress V F) (app : App S V F) → Turns p app (act p app))
      → (f : Front S V F) → IsExclusive f
      → IsExclusive (put (at_flight n act f.app f.flights))
  turned-IsExclusive n act fair f h =
      omega (arith, at_flight-holders n act fair 0 f.app f.flights (omega (arith, h)))

  drop_flight-Turns : (p : Progress V F) (app : App S V F) → Turns p app (drop_flight p app)
  unfolding drop_flight holders release
  drop_flight-Turns (flowing r a) app h = refl
  drop_flight-Turns (looking sent c p) app h = refl
  drop_flight-Turns (gating sent c m p) app h = refl
  drop_flight-Turns (ended r) app h = refl
  drop_flight-Turns _ app h = let taken = h refl in rw taken refl

  stream_on-Turns :
      (begun : ℕ) (rs : List Round) (d : F) (p : Progress V F) (app : App S V F)
      → Turns p app (stream_on begun rs d p app)
  unfolding stream_on holders
  stream_on-Turns begun rs d (flowing r a) app h =
      elim (Option-cases (stream_task j decode fl ops a begun rs d app)) [
        | inl on ↦ rw (on, stream_on) refl
        | inr ((app', sent), over) ↦
            let taken : app.busy ≡ true = h refl in
            let open_again : app'.busy ≡ false =
              stream_task-opens j decode fl ops a begun rs d app app' sent over in
            rw (over, stream_on) (rw (taken, open_again) refl)
      ]
  stream_on-Turns begun rs d p app h = omega (arith, holders-one p)

  fallback-holds : (w : World F) (req : Request) → holds (fallback j base w req) ≡ false
  unfolding fallback handle_completion
  fallback-holds w req = ground arith

  pub step-IsExclusive : (e : Event F) (f : Front S V F) → IsExclusive f → IsExclusive (step e f)
  unfolding step
  step-IsExclusive (arrives w req) f h =
      let p : Progress V F = fallback j base w req in
      let none_held : bit (holds p) ≡ 0 = rw (fallback-holds w req) refl in
      omega (arith, h, holders-append (left p) f.flights, holders-left p, none_held)
  step-IsExclusive (goes n w) f h = turned-IsExclusive n (go w) (go-Turns w) f h
  step-IsExclusive (drops n) f h = turned-IsExclusive n drop_flight drop_flight-Turns f h
  step-IsExclusive (streams n begun rs d) f h =
      turned-IsExclusive n (stream_on begun rs d) (stream_on-Turns begun rs d) f h

  run-holders : (es : List (Event F)) (f : Front S V F) → IsExclusive f → IsExclusive (run es f)
  unfolding run
  run-holders [] f h = h
  run-holders (e ∷ es) f h = run-holders es (step e f) (step-IsExclusive e f h)

  bit-le : (b : Bool) → bit b ≤ 1
  bit-le true = omega arith
  bit-le false = omega arith

  -- Whatever requests arrive, however their handlers interleave at their awaits, whichever clients go
  -- away, and whenever the streams end, from a front whose gate is taken exactly if one handler or
  -- stream task holds the guard, and no more than one does, that stays so.
  pub run-IsExclusive :
      (es : List (Event F)) (f : Front S V F)
      → IsExclusive f
      → let f' = run es f in (holders f'.flights ≡ bit f'.app.busy) × (holders f'.flights ≤ 1)
  run-IsExclusive es f h = let k = run-holders es f h in (k, rw k (bit-le (run es f).app.busy))
