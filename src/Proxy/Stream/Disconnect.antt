-- ===== src/Proxy/Stream/Disconnect.antt =====
-- When the stream task ends, and that a client that goes away does not change what is recorded.
use llm_ctl.Base.{
  ℕ, suc, ◌+◌, ◌≡◌, refl, ap, sym, ◌∙◌, inl, inr, Option, none, some, Bool, true, false, not, List,
  [], ◌∷◌, ◌++◌, arith, length, ltb, if◌then◌else◌, Bool-cases, Option-cases,
}
use llm_ctl.Base.Text.{Text, lit, is_empty}
use mathlib.Core.List.{foldl}
use llm_ctl.Proxy.Http.{max_sse_buf}
use llm_ctl.External.{Json, Floats}
use llm_ctl.Supervisor.State.{from_secs}
use llm_ctl.Proxy.BuildTurn.{Asked}
use llm_ctl.Proxy.App.{App, StoreOps}
use llm_ctl.Proxy.Sse.{Collector, on_chunk}
use llm_ctl.Proxy.Sse.Lines.{full_lines, partial, drain_lines-full_lines}
use llm_ctl.Proxy.Gate.{release}
use llm_ctl.Proxy.Stream.{
  Client, takes, gone, stuck, offered, told, Next, chunk, chunk_error, eof, idle, Round, Sent,
  StreamState, begin, eat, drain, collect, send_chunk, send_error, finish_stream, stream_task,
}

module _ {S : Type 0} (eat : S → List ℕ → S) where
  -- The fuel of one chunk is enough.
  pub on_chunk_total :
      (b buf : List ℕ) (s : S) → (r : List ℕ × S) × (on_chunk eat b (buf, s) ≡ some r)
  unfolding on_chunk
  on_chunk_total b buf s =
      let xs : List ℕ = buf ++ b in
      let left : List ℕ × S = (
        if ltb max_sse_buf (length (partial xs)) then [] else partial xs,
        foldl eat s (full_lines xs),
      ) in
      (left, rw (drain_lines-full_lines eat (suc (length xs)) xs s (omega arith)) refl)

-- A round as it would be with the client still there.
abbrev pub attended : Round → Round
attended r = record r { client = takes }

abbrev pub attended_all : List Round → List Round
attended_all [] = []
attended_all (r ∷ rs) = attended r ∷ attended_all rs

abbrev pub waits : Client → Bool
waits stuck = true
waits _ = false

abbrev pub ends_by : Next → Bool → Bool
ends_by (chunk b) later = later
ends_by _ later = true

-- No send waits for ever, and then comes the end of the stream, an error, a pause of 30 seconds, or a
-- round that begins after the deadline.
unfoldable pub finishes : ℕ → List Round → Bool
finishes deadline [] = false
finishes deadline (r ∷ rs) =
    let later = finishes deadline rs in
    if ltb deadline r.now then true else if waits r.client then false else ends_by r.next later

pub finishes-early :
    (deadline : ℕ) (r : Round) (rs : List Round)
    → ltb deadline r.now ≡ false
    → finishes deadline (r ∷ rs) ≡ true
    → (waits r.client ≡ false) × (ends_by r.next (finishes deadline rs) ≡ true)
unfolding finishes
finishes-early deadline r rs early fin = elim (Bool-cases (waits r.client)) [
  | inl waiting ↦ cc (rw (early, waiting) at fin)
  | inr prompt ↦ (prompt, rw (early, prompt) at fin)
]

module _ {V F : Type 0} (j : Json V F) (decode : List ℕ → Text) where
  -- Two states that differ at most in what the client has got.
  abbrev Alike : StreamState V → StreamState V → Type 0
  Alike st st' = (st.buf ≡ st'.buf) × (st.collector ≡ st'.collector)

  collect_same :
      (recording : Bool) (b : List ℕ) (st st' : StreamState V)
      → Alike st st'
      → (u : StreamState V) × (u' : StreamState V) × (collect j decode recording b st ≡ some u)
        × (collect j decode recording b st' ≡ some u')
        × Alike u u'
  unfolding collect
  collect_same false b st st' h = (st, st', refl, refl, h)
  collect_same true b st st' (e, f) =
      let ((buf, col), k) = on_chunk_total (eat j decode) b st.buf st.collector in
      (
        record st { buf = buf; collector = col },
        record st' { buf = buf; collector = col },
        rw (k, collect) refl,
        rw (← e, ← f, k, collect) refl,
        (refl, refl),
      )

  offered-kept :
      (c : Client) (b : List ℕ) (st : StreamState V)
      → waits c ≡ false
      → (u : StreamState V) × (offered c b st ≡ some u) × Alike u st
  unfolding offered
  offered-kept takes b st k = (_, refl, (refl, refl))
  offered-kept gone b st k = (_, refl, (refl, refl))
  offered-kept stuck b st k = cc

  told-kept :
      (c : Client) (e : Text) (st : StreamState V)
      → waits c ≡ false
      → (u : StreamState V) × (told c e st ≡ some u) × Alike u st
  unfolding told
  told-kept takes e st k = (_, refl, (refl, refl))
  told-kept gone e st k = (_, refl, (refl, refl))
  told-kept stuck e st k = cc

  -- A send that does not wait leaves the buffer and the collector as they are.
  pub send_chunk-kept :
      (c : Client) (b : List ℕ) (st : StreamState V)
      → waits c ≡ false
      → (u : StreamState V) × (send_chunk c b st ≡ some u) × Alike u st
  unfolding send_chunk
  send_chunk-kept c b st h = elim (Bool-cases st.client_gone) [
    | inl away ↦ (st, ap (λ g. if g then some st else offered c b st) away, (refl, refl))
    | inr there ↦
        let (u, e, k) = offered-kept c b st h in
        (u, ap (λ g. if g then some st else offered c b st) there ∙ e, k)
  ]

  pub send_error-kept :
      (c : Client) (e : Text) (st : StreamState V)
      → waits c ≡ false
      → (u : StreamState V) × (send_error c e st ≡ some u) × Alike u st
  unfolding send_error
  send_error-kept c e st h = elim (Bool-cases st.client_gone) [
    | inl away ↦ (st, ap (λ g. if g then some st else told c e st) away, (refl, refl))
    | inr there ↦
        let (u, x, k) = told-kept c e st h in
        (u, ap (λ g. if g then some st else told c e st) there ∙ x, k)
  ]

  -- What a drain has collected.
  abbrev pub collected : Option (StreamState V) → Option (Collector V)
  collected none = none
  collected (some st) = some st.collector

  abbrev Agree : Bool → ℕ → List Round → StreamState V → StreamState V → Type 0
  Agree recording deadline rs st st' =
      (c : Collector V) × (collected (drain j decode recording deadline rs st) ≡ some c)
      × (collected (drain j decode recording deadline (attended_all rs) st') ≡ some c)

  pub drain_chunk :
      (recording : Bool) (deadline now : ℕ) (b : List ℕ) (c : Client) (rs : List Round)
      (st u v : StreamState V)
      → ltb deadline now ≡ false
      → collect j decode recording b st ≡ some u
      → send_chunk c b u ≡ some v
      → drain j decode recording deadline (record { now = now; next = chunk b; client = c } ∷ rs) st
        ≡ drain j decode recording deadline rs v
  unfolding drain
  drain_chunk recording deadline now b c rs st u v early e k = rw (early, drain) (rw e (rw k refl))

  -- A round that is the last: what is collected stays.
  abbrev pub Stays : Bool → ℕ → Round → List Round → StreamState V → Type 0
  Stays recording deadline r rs st =
      collected (drain j decode recording deadline (r ∷ rs) st) ≡ some st.collector

  pub error-Stays :
      (recording : Bool) (deadline now : ℕ) (why : Text) (c : Client) (rs : List Round)
      (st : StreamState V)
      → ltb deadline now ≡ false
      → waits c ≡ false
      → Stays recording deadline (record { now = now; next = chunk_error why; client = c }) rs st
  unfolding drain
  error-Stays recording deadline now why c rs st early prompt =
      let (u, e, k) = send_error-kept c why st prompt in rw early (ap collected e ∙ ap some k.1)

  pub idle-Stays :
      (recording : Bool) (deadline now : ℕ) (c : Client) (rs : List Round) (st : StreamState V)
      → ltb deadline now ≡ false
      → waits c ≡ false
      → Stays recording deadline (record { now = now; next = idle; client = c }) rs st
  unfolding drain
  idle-Stays recording deadline now c rs st early prompt =
      let (u, e, k) = send_error-kept c (lit "llama stream idle timeout") st prompt in
      rw early (ap collected e ∙ ap some k.1)

  pub eof-Stays :
      (recording : Bool) (deadline now : ℕ) (c : Client) (rs : List Round) (st : StreamState V)
      → ltb deadline now ≡ false
      → Stays recording deadline (record { now = now; next = eof; client = c }) rs st
  unfolding drain
  eof-Stays recording deadline now c rs st early = rw early refl

  pub late-Stays :
      (recording : Bool) (deadline : ℕ) (r : Round) (rs : List Round) (st : StreamState V)
      → ltb deadline r.now ≡ true
      → Stays recording deadline r rs st
  unfolding drain
  late-Stays recording deadline r rs st late = rw late refl

  -- One round in time, by what it brings.
  early_same :
      (recording : Bool) (deadline now : ℕ) (n : Next) (c : Client) (rs : List Round)
      (st st' : StreamState V)
      → ltb deadline now ≡ false
      → waits c ≡ false
      → ends_by n (finishes deadline rs) ≡ true
      → ((u u' : StreamState V)
          → finishes deadline rs ≡ true
          → Alike u u'
          → Agree recording deadline rs u u')
      → Alike st st'
      → Agree recording deadline (record { now = now; next = n; client = c } ∷ rs) st st'
  early_same recording deadline now (chunk b) c rs st st' early prompt fin ih h =
      let (u, u', e, e', k) = collect_same recording b st st' h in
      let (v, f, l) = send_chunk-kept c b u prompt in
      let (v', f', l') = send_chunk-kept takes b u' refl in
      rw
        (
          drain_chunk recording deadline now b c rs st u v early e f,
          drain_chunk recording deadline now b takes (attended_all rs) st' u' v' early e' f',
        )
        (ih v v' fin (l.0 ∙ k.0 ∙ sym l'.0, l.1 ∙ k.1 ∙ sym l'.1))
  early_same recording deadline now (chunk_error why) c rs st st' early prompt fin ih h = (
    st.collector,
    error-Stays recording deadline now why c rs st early prompt,
    error-Stays recording deadline now why takes (attended_all rs) st' early refl
        ∙ ap some (sym h.1),
  )
  early_same recording deadline now eof c rs st st' early prompt fin ih h = (
    st.collector,
    eof-Stays recording deadline now c rs st early,
    eof-Stays recording deadline now takes (attended_all rs) st' early ∙ ap some (sym h.1),
  )
  early_same recording deadline now idle c rs st st' early prompt fin ih h = (
    st.collector,
    idle-Stays recording deadline now c rs st early prompt,
    idle-Stays recording deadline now takes (attended_all rs) st' early refl ∙ ap some (sym h.1),
  )

  drain_same :
      (recording : Bool) (deadline : ℕ) (rs : List Round) (st st' : StreamState V)
      → finishes deadline rs ≡ true
      → Alike st st'
      → Agree recording deadline rs st st'
  unfolding finishes
  drain_same recording deadline [] st st' fin h = cc
  drain_same recording deadline (r ∷ rs) st st' fin h = elim (Bool-cases (ltb deadline r.now)) [
    | inl late ↦ (
      st.collector,
      late-Stays recording deadline r rs st late,
      late-Stays recording deadline (attended r) (attended_all rs) st' late ∙ ap some (sym h.1),
    )
    | inr early ↦
        let (prompt, rest) = finishes-early deadline r rs early fin in
        early_same recording deadline r.now r.next r.client rs st st' early prompt rest
          (λ u u' more k. drain_same recording deadline rs u u' more k) h
  ]

  pub drained :
      (recording : Bool) (deadline : ℕ) (rs : List Round) (c : Collector V)
      → collected (drain j decode recording deadline rs begin) ≡ some c
      → (st : StreamState V) × (drain j decode recording deadline rs begin ≡ some st)
        × (st.collector ≡ c)
  drained recording deadline rs c e =
      elim (Option-cases (drain j decode recording deadline rs begin)) [
        | inl k ↦ cc (sym (ap collected k) ∙ e)
        | inr (st, k) ↦ (st, k, cc (sym (ap collected k) ∙ e))
      ]

  module _ {S : Type 0} (fl : Floats F) (ops : StoreOps S V F) where
    abbrev Task : Type 0
    Task = Option (App S V F × List Sent)

    -- The task of a stream ends, and then the gate is free, once the worker's stream ends or fails or
    -- pauses for 30 seconds, or a round begins after the deadline, if until then no send waits for
    -- ever on a client that is connected and does not read. A client that goes away changes only
    -- what it is sent: all else that the task leaves is as if the client had stayed and read.
    pub stream_task_same :
        (a : Asked V F) (begun : ℕ) (rs : List Round) (duration : F) (app : App S V F)
        → finishes (begun + from_secs 1800) rs ≡ true
        → (app' : App S V F) × (sent : List Sent) × (sent' : List Sent) × (stream_task j decode fl
              ops a begun rs duration app
            ≡ some (app', sent))
          × (stream_task j decode fl ops a begun (attended_all rs) duration app
              ≡ some (app', sent'))
          × (app'.busy ≡ false)
    unfolding stream_task
    stream_task_same a begun rs duration app fin =
        let recording : Bool = not (is_empty a.session_id) in
        let deadline : ℕ = begun + from_secs 1800 in
        let (c, e, e') = drain_same recording deadline rs begin begin fin (refl, refl) in
        let (st, k, f) = drained recording deadline rs c e in
        let (st', k', f') = drained recording deadline (attended_all rs) c e' in
        (
          finish_stream j decode fl ops a c duration app,
          st.sent,
          st'.sent,
          rw (k, stream_task, f) refl,
          rw (k', stream_task, f') refl,
          refl,
        )

    -- A task that has ended has opened the gate.
    pub stream_task-opens :
        (a : Asked V F) (begun : ℕ) (rs : List Round) (duration : F) (app app' : App S V F)
        (sent : List Sent)
        → stream_task j decode fl ops a begun rs duration app ≡ some (app', sent)
        → app'.busy ≡ false
    unfolding stream_task finish_stream release
    stream_task-opens a begun rs duration app app' sent e = ground arith
