-- ===== src/Proxy/Stream/Recorded.antt =====
-- The turn that a stream's task records, in terms of what the worker sent.
use llm_ctl.Base.{
  ℕ, ◌+◌, ◌≡◌, refl, ap, sym, ◌∙◌, inl, inr, Option, none, some, true, false, not, List, [], ◌∷◌,
  ltb, if◌then◌else◌, Bool-cases, subst,
}
use llm_ctl.Base.Text.{Text, is_empty}
use mathlib.Core.List.{foldl, flatten}
use llm_ctl.External.{Json, Floats}
use llm_ctl.Supervisor.State.{from_secs}
use llm_ctl.Proxy.BuildTurn.{Asked, build_turn}
use llm_ctl.Proxy.App.{App, StoreOps, record_turn}
use llm_ctl.Proxy.Sse.{Collector, empty, on_chunk, on_chunks}
use llm_ctl.Proxy.Sse.Lines.{full_lines}
use llm_ctl.Proxy.Sse.Chunks.{Short, on_chunks-flatten}
use llm_ctl.Proxy.Sse.Events.{events, streamed_reply, eat-streamed_reply}
use llm_ctl.Proxy.Gate.{release}
use llm_ctl.Proxy.Stream.{
  Client, Next, chunk, chunk_error, eof, idle, Round, Sent, StreamState, begin, eat, drain, collect,
  replied, finish_stream, stream_task,
}
use llm_ctl.Proxy.Stream.Disconnect.{
  collected, on_chunk_total, drain_chunk, drained, waits, ends_by, finishes, finishes-early,
  send_chunk-kept, error-Stays, eof-Stays, idle-Stays, late-Stays,
}

-- The bytes that a round brings, if it brings any.
abbrev brings : Next → Option (List ℕ)
brings (chunk b) = some b
brings _ = none

abbrev before_rest : Option (List ℕ) → List (List ℕ) → List (List ℕ)
before_rest none bs = []
before_rest (some b) bs = b ∷ bs

-- The chunks that come in time, up to the first round that brings none.
unfoldable pub chunks_of : ℕ → List Round → List (List ℕ)
chunks_of deadline [] = []
chunks_of deadline (r ∷ rs) =
    let rest = chunks_of deadline rs in
    if ltb deadline r.now then [] else before_rest (brings r.next) rest

chunks_of-early :
    (deadline : ℕ) (r : Round) (rs : List Round)
    → ltb deadline r.now ≡ false
    → chunks_of deadline (r ∷ rs) ≡ before_rest (brings r.next) (chunks_of deadline rs)
unfolding chunks_of
chunks_of-early deadline r rs early = rw early refl

chunks_of-late :
    (deadline : ℕ) (r : Round) (rs : List Round)
    → ltb deadline r.now ≡ true
    → chunks_of deadline (r ∷ rs) ≡ []
unfolding chunks_of
chunks_of-late deadline r rs late = rw late refl

on_chunks-cons :
    {S : Type 0} (eat : S → List ℕ → S) (b : List ℕ) (bs : List (List ℕ)) (st st' : List ℕ × S)
    → on_chunk eat b st ≡ some st'
    → on_chunks eat (b ∷ bs) st ≡ on_chunks eat bs st'
unfolding on_chunks
on_chunks-cons eat b bs st st' e = rw (e, on_chunks) refl

module _ {V F : Type 0} (j : Json V F) (decode : List ℕ → Text) where
  abbrev second : Option (List ℕ × Collector V) → Option (Collector V)
  second none = none
  second (some (buf, c)) = some c

  -- The collector once the loop is over, and once it is fed these chunks.
  abbrev Collects : ℕ → List Round → List (List ℕ) → StreamState V → Type 0
  Collects deadline rs bs st =
      collected j decode (drain j decode true deadline rs st)
      ≡ second (on_chunks (eat j decode) bs (st.buf, st.collector))

  chunk-Collects :
      (deadline now : ℕ) (b : List ℕ) (c : Client) (rs : List Round) (bs : List (List ℕ))
      (st : StreamState V)
      → ((u : StreamState V) → Collects deadline rs bs u)
      → ltb deadline now ≡ false
      → waits c ≡ false
      → Collects deadline (record { now = now; next = chunk b; client = c } ∷ rs) (b ∷ bs) st
  unfolding collect
  chunk-Collects deadline now b c rs bs st ih early prompt =
      let ((buf, col), k) = on_chunk_total (eat j decode) b st.buf st.collector in
      let u : StreamState V = record st { buf = buf; collector = col } in
      let (v, sends, (same_buf, same_col)) = send_chunk-kept j decode c b u prompt in
      ap (collected j decode)
        (drain_chunk j decode true deadline now b c rs st u v early (rw (k, collect) refl) sends)
      ∙ ih v
      ∙ rw (same_buf, same_col)
          (sym (ap second (on_chunks-cons (eat j decode) b bs (st.buf, st.collector) (buf, col) k)))

  early-Collects :
      (deadline now : ℕ) (n : Next) (c : Client) (rs : List Round) (st : StreamState V)
      → ((u : StreamState V)
          → finishes deadline rs ≡ true
          → Collects deadline rs (chunks_of deadline rs) u)
      → ltb deadline now ≡ false
      → waits c ≡ false
      → ends_by n (finishes deadline rs) ≡ true
      → Collects deadline
          (record { now = now; next = n; client = c } ∷ rs)
          (before_rest (brings n) (chunks_of deadline rs))
          st
  unfolding on_chunks
  early-Collects deadline now (chunk b) c rs st ih early prompt fin =
      chunk-Collects deadline now b c rs (chunks_of deadline rs) st (λ u. ih u fin) early prompt
  early-Collects deadline now (chunk_error why) c rs st ih early prompt fin =
      error-Stays j decode true deadline now why c rs st early prompt
  early-Collects deadline now eof c rs st ih early prompt fin =
      eof-Stays j decode true deadline now c rs st early
  early-Collects deadline now idle c rs st ih early prompt fin =
      idle-Stays j decode true deadline now c rs st early prompt

  drain-Collects :
      (deadline : ℕ) (rs : List Round) (st : StreamState V)
      → finishes deadline rs ≡ true
      → Collects deadline rs (chunks_of deadline rs) st
  unfolding on_chunks chunks_of finishes
  drain-Collects deadline [] st fin = cc
  drain-Collects deadline (r ∷ rs) st fin = elim (Bool-cases (ltb deadline r.now)) [
    | inl late ↦
        subst (λ bs. Collects deadline (r ∷ rs) bs st) (sym (chunks_of-late deadline r rs late))
          (late-Stays j decode true deadline r rs st late)
    | inr early ↦
        let (prompt, rest) = finishes-early deadline r rs early fin in
        subst (λ bs. Collects deadline (r ∷ rs) bs st) (sym (chunks_of-early deadline r rs early))
          (early-Collects deadline r.now r.next r.client rs st
            (λ u more. drain-Collects deadline rs u more) early prompt rest)
  ]

  -- What the loop has collected, of a stream in which no line is too long.
  drain-eats :
      (deadline : ℕ) (rs : List Round)
      → let bytes = flatten (chunks_of deadline rs) in
        Short bytes
        → finishes deadline rs ≡ true
        → collected j decode (drain j decode true deadline rs begin)
          ≡ some (foldl (eat j decode) empty (full_lines bytes))
  unfolding begin full_lines
  drain-eats deadline rs short fin =
      drain-Collects deadline rs begin fin
      ∙ ap second (on_chunks-flatten (eat j decode) (chunks_of deadline rs) [] empty refl short)

  module _ {S : Type 0} (fl : Floats F) (ops : StoreOps S V F) where
    finish_stream-records :
        (a : Asked V F) (c : Collector V) (duration : F) (app : App S V F)
        → is_empty a.session_id ≡ false
        → finish_stream j decode fl ops a c duration app
          ≡ record (record_turn ops (build_turn j fl a (replied j decode c) duration) app) {
            busy = false;
          }
    unfolding finish_stream release
    finish_stream-records a c duration app named = rw (named, finish_stream) refl

    -- The task of a stream with a session, in which no line that comes is too long for the buffer,
    -- and which comes to its end, to an error, to a pause or to the deadline with no send that waits
    -- for ever, records one turn and opens the gate. The turn is made of what the events of the
    -- stream's full lines say: their contents one after the other, and of usage, timings, finish
    -- reason and id what the last event to have them says. How the stream is cut into chunks does not
    -- matter, nor does a client that goes away; what comes after an error, a pause or the deadline
    -- does not count.
    pub stream_task-streamed_reply :
        (a : Asked V F) (begun : ℕ) (rs : List Round) (duration : F) (app : App S V F)
        → let bytes = flatten (chunks_of (begun + from_secs 1800) rs) in
          is_empty a.session_id ≡ false
          → Short bytes
          → finishes (begun + from_secs 1800) rs ≡ true
          → (sent : List Sent) × (stream_task j decode fl ops a begun rs duration app
              ≡ some (
                record (record_turn ops
                    (build_turn j fl a
                      (streamed_reply j (events j decode (full_lines bytes)))
                      duration)
                    app) { busy = false },
                sent,
              ))
    unfolding stream_task
    stream_task-streamed_reply a begun rs duration app named short fin =
        let deadline : ℕ = begun + from_secs 1800 in
        let lines : List (List ℕ) = full_lines (flatten (chunks_of deadline rs)) in
        let c : Collector V = foldl (eat j decode) empty lines in
        let (st, k, f) = drained j decode true deadline rs c (drain-eats deadline rs short fin) in
        let k' : drain j decode (not (is_empty a.session_id)) deadline rs begin ≡ some st =
          rw named k in
        let records = finish_stream-records a c duration app named in
        let told = eat-streamed_reply j decode lines in
        (
          st.sent,
          rw (k', stream_task, f)
              (ap (λ x. some (x, st.sent))
                (records
                  ∙ ap
                      (λ r. record (record_turn ops (build_turn j fl a r duration) app) {
                        busy = false;
                      })
                      told)),
        )
