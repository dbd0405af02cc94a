-- ===== src/Proxy/Stream.antt =====
-- src/proxy.rs, `stream_and_record`: the task that forwards a stream to the client and records the
-- turn at its end. It holds the busy guard until then.
pub mod Disconnect
pub mod Recorded
use llm_ctl.Base.{
  ℕ, ◌+◌, Option, none, some, Bool, true, false, not, List, [], ◌∷◌, ◌++◌, ltb, if◌then◌else◌,
}
use llm_ctl.Base.Text.{Text, lit, is_empty}
use llm_ctl.External.{Json, Floats}
use llm_ctl.Store.Turn.{Turn}
use llm_ctl.Supervisor.State.{from_secs}
use llm_ctl.Proxy.BuildTurn.{Asked, Replied, build_turn}
use llm_ctl.Proxy.Sse.{Collector, empty, feed, on_chunk}
use llm_ctl.Proxy.App.{App, StoreOps, record_turn}
use llm_ctl.Proxy.Gate.{release}

-- What `timeout(idle, stream.next())` answers.
pub data Next : Type 0 where
  chunk : List ℕ → Next
  chunk_error : Text → Next
  eof idle : Next

-- What becomes of a send into the client's channel of 64 slots: a slot is free, or becomes free before
-- the next round; the client is gone; or it is connected and never reads on, and the send waits.
pub data Client : Type 0 where
  takes gone stuck : Client

-- One round of the loop: when it begins, what comes, and what becomes of what is sent on.
pub record Round : Type 0 where
  pub now : ℕ
  pub next : Next
  pub client : Client

pub data Sent : Type 0 where
  sent_chunk : List ℕ → Sent
  sent_error : Text → Sent

pub record StreamState (V : Type 0) : Type 0 where
  pub buf : List ℕ
  pub collector : Collector V
  pub client_gone : Bool
  pub sent : List Sent  -- what the client has got, in order

unfoldable pub begin : {V : Type 0} → StreamState V
unfolding empty
begin = record { buf = []; collector = empty; client_gone = false; sent = [] }

offered : {V : Type 0} → Client → List ℕ → StreamState V → Option (StreamState V)
offered takes b st = some (record st { sent = st.sent ++ sent_chunk b ∷ [] })
offered gone b st = some (record st { client_gone = true })
offered stuck b st = none

-- A send that fails is lost; after a chunk's failure the client counts as gone. `none` is a send that
-- waits for ever.
pub send_chunk : {V : Type 0} → Client → List ℕ → StreamState V → Option (StreamState V)
unfolding offered
send_chunk c b st = if st.client_gone then some st else offered c b st

told : {V : Type 0} → Client → Text → StreamState V → Option (StreamState V)
told takes e st = some (record st { sent = st.sent ++ sent_error e ∷ [] })
told gone e st = some st
told stuck e st = none

pub send_error : {V : Type 0} → Client → Text → StreamState V → Option (StreamState V)
unfolding told
send_error c e st = if st.client_gone then some st else told c e st

module _ {V F : Type 0} (j : Json V F) (decode : List ℕ → Text) where
  -- One line of bytes; `decode` stands for `String::from_utf8_lossy`.
  unfoldable pub eat : Collector V → List ℕ → Collector V
  unfolding feed
  eat c line = feed j c (decode line)

  -- Nothing is collected for a turn without a session.
  pub collect : Bool → List ℕ → StreamState V → Option (StreamState V)
  collect recording b st =
      if recording
      then (elim (on_chunk eat b (st.buf, st.collector)) [
        | none ↦ none
        | some (buf, col) ↦ some (record st { buf = buf; collector = col })
      ])
      else some st

  forward_chunk : Client → List ℕ → Option (StreamState V) → Option (StreamState V)
  forward_chunk c b none = none
  forward_chunk c b (some st) = send_chunk c b st

  -- The loop, over the rounds so far. `none`: it goes on, or waits in a send.
  unfoldable pub drain : Bool → ℕ → List Round → StreamState V → Option (StreamState V)
  unfolding collect forward_chunk send_chunk send_error
  drain recording deadline [] st = none
  drain recording deadline (r ∷ rs) st = if ltb deadline r.now then some st else elim r.next [
    | chunk b ↦ elim (forward_chunk r.client b (collect recording b st)) [
      | none ↦ none
      | some st' ↦ drain recording deadline rs st'
    ]
    | chunk_error e ↦ send_error r.client e st
    | eof ↦ some st
    | idle ↦ send_error r.client (lit "llama stream idle timeout") st
  ]

  unfoldable pub replied : Collector V → Replied V
  replied c = record {
    id = c.id;
    content = if is_empty c.content then none else some c.content;
    finish = c.finish;
    usage = c.usage;
    timings = c.timings;
  }

  module _ {S : Type 0} (fl : Floats F) (ops : StoreOps S V F) where
    -- The end of the task: the turn is recorded if it has a session, and the guard is dropped.
    unfoldable pub finish_stream : Asked V F → Collector V → F → App S V F → App S V F
    unfolding replied record_turn release build_turn
    finish_stream a c duration app =
        let app' =
          if is_empty a.session_id
          then app
          else record_turn ops (build_turn j fl a (replied c) duration) app in
        record app' { busy = release app'.busy }

    -- The whole task, from the instant at which it begins; `none` while it has not ended.
    unfoldable pub stream_task :
        Asked V F → ℕ → List Round → F → App S V F → Option (App S V F × List Sent)
    unfolding drain begin finish_stream
    stream_task a begun rounds duration app =
        elim (drain (not (is_empty a.session_id)) (begun + from_secs 1800) rounds begin) [
          | none ↦ none
          | some st ↦ some (finish_stream a st.collector duration app, st.sent)
        ]
