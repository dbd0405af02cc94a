-- ===== src/Proxy/Sse.antt =====
-- src/proxy.rs: `Collector`, and the byte buffer that cuts a stream's chunks into its lines.
pub mod Lines
pub mod Chunks
pub mod Events
use llm_ctl.Base.{
  ℕ, zero, suc, String, Option, none, some, Bool, true, false, List, [], ◌∷◌, ◌++◌, take, drop,
  length, ltb, ◌==◌, if◌then◌else◌,
}
use llm_ctl.Base.Text.{Text, lit, text_eq, trim, strip_prefix}
use llm_ctl.External.{Json}
use llm_ctl.Proxy.Http.{max_sse_buf}
use llm_ctl.Proxy.BuildTurn.{and_then}

pub record Collector (V : Type 0) : Type 0 where
  pub content : Text
  pub usage : Option V
  pub timings : Option V
  pub finish : Option Text
  pub id : Option Text

-- `Collector::default()`.
unfoldable pub empty : {V : Type 0} → Collector V
empty = record { content = []; usage = none; timings = none; finish = none; id = none }

-- `if let Some(x) = new { self.f = Some(x) }`.
abbrev pub newer : {A : Type 0} → Option A → Option A → Option A
newer none old = old
newer (some a) old = some a

abbrev pub or_empty : Option Text → Text
or_empty none = []
or_empty (some d) = d

module _ {V F : Type 0} (j : Json V F) where
  str_at : V → String → Option Text
  str_at v k = and_then (j.get v k) j.as_str

  -- What one event does, once it is parsed.
  unfoldable pub absorb : V → Collector V → Collector V
  unfolding str_at
  absorb v c =
      let choice = and_then (j.get v "choices") (λ cs. j.get_index cs 0) in
      let delta = and_then (and_then choice (λ ch. j.get ch "delta")) (λ d. str_at d "content") in
      record {
        content = c.content ++ or_empty delta;
        usage = newer (j.get v "usage") c.usage;
        timings = newer (j.get v "timings") c.timings;
        finish = newer (and_then choice (λ ch. str_at ch "finish_reason")) c.finish;
        id = newer (str_at v "id") c.id;
      }

  feed_json : Option V → Collector V → Collector V
  unfolding absorb
  feed_json none c = c
  feed_json (some v) c = absorb v c

  -- The payload after `data: `.
  feed_data : Option Text → Collector V → Collector V
  unfolding feed_json
  feed_data none c = c
  feed_data (some payload) c =
      if text_eq payload (lit "[DONE]") then c else feed_json (j.from_str payload) c

  unfoldable pub feed : Collector V → Text → Collector V
  unfolding feed_data
  feed c line = feed_data (strip_prefix (trim line) (lit "data: ")) c

next_position : Option ℕ → Option ℕ
next_position none = none
next_position (some i) = some (suc i)

-- `iter().position(|&x| x == c)`.
unfoldable pub position : ℕ → List ℕ → Option ℕ
unfolding next_position
position c [] = none
position c (x ∷ xs) = if x == c then some 0 else next_position (position c xs)

module _ {S : Type 0} (eat : S → List ℕ → S) where
  -- The `while let` over the buffer: each line is drained with its newline and eaten. `none` means
  -- that the fuel ran out.
  unfoldable pub drain_lines : ℕ → List ℕ → S → Option (List ℕ × S)
  drain_lines zero buf s = none
  drain_lines (suc fuel) buf s = elim (position b'\n' buf) [
    | none ↦ some (buf, s)
    | some pos ↦ drain_lines fuel (drop (suc pos) buf) (eat s (take (suc pos) buf))
  ]

  -- A partial line of more than `max_sse_buf` bytes is dropped.
  capped : Option (List ℕ × S) → Option (List ℕ × S)
  capped none = none
  capped (some (buf, s)) = some (if ltb max_sse_buf (length buf) then [] else buf, s)

  -- What one chunk does to the buffer and the collector.
  unfoldable pub on_chunk : List ℕ → List ℕ × S → Option (List ℕ × S)
  unfolding drain_lines capped
  on_chunk b (buf, s) = let buf' = buf ++ b in capped (drain_lines (suc (length buf')) buf' s)

  unfoldable pub on_chunks : List (List ℕ) → List ℕ × S → Option (List ℕ × S)
  unfolding on_chunk
  on_chunks [] st = some st
  on_chunks (b ∷ bs) st = elim (on_chunk b st) [ none ↦ none | some st' ↦ on_chunks bs st' ]
