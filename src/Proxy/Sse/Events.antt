-- ===== src/Proxy/Sse/Events.antt =====
-- What the collector makes of a stream's lines: the events they carry, and the reply those make up.
use llm_ctl.Base.{
  ◌≡◌, refl, ap, inl, inr, Bool-cases, Option-cases, ◌∙◌, sym, Option, none, some, List, [], ◌∷◌,
  ◌++◌, ℕ, if◌then◌else◌,
}
use llm_ctl.Base.Text.{Text, lit, text_eq, trim, strip_prefix, is_empty}
use mathlib.Core.List.{foldl, append-nil, append_assoc}
use llm_ctl.External.{Json}
use llm_ctl.Proxy.BuildTurn.{and_then, Replied}
use llm_ctl.Proxy.Sse.{
  Collector, empty, newer, or_empty, str_at, absorb, feed_json, feed_data, feed,
}
use llm_ctl.Proxy.Stream.{eat, replied}

abbrev listed : {A : Type 0} → Option A → List A → List A
listed none rest = rest
listed (some a) rest = a ∷ rest

newer_assoc : {A : Type 0} (x y z : Option A) → newer x (newer y z) ≡ newer (newer x y) z
newer_assoc none y z = refl
newer_assoc (some a) y z = refl

newer-none : {A : Type 0} (x : Option A) → newer x none ≡ x
newer-none none = refl
newer-none (some a) = refl

-- What the last event that has it says.
unfoldable pub last_of : {V A : Type 0} → (V → Option A) → List V → Option A
last_of f [] = none
last_of f (v ∷ vs) = newer (last_of f vs) (f v)

module _ {V F : Type 0} (j : Json V F) where
  -- The event that a line's payload is, unless it is the end mark or no JSON.
  unfoldable event_of : Option Text → Option V
  event_of none = none
  event_of (some payload) = if text_eq payload (lit "[DONE]") then none else j.from_str payload

  choice : V → Option V
  choice v = and_then (j.get v "choices") (λ cs. j.get_index cs 0)

  delta : V → Text
  unfolding choice str_at
  delta v =
      or_empty (and_then (and_then (choice v) (λ ch. j.get ch "delta")) (λ d. str_at j d "content"))

  -- The contents of all events, one after the other.
  unfoldable pub contents : List V → Text
  unfolding delta
  contents [] = []
  contents (v ∷ vs) = delta v ++ contents vs

  finish_of : V → Option Text
  unfolding choice str_at
  finish_of v = and_then (choice v) (λ ch. str_at j ch "finish_reason")

  -- The reply that a list of events makes up.
  unfoldable pub streamed_reply : List V → Replied V
  unfolding last_of contents finish_of str_at
  streamed_reply vs = record {
    id = last_of (λ v. str_at j v "id") vs;
    content = if is_empty (contents vs) then none else some (contents vs);
    finish = last_of finish_of vs;
    usage = last_of (λ v. j.get v "usage") vs;
    timings = last_of (λ v. j.get v "timings") vs;
  }

  absorb_all : Collector V → List V → Collector V
  unfolding absorb
  absorb_all c [] = c
  absorb_all c (v ∷ vs) = absorb_all (absorb j v c) vs

  fed :
      (o : Option Text) (vs : List V) (c : Collector V)
      → absorb_all (feed_data j o c) vs ≡ absorb_all c (listed (event_of o) vs)
  unfolding feed_data feed_json event_of absorb_all
  fed none vs c = refl
  fed (some payload) vs c = elim (Bool-cases (text_eq payload (lit "[DONE]"))) [
    | inl done ↦ rw (done, feed_data, event_of) refl
    | inr event ↦ elim (Option-cases (j.from_str payload)) [
      | inl bad ↦ rw (event, bad, feed_data, event_of) refl
      | inr (v, good) ↦ rw (event, good, feed_data, event_of) refl
    ]
  ]

  absorb_all_lem :
      (vs : List V) (c : Collector V)
      → absorb_all c vs ≡ record {
        content = c.content ++ contents vs;
        usage = newer (last_of (λ v. j.get v "usage") vs) c.usage;
        timings = newer (last_of (λ v. j.get v "timings") vs) c.timings;
        finish = newer (last_of finish_of vs) c.finish;
        id = newer (last_of (λ v. str_at j v "id") vs) c.id;
      }
  unfolding absorb_all absorb contents last_of finish_of delta choice str_at
  absorb_all_lem [] c = ap (λ t. record c { content = t }) (sym (append-nil c.content))
  absorb_all_lem (v ∷ vs) c =
      absorb_all_lem vs (absorb j v c)
      ∙ rw
          (
            append_assoc c.content (delta v) (contents vs),
            newer_assoc (last_of (λ x. j.get x "usage") vs) (j.get v "usage") c.usage,
            newer_assoc (last_of (λ x. j.get x "timings") vs) (j.get v "timings") c.timings,
            newer_assoc (last_of finish_of vs) (finish_of v) c.finish,
            newer_assoc (last_of (λ x. str_at j x "id") vs) (str_at j v "id") c.id,
          )
          refl

module _ {V F : Type 0} (j : Json V F) (decode : List ℕ → Text) where
  -- The events of a stream's lines, in order.
  unfoldable pub events : List (List ℕ) → List V
  unfolding event_of
  events [] = []
  events (l ∷ ls) = listed (event_of j (strip_prefix (trim (decode l)) (lit "data: "))) (events ls)

  eat-events :
      (ls : List (List ℕ)) (c : Collector V)
      → foldl (eat j decode) c ls ≡ absorb_all j c (events ls)
  unfolding eat feed events absorb_all
  eat-events [] c = refl
  eat-events (l ∷ ls) c =
      eat-events ls (eat j decode c l)
      ∙ fed j (strip_prefix (trim (decode l)) (lit "data: ")) (events ls) c

  -- What the collector replies once it has eaten a stream's lines.
  pub eat-streamed_reply :
      (ls : List (List ℕ))
      → replied j decode (foldl (eat j decode) empty ls) ≡ streamed_reply j (events ls)
  unfolding empty replied streamed_reply
  eat-streamed_reply ls =
      let vs : List V = events ls in
      rw (eat-events ls empty ∙ absorb_all_lem j vs empty, replied)
        (rw
          (
            newer-none (last_of (λ x. j.get x "usage") vs),
            newer-none (last_of (λ x. j.get x "timings") vs),
            newer-none (last_of (finish_of j) vs),
            newer-none (last_of (λ x. str_at j x "id") vs),
          )
          refl)
