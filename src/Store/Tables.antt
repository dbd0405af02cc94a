-- ===== src/Store/Tables.antt =====
-- src/store.rs and migrations/: the tables `sessions` and `turns`, and the statements run on them. A
-- transaction that fails leaves the tables as they were.
use llm_ctl.Base.{
  ℕ, suc, ◌^◌, Option, none, some, Bool, true, not, ◌&&◌, List, [], ◌∷◌, ◌++◌, map, ltb, leb, ◌==◌,
  if◌then◌else◌, any, length, take,
}
use Prim.Native.Nat.{max}
use llm_ctl.Base.Int.{ℤ, pos, pos_part, neg_part, ◌+ℤ◌, ltb_ℤ, fits_i64, wrap_i64}
use llm_ctl.Base.Text.{Text, text_eq}
use llm_ctl.External.{Floats}
use llm_ctl.Store.Turn.{Turn}
use llm_ctl.Store.Session.{session_id}

pub record Session (F : Type 0) : Type 0 where
  pub id : Text
  pub name : Option Text
  pub created_at : F
  pub updated_at : F
  pub model : Option Text
  pub total_requests : ℤ
  pub total_prompt_tokens : ℤ
  pub total_completion_tokens : ℤ
  pub total_cache_tokens : ℤ
  pub total_prompt_ms : F
  pub total_completion_ms : F

-- A row of `turns`. Its `session_id` is that of the turn; its identity column is not modelled.
pub record TurnRow (V F : Type 0) : Type 0 where
  pub turn_index : ℕ
  pub timestamp : F
  pub turn : Turn V F

pub record Tables (V F : Type 0) : Type 0 where
  pub sessions : List (Session F)
  pub turns : List (TurnRow V F)

-- A `BIGINT` sum: out of range is an error.
abbrev pub add_bigint : ℤ → ℤ → Option ℤ
add_bigint a b = let c = a +ℤ b in if fits_i64 c then some c else none

-- `request_max_tokens` is an `INTEGER` column.
abbrev pub fits_integer : Option ℤ → Bool
fits_integer none = true
fits_integer (some n) = ltb (pos_part n) (2 ^ 31) && leb (neg_part n) (2 ^ 31)

-- `COALESCE(MAX(turn_index), -1) + 1`.
unfoldable pub next_of : List ℕ → ℕ
next_of [] = 0
next_of (i ∷ is) = max (suc i) (next_of is)

module _ {F : Type 0} (fl : Floats F) where
  -- The row that the first `INSERT INTO sessions` of an id makes, by the columns' defaults.
  unfoldable pub fresh : Text → Text → F → Session F
  fresh k m now = record {
    id = k;
    name = none;
    created_at = now;
    updated_at = now;
    model = some m;
    total_requests = pos 0;
    total_prompt_tokens = pos 0;
    total_completion_tokens = pos 0;
    total_cache_tokens = pos 0;
    total_prompt_ms = fl.zero;
    total_completion_ms = fl.zero;
  }

  -- `INSERT INTO sessions … ON CONFLICT (id) DO UPDATE SET model, updated_at`.
  unfoldable pub upsert : Text → Text → F → List (Session F) → List (Session F)
  unfolding fresh
  upsert k m now [] = fresh k m now ∷ []
  upsert k m now (s ∷ ss) =
      if text_eq s.id k
      then record s { model = some m; updated_at = now } ∷ ss
      else s ∷ upsert k m now ss

unfoldable pub cons? :
    {F : Type 0} → Option (Session F) → Option (List (Session F)) → Option (List (Session F))
cons? none rest = none
cons? (some s) none = none
cons? (some s) (some ss) = some (s ∷ ss)

module _ {V F : Type 0} (fl : Floats F) where
  -- The new totals of a session row.
  unfoldable pub add_turn : Turn V F → Session F → Option (Session F)
  add_turn t s = elim (add_bigint s.total_requests (pos 1)) [
    | none ↦ none
    | some reqs ↦ elim (add_bigint s.total_prompt_tokens t.usage_prompt_tokens) [
      | none ↦ none
      | some prompt ↦ elim (add_bigint s.total_completion_tokens t.usage_completion_tokens) [
        | none ↦ none
        | some completion ↦ elim (add_bigint s.total_cache_tokens t.usage_cached_tokens) [
          | none ↦ none
          | some cache ↦ some (record s {
            total_requests = reqs;
            total_prompt_tokens = prompt;
            total_completion_tokens = completion;
            total_cache_tokens = cache;
            total_prompt_ms = fl.add s.total_prompt_ms t.prompt_ms;
            total_completion_ms = fl.add s.total_completion_ms t.predicted_ms;
          })
        ]
      ]
    ]
  ]

  -- `UPDATE sessions SET … WHERE id = $6`.
  unfoldable pub update_totals : Turn V F → List (Session F) → Option (List (Session F))
  unfolding add_turn cons?
  update_totals t [] = some []
  update_totals t (s ∷ ss) =
      cons? (if text_eq s.id t.session_id then add_turn t s else some s) (update_totals t ss)

-- `SELECT turn_index FROM turns WHERE session_id = k`.
unfoldable pub indices : {V F : Type 0} → Text → List (TurnRow V F) → List ℕ
indices k [] = []
indices k (r ∷ rs) =
    let rest = indices k rs in if text_eq r.turn.session_id k then r.turn_index ∷ rest else rest

module _ {V F : Type 0} (fl : Floats F) where
  -- `record_turn` in one transaction. `accepts` is whether the server takes its statements where
  -- neither a column's range nor the unique index stands against them.
  unfoldable pub record_turn : (Turn V F → Bool) → Turn V F → F → Tables V F → Option (Tables V F)
  record_turn accepts t now db =
      let idx = next_of (indices t.session_id db.turns) in
      let row : TurnRow V F = record { turn_index = idx; timestamp = now; turn = t } in
      if accepts t
        && fits_integer t.request_max_tokens
        && not (any (◌==◌ idx) (indices t.session_id db.turns))
      then (elim (update_totals fl t (upsert fl t.session_id t.request_model now db.sessions)) [
        | none ↦ none
        | some ss ↦ some (record { sessions = ss; turns = db.turns ++ row ∷ [] })
      ])
      else none

  -- `resolve_session`; `generated` is the fresh id, and `reachable` whether the statement went through.
  unfoldable pub resolve_session :
      Bool → Text → Option Text → Text → F → Tables V F → Option (Tables V F × Text)
  unfolding upsert session_id
  resolve_session reachable generated client_id model now db =
      let sid = session_id client_id generated in
      if reachable
      then some (record db { sessions = upsert fl sid model now db.sessions }, sid)
      else none

unfoldable pub count_turns : {V F : Type 0} → Text → Tables V F → ℕ
count_turns k db = length (indices k db.turns)

-- What a client is shown of a session.
pub record SessionRow (F : Type 0) : Type 0 where
  pub id : Text
  pub model : Option Text
  pub requests : ℤ
  pub prompt_tokens : ℤ
  pub completion_tokens : ℤ
  pub cache_tokens : ℤ
  pub cache_hit_pct : F
  pub prompt_ms : F
  pub completion_ms : F

module _ {F : Type 0} (fl : Floats F) where
  -- `cache + prompt` is an `i64` sum.
  unfoldable pub cache_hit_pct : ℤ → ℤ → F
  cache_hit_pct cache prompt =
      let total = wrap_i64 (cache +ℤ prompt) in
      if ltb_ℤ (pos 0) total
      then fl.mul (fl.div (fl.of_i64 cache) (fl.of_i64 total)) (fl.of_i64 (pos 100))
      else fl.zero

  session_row : Session F → SessionRow F
  unfolding cache_hit_pct
  session_row s = record {
    id = s.id;
    model = s.model;
    requests = s.total_requests;
    prompt_tokens = s.total_prompt_tokens;
    completion_tokens = s.total_completion_tokens;
    cache_tokens = s.total_cache_tokens;
    cache_hit_pct = cache_hit_pct s.total_cache_tokens s.total_prompt_tokens;
    prompt_ms = s.total_prompt_ms;
    completion_ms = s.total_completion_ms;
  }

  -- `ORDER BY updated_at DESC LIMIT limit`; `newest_first` stands for the server's sort.
  unfoldable pub list_sessions :
      (List (Session F) → List (Session F)) → ℕ → List (Session F) → List (SessionRow F)
  unfolding session_row
  list_sessions newest_first limit ss = map session_row (take limit (newest_first ss))
