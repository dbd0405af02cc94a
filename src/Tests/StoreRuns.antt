-- ===== src/Tests/StoreRuns.antt =====
-- Runs of the store.
use llm_ctl.Base.{
  ℕ, ◌+◌, ◌≤◌, ◌<◌, ◌≡◌, refl, ◌⊎◌, none, some, Bool, true, [], ◌∷◌, all, any, length, arith,
}
use llm_ctl.Base.Int.{pos, ◌+ℤ◌}
use llm_ctl.Base.Text.{Text, lit, text_eq, trim}
use llm_ctl.Store.Turn.{Turn}
use llm_ctl.Store.Session.{id_char, session_id, gen_session_id}
use llm_ctl.Store.Tables.{
  Tables, Session, next_of, upsert, update_totals, indices, record_turn, count_turns,
}
use llm_ctl.Store.Index.{upto, IsNumbered, record_turn-IsNumbered, record_turn_total}
use llm_ctl.Store.Rollup.{IsConsistent}
use llm_ctl.Store.Recording.{record_turn-IsConsistent}
use llm_ctl.Store.Ids.{session_id-cases}
use llm_ctl.Store.Ids.Generated.{from_hex, session_id-gen_session_id}
use llm_ctl.Tests.World.{Doc, floats, turn}

abbrev empty_tables : Tables Doc ℕ
empty_tables = record { sessions = []; turns = [] }

abbrev one_session : Session ℕ
one_session = record {
  id = lit "s";
  name = none;
  created_at = 6;
  updated_at = 6;
  model = some (lit "m");
  total_requests = pos 1;
  total_prompt_tokens = pos 10;
  total_completion_tokens = pos 40;
  total_cache_tokens = pos 7;
  total_prompt_ms = 5;
  total_completion_ms = 9;
}

abbrev one_turn : Tables Doc ℕ
one_turn = record {
  sessions = one_session ∷ [];
  turns = record { turn_index = 0; timestamp = 6; turn = turn } ∷ [];
}

abbrev accepting : Turn Doc ℕ → Bool
accepting t = true

recorded : record_turn floats accepting turn 6 empty_tables ≡ some one_turn
unfolding record_turn next_of indices update_totals upsert text_eq lit any ◌+ℤ◌
recorded = refl

empty-IsConsistent : IsConsistent floats empty_tables
empty-IsConsistent = record { summed = tt; referenced = tt }

record_turn-IsConsistent_example : IsConsistent floats one_turn
record_turn-IsConsistent_example =
    record_turn-IsConsistent floats accepting turn 6 empty_tables one_turn empty-IsConsistent
      recorded

empty-IsNumbered : IsNumbered empty_tables
unfolding indices upto
empty-IsNumbered k = refl

record_turn-IsNumbered_example : IsNumbered one_turn
record_turn-IsNumbered_example =
    record_turn-IsNumbered floats accepting turn 6 empty_tables one_turn empty-IsNumbered recorded

summed :
    update_totals floats turn (upsert floats (lit "s") (lit "m") 6 []) ≡ some (one_session ∷ [])
unfolding update_totals upsert text_eq lit ◌+ℤ◌
summed = refl

record_turn_total_example :
    (db : Tables Doc ℕ) × (record_turn floats accepting turn 6 empty_tables ≡ some db)
    × (count_turns (lit "s") db ≡ count_turns (lit "s") empty_tables + 1)
record_turn_total_example =
    record_turn_total floats accepting turn 6 empty_tables (one_session ∷ []) refl refl summed

session_id-cases_example :
    (session_id (some (lit " pi-7 ")) (lit "0f") ≡ lit "0f")
    ⊎ ((s : Text) × (some (lit " pi-7 ") ≡ some s)
        × (session_id (some (lit " pi-7 ")) (lit "0f") ≡ trim s)
        × (0 < length (trim s))
        × (length (trim s) ≤ 64)
        × (all id_char (trim s) ≡ true))
session_id-cases_example = session_id-cases (some (lit " pi-7 ")) (lit "0f")

session_id-gen_session_id_example :
    (12 ≤ length (gen_session_id 0xbeef))
    × (length (gen_session_id 0xbeef) ≤ 16)
    × (from_hex 0 (gen_session_id 0xbeef) ≡ 0xbeef)
    × (session_id (some (gen_session_id 0xbeef)) [] ≡ gen_session_id 0xbeef)
session_id-gen_session_id_example = session_id-gen_session_id 0xbeef [] (omega arith)

gen_session_id_runs : gen_session_id 0xbeef ≡ lit "00000000beef"
unfolding gen_session_id lit
gen_session_id_runs = refl
