-- ===== src/Store/Service.antt =====
-- The store as the proxy uses it: the operations on the tables, with what the server, the clock and
-- the random generator answer each call. A call that fails leaves the tables as they were; one
-- whose answer comes too late may have changed them, with a session that is then unknown to the proxy.
use llm_ctl.Base.{ℕ, ◌+◌, Option, none, some, Bool, if◌then◌else◌}
use llm_ctl.Base.Text.{Text}
use llm_ctl.External.{Floats}
use llm_ctl.Store.Turn.{Turn}
use llm_ctl.Store.Tables.{Tables, record_turn, resolve_session}
use llm_ctl.Proxy.App.{StoreOps}

-- What stands round one call.
pub record Server (V F : Type 0) : Type 0 where
  pub now : F
  pub reachable : Bool
  pub generated : Text
  pub accepts : Turn V F → Bool
  pub in_time : Bool  -- whether the answer comes within the proxy's ten seconds

-- The tables, and how many calls have been made.
pub record Database (V F : Type 0) : Type 0 where
  pub tables : Tables V F
  pub calls : ℕ

module _ {V F : Type 0} (fl : Floats F) (servers : ℕ → Server V F) where
  abbrev told : Bool → Text → Option Text
  told in_time sid = if in_time then some sid else none

  unfoldable pub settled :
      Bool → Database V F → Option (Tables V F × Text) → Database V F × Option Text
  settled in_time db none = (record db { calls = db.calls + 1 }, none)
  settled in_time db (some (tables', sid)) =
      (record { tables = tables'; calls = db.calls + 1 }, told in_time sid)

  unfoldable pub committed : Database V F → Option (Tables V F) → Database V F
  committed db none = record db { calls = db.calls + 1 }
  committed db (some tables') = record { tables = tables'; calls = db.calls + 1 }

  -- The call with number `calls` meets the server of that number.
  unfoldable pub service : StoreOps (Database V F) V F
  unfolding settled committed
  service = record {
    resolve_session = λ client_id model db.
        let sv = servers db.calls in
        settled sv.in_time db
          (resolve_session fl sv.reachable sv.generated client_id model sv.now db.tables);
    record_turn = λ t db.
        let sv = servers db.calls in committed db (record_turn fl sv.accepts t sv.now db.tables);
  }
