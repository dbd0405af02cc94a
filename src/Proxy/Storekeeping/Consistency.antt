-- ===== src/Proxy/Storekeeping/Consistency.antt =====
-- The proxy over the real store: its tables stay consistent through any requests and streams.
use llm_ctl.Base.{ℕ, ◌≡◌, refl, Option, none, some, List, arith, Bool, true, false}
use llm_ctl.Base.Text.{Text}
use llm_ctl.External.{Json, Floats}
use llm_ctl.Store.Tables.{Tables, record_turn, resolve_session}
use llm_ctl.Store.Index.{IsNumbered, record_turn-IsNumbered}
use llm_ctl.Store.Rollup.{IsConsistent}
use llm_ctl.Store.Recording.{record_turn-IsConsistent, resolve_session-IsConsistent}
use llm_ctl.Store.Service.{Server, Database, settled, committed, service}
use llm_ctl.Proxy.Exclusion.History.{Front, Event, run}
use llm_ctl.Proxy.Storekeeping.{Holds, Keeps, run-Holds}

module _ {V F : Type 0} (fl : Floats F) where
  -- The totals are the sums of the turns, each turn's session has a row, and each session's turns
  -- are numbered without a gap.
  pub record IsOrderly (db : Database V F) : Type 0 where
    pub consistent : IsConsistent fl db.tables
    pub numbered : IsNumbered db.tables

  module _ (servers : ℕ → Server V F) where
    settled-IsOrderly :
        (in_time : Bool) (db : Database V F) (r : Option (Tables V F × Text))
        → IsOrderly db
        → ((tables' : Tables V F) (sid : Text)
            → r ≡ some (tables', sid)
            → IsConsistent fl tables' × IsNumbered tables')
        → IsOrderly (settled fl servers in_time db r).0
    unfolding settled
    settled-IsOrderly in_time db none h k = record {
      consistent = h.consistent;
      numbered = h.numbered;
    }
    settled-IsOrderly in_time db (some (tables', sid)) h k =
        let (c, n) = k tables' sid refl in record { consistent = c; numbered = n }

    committed-IsOrderly :
        (db : Database V F) (r : Option (Tables V F))
        → IsOrderly db
        → ((tables' : Tables V F) → r ≡ some tables' → IsConsistent fl tables' × IsNumbered tables')
        → IsOrderly (committed fl servers db r)
    unfolding committed
    committed-IsOrderly db none h k = record { consistent = h.consistent; numbered = h.numbered }
    committed-IsOrderly db (some tables') h k =
        let (c, n) = k tables' refl in record { consistent = c; numbered = n }

    resolve_session_orderly :
        (reachable : Bool) (generated : Text) (client_id : Option Text) (model : Text) (now : F)
        (db : Database V F) (tables' : Tables V F) (sid : Text)
        → IsOrderly db
        → resolve_session fl reachable generated client_id model now db.tables ≡ some (tables', sid)
        → IsConsistent fl tables' × IsNumbered tables'
    resolve_session_orderly false generated client_id model now db tables' sid h e =
        unfold resolve_session in cc
    resolve_session_orderly true generated client_id model now db tables' sid h e =
        let turns : tables'.turns ≡ db.tables.turns = unfold resolve_session in ground arith in
        (
          (resolve_session-IsConsistent fl generated client_id model now db.tables tables' sid
              h.consistent e).0,
          rw turns h.numbered,
        )

    pub service-Keeps : Keeps (service fl servers) IsOrderly
    unfolding service
    service-Keeps = record {
      resolves = λ c m db h.
          let sv : Server V F = servers db.calls in
          settled-IsOrderly sv.in_time db
            (resolve_session fl sv.reachable sv.generated c m sv.now db.tables) h
            (λ tables' sid e.
              resolve_session_orderly sv.reachable sv.generated c m sv.now db tables' sid h e);
      records = λ t db h.
          let sv : Server V F = servers db.calls in
          committed-IsOrderly db (record_turn fl sv.accepts t sv.now db.tables) h (λ tables' e. (
            record_turn-IsConsistent fl sv.accepts t sv.now db.tables tables' h.consistent e,
            record_turn-IsNumbered fl sv.accepts t sv.now db.tables tables' h.numbered e,
          ));
    }

    -- Whatever requests arrive, however their handlers interleave, whenever the streams end and
    -- whatever the server answers each call, in time or not, tables that are orderly stay so: each
    -- session's six totals are the sums of its turns' figures, every turn's session has a row, and
    -- its turns are numbered 0, 1, 2, ….
    pub run-IsOrderly :
        (j : Json V F) (decode : List ℕ → Text) (base : Text) (es : List (Event F))
        (f : Front (Database V F) V F)
        → Holds IsOrderly f.app.store
        → Holds IsOrderly (run j decode fl (service fl servers) base es f).app.store
    run-IsOrderly j decode base es f h =
        run-Holds j fl (service fl servers) IsOrderly service-Keeps decode base es f h
