-- ===== src/Proxy/App.antt =====
-- src/main.rs and src/proxy.rs: the part of `AppState` that a completion touches, the store as the
-- proxy sees it, and `record_turn`.
use llm_ctl.Base.{Option, none, some, Bool, if◌then◌else◌}
use llm_ctl.Base.Text.{Text, is_empty}
use llm_ctl.Supervisor.State.{WorkerState, LastTurn}
use llm_ctl.Store.Turn.{Turn}

-- `Store`, each call bounded by the ten-second timeout that the proxy puts on it. A session that
-- cannot be resolved in time is `none`.
pub record StoreOps (S V F : Type 0) : Type 0 where
  pub resolve_session : Option Text → Text → S → S × Option Text
  pub record_turn : Turn V F → S → S

pub record App (S V F : Type 0) : Type 0 where
  pub worker : WorkerState V F
  pub busy : Bool
  pub active_session : Option Text
  pub store : Option S

module _ {S V F : Type 0} (ops : StoreOps S V F) where
  unfoldable pub stash : Turn V F → App S V F → App S V F
  stash t app = record app { worker = record worker { last_turn = some last } }
    where
      open app use {worker}

      last : LastTurn
      last = record {
        session_id = t.session_id;
        cache_n = t.cache_n;
        prompt_n = t.prompt_n;
        predicted_n = t.predicted_n;
      }

  unfoldable pub write : Turn V F → App S V F → App S V F
  write t app = elim app.store [
    | none ↦ app
    | some s ↦ record app { store = some (ops.record_turn t s) }
  ]

  unfoldable pub record_turn : Turn V F → App S V F → App S V F
  unfolding stash write
  record_turn t app = if is_empty t.session_id then app else write t (stash t app)
