-- ===== src/Proxy/Gate.antt =====
-- src/proxy.rs: `InFlight`, the gate that admits one completion at a time.
use llm_ctl.Base.{Bool, true, false}

-- `compare_exchange(false, true)`: whether the guard was got, and the flag afterwards.
unfoldable pub acquire : Bool → Bool × Bool
acquire false = (true, true)
acquire true = (false, true)

-- Dropping the guard stores `false`.
unfoldable pub release : Bool → Bool
release busy = false
