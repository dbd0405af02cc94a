-- ===== src/Tests/StatsRuns.antt =====
-- Readings of the counters.
use llm_ctl.Base.{ℕ, ◌≡◌, some, arith}
use llm_ctl.Stats.{CpuCounters, busy_of}
use llm_ctl.Stats.Shares.{busy_of_wrapped}

abbrev before : CpuCounters
before = record { total = 100; idle = 40 }

-- Time passes, and iowait falls.
abbrev fallen : CpuCounters
fallen = record { total = 150; idle = 37 }

busy_of_wrapped_example :
    (busy : ℕ) × (busy_of before (some fallen) ≡ some (busy, 50)) × (busy ≡ 53)
busy_of_wrapped_example =
    busy_of_wrapped before fallen (omega arith) (omega arith) (omega arith) (omega arith)
      (omega arith)
