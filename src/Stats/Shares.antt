-- ===== src/Stats/Shares.antt =====
-- The CPU's share of the time where the idle time falls.
use llm_ctl.Base.{ℕ, ◌+◌, ◌-◌, ◌^◌, ◌≤◌, ◌<◌, ◌≡◌, some, arith}
use llm_ctl.Stats.{CpuCounters, minus, wrap, busy_of}

minus-le : (m n : ℕ) → n ≤ m → m < 2 ^ 64 → minus m n ≡ m - n
unfolding minus wrap
minus-le m n h k = omega arith

minus-lt : (m n : ℕ) → m < n → n < 2 ^ 64 → minus m n + n ≡ m + 2 ^ 64
unfolding minus wrap
minus-lt m n h k = omega arith

-- Where the total grows and the idle time falls between two `u64` readings, as the kernel's iowait
-- may, by amounts whose sum is a `u64`, the busy time is that sum, and so more than the whole.
pub busy_of_wrapped :
    (p c : CpuCounters)
    → p.total < c.total
    → c.idle < p.idle
    → c.total - p.total + (p.idle - c.idle) < 2 ^ 64
    → c.total < 2 ^ 64
    → p.idle < 2 ^ 64
    → (busy : ℕ) × (busy_of p (some c) ≡ some (busy, c.total - p.total))
      × (busy ≡ c.total - p.total + (p.idle - c.idle))
unfolding busy_of
busy_of_wrapped p c grows falls fits t i =
    let d : minus c.idle p.idle + p.idle ≡ c.idle + 2 ^ 64 = minus-lt c.idle p.idle falls i in
    let less : c.total - p.total < minus c.idle p.idle = omega arith in
    let whole : minus c.idle p.idle < 2 ^ 64 = omega arith in
    let e : minus (c.total - p.total) (minus c.idle p.idle) + minus c.idle p.idle
        ≡ c.total - p.total + 2 ^ 64 =
      minus-lt (c.total - p.total) (minus c.idle p.idle) less whole in
    (
      minus (c.total - p.total) (minus c.idle p.idle),
      rw (minus-le c.total p.total (omega arith) t) (ground arith),
      omega arith,
    )
