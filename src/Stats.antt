-- ===== src/Stats.antt =====
-- src/stats.rs: the CPU's share from two readings of its counters, and the choice of the GPU.
pub mod Shares
use llm_ctl.Base.{
  ◌++◌, ℕ, ◌+◌, ◌-◌, ◌%◌, ◌^◌, Option, none, some, Bool, true, false, List, [], ◌∷◌, ltb,
  if◌then◌else◌,
}
use mathlib.Core.Option
use llm_ctl.Base.Text.{Text, lit}
use llm_ctl.Base.Int.{pos}
use llm_ctl.External.{Floats}

-- The total and the idle time, each a `u64`.
pub record CpuCounters : Type 0 where
  pub total : ℕ
  pub idle : ℕ

-- `+` and `-` on `u64`, as in a release build.
unfoldable wrap : ℕ → ℕ
wrap n = n % 2 ^ 64

unfoldable minus : ℕ → ℕ → ℕ
unfolding wrap
minus m n = wrap (m + 2 ^ 64 - n)

-- The counters from the numbers of the line of /proc/stat, as far as they can be parsed.
unfoldable pub counters : List ℕ → Option CpuCounters
unfolding wrap
counters (user ∷ nice ∷ system ∷ idle ∷ iowait ∷ irq ∷ softirq ∷ steal ∷ rest) = some (record {
  total = wrap (user + nice + system + idle + iowait + irq + softirq + steal);
  idle = wrap (idle + iowait);
})
counters short = none

-- The busy time and the whole time between two readings, of which `sample` shows the quotient; none
-- is shown as 0.
unfoldable pub busy_of : CpuCounters → Option CpuCounters → Option (ℕ × ℕ)
unfolding minus wrap
busy_of p none = none
busy_of p (some c) =
    if ltb p.total c.total
    then some (minus (minus c.total p.total) (minus c.idle p.idle), minus c.total p.total)
    else none

-- An entry of /sys/class/drm that is a card with a busy file: its device, and its VRAM if that can
-- be read.
pub record Card : Type 0 where
  pub device : Text
  pub vram : Option ℕ

unfoldable better : Card → Option ℕ → Option (Text × ℕ) → Option (Text × ℕ)
better c none best = best
better c (some t) none = some (c.device, t)
better c (some t) (some (dev, most)) = if ltb most t then some (c.device, t) else some (dev, most)

unfoldable pub gpu_device : List Card → Option (Text × ℕ) → Option (Text × ℕ)
unfolding better
gpu_device [] best = best
gpu_device (c ∷ cards) best = gpu_device cards (better c c.vram best)

pub record HostStats (F : Type 0) : Type 0 where
  pub cpu_pct : F
  pub gpu_pct : Option F
  pub vram_used_mb : Option F
  pub vram_total_mb : Option F
  pub gpu_temp_c : Option F

-- The files of /proc and /sys at one sample; `read_u64` is what a path's file says, if that is a
-- number, and `hwmon` the path of the first entry of a device's `hwmon`.
pub record Host : Type 0 where
  pub proc_stat : Option (List ℕ)
  pub cards : List Card
  pub read_u64 : Text → Option ℕ
  pub hwmon : Text → Option Text

read_cpu : Host → Option CpuCounters
unfolding counters
read_cpu h = elim h.proc_stat [ none ↦ none | some vals ↦ counters vals ]

module _ {F : Type 0} (fl : Floats F) where
  of_u64 : ℕ → F
  of_u64 n = fl.of_i64 (pos n)

  per : ℕ → ℕ → F
  per unit n = fl.div (of_u64 n) (of_u64 unit)

  share : Option (ℕ × ℕ) → F
  unfolding of_u64
  share none = fl.zero
  share (some (busy, whole)) =
      if ltb 0 whole then fl.mul (fl.div (of_u64 busy) (of_u64 whole)) (of_u64 100) else fl.zero

  with_gpu : Host → HostStats F → Option (Text × ℕ) → HostStats F
  unfolding of_u64 per
  with_gpu h s none = s
  with_gpu h s (some (dev, most)) = record s {
    gpu_pct = Option.map of_u64 (h.read_u64 (dev ++ lit "/gpu_busy_percent"));
    vram_used_mb = Option.map (per 1048576) (h.read_u64 (dev ++ lit "/mem_info_vram_used"));
    vram_total_mb = Option.map (per 1048576) (h.read_u64 (dev ++ lit "/mem_info_vram_total"));
    gpu_temp_c = elim (h.hwmon dev) [
      | none ↦ none
      | some e ↦ Option.map (per 1000) (h.read_u64 (e ++ lit "/temp1_input"))
    ];
  }

  -- `sample`: the figures, and the counters for the next one.
  unfoldable pub sample : Host → CpuCounters → HostStats F × CpuCounters
  unfolding share with_gpu read_cpu busy_of gpu_device
  sample h prev =
      let cur = read_cpu h in
      let stats : HostStats F = record {
        cpu_pct = share (busy_of prev cur);
        gpu_pct = none;
        vram_used_mb = none;
        vram_total_mb = none;
        gpu_temp_c = none;
      } in
      (with_gpu h stats (gpu_device h.cards none), elim cur [ none ↦ prev | some c ↦ c ])
