-- ===== src/Jobs.antt =====
-- What src/download.rs and src/rebuild.rs share: a job's status, its capped log, and the reading of a
-- child's stdout and stderr into one sink.
pub mod Logs
pub mod Rebuild
pub mod Download
use llm_ctl.Base.{ℕ, Option, none, some, Bool, true, false, List, [], ◌∷◌}
use llm_ctl.Base.Text.{Text, trim_end, is_whitespace}
use llm_ctl.Collect.{push_capped, LineSink, push, ReadLine, line, eof, failed as read_failed}

-- The strings idle, running, ok and failed.
pub data JobStatus : Type 0 where
  idle running succeeded failed : JobStatus

unfoldable pub is_running : JobStatus → Bool
is_running running = true
is_running idle = false
is_running succeeded = false
is_running failed = false

-- `for l in lines { st.push_line(l) }`; `none` stands for a panic.
unfoldable pub push_lines : ℕ → List Text → List Text → Option (List Text)
push_lines cap log [] = some log
push_lines cap log (l ∷ lines) = elim (push_capped cap log l) [
  | none ↦ none
  | some log' ↦ push_lines cap log' lines
]

-- What one of the two readers gets next.
pub data Said : Type 0 where
  out err : ReadLine → Said

-- The two tasks of `collect_capped` on one sink, in the order in which they read. Each stops at its
-- own end or error: the flags say which still read.
unfoldable pub collect_both : Bool → Bool → List Said → LineSink → Option LineSink
unfolding push
collect_both o e [] sink = some sink
collect_both true e (out (line l) ∷ rest) sink = elim (push sink (trim_end is_whitespace l)) [
  | none ↦ none
  | some sink' ↦ collect_both true e rest sink'
]
collect_both true e (out eof ∷ rest) sink = collect_both false e rest sink
collect_both true e (out read_failed ∷ rest) sink = collect_both false e rest sink
collect_both false e (out r ∷ rest) sink = collect_both false e rest sink
collect_both o true (err (line l) ∷ rest) sink = elim (push sink (trim_end is_whitespace l)) [
  | none ↦ none
  | some sink' ↦ collect_both o true rest sink'
]
collect_both o true (err eof ∷ rest) sink = collect_both o false rest sink
collect_both o true (err read_failed ∷ rest) sink = collect_both o false rest sink
collect_both o false (err r ∷ rest) sink = collect_both o false rest sink

unfoldable pub or_false : Option Bool → Bool
or_false none = false
or_false (some b) = b
