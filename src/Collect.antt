-- ===== src/Collect.antt =====
-- src/collect.rs: the capped line sink that the download and rebuild jobs read their children into.
pub mod Window
use llm_ctl.Base.{
  ℕ, ◌+◌, ◌-◌, Option, none, some, List, [], ◌∷◌, ◌++◌, leb, if◌then◌else◌, length, drop,
}
use llm_ctl.Base.Text.{Text, trim_end, is_whitespace}

-- `Vec::drain(0..n)`, which panics (`none`) past the end.
abbrev pub drain_front : ℕ → List Text → Option (List Text)
drain_front n xs = if leb n (length xs) then some (drop n xs) else none

abbrev then_push : Text → Option (List Text) → Option (List Text)
then_push line none = none
then_push line (some rest) = some (rest ++ line ∷ [])

-- What `LineSink::push` and the two `Job::push_line` do to their vector.
unfoldable pub push_capped : ℕ → List Text → Text → Option (List Text)
push_capped cap log line =
    if leb cap (length log)
    then then_push line (drain_front (length log - cap + 1) log)
    else then_push line (some log)

pub record LineSink : Type 0 where
  pub inner : List Text
  pub cap : ℕ

unfoldable pub new : ℕ → LineSink
new cap = record { inner = []; cap = cap }

unfoldable pub push : LineSink → Text → Option LineSink
unfolding push_capped
push s line = elim (push_capped s.cap s.inner line) [
  | none ↦ none
  | some v ↦ some (record s { inner = v })
]

unfoldable pub snapshot : LineSink → List Text
snapshot s = s.inner

-- What `read_line` answers: a line, no byte more, or an error.
pub data ReadLine : Type 0 where
  line : Text → ReadLine
  eof failed : ReadLine

-- The loop of `collect_capped` over the answers of its reader; past the last one stands EOF.
unfoldable pub collect_capped : List ReadLine → LineSink → Option LineSink
unfolding push
collect_capped [] sink = some sink
collect_capped (eof ∷ rest) sink = some sink
collect_capped (failed ∷ rest) sink = some sink
collect_capped (line l ∷ rest) sink = elim (push sink (trim_end is_whitespace l)) [
  | none ↦ none
  | some sink' ↦ collect_capped rest sink'
]
