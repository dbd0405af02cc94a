-- ===== src/Proxy/Sse/Chunks.antt =====
-- How a stream is cut into chunks does not matter to the collector.
use llm_ctl.Base.{
  ℕ, suc, ◌≤◌, ◌≡◌, refl, ap, ◌∙◌, sym, some, List, [], ◌∷◌, ◌++◌, arith, length, subst,
}
use mathlib.Core.List.{foldl, flatten, append-nil, append_assoc}
use llm_ctl.Proxy.Http.{max_sse_buf}
use llm_ctl.Proxy.Sse.{on_chunk, on_chunks}
use llm_ctl.Proxy.Sse.Lines.{
  full_lines, partial, full_lines-append, partial-append, full_lines-partial, partial_of_full_lines,
  drain_lines-full_lines,
}

abbrev AllShort : List (List ℕ) → Type 0
AllShort [] = Unit
AllShort (l ∷ ls) = (length l ≤ max_sse_buf) × AllShort ls

-- No line of the stream, nor what follows the last newline, is over the buffer's limit.
abbrev pub Short : List ℕ → Type 0
Short xs = AllShort (full_lines xs) × (length (partial xs) ≤ max_sse_buf)

AllShort-append : (ls ls' : List (List ℕ)) → AllShort (ls ++ ls') → AllShort ls'
AllShort-append [] ls' h = h
AllShort-append (l ∷ ls) ls' h = AllShort-append ls ls' h.1

-- The first piece of a stream that begins with `r`, where `r` has no newline, is no shorter than `r`.
first_length : List (List ℕ) → List ℕ → ℕ
first_length [] r = length r
first_length (l ∷ ls) r = length l

first_length-append :
    (r ys : List ℕ)
    → full_lines r ≡ []
    → length r ≤ first_length (full_lines (r ++ ys)) (partial (r ++ ys))
unfolding first_length full_lines partial
first_length-append [] ys h = omega arith
first_length-append (c ∷ r) ys h = ground (arith, first_length-append r ys)

first_short :
    (ls : List (List ℕ)) (r : List ℕ)
    → AllShort ls
    → length r ≤ max_sse_buf
    → first_length ls r ≤ max_sse_buf
unfolding first_length
first_short [] r h k = k
first_short (l ∷ ls) r h k = h.0

Short-partial : (xs ys : List ℕ) → Short (xs ++ ys) → Short (partial xs ++ ys)
Short-partial xs ys (h, k) = (
  AllShort-append (full_lines xs) _ (subst AllShort (full_lines-append xs ys) h),
  subst (λ r. length r ≤ max_sse_buf) (partial-append xs ys) k,
)

Short-length : (xs ys : List ℕ) → Short (xs ++ ys) → length (partial xs) ≤ max_sse_buf
Short-length xs ys h =
    let (lines_short, rest_short) = Short-partial xs ys h in
    let r : List ℕ = partial xs in
    omega (
      arith,
      first_length-append r ys (full_lines-partial xs),
      first_short (full_lines (r ++ ys)) (partial (r ++ ys)) lines_short rest_short,
    )

module _ {S : Type 0} (eat : S → List ℕ → S) where
  on_chunk_lem :
      (b buf : List ℕ) (s : S)
      → length (partial (buf ++ b)) ≤ max_sse_buf
      → on_chunk eat b (buf, s) ≡ some (partial (buf ++ b), foldl eat s (full_lines (buf ++ b)))
  unfolding on_chunk
  on_chunk_lem b buf s h =
      rw (drain_lines-full_lines eat (suc (length (buf ++ b))) (buf ++ b) s (omega arith))
        (ground arith)

  foldl-append :
      (ls ls' : List (List ℕ)) (s : S) → foldl eat s (ls ++ ls') ≡ foldl eat (foldl eat s ls) ls'
  foldl-append [] ls' s = refl
  foldl-append (l ∷ ls) ls' s = foldl-append ls ls' (eat s l)

  eaten : S → List ℕ → List ℕ × S
  eaten s xs = (partial xs, foldl eat s (full_lines xs))

  eaten-append :
      (xs ys : List ℕ) (s : S)
      → eaten (foldl eat s (full_lines xs)) (partial xs ++ ys) ≡ eaten s (xs ++ ys)
  unfolding eaten
  eaten-append xs ys s =
      rw (partial-append xs ys, full_lines-append xs ys)
        (rw (foldl-append (full_lines xs) (full_lines (partial xs ++ ys)) s) refl)

  -- From a buffer that holds a partial line, the chunks of a stream without overlong lines have the
  -- collector eat exactly the stream's full lines, in order, and leave its partial line, wherever
  -- the chunks are cut.
  pub on_chunks-flatten :
      (bs : List (List ℕ)) (buf : List ℕ) (s : S)
      → full_lines buf ≡ []
      → Short (buf ++ flatten bs)
      → on_chunks eat bs (buf, s)
        ≡ some (partial (buf ++ flatten bs), foldl eat s (full_lines (buf ++ flatten bs)))
  unfolding on_chunks flatten eaten
  on_chunks-flatten [] buf s e h =
      let same : buf ++ flatten [] ≡ buf = append-nil buf in
      rw (same, e, partial_of_full_lines buf e) refl
  on_chunks-flatten (b ∷ bs) buf s e h =
      let all : List ℕ = buf ++ b in
      let rest : List ℕ = flatten bs in
      let cut : all ++ rest ≡ buf ++ flatten (b ∷ bs) = append_assoc buf b rest in
      let h' : Short (all ++ rest) = subst Short (sym cut) h in
      let first = on_chunk_lem b buf s (Short-length all rest h') in
      let others =
        on_chunks-flatten bs (partial all) (foldl eat s (full_lines all)) (full_lines-partial all)
          (Short-partial all rest h') in
      rw (first, on_chunks) (others ∙ ap some (eaten-append all rest s ∙ ap (eaten s) cut))
