-- ===== src/Collect/Window.antt =====
-- The sink holds the most recent `cap` lines, and never panics.
use llm_ctl.Base.{
  ℕ, ◌+◌, ◌-◌, ◌≤◌, ◌<◌, ◌≡◌, refl, sym, ap, ◌∙◌, some, List, [], ◌∷◌, ◌++◌, subst, arith, length,
  drop, length-append, length-drop, drop-append, drop-drop,
}
use llm_ctl.Base.Text.{Text, trim_end, is_whitespace}
use mathlib.Core.List.{append_assoc, append-nil}
use native.Mathlib.Decide.{dec_le}
use llm_ctl.Collect.{
  push_capped, LineSink, new, snapshot, ReadLine, line, eof, failed, collect_capped,
}

-- The last `n` entries.
pub last {ℓ} : {A : Type ℓ} → ℕ → List A → List A
last n xs = drop (length xs - n) xs

push_capped_room :
    (cap : ℕ) (v : List Text) (l : Text) → length v < cap → push_capped cap v l ≡ some (v ++ l ∷ [])
unfolding push_capped
push_capped_room cap v l h = ground arith

push_capped_full :
    (cap : ℕ) (v : List Text) (l : Text)
    → 0 < cap
    → length v ≡ cap
    → push_capped cap v l ≡ some (drop 1 v ++ l ∷ [])
unfolding push_capped
push_capped_full cap v l p h = rw h (ground (arith, ap (λ k. drop k v) (one cap)))
  where
    one : (n : ℕ) → n - n + 1 ≡ 1
    one n = omega arith

-- A window slides: below the cap it grows, and at the cap it loses its oldest line.
last-append_room :
    (cap : ℕ) (xs : List Text) (l : Text)
    → length xs < cap
    → last cap (xs ++ l ∷ []) ≡ last cap xs ++ l ∷ []
unfolding last
last-append_room cap xs l h = rw (length-append xs (l ∷ []), none_dropped, still_none) refl
  where
    none_dropped : length xs - cap ≡ 0
    none_dropped = omega arith

    still_none : length xs + 1 - cap ≡ 0
    still_none = omega arith

last-append_full :
    (cap : ℕ) (xs : List Text) (l : Text)
    → 0 < cap
    → cap ≤ length xs
    → last cap (xs ++ l ∷ []) ≡ drop 1 (last cap xs) ++ l ∷ []
unfolding last
last-append_full cap xs l p h =
    rw (length-append xs (l ∷ []), one_more, drop-drop 1 (length xs - cap) xs)
      (drop-append (length xs - cap + 1) xs (l ∷ []) (omega arith))
  where
    one_more : length xs + 1 - cap ≡ length xs - cap + 1
    one_more = omega arith

pub length-last : (n : ℕ) (xs : List Text) → n ≤ length xs → length (last n xs) ≡ n
unfolding last
length-last n xs h = omega (arith, length-drop (length xs - n) xs)

last_short : (n : ℕ) (xs : List Text) → length xs < n → last n xs ≡ xs
unfolding last
last_short n xs h = ap (λ k. drop k xs) zero_dropped
  where
    zero_dropped : length xs - n ≡ 0
    zero_dropped = omega arith

-- One push onto the last `cap` of the lines so far gives the last `cap` with the new line.
pub push_capped-last :
    (cap : ℕ) (xs : List Text) (l : Text)
    → 0 < cap
    → push_capped cap (last cap xs) l ≡ some (last cap (xs ++ l ∷ []))
push_capped-last cap xs l p = elim (dec_le cap (length xs)) [
  | yes full ↦
      push_capped_full cap (last cap xs) l p (length-last cap xs full)
      ∙ ap some (sym (last-append_full cap xs l p full))
  | no room ↦
      let short : length xs < cap = omega arith in
      rw (last_short cap xs short) (push_capped_room cap xs l short)
      ∙ ap some (
          ap (λ v. v ++ l ∷ []) (sym (last_short cap xs short))
          ∙ sym (last-append_room cap xs l short))
]

-- The lines that the reader hands over before it stops.
pub lines_read : List ReadLine → List Text
lines_read [] = []
lines_read (eof ∷ rest) = []
lines_read (failed ∷ rest) = []
lines_read (line l ∷ rest) = trim_end is_whitespace l ∷ lines_read rest

collect_line :
    (cap : ℕ) (v w : List Text) (l : Text) (rest : List ReadLine)
    → push_capped cap v (trim_end is_whitespace l) ≡ some w
    → collect_capped (line l ∷ rest) (record { inner = v; cap = cap })
      ≡ collect_capped rest (record { inner = w; cap = cap })
unfolding collect_capped
collect_line cap v w l rest e = rw (e, collect_capped)

collect_from :
    (cap : ℕ) (seen : List Text) (rs : List ReadLine)
    → 0 < cap
    → collect_capped rs (record { inner = last cap seen; cap = cap })
      ≡ some (record { inner = last cap (seen ++ lines_read rs); cap = cap })
unfolding collect_capped lines_read
collect_from cap seen [] p = rw (append-nil seen)
collect_from cap seen (eof ∷ rest) p = rw (append-nil seen)
collect_from cap seen (failed ∷ rest) p = rw (append-nil seen)
collect_from cap seen (line l ∷ rest) p =
    let t : Text = trim_end is_whitespace l in
    rw
      (collect_line cap (last cap seen) (last cap (seen ++ t ∷ [])) l rest
        (push_capped-last cap seen t p))
      (rw (← append_assoc seen (t ∷ []) (lines_read rest))
        (collect_from cap (seen ++ t ∷ []) rest p))

pub last_nil : (n : ℕ) → last {A = Text} n [] ≡ []
unfolding last
last_nil n = ap (λ k. drop k []) zero_dropped
  where
    zero_dropped : 0 - n ≡ 0
    zero_dropped = omega arith

-- Reading a child's output into a new sink of a positive cap never panics, whatever the reader
-- answers, and the snapshot is then the last `cap` of the trimmed lines read, in order.
pub collect_capped-last :
    (cap : ℕ) (rs : List ReadLine)
    → 0 < cap
    → (sink : LineSink) × (collect_capped rs (new cap) ≡ some sink)
      × (snapshot sink ≡ last cap (lines_read rs))
unfolding new snapshot
collect_capped-last cap rs p = (
  record { inner = last cap (lines_read rs); cap = cap },
  subst
      (λ v.
        collect_capped rs (record { inner = v; cap = cap })
        ≡ some (record { inner = last cap (lines_read rs); cap = cap }))
      (last_nil cap) (collect_from cap [] rs p),
  refl,
)
