-- ===== src/Proxy/Sse/Lines.antt =====
-- A byte stream as its lines, each with its newline, and the partial line after them; and how the
-- draining loop of the stream task finds them.
use llm_ctl.Base.{
  ℕ, zero, suc, ◌<◌, ◌≡◌, refl, ap, ◌∙◌, none, some, true, false, List, [], ◌∷◌, ◌++◌, arith,
  length, take, drop, ◌==◌, if◌then◌else◌, Bool-cases, Option-cases, length-drop, inl, inr,
}
use mathlib.Core.List.{foldl}
use llm_ctl.Proxy.Sse.{position, drain_lines}

abbrev onto_lines : ℕ → List (List ℕ) → List (List ℕ)
onto_lines c [] = if c == b'\n' then (c ∷ []) ∷ [] else []
onto_lines c (l ∷ ls) = if c == b'\n' then (c ∷ []) ∷ l ∷ ls else (c ∷ l) ∷ ls

abbrev onto_partial : ℕ → List (List ℕ) → List ℕ → List ℕ
onto_partial c [] r = if c == b'\n' then r else c ∷ r
onto_partial c (l ∷ ls) r = r

unfoldable pub full_lines : List ℕ → List (List ℕ)
full_lines [] = []
full_lines (c ∷ s) = onto_lines c (full_lines s)

unfoldable pub partial : List ℕ → List ℕ
unfolding full_lines
partial [] = []
partial (c ∷ s) = onto_partial c (full_lines s) (partial s)

-- A newline byte cuts, whatever lines follow it.
onto-newline : (c : ℕ) (ls : List (List ℕ)) → (c == b'\n') ≡ true → onto_lines c ls ≡ (c ∷ []) ∷ ls
onto-newline c [] h = rw h
onto-newline c (l ∷ ls) h = rw h

onto_partial-newline :
    (c : ℕ) (ls : List (List ℕ)) (r : List ℕ) → (c == b'\n') ≡ true → onto_partial c ls r ≡ r
onto_partial-newline c [] r h = rw h
onto_partial-newline c (l ∷ ls) r h = refl

onto_lines-append :
    (c : ℕ) (ls : List (List ℕ)) (r ys : List ℕ)
    → onto_lines c (ls ++ full_lines (r ++ ys))
      ≡ onto_lines c ls ++ full_lines (onto_partial c ls r ++ ys)
unfolding full_lines
onto_lines-append c [] r ys = elim (Bool-cases (c == b'\n')) [
  | inl cut ↦ onto-newline c (full_lines (r ++ ys)) cut ∙ rw cut refl
  | inr on ↦ rw on refl
]
onto_lines-append c (l ∷ ls) r ys = elim (Bool-cases (c == b'\n')) [
  | inl cut ↦ rw cut refl
  | inr on ↦ rw on refl
]

onto_partial-append :
    (c : ℕ) (ls : List (List ℕ)) (r ys : List ℕ)
    → onto_partial c (ls ++ full_lines (r ++ ys)) (partial (r ++ ys))
      ≡ partial (onto_partial c ls r ++ ys)
unfolding partial
onto_partial-append c [] r ys = elim (Bool-cases (c == b'\n')) [
  | inl cut ↦ onto_partial-newline c (full_lines (r ++ ys)) (partial (r ++ ys)) cut ∙ rw cut refl
  | inr on ↦ rw on refl
]
onto_partial-append c (l ∷ ls) r ys = refl

-- Cutting a stream at any byte: the lines of the first part come first, and its partial line stands
-- before the second part.
pub full_lines-append :
    (xs ys : List ℕ) → full_lines (xs ++ ys) ≡ full_lines xs ++ full_lines (partial xs ++ ys)
unfolding full_lines partial
full_lines-append [] ys = refl
full_lines-append (x ∷ xs) ys =
    ap (onto_lines x) (full_lines-append xs ys)
    ∙ onto_lines-append x (full_lines xs) (partial xs) ys

pub partial-append : (xs ys : List ℕ) → partial (xs ++ ys) ≡ partial (partial xs ++ ys)
unfolding full_lines partial
partial-append [] ys = refl
partial-append (x ∷ xs) ys =
    rw (full_lines-append xs ys, partial-append xs ys)
      (onto_partial-append x (full_lines xs) (partial xs) ys)

-- A partial line has no newline.
pub full_lines-partial : (xs : List ℕ) → full_lines (partial xs) ≡ []
unfolding full_lines partial
full_lines-partial [] = refl
full_lines-partial (x ∷ xs) = go (full_lines xs) (full_lines-partial xs)
  where
    go :
        (ls : List (List ℕ))
        → full_lines (partial xs) ≡ []
        → full_lines (onto_partial x ls (partial xs)) ≡ []
    go [] h = elim (Bool-cases (x == b'\n')) [ inl cut ↦ rw cut h | inr on ↦ rw on (rw (h, on)) ]
    go (l ∷ ls) h = h

pub partial_of_full_lines : (xs : List ℕ) → full_lines xs ≡ [] → partial xs ≡ xs
unfolding full_lines partial
partial_of_full_lines [] h = refl
partial_of_full_lines (x ∷ xs) h = ground (arith, partial_of_full_lines xs)

-- Where the first newline stands.
position-none : (xs : List ℕ) → position b'\n' xs ≡ none → (full_lines xs ≡ []) × (partial xs ≡ xs)
unfolding full_lines partial position
position-none [] h = (refl, refl)
position-none (x ∷ xs) h = ground (arith, position-none xs)

position-zero : (x : ℕ) (xs : List ℕ) → position b'\n' (x ∷ xs) ≡ some zero → (x == b'\n') ≡ true
unfolding position
position-zero x xs h = ground arith

position-suc :
    (x : ℕ) (xs : List ℕ) (i : ℕ)
    → position b'\n' (x ∷ xs) ≡ some (suc i)
    → ((x == b'\n') ≡ false) × (position b'\n' xs ≡ some i)
unfolding position
position-suc x xs i h = ground arith

position-some :
    (xs : List ℕ) (i : ℕ)
    → position b'\n' xs ≡ some i
    → (full_lines xs ≡ take (suc i) xs ∷ full_lines (drop (suc i) xs))
      × (partial xs ≡ partial (drop (suc i) xs))
      × (i < length xs)
unfolding full_lines partial
position-some [] i h = unfold position in cc
position-some (x ∷ xs) zero h =
    let cut = position-zero x xs h in
    (
      onto-newline x (full_lines xs) cut,
      onto_partial-newline x (full_lines xs) (partial xs) cut,
      omega arith,
    )
position-some (x ∷ xs) (suc i) h =
    let (on, e) = position-suc x xs i h in
    let (first, same, inside) = position-some xs i e in
    (rw first (rw on refl), rw first same, omega arith)

module _ {S : Type 0} (eat : S → List ℕ → S) where
  -- With fuel above the buffer's length the draining loop ends: it eats the full lines in order, and
  -- leaves the partial line.
  pub drain_lines-full_lines :
      (fuel : ℕ) (buf : List ℕ) (s : S)
      → length buf < fuel
      → drain_lines eat fuel buf s ≡ some (partial buf, foldl eat s (full_lines buf))
  unfolding drain_lines
  drain_lines-full_lines zero buf s h = elim h [ ]
  drain_lines-full_lines (suc fuel) buf s h = elim (Option-cases (position b'\n' buf)) [
    | inl e ↦
        let (no_line, all_partial) = position-none buf e in
        rw (e, drain_lines, no_line, all_partial) refl
    | inr (i, e) ↦
        let (first, same, inside) = position-some buf i e in
        rw (e, drain_lines, first, same)
          (drain_lines-full_lines fuel (drop (suc i) buf) (eat s (take (suc i) buf))
            (omega (arith, length-drop (suc i) buf)))
  ]
