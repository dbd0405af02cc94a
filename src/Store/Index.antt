-- ===== src/Store/Index.antt =====
-- The turns of a session are numbered 0, 1, 2, … in the order of their recording.
use llm_ctl.Base.{
  ℕ, zero, suc, ◌+◌, ◌≤◌, ◌≡◌, refl, ap, sym, ◌∙◌, some, Bool, true, false, List, [], ◌∷◌, ◌++◌,
  arith, length, ◌==◌, Bool-cases, inl, inr, any, length-append,
}
use llm_ctl.Base.Text.{Text, text_eq, text_eq→eq, text_eq_refl}
use llm_ctl.External.{Floats}
use llm_ctl.Store.Turn.{Turn}
use llm_ctl.Store.Tables.{
  Session, Tables, TurnRow, next_of, indices, record_turn, count_turns, fits_integer, update_totals,
  upsert,
}

-- 0, 1, …, n - 1.
unfoldable pub upto : ℕ → List ℕ
upto zero = []
upto (suc n) = upto n ++ n ∷ []

next_of-append : (is : List ℕ) (n : ℕ) → next_of is ≤ n → next_of (is ++ n ∷ []) ≡ suc n
unfolding next_of
next_of-append [] n h = omega arith
next_of-append (i ∷ is) n h = omega (arith, next_of-append is n (omega arith))

next_of-upto : (n : ℕ) → next_of (upto n) ≡ n
unfolding upto
next_of-upto zero = unfold next_of in refl
next_of-upto (suc n) = next_of-append (upto n) n (omega (arith, next_of-upto n))

length-upto : (n : ℕ) → length (upto n) ≡ n
unfolding upto
length-upto zero = refl
length-upto (suc n) = omega (arith, length-append (upto n) (n ∷ []), length-upto n)

-- An index at or past `next_of` is not taken.
any_of-next_of : (is : List ℕ) (n : ℕ) → next_of is ≤ n → any (◌==◌ n) is ≡ false
unfolding next_of any
any_of-next_of [] n h = refl
any_of-next_of (i ∷ is) n h = ground (arith, any_of-next_of is n)

upto-append :
    (l : List ℕ) (n : ℕ)
    → l ≡ upto (length l)
    → n ≡ length l
    → l ++ n ∷ [] ≡ upto (length (l ++ n ∷ []))
unfolding upto
upto-append l n h e =
    let longer : length (l ++ n ∷ []) ≡ suc (length l) = omega (arith, length-append l (n ∷ [])) in
    ap (λ m. l ++ m ∷ []) e ∙ ap (λ m. m ++ length l ∷ []) h ∙ ap upto (sym longer)

module _ {V F : Type 0} where
  indices-append_same :
      (k : Text) (rs : List (TurnRow V F)) (r : TurnRow V F)
      → text_eq r.turn.session_id k ≡ true
      → indices k (rs ++ r ∷ []) ≡ indices k rs ++ r.turn_index ∷ []
  unfolding indices
  indices-append_same k [] r h = rw h
  indices-append_same k (x ∷ rs) r h = ground (arith, indices-append_same k rs r h)

  indices-append_other :
      (k : Text) (rs : List (TurnRow V F)) (r : TurnRow V F)
      → text_eq r.turn.session_id k ≡ false
      → indices k (rs ++ r ∷ []) ≡ indices k rs
  unfolding indices
  indices-append_other k [] r h = rw h
  indices-append_other k (x ∷ rs) r h = ground (arith, indices-append_other k rs r h)

  -- Every session's turns are numbered without a gap, in the order in which they stand.
  abbrev pub IsNumbered : Tables V F → Type 0
  IsNumbered db = (k : Text) → indices k db.turns ≡ upto (length (indices k db.turns))

  abbrev pub row_of : Turn V F → F → Tables V F → TurnRow V F
  row_of t now db = record {
    turn_index = next_of (indices t.session_id db.turns);
    timestamp = now;
    turn = t;
  }

  next_of-IsNumbered :
      (db : Tables V F) (k : Text)
      → IsNumbered db
      → next_of (indices k db.turns) ≡ length (indices k db.turns)
  next_of-IsNumbered db k h = ap next_of (h k) ∙ next_of-upto (length (indices k db.turns))

  append-IsNumbered :
      (t : Turn V F) (now : F) (db : Tables V F) (k : Text)
      → IsNumbered db
      → let rs = db.turns ++ row_of t now db ∷ [] in indices k rs ≡ upto (length (indices k rs))
  append-IsNumbered t now db k h = elim (Bool-cases (text_eq t.session_id k)) [
    | inl same ↦
        let l : List ℕ = indices k db.turns in
        let n : ℕ = next_of (indices t.session_id db.turns) in
        let number : n ≡ length l =
          rw (text_eq→eq t.session_id k same) (next_of-IsNumbered db k h) in
        rw (indices-append_same k db.turns (row_of t now db) same) (upto-append l n (h k) number)
    | inr other ↦ rw (indices-append_other k db.turns (row_of t now db) other) (h k)
  ]

module _ {V F : Type 0} (fl : Floats F) (accepts : Turn V F → Bool) where
  -- A transaction that goes through adds one row at the end of `turns`.
  pub record_turn-turns :
      (t : Turn V F) (now : F) (db db' : Tables V F)
      → record_turn fl accepts t now db ≡ some db'
      → (db'.turns ≡ db.turns ++ row_of t now db ∷ [])
        × (update_totals fl t (upsert fl t.session_id t.request_model now db.sessions)
            ≡ some db'.sessions)
  unfolding record_turn
  record_turn-turns t now db db' e = ground arith

  -- Recording keeps the turns of every session numbered 0, 1, 2, … in the order of recording.
  pub record_turn-IsNumbered :
      (t : Turn V F) (now : F) (db db' : Tables V F)
      → IsNumbered db
      → record_turn fl accepts t now db ≡ some db'
      → IsNumbered db'
  record_turn-IsNumbered t now db db' h e k =
      let (turns, _) = record_turn-turns t now db db' e in rw turns (append-IsNumbered t now db k h)

  -- The unique index never stands against a turn: where the server takes the statements, the limit
  -- fits its column and no total overflows, the turn is recorded and its session has one turn more.
  pub record_turn_total :
      (t : Turn V F) (now : F) (db : Tables V F) (ss : List (Session F))
      → accepts t ≡ true
      → fits_integer t.request_max_tokens ≡ true
      → update_totals fl t (upsert fl t.session_id t.request_model now db.sessions) ≡ some ss
      → (db' : Tables V F) × (record_turn fl accepts t now db ≡ some db')
        × (count_turns t.session_id db' ≡ count_turns t.session_id db + 1)
  unfolding record_turn count_turns
  record_turn_total t now db ss a f u =
      let is : List ℕ = indices t.session_id db.turns in
      let free = any_of-next_of is (next_of is) (omega arith) in
      let row : TurnRow V F = row_of t now db in
      (
        record { sessions = ss; turns = db.turns ++ row ∷ [] },
        ground (arith, free),
        rw (indices-append_same t.session_id db.turns row (text_eq_refl t.session_id))
            (length-append is (next_of is ∷ [])),
      )
