-- ===== src/Pve/Pem.antt =====
-- A bundle of certificates is split into exactly its certificates.
use llm_ctl.Base.{
  ℕ, zero, suc, ◌+◌, ◌≡◌, refl, sym, ap, ◌∙◌, Option, none, some, Bool, true, false, not, List, [],
  ◌∷◌, ◌++◌, map, length, take, all, any, ◌==◌, arith, Option-cases, inl, inr,
}
use mathlib.Core.Path.{◌≡⟨◌⟩◌, ◌∎}
use native.Mathlib.Nat.{zero-add}
use mathlib.Core.List.{reverse, reverse-append, reverse-reverse, append_assoc, append-nil}
use llm_ctl.Base.Text.{Text, starts_with, ends_with, trim, trim_start, trim_end, is_whitespace}
use llm_ctl.Pve.{begin_marker, end_marker, push_front, split, find, block_of, blocks, certificates}

-- A certificate's text between its markers: base64 and line ends, with no dash.
unfoldable pub dashless : Text → Bool
unfolding all
dashless body = all (λ c. not (c == 45)) body

abbrev pub armored : Text → Text
armored body = begin_marker ++ (body ++ end_marker)

unfoldable pub bundle : List Text → Text
unfolding begin_marker end_marker
bundle [] = []
bundle (body ∷ bodies) = begin_marker ++ (body ++ (end_marker ++ 10 ∷ bundle bodies))

prepend : Text → List Text → List Text
prepend [] ps = ps
prepend (c ∷ s) ps = push_front c (prepend s ps)

dashless-cons :
    (c : ℕ) (s : Text) → dashless (c ∷ s) ≡ true → ((c == 45) ≡ false) × (dashless s ≡ true)
unfolding dashless
dashless-cons c s h = ground arith

starts_with_dash : (c : ℕ) (s p : Text) → (c == 45) ≡ false → starts_with (c ∷ s) (45 ∷ p) ≡ false
unfolding starts_with
starts_with_dash c s p h = rw h refl

split_on :
    (c : ℕ) (s : Text)
    → starts_with (c ∷ s) begin_marker ≡ false
    → split begin_marker zero (c ∷ s) ≡ push_front c (split begin_marker zero s)
unfolding split
split_on c s h = rw (h, split) refl

split-dashless :
    (s rest : Text)
    → dashless s ≡ true
    → split begin_marker zero (s ++ rest) ≡ prepend s (split begin_marker zero rest)
unfolding prepend begin_marker
split-dashless [] rest h = refl
split-dashless (c ∷ s) rest h =
    let (first, others) = dashless-cons c s h in
    split_on c (s ++ rest) (starts_with_dash c (s ++ rest) _ first)
    ∙ ap (push_front c) (split-dashless s rest others)

split-begin_marker :
    (s : Text) → split begin_marker zero (begin_marker ++ s) ≡ [] ∷ split begin_marker zero s
unfolding split starts_with begin_marker
split-begin_marker s = refl

split-end_marker :
    (s : Text)
    → split begin_marker zero (end_marker ++ 10 ∷ s)
      ≡ prepend (end_marker ++ 10 ∷ []) (split begin_marker zero s)
unfolding split starts_with prepend begin_marker end_marker
split-end_marker s = refl

prepend_lem : (s p : Text) (ps : List Text) → prepend s (p ∷ ps) ≡ (s ++ p) ∷ ps
unfolding prepend push_front
prepend_lem [] p ps = refl
prepend_lem (c ∷ s) p ps = rw (prepend_lem s p ps) refl

abbrev pub AllDashless : List Text → Type 0
AllDashless [] = Unit
AllDashless (body ∷ bodies) = (dashless body ≡ true) × AllDashless bodies

-- What stands after a begin marker, up to the next one.
piece_of : Text → Text
piece_of body = body ++ (end_marker ++ 10 ∷ [])

split-bundle :
    (bodies : List Text)
    → AllDashless bodies
    → split begin_marker zero (bundle bodies) ≡ [] ∷ map piece_of bodies
unfolding bundle piece_of
split-bundle [] h = unfold split in refl
split-bundle (body ∷ bodies) h =
    split begin_marker zero (bundle (body ∷ bodies))
    ≡⟨ split-begin_marker (body ++ (end_marker ++ 10 ∷ bundle bodies)) ⟩
      [] ∷ split begin_marker zero (body ++ (end_marker ++ 10 ∷ bundle bodies))
    ≡⟨ ap (◌∷◌ []) (split-dashless body _ h.0) ⟩
      [] ∷ prepend body (split begin_marker zero (end_marker ++ 10 ∷ bundle bodies))
    ≡⟨ ap (λ ps. [] ∷ prepend body ps) (split-end_marker (bundle bodies)) ⟩
      [] ∷ prepend body (prepend (end_marker ++ 10 ∷ []) (split begin_marker zero (bundle bodies)))
    ≡⟨ ap (λ ps. [] ∷ prepend body (prepend (end_marker ++ 10 ∷ []) ps)) (split-bundle bodies h.1) ⟩
      [] ∷ prepend body (prepend (end_marker ++ 10 ∷ []) ([] ∷ map piece_of bodies))
    ≡⟨ ap (λ ps. [] ∷ prepend body ps) (prepend_lem (end_marker ++ 10 ∷ []) [] _) ⟩
      [] ∷ prepend body (((end_marker ++ 10 ∷ []) ++ []) ∷ map piece_of bodies)
    ≡⟨ ap (λ p. [] ∷ prepend body (p ∷ map piece_of bodies)) (append-nil (end_marker ++ 10 ∷ [])) ⟩
      [] ∷ prepend body ((end_marker ++ 10 ∷ []) ∷ map piece_of bodies)
    ≡⟨ ap (◌∷◌ []) (prepend_lem body (end_marker ++ 10 ∷ []) _) ⟩
      [] ∷ map piece_of (body ∷ bodies) ∎

find-end_marker :
    (body : Text) → dashless body ≡ true → find end_marker (piece_of body) ≡ some (length body)
unfolding find piece_of end_marker
find-end_marker [] h = unfold starts_with in refl
find-end_marker (c ∷ body) h =
    let (first, others) = dashless-cons c body h in
    rw
      (
        starts_with_dash c (body ++ (end_marker ++ 10 ∷ [])) _ first,
        find-end_marker body others,
        find,
      )
      (ap some (omega arith))

take_all : (t r : Text) → take (length t) (t ++ r) ≡ t
take_all [] r = refl
take_all (c ∷ t) r = ap (◌∷◌ c) (take_all t r)

take_within : (s t r : Text) → take (length s + length t) (s ++ (t ++ r)) ≡ s ++ t
take_within [] t r = rw zero-add (take_all t r)
take_within (c ∷ s) t r = rw (longer (length s) (length t)) (ap (◌∷◌ c) (take_within s t r))
  where
    longer : (m n : ℕ) → suc m + n ≡ suc (m + n)
    longer m n = omega arith

block_of-piece_of : (body : Text) → dashless body ≡ true → block_of (piece_of body) ≡ armored body
unfolding block_of piece_of
block_of-piece_of body h =
    rw (find-end_marker body h, block_of)
      (ap (λ s. begin_marker ++ s) (take_within body end_marker (10 ∷ [])))

reverse-armored :
    (body : Text) → reverse (armored body) ≡ reverse end_marker ++ reverse (begin_marker ++ body)
reverse-armored body =
    rw (← append_assoc begin_marker body end_marker)
      (reverse-append (begin_marker ++ body) end_marker)

trim_end-armored : (body : Text) → trim_end is_whitespace (armored body) ≡ armored body
unfolding trim_end
trim_end-armored body = rw (reverse-armored body) (
    ap reverse (dash_start (reverse (begin_marker ++ body)))
    ∙ ap reverse (sym (reverse-armored body))
    ∙ reverse-reverse (armored body))
  where
    dash_start :
        (s : Text) → trim_start is_whitespace (reverse end_marker ++ s) ≡ reverse end_marker ++ s
    dash_start s = unfold trim_start is_whitespace any end_marker in refl

trim-armored : (body : Text) → trim (armored body) ≡ armored body
unfolding trim
trim-armored body =
    rw (trim_end-armored body) (unfold trim_start is_whitespace begin_marker in refl)

ends_with-armored : (body : Text) → ends_with (trim (armored body)) end_marker ≡ true
unfolding ends_with
ends_with-armored body =
    rw (trim-armored body, reverse-armored body) (unfold starts_with end_marker in refl)

blocks-pieces :
    (bodies : List Text)
    → AllDashless bodies
    → map block_of (map piece_of bodies) ≡ map armored bodies
blocks-pieces [] h = refl
blocks-pieces (body ∷ bodies) h = rw (block_of-piece_of body h.0, blocks-pieces bodies h.1) refl

-- The blocks of a bundle, after any text with no dash, are its certificates.
pub blocks-bundle :
    (preamble : Text) (bodies : List Text)
    → dashless preamble ≡ true
    → AllDashless bodies
    → blocks (preamble ++ bundle bodies) ≡ map armored bodies
unfolding blocks
blocks-bundle preamble bodies p h =
    rw
      (
        split-dashless preamble (bundle bodies) p,
        split-bundle bodies h,
        prepend_lem preamble [] (map piece_of bodies),
      )
      (blocks-pieces bodies h)

-- The certificates that can be read, in order.
pub readable : {C : Type 0} → (Text → Option C) → List Text → List C
readable from_pem [] = []
readable from_pem (body ∷ bodies) = elim (from_pem (armored body)) [
  | none ↦ readable from_pem bodies
  | some c ↦ c ∷ readable from_pem bodies
]

module _ {C : Type 0} (from_pem : Text → Option C) where
  certificates-armored :
      (bodies : List Text) → certificates from_pem (map armored bodies) ≡ readable from_pem bodies
  unfolding certificates readable
  certificates-armored [] = refl
  certificates-armored (body ∷ bodies) = elim (Option-cases (from_pem (armored body))) [
    | inl bad ↦
        rw (ends_with-armored body, bad, certificates, readable) (certificates-armored bodies)
    | inr (c, good) ↦
        rw (ends_with-armored body, good, certificates, readable)
          (ap (◌∷◌ c) (certificates-armored bodies))
  ]

  -- From a bundle of certificates whose texts have no dash, after any text with no dash, exactly
  -- its certificates are read, each between its markers, and those are trusted that the parser
  -- takes, in order.
  pub certificates-bundle :
      (preamble : Text) (bodies : List Text)
      → dashless preamble ≡ true
      → AllDashless bodies
      → (blocks (preamble ++ bundle bodies) ≡ map armored bodies)
        × (certificates from_pem (blocks (preamble ++ bundle bodies)) ≡ readable from_pem bodies)
  certificates-bundle preamble bodies p h =
      let e = blocks-bundle preamble bodies p h in
      (e, ap (certificates from_pem) e ∙ certificates-armored bodies)
