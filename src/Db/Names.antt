-- ===== src/Db/Names.antt =====
-- The probe and hosts that are no address.
use llm_ctl.Base.{
  ℕ, ◌≡◌, ◌≢◌, refl, ap, Option, none, some, Bool, true, false, ◌||◌, [], ◌∷◌, ◌++◌, all, arith,
  ◌==◌, Option-cases, inl, inr, &&_elim,
}
use llm_ctl.Base.Text.{Text, starts_with}
use llm_ctl.Db.{
  is_digit, span_digits, is_octet, is_port, number, given, at_end, SocketAddr, parse_v4, parse_addr,
  Url, DbWorld, invalid_addr, addr_text, connected, probe, ◌>>=◌,
}

-- The characters of an IPv4 address with its port.
abbrev pub addr_char : ℕ → Bool
addr_char c = is_digit c || c == b'.' || c == b':'

module _ {A B : Type 0} where
  >>=-eq-some :
      (m : Option A) (f : A → Option B) {b : B}
      → (m >>= f) ≡ some b
      → (a : A) × (m ≡ some a) × (f a ≡ some b)
  >>=-eq-some none f h = cc
  >>=-eq-some (some a) f h = (a, refl, h)

-- The text consists of such characters if its rest does.
abbrev Passes : Text → Text → Type 0
Passes t rest = all addr_char rest ≡ true → all addr_char t ≡ true

span-Passes : (t : Text) → Passes t (span_digits t).1
unfolding span_digits all
span-Passes [] h = refl
span-Passes (c ∷ s) h = ground (arith, span-Passes s)

number-rest :
    (ok : Text → Bool) (t : Text) (n : ℕ) (rest : Text)
    → number ok t ≡ some (n, rest)
    → (span_digits t).1 ≡ rest
unfolding number
number-rest ok t n rest e = ground arith

number-Passes :
    (ok : Text → Bool) (t : Text) (n : ℕ) (rest : Text)
    → number ok t ≡ some (n, rest)
    → Passes t rest
number-Passes ok t n rest e h = span-Passes t (rw (number-rest ok t n rest e) h)

given-Passes : (c : ℕ) (t rest : Text) → addr_char c ≡ true → given c t ≡ some rest → Passes t rest
unfolding given all
given-Passes c [] rest k e h = cc
given-Passes c (d ∷ s) rest k e h = ground arith

at_end-Passes : (t : Text) (u : _) → at_end t ≡ some u → all addr_char t ≡ true
unfolding at_end all
at_end-Passes [] u e = refl
at_end-Passes (c ∷ s) u e = cc

-- A group of an address and the character after it.
group-Passes :
    {B : Type 0} (ok : Text → Bool) (c : ℕ) (t : Text) (f : ℕ → Text → Option B) {b : B}
    → addr_char c ≡ true
    → (number ok t >>= λ x. given c x.1 >>= λ r. f x.0 r) ≡ some b
    → (n : ℕ) × (rest : Text) × (f n rest ≡ some b) × Passes t rest
group-Passes ok c t f k h =
    let ((n, r), e₁, h₁) = >>=-eq-some (number ok t) _ h in
    let (rest, e₂, h₂) = >>=-eq-some (given c r) _ h₁ in
    (n, rest, h₂, λ p. number-Passes ok t n r e₁ (given-Passes c r rest k e₂ p))

parse_v4-all : (t : Text) (a : SocketAddr) → parse_v4 t ≡ some a → all addr_char t ≡ true
unfolding parse_v4
parse_v4-all t a h =
    let (n₁, t₁, h₁, p₁) = group-Passes is_octet b'.' t _ refl h in
    let (n₂, t₂, h₂, p₂) = group-Passes is_octet b'.' t₁ _ refl h₁ in
    let (n₃, t₃, h₃, p₃) = group-Passes is_octet b'.' t₂ _ refl h₂ in
    let (n₄, t₄, h₄, p₄) = group-Passes is_octet b':' t₃ _ refl h₃ in
    let ((port, r), e, h₅) = >>=-eq-some (number is_port t₄) _ h₄ in
    let (done, ends, _) = >>=-eq-some (at_end r) _ h₅ in
    p₁ (p₂ (p₃ (p₄ (number-Passes is_port t₄ port r e (at_end-Passes r done ends)))))

all-left : (s t : Text) → all addr_char (s ++ t) ≡ true → all addr_char s ≡ true
unfolding all
all-left [] t h = refl
all-left (c ∷ s) t h =
    let (first, others) = &&_elim (addr_char c) (all addr_char (s ++ t)) h in
    rw first (all-left s t others)

starts_with-append :
    (c : ℕ) (s t : Text) → s ≢ [] → starts_with (s ++ t) (c ∷ []) ≡ starts_with s (c ∷ [])
unfolding starts_with
starts_with-append c [] t h = absurd (h refl)
starts_with-append c (d ∷ s) t h = refl

parse_addr-name :
    (parse_v6 : Text → Option SocketAddr) (host t : Text)
    → all addr_char host ≡ false
    → starts_with host (b'[' ∷ []) ≡ false
    → parse_addr parse_v6 (host ++ t) ≡ none
unfolding parse_addr
parse_addr-name parse_v6 host t name plain = elim (Option-cases (parse_v4 (host ++ t))) [
  | inl e ↦ rw (e, parse_addr) (rw (starts_with-append b'[' host t full, plain))
  | inr (a, e) ↦
      let k : all addr_char host ≡ true = all-left host t (parse_v4-all (host ++ t) a e) in cc
]
  where
    full : host ≢ []
    full e = let k : all addr_char [] ≡ false = rw e at name in unfold all in cc k

-- A host that is a name, with a character that no IPv4 address has, and not in brackets, is reported as
-- down without a connection, whoever listens there.
pub probe-name :
    (w : DbWorld) (pgurl : Text) (url : Url) (host : Text)
    → w.parse_url pgurl ≡ some url
    → url.host_str ≡ some host
    → all addr_char host ≡ false
    → starts_with host (b'[' ∷ []) ≡ false
    → probe w pgurl ≡ invalid_addr
unfolding probe connected addr_text
probe-name w pgurl url host parsed named name plain =
    rw (parsed, probe)
      (rw (named, probe) (ap (connected w.connect) (parse_addr-name w.parse_v6 host _ name plain)))
