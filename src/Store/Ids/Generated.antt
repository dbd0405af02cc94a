-- ===== src/Store/Ids/Generated.antt =====
-- The ids that the store makes up itself.
use llm_ctl.Base.{
  ℕ, zero, suc, ◌+◌, ◌-◌, ◌*◌, ◌/◌, ◌%◌, ◌^◌, ◌≤◌, ◌<◌, ◌≡◌, refl, ap, ◌∙◌, some, true, false, [],
  ◌∷◌, ◌++◌, arith, ltb, all, any, length, inl, inr, Bool-cases, &&_elim, if◌then◌else◌, ltb→lt,
}
use mathlib.Core.List.{reverse, reverse-cons, reverse-reverse}
use native.Mathlib.Nat.{pow-suc}
use llm_ctl.Base.Text.{Text, is_ascii_alphanumeric, is_whitespace, trim, trim_start, trim_end}
use llm_ctl.Store.Session.{
  id_char, valid_session_id, keep_valid, session_id, hex_digit, hex, zeros, gen_session_id,
}
use llm_ctl.Store.Ids.{all_ascii}

-- `u64::from_str_radix(_, 16)` on lower-case digits, after the number `n`.
pub hex_value : ℕ → ℕ
hex_value c = if ltb c b'a' then c - b'0' else c - b'a' + 10

pub from_hex : ℕ → Text → ℕ
unfolding hex_value
from_hex n [] = n
from_hex n (c ∷ s) = from_hex (n * 16 + hex_value c) s

hex_value-hex_digit : (d : ℕ) → d < 16 → hex_value (hex_digit d) ≡ d
unfolding hex_value hex_digit
hex_value-hex_digit d h = ground arith

from_hex-hex : (f n : ℕ) (out : Text) → n < 16 ^ f → from_hex 0 (hex f n out) ≡ from_hex n out
unfolding hex from_hex
from_hex-hex zero n out h = ap (λ k. from_hex k out) (let k : n < 1 = h in omega arith)
from_hex-hex (suc f) n out h = elim (Bool-cases (ltb n 16)) [
  | inl small ↦
      rw (small, hex)
        (ap (λ k. from_hex k out) (omega (arith, hex_value-hex_digit n (ltb→lt n 16 small))))
  | inr big ↦
      rw (big, hex)
        (from_hex-hex f (n / 16) (hex_digit (n % 16) ∷ out)
            (let k : n < 16 ^ f * 16 = rw pow-suc at h in omega arith)
          ∙ ap (λ k. from_hex k out)
              (let e = hex_value-hex_digit (n % 16) (omega arith) in rw e (omega arith)))
]

from_hex-zeros : (k : ℕ) (s : Text) → from_hex 0 (zeros k s) ≡ from_hex 0 s
unfolding from_hex zeros hex_value
from_hex-zeros zero s = refl
from_hex-zeros (suc k) s = from_hex-zeros k s

hex_digit-id_char : (d : ℕ) → d < 16 → id_char (hex_digit d) ≡ true
unfolding hex_digit is_ascii_alphanumeric
hex_digit-id_char d h = ground arith

hex-id_char : (f n : ℕ) (out : Text) → all id_char out ≡ true → all id_char (hex f n out) ≡ true
unfolding hex all
hex-id_char zero n out h = h
hex-id_char (suc f) n out h = elim (Bool-cases (ltb n 16)) [
  | inl small ↦ rw (small, hex) (rw (hex_digit-id_char n (ltb→lt n 16 small)) h)
  | inr big ↦
      rw (big, hex) (hex-id_char f (n / 16) _ (rw (hex_digit-id_char (n % 16) (omega arith)) h))
]

zeros-id_char : (k : ℕ) (s : Text) → all id_char s ≡ true → all id_char (zeros k s) ≡ true
unfolding zeros all is_ascii_alphanumeric
zeros-id_char zero s h = h
zeros-id_char (suc k) s h = zeros-id_char k s h

length-hex : (f n : ℕ) (out : Text) → length (hex (suc f) n out) ≤ length out + suc f
unfolding hex
length-hex zero n out = ground arith
length-hex (suc f) n out = ground (arith, length-hex f (n / 16) (hex_digit (n % 16) ∷ out))

hex-length : (f n : ℕ) (out : Text) → length out ≤ length (hex f n out)
unfolding hex
hex-length zero n out = omega arith
hex-length (suc f) n out = ground (arith, hex-length f (n / 16) (hex_digit (n % 16) ∷ out))

length-zeros : (k : ℕ) (s : Text) → length (zeros k s) ≡ k + length s
unfolding zeros
length-zeros zero s = omega arith
length-zeros (suc k) s = omega (arith, length-zeros k s)

id_char-is_whitespace : (c : ℕ) → id_char c ≡ true → is_whitespace c ≡ false
unfolding is_ascii_alphanumeric is_whitespace any
id_char-is_whitespace c h = ground arith

trim_start-id_char : (s : Text) → all id_char s ≡ true → trim_start is_whitespace s ≡ s
unfolding trim_start all
trim_start-id_char [] h = refl
trim_start-id_char (c ∷ s) h = rw (id_char-is_whitespace c (&&_elim _ _ h).0)

all-append :
    (s t : Text) → all id_char s ≡ true → all id_char t ≡ true → all id_char (s ++ t) ≡ true
unfolding all
all-append [] t h k = k
all-append (c ∷ s) t h k =
    let (first, others) = &&_elim (id_char c) (all id_char s) h in
    rw first (all-append s t others k)

all-reverse : (s : Text) → all id_char s ≡ true → all id_char (reverse s) ≡ true
unfolding all
all-reverse [] h = refl
all-reverse (c ∷ s) h =
    let (first, others) = &&_elim (id_char c) (all id_char s) h in
    rw (reverse-cons c s) (all-append (reverse s) (c ∷ []) (all-reverse s others) (rw first))

trim-id_char : (s : Text) → all id_char s ≡ true → trim s ≡ s
unfolding trim trim_end
trim-id_char s h =
    rw (trim_start-id_char (reverse s) (all-reverse s h), reverse-reverse) (trim_start-id_char s h)

valid_of_parts :
    (s : Text) → 0 < length s → length s ≤ 64 → all id_char s ≡ true → valid_session_id s ≡ true
unfolding valid_session_id
valid_of_parts [] h k a = absurd (omega arith)
valid_of_parts (c ∷ s) h k a = rw (all_ascii (c ∷ s) a) (rw a (ground arith))

-- The id, as its digits and the zeros before them.
generated_parts :
    (n : ℕ)
    → n < 2 ^ 64
    → (12 ≤ length (gen_session_id n))
      × (length (gen_session_id n) ≤ 16)
      × (from_hex 0 (gen_session_id n) ≡ n)
      × (all id_char (gen_session_id n) ≡ true)
unfolding gen_session_id from_hex all
generated_parts n h =
    let s : Text = hex 16 n [] in
    let padded : length (zeros (12 - length s) s) ≡ 12 - length s + length s =
      length-zeros (12 - length s) s in
    let short : length s ≤ 16 = length-hex 15 n [] in
    (
      omega arith,
      omega arith,
      from_hex-zeros (12 - length s) s ∙ from_hex-hex 16 n [] h,
      zeros-id_char (12 - length s) s (hex-id_char 16 n [] refl),
    )

-- The id that is made up of a random `u64` has 12 to 16 characters, tells that number, and is taken
-- when a client sends it back.
pub session_id-gen_session_id :
    (n : ℕ) (generated : Text)
    → n < 2 ^ 64
    → (12 ≤ length (gen_session_id n))
      × (length (gen_session_id n) ≤ 16)
      × (from_hex 0 (gen_session_id n) ≡ n)
      × (session_id (some (gen_session_id n)) generated ≡ gen_session_id n)
session_id-gen_session_id n generated h =
    let (long, short, same, chars) = generated_parts n h in
    let ok : valid_session_id (gen_session_id n) ≡ true =
      valid_of_parts (gen_session_id n) (omega arith) (omega arith) chars in
    (
      long,
      short,
      same,
      unfold session_id keep_valid in (rw (trim-id_char (gen_session_id n) chars, ok)),
    )
