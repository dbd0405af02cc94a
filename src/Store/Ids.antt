-- ===== src/Store/Ids.antt =====
-- What a client's session id may do to the store.
pub mod Generated
use llm_ctl.Base.{
  ℕ, ◌^◌, ◌%◌, ◌≤◌, ◌<◌, ◌≡◌, refl, ◌⊎◌, inl, inr, Option, none, some, true, [], ◌∷◌, arith, ap,
  leb, all, length, Bool-cases, &&_elim, leb→le,
}
use llm_ctl.Base.Int.{pos}
use llm_ctl.Base.Text.{Text, is_ascii_alphanumeric, bytes, char_bytes, trim}
use llm_ctl.Store.Session.{id_char, valid_session_id, session_id, session_lock_key, fnv, keep_valid}

id_char-ascii : (c : ℕ) → id_char c ≡ true → char_bytes c ≡ c ∷ []
unfolding is_ascii_alphanumeric char_bytes
id_char-ascii c h = ground arith

pub all_ascii : (s : Text) → all id_char s ≡ true → bytes s ≡ s
unfolding bytes all
all_ascii [] h = refl
all_ascii (c ∷ s) h =
    let (first, others) = &&_elim (id_char c) (all id_char s) h in
    rw (id_char-ascii c first) (ap (◌∷◌ c) (all_ascii s others))

valid_session_id-parts :
    (t : Text)
    → valid_session_id t ≡ true
    → (0 < length t) × (length t ≤ 64) × (all id_char t ≡ true)
unfolding valid_session_id
valid_session_id-parts [] h = cc
valid_session_id-parts (c ∷ t) h =
    let (short, ok) = &&_elim (leb (length (bytes (c ∷ t))) 64) (all id_char (c ∷ t)) h in
    (omega arith, leb→le _ 64 (rw (all_ascii (c ∷ t) ok) at short), ok)

keep_valid-cases :
    (t generated : Text)
    → (keep_valid t generated ≡ generated)
      ⊎ ((valid_session_id t ≡ true) × (keep_valid t generated ≡ t))
unfolding keep_valid
keep_valid-cases t generated = elim (Bool-cases (valid_session_id t)) [
  | inl ok ↦ inr (ok, rw ok refl)
  | inr bad ↦ inl (rw bad refl)
]

-- The id that a session is bound to is either the generated one, or the client's with the white
-- space around it taken off; and in the second case it is not empty, has at most 64 characters, and
-- each of them is an ASCII letter or digit, a dash or an underscore.
pub session_id-cases :
    (client_id : Option Text) (generated : Text)
    → (session_id client_id generated ≡ generated)
      ⊎ ((s : Text) × (client_id ≡ some s)
          × (session_id client_id generated ≡ trim s)
          × (0 < length (trim s))
          × (length (trim s) ≤ 64)
          × (all id_char (trim s) ≡ true))
session_id-cases none generated = inl (unfold session_id in refl)
session_id-cases (some s) generated = elim (keep_valid-cases (trim s) generated) [
  | inl e ↦ inl (unfold session_id in e)
  | inr (ok, e) ↦
      let (some_char, short, chars) = valid_session_id-parts (trim s) ok in
      inr (s, refl, unfold session_id in e, some_char, short, chars)
]

-- The lock's key is never negative, and so fits its `i64`.
pub session_lock_key_bounds : (sid : Text) → (n : ℕ) × (session_lock_key sid ≡ pos n) × (n < 2 ^ 63)
unfolding session_lock_key
session_lock_key_bounds sid =
    let h : ℕ = fnv 0xcbf29ce484222325 (bytes sid) in (h % 2 ^ 63, refl, omega arith)
