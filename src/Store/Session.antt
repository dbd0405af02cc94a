-- ===== src/Store/Session.antt =====
-- src/store.rs: session ids and the key of their advisory lock.
use llm_ctl.Base.{
  ℕ, zero, suc, ◌+◌, ◌-◌, ◌/◌, ltb, ◌*◌, ◌%◌, ◌^◌, Option, none, some, Bool, ◌&&◌, ◌||◌, not, List,
  [], ◌∷◌, leb, ◌==◌, if◌then◌else◌, all, length,
}
use llm_ctl.Base.Int.{ℤ, pos}
use llm_ctl.Base.Text.{Text, is_empty, is_ascii_alphanumeric, bytes, trim}
use Prim.Native.Nat.{bit_xor}

abbrev pub id_char : ℕ → Bool
id_char c = is_ascii_alphanumeric c || c == b'-' || c == b'_'

-- `s.len()` counts bytes.
unfoldable pub valid_session_id : Text → Bool
unfolding is_ascii_alphanumeric
valid_session_id s = not (is_empty s) && leb (length (bytes s)) 64 && all id_char s

unfoldable pub keep_valid : Text → Text → Text
unfolding valid_session_id
keep_valid s generated = if valid_session_id s then s else generated

-- A digit of `{:x}`.
unfoldable pub hex_digit : ℕ → ℕ
hex_digit d = if ltb d 10 then b'0' + d else b'a' + (d - 10)

-- The hexadecimal digits of a number, before others; a `u64` has sixteen at most.
unfoldable pub hex : ℕ → ℕ → Text → Text
unfolding hex_digit
hex zero n out = out
hex (suc f) n out =
    let more = hex f (n / 16) (hex_digit (n % 16) ∷ out) in
    if ltb n 16 then hex_digit n ∷ out else more

unfoldable pub zeros : ℕ → Text → Text
zeros zero s = s
zeros (suc k) s = b'0' ∷ zeros k s

-- `format!("{:012x}", n)`, of the random `u64`.
unfoldable pub gen_session_id : ℕ → Text
unfolding hex zeros
gen_session_id n = let s = hex 16 n [] in zeros (12 - length s) s

-- The id that `resolve_session` settles on; `generated` is what `gen_session_id` answers.
unfoldable pub session_id : Option Text → Text → Text
unfolding keep_valid
session_id none generated = generated
session_id (some s) generated = keep_valid (trim s) generated

-- FNV-1a over the bytes, from the hash `h`; `wrapping_mul` on a `u64`.
unfoldable pub fnv : ℕ → List ℕ → ℕ
fnv h [] = h
fnv h (b ∷ bs) = fnv (bit_xor h b * 0x100000001b3 % 2 ^ 64) bs

-- Masking by `i64::MAX` keeps the low 63 bits.
unfoldable pub session_lock_key : Text → ℤ
unfolding fnv
session_lock_key sid = pos (fnv 0xcbf29ce484222325 (bytes sid) % 2 ^ 63)
