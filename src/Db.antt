-- ===== src/Db.antt =====
-- src/db.rs: the probe of the database's TCP port. The URL parser is reqwest's and a parameter; so is
-- std's parser of an IPv6 address with its port, which begins with a bracket.
pub mod Names
use llm_ctl.Base.{
  ℕ, zero, suc, ◌+◌, ◌-◌, ◌*◌, ◌/◌, ◌%◌, Option, none, some, Bool, true, false, not, ◌&&◌, ◌||◌,
  List, [], ◌∷◌, ◌++◌, length, ltb, leb, ◌==◌, if◌then◌else◌,
}
use llm_ctl.Base.Text.{Text, lit, is_empty, starts_with}

infixl 5 ◌>>=◌
abbrev pub ◌>>=◌ : {A B : Type 0} → Option A → (A → Option B) → Option B
none >>= f = none
some a >>= f = f a

abbrev pub is_digit : ℕ → Bool
is_digit c = leb b'0' c && leb c b'9'

-- The longest run of digits, and the rest.
unfoldable pub span_digits : Text → Text × Text
span_digits [] = ([], [])
span_digits (c ∷ s) =
    let (ds, rest) = span_digits s in if is_digit c then (c ∷ ds, rest) else ([], c ∷ s)

unfoldable pub value : ℕ → Text → ℕ
value n [] = n
value n (c ∷ s) = value (n * 10 + (c - b'0')) s

-- Three digits at most, with no zero before others.
unfoldable pub is_octet : Text → Bool
unfolding value starts_with
is_octet ds =
    not (is_empty ds)
    && leb (length ds) 3
    && ltb (value 0 ds) 256
    && not (starts_with ds (b'0' ∷ []) && ltb 1 (length ds))

unfoldable pub is_port : Text → Bool
unfolding value
is_port ds = not (is_empty ds) && ltb (value 0 ds) 65536

-- `read_number` of std's parser of addresses.
unfoldable pub number : (Text → Bool) → Text → Option (ℕ × Text)
unfolding span_digits value
number ok t = let (ds, rest) = span_digits t in if ok ds then some (value 0 ds, rest) else none

-- `read_given_char`.
unfoldable pub given : ℕ → Text → Option Text
given c [] = none
given c (d ∷ s) = if d == c then some s else none

unfoldable pub at_end : Text → Option (Unit {0})
at_end [] = some tt
at_end (c ∷ s) = none

pub data SocketAddr : Type 0 where
  v4 : ℕ → ℕ → ℕ → ℕ → ℕ → SocketAddr
  v6 : Text → ℕ → SocketAddr

unfoldable pub parse_v4 : Text → Option SocketAddr
unfolding number is_octet is_port given at_end
parse_v4 t = do
  (a, t₁) ← number is_octet t
  t₂ ← given b'.' t₁
  (b, t₃) ← number is_octet t₂
  t₄ ← given b'.' t₃
  (c, t₅) ← number is_octet t₄
  t₆ ← given b'.' t₅
  (d, t₇) ← number is_octet t₆
  t₈ ← given b':' t₇
  (port, t₉) ← number is_port t₈
  done ← at_end t₉
  some (v4 a b c d port)

-- `str::parse::<SocketAddr>`.
unfoldable pub parse_addr : (Text → Option SocketAddr) → Text → Option SocketAddr
unfolding parse_v4 starts_with
parse_addr parse_v6 t = elim (parse_v4 t) [
  | some a ↦ some a
  | none ↦ if starts_with t (b'[' ∷ []) then parse_v6 t else none
]

-- A `u16` in decimal, before other digits.
unfoldable pub decimal : ℕ → ℕ → Text → Text
decimal zero n out = out
decimal (suc f) n out =
    let more = decimal f (n / 10) ((b'0' + n % 10) ∷ out) in
    if ltb n 10 then (b'0' + n) ∷ out else more

pub record Url : Type 0 where
  pub host_str : Option Text
  pub port : Option ℕ

pub data Connection : Type 0 where
  in_time : Connection
  refused : Text → Connection
  too_late : Connection  -- not within three seconds

pub data Probed : Type 0 where
  ok : Probed
  bad_url no_host invalid_addr timeout : Probed
  not_connected : Text → Probed

port_or : ℕ → Option ℕ → ℕ
port_or n none = n
port_or n (some p) = p

unfoldable pub outcome : Connection → Probed
outcome in_time = ok
outcome (refused e) = not_connected e
outcome too_late = timeout

-- What the world answers to a probe.
pub record DbWorld : Type 0 where
  pub parse_url : Text → Option Url
  pub parse_v6 : Text → Option SocketAddr
  pub connect : SocketAddr → Connection

-- The text that is parsed as an address: `format!("{host}:{port}")`.
unfoldable pub addr_text : Text → Option ℕ → Text
unfolding decimal port_or
addr_text host port = host ++ (b':' ∷ decimal 5 (port_or 5432 port) [])

unfoldable pub connected : (SocketAddr → Connection) → Option SocketAddr → Probed
unfolding outcome
connected connect none = invalid_addr
connected connect (some a) = outcome (connect a)

unfoldable pub probe : DbWorld → Text → Probed
unfolding addr_text parse_addr connected
probe w pgurl = elim (w.parse_url pgurl) [
  | none ↦ bad_url
  | some url ↦ elim url.host_str [
    | none ↦ no_host
    | some host ↦ connected w.connect (parse_addr w.parse_v6 (addr_text host url.port))
  ]
]

-- `.is_ok()`.
abbrev pub is_up : Probed → Bool
is_up ok = true
is_up _ = false
