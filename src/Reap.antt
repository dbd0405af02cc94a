-- ===== src/Reap.antt =====
-- src/reap.rs: taking over from any llama-server that runs already. What the operating system does is
-- a parameter: `S` is the type of its state, and a scan of /proc sees one state.
pub mod Ownership
use llm_ctl.Base.{
  ℕ, ◌+◌, ◌-◌, ◌*◌, ◌^◌, Option, none, some, Bool, ◌&&◌, List, [], ◌∷◌, ltb, leb, ◌==◌,
  if◌then◌else◌,
}
use llm_ctl.Base.Text.{Text, lit, text_eq, trim}
use llm_ctl.Supervisor.Lifecycle.{Signal, term, kill}

pub record Os (S : Type 0) : Type 0 where
  pub read_dir : S → Option (List (Option Text))  -- the names in /proc, where they can be read
  pub comm : ℕ → S → Option Text  -- the file /proc/{pid}/comm
  pub signal : Signal → S → S  -- a run of /bin/kill
  pub sleep : ℕ → S → S  -- so many seconds

-- The digits of `str::parse::<u32>`, after the number `n`.
unfoldable pub parse_digits : ℕ → Text → Option ℕ
parse_digits n [] = some n
parse_digits n (c ∷ s) =
    let rest = parse_digits (n * 10 + (c - b'0')) s in
    if (leb b'0' c && leb c b'9') && ltb (n * 10 + (c - b'0')) (2 ^ 32) then rest else none

unfoldable pub parse_u32 : Text → Option ℕ
unfolding parse_digits
parse_u32 [] = none
parse_u32 (c ∷ []) = parse_digits 0 (c ∷ [])
parse_u32 (c ∷ d ∷ s) = parse_digits 0 (if c == b'+' then d ∷ s else c ∷ d ∷ s)

abbrev pub server_name : Text
server_name = lit "llama-server"

-- `comm.trim() == "llama-server"`, where the file can be read.
unfoldable pub is_server : Option Text → Bool
unfolding trim
is_server none = Bool.false
is_server (some c) = text_eq (trim c) server_name

abbrev pub or_empty : Option (List (Option Text)) → List (Option Text)
or_empty none = []
or_empty (some es) = es

module _ {S : Type 0} (os : Os S) (self : ℕ) where
  -- What the loop's body makes of one name.
  unfoldable pub server_pid : S → Option Text → Option ℕ
  unfolding parse_u32 is_server
  server_pid s none = none
  server_pid s (some name) = elim (parse_u32 name) [
    | none ↦ none
    | some pid ↦ if pid == self then none else if is_server (os.comm pid s) then some pid else none
  ]

  unfoldable pub scan : S → List (Option Text) → List ℕ
  unfolding server_pid
  scan s [] = []
  scan s (e ∷ es) =
      let rest = scan s es in elim (server_pid s e) [ none ↦ rest | some pid ↦ pid ∷ rest ]

  unfoldable pub llama_server_pids : S → List ℕ
  unfolding scan
  llama_server_pids s = scan s (or_empty (os.read_dir s))

  unfoldable pub signal_all : (ℕ → Signal) → List ℕ → S → S
  signal_all sig [] s = s
  signal_all sig (p ∷ ps) s = signal_all sig ps (os.signal (sig p) s)

  -- The state afterwards, and the pids that were sent SIGKILL.
  unfoldable pub reap_legacy_llama : S → S × List ℕ
  unfolding llama_server_pids signal_all
  reap_legacy_llama s =
      let rested = os.sleep 3 (signal_all term (llama_server_pids s) s) in
      let killed = llama_server_pids rested in (signal_all kill killed rested, killed)
