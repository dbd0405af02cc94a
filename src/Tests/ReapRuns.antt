-- ===== src/Tests/ReapRuns.antt =====
-- A run of the reaper.
use mathlib.Core.Logic.{◌↔◌}
use llm_ctl.Base.{ℕ, ◌≡◌, refl, Option, none, some, List, [], ◌∷◌, map, ◌==◌, if◌then◌else◌}
use llm_ctl.Base.Text.{Text, lit, text_eq}
use llm_ctl.Supervisor.Lifecycle.{Signal, term, kill}
use llm_ctl.Reap.{Os, is_server, llama_server_pids, signal_all, reap_legacy_llama}
use llm_ctl.Reap.Ownership.{In, Server, reap_legacy_llama-owns}

pub record Process : Type 0 where
  pub dir : Text
  pub pid : ℕ
  pub name : Text

abbrev pub process : Text → ℕ → Text → Process
process dir pid name = record { dir = dir; pid = pid; name = name }

abbrev pub comm_of : ℕ → List Process → Option Text
comm_of p [] = none
comm_of p (x ∷ xs) = let rest = comm_of p xs in if x.pid == p then some x.name else rest

abbrev pub without : ℕ → List Process → List Process
without p [] = []
without p (x ∷ xs) = let rest = without p xs in if x.pid == p then rest else x ∷ rest

-- Every process ignores SIGTERM.
abbrev pub signalled : Signal → List Process → List Process
signalled (term p) ps = ps
signalled (kill p) ps = without p ps

abbrev pub os : Os (List Process)
os = record {
  read_dir = λ ps. some (some (lit "self") ∷ map (λ x. some x.dir) ps);
  comm = comm_of;
  signal = signalled;
  sleep = λ n ps. ps;
}

abbrev pub table : List Process
unfolding lit
table =
    process (lit "1") 1 (lit "systemd")
    ∷ process (lit "50") 50 (lit "llama-server\n")
    ∷ process (lit "60") 60 (lit "llama-server\n")
    ∷ process (lit "70") 70 (lit "llm-ctl\n")
    ∷ []

reap_legacy_llama-owns_example :
    let first = llama_server_pids os 70 table in
    let rested = os.sleep 3 (signal_all os 70 term first table) in
    let (s', killed) = reap_legacy_llama os 70 table in
    (In 60 first ↔ Server os 70 table 60)
    × (In 60 killed ↔ Server os 70 rested 60)
    × (s' ≡ signal_all os 70 kill killed rested)
reap_legacy_llama-owns_example = reap_legacy_llama-owns os 70 table 60

table_runs : reap_legacy_llama os 70 table ≡ (
  process (lit "1") 1 (lit "systemd") ∷ process (lit "70") 70 (lit "llm-ctl\n") ∷ [],
  50 ∷ 60 ∷ [],
)
unfolding reap_legacy_llama is_server lit text_eq
table_runs = refl
