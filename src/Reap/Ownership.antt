-- ===== src/Reap/Ownership.antt =====
-- Which processes the reaper signals, and in which of the two rounds.
use mathlib.Core.Logic.{◌↔◌}
use llm_ctl.Base.{
  ℕ, ◌≡◌, ◌≢◌, refl, sym, ◌⊎◌, inl, inr, Option, none, some, true, List, [], ◌∷◌, arith,
  Option-cases,
}
use llm_ctl.Base.Text.{Text}
use llm_ctl.Supervisor.Lifecycle.{term, kill}
use llm_ctl.Reap.{
  Os, parse_u32, is_server, or_empty, server_pid, scan, llama_server_pids, signal_all,
  reap_legacy_llama,
}

abbrev pub In : {A : Type 0} → A → List A → Type 0
In a [] = ⊥
In a (x ∷ xs) = (a ≡ x) ⊎ In a xs

module _ {S : Type 0} (os : Os S) (self : ℕ) where
  abbrev pub Found : S → ℕ → Text → Type 0
  Found s p name = (parse_u32 name ≡ some p) × (p ≢ self) × (is_server (os.comm p s) ≡ true)

  server_pid-Found :
      (s : S) (e : Option Text) (p : ℕ)
      → server_pid os self s e ≡ some p
      → (name : Text) × (e ≡ some name) × Found s p name
  unfolding server_pid
  server_pid-Found s none p h = cc
  server_pid-Found s (some name) p h = (name, refl, (ground arith, ground arith, ground arith))

  Found-server_pid :
      (s : S) (name : Text) (p : ℕ) → Found s p name → server_pid os self s (some name) ≡ some p
  unfolding server_pid
  Found-server_pid s name p f = ground arith

  In-scan :
      (s : S) (es : List (Option Text)) (p : ℕ)
      → In p (scan os self s es)
      → (name : Text) × In (some name) es × Found s p name
  unfolding scan
  In-scan s [] p h = absurd h
  In-scan s (e ∷ es) p h = elim (Option-cases (server_pid os self s e)) [
    | inl skipped ↦ let (name, i, f) = In-scan s es p (rw (skipped, scan) at h) in (name, inr i, f)
    | inr (q, taken) ↦ in_found q taken (In-scan s es p) (rw (taken, scan) at h)
  ]
    where
      in_found :
          (q : ℕ)
          → server_pid os self s e ≡ some q
          → (In p (scan os self s es) → (name : Text) × In (some name) es × Found s p name)
          → In p (q ∷ scan os self s es)
          → (name : Text) × In (some name) (e ∷ es) × Found s p name
      in_found q taken later (inl same) =
          let (name, i, f) = server_pid-Found s e p (rw same taken) in (name, inl (sym i), f)
      in_found q taken later (inr there) = let (name, i, f) = later there in (name, inr i, f)

  scan-In :
      (s : S) (es : List (Option Text)) (p : ℕ) (name : Text)
      → In (some name) es
      → Found s p name
      → In p (scan os self s es)
  unfolding scan
  scan-In s [] p name h f = absurd h
  scan-In s (e ∷ es) p name (inl here) f = rw (← here, Found-server_pid s name p f, scan) (inl refl)
  scan-In s (e ∷ es) p name (inr later) f = elim (Option-cases (server_pid os self s e)) [
    | inl skipped ↦ rw (skipped, scan) (scan-In s es p name later f)
    | inr (q, taken) ↦ rw (taken, scan) (inr (scan-In s es p name later f))
  ]

  -- A process of another program's: it is listed under its pid, is not the daemon itself, and has
  -- the name of the server.
  pub Server : S → ℕ → Type 0
  Server s p = (name : Text) × In (some name) (or_empty (os.read_dir s)) × Found s p name

  llama_server_pids-Server : (s : S) (p : ℕ) → In p (llama_server_pids os self s) ↔ Server s p
  unfolding llama_server_pids Server
  llama_server_pids-Server s p = (
    In-scan s (or_empty (os.read_dir s)) p,
    λ (name, i, f). scan-In s (or_empty (os.read_dir s)) p name i f,
  )

  -- The reaper sends SIGTERM exactly to the llama-servers that are listed at its start and are not
  -- the daemon itself, and SIGKILL, three seconds later, exactly to those that are listed then,
  -- whatever the signals have done; the pids that it returns are the latter.
  pub reap_legacy_llama-owns :
      (s : S) (p : ℕ)
      → let first = llama_server_pids os self s in
        let rested = os.sleep 3 (signal_all os self term first s) in
        let (s', killed) = reap_legacy_llama os self s in
        (In p first ↔ Server s p)
        × (In p killed ↔ Server rested p)
        × (s' ≡ signal_all os self kill killed rested)
  unfolding reap_legacy_llama
  reap_legacy_llama-owns s p =
      let rested = os.sleep 3 (signal_all os self term (llama_server_pids os self s) s) in
      (llama_server_pids-Server s p, llama_server_pids-Server rested p, refl)
