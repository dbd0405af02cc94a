-- ===== src/Jobs/Download/Cache.antt =====
-- src/download.rs, `resolve_gguf`: the newest GGUF file under a repo's directory of the cache.
pub mod Visit
pub mod Newest
use llm_ctl.Base.{
  ℕ, zero, suc, Option, none, some, Bool, true, false, List, [], ◌∷◌, ◌++◌, ltb, ◌==◌, map,
  if◌then◌else◌,
}
use llm_ctl.Base.Text.{Text, lit, text_eq}
use llm_ctl.Supervisor.State.{is_text}

-- An entry that `read_dir` gives, with the seconds of its modification time, 0 if there is none.
pub record Entry : Type 0 where
  pub path : Text
  pub is_dir : Bool
  pub mtime : ℕ

-- `repo.replace('/', "--")`.
dashed : Text → Text
unfolding lit
dashed [] = []
dashed (c ∷ s) = if c == b'/' then lit "--" ++ dashed s else c ∷ dashed s

-- The first of the newest stays.
unfoldable pub newer : Entry → Option (Text × ℕ) → Option (Text × ℕ)
newer e none = some (e.path, e.mtime)
newer e (some (p, m)) = if ltb m e.mtime then some (e.path, e.mtime) else some (p, m)

unfoldable pub path_of : Option (Option (Text × ℕ)) → Option Text
path_of none = none
path_of (some none) = none
path_of (some (some (p, m))) = some p

-- `join` puts a name under a directory.
unfoldable pub base_of : (Text → Text → Text) → Text → Text → Text
unfolding dashed lit
base_of join cache repo = join (join cache (lit "hub")) (lit "models--" ++ dashed repo)

-- `extension` is that of the standard library's paths.
module _ (extension : Text → Option Text) where
  unfoldable pub is_gguf : Entry → Bool
  unfolding lit
  is_gguf e = is_text (extension e.path) (lit "gguf")

  unfoldable pub consider : Entry → Option (Text × ℕ) → Option (Text × ℕ)
  unfolding is_gguf newer
  consider e best = if is_gguf e then newer e best else best

  -- The loop over the entries of one directory; the stack's top stands first.
  unfoldable pub visit : List Entry → List Text → Option (Text × ℕ) → List Text × Option (Text × ℕ)
  visit [] stack best = (stack, best)
  visit (e ∷ es) stack best =
      visit es (if e.is_dir then e.path ∷ stack else stack)
        (if e.is_dir then best else consider e best)

  module _ (read_dir : Text → Option (List Entry)) where
    -- The loop over the stack, on fuel; `none` means that it ran out. A directory that cannot be read
    -- is passed over.
    unfoldable pub walk : ℕ → List Text → Option (Text × ℕ) → Option (Option (Text × ℕ))
    unfolding visit consider
    walk zero stack best = none
    walk (suc fuel) [] best = some best
    walk (suc fuel) (dir ∷ stack) best = elim (read_dir dir) [
      | none ↦ walk fuel stack best
      | some es ↦ let (stack', best') = visit es stack best in walk fuel stack' best'
    ]

    unfoldable pub resolve_gguf : (Text → Text → Text) → ℕ → Text → Text → Option Text
    unfolding walk path_of base_of
    resolve_gguf join fuel cache repo = path_of (walk fuel (base_of join cache repo ∷ []) none)
