-- ===== src/Jobs/Download/Files.antt =====
-- src/download.rs, `list_files`: a repo's GGUF files by size.
use llm_ctl.Base.{ℕ, Option, none, some, List, [], ◌∷◌, ◌++◌, if◌then◌else◌}
use llm_ctl.Base.Text.{Text, lit, ends_with}
use llm_ctl.External.{Json}

-- What the HF API answers, up to the JSON value.
pub data Listing (V : Type 0) : Type 0 where
  unreachable bad_body : Text → Listing V
  refused : Text → Listing V  -- a status other than 2xx, as it is shown
  answered : V → Listing V

pub data Listed : Type 0 where
  files : List (Text × ℕ) → Listed
  error : Text → Listed

or_zero : Option ℕ → ℕ
or_zero none = 0
or_zero (some n) = n

module _ {V F : Type 0} (j : Json V F) where
  pub size_of : V → ℕ
  unfolding or_zero
  size_of e = elim (j.get e "size") [ none ↦ 0 | some v ↦ or_zero (j.as_u64 v) ]

  pub path_of : V → Option Text
  path_of e = elim (j.get e "path") [ none ↦ none | some v ↦ j.as_str v ]

  unfoldable pub entry : V → Option (Text × ℕ)
  unfolding size_of path_of
  entry e = elim (path_of e) [
    | none ↦ none
    | some p ↦ if ends_with p (lit ".gguf") then some (p, size_of e) else none
  ]

  unfoldable pub entries : List V → List (Text × ℕ)
  unfolding entry
  entries [] = []
  entries (e ∷ es) = elim (entry e) [ none ↦ entries es | some f ↦ f ∷ entries es ]

  -- `sort` stands for `sort_by_key` with the size as the key.
  unfoldable pub list_files : (List (Text × ℕ) → List (Text × ℕ)) → Text → Listing V → Listed
  unfolding entries
  list_files sort repo (unreachable e) = error (lit "HF API unreachable: " ++ e)
  list_files sort repo (bad_body e) = error (lit "bad HF API response: " ++ e)
  list_files sort repo (refused status) = error (
      lit "HF API "
      ++ (status ++ (lit " for repo '" ++ (repo ++ lit "' (not found / not a model?)"))))
  list_files sort repo (answered v) = elim (j.as_array v) [
    | none ↦ error (lit "unexpected HF API payload")
    | some es ↦ files (sort (entries es))
  ]
