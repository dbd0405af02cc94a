-- ===== src/Supervisor/Metrics.antt =====
-- src/supervisor.rs, `parse_metrics`: the Prometheus text format as a dictionary. The keys' order in
-- the JSON object is not modelled; `parse_f64` stands for `str::parse::<f64>`.
use llm_ctl.Base.{ℕ, Option, none, some, Bool, ◌||◌, List, [], ◌∷◌, if◌then◌else◌}
use llm_ctl.Base.Text.{Text, text_eq, is_whitespace, is_empty, trim, lines, lit, starts_with}

-- `Map::insert`: a key that is there keeps its place and takes the new value.
module _ {V : Type 0} where
  unfoldable pub insert : Text → V → List (Text × V) → List (Text × V)
  insert k v [] = (k, v) ∷ []
  insert k v ((j, w) ∷ m) = if text_eq j k then (k, v) ∷ m else (j, w) ∷ insert k v m

  unfoldable pub lookup : Text → List (Text × V) → Option V
  lookup k [] = none
  lookup k ((j, v) ∷ m) = if text_eq j k then some v else lookup k m

prepend : ℕ → Option (Text × Text) → Option (Text × Text)
prepend c none = none
prepend c (some (a, b)) = some (c ∷ a, b)

-- `split_once(char::is_whitespace)`.
unfoldable pub split_once : (ℕ → Bool) → Text → Option (Text × Text)
unfolding prepend
split_once p [] = none
split_once p (c ∷ s) = if p c then some ([], s) else prepend c (split_once p s)

module _ {F : Type 0} (parse_f64 : Text → Option F) where
  value_of : Text → Text → Option (Text × F)
  value_of name val = elim (parse_f64 val) [ none ↦ none | some f ↦ some (name, f) ]

  -- The sample that a line gives, if it gives one.
  unfoldable pub sample : Text → Option (Text × F)
  unfolding value_of
  sample raw =
      let line = trim raw in
      if is_empty line || starts_with line (lit "#")
      then none
      else elim (split_once is_whitespace line) [
        | none ↦ none
        | some (name, val) ↦ value_of name val
      ]

  keep_sample : Option (Text × F) → List (Text × F) → List (Text × F)
  keep_sample none m = m
  keep_sample (some (name, f)) m = insert name f m

  unfoldable pub parse_lines : List Text → List (Text × F) → List (Text × F)
  unfolding keep_sample
  parse_lines [] m = m
  parse_lines (l ∷ ls) m = parse_lines ls (keep_sample (sample l) m)

  unfoldable pub parse_metrics : Text → List (Text × F)
  unfolding parse_lines
  parse_metrics text = parse_lines (lines text) []
