-- ===== src/Tests/ListingRuns.antt =====
-- A listing, with the insertion sort for `sort_by_key`, over entries that are plain texts.
use mathlib.Core.List.{Perm}
use mathlib.Core.List.Perm
use llm_ctl.Base.{
  ℕ, String, ◌≡◌, refl, Option, none, some, List, [], ◌∷◌, leb, length, if◌then◌else◌,
}
use text.Mathlib.Text.{◌==◌ as str_eq}
use llm_ctl.Base.Text.{Text, lit, ends_with}
use llm_ctl.External.{Json}
use llm_ctl.Jobs.Download.Files.{files, answered, list_files}

insert_by_size : Text × ℕ → List (Text × ℕ) → List (Text × ℕ)
insert_by_size f [] = f ∷ []
insert_by_size f (g ∷ gs) =
    let rest = insert_by_size f gs in if leb f.1 g.1 then f ∷ g ∷ gs else g ∷ rest

unfoldable pub sort_by_size : List (Text × ℕ) → List (Text × ℕ)
unfolding insert_by_size
sort_by_size [] = []
sort_by_size (f ∷ fs) = insert_by_size f (sort_by_size fs)

-- A value is its path, whose length is the size; `repo` is the array of two files and a text.
abbrev value_at : Text → String → Option Text
value_at t k = if str_eq k "path" then some t else if str_eq k "size" then some t else none

abbrev listed_values : List Text
listed_values = lit "longer.gguf" ∷ lit "README.md" ∷ lit "a.gguf" ∷ []

abbrev listing_json : Json Text ℕ
listing_json = record {
  get = value_at;
  get_index = λ v i. none;
  as_str = λ v. some v;
  as_bool = λ v. none;
  as_i64 = λ v. none;
  as_f64 = λ v. none;
  as_u64 = λ v. some (length v);
  as_array = λ v. some listed_values;
  from_slice = λ bytes. none;
  slice_error = λ bytes. [];
  from_str = λ t. none;
}

listing_runs :
    list_files listing_json sort_by_size (lit "r") (answered (lit "all"))
    ≡ files ((lit "a.gguf", 6) ∷ (lit "longer.gguf", 11) ∷ [])
unfolding list_files sort_by_size ends_with lit
listing_runs = refl
