-- ===== src/Tests/CacheRuns.antt =====
-- A search of a small cache.
use llm_ctl.Base.{
  ℕ, ◌<◌, ◌≤◌, ◌≡◌, refl, Option, none, some, true, false, List, [], ◌∷◌, ◌++◌, ◌==◌, ◌⊎◌, arith,
  Bool-cases, if◌then◌else◌, inl, inr,
}
use llm_ctl.Base.Text.{Text, lit, text_eq}
use llm_ctl.Jobs.Download.Cache.{Entry, resolve_gguf, base_of}
use llm_ctl.Jobs.Download.Cache.Newest.{weight_of, Below, resolve_gguf_newest}

abbrev after_dot : Text → Option Text
after_dot [] = none
after_dot (c ∷ s) = if c == b'.' then some s else after_dot s

abbrev join : Text → Text → Text
join dir name = dir ++ b'/' ∷ name

abbrev base : Text
unfolding lit
base = lit "c/hub/models--o--m"

abbrev snapshot : Text
unfolding lit
snapshot = lit "c/hub/models--o--m/s"

abbrev top_entries : List Entry
unfolding lit
top_entries =
    record { path = lit "old.gguf"; is_dir = false; mtime = 3 }
    ∷ record { path = snapshot; is_dir = true; mtime = 9 }
    ∷ []

abbrev snapshot_entries : List Entry
unfolding lit
snapshot_entries =
    record { path = lit "new.gguf"; is_dir = false; mtime = 5 }
    ∷ record { path = lit "readme.md"; is_dir = false; mtime = 7 }
    ∷ []

abbrev read_dir : Text → Option (List Entry)
read_dir p =
    if text_eq p base
    then some top_entries
    else if text_eq p snapshot
    then some snapshot_entries
    else none

abbrev size : Text → ℕ
size p = if text_eq p base then 2 else 1

size-pos : (dir : Text) → 0 < size dir
size-pos dir = elim (Bool-cases (text_eq dir base)) [
  | inl here ↦ rw here (omega arith)
  | inr not_here ↦ rw not_here (omega arith)
]

size-shrinks :
    (dir : Text) (es : List Entry) → read_dir dir ≡ some es → weight_of size es < size dir
unfolding text_eq base snapshot top_entries snapshot_entries lit
size-shrinks dir es e = elim (Bool-cases (text_eq dir base)) [
  | inl here ↦
      let here' : read_dir dir ≡ some top_entries = rw here refl in
      let same : top_entries ≡ es = cc in rw (← same, here) (omega arith)
  | inr not_here ↦ elim (Bool-cases (text_eq dir snapshot)) [
    | inl inside ↦
        let inside' : read_dir dir ≡ some snapshot_entries = rw (not_here, inside) refl in
        let same : snapshot_entries ≡ es = cc in rw (← same, not_here) (omega arith)
    | inr outside ↦ (let outside' : read_dir dir ≡ none = rw (not_here, outside) refl in absurd cc)
  ]
]

abbrev answer : Option Text
unfolding resolve_gguf
answer = resolve_gguf after_dot read_dir join 3 (lit "c") (lit "o/m")

resolve_gguf_newest_example :
    ((f : Entry) × (answer ≡ some f.path)
      × Below after_dot read_dir f base
      × ((g : Entry) → Below after_dot read_dir g base → g.mtime ≤ f.mtime))
    ⊎ ((answer ≡ none) × ((g : Entry) → Below after_dot read_dir g base → ⊥))
unfolding text_eq answer resolve_gguf base base_of
resolve_gguf_newest_example =
    resolve_gguf_newest after_dot read_dir size join 3 (lit "c") (lit "o/m") size-pos size-shrinks
      (omega arith)
