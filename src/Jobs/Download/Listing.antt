-- ===== src/Jobs/Download/Listing.antt =====
-- The listing is sorted by size, and holds each GGUF file of the answer once.
use mathlib.Core.List.{Perm}
use llm_ctl.Base.{ℕ, ◌≤◌, ◌≡◌, none, some, true, false, List, [], ◌∷◌}
use llm_ctl.Base.Text.{Text, lit, ends_with}
use llm_ctl.External.{Json}
use llm_ctl.Jobs.Download.Files.{size_of, path_of}

unfoldable pub AllAbove : ℕ → List (Text × ℕ) → Type 0
AllAbove n [] = Unit
AllAbove n (f ∷ fs) = (n ≤ f.1) × AllAbove n fs

-- No file stands before a smaller one.
unfoldable pub IsAscending : List (Text × ℕ) → Type 0
IsAscending [] = Unit
IsAscending (f ∷ fs) = AllAbove f.1 fs × IsAscending fs

-- What is relied on of `sort_by_key`: it rearranges the list, by ascending size.
pub record Sorts (sort : List (Text × ℕ) → List (Text × ℕ)) : Type 0 where
  pub rearranges : (fs : List (Text × ℕ)) → Perm (sort fs) fs
  pub ascends : (fs : List (Text × ℕ)) → IsAscending (sort fs)

module _ {V F : Type 0} (j : Json V F) where
  -- The files of a list of JSON values, in order: those values whose path ends with `.gguf`, each with
  -- its size; the values without such a path are left out.
  pub data Picks : List V → List (Text × ℕ) → Type 0 where
    over : Picks [] []
    taken :
        {e : V} {es : List V} {fs : List (Text × ℕ)} (p : Text)
        → path_of j e ≡ some p
        → ends_with p (lit ".gguf") ≡ true
        → Picks es fs
        → Picks (e ∷ es) ((p, size_of j e) ∷ fs)
    other :
        {e : V} {es : List V} {fs : List (Text × ℕ)} (p : Text)
        → path_of j e ≡ some p
        → ends_with p (lit ".gguf") ≡ false
        → Picks es fs
        → Picks (e ∷ es) fs
    pathless :
        {e : V} {es : List V} {fs : List (Text × ℕ)}
        → path_of j e ≡ none
        → Picks es fs
        → Picks (e ∷ es) fs
