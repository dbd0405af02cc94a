-- ===== src/Jobs/Download/Persisted.antt =====
-- What `persist_model` finds of the blocks that it wrote itself.
use llm_ctl.Base.{
  ℕ, ◌≡◌, refl, some, Bool, true, false, not, ◌&&◌, [], ◌∷◌, ◌++◌, arith, ◌==◌, if◌then◌else◌,
}
use llm_ctl.Base.Text.{Text, lit, is_empty, starts_with}
use mathlib.Core.List.{append_assoc}
use llm_ctl.Jobs.Download.{contains, needle_of, block_of, persist_model}

-- A text without that character.
abbrev pub lacks : ℕ → Text → Bool
lacks c [] = true
lacks c (x ∷ s) = not (x == c) && lacks c s

-- A line's end that is not in what is looked for.
starts_with-line :
    (n a b : Text) → lacks 10 n ≡ true → starts_with (a ++ 10 ∷ b) n ≡ starts_with a n
unfolding starts_with
starts_with-line [] a b h = refl
starts_with-line (y ∷ n) [] b h = ground arith
starts_with-line (y ∷ n) (x ∷ a) b h = ground (arith, starts_with-line n a b)

contains-line :
    (n a b : Text)
    → lacks 10 n ≡ true
    → is_empty n ≡ false
    → contains n a ≡ false
    → contains n b ≡ false
    → contains n (a ++ 10 ∷ b) ≡ false
unfolding contains starts_with
contains-line [] a b h e f g = cc
contains-line (y ∷ n) [] b h e f g =
    let none_here : starts_with (10 ∷ b) (y ∷ n) ≡ false = starts_with-line (y ∷ n) [] b h in
    rw none_here g
contains-line (y ∷ n) (x ∷ a) b h e f g =
    ground (arith, starts_with-line (y ∷ n) (x ∷ a) b h, contains-line (y ∷ n) a b h e)

-- What is looked for has a space, the text has none.
starts_with-spaced : (n a : Text) → lacks 32 a ≡ true → lacks 32 n ≡ false → starts_with a n ≡ false
unfolding starts_with
starts_with-spaced [] a h k = cc
starts_with-spaced (y ∷ n) [] h k = refl
starts_with-spaced (y ∷ n) (x ∷ a) h k = ground (arith, starts_with-spaced n a)

contains-spaced : (n a : Text) → lacks 32 a ≡ true → lacks 32 n ≡ false → contains n a ≡ false
unfolding contains
contains-spaced [] a h k = cc
contains-spaced (y ∷ n) [] h k = refl
contains-spaced (y ∷ n) (x ∷ a) h k =
    ground (arith, starts_with-spaced (y ∷ n) (x ∷ a), contains-spaced (y ∷ n) a)

-- Whether something stands behind the first quote.
abbrev goes_on : Text → Bool
goes_on [] = false
goes_on (y ∷ n) = if y == 34 then not (is_empty n) else goes_on n

starts_with-quoted :
    (n a : Text) → lacks 34 a ≡ true → goes_on n ≡ true → starts_with (a ++ 34 ∷ []) n ≡ false
unfolding starts_with
starts_with-quoted [] a h k = cc
starts_with-quoted (y ∷ []) [] h k = ground arith
starts_with-quoted (y ∷ z ∷ n) [] h k = ground arith
starts_with-quoted (y ∷ n) (x ∷ a) h k = ground (arith, starts_with-quoted n a)

contains-quoted :
    (n a : Text) → lacks 34 a ≡ true → goes_on n ≡ true → contains n (a ++ 34 ∷ []) ≡ false
unfolding contains
contains-quoted [] a h k = cc
contains-quoted (y ∷ n) [] h k =
    let none_here : starts_with (34 ∷ []) (y ∷ n) ≡ false = starts_with-quoted (y ∷ n) [] h k in
    rw none_here
contains-quoted (y ∷ n) (x ∷ a) h k =
    ground (arith, starts_with-quoted (y ∷ n) (x ∷ a), contains-quoted (y ∷ n) a)

lacks-append : (c : ℕ) (a b : Text) → lacks c a ≡ true → lacks c b ≡ true → lacks c (a ++ b) ≡ true
lacks-append c [] b h k = k
lacks-append c (x ∷ a) b h k = ground (arith, lacks-append c a b)

append-quote : (a : Text) → is_empty (a ++ 34 ∷ []) ≡ false
append-quote [] = refl
append-quote (x ∷ a) = refl

needle_of-goes_on : (id : Text) → goes_on (needle_of id) ≡ true
unfolding needle_of lit
needle_of-goes_on id = rw (append-quote id)

needle_of-line : (id : Text) → lacks 10 id ≡ true → lacks 10 (needle_of id) ≡ true
unfolding needle_of lit
needle_of-line id h = lacks-append 10 id (34 ∷ []) h refl

quoted : Text → Text → Text
quoted key value = key ++ (value ++ 34 ∷ [])

-- What `block_of` puts behind the first newline, line by line.
desc_lines : Text → Text
unfolding quoted
desc_lines desc = quoted (lit "description = \"") desc ++ 10 ∷ []

path_lines : Text → Text → Text
unfolding quoted desc_lines
path_lines path desc =
    quoted (lit "model       = \"") path ++ 10 ∷ (lit "autostart   = false" ++ 10 ∷ desc_lines desc)

block_lines : Text → Text → Text → Text
unfolding quoted path_lines
block_lines id path desc =
    lit "[[models]]" ++ 10 ∷ (quoted (lit "id          = \"") id ++ 10 ∷ path_lines path desc)

block_of-lines : (id path desc : Text) → block_of id path desc ≡ 10 ∷ block_lines id path desc
unfolding block_of block_lines quoted lit
block_of-lines id path desc = simp append_assoc

id_unfound :
    (id : Text)
    → lacks 32 id ≡ true
    → contains (needle_of id) (quoted (lit "id          = \"") id) ≡ false
unfolding quoted contains needle_of lit starts_with
id_unfound id spaces =
    contains-spaced (needle_of id) (id ++ 34 ∷ []) (lacks-append 32 id (34 ∷ []) spaces refl) refl

path_unfound :
    (id path : Text)
    → lacks 34 path ≡ true
    → contains (needle_of id) (quoted (lit "model       = \"") path) ≡ false
unfolding quoted contains needle_of lit starts_with
path_unfound id path h = contains-quoted (needle_of id) path h (needle_of-goes_on id)

desc_unfound :
    (id desc : Text)
    → lacks 34 desc ≡ true
    → contains (needle_of id) (quoted (lit "description = \"") desc) ≡ false
unfolding quoted contains needle_of lit starts_with
desc_unfound id desc h = contains-quoted (needle_of id) desc h (needle_of-goes_on id)

block_unfound :
    (id path desc : Text)
    → lacks 32 id ≡ true
    → lacks 10 id ≡ true
    → lacks 34 path ≡ true
    → lacks 34 desc ≡ true
    → contains (needle_of id) (block_lines id path desc) ≡ false
unfolding block_lines path_lines desc_lines contains needle_of lit starts_with
block_unfound id path desc spaces newlines p d =
    let n : Text = needle_of id in
    let ln = needle_of-line id newlines in
    let last =
      contains-line n (quoted (lit "description = \"") desc) [] ln refl (desc_unfound id desc d)
        refl in
    let rest = contains-line n (lit "autostart   = false") (desc_lines desc) ln refl refl last in
    let most =
      contains-line n (quoted (lit "model       = \"") path)
        (lit "autostart   = false" ++ 10 ∷ desc_lines desc) ln refl (path_unfound id path p) rest in
    let all =
      contains-line n (quoted (lit "id          = \"") id) (path_lines path desc) ln refl
        (id_unfound id spaces) most in
    contains-line n (lit "[[models]]")
      (quoted (lit "id          = \"") id ++ 10 ∷ path_lines path desc) ln refl refl all

-- For an id without space or newline and a path and a description without a quote, what is appended
-- for a model that the file does not have is not found again: the next time, it is appended again.
pub persist_model_again :
    (id path desc existing : Text)
    → lacks 32 id ≡ true
    → lacks 10 id ≡ true
    → lacks 34 path ≡ true
    → lacks 34 desc ≡ true
    → contains (needle_of id) existing ≡ false
    → let block = block_of id path desc in
      (persist_model true id path desc (some existing) ≡ some (existing ++ block))
      × (persist_model true id path desc (some (existing ++ block))
          ≡ some ((existing ++ block) ++ block))
unfolding persist_model needle_of lit
persist_model_again id path desc existing spaces newlines p d new =
    let unfound : contains (needle_of id) (existing ++ block_of id path desc) ≡ false =
      rw (block_of-lines id path desc) (
        contains-line (needle_of id) existing (block_lines id path desc)
          (needle_of-line id newlines) refl new (block_unfound id path desc spaces newlines p d)) in
    (rw (new, persist_model) refl, rw (unfound, persist_model) refl)
