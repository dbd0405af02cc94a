-- ===== src/Jobs/Download/Cache/Visit.antt =====
-- What the entries of one directory do to the stack and to the best file so far.
use llm_ctl.Base.{
  ℕ, ◌≤◌, ◌≡◌, refl, sym, ◌∙◌, subst, Option, none, some, Bool, true, false, List, [], ◌∷◌, ltb,
  arith, if◌then◌else◌, Bool-cases, ◌⊎◌, inl, inr,
}
use llm_ctl.Base.Text.{Text}
use llm_ctl.Jobs.Download.Cache.{Entry, is_gguf, newer, consider, visit}

abbrev pub Has : {A : Type 0} → A → List A → Type 0
Has a [] = ⊥
Has a (x ∷ xs) = (a ≡ x) ⊎ Has a xs

-- A file as new as the result is, or older.
abbrev pub AtMost : ℕ → Option (Text × ℕ) → Type 0
AtMost n none = ⊥
AtMost n (some (p, m)) = n ≤ m

newer-AtMost :
    (e : Entry) (best : Option (Text × ℕ)) (n : ℕ) → AtMost n best → AtMost n (newer e best)
unfolding newer
newer-AtMost e none n h = elim h [ ]
newer-AtMost e (some (p, m)) n h = elim (Bool-cases (ltb m e.mtime)) [
  | inl newest ↦ rw newest (ground arith)
  | inr older ↦ rw older h
]

newer-AtMost_self : (e : Entry) (best : Option (Text × ℕ)) → AtMost e.mtime (newer e best)
unfolding newer
newer-AtMost_self e none = omega arith
newer-AtMost_self e (some (p, m)) = elim (Bool-cases (ltb m e.mtime)) [
  | inl newest ↦ rw newest (omega arith)
  | inr older ↦ rw older (ground arith)
]

newer-cases :
    (e : Entry) (best : Option (Text × ℕ))
    → (newer e best ≡ best) ⊎ (newer e best ≡ some (e.path, e.mtime))
unfolding newer
newer-cases e none = inr refl
newer-cases e (some (p, m)) = elim (Bool-cases (ltb m e.mtime)) [
  | inl newest ↦ rw newest (inr refl)
  | inr older ↦ rw older (inl refl)
]

module _ (extension : Text → Option Text) where
  abbrev pub IsFile : Entry → Type 0
  IsFile f = (f.is_dir ≡ false) × (is_gguf extension f ≡ true)

  abbrev pub next_best : Entry → Option (Text × ℕ) → Option (Text × ℕ)
  next_best e best = if e.is_dir then best else consider extension e best

  next_best-AtMost :
      (e : Entry) (best : Option (Text × ℕ)) (n : ℕ) → AtMost n best → AtMost n (next_best e best)
  unfolding consider
  next_best-AtMost e best n h = elim (Bool-cases e.is_dir) [
    | inl dir ↦ rw dir h
    | inr file ↦ elim (Bool-cases (is_gguf extension e)) [
      | inl gguf ↦ rw (file, gguf) (newer-AtMost e best n h)
      | inr not_gguf ↦ rw (file, not_gguf) h
    ]
  ]

  next_best-AtMost_self :
      (e : Entry) (best : Option (Text × ℕ)) → IsFile e → AtMost e.mtime (next_best e best)
  unfolding consider
  next_best-AtMost_self e best (file, gguf) = rw (file, gguf) (newer-AtMost_self e best)

  next_best-cases :
      (e : Entry) (best : Option (Text × ℕ))
      → (next_best e best ≡ best) ⊎ (IsFile e × (next_best e best ≡ some (e.path, e.mtime)))
  unfolding consider
  next_best-cases e best = elim (Bool-cases e.is_dir) [
    | inl dir ↦ rw dir (inl refl)
    | inr file ↦ elim (Bool-cases (is_gguf extension e)) [
      | inl gguf ↦ elim (newer-cases e best) [
        | inl same ↦ rw (file, gguf) (inl same)
        | inr new ↦ rw (file, gguf) (inr ((refl, refl), new))
      ]
      | inr not_gguf ↦ rw (file, not_gguf) (inl refl)
    ]
  ]

  -- After a directory's entries the best is as new as before, and as each of its files.
  pub visit-AtMost :
      (es : List Entry) (stack : List Text) (best : Option (Text × ℕ)) (n : ℕ)
      → AtMost n best
      → AtMost n (visit extension es stack best).1
  unfolding visit
  visit-AtMost [] stack best n h = h
  visit-AtMost (e ∷ es) stack best n h =
      visit-AtMost es (if e.is_dir then e.path ∷ stack else stack) (next_best e best) n
        (next_best-AtMost e best n h)

  pub visit-AtMost_files :
      (es : List Entry) (stack : List Text) (best : Option (Text × ℕ)) (f : Entry)
      → Has f es
      → IsFile f
      → AtMost f.mtime (visit extension es stack best).1
  unfolding visit
  visit-AtMost_files [] stack best f h k = elim h [ ]
  visit-AtMost_files (e ∷ es) stack best f (inl same) k =
      visit-AtMost es (if e.is_dir then e.path ∷ stack else stack) (next_best e best) f.mtime (
        subst (λ x. AtMost x.mtime (next_best e best)) (sym same)
          (next_best-AtMost_self e best (subst IsFile same k)))
  visit-AtMost_files (e ∷ es) stack best f (inr later) k =
      visit-AtMost_files es (if e.is_dir then e.path ∷ stack else stack) (next_best e best) f later
        k

  -- What the best is after them.
  pub visit-cases :
      (es : List Entry) (stack : List Text) (best : Option (Text × ℕ))
      → let b = (visit extension es stack best).1 in
        (b ≡ best) ⊎ ((f : Entry) × Has f es × IsFile f × (b ≡ some (f.path, f.mtime)))
  unfolding visit
  visit-cases [] stack best = inl refl
  visit-cases (e ∷ es) stack best =
      elim (visit-cases es (if e.is_dir then e.path ∷ stack else stack) (next_best e best)) [
        | inl same ↦ elim (next_best-cases e best) [
          | inl old ↦ inl (same ∙ old)
          | inr (k, new) ↦ inr (e, inl refl, k, same ∙ new)
        ]
        | inr (f, later, k, b) ↦ inr (f, inr later, k, b)
      ]

  -- The stack afterwards: what was on it, and the directories.
  pub visit-stack :
      (es : List Entry) (stack : List Text) (best : Option (Text × ℕ)) (p : Text)
      → Has p stack
      → Has p (visit extension es stack best).0
  unfolding visit
  visit-stack [] stack best p h = h
  visit-stack (e ∷ es) stack best p h =
      visit-stack es (if e.is_dir then e.path ∷ stack else stack) (next_best e best) p
        (pushed e.is_dir h)
    where
      pushed : (b : Bool) → Has p stack → Has p (if b then e.path ∷ stack else stack)
      pushed true k = inr k
      pushed false k = k

  pub visit-stack_dirs :
      (es : List Entry) (stack : List Text) (best : Option (Text × ℕ)) (d : Entry)
      → Has d es
      → d.is_dir ≡ true
      → Has d.path (visit extension es stack best).0
  unfolding visit
  visit-stack_dirs [] stack best d h k = elim h [ ]
  visit-stack_dirs (e ∷ es) stack best d (inl same) k =
      visit-stack es (if e.is_dir then e.path ∷ stack else stack) (next_best e best) d.path
        (rw (← same, k) (inl refl))
  visit-stack_dirs (e ∷ es) stack best d (inr later) k =
      visit-stack_dirs es (if e.is_dir then e.path ∷ stack else stack) (next_best e best) d later k

  pub visit-stack_only :
      (es : List Entry) (stack : List Text) (best : Option (Text × ℕ)) (p : Text)
      → Has p (visit extension es stack best).0
      → Has p stack ⊎ ((d : Entry) × Has d es × (d.is_dir ≡ true) × (p ≡ d.path))
  unfolding visit
  visit-stack_only [] stack best p h = inl h
  visit-stack_only (e ∷ es) stack best p h =
      elim (visit-stack_only es (if e.is_dir then e.path ∷ stack else stack) (next_best e best) p
        h) [
          | inl on ↦ pushed e.is_dir refl on
          | inr (d, later, k, same) ↦ inr (d, inr later, k, same)
        ]
    where
      pushed :
          (b : Bool)
          → e.is_dir ≡ b
          → Has p (if b then e.path ∷ stack else stack)
          → Has p stack ⊎ ((d : Entry) × Has d (e ∷ es) × (d.is_dir ≡ true) × (p ≡ d.path))
      pushed true k (inl same) = inr (e, inl refl, k, same)
      pushed true k (inr on) = inl on
      pushed false k on = inl on
