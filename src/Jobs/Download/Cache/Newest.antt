-- ===== src/Jobs/Download/Cache/Newest.antt =====
-- The walk ends, and what it finds is the newest GGUF file there is.
use llm_ctl.Base.{
  ℕ, zero, suc, ◌+◌, ◌≤◌, ◌<◌, ◌≡◌, refl, ap, sym, ◌∙◌, subst, Option, none, some, true, List, [],
  ◌∷◌, arith, if◌then◌else◌, Option-cases, ◌⊎◌, inl, inr,
}
use llm_ctl.Base.Text.{Text}
use llm_ctl.Jobs.Download.Cache.{Entry, consider, visit, walk, path_of, base_of, resolve_gguf}
use llm_ctl.Jobs.Download.Cache.Visit.{
  Has, AtMost, IsFile, visit-AtMost, visit-AtMost_files, visit-cases, visit-stack, visit-stack_dirs,
  visit-stack_only,
}

-- The weights of the directories among some entries, and of those on a stack.
abbrev pub weight_of : (Text → ℕ) → List Entry → ℕ
weight_of size [] = 0
weight_of size (e ∷ es) = (if e.is_dir then size e.path else 0) + weight_of size es

abbrev weight_on : (Text → ℕ) → List Text → ℕ
weight_on size [] = 0
weight_on size (p ∷ ps) = size p + weight_on size ps

module _ (extension : Text → Option Text) (read_dir : Text → Option (List Entry)) where
  -- A GGUF file that stands in a directory, or in one below it.
  pub data Below (f : Entry) : Text → Type 0 where
    within :
        {dir : Text} (es : List Entry)
        → read_dir dir ≡ some es
        → Has f es
        → IsFile extension f
        → Below f dir
    under :
        {dir : Text} (es : List Entry) (d : Entry)
        → read_dir dir ≡ some es
        → Has d es
        → d.is_dir ≡ true
        → Below f d.path
        → Below f dir

  walk_unreadable :
      (fuel : ℕ) (dir : Text) (stack : List Text) (best : Option (Text × ℕ))
      → read_dir dir ≡ none
      → walk extension read_dir (suc fuel) (dir ∷ stack) best
        ≡ walk extension read_dir fuel stack best
  unfolding walk
  walk_unreadable fuel dir stack best h = rw (h, walk) refl

  walk_read :
      (fuel : ℕ) (dir : Text) (stack : List Text) (best : Option (Text × ℕ)) (es : List Entry)
      → read_dir dir ≡ some es
      → walk extension read_dir (suc fuel) (dir ∷ stack) best
        ≡ walk extension read_dir fuel
            (visit extension es stack best).0
            (visit extension es stack best).1
  unfolding walk
  walk_read fuel dir stack best es h = rw (h, walk) refl

  -- The best never gets older.
  walk-AtMost :
      (fuel : ℕ) (stack : List Text) (best r : Option (Text × ℕ)) (n : ℕ)
      → walk extension read_dir fuel stack best ≡ some r
      → AtMost n best
      → AtMost n r
  walk-AtMost zero stack best r n e h = unfold walk in cc
  walk-AtMost (suc fuel) [] best r n e h =
      let same : best ≡ r = unfold walk in cc in subst (AtMost n) same h
  walk-AtMost (suc fuel) (dir ∷ stack) best r n e h = elim (Option-cases (read_dir dir)) [
    | inl bad ↦
        walk-AtMost fuel stack best r n (sym (walk_unreadable fuel dir stack best bad) ∙ e) h
    | inr (es, read) ↦
        walk-AtMost fuel (visit extension es stack best).0 (visit extension es stack best).1 r n
          (sym (walk_read fuel dir stack best es read) ∙ e)
          (visit-AtMost extension es stack best n h)
  ]

  same_entries :
      (dir : Text) (es es' : List Entry)
      → read_dir dir ≡ some es
      → read_dir dir ≡ some es'
      → es' ≡ es
  same_entries dir es es' h k = cc

  -- Every file below the stack is as old as the result, or older.
  walk-AtMost_all :
      (fuel : ℕ) (stack : List Text) (best r : Option (Text × ℕ)) (dir : Text) (f : Entry)
      → walk extension read_dir fuel stack best ≡ some r
      → Has dir stack
      → Below f dir
      → AtMost f.mtime r
  walk-AtMost_all zero stack best r dir f e h b = unfold walk in cc
  walk-AtMost_all (suc fuel) [] best r dir f e h b = elim h [ ]
  walk-AtMost_all (suc fuel) (top ∷ stack) best r dir f e (inr on) b =
      elim (Option-cases (read_dir top)) [
        | inl bad ↦
            walk-AtMost_all fuel stack best r dir f
              (sym (walk_unreadable fuel top stack best bad) ∙ e) on b
        | inr (es, read) ↦
            walk-AtMost_all fuel (visit extension es stack best).0 (visit extension es stack best).1
              r dir f (sym (walk_read fuel top stack best es read) ∙ e)
              (visit-stack extension es stack best dir on) b
      ]
  walk-AtMost_all (suc fuel) (top ∷ stack) best r dir f e (inl here) (within es read has file) =
      let top_read : read_dir top ≡ some es = subst (λ p. read_dir p ≡ some es) here read in
      walk-AtMost fuel (visit extension es stack best).0 (visit extension es stack best).1 r f.mtime
        (sym (walk_read fuel top stack best es top_read) ∙ e)
        (visit-AtMost_files extension es stack best f has file)
  walk-AtMost_all (suc fuel) (top ∷ stack) best r dir f e (inl here)
        (under es d read has is_dir b) =
      let top_read : read_dir top ≡ some es = subst (λ p. read_dir p ≡ some es) here read in
      walk-AtMost_all fuel (visit extension es stack best).0 (visit extension es stack best).1 r
        d.path f (sym (walk_read fuel top stack best es top_read) ∙ e)
        (visit-stack_dirs extension es stack best d has is_dir) b

  -- The result is the best so far, or a file below the stack.
  FoundOn : List Text → Option (Text × ℕ) → Type 0
  FoundOn stack r =
      (f : Entry) × (dir : Text) × Has dir stack × Below f dir × (r ≡ some (f.path, f.mtime))

  found_in_top :
      (es : List Entry) (top : Text) (stack : List Text) (best r : Option (Text × ℕ))
      → read_dir top ≡ some es
      → FoundOn (visit extension es stack best).0 r
      → FoundOn (top ∷ stack) r
  unfolding FoundOn
  found_in_top es top stack best r read (f, dir, on, b, e) =
      elim (visit-stack_only extension es stack best dir on) [
        | inl old ↦ (f, dir, inr old, b, e)
        | inr (d, has, is_dir, same) ↦
            (f, top, inl refl, under es d read has is_dir (subst (Below f) same b), e)
      ]

  walk-cases :
      (fuel : ℕ) (stack : List Text) (best r : Option (Text × ℕ))
      → walk extension read_dir fuel stack best ≡ some r
      → (r ≡ best) ⊎ FoundOn stack r
  unfolding FoundOn
  walk-cases zero stack best r e = unfold walk in cc
  walk-cases (suc fuel) [] best r e = inl (unfold walk in cc)
  walk-cases (suc fuel) (top ∷ stack) best r e = elim (Option-cases (read_dir top)) [
    | inl bad ↦
        elim (walk-cases fuel stack best r (sym (walk_unreadable fuel top stack best bad) ∙ e)) [
          | inl same ↦ inl same
          | inr (f, dir, on, b, k) ↦ inr (f, dir, inr on, b, k)
        ]
    | inr (es, read) ↦
        let (stack', best') = visit extension es stack best in
        elim (walk-cases fuel stack' best' r (sym (walk_read fuel top stack best es read) ∙ e)) [
          | inr found ↦ inr (found_in_top es top stack best r read found)
          | inl same ↦ elim (visit-cases extension es stack best) [
            | inl old ↦ inl (same ∙ old)
            | inr (f, has, file, new) ↦ inr (f, top, inl refl, within es read has file, same ∙ new)
          ]
        ]
  ]

  module _ (size : Text → ℕ) where
    visit-weight_on :
        (es : List Entry) (stack : List Text) (best : Option (Text × ℕ))
        → weight_on size (visit extension es stack best).0
          ≡ weight_of size es + weight_on size stack
    unfolding visit
    visit-weight_on [] stack best = omega arith
    visit-weight_on (e ∷ es) stack best = ground (
      arith,
      visit-weight_on es (if e.is_dir then e.path ∷ stack else stack)
          (if e.is_dir then best else consider extension e best),
    )

    walk_total :
        (fuel : ℕ) (stack : List Text) (best : Option (Text × ℕ))
        → ((dir : Text) → 0 < size dir)
        → ((dir : Text) (es : List Entry) → read_dir dir ≡ some es → weight_of size es < size dir)
        → weight_on size stack < fuel
        → (r : Option (Text × ℕ)) × (walk extension read_dir fuel stack best ≡ some r)
    walk_total zero stack best pos shrinks h = absurd (omega arith)
    walk_total (suc fuel) [] best pos shrinks h = (best, unfold walk in refl)
    walk_total (suc fuel) (top ∷ stack) best pos shrinks h = elim (Option-cases (read_dir top)) [
      | inl bad ↦
          let (r, e) = walk_total fuel stack best pos shrinks (omega (arith, pos top)) in
          (r, walk_unreadable fuel top stack best bad ∙ e)
      | inr (es, read) ↦
          let (stack', best') = visit extension es stack best in
          let (r, e) =
            walk_total fuel stack' best' pos shrinks
              (omega (arith, shrinks top es read, visit-weight_on es stack best)) in
          (r, walk_read fuel top stack best es read ∙ e)
    ]

    -- The two answers of the search, from those of the walk.
    resolve_gguf-cases :
        (join : Text → Text → Text) (fuel : ℕ) (cache repo : Text) (r : Option (Text × ℕ))
        → let base : Text = base_of join cache repo in
          (walk extension read_dir fuel (base ∷ []) none ≡ some r)
          → (r ≡ none) ⊎ FoundOn (base ∷ []) r
          → ((f : Entry) × (resolve_gguf extension read_dir join fuel cache repo ≡ some f.path)
              × Below f base
              × ((g : Entry) → Below g base → g.mtime ≤ f.mtime))
            ⊎ ((resolve_gguf extension read_dir join fuel cache repo ≡ none)
                × ((g : Entry) → Below g base → ⊥))
    unfolding resolve_gguf path_of FoundOn
    resolve_gguf-cases join fuel cache repo r e (inl same) =
        let base : Text = base_of join cache repo in
        inr (
          ap path_of (e ∙ ap some same),
          λ g b.
              subst (AtMost g.mtime) same
                (walk-AtMost_all fuel (base ∷ []) none r base g e (inl refl) b),
        )
    resolve_gguf-cases join fuel cache repo r e (inr (f, dir, inl here, b, k)) =
        let base : Text = base_of join cache repo in
        inl (
          f,
          ap path_of (e ∙ ap some k),
          subst (Below f) here b,
          λ g c.
              subst (AtMost g.mtime) k
                (walk-AtMost_all fuel (base ∷ []) none r base g e (inl refl) c),
        )
    resolve_gguf-cases join fuel cache repo r e (inr (f, dir, inr off, b, k)) = elim off [ ]

    -- Where no directory leads back to itself, so that each weighs more than those in it, fuel above
    -- the weight of the repo's directory is enough. If the answer is a path, it is that of a GGUF
    -- file below that directory, and no GGUF file below it is newer; if there is none, there is no
    -- such file.
    pub resolve_gguf_newest :
        (join : Text → Text → Text) (fuel : ℕ) (cache repo : Text)
        → ((dir : Text) → 0 < size dir)
        → ((dir : Text) (es : List Entry) → read_dir dir ≡ some es → weight_of size es < size dir)
        → size (base_of join cache repo) < fuel
        → let base : Text = base_of join cache repo in
          ((f : Entry) × (resolve_gguf extension read_dir join fuel cache repo ≡ some f.path)
            × Below f base
            × ((g : Entry) → Below g base → g.mtime ≤ f.mtime))
          ⊎ ((resolve_gguf extension read_dir join fuel cache repo ≡ none)
              × ((g : Entry) → Below g base → ⊥))
    resolve_gguf_newest join fuel cache repo pos shrinks h =
        let base : Text = base_of join cache repo in
        let (r, e) = walk_total fuel (base ∷ []) none pos shrinks (omega (arith, h)) in
        resolve_gguf-cases join fuel cache repo r e (walk-cases fuel (base ∷ []) none r e)
