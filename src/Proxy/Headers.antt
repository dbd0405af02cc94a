-- ===== src/Proxy/Headers.antt =====
-- Which of a client's headers reach the worker.
use llm_ctl.Base.{
  ◌≡◌, refl, ap, ◌∙◌, Option, none, some, true, false, List, [], ◌∷◌, ◌++◌, arith, Bool-cases, inl,
  inr, if◌then◌else◌,
}
use llm_ctl.Base.Text.{Text, text_eq, text_eq→eq, text_eq_refl}
use llm_ctl.Proxy.Http.{
  hop_request, drop_header, insert_header, filter_into, filtered_headers, header,
}

abbrev Headers : Type 0
Headers = List (Text × Text)

abbrev or_value : Option Text → Option Text → Option Text
or_value none d = d
or_value (some v) d = some v

-- The value of the last header of a name.
pub last_value : Text → Headers → Option Text
last_value k [] = none
last_value k ((j, v) ∷ hs) = or_value (last_value k hs) (if text_eq j k then some v else none)

header-append :
    (k : Text) (hs hs' : Headers) → header k (hs ++ hs') ≡ or_value (header k hs) (header k hs')
unfolding header
header-append k [] hs' = refl
header-append k ((j, v) ∷ hs) hs' = ground (arith, header-append k hs hs')

header-drop_self : (k : Text) (hs : Headers) → header k (drop_header k hs) ≡ none
unfolding header drop_header
header-drop_self k [] = refl
header-drop_self k ((j, v) ∷ hs) = ground (arith, header-drop_self k hs)

eq_of-text_eq : (i j k : Text) → text_eq i j ≡ true → text_eq i k ≡ text_eq j k
eq_of-text_eq i j k h = ap (λ t. text_eq t k) (text_eq→eq i j h)

header-drop_other :
    (j k : Text) (hs : Headers) → text_eq j k ≡ false → header k (drop_header j hs) ≡ header k hs
unfolding header drop_header
header-drop_other j k [] h = refl
header-drop_other j k ((i, v) ∷ hs) h =
    ground (arith, header-drop_other j k hs h, eq_of-text_eq i j k)

or_value-none : (o : Option Text) → or_value o none ≡ o
or_value-none none = refl
or_value-none (some v) = refl

hop_of-text_eq : (j k : Text) → text_eq j k ≡ true → hop_request j ≡ hop_request k
hop_of-text_eq j k h = ap hop_request (text_eq→eq j k h)

header-insert :
    (j k v : Text) (hs : Headers)
    → header k (insert_header j v hs) ≡ (if text_eq j k then some v else header k hs)
unfolding insert_header
header-insert j k v hs = elim (Bool-cases (text_eq j k)) [
  | inl same ↦
      rw
        (
          same,
          header-append k (drop_header j hs) ((j, v) ∷ []),
          text_eq→eq j k same,
          header-drop_self k hs,
        )
        (unfold header in rw (text_eq_refl k) refl)
  | inr other ↦
      rw (other, header-append k (drop_header j hs) ((j, v) ∷ []), header-drop_other j k hs other)
        (unfold header in rw other (or_value-none (header k hs)))
]

header-filter_into :
    (k : Text) (out hs : Headers)
    → header k (filter_into out hs)
      ≡ (if hop_request k then header k out else or_value (last_value k hs) (header k out))
unfolding filter_into last_value
header-filter_into k out [] = ground arith
header-filter_into k out ((j, v) ∷ hs) = ground (
  arith,
  header-filter_into k out hs,
  header-filter_into k (insert_header j v out) hs,
  header-insert j k v out,
  hop_of-text_eq j k,
)

-- Of each name that is no hop-by-hop header's, the worker gets the value of the client's last header
-- of that name, and of a hop-by-hop header's name it gets none.
pub header-filtered_headers :
    (k : Text) (hs : Headers)
    → header k (filtered_headers hs) ≡ (if hop_request k then none else last_value k hs)
unfolding filtered_headers
header-filtered_headers k hs =
    header-filter_into k [] hs
    ∙ (unfold header in
        ap (λ o. if hop_request k then none else o) (or_value-none (last_value k hs)))
