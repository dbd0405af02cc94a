-- ===== src/Api/Guard.antt =====
-- What a request that does not carry the panel's header can do.
use llm_ctl.Base.{
  ℕ, ◌≡◌, refl, ap, Option, none, some, true, false, Bool-cases, inl, inr, Option-cases, ◌⊎◌,
}
use llm_ctl.External.{Json, Floats}
use llm_ctl.Store.Tables.{Tables}
use llm_ctl.Proxy.Http.{Method, post, is_post}
use llm_ctl.Daemon.{Daemon}
use llm_ctl.Api.Messages.{
  Endpoint, Access, ApiRequest, ApiWorld, health, session_test, takes, access,
}
use llm_ctl.Api.Writes.{handle_session_test, test_counted}
use llm_ctl.Api.{ctl_ok, read, run_handler, require_ctl_header, serve}

not_both : {A : Type 0} (m : Method) → m ≡ post → is_post m ≡ false → A
not_both m e h = let posted : is_post m ≡ true = ap is_post e in cc

wrong_both :
    {A : Type 0} (a : Access) (m : Method) → m ≡ post → takes a post ≡ true → takes a m ≡ false → A
wrong_both a m e t h = let same : takes a m ≡ takes a post = ap (takes a) e in cc

module _ {V F : Type 0} where
  -- Only the database's tables differ.
  pub OnlyTables : Daemon V F → Daemon V F → Type 0
  OnlyTables d d' =
      (t : Tables V F) × (d' ≡ record d { database = record (d.database) { tables = t } })

module _ {V F C : Type 0} (j : Json V F) (fl : Floats F) (w : ApiWorld V F C) where
  test_counted_only :
      (d : Daemon V F) (r : Tables V F × Option ℕ) → OnlyTables d (test_counted j fl w d r).0
  unfolding OnlyTables test_counted
  test_counted_only d (t, none) = (t, refl)
  test_counted_only d (t, some n) = (t, refl)

  session_test_only : (d : Daemon V F) → OnlyTables d (handle_session_test j fl w d).0
  unfolding handle_session_test
  session_test_only d = elim (Option-cases w.connect) [
    | inl up ↦ elim (Option-cases w.migrate) [
      | inl fine ↦ rw (up, fine, handle_session_test) (test_counted_only d _)
      | inr (e, failed) ↦
          rw (up, failed, handle_session_test) (unfold OnlyTables in (d.database.tables, refl))
    ]
    | inr (e, failed) ↦
        rw (failed, handle_session_test) (unfold OnlyTables in (d.database.tables, refl))
  ]

  -- A GET handler changes nothing, but for that of the session test.
  read_only :
      (q : ApiRequest V) (e : Endpoint) (d : Daemon V F)
      → OnlyTables d (read j fl w q e d).0 × ((e ≡ session_test) ⊎ ((read j fl w q e d).0 ≡ d))
  unfolding read OnlyTables
  read_only q session_test d = (session_test_only d, inl refl)
  read_only q health d = ((d.database.tables, refl), inr refl)
  read_only q _ d = ((d.database.tables, refl), inr refl)

  same : (d : Daemon V F) → OnlyTables d d
  unfolding OnlyTables
  same d = (d.database.tables, refl)

  -- A request without the header X-LLM-CTL: 1 changes nothing of the daemon but the store's tables,
  -- and those only through the GET route of the session test; if it is a POST to a route that
  -- takes one, it is answered with 403.
  pub serve_unmarked :
      (q : ApiRequest V) (d : Daemon V F)
      → ctl_ok q.headers ≡ false
      → let (d', r) = serve j fl w q d in
        OnlyTables d d'
        × ((q.endpoint ≡ session_test) ⊎ (d' ≡ d))
        × (q.method ≡ post → takes (access q.endpoint) post ≡ true → r.status ≡ 403)
  unfolding serve require_ctl_header run_handler
  serve_unmarked q d h = elim (Bool-cases (takes (access q.endpoint) q.method)) [
    | inl taken ↦ elim (Bool-cases (is_post q.method)) [
      | inl posted ↦ rw (taken, posted, h, serve) (same d, inr refl, λ m t. refl)
      | inr gets ↦
          let (only, tested) = read_only q q.endpoint d in
          rw (taken, gets, serve) (only, tested, λ m t. not_both q.method m gets)
    ]
    | inr wrong ↦
        rw (wrong, serve)
          (same d, inr refl, λ m t. wrong_both (access q.endpoint) q.method m t wrong)
  ]
