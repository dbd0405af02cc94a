-- ===== src/System/ShuttingDown.antt =====
-- A daemon that shuts down goes on to do so, whatever happens.
use llm_ctl.Base.{ℕ, Bool, ◌≡◌, ◌∙◌, Option, none, some, true, List, [], ◌∷◌}
use llm_ctl.Base.Text.{Text}
use llm_ctl.External.{Json, Floats}
use llm_ctl.Config.{Worker}
use llm_ctl.Supervisor.Restarts.{step_down}
use llm_ctl.Store.Service.{Server}
use llm_ctl.Jobs.Download as Download
use llm_ctl.Jobs.Rebuild as Rebuild
use llm_ctl.System.{
  Site, Event, calls, proxies, rebuilds, downloads, supervises, scrapes, put_download, put_rebuild,
  step, run_system,
}
use llm_ctl.System.Parts.{IsFit, serve-Keeps}
use llm_ctl.System.Invariants.{IsSound, step_survived}

module _ {V F : Type 0} where
  abbrev pub Down : Option (Site V F) → Type 0
  Down none = Unit
  Down (some s) = s.daemon.shutting_down ≡ true

  put_rebuild-Down :
      (s : Site V F) (r : Option (Rebuild.Site F))
      → s.daemon.shutting_down ≡ true
      → Down (put_rebuild s r)
  put_rebuild-Down s none h = tt
  put_rebuild-Down s (some r) h = h

  put_download-Down :
      (s : Site V F) (r : Option (Download.Site F))
      → s.daemon.shutting_down ≡ true
      → Down (put_download s r)
  put_download-Down s none h = tt
  put_download-Down s (some r) h = h

module _ {V F C : Type 0} (j : Json V F) (decode : List ℕ → Text) (fl : Floats F)
    (servers : ℕ → Server V F) (alphanumeric : ℕ → Bool) (file_stem : Text → Option Text)
    (parse_f64 : Text → Option F) (base : Text) where
  step-Down :
      (w : Worker) (e : Event V F C) (s : Site V F)
      → IsFit fl s.daemon
      → s.daemon.shutting_down ≡ true
      → Down (step j decode fl servers alphanumeric file_stem parse_f64 w base e s)
  unfolding step
  step-Down w (calls q a) s f h = (serve-Keeps j fl a q s.daemon f).down ∙ h
  step-Down w (proxies e) s f h = h
  step-Down w (rebuilds e) s f h = put_rebuild-Down s (Rebuild.step e s.daemon.rebuild) h
  step-Down w (downloads x) s f h =
      put_download-Down s
        (Download.step alphanumeric file_stem (Download.ended x) s.daemon.download) h
  step-Down w (supervises o) s f h =
      (step_down w o (record { state = s.daemon.worker; shutting_down = s.daemon.shutting_down })
        h).1
  step-Down w (scrapes slots metrics) s f h = h

  -- Once the daemon is shutting down, it stays so.
  pub run_system-Down :
      (w : Worker) (es : List (Event V F C)) (s : Site V F)
      → IsSound j decode fl servers base s
      → s.daemon.shutting_down ≡ true
      → Down (run_system j decode fl servers alphanumeric file_stem parse_f64 w base es s)
  unfolding run_system
  run_system-Down w [] s h d = d
  run_system-Down w (e ∷ es) s h d =
      let (s₁, happens, sound) =
        step_survived j decode fl servers alphanumeric file_stem parse_f64 w base e s h in
      let down : s₁.daemon.shutting_down ≡ true = (rw happens at (step-Down w e s h.fit d)) in
      rw (happens, run_system) (run_system-Down w es s₁ sound down)
