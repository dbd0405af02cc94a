-- ===== src/System/Invariants.antt =====
-- What holds of the daemon through every history.
use llm_ctl.Base.{ℕ, ◌≡◌, refl, ap, Option, none, some, Bool, true, false, List, [], ◌∷◌}
use llm_ctl.Base.Text.{Text}
use llm_ctl.External.{Json, Floats}
use llm_ctl.Config.{Worker}
use llm_ctl.Store.Service.{Server, Database, service}
use llm_ctl.Proxy.Exclusion.History as History
use llm_ctl.Proxy.Storekeeping.{Holds, step-Holds}
use llm_ctl.Proxy.Storekeeping.Consistency.{IsOrderly, service-Keeps}
use llm_ctl.Jobs.Download as Download
use llm_ctl.Jobs.Download.Single as Downloads
use llm_ctl.Jobs.Rebuild as Rebuild
use llm_ctl.Jobs.Rebuild.Single as Rebuilds
use llm_ctl.Daemon.{Daemon, store_of, stored}
use llm_ctl.Api.{serve}
use llm_ctl.Api.Messages.{ApiRequest, ApiWorld}
use llm_ctl.Supervisor.State.{WorkerState}
use llm_ctl.Supervisor.Run as Supervisor
use llm_ctl.Supervisor.Health.{poll_slots}
use llm_ctl.System.{
  Site, Event, calls, proxies, rebuilds, downloads, supervises, scrapes, front_of, put_front,
  put_download, put_rebuild, put_supervisor, step, run_system,
}
use llm_ctl.System.Parts.{IsFit, serve-Keeps}

module _ {V F : Type 0} (fl : Floats F) where
  stored-IsOrderly :
      (db : Database V F) (o : Option (Database V F))
      → IsOrderly fl db
      → Holds (IsOrderly fl) o
      → IsOrderly fl (stored db o)
  stored-IsOrderly db none h k = h
  stored-IsOrderly db (some db') h k = k

  store_of-Holds :
      (up : Bool) (db : Database V F) → IsOrderly fl db → Holds (IsOrderly fl) (store_of up db)
  store_of-Holds true db h = h
  store_of-Holds false db h = tt

module _ {V F : Type 0} (j : Json V F) (decode : List ℕ → Text) (fl : Floats F)
    (servers : ℕ → Server V F) (base : Text) where
  -- At most one completion is in flight, the tables are orderly, one download runs at most and no
  -- two models share an id, and one rebuild is under way at most.
  pub record IsSound (s : Site V F) : Type 0 where
    pub exclusive : History.IsExclusive j decode fl (service fl servers) base (front_of s)
    pub fit : IsFit fl s.daemon

  IsExclusive-of_same :
      (f g : History.Front (Database V F) V F)
      → g.app.busy ≡ f.app.busy
      → g.flights ≡ f.flights
      → History.IsExclusive j decode fl (service fl servers) base f
      → History.IsExclusive j decode fl (service fl servers) base g
  IsExclusive-of_same f g e o h = rw (e, o) h

  abbrev pub Survives : Option (Site V F) → Type 0
  Survives r = (s' : Site V F) × (r ≡ some s') × IsSound s'

  proxied :
      (e : History.Event F) (s : Site V F)
      → IsSound s
      → Survives
          (some (put_front (History.step j decode fl (service fl servers) base e (front_of s)) s))
  proxied e s h =
      let f : History.Front (Database V F) V F =
        History.step j decode fl (service fl servers) base e (front_of s) in
      (
        put_front f s,
        refl,
        record {
          exclusive = IsExclusive-of_same f (front_of (put_front f s)) refl refl (
              History.step-IsExclusive j decode fl (service fl servers) base e (front_of s)
                h.exclusive);
          fit = record {
            orderly = stored-IsOrderly fl s.daemon.database f.app.store h.fit.orderly (
                step-Holds j fl (service fl servers) (IsOrderly fl) (service-Keeps fl servers)
                  decode base e (front_of s)
                  (store_of-Holds fl s.daemon.has_store s.daemon.database h.fit.orderly));
            downloads = h.fit.downloads;
            rebuilds = h.fit.rebuilds;
          };
        },
      )

  called :
      {C : Type 0} (q : ApiRequest V) (w : ApiWorld V F C) (s : Site V F)
      → IsSound s
      → Survives (some (record s { daemon = (serve j fl w q s.daemon).0 }))
  called q w s h =
      let d : Daemon V F = (serve j fl w q s.daemon).0 in
      let k = serve-Keeps j fl w q s.daemon h.fit in
      let s' : Site V F = record s { daemon = d } in
      (
        s',
        refl,
        record {
          exclusive = IsExclusive-of_same (front_of s) (front_of s') k.busy refl h.exclusive;
          fit = k.fit;
        },
      )

  -- A part of the daemon that the gate does not hang on is replaced.
  replaced :
      (s : Site V F) (d : Daemon V F)
      → d.busy ≡ s.daemon.busy
      → IsFit fl d
      → IsSound s
      → IsSound (record s { daemon = d })
  replaced s d e k h = record {
    exclusive =
        IsExclusive-of_same (front_of s) (front_of (record s { daemon = d })) e refl h.exclusive;
    fit = k;
  }

  rebuilt :
      (e : Rebuild.Event F) (s : Site V F)
      → IsSound s
      → Survives (put_rebuild s (Rebuild.step e s.daemon.rebuild))
  rebuilt e s h =
      let (r, happens, single) = Rebuilds.step-Kept e s.daemon.rebuild h.fit.rebuilds in
      (
        record s { daemon = record (s.daemon) { rebuild = r } },
        ap (put_rebuild s) happens,
        replaced s (record (s.daemon) { rebuild = r }) refl
            (record { orderly = h.fit.orderly; downloads = h.fit.downloads; rebuilds = single }) h,
      )

  downloaded :
      (alphanumeric : ℕ → Bool) (file_stem : Text → Option Text) (f : Download.Fetched F)
      (s : Site V F)
      → IsSound s
      → Survives (
          put_download s
            (Download.step alphanumeric file_stem (Download.ended f) s.daemon.download))
  downloaded alphanumeric file_stem f s h =
      let (d, happens, sound) =
        Downloads.step-Kept alphanumeric file_stem (Download.ended f) s.daemon.download
          h.fit.downloads in
      (
        record s { daemon = record (s.daemon) { download = d } },
        ap (put_download s) happens,
        replaced s (record (s.daemon) { download = d }) refl
            (record { orderly = h.fit.orderly; downloads = sound; rebuilds = h.fit.rebuilds }) h,
      )

  pub supervised :
      (s : Site V F) (st : WorkerState V F) (down : Bool)
      → IsSound s
      → IsSound (record s { daemon = record (s.daemon) { worker = st; shutting_down = down } })
  supervised s st down h =
      replaced s (record (s.daemon) { worker = st; shutting_down = down }) refl
        (record { orderly = h.fit.orderly; downloads = h.fit.downloads; rebuilds = h.fit.rebuilds })
        h

module _ {V F C : Type 0} (j : Json V F) (decode : List ℕ → Text) (fl : Floats F)
    (servers : ℕ → Server V F) (alphanumeric : ℕ → Bool) (file_stem : Text → Option Text)
    (parse_f64 : Text → Option F) (worker : Worker) (base : Text) where
  pub step_survived :
      (e : Event V F C) (s : Site V F)
      → IsSound j decode fl servers base s
      → Survives j decode fl servers base
          (step j decode fl servers alphanumeric file_stem parse_f64 worker base e s)
  unfolding step
  step_survived (calls q w) s h = called j decode fl servers base q w s h
  step_survived (proxies e) s h = proxied j decode fl servers base e s h
  step_survived (rebuilds e) s h = rebuilt j decode fl servers base e s h
  step_survived (downloads f) s h = downloaded j decode fl servers base alphanumeric file_stem f s h
  step_survived (supervises o) s h =
      let u : Supervisor.Supervisor V F =
        Supervisor.step worker o
          (record { state = s.daemon.worker; shutting_down = s.daemon.shutting_down }) in
      (put_supervisor u s, refl, supervised j decode fl servers base s u.state u.shutting_down h)
  step_survived (scrapes slots metrics) s h =
      let st : WorkerState V F = poll_slots parse_f64 slots metrics (λ x. x) s.daemon.worker in
      (
        record s { daemon = record (s.daemon) { worker = st } },
        refl,
        supervised j decode fl servers base s st s.daemon.shutting_down h,
      )

  -- Whatever requests reach the API and the proxy, however the proxy's handlers interleave at their
  -- awaits and whichever of its clients go away, whenever streams, downloads and rebuilds end, and
  -- whatever the supervisor does meanwhile, no task of a job panics, and a sound daemon stays sound:
  -- the gate is taken exactly if one completion holds the guard, and no more than one does; the
  -- tables are orderly; one download and one rebuild at most are under way; no two models share an
  -- id.
  pub run_system-IsSound :
      (es : List (Event V F C)) (s : Site V F)
      → IsSound j decode fl servers base s
      → (s' : Site V F) × (run_system j decode fl servers alphanumeric file_stem parse_f64 worker
            base es s
          ≡ some s')
        × IsSound j decode fl servers base s'
  unfolding run_system
  run_system-IsSound [] s h = (s, refl, h)
  run_system-IsSound (e ∷ es) s h =
      let (s₁, e₁, h₁) = step_survived e s h in
      let (s₂, e₂, h₂) = run_system-IsSound es s₁ h₁ in (s₂, rw (e₁, run_system) e₂, h₂)
