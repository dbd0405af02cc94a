-- ===== src/Tests/PveRuns.antt =====
-- Runs of the Proxmox client.
use llm_ctl.Base.{◌≡◌, refl, Option, none, some, List, [], ◌∷◌, ◌++◌, map}
use llm_ctl.Base.Text.{Text, lit}
use llm_ctl.Pve.{Lxc, ok, Builder, PveWorld, list_containers, read_secret, blocks, certificates}
use llm_ctl.Pve.Pem.{armored, bundle, readable, dashless, certificates-bundle}
use llm_ctl.Pve.Pinning.{IsPinned, AllTagged, list_containers-IsPinned}
use llm_ctl.Tests.World.{config}

-- The parser takes everything, and a certificate is its text.
abbrev whole : Text → Option Text
whole block = some block

abbrev bodies : List Text
bodies = lit "AB" ∷ lit "C" ∷ []

certificates-bundle_example :
    (blocks (lit "pve" ++ bundle bodies) ≡ map armored bodies)
    × (certificates whole (blocks (lit "pve" ++ bundle bodies)) ≡ readable whole bodies)
unfolding lit dashless
certificates-bundle_example = certificates-bundle whole (lit "pve") bodies refl (refl, (refl, tt))

abbrev lxc : Text → Lxc
lxc tags = record { vmid = 101; name = lit "pg"; status = lit "running"; tags = tags }

abbrev pub pve_world : PveWorld Text
pve_world = record {
  env_secret = none;
  home = some (lit "/h");
  keys = some (lit "A=1\nPROXMOX_AGENT_ADMIN = s \n");
  read = λ path. some (bundle bodies);
  from_pem = whole;
  get = λ b url auth. some (lit "x");
  parse = λ answer. some (lxc (lit "llm") ∷ lxc (lit "other") ∷ []);
}

abbrev shown : List Lxc
shown = lxc (lit "llm") ∷ []

list_containers-IsPinned_example :
    (path : Text) × (pem : Text) × (secret : Text) × (b : Builder Text) × (answer : Text)
    × (read_secret none (some (lit "/h")) pve_world.keys ≡ ok secret)
    × (some (lit "~/c.pem") ≡ some path)
    × (some (bundle bodies) ≡ some pem)
    × IsPinned whole pem b
    × (some (lit "x") ≡ some answer)
    × AllTagged (lit "llm") shown
unfolding lit list_containers bundle
list_containers-IsPinned_example = list_containers-IsPinned pve_world config shown refl
