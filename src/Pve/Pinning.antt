-- ===== src/Pve/Pinning.antt =====
-- The Proxmox client trusts the pinned file and nothing else.
use llm_ctl.Base.{◌≡◌, ◌≢◌, refl, Option, none, some, false, List, [], ◌∷◌, inl, inr, Bool-cases}
use llm_ctl.Base.Text.{Text, text_eq, text_eq→eq}
use llm_ctl.Config.{Config, expand_tilde}
use llm_ctl.Pve.{
  Lxc, Result, ok, err, Error, ◌>>=◌, or_err, Builder, blocks, certificates, pinned, client,
  PveWorld, tagged, auth_of, url_of, read_secret, list_containers, no_cert_file, unreadable_cert,
  unreachable, bad_answer,
}

>>=-eq-ok :
    {A B : Type 0} (m : Result A) (f : A → Result B) (b : B)
    → (m >>= f) ≡ ok b
    → (a : A) × (m ≡ ok a) × (f a ≡ ok b)
>>=-eq-ok (ok a) f b h = (a, refl, h)
>>=-eq-ok (err e) f b h = cc

or_err-eq-ok : {A : Type 0} (e : Error) (o : Option A) (a : A) → or_err e o ≡ ok a → o ≡ some a
or_err-eq-ok e none a h = cc
or_err-eq-ok e (some b) a h = cc

-- Each container has the tag.
pub AllTagged : Text → List Lxc → Type 0
AllTagged tag [] = Unit
AllTagged tag (c ∷ cs) = (c.tags ≡ tag) × AllTagged tag cs

tagged-AllTagged : (tag : Text) (cs : List Lxc) → AllTagged tag (tagged tag cs)
unfolding tagged AllTagged
tagged-AllTagged tag [] = tt
tagged-AllTagged tag (c ∷ cs) = elim (Bool-cases (text_eq c.tags tag)) [
  | inl same ↦ rw same (text_eq→eq c.tags tag same, tagged-AllTagged tag cs)
  | inr other ↦ rw other (tagged-AllTagged tag cs)
]

module _ {C : Type 0} where
  -- What is trusted: the certificates of a file, at least one, and no built-in root.
  pub record IsPinned (from_pem : Text → Option C) (pem : Text) (b : Builder C) : Type 0 where
    pub alone : b.built_in_root_certs ≡ false
    pub roots : b.root_certificates ≡ certificates from_pem (blocks pem)
    pub some_root : b.root_certificates ≢ []

  pinned-eq :
      (from_pem : Text → Option C) (path : Text) (cs : List C) (b : Builder C)
      → pinned from_pem path cs ≡ ok b
      → (b.built_in_root_certs ≡ false) × (b.root_certificates ≡ cs) × (b.root_certificates ≢ [])
  unfolding pinned
  pinned-eq from_pem path [] b h = cc
  pinned-eq from_pem path (c ∷ cs) b h =
      let e : b
          ≡ record { timeout_secs = 8; built_in_root_certs = false; root_certificates = c ∷ cs } =
        cc in
      rw e (refl, refl, λ k. cc k)

  pinned-IsPinned :
      (from_pem : Text → Option C) (path pem : Text) (b : Builder C)
      → pinned from_pem path (certificates from_pem (blocks pem)) ≡ ok b
      → IsPinned from_pem pem b
  unfolding pinned
  pinned-IsPinned from_pem path pem b h =
      let (alone, roots, some_root) =
        pinned-eq from_pem path (certificates from_pem (blocks pem)) b h in
      record { alone = alone; roots = roots; some_root = some_root }

  -- If containers are listed at all, the secret was found and the request for them went out through
  -- a client that trusts the certificates of the configured file alone, of which there is at least
  -- one; and every container listed has the configured tag.
  pub list_containers-IsPinned :
      (w : PveWorld C) (cfg : Config) (cs : List Lxc)
      → list_containers w cfg ≡ ok cs
      → (path : Text) × (pem : Text) × (secret : Text) × (b : Builder C) × (answer : Text)
        × (read_secret w.env_secret w.home w.keys ≡ ok secret)
        × (cfg.proxmox.cert_file ≡ some path)
        × (w.read (expand_tilde w.home path) ≡ some pem)
        × IsPinned w.from_pem pem b
        × (w.get b (url_of cfg) (auth_of cfg secret) ≡ some answer)
        × AllTagged cfg.proxmox.ct_tag cs
  unfolding list_containers client
  list_containers-IsPinned w cfg cs h =
      let (secret, known, h₁) = >>=-eq-ok (read_secret w.env_secret w.home w.keys) _ cs h in
      let (b, made, h₂) = >>=-eq-ok (client w.from_pem w.home w.read cfg) _ cs h₁ in
      let (answer, got, h₃) =
        >>=-eq-ok (or_err unreachable (w.get b (url_of cfg) (auth_of cfg secret))) _ cs h₂ in
      let (parsed, _, h₄) = >>=-eq-ok (or_err bad_answer (w.parse answer)) _ cs h₃ in
      let (path, given, k₁) = >>=-eq-ok (or_err no_cert_file cfg.proxmox.cert_file) _ b made in
      let (pem, read, k₂) =
        >>=-eq-ok (or_err unreadable_cert (w.read (expand_tilde w.home path))) _ b k₁ in
      (
        path,
        pem,
        secret,
        b,
        answer,
        known,
        or_err-eq-ok no_cert_file cfg.proxmox.cert_file path given,
        or_err-eq-ok unreadable_cert (w.read (expand_tilde w.home path)) pem read,
        pinned-IsPinned w.from_pem (expand_tilde w.home path) pem b k₂,
        or_err-eq-ok unreachable (w.get b (url_of cfg) (auth_of cfg secret)) answer got,
        rw (← listed parsed h₄) (tagged-AllTagged cfg.proxmox.ct_tag parsed),
      )
    where
      listed :
          (parsed : List Lxc)
          → ok (tagged cfg.proxmox.ct_tag parsed) ≡ ok cs
          → tagged cfg.proxmox.ct_tag parsed ≡ cs
      listed parsed e = cc
