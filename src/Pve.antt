-- ===== src/Pve.antt =====
-- src/pve.rs: the Proxmox client. Files, environment variables, the PEM parser and the HTTP client are
-- not of this repository: the definitions take what they answer.
pub mod Pem
pub mod Pinning
use llm_ctl.Base.{
  ℕ, zero, suc, ◌+◌, ◌-◌, Option, none, some, Bool, true, false, List, [], ◌∷◌, ◌++◌, map, length,
  take, drop, if◌then◌else◌, ◌==◌,
}
use llm_ctl.Base.Text.{Text, lit, is_empty, text_eq, starts_with, ends_with, trim, lines}
use llm_ctl.Config.{Proxmox, Config, expand_tilde}

pub record Lxc : Type 0 where
  pub vmid : ℕ
  pub name : Text
  pub status : Text
  pub tags : Text

pub data Error : Type 0 where
  home_unset no_keys no_secret no_cert_file unreadable_cert unbuildable unreachable bad_answer :
      Error
  no_certificates : Text → Error

pub data Result (A : Type 0) : Type 0 where
  ok : A → Result A
  err : Error → Result A

infixl 5 ◌>>=◌
abbrev pub ◌>>=◌ : {A B : Type 0} → Result A → (A → Result B) → Result B
ok a >>= f = f a
err e >>= f = err e

-- `?` on an absent value.
abbrev pub or_err : {A : Type 0} → Error → Option A → Result A
or_err e none = err e
or_err e (some a) = ok a

-- `str::split_once`, at a character.
unfoldable pub split_once : ℕ → Text → Option (Text × Text)
split_once sep [] = none
split_once sep (c ∷ s) =
    if c == sep
    then some ([], s)
    else elim (split_once sep s) [ none ↦ none | some (k, v) ↦ some (c ∷ k, v) ]

unfoldable pub secret_name : Text
unfolding lit
secret_name = lit "PROXMOX_AGENT_ADMIN"

-- The loop over the lines of ~/.keys.
unfoldable pub secret_in : List Text → Result Text
unfolding split_once text_eq trim secret_name
secret_in [] = err no_secret
secret_in (l ∷ ls) =
    let rest = secret_in ls in
    elim (split_once b'=' l) [
      | none ↦ rest
      | some (k, v) ↦ if text_eq (trim k) secret_name then ok (trim v) else rest
    ]

keys_secret : Option Text → Option Text → Result Text
unfolding secret_in lines
keys_secret home keys = do
  h ← or_err home_unset home
  text ← or_err no_keys keys
  secret_in (lines text)

-- `env` and `home` are the variables PROXMOX_AGENT_ADMIN and HOME, `keys` is what ~/.keys holds.
unfoldable pub read_secret : Option Text → Option Text → Option Text → Result Text
unfolding keys_secret trim
read_secret env home keys = elim env [
  | none ↦ keys_secret home keys
  | some v ↦ if is_empty (trim v) then keys_secret home keys else ok (trim v)
]

unfoldable pub begin_marker : Text
unfolding lit
begin_marker = lit "-----BEGIN CERTIFICATE-----"

unfoldable pub end_marker : Text
unfolding lit
end_marker = lit "-----END CERTIFICATE-----"

unfoldable pub push_front : ℕ → List Text → List Text
push_front c [] = (c ∷ []) ∷ []
push_front c (p ∷ ps) = (c ∷ p) ∷ ps

-- `str::split`, at a text that is not empty: `skip` characters of a match are still to be passed.
unfoldable pub split : Text → ℕ → Text → List Text
unfolding push_front starts_with
split sep skip [] = [] ∷ []
split sep (suc skip) (c ∷ s) = split sep skip s
split sep zero (c ∷ s) =
    let after = [] ∷ split sep (length sep - 1) s in
    let on = push_front c (split sep zero s) in if starts_with (c ∷ s) sep then after else on

-- `str::find`.
unfoldable pub find : Text → Text → Option ℕ
unfolding starts_with
find needle [] = if is_empty needle then some 0 else none
find needle (c ∷ s) =
    if starts_with (c ∷ s) needle
    then some 0
    else elim (find needle s) [ none ↦ none | some i ↦ some (i + 1) ]

-- The end of a block's text, past its end marker if it has one.
end_of : Text → Option ℕ → ℕ
end_of piece none = length piece
end_of piece (some i) = i + length end_marker

unfoldable pub block_of : Text → Text
unfolding find end_of begin_marker end_marker starts_with
block_of piece = begin_marker ++ take (end_of piece (find end_marker piece)) piece

unfoldable pub blocks : Text → List Text
unfolding split block_of begin_marker
blocks pem = map block_of (drop 1 (split begin_marker zero pem))

-- What the request is made with.
pub record Builder (C : Type 0) : Type 0 where
  pub timeout_secs : ℕ
  pub built_in_root_certs : Bool
  pub root_certificates : List C

module _ {C : Type 0} (from_pem : Text → Option C) where
  -- The loop over the blocks: unterminated and bad ones are skipped.
  unfoldable pub certificates : List Text → List C
  unfolding trim ends_with end_marker
  certificates [] = []
  certificates (b ∷ bs) =
      let rest = certificates bs in
      if ends_with (trim b) end_marker
      then (elim (from_pem b) [ none ↦ rest | some c ↦ c ∷ rest ])
      else rest

  unfoldable pub pinned : Text → List C → Result (Builder C)
  pinned path [] = err (no_certificates path)
  pinned path (c ∷ cs) =
      ok (record { timeout_secs = 8; built_in_root_certs = false; root_certificates = c ∷ cs })

  -- `read` is `read_to_string`.
  unfoldable pub client : Option Text → (Text → Option Text) → Config → Result (Builder C)
  unfolding certificates blocks pinned expand_tilde
  client home read cfg = do
    cert_path ← or_err no_cert_file cfg.proxmox.cert_file
    let path = expand_tilde home cert_path
    pem ← or_err unreadable_cert (read path)
    pinned path (certificates (blocks pem))

-- What the world answers to `list_containers`: `get` is `Client::get` with the header
-- Authorization, built and sent with a builder; `parse` is serde's reading of the answer.
pub record PveWorld (C : Type 0) : Type 0 where
  pub env_secret : Option Text
  pub home : Option Text
  pub keys : Option Text
  pub read : Text → Option Text
  pub from_pem : Text → Option C
  pub get : Builder C → Text → Text → Option Text
  pub parse : Text → Option (List Lxc)

unfoldable pub tagged : Text → List Lxc → List Lxc
tagged tag [] = []
tagged tag (c ∷ cs) = let rest = tagged tag cs in if text_eq c.tags tag then c ∷ rest else rest

unfoldable pub auth_of : Config → Text → Text
unfolding lit
auth_of cfg secret = lit "PVEAPIToken=" ++ (cfg.proxmox.token_id ++ (lit "=" ++ secret))

unfoldable pub url_of : Config → Text
unfolding lit
url_of cfg = cfg.proxmox.api ++ (lit "/api2/json/nodes/" ++ (cfg.proxmox.node ++ lit "/lxc"))

unfoldable pub list_containers : {C : Type 0} → PveWorld C → Config → Result (List Lxc)
unfolding read_secret client tagged auth_of url_of text_eq
list_containers w cfg = do
  secret ← read_secret w.env_secret w.home w.keys
  builder ← client w.from_pem w.home w.read cfg
  text ← or_err unreachable (w.get builder (url_of cfg) (auth_of cfg secret))
  parsed ← or_err bad_answer (w.parse text)
  ok (tagged cfg.proxmox.ct_tag parsed)
