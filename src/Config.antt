-- ===== src/Config.antt =====
-- src/config.rs: the configuration and how it is loaded. Reading the file and parsing the TOML are
-- not of this repository: `load` takes what they answer. The records whose names begin with `Toml`
-- hold what a file says, with `none` for a key that is left out; serde fills in its defaults.
use llm_ctl.Base.{ℕ, Option, none, some, Bool, true, false, List, [], ◌∷◌, map, ◌++◌, if◌then◌else◌}
use llm_ctl.Base.Text.{Text, lit, starts_with, strip_prefix}

pub record Listen : Type 0 where
  pub host : Text
  pub port : ℕ

pub record Llama : Type 0 where
  pub repo : Text
  pub build_dir : Text
  pub binary : Text
  pub git_remote : Text
  pub git_branch : Text

pub record Worker : Type 0 where
  pub port : ℕ
  pub default_args : List Text
  pub gpu_env : List (Text × Text)
  pub restart_on_crash : Bool
  pub max_restarts : ℕ

pub record Hf : Type 0 where
  pub cli : List Text
  pub cache : Text
  pub autoregister : Bool

pub record Proxmox : Type 0 where
  pub api : Text
  pub node : Text
  pub token_id : Text
  pub ct_storage : Text
  pub ct_tag : Text
  pub ct_vmid_start : ℕ
  pub cert_file : Option Text
  pub cts : List (Text × Text)

pub record Db : Type 0 where
  pub pgurl : Text
  pub schema_migrate : Bool

pub record Model : Type 0 where
  pub id : Text
  pub model : Text
  pub autostart : Bool
  pub description : Text

pub record Config : Type 0 where
  pub listen : Listen
  pub llama : Llama
  pub worker : Worker
  pub hf : Hf
  pub proxmox : Proxmox
  pub db : Db
  pub models : List Model

pub record TomlWorker : Type 0 where
  pub port : ℕ
  pub default_args : Option (List Text)
  pub gpu_env : Option (List (Text × Text))
  pub restart_on_crash : Option Bool
  pub max_restarts : Option ℕ

pub record TomlHf : Type 0 where
  pub cli : Option (List Text)
  pub cache : Text
  pub autoregister : Option Bool

pub record TomlProxmox : Type 0 where
  pub api : Text
  pub node : Text
  pub token_id : Text
  pub ct_storage : Text
  pub ct_tag : Text
  pub ct_vmid_start : Option ℕ
  pub cert_file : Option Text
  pub cts : Option (List (Text × Text))

pub record TomlDb : Type 0 where
  pub pgurl : Text
  pub schema_migrate : Option Bool

pub record TomlModel : Type 0 where
  pub id : Text
  pub model : Text
  pub autostart : Option Bool
  pub description : Option Text

pub record TomlConfig : Type 0 where
  pub listen : Listen
  pub llama : Llama
  pub worker : TomlWorker
  pub hf : TomlHf
  pub proxmox : TomlProxmox
  pub db : TomlDb
  pub models : Option (List TomlModel)

-- A key's value, or its default.
abbrev pub or_default : {A : Type 0} → A → Option A → A
or_default d none = d
or_default d (some a) = a

default_hf_cli : List Text
default_hf_cli = lit "uvx" ∷ lit "hf" ∷ []

unfoldable pub worker_of : TomlWorker → Worker
worker_of w = record {
  port = w.port;
  default_args = or_default [] w.default_args;
  gpu_env = or_default [] w.gpu_env;
  restart_on_crash = or_default true w.restart_on_crash;
  max_restarts = or_default 0 w.max_restarts;
}

hf_of : TomlHf → Hf
unfolding default_hf_cli
hf_of h = record {
  cli = or_default default_hf_cli h.cli;
  cache = h.cache;
  autoregister = or_default false h.autoregister;
}

proxmox_of : TomlProxmox → Proxmox
proxmox_of p = record {
  api = p.api;
  node = p.node;
  token_id = p.token_id;
  ct_storage = p.ct_storage;
  ct_tag = p.ct_tag;
  ct_vmid_start = or_default 0 p.ct_vmid_start;
  cert_file = p.cert_file;
  cts = or_default [] p.cts;
}

model_of : TomlModel → Model
model_of m = record {
  id = m.id;
  model = m.model;
  autostart = or_default false m.autostart;
  description = or_default [] m.description;
}

unfoldable pub with_defaults : TomlConfig → Config
unfolding worker_of hf_of proxmox_of model_of
with_defaults t = record {
  listen = t.listen;
  llama = t.llama;
  worker = worker_of t.worker;
  hf = hf_of t.hf;
  proxmox = proxmox_of t.proxmox;
  db = record { pgurl = t.db.pgurl; schema_migrate = or_default false t.db.schema_migrate };
  models = map model_of (or_default [] t.models);
}

pub data LoadError : Type 0 where
  unreadable bad_toml : LoadError
  not_https : Text → LoadError

pub data Loaded : Type 0 where
  ok : Config → Loaded
  err : LoadError → Loaded

-- `home` is what `std::env::var("HOME")` answers.
unfoldable pub expand_tilde : Option Text → Text → Text
unfolding strip_prefix lit
expand_tilde home p = elim (strip_prefix p (lit "~/")) [
  | none ↦ p
  | some rest ↦ elim home [ none ↦ p | some dir ↦ dir ++ (lit "/" ++ rest) ]
]

expand_paths : Option Text → Config → Config
expand_paths home cfg = record cfg {
  llama = record llama {
    repo = expand_tilde home (llama.repo);
    build_dir = expand_tilde home (llama.build_dir);
    binary = expand_tilde home (llama.binary);
  };
  hf = record hf { cache = expand_tilde home (hf.cache) };
}
  where
    open cfg use {llama, hf}

check_https : Config → Loaded
check_https cfg =
    if starts_with cfg.proxmox.api (lit "https://") then ok cfg else err (not_https cfg.proxmox.api)

-- `read` is what `read_to_string` answers, and `parse` stands for `toml::from_str`.
unfoldable pub load : Option Text → Option Text → (Text → Option TomlConfig) → Loaded
unfolding expand_paths check_https with_defaults
load home read parse = elim read [
  | none ↦ err unreadable
  | some text ↦ elim (parse text) [
    | none ↦ err bad_toml
    | some toml ↦ check_https (expand_paths home (with_defaults toml))
  ]
]
