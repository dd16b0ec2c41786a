-- ===== src/Report/Options.antt =====
-- Options and the loop over the arguments of src/main.cpp.
use nano_sensor.Base.{ℕ, ◌*◌, Bool, true, false, Option, none, some, List, [], ◌∷◌, if◌then◌else◌}
use nano_sensor.Base.Int.{ℤ, pos}
use nano_sensor.Text.{Bytes, codes, bytes_eq}
use nano_sensor.Log.{LogLevel, info, log_set_level_by_name}
use nano_sensor.Numbers.{atoi}
use nano_sensor.Spool.Opening.{strtoull}

pub record Options : Type 0 where
  pub pretty : Bool
  pub index_path : Bytes
  pub alias_path : Bytes
  pub packages_path : Bytes
  pub url : Bytes
  pub client_cert : Bytes
  pub client_key : Bytes
  pub pin : Bytes
  pub pin_file : Bytes
  pub spool_dir : Bytes
  pub spool_max_bytes : ℕ
  pub batch_size : ℕ
  pub max_attempts : ℤ
  pub synthetic : ℤ
  pub drain_only : Bool
  pub interval_s : ℤ
  pub db : Bytes
  pub state_dir : Bytes
  pub log_file : Bytes
  pub pipe : Bytes
  pub fault : Bytes
  pub hang_timeout_s : ℤ

abbrev pub default_options : Options
default_options = record {
  pretty = false;
  index_path = codes "data/cve_index.tsv";
  alias_path = codes "data/cpe_aliases.tsv";
  packages_path = [];
  url = [];
  client_cert = [];
  client_key = [];
  pin = [];
  pin_file = [];
  spool_dir = codes "spool";
  spool_max_bytes = 64 * 1024 * 1024;
  batch_size = 32;
  max_attempts = pos 6;
  synthetic = pos 0;
  drain_only = false;
  interval_s = pos 300;
  db = [];
  state_dir = [];
  log_file = [];
  pipe = codes "\\\\.\\pipe\\nano-sensor";
  fault = codes "none";
  hang_timeout_s = pos 120;
}

-- The options and the level of the logger.
pub record Settings : Type 0 where
  pub opt : Options
  pub level : LogLevel

abbrev pub default_settings : Settings
default_settings = record { opt = default_options; level = info }

-- What an argument asks for: an option without a value, one with a value that may be refused, the
-- usage text, or nothing that is known.
pub data Flag : Type 0 where
  sets : (Options → Options) → Flag
  takes : (Bytes → Options → Options) → Flag
  takes_level help unknown : Flag

-- The branches of the loop, in their order.
abbrev pub flags : List (Bytes × Flag)
flags =
    (codes "--pretty", sets (λ o. record o { pretty = true }))
    ∷ (codes "--log-level", takes_level)
    ∷ (codes "--index", takes (λ v o. record o { index_path = v }))
    ∷ (codes "--aliases", takes (λ v o. record o { alias_path = v }))
    ∷ (codes "--packages", takes (λ v o. record o { packages_path = v }))
    ∷ (codes "--url", takes (λ v o. record o { url = v }))
    ∷ (codes "--client-cert", takes (λ v o. record o { client_cert = v }))
    ∷ (codes "--client-key", takes (λ v o. record o { client_key = v }))
    ∷ (codes "--pin", takes (λ v o. record o { pin = v }))
    ∷ (codes "--pin-file", takes (λ v o. record o { pin_file = v }))
    ∷ (codes "--spool", takes (λ v o. record o { spool_dir = v }))
    ∷ (codes "--spool-max-bytes", takes (λ v o. record o { spool_max_bytes = strtoull v }))
    ∷ (codes "--batch-size", takes (λ v o. record o { batch_size = strtoull v }))
    ∷ (codes "--max-attempts", takes (λ v o. record o { max_attempts = atoi v }))
    ∷ (codes "--synthetic", takes (λ v o. record o { synthetic = atoi v }))
    ∷ (codes "--interval", takes (λ v o. record o { interval_s = atoi v }))
    ∷ (codes "--drain-only", sets (λ o. record o { drain_only = true }))
    ∷ (codes "--db", takes (λ v o. record o { db = v }))
    ∷ (codes "--state-dir", takes (λ v o. record o { state_dir = v }))
    ∷ (codes "--log-file", takes (λ v o. record o { log_file = v }))
    ∷ (codes "--pipe", takes (λ v o. record o { pipe = v }))
    ∷ (codes "--hang-timeout", takes (λ v o. record o { hang_timeout_s = atoi v }))
    ∷ (codes "--inject-fault", takes (λ v o. record o { fault = v }))
    ∷ (codes "-h", help)
    ∷ (codes "--help", help)
    ∷ []

unfoldable pub flag_of : Bytes → List (Bytes × Flag) → Flag
flag_of arg [] = unknown
flag_of arg ((name, flag) ∷ rest) =
    let later = flag_of arg rest in if bytes_eq arg name then flag else later

-- The loop went through, or main returns an exit code.
pub data Parsed : Type 0 where
  parsed : Settings → Parsed
  exits : ℕ → Parsed

abbrev pub set_level : Bytes → Settings → Option Settings
set_level name st = elim (log_set_level_by_name name) [
  | none ↦ none
  | some level ↦ some (record st { level = level })
]

abbrev pub set_opt : (Options → Options) → Settings → Settings
set_opt f st = record st { opt = f st.opt }

-- The arguments from the first flag on.
unfoldable pub parse_arguments : List Bytes → Settings → Parsed
parse_arguments [] st = parsed st
parse_arguments (arg ∷ []) st = elim (flag_of arg flags) [
  | sets f ↦ parsed (set_opt f st)
  | takes f ↦ exits 2
  | takes_level ↦ exits 2
  | help ↦ exits 0
  | unknown ↦ exits 2
]
parse_arguments (arg ∷ v ∷ rest) st = elim (flag_of arg flags) [
  | sets f ↦ parse_arguments (v ∷ rest) (set_opt f st)
  | takes f ↦ parse_arguments rest (set_opt (f v) st)
  | takes_level ↦ elim (set_level v st) [ none ↦ exits 2 | some st' ↦ parse_arguments rest st' ]
  | help ↦ exits 0
  | unknown ↦ exits 2
]
