-- ===== src/Configuration.antt =====
-- internal/config/config.go: how the settings come together. The flags that the command line gives, the
-- environment, the stored credentials and the outcome of the installation ID are given, and so are
-- the functions on texts of the standard library.
pub mod Resolved
pub mod Precedence
mod Tests
use brother_connect.Base.{
  ℕ, ◌&&◌, not, Bool, true, false, String, str_eq, Option, none, some, List, [], ◌∷◌, map,
  if◌then◌else◌,
}

-- The flags that the command line gives, of those that `Load` looks at again.
pub record GivenFlags : Type 0 where
  pub server : Option String
  pub token : Option String
  pub installation : Option String
  pub offline : Option Bool
  pub ui_address : Option String
  pub niimbot : Option Bool
  pub niimbot_serial : Option String

-- The fields of `type Config struct` for these flags.
pub record LoadedConfig : Type 0 where
  pub server_url : String
  pub dev_token : String
  pub tenant_name : String
  pub installation_id : String
  pub bridge_version : String
  pub is_offline : Bool
  pub ui_addr : String
  pub uses_niimbot : Bool
  pub serial_ports : List String

-- `credstore.Credentials`; a time is in nanoseconds, and 0 for Go's zero time.
pub record Credentials : Type 0 where
  pub enrolled_url : String
  pub device_token : String
  pub token_type : String
  pub tenant_id : String
  pub tenant : String
  pub obtained_at : ℕ
  pub expires_at : ℕ

-- `strings.Split` at commas, `strings.TrimSpace` and `strings.ToLower`.
pub record TextFunctions : Type 0 where
  pub split_commas : String → List String
  pub trim_space : String → String
  pub to_lower : String → String

pub data LoadFault : Type 0 where
  no_installation_id no_server_url no_device_token : LoadFault

-- `defaultServerURL`
abbrev pub default_server_url : String
default_server_url = "wss://box.dev.trencitos.dev:8443/bridge"

abbrev pub or_default {ℓ} : {A : Type ℓ} → Option A → A → A
or_default none fallback = fallback
or_default (some a) fallback = a

-- `env`: a variable that is set to the empty text counts.
unfoldable pub env : (String → Option String) → String → String → String
env variables key fallback = or_default (variables key) fallback

abbrev pub keep_items : List String → List String
keep_items [] = []
keep_items (s ∷ more) = let rest = keep_items more in if str_eq s "" then rest else s ∷ rest

module _ (texts : TextFunctions) where
  -- `splitList`
  unfoldable pub split_list : String → List String
  split_list v = keep_items (map texts.trim_space (texts.split_commas v))

  -- The `switch` of `envBool`.
  abbrev pub bool_of : String → Bool → Bool
  bool_of v fallback =
      if str_eq v ""
      then fallback
      else if str_eq v "1"
      then true
      else if str_eq v "true"
      then true
      else if str_eq v "yes"
      then true
      else str_eq v "on"

  -- `envBool`; `os.Getenv` gives the empty text for a variable that is not set.
  unfoldable pub env_bool : (String → Option String) → String → Bool → Bool
  env_bool variables key fallback =
      bool_of (texts.to_lower (texts.trim_space (env variables key ""))) fallback

  -- `registerFlags` with the parsing.
  unfoldable pub parse_flags : (String → Option String) → GivenFlags → String → LoadedConfig
  parse_flags variables f version = record {
    server_url = or_default f.server (env variables "BRIDGE_SERVER_URL" default_server_url);
    dev_token = or_default f.token (env variables "BRIDGE_DEV_TOKEN" "");
    tenant_name = "";
    installation_id = or_default f.installation (env variables "BRIDGE_INSTALLATION_ID" "");
    bridge_version = version;
    is_offline = or_default f.offline false;
    ui_addr = or_default f.ui_address (env variables "BRIDGE_UI_ADDR" "127.0.0.1:17600");
    uses_niimbot = or_default f.niimbot (env_bool variables "BRIDGE_NIIMBOT" true);
    serial_ports =
        split_list (or_default f.niimbot_serial (env variables "BRIDGE_NIIMBOT_SERIAL" ""));
  }

-- `loadStoredCredentials`; `none` is that there are none, or that they cannot be read.
unfoldable pub load_stored_credentials : Bool → Option Credentials → LoadedConfig → LoadedConfig
load_stored_credentials explicit none c = c
load_stored_credentials explicit (some k) c = record c {
  dev_token = k.device_token;
  tenant_name = k.tenant;
  server_url =
      if not explicit && not (str_eq k.enrolled_url "") then k.enrolled_url else c.server_url;
}

-- `validate`
unfoldable pub validate_config : LoadedConfig → Option LoadFault
validate_config c =
    if c.is_offline
    then none
    else if str_eq c.server_url ""
    then some no_server_url
    else if str_eq c.dev_token ""
    then some no_device_token
    else none

abbrev pub is_given : Option String → Bool
is_given none = false
is_given (some s) = true

abbrev pub with_credentials : Bool → Option Credentials → LoadedConfig → LoadedConfig
with_credentials explicit stored c =
    if str_eq c.dev_token "" && not c.is_offline
    then load_stored_credentials explicit stored c
    else c

abbrev pub accept_if : Option LoadFault → LoadedConfig → Option LoadedConfig × Option LoadFault
accept_if none c = (some c, none)
accept_if (some f) c = (none, some f)

-- `Load` from the installation ID on.
abbrev pub with_installation :
    Option String
    → Bool
    → Option Credentials
    → LoadedConfig
    → Option LoadedConfig × Option LoadFault
with_installation none explicit stored c = (none, some no_installation_id)
with_installation (some id) explicit stored c =
    let c' = with_credentials explicit stored (record c { installation_id = id }) in
    accept_if (validate_config c') c'

-- The installation ID that is kept in a file, made at the first start, if none was given.
abbrev pub installation_or : String → Option String → Option String
installation_or given kept = if str_eq given "" then kept else some given

-- `Load`, for flags that can be parsed. With an error, the settings are not to be used.
unfoldable pub load :
    TextFunctions
    → (String → Option String)
    → GivenFlags
    → String
    → Option String
    → Option Credentials
    → Option LoadedConfig × Option LoadFault
load texts variables f version kept stored =
    let c = parse_flags texts variables f version in
    with_installation (installation_or c.installation_id kept) (is_given f.server) stored c
