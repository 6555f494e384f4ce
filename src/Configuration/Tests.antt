-- ===== src/Configuration/Tests.antt =====
-- config.go: an enrolled bridge, with a server in the environment.
use brother_connect.Base.{
  ◌≡◌, refl, true, String, str_eq, Option, none, some, [], ◌∷◌, if◌then◌else◌,
}
use brother_connect.Configuration.{
  GivenFlags, Credentials, TextFunctions, split_list, env_bool, env,
}
use brother_connect.Configuration.Precedence.{answer}

abbrev texts : TextFunctions
texts = record { split_commas = λ v. v ∷ "" ∷ []; trim_space = λ v. v; to_lower = λ v. v }

abbrev variables : String → Option String
variables key = if str_eq key "BRIDGE_SERVER_URL" then some "wss://env" else none

abbrev flags : GivenFlags
flags = record {
  server = none;
  token = none;
  installation = some "bri_1";
  offline = none;
  ui_address = none;
  niimbot = none;
  niimbot_serial = some "/dev/cu.B1";
}

abbrev enrolled : Option Credentials
enrolled = some (record {
  device_token = "t";
  token_type = "Bearer";
  tenant_id = "t1";
  obtained_at = 5;
  expires_at = 0;
  tenant = "shop";
  enrolled_url = "wss://stored";
})

one_port : split_list texts "/dev/cu.B1" ≡ "/dev/cu.B1" ∷ []
unfolding split_list
one_port = refl

default_is_on : env_bool texts variables "BRIDGE_NIIMBOT" true ≡ true
unfolding env_bool env
default_is_on = refl

stored_server : answer none flags enrolled "" "wss://env" ≡ (some ("t", "wss://stored"), none)
stored_server = refl
