-- ===== src/Configuration/Resolved.antt =====
-- config.go: the token and the server after the stored credentials, and their check.
use brother_connect.Base.{
  ◌≡◌, inl, inr, refl, ap, ◌∙◌, Bool, true, false, not, ◌&&◌, Bool-cases, String, str_eq,
  str_eq_iff, Option, none, some, if◌then◌else◌,
}
use brother_connect.Configuration.{
  GivenFlags, LoadedConfig, Credentials, LoadFault, no_server_url, no_device_token,
  load_stored_credentials, validate_config, is_given, with_credentials, accept_if,
}

-- What the command line gives, else the environment, even if it is empty, else a default.
abbrev pub flag_or_variable : Option String → Option String → String → String
flag_or_variable (some flag) variable fallback = flag
flag_or_variable none (some variable) fallback = variable
flag_or_variable none none fallback = fallback

-- The token of the stored credentials, and the server that goes with it.
abbrev pub token_from : Option Credentials → String
token_from none = ""
token_from (some k) = k.device_token

abbrev pub server_from : Option String → Option Credentials → String → String
server_from (some url) stored fallback = url
server_from none none fallback = fallback
server_from none (some k) fallback = if str_eq k.enrolled_url "" then fallback else k.enrolled_url

-- The settings that an online bridge runs with, from a token and a server of flags and environment.
abbrev pub resolved : GivenFlags → Option Credentials → String → String → String × String
resolved f stored token server =
    if str_eq token ""
    then (token_from stored, server_from f.server stored server)
    else (token, server)

abbrev pub both : LoadedConfig → String × String
both c = (c.dev_token, c.server_url)

load_stored_credentials-both :
    (server : Option String) (stored : Option Credentials) (c : LoadedConfig)
    → c.dev_token ≡ ""
    → c.is_offline ≡ false
    → ((url : String) → server ≡ some url → c.server_url ≡ url)
    → let c' = load_stored_credentials (is_given server) stored c in
      (both c' ≡ (token_from stored, server_from server stored c.server_url))
      × (c'.is_offline ≡ false)
unfolding load_stored_credentials
load_stored_credentials-both none none c t o given = (ap (λ token. (token, c.server_url)) t, o)
load_stored_credentials-both (some url) none c t o given =
    (ap (λ token. (token, c.server_url)) t ∙ ap (λ server. ("", server)) (given url refl), o)
load_stored_credentials-both (some url) (some k) c t o given =
    (ap (λ server. (k.device_token, server)) (given url refl), o)
load_stored_credentials-both none (some k) c t o given =
    elim (Bool-cases (str_eq k.enrolled_url "")) [ inl e ↦ rw e (refl, o) | inr n ↦ rw n (refl, o) ]

pub with_credentials-both :
    (f : GivenFlags) (stored : Option Credentials) (c : LoadedConfig)
    → c.is_offline ≡ false
    → ((url : String) → f.server ≡ some url → c.server_url ≡ url)
    → let c' = with_credentials (is_given f.server) stored c in
      (both c' ≡ resolved f stored c.dev_token c.server_url) × (c'.is_offline ≡ false)
with_credentials-both f stored c online given =
    by_tests (str_eq c.dev_token "") (not c.is_offline) refl (ap (λ o. not o) online)
  where
    by_tests :
        (no_token is_online : Bool)
        → str_eq c.dev_token "" ≡ no_token
        → is_online ≡ true
        → let c' =
            if no_token && is_online
            then load_stored_credentials (is_given f.server) stored c
            else c in
          (both c' ≡ (
            if no_token
            then (token_from stored, server_from f.server stored c.server_url)
            else (c.dev_token, c.server_url)))
          × (c'.is_offline ≡ false)
    by_tests true true t o =
        load_stored_credentials-both f.server stored c ((str_eq_iff c.dev_token "").0 t) online
          given
    by_tests true false t o = absurd (cc o)
    by_tests false true t o = (refl, online)
    by_tests false false t o = absurd (cc o)

-- What is left of the answer of `Load`: the token and the server, or the error.
abbrev pub seen_of :
    Option LoadedConfig × Option LoadFault → Option (String × String) × Option LoadFault
seen_of (none, f) = (none, f)
seen_of (some c, f) = (some (both c), f)

abbrev pub accepted_or : String × String → Option (String × String) × Option LoadFault
accepted_or (token, server) =
    if str_eq server ""
    then (none, some no_server_url)
    else if str_eq token ""
    then (none, some no_device_token)
    else (some (token, server), none)

pub accept_if-both :
    (c : LoadedConfig)
    → c.is_offline ≡ false
    → seen_of (accept_if (validate_config c) c) ≡ accepted_or (both c)
unfolding validate_config
accept_if-both c online =
    by_tests (str_eq c.server_url "") (str_eq c.dev_token "") c.is_offline online
  where
    by_tests :
        (no_server no_token off : Bool)
        → off ≡ false
        → seen_of (
            accept_if
              (if off
                then none
                else if no_server
                then some no_server_url
                else if no_token
                then some no_device_token
                else none)
              c)
          ≡ (if no_server
              then (none, some no_server_url)
              else if no_token
              then (none, some no_device_token)
              else (some (both c), none))
    by_tests no_server no_token true e = absurd (cc e)
    by_tests true no_token false e = refl
    by_tests false true false e = refl
    by_tests false false false e = refl
