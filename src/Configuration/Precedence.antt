-- ===== src/Configuration/Precedence.antt =====
-- config.go: which token and which server `Load` ends with.
use brother_connect.Base.{Bool, true, false, String, Option, none, some}
use brother_connect.Configuration.Resolved.{resolved, accepted_or}
use brother_connect.Configuration.{GivenFlags, Credentials, LoadFault, no_installation_id}

-- The answer once there is an installation ID, from the flag, the token and the server.
abbrev pub answer :
    Option Bool
    → GivenFlags
    → Option Credentials
    → String
    → String
    → Option (String × String) × Option LoadFault
answer (some true) f stored token server = (some (token, server), none)
answer (some false) f stored token server = accepted_or (resolved f stored token server)
answer none f stored token server = accepted_or (resolved f stored token server)

-- Without an installation ID the answer is an error: none is given, and none is kept.
abbrev pub if_installed {ℓ} :
    {A : Type ℓ} → Bool → Option String → Option A × Option LoadFault → Option A × Option LoadFault
if_installed true none r = (none, some no_installation_id)
if_installed true (some kept) r = r
if_installed false kept r = r
