-- ===== src/Enroll/Tests.antt =====
-- enroll.go: a code with an interval of ten seconds, and a service that asks to slow down.
use brother_connect.Base.{
  ℕ, ◌≡◌, refl, false, String, none, some, List, [], ◌∷◌, ◌++◌, pos, inl, str_ne, arith, replicate,
}
use brother_connect.Enroll.{
  Attempt, JsonReader, Response, granted, Token, DeviceAuth, interval, activation_url, poll_token,
}
use brother_connect.Enroll.Polling.{IsPending, token_came, poll_token-slowed}

abbrev code_of : List ℕ → String
code_of [] = "authorization_pending"
code_of (b ∷ rest) = "slow_down"

abbrev token : Token
token = record {
  access_token = "t";
  token_type = "bearer";
  expires_in = pos 0;
  tenant_id = "";
  tenant_name = "";
}

abbrev json : JsonReader
json = record {
  read_auth = λ body. none;
  read_token = λ body. some token;
  read_error_code = code_of;
}

abbrev answer : ℕ → List ℕ → Response
answer code body = record { status_code = code; body = body }

abbrev attempt : ℕ → List ℕ → Attempt
attempt code body = record { is_stopped = false; response = some (answer code body) }

abbrev auth : DeviceAuth
auth = record {
  device_code = "d";
  user_code = "u";
  verification_uri = "https://example";
  verification_uri_complete = "";
  expires_in = pos 600;
  interval_seconds = pos 10;
}

ten_seconds : interval auth ≡ 10000000000
unfolding interval
ten_seconds = refl

plain_url : activation_url auth ≡ "https://example"
unfolding activation_url
plain_url = refl

pending : IsPending json (attempt 400 [])
pending = (refl, answer 400 [], refl, omega arith, refl)

poll_token-slowed_example :
    poll_token json auth (
      (attempt 400 [] ∷ [])
      ++ (attempt 400 (1 ∷ []) ∷ ((attempt 400 [] ∷ []) ++ (attempt 200 [] ∷ []))))
    ≡ (
      some (granted token),
      replicate 1 (interval auth)
          ++ (interval auth ∷ (replicate 1 5000000000 ++ (5000000000 ∷ []))),
    )
poll_token-slowed_example =
    poll_token-slowed json auth (attempt 400 [] ∷ []) (attempt 400 [] ∷ []) []
      (attempt 400 (1 ∷ [])) (attempt 200 []) (granted token) (pending, tt)
      (refl, answer 400 (1 ∷ []), refl, omega arith, refl) (inl pending, tt)
      (token_came (answer 200 []) token refl refl refl refl (str_ne "t" "" refl))
