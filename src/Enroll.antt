-- ===== src/Enroll.antt =====
-- internal/enroll/enroll.go: the device-authorization grant. What an HTTP request comes to is given, and
-- so is the JSON codec. Times are nanoseconds.
pub mod Polling
mod Tests
use brother_connect.Base.{
  ℕ, ◌*◌, ◌==◌, ◌||◌, ltb, not, Bool, true, false, String, str_eq, Option, none, some, List, [],
  ◌∷◌, ℤ, pos, negsuc, zero, suc, if◌then◌else◌,
}

-- `defaultInterval`
abbrev pub default_interval : ℕ
default_interval = 5000000000

-- `type DeviceAuth struct`
pub record DeviceAuth : Type 0 where
  pub device_code : String
  pub user_code : String
  pub verification_uri : String
  pub verification_uri_complete : String
  pub expires_in : ℤ
  pub interval_seconds : ℤ

-- `interval`
unfoldable pub interval : DeviceAuth → ℕ
interval d = elim d.interval_seconds [
  | pos n ↦ if n == 0 then default_interval else n * 1000000000
  | negsuc n ↦ default_interval
]

-- `ActivationURL`
unfoldable pub activation_url : DeviceAuth → String
activation_url d =
    if not (str_eq d.verification_uri_complete "")
    then d.verification_uri_complete
    else d.verification_uri

-- `type Token struct`
pub record Token : Type 0 where
  pub access_token : String
  pub token_type : String
  pub expires_in : ℤ
  pub tenant_id : String
  pub tenant_name : String

-- A response that came: its status code and its body.
pub record Response : Type 0 where
  pub status_code : ℕ
  pub body : List ℕ

-- What `json.Unmarshal` reads; the code of an error is empty where it reads none.
pub record JsonReader : Type 0 where
  pub read_auth : List ℕ → Option DeviceAuth
  pub read_token : List ℕ → Option Token
  pub read_error_code : List ℕ → String

pub data EnrollFault : Type 0 where
  request_failed refused unreadable incomplete access_denied expired stopped : EnrollFault

pub data Outcome {ℓ} (A : Type ℓ) : Type ℓ where
  granted : A → Outcome A
  denied : EnrollFault → Outcome A
  -- To be tried again, after another wait if it is positive.
  retry_after : ℕ → Outcome A

abbrev pub complete_auth : Option DeviceAuth → Outcome DeviceAuth
complete_auth none = denied unreadable
complete_auth (some d) =
    if str_eq d.device_code "" || (str_eq d.user_code "" || str_eq d.verification_uri "")
    then denied incomplete
    else granted d

abbrev pub complete_token : Option Token → Outcome Token
complete_token none = denied unreadable
complete_token (some t) = if str_eq t.access_token "" then denied incomplete else granted t

-- The `switch` on the code of an error.
unfoldable pub by_error_code : String → Outcome Token
by_error_code code =
    if str_eq code "authorization_pending"
    then retry_after 0
    else if str_eq code "slow_down"
    then retry_after 5000000000
    else if str_eq code "access_denied"
    then denied access_denied
    else if str_eq code "expired_token"
    then denied expired
    else denied refused

-- One round of `Poll`: whether the sleep is cut short, and the response.
pub record Attempt : Type 0 where
  pub is_stopped : Bool
  pub response : Option Response

abbrev pub next_interval : ℕ → ℕ → ℕ
next_interval wait old = if ltb 0 wait then wait else old

module _ (json : JsonReader) where
  abbrev pub answered_code : Option Response → Outcome DeviceAuth
  answered_code none = denied request_failed
  answered_code (some r) =
      if not (r.status_code == 200) then denied refused else complete_auth (json.read_auth r.body)

  -- `RequestCode`, from its response on.
  unfoldable pub request_code : Option Response → Outcome DeviceAuth
  request_code r = answered_code r

  abbrev pub answered_token : Option Response → Outcome Token
  answered_token none = denied request_failed
  answered_token (some r) =
      if r.status_code == 200
      then complete_token (json.read_token r.body)
      else by_error_code (json.read_error_code r.body)

  -- `pollOnce`, from its response on.
  unfoldable pub poll_once : Option Response → Outcome Token
  poll_once r = answered_token r

  -- What a round makes of the outcome; `later` is the rest with the interval that it has then.
  abbrev pub after_attempt :
      Outcome Token → ℕ → (ℕ → Option (Outcome Token) × List ℕ) → Option (Outcome Token) × List ℕ
  after_attempt (granted t) old later = (some (granted t), [])
  after_attempt (denied f) old later = (some (denied f), [])
  after_attempt (retry_after wait) old later = later (next_interval wait old)

  -- The loop of `Poll` over a script: what it returns, if it has, and its sleeps.
  unfoldable pub poll_rounds : List Attempt → ℕ → Option (Outcome Token) × List ℕ
  poll_rounds [] current = (none, [])
  poll_rounds (a ∷ more) current =
      let (result, sleeps) =
        if a.is_stopped
        then (some (denied stopped), [])
        else after_attempt (poll_once a.response) current (poll_rounds more) in
      (result, current ∷ sleeps)

  -- `Poll`
  unfoldable pub poll_token : DeviceAuth → List Attempt → Option (Outcome Token) × List ℕ
  poll_token d script = poll_rounds script (interval d)
