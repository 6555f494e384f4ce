-- ===== src/Niimbot/Client.antt =====
-- internal/niimbot/client.go: one request and its response. What the link does is a script: for
-- each exchange the packets that were in the channel before it, the outcomes of its writes, and
-- what the wait for the answer meets, in order. A script that has run out is a silent printer: a
-- write succeeds and a wait ends with its timer. Logging is left out.
pub mod Replies
pub mod Requests
pub mod Answers
pub mod Heartbeats
mod Tests
use brother_connect.Base.{
  ℕ, zero, suc, ◌+◌, ◌%◌, ◌==◌, ltb, get_or, length, Bool, true, false, Option, none, some, List,
  [], ◌∷◌, ◌++◌, if◌then◌else◌,
}
use brother_connect.Niimbot.Packet.{Packet, Marshalled, wire, failed, marshal}
use brother_connect.Niimbot.Commands.{resp_print_error, resp_not_supported}

-- The errors of the client, as `errors.Is` and `errors.As` find them under the wrapping texts;
-- `panicked` is a panic of Go.
pub data ClientError : Type 0 where
  packet_too_long write_failed cancelled link_closed timeout not_supported short_status :
      ClientError
  image_too_wide invalid_rows panicked : ClientError
  print_error : ℕ → ClientError

pub data Result {ℓ} (A : Type ℓ) : Type ℓ where
  ok : A → Result A
  err : ClientError → Result A

-- What one `select` of `await` can receive.
pub data Happening : Type 0 where
  packet : Packet → Happening
  timer context_done closed : Happening

-- What a paced write can come to.
pub data WriteOutcome : Type 0 where
  written write_error write_cancelled : WriteOutcome

pub record Exchange : Type 0 where
  pub stale : List Packet
  pub writes : List WriteOutcome
  pub happenings : List Happening
  -- The context ends in the pause before this exchange, where there is one.
  pub pause_cancelled : Bool

-- The link: the exchanges to come, and the frames that were handed to `Transport.Write`.
pub record Link : Type 0 where
  pub exchanges : List Exchange
  pub sent : List (List ℕ)

abbrev pub silent : Exchange
silent = record { stale = []; writes = []; happenings = []; pause_cancelled = false }

abbrev pub first_exchange : List Exchange → Exchange
first_exchange [] = silent
first_exchange (x ∷ xs) = x

abbrev pub other_exchanges : List Exchange → List Exchange
other_exchanges [] = []
other_exchanges (x ∷ xs) = xs

-- A step over the link that can fail.
abbrev pub M : Type 0 → Type 0
M A = Link → Result A × Link

infixl 5 ◌>>=◌ ◌>>◌
abbrev pub ◌>>=◌ : {A B : Type 0} → M A → (A → M B) → M B
◌>>=◌ m f l = let (r, l') = m l in elim r [ ok a ↦ f a l' | err e ↦ (err e, l') ]

abbrev pub ◌>>◌ : {A B : Type 0} → M A → M B → M B
m >> k = m >>= λ _. k

abbrev pub pure : {A : Type 0} → A → M A
pure a l = (ok a, l)

-- `contains`
unfoldable pub contains : List ℕ → ℕ → Bool
contains [] b = false
contains (x ∷ xs) b = let later = contains xs b in if x == b then true else later

-- The error code of a `RespPrintError`.
abbrev pub error_code : List ℕ → ℕ
error_code [] = 0
error_code (code ∷ _) = code

-- `await`; the packets that a `select` takes are the `packet` happenings.
unfoldable pub await : List ℕ → List Happening → Result Packet
await accept [] = err timeout
await accept (packet p ∷ more) =
    let later = await accept more in
    if p.cmd == resp_print_error
    then err (print_error (error_code p.payload))
    else if p.cmd == resp_not_supported
    then err not_supported
    else if contains accept p.cmd
    then ok p
    else later
await accept (timer ∷ more) = err timeout
await accept (context_done ∷ more) = err cancelled
await accept (closed ∷ more) = err link_closed

-- A write uses up one outcome; beyond the script writes succeed.
abbrev pub first_write : List WriteOutcome → WriteOutcome
first_write [] = written
first_write (w ∷ ws) = w

abbrev pub other_writes : List WriteOutcome → List WriteOutcome
other_writes [] = []
other_writes (w ∷ ws) = ws

-- `send`: the outcome, and the frames handed to the transport so far.
unfoldable pub send : Packet → WriteOutcome → List (List ℕ) → Result (Unit {0}) × List (List ℕ)
send p outcome sent = elim (marshal p) [
  | failed e ↦ (err packet_too_long, sent)
  | wire raw ↦ elim outcome [
    | written ↦ (ok tt, sent ++ (raw ∷ []))
    | write_error ↦ (err write_failed, sent ++ (raw ∷ []))
    | write_cancelled ↦ (err cancelled, sent)
  ]
]

-- `drain`: every packet that waits in the channel is discarded.
unfoldable pub drain : List Packet → List Packet
drain [] = []
drain (p ∷ ps) = drain ps

abbrev pub arrivals : List Packet → List Happening → List Happening
arrivals [] hs = hs
arrivals (p ∷ ps) hs = packet p ∷ arrivals ps hs

-- The commands that answer a request; by default the next code.
unfoldable pub accept_or_next : ℕ → List ℕ → List ℕ
accept_or_next cmd [] = ((cmd + 1) % 256) ∷ []
accept_or_next cmd (a ∷ as_) = a ∷ as_

-- The answer counts only if the write succeeded.
abbrev pub answer_if : {A : Type 0} → Result (Unit {0}) → Result A → Result A
answer_if (err e) answer = err e
answer_if (ok _) answer = answer

-- `Request`: one exchange, from draining to the answer.
unfoldable pub request : ℕ → List ℕ → List ℕ → M Packet
unfolding drain
request cmd payload accept l =
    let x = first_exchange l.exchanges in
    let waiting = drain x.stale in
    let (outcome, sent') =
      send (record { cmd = cmd; payload = payload }) (first_write x.writes) l.sent in
    let answer = await (accept_or_next cmd accept) (arrivals waiting x.happenings) in
    let l' : Link = record { exchanges = other_exchanges l.exchanges; sent = sent' } in
    (answer_if outcome answer, l')

-- `err == nil || !errors.Is(err, ErrTimeout)`
abbrev pub if_late : Result Packet → Link → Result Packet × Link → Result Packet × Link
if_late (ok p) l again = (ok p, l)
if_late (err timeout) l again = again
if_late (err e) l again = (err e, l)

-- `requestRetry`: again after a timeout, while attempts are left. Before the first attempt the
-- answer is Go's zero packet with no error.
unfoldable pub request_retry : ℕ → ℕ → List ℕ → List ℕ → M Packet
request_retry zero cmd payload accept l = (ok (record { cmd = 0; payload = [] }), l)
request_retry (suc zero) cmd payload accept l = request cmd payload accept l
request_retry (suc (suc attempts)) cmd payload accept l =
    let (r, l') = request cmd payload accept l in
    let again = request_retry (suc attempts) cmd payload accept l' in if_late r l' again

-- `sendRows` up to the last write: the packets go out one after the other until one fails.
unfoldable pub send_all :
    List Packet → List WriteOutcome → List (List ℕ) → Result (Unit {0}) × List (List ℕ)
send_all [] ws sent = (ok tt, sent)
send_all (p ∷ ps) ws sent =
    let (outcome, sent') = send p (first_write ws) sent in
    let later = send_all ps (other_writes ws) sent' in
    elim outcome [ err e ↦ (err e, sent') | ok _ ↦ later ]
