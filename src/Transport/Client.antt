-- ===== src/Transport/Client.antt =====
-- internal/transport/client.go: the life of the connection. What the network and the service do is a
-- script with one entry for each round of `Run`: the outcome of the dial and of the handshake, what
-- then happens in order, and how the pause ends. A round's two goroutines take turns in any order,
-- which the script gives. The goroutine that did not fail first may go on for a moment after the
-- other: those happenings come last in a round, and are taken to end before the next one begins.
-- The handler of the bridge and its state are parameters.
pub mod Accounts
pub mod Rounds
pub mod Notifications
pub mod Handshake
mod Tests
use brother_connect.Base.{
  ℕ, zero, suc, Bool, true, false, not, ◌++◌, Option, none, some, List, [], ◌∷◌, String, str_eq,
  if◌then◌else◌,
}
use brother_connect.Protocol.{
  Envelope, Codec, Hello, Message, say_hello, say_alive, encode_message, decode_welcome, type_hello,
  type_welcome, type_heartbeat, type_token_revoked,
}
use brother_connect.Transport.Backoff.{Backoff, reset_backoff, next_delay}
use brother_connect.Transport.Outbox.{Outbox, send_message}

-- How an error looks to `errors.Is` in `Run`.
pub data Fault : Type 0 where
  revoked ended_by_context lost : Fault

-- What can happen while a connection is served. The options are the errors of `conn.Send`; `passes` is a message that another goroutine hands to `Send`.
pub data ServeEvent : Type 0 where
  receives : Envelope → ServeEvent
  receive_fails : Fault → ServeEvent
  takes : Option Fault → ServeEvent
  ticks : Option Fault → ServeEvent
  context_ends : ServeEvent
  passes : Envelope → ServeEvent

pub data Reply : Type 0 where
  answers : Envelope → Reply
  fails_with : Fault → Reply

-- One round of `Run`. Where the dial fails, with `dial_fault`, the rest is not looked at; `reply` is
-- what `Receive` gives in the handshake.
pub record Round : Type 0 where
  pub cancelled_before : Bool
  pub dial_fault : Option Fault
  pub hello_fault : Option Fault
  pub reply : Reply
  pub events : List ServeEvent
  pub late_events : List ServeEvent
  pub cancelled_in_pause : Bool

pub record Config : Type 0 where
  pub hello : Hello
  -- Whether the interval of the heartbeats is positive.
  pub has_heartbeat : Bool

-- The client, with the state of its handler, and what has happened so far: the messages taken from
-- the buffer with the errors of their sending, the calls of `OnStateChange`, and the pauses of `Run`.
pub record Client (B : Type 0) : Type 0 where
  pub bridge : B
  pub outbox : Outbox
  pub backoff : Backoff
  pub taken_messages : List (Envelope × Option Fault)
  pub notified : List Bool
  pub pauses : List ℕ
  pub dials : ℕ

abbrev pub Handler : Type 0 → Type 0
Handler B = Envelope → B × Outbox → B × Outbox

abbrev pub has_message : List Envelope → Bool
has_message [] = false
has_message (e ∷ rest) = true

module _ {B : Type 0} where
  -- `<-c.out` and `conn.Send`; with nothing in the buffer the writer does not come to this.
  unfoldable pub take_message : List Envelope → Option Fault → Client B → Client B
  take_message [] sent c = c
  take_message (e ∷ rest) sent c = record c {
    outbox = record c.outbox { waiting = rest };
    taken_messages = c.taken_messages ++ ((e, sent) ∷ []);
  }

  -- What `Send` in another goroutine does to the client.
  abbrev pub pass : Envelope → Client B → Client B
  pass e c = record c { outbox = (send_message c.outbox e).0 }

  -- The handler's turn.
  abbrev pub handle : Handler B → Envelope → Client B → Client B
  handle handler e c =
      let (b, o) = handler e (c.bridge, c.outbox) in record c { bridge = b; outbox = o }

  abbrev pub notify : Bool → Client B → Client B
  notify connected c = record c { notified = c.notified ++ (connected ∷ []) }

  -- The writer goes on unless `conn.Send` failed.
  abbrev pub after_send : Option Fault → Client B → Fault × Client B → Fault × Client B
  after_send none c later = later
  after_send (some f) c later = (f, c)

  -- The `switch` of `Run`: whether it returns, and the client after the pause begins.
  abbrev pub after_round : Fault → Bool → Client B → Option Fault × Client B
  after_round revoked stops c = (some revoked, c)
  after_round ended_by_context stops c = (some ended_by_context, c)
  after_round lost stops c =
      let (delay, b) = next_delay c.backoff in
      (
        if stops then some ended_by_context else none,
        record c { backoff = b; pauses = c.pauses ++ (delay ∷ []) },
      )

  abbrev pub or_later : Option Fault → Client B → Option Fault × Client B → Option Fault × Client B
  or_later (some f) c later = (some f, c)
  or_later none c later = later

module _ {B : Type 0} (codec : Codec) (config : Config) (handler : Handler B) where
  -- A tick of the heartbeat: the error of the encoding or of the sending.
  abbrev pub heartbeat_fault : Option Fault → Option Fault
  heartbeat_fault sent =
      if config.has_heartbeat
      then elim (encode_message codec type_heartbeat (say_alive config.hello.installation_id)) [
        | none ↦ some lost
        | some e ↦ sent
      ]
      else none

  -- `readLoop` and `writeLoop` until the first of them fails. A script that ends is a lost
  -- connection.
  unfoldable pub serve : List ServeEvent → Client B → Fault × Client B
  unfolding take_message
  serve [] c = (lost, c)
  serve (receives e ∷ more) c =
      let later = serve more (handle handler e c) in
      if str_eq e.type type_token_revoked then (revoked, c) else later
  serve (receive_fails f ∷ more) c = (f, c)
  serve (takes sent ∷ more) c =
      let c' = take_message c.outbox.waiting sent c in
      let later = serve more c' in
      if has_message c.outbox.waiting then after_send sent c' later else later
  serve (ticks sent ∷ more) c = after_send (heartbeat_fault sent) c (serve more c)
  serve (context_ends ∷ more) c = (ended_by_context, c)
  serve (passes e ∷ more) c = serve more (pass e c)

  -- The goroutine that goes on: its own errors are read by nobody.
  unfoldable pub trail : List ServeEvent → Client B → Client B
  unfolding take_message
  trail [] c = c
  trail (receives e ∷ more) c =
      if str_eq e.type type_token_revoked then c else trail more (handle handler e c)
  trail (takes sent ∷ more) c = trail more (take_message c.outbox.waiting sent c)
  trail (passes e ∷ more) c = trail more (pass e c)
  trail (_ ∷ more) c = trail more c

  -- The answer to the `hello`. A welcome of another protocol version is accepted.
  abbrev pub read_reply : Reply → Option Fault
  read_reply (fails_with f) = some f
  read_reply (answers e) =
      if not (str_eq e.type type_welcome)
      then some lost
      else elim (decode_welcome codec e) [ none ↦ some lost | some w ↦ none ]

  -- The handshake from the sending of the encoded hello on.
  abbrev pub after_hello : Option Envelope → Option Fault → Reply → Option Fault
  after_hello none sent reply = some lost
  after_hello (some hello) (some f) reply = some f
  after_hello (some hello) none reply = read_reply reply

  -- `handshake`: the error, if it fails.
  unfoldable pub handshake : Option Fault → Reply → Option Fault
  handshake sent reply =
      after_hello (encode_message codec type_hello (say_hello config.hello)) sent reply

  -- `connectAndServe` from the handshake on.
  abbrev pub after_handshake : Option Fault → Round → Client B → Fault × Client B
  after_handshake (some f) r c = (f, c)
  after_handshake none r c =
      let (f, c') = serve r.events (notify true (record c { backoff = reset_backoff c.backoff })) in
      (f, notify false (trail r.late_events c'))

  abbrev pub after_dial : Option Fault → Round → Client B → Fault × Client B
  after_dial (some f) r c = (f, c)
  after_dial none r c = after_handshake (handshake r.hello_fault r.reply) r c

  -- `connectAndServe`; it always ends with an error.
  unfoldable pub connect_and_serve : Round → Client B → Fault × Client B
  connect_and_serve r c = after_dial r.dial_fault r (record c { dials = suc c.dials })

  -- `Run` over a script: `none` is that it has not returned when the script ends.
  unfoldable pub run_client : List Round → Client B → Option Fault × Client B
  run_client [] c = (none, c)
  run_client (r ∷ more) c =
      let (f, served) = connect_and_serve r c in
      let (result, c') = after_round f r.cancelled_in_pause served in
      let later = run_client more c' in
      if r.cancelled_before then (some ended_by_context, c) else or_later result c' later
