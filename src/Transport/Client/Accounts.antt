-- ===== src/Transport/Client/Accounts.antt =====
-- client.go: no message is lost in the buffer, and none overtakes another.
use brother_connect.Base.{
  suc, ◌≤◌, ◌≡◌, refl, sym, ap, ◌∙◌, ltb, length, length-append, map, append_assoc, Bool, true,
  false, Bool-cases, inl, inr, List, [], ◌∷◌, ◌++◌, Option, none, some, str_eq, if◌then◌else◌,
  arith,
}
use brother_connect.Protocol.{Envelope, Codec, type_token_revoked}
use brother_connect.Transport.Outbox.{Outbox, send_message}
use brother_connect.Transport.Client.{
  Client, Config, Handler, Round, ServeEvent, receives, receive_fails, takes, ticks, context_ends,
  passes, Fault, revoked, ended_by_context, lost, take_message, after_send, has_message, pass,
  handle, serve, trail, handshake, after_handshake, after_dial, connect_and_serve, after_round,
  or_later, run_client, heartbeat_fault,
}

-- One outbox becomes another by calls of `Send`.
pub data SendsTo : Outbox → Outbox → Type 0 where
  no_send : {o o' : Outbox} → o ≡ o' → SendsTo o o'
  one_send : {o o' : Outbox} (e : Envelope) → SendsTo (send_message o e).0 o' → SendsTo o o'

abbrev pub envelopes_of : List (Envelope × Option Fault) → List Envelope
envelopes_of ts = map (λ (t : Envelope × Option Fault). t.0) ts

-- What was taken and what waits is what `Send` took, in that order, and the buffer is not exceeded.
abbrev pub Accounts : List (Envelope × Option Fault) → Outbox → Type 0
Accounts taken o =
    (envelopes_of taken ++ o.waiting ≡ o.accepted_messages) × (length o.waiting ≤ o.buffer_size)

abbrev pub IsAccounted : {B : Type 0} → Client B → Type 0
IsAccounted c = Accounts c.taken_messages c.outbox

send_message-Accounts :
    (taken : List (Envelope × Option Fault)) (o : Outbox) (e : Envelope)
    → Accounts taken o
    → Accounts taken (send_message o e).0
unfolding send_message
send_message-Accounts taken o e (same, room) =
    elim (Bool-cases (ltb (length o.waiting) o.buffer_size)) [
      | inl t ↦ rw t (
        sym (append_assoc (envelopes_of taken) o.waiting (e ∷ [])) ∙ ap (λ es. es ++ (e ∷ [])) same,
        ground (arith, length-append o.waiting (e ∷ [])),
      )
      | inr f ↦ rw f (same, room)
    ]

pub SendsTo-Accounts :
    (taken : List (Envelope × Option Fault)) {o o' : Outbox}
    → SendsTo o o'
    → Accounts taken o
    → Accounts taken o'
SendsTo-Accounts taken (no_send e) a = rw (← e) a
SendsTo-Accounts taken {o} (one_send e s) a =
    SendsTo-Accounts taken s (send_message-Accounts taken o e a)

envelopes_of-snoc :
    (taken : List (Envelope × Option Fault)) (e : Envelope) (sent : Option Fault)
    → envelopes_of (taken ++ ((e, sent) ∷ [])) ≡ envelopes_of taken ++ (e ∷ [])
envelopes_of-snoc [] e sent = refl
envelopes_of-snoc (t ∷ ts) e sent = ap (λ es. t.0 ∷ es) (envelopes_of-snoc ts e sent)

take_message-IsAccounted :
    {B : Type 0} (waiting : List Envelope) (sent : Option Fault) (c : Client B)
    → c.outbox.waiting ≡ waiting
    → IsAccounted c
    → IsAccounted (take_message waiting sent c)
unfolding take_message
take_message-IsAccounted [] sent c w a = a
take_message-IsAccounted (e ∷ rest) sent c w (same, room) = (
  ap (λ es. es ++ rest) (envelopes_of-snoc c.taken_messages e sent)
      ∙ append_assoc (envelopes_of c.taken_messages) (e ∷ []) rest
      ∙ ap (λ es. envelopes_of c.taken_messages ++ es) (sym w)
      ∙ same,
  shorter (ap (λ es. length es) w),
)
  where
    shorter : length c.outbox.waiting ≡ suc (length rest) → length rest ≤ c.outbox.buffer_size
    shorter n = omega (arith, n, room)

module _ {B : Type 0} (codec : Codec) (config : Config) (handler : Handler B)
    (only_sends : (e : Envelope) (b : B) (o : Outbox) → SendsTo o (handler e (b, o)).1) where
  handle-IsAccounted :
      (e : Envelope) (c : Client B) → IsAccounted c → IsAccounted (handle handler e c)
  handle-IsAccounted e c a = SendsTo-Accounts c.taken_messages (only_sends e c.bridge c.outbox) a

  pass-IsAccounted : (e : Envelope) (c : Client B) → IsAccounted c → IsAccounted (pass e c)
  pass-IsAccounted e c a = send_message-Accounts c.taken_messages c.outbox e a

  serve-IsAccounted :
      (events : List ServeEvent) (c : Client B)
      → IsAccounted c
      → IsAccounted (serve codec config handler events c).1
  unfolding serve
  serve-IsAccounted [] c a = a
  serve-IsAccounted (receives e ∷ more) c a = elim (Bool-cases (str_eq e.type type_token_revoked)) [
    | inl t ↦ rw t a
    | inr f ↦ rw f (serve-IsAccounted more (handle handler e c) (handle-IsAccounted e c a))
  ]
  serve-IsAccounted (receive_fails f ∷ more) c a = a
  serve-IsAccounted (takes sent ∷ more) c a =
      by_tests (has_message c.outbox.waiting) sent _ _
        (take_message-IsAccounted c.outbox.waiting sent c refl a)
        (serve-IsAccounted more (take_message c.outbox.waiting sent c)
          (take_message-IsAccounted c.outbox.waiting sent c refl a))
    where
      by_tests :
          (has : Bool) (sent : Option Fault) (now : Client B) (later : Fault × Client B)
          → IsAccounted now
          → IsAccounted later.1
          → IsAccounted (if has then after_send sent now later else later).1
      by_tests false sent now later a b = b
      by_tests true none now later a b = b
      by_tests true (some f) now later a b = a
  serve-IsAccounted (ticks sent ∷ more) c a =
      by_fault (heartbeat_fault codec config handler sent) (serve codec config handler more c)
        (serve-IsAccounted more c a)
    where
      by_fault :
          (sent : Option Fault) (later : Fault × Client B)
          → IsAccounted later.1
          → IsAccounted (after_send sent c later).1
      by_fault none later b = b
      by_fault (some f) later b = a
  serve-IsAccounted (context_ends ∷ more) c a = a
  serve-IsAccounted (passes e ∷ more) c a =
      serve-IsAccounted more (pass e c) (pass-IsAccounted e c a)

  trail-IsAccounted :
      (events : List ServeEvent) (c : Client B)
      → IsAccounted c
      → IsAccounted (trail codec config handler events c)
  unfolding trail
  trail-IsAccounted [] c a = a
  trail-IsAccounted (receives e ∷ more) c a = elim (Bool-cases (str_eq e.type type_token_revoked)) [
    | inl t ↦ rw t a
    | inr f ↦ rw f (trail-IsAccounted more (handle handler e c) (handle-IsAccounted e c a))
  ]
  trail-IsAccounted (receive_fails f ∷ more) c a = trail-IsAccounted more c a
  trail-IsAccounted (takes sent ∷ more) c a =
      trail-IsAccounted more _ (take_message-IsAccounted c.outbox.waiting sent c refl a)
  trail-IsAccounted (ticks sent ∷ more) c a = trail-IsAccounted more c a
  trail-IsAccounted (context_ends ∷ more) c a = trail-IsAccounted more c a
  trail-IsAccounted (passes e ∷ more) c a =
      trail-IsAccounted more (pass e c) (pass-IsAccounted e c a)

  after_handshake-IsAccounted :
      (fault : Option Fault) (r : Round) (c : Client B)
      → IsAccounted c
      → IsAccounted (after_handshake codec config handler fault r c).1
  after_handshake-IsAccounted (some f) r c a = a
  after_handshake-IsAccounted none r c a =
      trail-IsAccounted r.late_events _ (serve-IsAccounted r.events _ a)

  connect_and_serve-IsAccounted :
      (r : Round) (c : Client B)
      → IsAccounted c
      → IsAccounted (connect_and_serve codec config handler r c).1
  unfolding connect_and_serve
  connect_and_serve-IsAccounted r c a = by_dial r.dial_fault
    where
      by_dial :
          (fault : Option Fault)
          → IsAccounted
              (after_dial codec config handler fault r (record c { dials = suc c.dials })).1
      by_dial (some f) = a
      by_dial none =
          after_handshake-IsAccounted (handshake codec config handler r.hello_fault r.reply) r _ a

  after_round-IsAccounted :
      (f : Fault) (stops : Bool) (c : Client B)
      → IsAccounted c
      → IsAccounted (after_round f stops c).1
  after_round-IsAccounted revoked stops c a = a
  after_round-IsAccounted ended_by_context stops c a = a
  after_round-IsAccounted lost stops c a = a

  -- Whatever the network and the service do, with a handler that uses the buffer only by `Send`, and
  -- from a client in which this holds: after any number of rounds of `Run`, the messages taken from the
  -- buffer and then those that wait in it are the messages that `Send` took, in their order, and no
  -- more wait than the buffer holds.
  pub run_client-IsAccounted :
      (rounds : List Round) (c : Client B)
      → IsAccounted c
      → IsAccounted (run_client codec config handler rounds c).1
  unfolding run_client
  run_client-IsAccounted [] c a = a
  run_client-IsAccounted (r ∷ more) c a =
      by_tests r.cancelled_before (after_round served.0 r.cancelled_in_pause served.1).0 _ _ a kept
        (run_client-IsAccounted more _ kept)
    where
      served : Fault × Client B
      served = connect_and_serve codec config handler r c

      kept : IsAccounted (after_round served.0 r.cancelled_in_pause served.1).1
      kept =
          after_round-IsAccounted served.0 r.cancelled_in_pause served.1
            (connect_and_serve-IsAccounted r c a)

      by_tests :
          (cancelled : Bool) (result : Option Fault) (c' : Client B)
          (later : Option Fault × Client B)
          → IsAccounted c
          → IsAccounted c'
          → IsAccounted later.1
          → IsAccounted
              (if cancelled then ((some ended_by_context), c) else or_later result c' later).1
      by_tests true result c' later a b d = a
      by_tests false (some f) c' later a b d = b
      by_tests false none c' later a b d = d
