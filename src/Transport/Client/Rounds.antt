-- ===== src/Transport/Client/Rounds.antt =====
-- client.go: when `Run` ends.
use brother_connect.Base.{
  ◌≢◌, suc, Bool-cases, inl, inr, ◌≡◌, refl, ap, sym, ◌∙◌, Bool, true, false, ◌++◌, Option, none,
  some, List, [], ◌∷◌, str_eq, if◌then◌else◌,
}
use brother_connect.Protocol.{Envelope, Codec, type_token_revoked}
use brother_connect.Transport.Backoff.{reset_backoff}
use brother_connect.Transport.Client.{
  Client, Config, Handler, Round, ServeEvent, receives, receive_fails, takes, ticks, context_ends,
  passes, Fault, revoked, ended_by_context, lost, pass, handle, notify, serve, trail, handshake,
  after_handshake, connect_and_serve, run_client, heartbeat_fault, take_message, after_send,
  has_message,
}

-- What a connection never touches while it is served.
abbrev pub Keeps : {B : Type 0} → Client B → Client B → Type 0
Keeps c c' = (c'.dials ≡ c.dials) × (c'.pauses ≡ c.pauses) × (c'.notified ≡ c.notified)

take_message-Keeps :
    {B : Type 0} (waiting : List Envelope) (sent : Option Fault) (c : Client B)
    → Keeps c (take_message waiting sent c)
unfolding take_message
take_message-Keeps [] sent c = (refl, refl, refl)
take_message-Keeps (e ∷ rest) sent c = (refl, refl, refl)

Keeps-trans : {B : Type 0} (c d e : Client B) → Keeps c d → Keeps d e → Keeps c e
Keeps-trans c d e (a, b, n) (a', b', n') = (a' ∙ a, b' ∙ b, n' ∙ n)

module _ {B : Type 0} (codec : Codec) (config : Config) (handler : Handler B) where
  -- Nothing here ends the connection: no revocation, no error of the reading, the writing or the
  -- heartbeat, and no end of the context.
  abbrev pub Quiet : List ServeEvent → Type 0
  Quiet [] = Unit {0}
  Quiet (receives e ∷ more) = (str_eq e.type type_token_revoked ≡ false) × Quiet more
  Quiet (takes sent ∷ more) = (sent ≡ none) × Quiet more
  Quiet (ticks sent ∷ more) = (heartbeat_fault codec config handler sent ≡ none) × Quiet more
  Quiet (passes e ∷ more) = Quiet more
  Quiet (receive_fails f ∷ more) = ⊥
  Quiet (context_ends ∷ more) = ⊥

  -- What ends the connection, and with which error.
  abbrev pub EndsBy : ServeEvent → Fault → Type 0
  EndsBy (receives e) f = (str_eq e.type type_token_revoked ≡ true) × (f ≡ revoked)
  EndsBy (receive_fails f') f = f ≡ f'
  EndsBy (ticks sent) f = heartbeat_fault codec config handler sent ≡ some f
  EndsBy context_ends f = f ≡ ended_by_context
  EndsBy _ f = ⊥

  serve-first :
      (x : ServeEvent) (after : List ServeEvent) (f : Fault) (c : Client B)
      → EndsBy x f
      → (serve codec config handler (x ∷ after) c).0 ≡ f
  unfolding serve
  serve-first (receives e) after f c (t, same) = rw t (sym same)
  serve-first (receive_fails f') after f c same = sym same
  serve-first (ticks sent) after f c same = rw same refl
  serve-first context_ends after f c same = sym same
  serve-first (takes sent) after f c b = absurd b
  serve-first (passes e) after f c b = absurd b

  serve-EndsBy :
      (before after : List ServeEvent) (x : ServeEvent) (f : Fault) (c : Client B)
      → Quiet before
      → EndsBy x f
      → (serve codec config handler (before ++ (x ∷ after)) c).0 ≡ f
  unfolding serve
  serve-EndsBy [] after x f c q t = serve-first x after f c t
  serve-EndsBy (receives e' ∷ more) after x f c (n, q) t =
      rw n (serve-EndsBy more after x f (handle handler e' c) q t)
  serve-EndsBy (takes sent ∷ more) after x f c (n, q) t = rw n (
      by_tests (has_message c.outbox.waiting) (take_message c.outbox.waiting none c) _
        (serve-EndsBy more after x f (take_message c.outbox.waiting none c) q t))
    where
      by_tests :
          (has : Bool) (now : Client B) (later : Fault × Client B)
          → later.0 ≡ f
          → (if has then after_send none now later else later).0 ≡ f
      by_tests false now later a = a
      by_tests true now later a = a
  serve-EndsBy (ticks sent ∷ more) after x f c (n, q) t = rw n (serve-EndsBy more after x f c q t)
  serve-EndsBy (passes e' ∷ more) after x f c q t = serve-EndsBy more after x f (pass e' c) q t
  serve-EndsBy (receive_fails f' ∷ more) after x f c q t = absurd q
  serve-EndsBy (context_ends ∷ more) after x f c q t = absurd q

  serve-Keeps :
      (events : List ServeEvent) (c : Client B) → Keeps c (serve codec config handler events c).1
  unfolding serve
  serve-Keeps [] c = (refl, refl, refl)
  serve-Keeps (receives e ∷ more) c = elim (Bool-cases (str_eq e.type type_token_revoked)) [
    | inl t ↦ rw t (refl, refl, refl)
    | inr f ↦ rw f (serve-Keeps more (handle handler e c))
  ]
  serve-Keeps (takes sent ∷ more) c =
      by_tests (has_message c.outbox.waiting) sent _ _ (take_message-Keeps c.outbox.waiting sent c)
        (Keeps-trans c (take_message c.outbox.waiting sent c)
          (serve codec config handler more (take_message c.outbox.waiting sent c)).1
          (take_message-Keeps c.outbox.waiting sent c)
          (serve-Keeps more (take_message c.outbox.waiting sent c)))
    where
      by_tests :
          (has : Bool) (sent : Option Fault) (now : Client B) (later : Fault × Client B)
          → Keeps c now
          → Keeps c later.1
          → Keeps c (if has then after_send sent now later else later).1
      by_tests false sent now later a b = b
      by_tests true none now later a b = b
      by_tests true (some f) now later a b = a
  serve-Keeps (ticks sent ∷ more) c =
      by_fault (heartbeat_fault codec config handler sent) (serve codec config handler more c)
        (serve-Keeps more c)
    where
      by_fault :
          (sent : Option Fault) (later : Fault × Client B)
          → Keeps c later.1
          → Keeps c (after_send sent c later).1
      by_fault none later b = b
      by_fault (some f) later b = (refl, refl, refl)
  serve-Keeps (passes e ∷ more) c = serve-Keeps more (pass e c)
  serve-Keeps (receive_fails f ∷ more) c = (refl, refl, refl)
  serve-Keeps (context_ends ∷ more) c = (refl, refl, refl)

  trail-Keeps :
      (events : List ServeEvent) (c : Client B) → Keeps c (trail codec config handler events c)
  unfolding trail
  trail-Keeps [] c = (refl, refl, refl)
  trail-Keeps (receives e ∷ more) c = elim (Bool-cases (str_eq e.type type_token_revoked)) [
    | inl t ↦ rw t (refl, refl, refl)
    | inr f ↦ rw f (trail-Keeps more (handle handler e c))
  ]
  trail-Keeps (takes sent ∷ more) c =
      Keeps-trans c (take_message c.outbox.waiting sent c)
        (trail codec config handler more (take_message c.outbox.waiting sent c))
        (take_message-Keeps c.outbox.waiting sent c)
        (trail-Keeps more (take_message c.outbox.waiting sent c))
  trail-Keeps (ticks sent ∷ more) c = trail-Keeps more c
  trail-Keeps (passes e ∷ more) c = trail-Keeps more (pass e c)
  trail-Keeps (receive_fails f ∷ more) c = trail-Keeps more c
  trail-Keeps (context_ends ∷ more) c = trail-Keeps more c

  pub after_handshake-Keeps :
      (r : Round) (c : Client B)
      → let c' = (after_handshake codec config handler none r c).1 in
        (c'.dials ≡ c.dials)
        × (c'.pauses ≡ c.pauses)
        × (c'.notified ≡ (c.notified ++ (true ∷ [])) ++ (false ∷ []))
  after_handshake-Keeps r c = let (d, p, n) = kept in (d, p, ap (λ ns. ns ++ (false ∷ [])) n)
    where
      start : Client B
      start = notify true (record c { backoff = reset_backoff c.backoff })

      kept :
          Keeps start
            (trail codec config handler r.late_events (serve codec config handler r.events start).1)
      kept =
          Keeps-trans start (serve codec config handler r.events start).1
            (trail codec config handler r.late_events (serve codec config handler r.events start).1)
            (serve-Keeps r.events start) (trail-Keeps r.late_events _)

  connect_and_serve-Keeps :
      (r : Round) (c : Client B)
      → r.dial_fault ≡ none
      → handshake codec config handler r.hello_fault r.reply ≡ none
      → let c' = (connect_and_serve codec config handler r c).1 in
        (c'.dials ≡ suc c.dials) × (c'.pauses ≡ c.pauses)
  unfolding connect_and_serve
  connect_and_serve-Keeps r c d h =
      let (dials, pauses, _) = after_handshake-Keeps r (record c { dials = suc c.dials }) in
      rw (d, h) (dials, pauses)

  connect_and_serve-EndsBy :
      (r : Round) (before after : List ServeEvent) (x : ServeEvent) (f : Fault) (c : Client B)
      → r.dial_fault ≡ none
      → handshake codec config handler r.hello_fault r.reply ≡ none
      → r.events ≡ before ++ (x ∷ after)
      → Quiet before
      → EndsBy x f
      → (connect_and_serve codec config handler r c).0 ≡ f
  unfolding connect_and_serve
  connect_and_serve-EndsBy r before after x f c d h ev q t =
      rw (d, h, ev) (serve-EndsBy before after x f _ q t)

  run_client-stops :
      (r : Round) (rounds : List Round) (c served : Client B) (f : Fault)
      → r.cancelled_before ≡ false
      → connect_and_serve codec config handler r c ≡ (f, served)
      → f ≢ lost
      → run_client codec config handler (r ∷ rounds) c ≡ (some f, served)
  unfolding run_client
  run_client-stops r rounds c served revoked b e n = rw (e, b) refl
  run_client-stops r rounds c served ended_by_context b e n = rw (e, b) refl
  run_client-stops r rounds c served lost b e n = absurd (n refl)

  -- In a round of `Run` that is not cancelled before, dials and completes the handshake, where the first
  -- event that ends the connection is a token_revoked, an error of the reading, an error of a heartbeat
  -- or the end of the context, with an error that is not taken for a lost connection: `Run` ends with
  -- that error, whatever was to come; it has dialled once more, and has not paused again.
  pub run_client-EndsBy :
      (r : Round) (rounds : List Round) (before after : List ServeEvent) (x : ServeEvent)
      (f : Fault) (c : Client B)
      → r.cancelled_before ≡ false
      → r.dial_fault ≡ none
      → handshake codec config handler r.hello_fault r.reply ≡ none
      → r.events ≡ before ++ (x ∷ after)
      → Quiet before
      → EndsBy x f
      → f ≢ lost
      → let (result, c') = run_client codec config handler (r ∷ rounds) c in
        (result ≡ some f) × (c'.dials ≡ suc c.dials) × (c'.pauses ≡ c.pauses)
  run_client-EndsBy r rounds before after x f c b d h ev q t n =
      let (dialled, paused) = connect_and_serve-Keeps r c d h in
      rw
        (run_client-stops r rounds c served.1 f b
          (ap (λ fault. (fault, served.1))
            (connect_and_serve-EndsBy r before after x f c d h ev q t))
          n)
        (refl, dialled, paused)
    where
      served : Fault × Client B
      served = connect_and_serve codec config handler r c
