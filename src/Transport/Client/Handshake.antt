-- ===== src/Transport/Client/Handshake.antt =====
-- client.go: a handshake that fails, and what `Run` makes of it.
use brother_connect.Base.{
  suc, ◌+◌, arith, ◌≡◌, refl, false, length, Option, none, some, List, [], ◌∷◌, All,
}
use brother_connect.Protocol.{
  Codec, Envelope, say_hello, encode_message, type_hello, type_token_revoked,
}
use brother_connect.Transport.Client.{
  Client, Config, Handler, Round, answers, lost, read_reply, after_hello, handshake,
  connect_and_serve, run_client,
}

-- The round comes to the handshake, and the service answers with a revocation of the token.
abbrev pub AnswersRevoked : Round → Type 0
AnswersRevoked r =
    (r.cancelled_before ≡ false)
    × (r.dial_fault ≡ none)
    × (r.hello_fault ≡ none)
    × ((e : Envelope) × (r.reply ≡ answers e) × (e.type ≡ type_token_revoked))
    × (r.cancelled_in_pause ≡ false)

module _ {B : Type 0} (codec : Codec) (config : Config) (handler : Handler B) where
  read_reply-revoked :
      (e : Envelope)
      → e.type ≡ type_token_revoked
      → read_reply codec config handler (answers e) ≡ some lost
  read_reply-revoked e t = rw t refl

  handshake-revoked :
      (e : Envelope)
      → e.type ≡ type_token_revoked
      → handshake codec config handler none (answers e) ≡ some lost
  unfolding handshake
  handshake-revoked e t = by_sending (encode_message codec type_hello (say_hello config.hello))
    where
      by_sending :
          (hello : Option Envelope)
          → after_hello codec config handler hello none (answers e) ≡ some lost
      by_sending none = refl
      by_sending (some h) = read_reply-revoked e t

  run_client-retries :
      (r : Round) (rounds : List Round) (c : Client B)
      → AnswersRevoked r
      → (c' : Client B) × (c'.dials ≡ suc c.dials)
        × (run_client codec config handler (r ∷ rounds) c
            ≡ run_client codec config handler rounds c')
  unfolding run_client connect_and_serve
  run_client-retries r rounds c (b, d, h, (e, reply, t), p) =
      rw (b, d, h, reply, handshake-revoked e t, p) (_, refl, refl)

  -- Where every round comes to the handshake, is not cancelled and has a token_revoked for the answer
  -- to the hello: `Run` has not returned after all of them, and has dialled once in each.
  pub run_client-AnswersRevoked :
      (rounds : List Round) (c : Client B)
      → All AnswersRevoked rounds
      → let (result, c') = run_client codec config handler rounds c in
        (result ≡ none) × (c'.dials ≡ length rounds + c.dials)
  unfolding run_client
  run_client-AnswersRevoked [] c a = (refl, omega arith)
  run_client-AnswersRevoked (r ∷ more) c (a, others) =
      let (c', n, same) = run_client-retries r more c a in
      let (result, m) = run_client-AnswersRevoked more c' others in
      rw same (result, omega (arith, n, m))
