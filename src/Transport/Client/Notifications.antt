-- ===== src/Transport/Client/Notifications.antt =====
-- client.go: what `Run` tells of the connection by `OnStateChange`.
use brother_connect.Base.{
  ℕ, zero, suc, ◌+◌, ◌≤◌, arith, ◌≡◌, ap, sym, ◌∙◌, Bool, true, false, ◌++◌, append_assoc,
  append-nil, Option, none, some, List, [], ◌∷◌, if◌then◌else◌,
}
use brother_connect.Protocol.{Codec}
use brother_connect.Transport.Client.{
  Client, Config, Handler, Round, Fault, revoked, ended_by_context, lost, handshake,
  after_handshake, after_dial, connect_and_serve, after_round, or_later, run_client,
}
use brother_connect.Transport.Client.Rounds.{after_handshake-Keeps}

-- The calls of `OnStateChange` of some connections, each of which came up and went down.
abbrev pub ups_and_downs : ℕ → List Bool
ups_and_downs zero = []
ups_and_downs (suc n) = true ∷ false ∷ ups_and_downs n

suc_add : (n m : ℕ) → suc n + m ≡ suc (n + m)
suc_add n m = omega arith

ups_and_downs-add : (n m : ℕ) → ups_and_downs (n + m) ≡ ups_and_downs n ++ ups_and_downs m
ups_and_downs-add zero m = ap (λ k. ups_and_downs k) (omega arith)
ups_and_downs-add (suc n) m =
    ap (λ k. ups_and_downs k) (suc_add n m) ∙ ap (λ bs. true ∷ false ∷ bs) (ups_and_downs-add n m)

-- Since the client was `c`, `OnStateChange` has been called with `true` and then `false` as often as
-- some number that is at most the number of the dials since then.
abbrev pub Notified : {B : Type 0} → Client B → Client B → Type 0
Notified c c' = (n : ℕ) × (n + c.dials ≤ c'.dials) × (c'.notified ≡ c.notified ++ ups_and_downs n)

module _ {B : Type 0} where
  Notified-refl : (c : Client B) → Notified c c
  Notified-refl c = (0, omega arith, sym (append-nil c.notified))

  Notified-trans : (c d e : Client B) → Notified c d → Notified d e → Notified c e
  Notified-trans c d e (n, le, eq) (m, le', eq') = (
    n + m,
    omega (arith, le, le'),
    eq'
        ∙ ap (λ bs. bs ++ ups_and_downs m) eq
        ∙ append_assoc c.notified (ups_and_downs n) (ups_and_downs m)
        ∙ ap (λ bs. c.notified ++ bs) (sym (ups_and_downs-add n m)),
  )

  after_round-Notified :
      (f : Fault) (stops : Bool) (c : Client B) → Notified c (after_round f stops c).1
  after_round-Notified revoked stops c = Notified-refl c
  after_round-Notified ended_by_context stops c = Notified-refl c
  after_round-Notified lost stops c = Notified-refl c

module _ {B : Type 0} (codec : Codec) (config : Config) (handler : Handler B) where
  connect_and_serve-Notified :
      (r : Round) (c : Client B) → Notified c (connect_and_serve codec config handler r c).1
  unfolding connect_and_serve
  connect_and_serve-Notified r c = by_dial r.dial_fault
    where
      failed : Notified c (record c { dials = suc c.dials })
      failed = (0, omega arith, sym (append-nil c.notified))

      served :
          (served : Client B)
          → (served.dials ≡ suc c.dials)
          → (served.notified ≡ (c.notified ++ (true ∷ [])) ++ (false ∷ []))
          → Notified c served
      served s n eq = (1, omega (arith, n), eq ∙ append_assoc c.notified (true ∷ []) (false ∷ []))

      by_handshake :
          (fault : Option Fault)
          → Notified c
              (after_handshake codec config handler fault r (record c { dials = suc c.dials })).1
      by_handshake (some f) = failed
      by_handshake none =
          let (d, _, n) =
            after_handshake-Keeps codec config handler r (record c { dials = suc c.dials }) in
          served (after_handshake codec config handler none r (record c { dials = suc c.dials })).1
            d n

      by_dial :
          (fault : Option Fault)
          → Notified c
              (after_dial codec config handler fault r (record c { dials = suc c.dials })).1
      by_dial (some f) = failed
      by_dial none = by_handshake (handshake codec config handler r.hello_fault r.reply)

  -- After any number of rounds of `Run`, `OnStateChange` has been called, since the start, with `true`
  -- and then `false`, as often as some number that is at most the number of the dials since the start.
  pub run_client-Notified :
      (rounds : List Round) (c : Client B) → Notified c (run_client codec config handler rounds c).1
  unfolding run_client
  run_client-Notified [] c = Notified-refl c
  run_client-Notified (r ∷ more) c =
      by_tests r.cancelled_before (after_round served.0 r.cancelled_in_pause served.1).0 _ _ kept (
        Notified-trans c (after_round served.0 r.cancelled_in_pause served.1).1
          (run_client codec config handler more
            (after_round served.0 r.cancelled_in_pause served.1).1).1
          kept (run_client-Notified more (after_round served.0 r.cancelled_in_pause served.1).1))
    where
      served : Fault × Client B
      served = connect_and_serve codec config handler r c

      kept : Notified c (after_round served.0 r.cancelled_in_pause served.1).1
      kept =
          Notified-trans c served.1 (after_round served.0 r.cancelled_in_pause served.1).1
            (connect_and_serve-Notified r c)
            (after_round-Notified served.0 r.cancelled_in_pause served.1)

      by_tests :
          (cancelled : Bool) (result : Option Fault) (c' : Client B)
          (later : Option Fault × Client B)
          → Notified c c'
          → Notified c later.1
          → Notified c
              (if cancelled then ((some ended_by_context), c) else or_later result c' later).1
      by_tests true result c' later b d = Notified-refl c
      by_tests false (some f) c' later b d = b
      by_tests false none c' later b d = d
