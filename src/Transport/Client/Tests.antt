-- ===== src/Transport/Client/Tests.antt =====
-- client.go: a client whose handler answers every message by the message itself.
use brother_connect.Base.{ℕ, ◌+◌, ◌≡◌, refl, true, false, none, some, List, [], ◌∷◌, arith, String}
use brother_connect.Protocol.{
  Codec, encode_message, decode_welcome, Envelope, type_token_revoked, type_welcome,
  type_job_deliver,
}
use brother_connect.Transport.Backoff.{
  default_backoff, next_delay, capped_delay, grow, reset_backoff,
}
use brother_connect.Transport.Outbox.{new_outbox, send_message}
use brother_connect.Transport.Client.{
  Client, Config, Handler, Round, answers, lost, revoked, takes, receives, ticks, handshake, serve,
  trail, take_message, run_client, connect_and_serve,
}
use brother_connect.Transport.Client.Accounts.{
  one_send, no_send, IsAccounted, run_client-IsAccounted,
}
use brother_connect.Transport.Client.Rounds.{run_client-EndsBy}
use brother_connect.Transport.Client.Notifications.{Notified, run_client-Notified}
use brother_connect.Transport.Client.Handshake.{run_client-AnswersRevoked}

abbrev codec : Codec
codec = record {
  marshal_json = λ m. some [];
  read_job = λ bytes. none;
  read_welcome = λ bytes. some (record { protocol_version = 1; session_id = "s" });
}

abbrev config : Config
config = record {
  hello = record { protocol_version = 1; installation_id = "i"; bridge_version = "dev" };
  has_heartbeat = true;
}

abbrev echo : Handler ℕ
echo e (n, o) = (n + 1, (send_message o e).0)

abbrev start : Client ℕ
start = record {
  bridge = 0;
  outbox = new_outbox 2;
  backoff = default_backoff;
  taken_messages = [];
  notified = [];
  pauses = [];
  dials = 0;
}

abbrev envelope : String → Envelope
envelope t = record { type = t; payload = [] }

abbrev good_round : Round
good_round = record {
  cancelled_before = false;
  dial_fault = none;
  hello_fault = none;
  reply = answers (envelope type_welcome);
  events =
      receives (envelope type_job_deliver)
      ∷ receives (envelope type_job_deliver)
      ∷ receives (envelope type_job_deliver)
      ∷ takes none
      ∷ ticks none
      ∷ receives (envelope type_token_revoked)
      ∷ [];
  late_events = takes (some lost) ∷ [];
  cancelled_in_pause = false;
}

abbrev refused_round : Round
refused_round = record good_round { reply = answers (envelope type_token_revoked); events = [] }

abbrev rounds : List Round
rounds = refused_round ∷ good_round ∷ refused_round ∷ []

run_delays : (run_client codec config echo rounds start).1.pauses ≡ 500000000 ∷ []
unfolding run_client connect_and_serve handshake encode_message decode_welcome serve trail
    take_message send_message new_outbox next_delay capped_delay grow reset_backoff
run_delays = refl

run_client-IsAccounted_example : IsAccounted (run_client codec config echo rounds start).1
unfolding new_outbox
run_client-IsAccounted_example =
    run_client-IsAccounted codec config echo (λ e n o. one_send e (no_send refl)) rounds start
      (refl, omega arith)

run_client-EndsBy_example :
    let (result, c') = run_client codec config echo (good_round ∷ rounds) start in
    (result ≡ some revoked) × (c'.dials ≡ 1) × (c'.pauses ≡ [])
unfolding handshake encode_message decode_welcome
run_client-EndsBy_example =
    run_client-EndsBy codec config echo good_round rounds
      (receives (envelope type_job_deliver)
        ∷ receives (envelope type_job_deliver)
        ∷ receives (envelope type_job_deliver)
        ∷ takes none
        ∷ ticks none
        ∷ [])
      [] (receives (envelope type_token_revoked)) revoked start refl refl refl refl
      (refl, (refl, (refl, (refl, (refl, tt))))) (refl, refl) (λ e. cc e)

run_client-Notified_example : Notified start (run_client codec config echo rounds start).1
run_client-Notified_example = run_client-Notified codec config echo rounds start

run_client-AnswersRevoked_example :
    let (result, c') = run_client codec config echo (refused_round ∷ refused_round ∷ []) start in
    (result ≡ none) × (c'.dials ≡ 2 + 0)
run_client-AnswersRevoked_example =
    run_client-AnswersRevoked codec config echo (refused_round ∷ refused_round ∷ []) start (
      ((refl, refl, refl, (envelope type_token_revoked, refl, refl), refl)),
      ((refl, refl, refl, (envelope type_token_revoked, refl, refl), refl), tt),
    )
