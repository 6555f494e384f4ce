-- ===== src/Niimbot/Client/Requests.antt =====
-- client.go: one request: what is sent for it, and which answer it has.
use brother_connect.Base.{ℕ, ◌≤◌, ◌≡◌, refl, ap, length, List, [], ◌∷◌, ◌++◌}
use brother_connect.Niimbot.Packet.{Packet}
use brother_connect.Niimbot.Packet.Frame.{frame, marshal_cases}
use brother_connect.Niimbot.Client.{
  Result, ok, err, cancelled, write_failed, Link, WriteOutcome, written, write_error,
  write_cancelled, first_exchange, other_exchanges, first_write, await, send, drain, accept_or_next,
  answer_if, request,
}

-- The answer that the first exchange of a link holds, its stale packets left out.
abbrev pub reply : List ℕ → Link → Result Packet
reply accept l = await accept (first_exchange l.exchanges).happenings

abbrev pub command : ℕ → List ℕ → Packet
command cmd payload = record { cmd = cmd; payload = payload }

abbrev pub outcome_of : Link → WriteOutcome
outcome_of l = first_write (first_exchange l.exchanges).writes

drain-eq-nil : (ps : List Packet) → drain ps ≡ []
unfolding drain
drain-eq-nil [] = refl
drain-eq-nil (p ∷ ps) = drain-eq-nil ps

-- What a write makes of the frames that were sent, and whether it fails.
abbrev pub sent_by : WriteOutcome → List ℕ → List (List ℕ) → List (List ℕ)
sent_by write_cancelled raw sent = sent
sent_by _ raw sent = sent ++ (raw ∷ [])

abbrev pub after_write {ℓ} : {A : Type ℓ} → WriteOutcome → Result A → Result A
after_write written r = r
after_write write_error r = err write_failed
after_write write_cancelled r = err cancelled

pub send_short :
    (p : Packet) (outcome : WriteOutcome) (sent : List (List ℕ))
    → length p.payload ≤ 255
    → send p outcome sent ≡ (after_write outcome (ok tt), sent_by outcome (frame p) sent)
unfolding send
send_short p written sent h = rw ((marshal_cases p).0 h, send)
send_short p write_error sent h = rw ((marshal_cases p).0 h, send)
send_short p write_cancelled sent h = rw ((marshal_cases p).0 h, send)

-- A request of at most 255 bytes of payload, in every case: its frame is the only one that is
-- sent, and after a successful write the answer is that of the exchange, whatever stale packets
-- waited in the channel; a failed or cancelled write is the error.
pub request_lem :
    (cmd : ℕ) (payload accept : List ℕ) (l : Link)
    → length payload ≤ 255
    → request cmd payload accept l ≡ (
      after_write (outcome_of l) (reply (accept_or_next cmd accept) l),
      record {
        exchanges = other_exchanges l.exchanges;
        sent = sent_by (outcome_of l) (frame (command cmd payload)) l.sent;
      },
    )
unfolding request
request_lem cmd payload accept l h =
    rw
      (
        drain-eq-nil (first_exchange l.exchanges).stale,
        send_short (command cmd payload) (outcome_of l) l.sent h,
      )
      (ap
        (λ r. (
          r,
          record {
            exchanges = other_exchanges l.exchanges;
            sent = sent_by (outcome_of l) (frame (command cmd payload)) l.sent;
          },
        ))
        (answer_after (outcome_of l) (reply (accept_or_next cmd accept) l)))
  where
    answer_after :
        (w : WriteOutcome) (r : Result Packet)
        → answer_if (after_write w (ok tt)) r ≡ after_write w r
    answer_after written r = refl
    answer_after write_error r = refl
    answer_after write_cancelled r = refl
