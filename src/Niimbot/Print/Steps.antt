-- ===== src/Niimbot/Print/Steps.antt =====
-- client.go: the frames that one request, or the sending of the rows, puts on the link.
use brother_connect.Base.{
  ℕ, ◌≤◌, ◌≡◌, refl, sym, ap, ◌∙◌, length, List, [], ◌∷◌, ◌++◌, append-nil, append_assoc, map, All,
  arith,
}
use brother_connect.Niimbot.Packet.{Packet}
use brother_connect.Niimbot.Packet.Frame.{frame}
use brother_connect.Niimbot.Commands.{resp_page_end}
use brother_connect.Niimbot.Client.{
  M, Result, ok, err, ClientError, WriteOutcome, written, write_error, write_cancelled, first_write,
  other_writes, Link, request, send_all, ◌>>=◌, pure, answer_if, await, drain, arrivals,
  first_exchange, other_exchanges,
}
use brother_connect.Niimbot.Client.Requests.{
  request_lem, command, outcome_of, sent_by, after_write, send_short,
}
use brother_connect.Niimbot.Print.{send_rows, page_end, no_value}

-- On success the step sends these frames, in this order and nothing else.
abbrev pub Sends : {A : Type 0} → M A → List (List ℕ) → Type 0
Sends {A} m fs = (l l' : Link) (a : A) → m l ≡ (ok a, l') → l'.sent ≡ l.sent ++ fs

abbrev pub one_frame : ℕ → List ℕ → List (List ℕ)
one_frame cmd payload = frame (command cmd payload) ∷ []

pub no_success :
    {A B : Type 0} {e : ClientError} {a : A} {k l' : Link}
    → ◌≡◌ {A = Result A × Link} (err e, k) (ok a, l')
    → B
no_success {A} {B} {e} {a} {k} {l'} h = absurd (no_ok h)
  where
    no_ok : ◌≡◌ {A = Result A × Link} (err e, k) (ok a, l') → ⊥
    no_ok h = cc h

-- A success of two steps is a success of each.
pub then-ok :
    {A B : Type 0} (m : M A) (f : A → M B) (l l' : Link) (b : B)
    → (m >>= f) l ≡ (ok b, l')
    → (a : A) × (k : Link) × (m l ≡ (ok a, k)) × (f a k ≡ (ok b, l'))
then-ok {A} {B} m f l l' b e = by_result (m l) refl e
  where
    by_result :
        (r : Result A × Link)
        → m l ≡ r
        → ((λ (k : Link). r) >>= f) l ≡ (ok b, l')
        → (a : A) × (k : Link) × (m l ≡ (ok a, k)) × (f a k ≡ (ok b, l'))
    by_result (ok a, k) s e = (a, k, s, e)
    by_result (err d, k) s e = no_success e

pub Sends-then :
    {A B : Type 0} (m : M A) (f : A → M B) (fs gs : List (List ℕ))
    → Sends m fs
    → ((a : A) → Sends (f a) gs)
    → Sends (m >>= f) (fs ++ gs)
Sends-then m f fs gs s t l l' b e =
    let (a, k, first, second) = then-ok m f l l' b e in
    t a k l' b second ∙ ap (λ z. z ++ gs) (s l k a first) ∙ append_assoc l.sent fs gs

pub Sends-pure : {A : Type 0} (a : A) → Sends (pure a) []
Sends-pure {A} a l l' b e = ap sent_of (sym e) ∙ sym (append-nil l.sent)
  where
    sent_of : Result A × Link → List (List ℕ)
    sent_of r = r.1.sent

pub Sends-request :
    (cmd : ℕ) (payload accept : List ℕ)
    → length payload ≤ 255
    → Sends (request cmd payload accept) (one_frame cmd payload)
Sends-request cmd payload accept h l l' p e =
    by_outcome (outcome_of l) _ (sym (request_lem cmd payload accept l h) ∙ e)
  where
    by_outcome :
        (o : WriteOutcome) (r : Result Packet)
        → ◌≡◌ {A = Result Packet × Link}
            (
              after_write o r,
              record {
                exchanges = other_exchanges l.exchanges;
                sent = sent_by o (frame (command cmd payload)) l.sent;
              },
            )
            (ok p, l')
        → l'.sent ≡ l.sent ++ one_frame cmd payload
    by_outcome written r e = ap (λ (z : Result Packet × Link). z.1.sent) (sym e)
    by_outcome write_error r e = no_success e
    by_outcome write_cancelled r e = no_success e

-- Packets that fit a frame.
abbrev pub AreShort : List Packet → Type 0
AreShort ps = All (λ p. length p.payload ≤ 255) ps

send_all-sent :
    (ps : List Packet) (ws : List WriteOutcome) (sent sent' : List (List ℕ)) (u : Unit {0})
    → AreShort ps
    → send_all ps ws sent ≡ (ok u, sent')
    → sent' ≡ sent ++ map frame ps
unfolding send_all
send_all-sent [] ws sent sent' u s e = ap last (sym e) ∙ sym (append-nil sent)
  where
    last : Result (Unit {0}) × List (List ℕ) → List (List ℕ)
    last r = r.1
send_all-sent (p ∷ ps) ws sent sent' u (h, s) e =
    by_outcome (λ w. send_all-sent ps (other_writes ws) (sent ++ (frame p ∷ [])) sent' u s w)
      (first_write ws) (sym (ap step (send_short p (first_write ws) sent h)) ∙ e)
  where
    step : Result (Unit {0}) × List (List ℕ) → Result (Unit {0}) × List (List ℕ)
    step r = elim r.0 [ err d ↦ (err d, r.1) | ok _ ↦ send_all ps (other_writes ws) r.1 ]

    no_error :
        {d : ClientError} {fs : List (List ℕ)}
        → ◌≡◌ {A = Result (Unit {0}) × List (List ℕ)} (err d, fs) (ok u, sent')
        → ⊥
    no_error x = cc x

    Later : Type 0
    Later =
        send_all ps (other_writes ws) (sent ++ (frame p ∷ [])) ≡ (ok u, sent')
        → sent' ≡ (sent ++ (frame p ∷ [])) ++ map frame ps

    by_outcome :
        Later
        → (o : WriteOutcome)
        → step (after_write o (ok tt), sent_by o (frame p) sent) ≡ (ok u, sent')
        → sent' ≡ sent ++ (frame p ∷ map frame ps)
    by_outcome later written w = later w ∙ append_assoc sent (frame p ∷ []) (map frame ps)
    by_outcome later write_error w = absurd (no_error w)
    by_outcome later write_cancelled w = absurd (no_error w)

-- The frames of a page: its rows and its end.
abbrev pub page_frames : List Packet → List (List ℕ)
page_frames rows = map frame (rows ++ (page_end ∷ []))

AreShort-page : (rows : List Packet) → AreShort rows → AreShort (rows ++ (page_end ∷ []))
AreShort-page [] s = (omega arith, tt)
AreShort-page (r ∷ rows) (h, s) = (h, AreShort-page rows s)

pub Sends-send_rows :
    (rows : List Packet) → AreShort rows → Sends (send_rows rows) (page_frames rows)
unfolding send_rows
Sends-send_rows rows s l l' u e =
    by_result (send_all (rows ++ (page_end ∷ [])) (first_exchange l.exchanges).writes l.sent) refl e
  where
    all_sent : Result (Unit {0}) × List (List ℕ)
    all_sent = send_all (rows ++ (page_end ∷ [])) (first_exchange l.exchanges).writes l.sent

    answer : Result Packet
    answer = await (resp_page_end ∷ []) (
        arrivals (drain (first_exchange l.exchanges).stale) (first_exchange l.exchanges).happenings)

    link_of : List (List ℕ) → Link
    link_of sent' = record { exchanges = other_exchanges l.exchanges; sent = sent' }

    by_result :
        (r : Result (Unit {0}) × List (List ℕ))
        → all_sent ≡ r
        → ◌≡◌ {A = Result (Unit {0}) × Link}
            (no_value (answer_if r.0 answer), link_of r.1)
            (ok u, l')
        → l'.sent ≡ l.sent ++ page_frames rows
    by_result (ok v, sent') f e =
        ap (λ (z : Result (Unit {0}) × Link). z.1.sent) (sym e)
        ∙ send_all-sent (rows ++ (page_end ∷ [])) (first_exchange l.exchanges).writes l.sent sent' v
            (AreShort-page rows s) f
    by_result (err d, sent') f e = no_success e
