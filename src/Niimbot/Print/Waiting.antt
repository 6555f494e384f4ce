-- ===== src/Niimbot/Print/Waiting.antt =====
-- client.go: the loops that wait for the end of a print.
use brother_connect.Base.{
  ℕ, zero, suc, ◌+◌, ◌≤◌, ◌<◌, ◌≡◌, ◌≢◌, refl, ap, ◌∙◌, length, List, [], ◌∷◌, arith, Bool, true,
  false,
}
use brother_connect.Niimbot.Packet.{Packet}
use brother_connect.Niimbot.Commands.{cmd_print_end, resp_print_end}
use brother_connect.Niimbot.Client.{
  M, Result, ok, err, ClientError, timeout, cancelled, print_error, Exchange, Link, other_exchanges,
  request, ◌>>=◌, pure, contains, await,
}
use brother_connect.Niimbot.Client.Replies.{PrintStatus, print_status, print_end, is_done}
use brother_connect.Niimbot.Client.Requests.{request_lem}
use brother_connect.Niimbot.Print.{stops_in_pause, end_rounds, wait_by_end, after_end}

exchanges-request :
    (cmd : ℕ) (payload accept : List ℕ) (l : Link)
    → (request cmd payload accept l).1.exchanges ≡ other_exchanges l.exchanges
unfolding request
exchanges-request cmd payload accept l = refl

-- Reading the answer changes neither the link nor an error.
module _ {A : Type 0} (f : Packet → Result A) where
  link-read : (m : M Packet) (l : Link) → ((m >>= λ p k. (f p, k)) l).1 ≡ (m l).1
  link-read m l = by_result (m l)
    where
      by_result : (r : Result Packet × Link) → (((λ (k : Link). r) >>= λ p k. (f p, k)) l).1 ≡ r.1
      by_result (ok a, k) = refl
      by_result (err e, k) = refl

  error-read :
      (m : M Packet) (l : Link) (e : ClientError)
      → (m l).0 ≡ err e
      → ((m >>= λ p k. (f p, k)) l).0 ≡ err e
  error-read m l e h = by_result (m l) h
    where
      by_result :
          (r : Result Packet × Link)
          → r.0 ≡ err e
          → (((λ (k : Link). r) >>= λ p k. (f p, k)) l).0 ≡ err e
      by_result (ok a, k) h = absurd (no_err h)
        where
          no_err : ok a ≡ err e → ⊥
          no_err h = cc h
      by_result (err d, k) h = ap_err h
        where
          ap_err : ◌≡◌ {A = Result Packet} (err d) (err e) → ◌≡◌ {A = Result A} (err d) (err e)
          ap_err h = cc h

abbrev no_exchange : List (List ℕ) → Link
no_exchange sent = record { exchanges = []; sent = sent }

silent-request :
    (cmd a : ℕ) (sent : List (List ℕ))
    → (request cmd (1 ∷ []) (a ∷ []) (no_exchange sent)).0 ≡ err timeout
unfolding await brother_connect.Niimbot.Client.accept_or_next
silent-request cmd a sent =
    ap (λ r. r.0) (request_lem cmd (1 ∷ []) (a ∷ []) (no_exchange sent) (omega arith))

module _ (want : ℕ) where
  -- How `waitByStatus` may end on a link, poll by poll: with the first poll that gives no status, has
  -- an error or tells pages enough, or in the pause after a poll that has neither.
  pub data Waits : Link → Result (Unit {0}) × Link → Type 0 where
    no_status : {l l' : Link} (e : ClientError) → print_status l ≡ (err e, l') → Waits l (err e, l')
    print_failed :
        {l l' : Link} (st : PrintStatus)
        → print_status l ≡ (ok st, l')
        → st.error ≢ 0
        → Waits l (err (print_error st.error), l')
    all_printed :
        {l l' : Link} (st : PrintStatus)
        → print_status l ≡ (ok st, l')
        → st.error ≡ 0
        → want ≤ st.page
        → Waits l (ok tt, l')
    pause_cancelled :
        {l l' : Link} (st : PrintStatus)
        → print_status l ≡ (ok st, l')
        → st.error ≡ 0
        → st.page < want
        → stops_in_pause l' ≡ true
        → Waits l (err cancelled, l')
    once_more :
        {l l' : Link} {r : Result (Unit {0}) × Link} (st : PrintStatus)
        → print_status l ≡ (ok st, l')
        → st.error ≡ 0
        → st.page < want
        → stops_in_pause l' ≡ false
        → Waits l' r
        → Waits l r

exchanges-print_end : (l : Link) → (print_end l).1.exchanges ≡ other_exchanges l.exchanges
unfolding print_end
exchanges-print_end l =
    ap (λ k. k.exchanges)
      (link-read (λ p. ok (is_done p.payload))
        (request cmd_print_end (1 ∷ []) (resp_print_end ∷ [])) l)
    ∙ exchanges-request cmd_print_end (1 ∷ []) (resp_print_end ∷ []) l

silent-print_end : (sent : List (List ℕ)) → (print_end (no_exchange sent)).0 ≡ err timeout
unfolding print_end
silent-print_end sent =
    error-read (λ p. ok (is_done p.payload)) (request cmd_print_end (1 ∷ []) (resp_print_end ∷ []))
      (no_exchange sent) timeout (silent-request cmd_print_end resp_print_end sent)

end_rounds-suc :
    (fuel : ℕ) (xs : List Exchange) (sent : List (List ℕ))
    → length xs < fuel
    → end_rounds (suc fuel) (record { exchanges = xs; sent = sent })
      ≡ end_rounds fuel (record { exchanges = xs; sent = sent })
unfolding end_rounds
end_rounds-suc zero xs sent h = absurd (omega arith)
end_rounds-suc (suc fuel) [] sent h =
    by_error (print_end (no_exchange sent)).0 _ _ _ (silent-print_end sent)
  where
    by_error :
        (r : Result Bool) (k : Link) (a b : Result (Unit {0}) × Link)
        → r ≡ err timeout
        → after_end r k a ≡ after_end r k b
    by_error r k a b e = rw e refl
end_rounds-suc (suc fuel) (x ∷ xs) sent h =
    let l : Link = record { exchanges = x ∷ xs; sent = sent } in
    ap (λ again. after_end (print_end l).0 (print_end l).1 again)
      (end_rounds-suc fuel (print_end l).1.exchanges (print_end l).1.sent
        (shorter (ap (λ ys. length ys) (exchanges-print_end l))))
  where
    shorter : {n : ℕ} → n ≡ length xs → n < fuel
    shorter e = omega (arith, e, h)

-- The same for the loop that polls `PrintEnd`.
pub wait_by_end_enough :
    (n : ℕ) (l : Link) → end_rounds (n + suc (length l.exchanges)) l ≡ wait_by_end l
unfolding wait_by_end
wait_by_end_enough zero l = ap (λ k. end_rounds k l) (omega arith)
wait_by_end_enough (suc n) l =
    ap (λ k. end_rounds k l) (omega arith)
    ∙ end_rounds-suc (n + suc (length l.exchanges)) l.exchanges l.sent (omega arith)
    ∙ wait_by_end_enough n l
