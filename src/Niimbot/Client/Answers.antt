-- ===== src/Niimbot/Client/Answers.antt =====
-- client.go: which packet answers a request, and how often it is sent.
use brother_connect.Base.{
  ℕ, zero, suc, ◌≤◌, ◌<◌, ◌≡◌, ◌≢◌, ◌↔◌, ◌⊎◌, inl, inr, ap, ◌∙◌, length, Bool, true, false, List,
  [], ◌∷◌, ◌++◌, append_assoc, replicate, Bool-cases, arith,
}
use brother_connect.Niimbot.Packet.{Packet}
use brother_connect.Niimbot.Packet.Frame.{frame}
use brother_connect.Niimbot.Commands.{resp_print_error, resp_not_supported}
use brother_connect.Niimbot.Client.{
  Result, ok, err, timeout, cancelled, link_closed, Happening, packet, timer, context_done, closed,
  Exchange, Link, WriteOutcome, written, first_write, contains, await, accept_or_next, if_late,
  request, request_retry,
}
use brother_connect.Niimbot.Client.Requests.{command, sent_by, after_write, request_lem}

-- The command is one of the list.
abbrev pub OneOf : ℕ → List ℕ → Type 0
OneOf b [] = ⊥
OneOf b (x ∷ xs) = (x ≡ b) ⊎ OneOf b xs

contains_iff : (accept : List ℕ) (b : ℕ) → (contains accept b ≡ true) ↔ OneOf b accept
unfolding contains
contains_iff [] b = ((λ e. cc e), (λ m. absurd m))
contains_iff (x ∷ xs) b = ground (arith, contains_iff xs b)

contains_no : (accept : List ℕ) (b : ℕ) → contains accept b ≡ false → ¬ OneOf b accept
contains_no accept b e m = absurd (apart (contains accept b) ((contains_iff accept b).1 m) e)
  where
    apart : (t : Bool) → t ≡ true → t ≡ false → ⊥
    apart t yes_ no_ = cc (yes_, no_)

contains_absent : (accept : List ℕ) (b : ℕ) → ¬ OneOf b accept → contains accept b ≡ false
contains_absent accept b n = elim (Bool-cases (contains accept b)) [
  | inl e ↦ absurd (n ((contains_iff accept b).0 e))
  | inr e ↦ e
]

-- A packet that is no answer and no error: `await` skips it.
pub record IsUnsolicited (accept : List ℕ) (p : Packet) : Type 0 where
  no_error : p.cmd ≢ resp_print_error
  no_refusal : p.cmd ≢ resp_not_supported
  no_answer : ¬ OneOf p.cmd accept

-- The first packet that is not skipped is an answer.
pub data AnsweredBy (accept : List ℕ) (p : Packet) : List Happening → Type 0 where
  now :
      {hs : List Happening}
      → p.cmd ≢ resp_print_error
      → p.cmd ≢ resp_not_supported
      → OneOf p.cmd accept
      → AnsweredBy accept p (packet p ∷ hs)
  later :
      {q : Packet} {hs : List Happening}
      → IsUnsolicited accept q
      → AnsweredBy accept p hs
      → AnsweredBy accept p (packet q ∷ hs)

await-AnsweredBy :
    (accept : List ℕ) (p : Packet) (hs : List Happening)
    → await accept hs ≡ ok p
    → AnsweredBy accept p hs
unfolding await
await-AnsweredBy accept p [] e = absurd (no_ok e)
  where
    no_ok : err timeout ≡ ok p → ⊥
    no_ok e = cc e
await-AnsweredBy accept p (packet q ∷ hs) e = elim (Bool-cases (contains accept q.cmd)) [
  | inl yes_ ↦
      let same : q ≡ p = ground arith in
      rw (← same) (now (ground arith) (ground arith) ((contains_iff accept q.cmd).0 yes_))
  | inr no_ ↦
      later
        (record {
          no_error = ground arith;
          no_refusal = ground arith;
          no_answer = contains_no accept q.cmd no_;
        })
        (await-AnsweredBy accept p hs (ground arith))
]
await-AnsweredBy accept p (timer ∷ hs) e = absurd (no_ok e)
  where
    no_ok : err timeout ≡ ok p → ⊥
    no_ok e = cc e
await-AnsweredBy accept p (context_done ∷ hs) e = absurd (no_ok e)
  where
    no_ok : err cancelled ≡ ok p → ⊥
    no_ok e = cc e
await-AnsweredBy accept p (closed ∷ hs) e = absurd (no_ok e)
  where
    no_ok : err link_closed ≡ ok p → ⊥
    no_ok e = cc e

AnsweredBy-await :
    (accept : List ℕ) (p : Packet) {hs : List Happening}
    → AnsweredBy accept p hs
    → await accept hs ≡ ok p
unfolding await
AnsweredBy-await accept p (now e r a) = ground (arith, (contains_iff accept p.cmd).1 a)
AnsweredBy-await accept p (later {q} {hs} u a) = ground (
  arith,
  u.no_error,
  u.no_refusal,
  contains_absent accept q.cmd u.no_answer,
  AnsweredBy-await accept p a,
)

-- `await` succeeds with a packet exactly if that is the first one that is not unsolicited, has an
-- accepted command and reports no error; an error report comes before the accepted commands, any of
-- which will do.
pub await_iff :
    (accept : List ℕ) (p : Packet) (hs : List Happening)
    → (await accept hs ≡ ok p) ↔ AnsweredBy accept p hs
await_iff accept p hs = (await-AnsweredBy accept p hs, AnsweredBy-await accept p)

-- An exchange whose write succeeds and that then gives no answer in time.
pub record IsTimeout (accept : List ℕ) (x : Exchange) : Type 0 where
  pub is_written : first_write x.writes ≡ written
  pub is_late : await accept x.happenings ≡ err timeout

pub data AllTimeOut (accept : List ℕ) : List Exchange → Type 0 where
  no_more : AllTimeOut accept []
  one_more :
      {x : Exchange} {xs : List Exchange}
      → IsTimeout accept x
      → AllTimeOut accept xs
      → AllTimeOut accept (x ∷ xs)

-- A request whose write succeeds.
request_written :
    (cmd : ℕ) (payload : List ℕ) (a : ℕ) (as_ : List ℕ) (x : Exchange) (rest : List Exchange)
    (sent : List (List ℕ))
    → length payload ≤ 255
    → first_write x.writes ≡ written
    → request cmd payload (a ∷ as_) (record { exchanges = x ∷ rest; sent = sent }) ≡ (
      await (a ∷ as_) x.happenings,
      record { exchanges = rest; sent = sent ++ (frame (command cmd payload) ∷ []) },
    )
unfolding accept_or_next
request_written cmd payload a as_ x rest sent h w =
    request_lem cmd payload (a ∷ as_) (record { exchanges = x ∷ rest; sent = sent }) h ∙ ap result w
  where
    result : WriteOutcome → Result Packet × Link
    result o = (
      after_write o (await (a ∷ as_) x.happenings),
      record { exchanges = rest; sent = sent_by o (frame (command cmd payload)) sent },
    )

module _ (cmd : ℕ) (payload accept : List ℕ) (l l' : Link) where
  retry_late :
      (k : ℕ)
      → request cmd payload accept l ≡ (err timeout, l')
      → request_retry (suc (suc k)) cmd payload accept l
        ≡ request_retry (suc k) cmd payload accept l'
  unfolding request_retry
  retry_late k e = ap (λ z. if_late z.0 z.1 (request_retry (suc k) cmd payload accept z.1)) e

  retry_ok :
      (k : ℕ) (p : Packet)
      → request cmd payload accept l ≡ (ok p, l')
      → request_retry (suc k) cmd payload accept l ≡ (ok p, l')
  unfolding request_retry
  retry_ok zero p e = e
  retry_ok (suc k) p e = ap (λ z. if_late z.0 z.1 (request_retry (suc k) cmd payload accept z.1)) e

by_path :
    {r r' : Result Packet} {l : Link} {z : Result Packet × Link} → r ≡ r' → z ≡ (r, l) → z ≡ (r', l)
by_path e f = cc (e, f)

-- With an explicit list of accepted commands: after fewer timeouts than attempts an answer is the
-- result, and the frame was sent once for each timeout and once for the answer; the exchanges
-- behind it are untouched.
pub request_retry_answers :
    (cmd : ℕ) (payload : List ℕ) (a : ℕ) (as_ : List ℕ) (p : Packet) (xs : List Exchange)
    (x : Exchange) (rest : List Exchange) (sent : List (List ℕ)) (attempts : ℕ)
    → length payload ≤ 255
    → AllTimeOut (a ∷ as_) xs
    → first_write x.writes ≡ written
    → await (a ∷ as_) x.happenings ≡ ok p
    → length xs < attempts
    → request_retry attempts cmd payload
        (a ∷ as_)
        (record { exchanges = xs ++ (x ∷ rest); sent = sent })
      ≡ (
        ok p,
        record {
          exchanges = rest;
          sent = sent ++ replicate (suc (length xs)) (frame (command cmd payload));
        },
      )
unfolding request_retry accept_or_next
request_retry_answers cmd payload a as_ p xs x rest sent zero h ts w e n = ground arith
request_retry_answers cmd payload a as_ p [] x rest sent (suc k) h ts w e n =
    retry_ok cmd payload (a ∷ as_) (record { exchanges = x ∷ rest; sent = sent })
      (record { exchanges = rest; sent = sent ++ (frame (command cmd payload) ∷ []) }) k p
      (by_path e (request_written cmd payload a as_ x rest sent h w))
request_retry_answers cmd payload a as_ p (y ∷ ys) x rest sent (suc zero) h ts w e n = ground arith
request_retry_answers cmd payload a as_ p (y ∷ ys) x rest sent (suc (suc k)) h (one_more t ts) w e
      n =
    retry_late cmd payload (a ∷ as_) (record { exchanges = y ∷ (ys ++ (x ∷ rest)); sent = sent })
      (record { exchanges = ys ++ (x ∷ rest); sent = sent ++ (frame (command cmd payload) ∷ []) }) k
      (by_path t.is_late
        (request_written cmd payload a as_ y (ys ++ (x ∷ rest)) sent h t.is_written))
    ∙ request_retry_answers cmd payload a as_ p ys x rest
        (sent ++ (frame (command cmd payload) ∷ [])) (suc k) h ts w e (omega arith)
    ∙ ap (λ fs. answered fs)
        (append_assoc sent (frame (command cmd payload) ∷ [])
          (replicate (suc (length ys)) (frame (command cmd payload))))
  where
    answered : List (List ℕ) → Result Packet × Link
    answered fs = (ok p, record { exchanges = rest; sent = fs })
