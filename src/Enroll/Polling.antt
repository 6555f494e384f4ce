-- ===== src/Enroll/Polling.antt =====
-- enroll.go: the answers of `Poll`, and how long it waits between its requests.
use brother_connect.Base.{
  ℕ, ◌≡◌, ◌≢◌, ◌⊎◌, inl, inr, refl, ap, ◌∙◌, true, false, String, str_eq_no, ==_no, Option, none,
  some, List, [], ◌∷◌, ◌++◌, length, replicate, All,
}
use brother_connect.Enroll.{
  Attempt, JsonReader, Response, Outcome, granted, denied, retry_after, access_denied, expired,
  request_failed, stopped, Token, DeviceAuth, interval, poll_once, by_error_code, poll_rounds,
  poll_token, next_interval,
}

module _ (json : JsonReader) where
  -- The sleep is not stopped, and the service answers with an error of this code.
  abbrev pub AnswersError : String → Attempt → Type 0
  AnswersError code a =
      (a.is_stopped ≡ false)
      × (r : Response) × (a.response ≡ some r)
      × (r.status_code ≢ 200)
      × (json.read_error_code r.body ≡ code)

  abbrev pub IsPending : Attempt → Type 0
  IsPending a = AnswersError "authorization_pending" a

  abbrev pub IsSlowed : Attempt → Type 0
  IsSlowed a = AnswersError "slow_down" a

  -- The attempt that ends the polling: with a token that is not empty, or for good.
  pub data EndsWith : Attempt → Outcome Token → Type 0 where
    token_came :
        {a : Attempt} (r : Response) (t : Token)
        → a.is_stopped ≡ false
        → a.response ≡ some r
        → r.status_code ≡ 200
        → json.read_token r.body ≡ some t
        → t.access_token ≢ ""
        → EndsWith a (granted t)
    was_denied : {a : Attempt} → AnswersError "access_denied" a → EndsWith a (denied access_denied)
    has_expired : {a : Attempt} → AnswersError "expired_token" a → EndsWith a (denied expired)
    no_answer :
        {a : Attempt}
        → a.is_stopped ≡ false
        → a.response ≡ none
        → EndsWith a (denied request_failed)
    sleep_stopped : {a : Attempt} → a.is_stopped ≡ true → EndsWith a (denied stopped)

  poll_once_error :
      (code : String) (a : Attempt)
      → AnswersError code a
      → poll_once json a.response ≡ by_error_code code
  unfolding poll_once
  poll_once_error code a (s, r, e, n, c) =
      ap (λ (x : Option Response). poll_once json x) e
      ∙ rw (==_no r.status_code 200 n) (ap by_error_code c)

  poll_once-pending : (a : Attempt) → IsPending a → poll_once json a.response ≡ retry_after 0
  unfolding by_error_code
  poll_once-pending a p = poll_once_error "authorization_pending" a p

  poll_once-slowed : (a : Attempt) → IsSlowed a → poll_once json a.response ≡ retry_after 5000000000
  unfolding by_error_code
  poll_once-slowed a p = poll_once_error "slow_down" a p

  -- A first sleep before the others.
  abbrev pub slept {ℓ} : {A : Type ℓ} → List ℕ → A × List ℕ → A × List ℕ
  slept first (result, sleeps) = (result, first ++ sleeps)

  poll_rounds-retry :
      (a : Attempt) (w current : ℕ) (more : List Attempt)
      → a.is_stopped ≡ false
      → poll_once json a.response ≡ retry_after w
      → poll_rounds json (a ∷ more) current
        ≡ slept (current ∷ []) (poll_rounds json more (next_interval w current))
  unfolding poll_rounds
  poll_rounds-retry a w current more s e = rw (s, e) refl

  poll_once-token :
      (a : Attempt) (r : Response) (t : Token)
      → a.response ≡ some r
      → r.status_code ≡ 200
      → json.read_token r.body ≡ some t
      → t.access_token ≢ ""
      → poll_once json a.response ≡ granted t
  unfolding poll_once
  poll_once-token a r t e k j n =
      ap (λ (x : Option Response). poll_once json x) e
      ∙ rw (k, j, str_eq_no t.access_token "" n) refl

  poll_rounds-last :
      (a : Attempt) (o : Outcome Token) (current : ℕ) (more : List Attempt)
      → EndsWith a o
      → poll_rounds json (a ∷ more) current ≡ (some o, current ∷ [])
  unfolding poll_rounds by_error_code
  poll_rounds-last a o current more (token_came r t s e k j n) =
      rw (s, poll_once-token a r t e k j n) refl
  poll_rounds-last a o current more (was_denied h) =
      rw (h.0, poll_once_error "access_denied" a h) refl
  poll_rounds-last a o current more (has_expired h) =
      rw (h.0, poll_once_error "expired_token" a h) refl
  poll_rounds-last a o current more (no_answer s e) = rw (s, e) (unfold poll_once in refl)
  poll_rounds-last a o current more (sleep_stopped s) = rw s refl

  poll_rounds-pending :
      (pending : List Attempt) (current : ℕ) (more : List Attempt)
      → All IsPending pending
      → poll_rounds json (pending ++ more) current
        ≡ slept (replicate (length pending) current) (poll_rounds json more current)
  poll_rounds-pending [] current more p = refl
  poll_rounds-pending (a ∷ pending) current more (h, p) =
      poll_rounds-retry a 0 current (pending ++ more) h.0 (poll_once-pending a h)
      ∙ ap (λ r. slept (current ∷ []) r) (poll_rounds-pending pending current more p)

  poll_rounds-slowed :
      (slowed : List Attempt) (more : List Attempt)
      → All (λ a. IsPending a ⊎ IsSlowed a) slowed
      → poll_rounds json (slowed ++ more) 5000000000
        ≡ slept (replicate (length slowed) 5000000000) (poll_rounds json more 5000000000)
  poll_rounds-slowed [] more p = refl
  poll_rounds-slowed (a ∷ slowed) more (inl h, p) =
      poll_rounds-retry a 0 5000000000 (slowed ++ more) h.0 (poll_once-pending a h)
      ∙ ap (λ r. slept (5000000000 ∷ []) r) (poll_rounds-slowed slowed more p)
  poll_rounds-slowed (a ∷ slowed) more (inr h, p) =
      poll_rounds-retry a 5000000000 5000000000 (slowed ++ more) h.0 (poll_once-slowed a h)
      ∙ ap (λ r. slept (5000000000 ∷ []) r) (poll_rounds-slowed slowed more p)

  -- Where the service answers some requests with the error authorization_pending, then one with
  -- slow_down, then some with either of them, and where then the polling ends, with a token that is
  -- not empty, with access_denied, with expired_token, without an answer, or with a sleep that is
  -- stopped: `Poll` returns that outcome without another request; it has slept the interval of the
  -- code before each request up to the one that was slowed down, and five seconds before each after it.
  pub poll_token-slowed :
      (d : DeviceAuth) (pending slowed more : List Attempt) (slow last : Attempt)
      (o : Outcome Token)
      → All IsPending pending
      → IsSlowed slow
      → All (λ a. IsPending a ⊎ IsSlowed a) slowed
      → EndsWith last o
      → poll_token json d (pending ++ (slow ∷ (slowed ++ (last ∷ more)))) ≡ (
        some o,
        replicate (length pending) (interval d)
            ++ (interval d ∷ (replicate (length slowed) 5000000000 ++ (5000000000 ∷ []))),
      )
  unfolding poll_token
  poll_token-slowed d pending slowed more slow last o p h q l =
      poll_rounds-pending pending (interval d) (slow ∷ (slowed ++ (last ∷ more))) p
      ∙ ap (λ r. slept (replicate (length pending) (interval d)) r)
          (poll_rounds-retry slow 5000000000 (interval d) (slowed ++ (last ∷ more)) h.0
              (poll_once-slowed slow h)
            ∙ ap (λ r. slept (interval d ∷ []) r)
                (poll_rounds-slowed slowed (last ∷ more) q
                  ∙ ap (λ r. slept (replicate (length slowed) 5000000000) r)
                      (poll_rounds-last last o 5000000000 more l)))
