-- ===== src/Niimbot/Print/Settings.antt =====
-- client.go: what `Print` makes of its options, and its guards.
use brother_connect.Base.{
  ℕ, zero, suc, ◌≤◌, ◌<◌, ◌≡◌, ◌⊎◌, inl, inr, refl, ap, ◌∙◌, ◌==◌, ltb, ◌||◌, true, false,
  Bool-cases, List, [], ◌∷◌, ◌++◌, ℤ, pos, negsuc, arith, length, append_assoc,
}
use brother_connect.Niimbot.Packet.Frame.{frame}
use brother_connect.Niimbot.Commands.{
  cmd_print_end, cmd_cancel_print, resp_print_end, resp_cancel_print,
}
use brother_connect.Niimbot.Client.{
  M, Result, ok, err, ClientError, image_too_wide, invalid_rows, Link, request, WriteOutcome,
  written, other_exchanges, pure, ◌>>=◌,
}
use brother_connect.Niimbot.Client.Replies.{print_end, cancel_print, is_done}
use brother_connect.Niimbot.Client.Requests.{request_lem, command, outcome_of, sent_by}
use brother_connect.Niimbot.Model.{Model}
use brother_connect.Niimbot.Image.{EncodedImage}
use brother_connect.Niimbot.Print.{
  PrintSettings, density_for, label_type_for, at_least_one, run_task, reset, reset_after,
  print_image,
}

-- For a model whose default density lies between its least and its greatest: every density sent
-- lies between the two; one asked for that is not 0 and lies between them is sent as it is; and for
-- 0 the default is sent.
pub density_for_bounds :
    (m : Model) (z : ℤ) (d : ℕ)
    → m.density_min ≤ m.density_default
    → m.density_default ≤ m.density_max
    → m.density_min ≤ suc d
    → suc d ≤ m.density_max
    → (m.density_min ≤ density_for m z)
      × (density_for m z ≤ m.density_max)
      × (density_for m (pos (suc d)) ≡ suc d)
      × (density_for m (pos 0) ≡ m.density_default)
unfolding density_for
density_for_bounds m z d low high lo hi = (least z, greatest z, omega arith, omega arith)
  where
    least : (z : ℤ) → m.density_min ≤ density_for m z
    least (pos zero) = omega arith
    least (pos (suc n)) = omega arith
    least (negsuc n) = omega arith

    greatest : (z : ℤ) → density_for m z ≤ m.density_max
    greatest (pos zero) = omega arith
    greatest (pos (suc n)) = omega arith
    greatest (negsuc n) = omega arith

-- The sent frames after a command, if its write succeeds.
sent-request :
    (cmd : ℕ) (payload accept : List ℕ) (l : Link)
    → length payload ≤ 255
    → outcome_of l ≡ written
    → (request cmd payload accept l).1.sent ≡ l.sent ++ (frame (command cmd payload) ∷ [])
sent-request cmd payload accept l h w =
    ap (λ r. r.1.sent) (request_lem cmd payload accept l h)
    ∙ ap (λ o. sent_by o (frame (command cmd payload)) l.sent) w

-- What is done with an answer leaves the link alone.
link-pure :
    {A B : Type 0} (m : M A) (f : A → B) (l : Link) → ((m >>= λ a. pure (f a)) l).1 ≡ (m l).1
link-pure {A} {B} m f l = by_result (m l)
  where
    by_result : (r : Result A × Link) → (((λ (k : Link). r) >>= λ a. pure (f a)) l).1 ≡ r.1
    by_result (ok a, k) = refl
    by_result (err e, k) = refl

abbrev pub end_frame : List ℕ
end_frame = frame (command cmd_print_end (1 ∷ []))

abbrev pub cancel_frame : List ℕ
cancel_frame = frame (command cmd_cancel_print (1 ∷ []))

-- The link after `PrintEnd`.
abbrev pub after_print_end : Link → Link
after_print_end l = record {
  exchanges = other_exchanges l.exchanges;
  sent = l.sent ++ (end_frame ∷ []);
}

print_end-link : (l : Link) → outcome_of l ≡ written → (print_end l).1 ≡ after_print_end l
unfolding print_end
print_end-link l w =
    link-pure (request cmd_print_end (1 ∷ []) (resp_print_end ∷ [])) (λ p. is_done p.payload) l
    ∙ ap (λ r. r.1) (request_lem cmd_print_end (1 ∷ []) (resp_print_end ∷ []) l (omega arith))
    ∙ ap (λ o. link_of o) w
  where
    link_of : WriteOutcome → Link
    link_of o = record {
      exchanges = other_exchanges l.exchanges;
      sent = sent_by o end_frame l.sent;
    }

cancel_print-sent :
    (l : Link) → outcome_of l ≡ written → (cancel_print l).1.sent ≡ l.sent ++ (cancel_frame ∷ [])
unfolding cancel_print
cancel_print-sent l w =
    ap (λ (k : Link). k.sent)
      (link-pure (request cmd_cancel_print (1 ∷ []) (resp_cancel_print ∷ [])) (λ p. tt) l)
    ∙ sent-request cmd_cancel_print (1 ∷ []) (resp_cancel_print ∷ []) l (omega arith) w

-- The sequence of a job's model with its normalised options.
abbrev pub sequence : Model → EncodedImage → PrintSettings → M (Unit {0})
sequence m enc opts =
    run_task m.task enc (density_for m opts.density) (label_type_for opts.label_type)
      (at_least_one opts.copies) m

-- For an image that fits the head, of 1 to 65535 rows: when the sequence fails, `Print` returns that
-- error, and if the two writes that follow succeed, the last frames sent are `PrintEnd` and
-- `CancelPrint`, whatever the printer answers to them.
pub print_failure :
    (m : Model) (enc : EncodedImage) (opts : PrintSettings) (l l' : Link) (e : ClientError)
    → enc.cols ≤ m.head_pixels
    → 1 ≤ enc.rows
    → enc.rows ≤ 65535
    → sequence m enc opts l ≡ (err e, l')
    → outcome_of l' ≡ written
    → outcome_of (after_print_end l') ≡ written
    → ((print_image m enc opts l).0 ≡ err e)
      × ((print_image m enc opts l).1.sent ≡ l'.sent ++ (end_frame ∷ cancel_frame ∷ []))
unfolding print_image
print_failure m enc opts l l' e wide few many f w v =
    let narrow : ltb m.head_pixels enc.cols ≡ false = ground arith in
    let valid : ((enc.rows == 0) || ltb 0xFFFF enc.rows) ≡ false = ground arith in
    rw (narrow, valid) (ap (λ r. (reset_after r).0) f, ap (λ r. (reset_after r).1.sent) f ∙ both)
  where
    both : (reset l').sent ≡ l'.sent ++ (end_frame ∷ cancel_frame ∷ [])
    both =
        ap (λ k. (cancel_print k).1.sent) (print_end-link l' w)
        ∙ cancel_print-sent (after_print_end l') v
        ∙ append_assoc l'.sent (end_frame ∷ []) (cancel_frame ∷ [])

-- An image that is wider than the head, or without a row or with more than 65535, is refused with
-- one of the two errors for that, and nothing is sent or received, not even a reset.
pub print_guards :
    (m : Model) (enc : EncodedImage) (opts : PrintSettings) (l : Link)
    → (m.head_pixels < enc.cols) ⊎ ((enc.rows ≡ 0) ⊎ (65535 < enc.rows))
    → (e : ClientError) × ((e ≡ image_too_wide) ⊎ (e ≡ invalid_rows))
      × (print_image m enc opts l ≡ (err e, l))
unfolding print_image
print_guards m enc opts l bad = elim (Bool-cases (ltb m.head_pixels enc.cols)) [
  | inl t ↦ (image_too_wide, inl refl, rw t refl)
  | inr f ↦
      let rows : ((enc.rows == 0) || ltb 0xFFFF enc.rows) ≡ true = ground arith in
      (invalid_rows, inr refl, rw (f, rows) refl)
]
