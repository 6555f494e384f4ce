-- ===== src/Niimbot/Print/Sequence.antt =====
-- client.go: the frames that a print sequence sends when it succeeds.
use brother_connect.Base.{
  ℕ, zero, suc, ◌%◌, ◌==◌, not, leb, ◌≤◌, ◌≡◌, ◌⊎◌, inl, inr, refl, sym, ap, ◌∙◌, length, List, [],
  ◌∷◌, ◌++◌, append-nil, append_assoc, replicate, Option, some, arith, Bool, true, false,
  if◌then◌else◌,
}
use brother_connect.Niimbot.Packet.{Packet}
use brother_connect.Niimbot.Packet.Frame.{frame}
use brother_connect.Niimbot.Commands.{
  cmd_print_start, cmd_page_start, cmd_set_page_size, cmd_set_density, cmd_set_label_type,
  cmd_print_status, cmd_print_end, resp_page_start, resp_set_page_size, resp_set_density,
  resp_set_label_type, resp_print_start, resp_print_status, resp_print_end,
}
use brother_connect.Niimbot.Client.{
  M, Result, ok, err, ClientError, cancelled, print_error, Link, request, ◌>>◌, pure,
}
use brother_connect.Niimbot.Client.Replies.{
  PrintStatus, print_status, print_end, parse_status, is_done,
}
use brother_connect.Niimbot.Client.Requests.{command}
use brother_connect.Niimbot.Model.{Model}
use brother_connect.Niimbot.Image.{EncodedImage, row_packets, count_split, u16}
use brother_connect.Niimbot.Print.{
  print_init, send_rows, with_rows, wait_rounds, wait_by_status, after_status, stops_in_pause,
  print_b1,
}
use brother_connect.Niimbot.Print.Steps.{
  Sends, one_frame, no_success, then-ok, Sends-then, Sends-pure, Sends-request, AreShort,
  page_frames, Sends-send_rows,
}

Sends-print_status : Sends print_status (one_frame cmd_print_status (1 ∷ []))
unfolding print_status
Sends-print_status l l' st e =
    let (p, k, first, second) =
      then-ok (request cmd_print_status (1 ∷ []) (resp_print_status ∷ []))
        (λ p k. (parse_status p.payload, k)) l l' st e in
    ap (λ (z : Result PrintStatus × Link). z.1.sent) (sym second)
    ∙ Sends-request cmd_print_status (1 ∷ []) (resp_print_status ∷ []) (omega arith) l k p first

Sends-print_end : Sends print_end (one_frame cmd_print_end (1 ∷ []))
unfolding print_end
Sends-print_end =
    Sends-then (request cmd_print_end (1 ∷ []) (resp_print_end ∷ []))
      (λ p. pure (is_done p.payload)) (one_frame cmd_print_end (1 ∷ [])) []
      (Sends-request cmd_print_end (1 ∷ []) (resp_print_end ∷ []) (omega arith))
      (λ p. Sends-pure (is_done p.payload))

-- A round that ends with success had a status, and was the last or left it to the next.
after_status-ok :
    (want : ℕ) (r : Result PrintStatus) (k l' : Link) (again : Result (Unit {0}) × Link)
    (u : Unit {0})
    → after_status want r k again ≡ (ok u, l')
    → (st : PrintStatus) × (r ≡ ok st) × ((l' ≡ k) ⊎ (again ≡ (ok u, l')))
after_status-ok want (err d) k l' again u e = no_success e
after_status-ok want (ok st) k l' again u e = (
  st,
  refl,
  by_tests (not (st.error == 0)) (leb want st.page) (stops_in_pause k) (print_error st.error) e,
)
  where
    by_tests :
        (failed finished stopped : Bool) (d : ClientError)
        → ◌≡◌ {A = Result (Unit {0}) × Link}
            (if failed
              then (err d, k)
              else if finished
              then (ok tt, k)
              else if stopped
              then (err cancelled, k)
              else again)
            (ok u, l')
        → (l' ≡ k) ⊎ (again ≡ (ok u, l'))
    by_tests true finished stopped d e = no_success e
    by_tests false true stopped d e = inl (ap (λ (z : Result (Unit {0}) × Link). z.1) (sym e))
    by_tests false false true d e = no_success e
    by_tests false false false d e = inr e

-- The polls of the status: at least one.
abbrev pub status_frames : ℕ → List (List ℕ)
status_frames n = replicate (suc n) (frame (command cmd_print_status (1 ∷ [])))

wait_rounds-sent :
    (fuel want : ℕ) (l l' : Link) (u : Unit {0})
    → wait_rounds fuel want l ≡ (ok u, l')
    → (n : ℕ) × (l'.sent ≡ l.sent ++ status_frames n)
unfolding wait_rounds
wait_rounds-sent zero want l l' u e = no_success e
wait_rounds-sent (suc fuel) want l l' u e =
    let (st, s, rest) =
      after_status-ok want (print_status l).0 (print_status l).1 l'
        (wait_rounds fuel want (print_status l).1) u e in
    let polled = Sends-print_status l (print_status l).1 st (by_answer s) in
    elim rest [
      | inl last ↦ (0, ap (λ (k : Link). k.sent) last ∙ polled)
      | inr more ↦
          let (n, f) = wait_rounds-sent fuel want (print_status l).1 l' u more in
          (
            suc n,
            f
                ∙ ap (λ z. z ++ status_frames n) polled
                ∙ append_assoc l.sent (one_frame cmd_print_status (1 ∷ [])) (status_frames n),
          )
    ]
  where
    with_link : Result PrintStatus → Result PrintStatus × Link
    with_link r = (r, (print_status l).1)

    by_answer :
        {st : PrintStatus}
        → (print_status l).0 ≡ ok st
        → print_status l ≡ (ok st, (print_status l).1)
    by_answer s = ap with_link s

Sends-print_init :
    (density label_type : ℕ) (start : List ℕ)
    → length start ≤ 255
    → Sends (print_init density label_type start) (
        ((one_frame cmd_set_density ((density % 256) ∷ [])
            ++ one_frame cmd_set_label_type ((label_type % 256) ∷ []))
          ++ one_frame cmd_print_start start)
        ++ [])
unfolding print_init
Sends-print_init density label_type start h =
    Sends-then _ (λ _. pure tt) _ []
      (Sends-then _ (λ _. request cmd_print_start start (resp_print_start ∷ [])) _ _
        (Sends-then _
          (λ _. request cmd_set_label_type ((label_type % 256) ∷ []) (resp_set_label_type ∷ [])) _ _
          (Sends-request cmd_set_density ((density % 256) ∷ []) (resp_set_density ∷ [])
            (omega arith))
          (λ _.
            Sends-request cmd_set_label_type ((label_type % 256) ∷ []) (resp_set_label_type ∷ [])
              (omega arith)))
        (λ _. Sends-request cmd_print_start start (resp_print_start ∷ []) h))
      (λ _. Sends-pure tt)

Sends-with_rows :
    (rows : List Packet) (o : Option (List Packet))
    → o ≡ some rows
    → AreShort rows
    → Sends (with_rows o send_rows) (page_frames rows)
Sends-with_rows rows o e s = rw e (Sends-send_rows rows s)

-- The commands before the first row of a B1 job.
abbrev pub b1_start : EncodedImage → ℕ → ℕ → ℕ → List (List ℕ)
b1_start enc density label_type copies =
    frame (command cmd_set_density ((density % 256) ∷ []))
    ∷ frame (command cmd_set_label_type ((label_type % 256) ∷ []))
    ∷ frame (command cmd_print_start (u16 copies ++ (0 ∷ 0 ∷ 0 ∷ 0 ∷ 0 ∷ [])))
    ∷ frame (command cmd_page_start (1 ∷ []))
    ∷ frame (command cmd_set_page_size (u16 enc.rows ++ u16 enc.cols ++ u16 copies))
    ∷ []

module _ (enc : EncodedImage) (density label_type copies : ℕ) (m : Model) where
  abbrev start_of_page : M Packet
  start_of_page =
      print_init density label_type (u16 copies ++ (0 ∷ 0 ∷ 0 ∷ 0 ∷ 0 ∷ []))
      >> request cmd_page_start (1 ∷ []) (resp_page_start ∷ [])
      >> request cmd_set_page_size (u16 enc.rows ++ u16 enc.cols ++ u16 copies)
          (resp_set_page_size ∷ [])

  abbrev whole_page : M (Unit {0})
  whole_page =
      start_of_page >> with_rows (row_packets enc m.head_pixels count_split false) send_rows

  Sends-start_of_page : Sends start_of_page (b1_start enc density label_type copies)
  Sends-start_of_page =
      Sends-then
        (print_init density label_type (u16 copies ++ (0 ∷ 0 ∷ 0 ∷ 0 ∷ 0 ∷ []))
          >> request cmd_page_start (1 ∷ []) (resp_page_start ∷ []))
        (λ _.
          request cmd_set_page_size (u16 enc.rows ++ u16 enc.cols ++ u16 copies)
            (resp_set_page_size ∷ []))
        _ _
        (Sends-then (print_init density label_type (u16 copies ++ (0 ∷ 0 ∷ 0 ∷ 0 ∷ 0 ∷ [])))
          (λ _. request cmd_page_start (1 ∷ []) (resp_page_start ∷ [])) _ _
          (Sends-print_init density label_type (u16 copies ++ (0 ∷ 0 ∷ 0 ∷ 0 ∷ 0 ∷ []))
            (omega arith))
          (λ _. Sends-request cmd_page_start (1 ∷ []) (resp_page_start ∷ []) (omega arith)))
        (λ _.
          Sends-request cmd_set_page_size (u16 enc.rows ++ u16 enc.cols ++ u16 copies)
            (resp_set_page_size ∷ []) (omega arith))

  -- For rows that fit their frames: when `printB1` succeeds, what it sent is density, label type,
  -- start of the print, start of the page and page size, then every row in order and the end of the
  -- page, once for all copies, then one poll of the status or more, then the end of the print.
  pub print_b1_frames :
      (rows : List Packet) (l l' : Link)
      → row_packets enc m.head_pixels count_split false ≡ some rows
      → AreShort rows
      → print_b1 enc density label_type copies m l ≡ (ok tt, l')
      → (n : ℕ) × (l'.sent
          ≡ ((l.sent ++ (b1_start enc density label_type copies ++ page_frames rows))
              ++ status_frames n)
            ++ one_frame cmd_print_end (1 ∷ []))
  unfolding print_b1 wait_by_status
  print_b1_frames rows l l' e s h =
      let (ended, k₃, all, last) =
        then-ok (whole_page >> wait_by_status copies >> print_end) (λ _. pure tt) l l' tt h in
      let (waited, k₂, most, finish) =
        then-ok (whole_page >> wait_by_status copies) (λ _. print_end) l k₃ ended all in
      let (paged, k₁, front, polls) =
        then-ok whole_page (λ _. wait_by_status copies) l k₂ waited most in
      let (n, f) = wait_rounds-sent (suc (length k₁.exchanges)) copies k₁ k₂ waited polls in
      (
        n,
        Sends-pure tt k₃ l' tt last
            ∙ append-nil k₃.sent
            ∙ Sends-print_end k₂ k₃ ended finish
            ∙ ap (λ z. z ++ one_frame cmd_print_end (1 ∷ []))
                (f
                  ∙ ap (λ z. z ++ status_frames n)
                      (Sends-then start_of_page
                        (λ _. with_rows (row_packets enc m.head_pixels count_split false) send_rows)
                        (b1_start enc density label_type copies) (page_frames rows)
                        Sends-start_of_page
                        (λ _.
                          Sends-with_rows rows (row_packets enc m.head_pixels count_split false) e
                            s)
                        l k₁ paged front)),
      )
