-- ===== src/Niimbot/Print/Tests.antt =====
-- client.go: prints on scripted links, and the theorems at concrete inputs.
use brother_connect.Base.{
  ℕ, ◌≤◌, ◌≡◌, ◌⊎◌, inl, inr, refl, true, false, List, [], ◌∷◌, ◌++◌, pos, negsuc, arith,
}
use brother_connect.Niimbot.Packet.{Packet, marshal, checksum}
use brother_connect.Niimbot.Commands.{cmd_print_end}
use brother_connect.Niimbot.Client.{
  err, ClientError, timeout, image_too_wide, invalid_rows, packet, Exchange, Link, contains, await,
  accept_or_next, request, send, send_all, drain,
}
use brother_connect.Niimbot.Client.Replies.{print_status, print_end, parse_status, is_done}
use brother_connect.Niimbot.Image.{
  EncodedImage, encode, encode_rows, pack_row, set_pixels, or_at, add_row, row_packets,
  row_packets_from, row_packet, pixel_counts, count_loop, checks_up_to, popcount, popcount_loop,
}
use brother_connect.Niimbot.Model.{default_model}
use brother_connect.Niimbot.Print.{
  PrintSettings, density_for, print_image, print_b1, print_init, send_rows, wait_rounds,
  wait_by_status, end_rounds, wait_by_end,
}
use brother_connect.Niimbot.Print.Settings.{
  density_for_bounds, print_failure, print_guards, end_frame, cancel_frame,
}
use brother_connect.Niimbot.Print.Waiting.{wait_by_end_enough}
use brother_connect.Niimbot.Print.Sequence.{print_b1_frames, b1_start, status_frames}
use brother_connect.Niimbot.Print.Steps.{page_frames, one_frame}

abbrev defaults : PrintSettings
defaults = record { density = pos 0; label_type = 0; copies = negsuc 2 }

-- A row with one black pixel.
abbrev dot : EncodedImage
dot = encode 8 ((true ∷ []) ∷ [])

abbrev dot_rows : List Packet
dot_rows = record { cmd = 0x85; payload = 0 ∷ 0 ∷ 1 ∷ 0 ∷ 0 ∷ 1 ∷ 0x80 ∷ [] } ∷ []

abbrev reply_with : ℕ → List ℕ → Exchange
reply_with cmd payload = record {
  stale = [];
  writes = [];
  happenings = packet (record { cmd = cmd; payload = payload }) ∷ [];
  pause_cancelled = false;
}

-- A printer that does everything, and has printed at the second poll.
abbrev good_printer : Link
good_printer = record {
  exchanges =
      reply_with 0x31 (1 ∷ [])
      ∷ reply_with 0x33 (1 ∷ [])
      ∷ reply_with 0x02 (1 ∷ [])
      ∷ reply_with 0x04 (1 ∷ [])
      ∷ reply_with 0x14 (1 ∷ [])
      ∷ reply_with 0xE4 (1 ∷ [])
      ∷ reply_with 0xB3 (0 ∷ 0 ∷ 50 ∷ 0 ∷ [])
      ∷ reply_with 0xB3 (0 ∷ 1 ∷ 100 ∷ 100 ∷ [])
      ∷ reply_with 0xF4 (1 ∷ [])
      ∷ [];
  sent = [];
}

abbrev dead_printer : Link
dead_printer = record { exchanges = []; sent = [] }

density_for_bounds_example :
    (1 ≤ density_for default_model (negsuc 6))
    × (density_for default_model (negsuc 6) ≤ 5)
    × (density_for default_model (pos 4) ≡ 4)
    × (density_for default_model (pos 0) ≡ default_model.density_default)
density_for_bounds_example =
    density_for_bounds default_model (negsuc 6) 3 (omega arith) (omega arith) (omega arith)
      (omega arith)

abbrev no_rows : EncodedImage
no_rows = record { cols = 8; rows = 0; runs = [] }

print_guards_run :
    (e : ClientError) × ((e ≡ image_too_wide) ⊎ (e ≡ invalid_rows))
    × (print_image default_model no_rows defaults dead_printer ≡ (err e, dead_printer))
print_guards_run = print_guards default_model no_rows defaults dead_printer (inr (inl refl))

-- A printer at work, that has printed at the second poll.
abbrev busy_printer : Link
busy_printer = record {
  exchanges = reply_with 0xB3 (0 ∷ 0 ∷ 50 ∷ 0 ∷ []) ∷ reply_with 0xB3 (0 ∷ 1 ∷ 100 ∷ 100 ∷ []) ∷ [];
  sent = [];
}

wait_by_end_enough_run : end_rounds 3 dead_printer ≡ wait_by_end dead_printer
wait_by_end_enough_run = wait_by_end_enough 2 dead_printer

abbrev after_dot : Link
after_dot = (print_b1 dot 3 1 1 default_model good_printer).1

print_b1_frames_example :
    (n : ℕ) × (after_dot.sent
      ≡ (([] ++ (b1_start dot 3 1 1 ++ page_frames dot_rows)) ++ status_frames n)
        ++ one_frame cmd_print_end (1 ∷ []))
unfolding encode encode_rows pack_row set_pixels or_at add_row row_packets row_packets_from
    row_packet pixel_counts count_loop popcount popcount_loop checks_up_to print_b1 print_init
    request await contains accept_or_next send marshal checksum drain send_all send_rows
    wait_by_status wait_rounds print_status parse_status print_end is_done
print_b1_frames_example =
    print_b1_frames dot 3 1 1 default_model dot_rows good_printer after_dot refl (omega arith, tt)
      refl

-- A printer that does not answer: the error of the first request, and the reset.
print_failure_example :
    ((print_image default_model dot defaults dead_printer).0 ≡ err timeout)
    × ((print_image default_model dot defaults dead_printer).1.sent
        ≡ (print_b1 dot 3 1 1 default_model dead_printer).1.sent ++ (end_frame ∷ cancel_frame ∷ []))
unfolding encode encode_rows pack_row set_pixels or_at add_row row_packets row_packets_from
    row_packet pixel_counts count_loop popcount popcount_loop checks_up_to print_b1 print_init
    request await contains accept_or_next send marshal checksum drain send_all send_rows density_for
print_failure_example =
    print_failure default_model dot defaults dead_printer
      (print_b1 dot 3 1 1 default_model dead_printer).1 timeout (omega arith) (omega arith)
      (omega arith) refl refl refl
