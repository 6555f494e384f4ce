-- ===== src/Niimbot/Print.antt =====
-- internal/niimbot/client.go: the print sequences of the three families of firmware, on the links
-- of Client. The callback for progress only observes and is left out.
use brother_connect.Base.{
  ℕ, zero, suc, ◌+◌, ◌*◌, ◌%◌, ◌==◌, ltb, leb, not, ◌||◌, min, max, length, Bool, true, false,
  Option, none, some, List, [], ◌∷◌, ◌++◌, ℤ, pos, negsuc, if◌then◌else◌,
}
use brother_connect.Niimbot.Packet.{Packet}
use brother_connect.Niimbot.Commands.{
  cmd_print_start, cmd_page_start, cmd_set_page_size, cmd_print_quantity, cmd_print_clear,
  cmd_set_density, cmd_set_label_type, cmd_page_end, resp_print_start, resp_page_start,
  resp_set_page_size, resp_print_quantity, resp_print_clear, resp_set_density, resp_set_label_type,
  resp_page_end, label_gap,
}
use brother_connect.Niimbot.Client.{
  M, Result, ok, err, ClientError, timeout, cancelled, print_error, image_too_wide, invalid_rows,
  panicked, Exchange, Link, first_exchange, other_exchanges, await, drain, arrivals, answer_if,
  request, send_all, pure, ◌>>=◌, ◌>>◌,
}
use brother_connect.Niimbot.Client.Replies.{PrintStatus, print_status, print_end, cancel_print}
use brother_connect.Niimbot.Model.{Model, Task, task_b1, task_b21_v1, task_d110}
use brother_connect.Niimbot.Image.{EncodedImage, row_packets, count_split, count_total, u16}
pub mod Waiting
pub mod Steps
pub mod Sequence
pub mod Settings
mod Tests

-- `type PrintOptions struct`
pub record PrintSettings : Type 0 where
  pub density : ℤ
  pub label_type : ℕ
  pub copies : ℤ

-- `if opts.Copies < 1`
abbrev pub at_least_one : ℤ → ℕ
at_least_one (pos (suc n)) = suc n
at_least_one other = 1

-- `max(m.DensityMin, min(m.DensityMax, density))`; a density below 0 gives the least one.
abbrev clamp : ℕ → ℕ → ℤ → ℕ
clamp low high (pos n) = max low (min high n)
clamp low high (negsuc n) = low

-- The density that `Print` sends: the default for 0, within the model's bounds.
unfoldable pub density_for : Model → ℤ → ℕ
density_for m (pos zero) = clamp m.density_min m.density_max (pos m.density_default)
density_for m d = clamp m.density_min m.density_max d

-- `if opts.LabelType == 0`
abbrev pub label_type_for : ℕ → ℕ
label_type_for t = if t == 0 then label_gap else t

abbrev pub page_end : Packet
page_end = record { cmd = cmd_page_end; payload = 1 ∷ [] }

-- An error, or success without a value.
abbrev pub no_value : {A : Type 0} → Result A → Result (Unit {0})
no_value (ok _) = ok tt
no_value (err e) = err e

-- `printInit`
unfoldable pub print_init : ℕ → ℕ → List ℕ → M (Unit {0})
print_init density label_type start =
    request cmd_set_density ((density % 256) ∷ []) (resp_set_density ∷ [])
    >> request cmd_set_label_type ((label_type % 256) ∷ []) (resp_set_label_type ∷ [])
    >> request cmd_print_start start (resp_print_start ∷ [])
    >> pure tt

-- `sendRows`: one exchange with the writes of all the rows and of the end of the page.
unfoldable pub send_rows : List Packet → M (Unit {0})
send_rows rows l =
    let x = first_exchange l.exchanges in
    let waiting = drain x.stale in
    let (outcome, sent') = send_all (rows ++ (page_end ∷ [])) x.writes l.sent in
    let answer = await (resp_page_end ∷ []) (arrivals waiting x.happenings) in
    let l' : Link = record { exchanges = other_exchanges l.exchanges; sent = sent' } in
    (no_value (answer_if outcome answer), l')

-- Whether the context ends in the pause before the next exchange.
abbrev pub stops_in_pause : Link → Bool
stops_in_pause l = (first_exchange l.exchanges).pause_cancelled

-- What a round of `waitByStatus` makes of a status; `again` is the next round.
abbrev pub after_status :
    ℕ → Result PrintStatus → Link → Result (Unit {0}) × Link → Result (Unit {0}) × Link
after_status want (err e) l again = (err e, l)
after_status want (ok st) l again =
    if not (st.error == 0)
    then (err (print_error st.error), l)
    else if leb want st.page
    then (ok tt, l)
    else if stops_in_pause l
    then (err cancelled, l)
    else again

-- The loop of `waitByStatus` on fuel. Each round uses up an exchange, and the silence after the
-- last one ends the loop.
unfoldable pub wait_rounds : ℕ → ℕ → M (Unit {0})
wait_rounds zero want l = (err timeout, l)
wait_rounds (suc fuel) want l =
    let (r, l') = print_status l in
    let again = wait_rounds fuel want l' in after_status want r l' again

-- `waitByStatus`
unfoldable pub wait_by_status : ℕ → M (Unit {0})
wait_by_status want l = wait_rounds (suc (length l.exchanges)) want l

-- What a round of the last loop of `printB21V1` makes of the answer to `PrintEnd`.
abbrev pub after_end : Result Bool → Link → Result (Unit {0}) × Link → Result (Unit {0}) × Link
after_end (err e) l again = (err e, l)
after_end (ok true) l again = (ok tt, l)
after_end (ok false) l again = if stops_in_pause l then (err cancelled, l) else again

-- That loop, on fuel like `wait_rounds`.
unfoldable pub end_rounds : ℕ → M (Unit {0})
end_rounds zero l = (err timeout, l)
end_rounds (suc fuel) l =
    let (r, l') = print_end l in let again = end_rounds fuel l' in after_end r l' again

unfoldable pub wait_by_end : M (Unit {0})
wait_by_end l = end_rounds (suc (length l.exchanges)) l

-- The use of `RowPackets`; its panic is the error `panicked`.
abbrev pub with_rows : Option (List Packet) → (List Packet → M (Unit {0})) → M (Unit {0})
with_rows none f l = (err panicked, l)
with_rows (some rows) f l = f rows l

-- `printB1`
unfoldable pub print_b1 : EncodedImage → ℕ → ℕ → ℕ → Model → M (Unit {0})
print_b1 enc density label_type copies m =
    print_init density label_type (u16 copies ++ (0 ∷ 0 ∷ 0 ∷ 0 ∷ 0 ∷ []))
    >> request cmd_page_start (1 ∷ []) (resp_page_start ∷ [])
    >> request cmd_set_page_size (u16 enc.rows ++ u16 enc.cols ++ u16 copies)
        (resp_set_page_size ∷ [])
    >> with_rows (row_packets enc m.head_pixels count_split false) send_rows
    >> wait_by_status copies
    >> print_end
    >> pure tt

-- `printD110`
unfoldable pub print_d110 : EncodedImage → ℕ → ℕ → ℕ → Model → M (Unit {0})
print_d110 enc density label_type copies m =
    print_init density label_type (1 ∷ [])
    >> request cmd_print_clear (1 ∷ []) (resp_print_clear ∷ [])
    >> request cmd_page_start (1 ∷ []) (resp_page_start ∷ [])
    >> request cmd_set_page_size (u16 enc.rows ++ u16 enc.cols) (resp_set_page_size ∷ [])
    >> request cmd_print_quantity (u16 copies) (resp_print_quantity ∷ [])
    >> with_rows (row_packets enc m.head_pixels count_split false) send_rows
    >> wait_by_status copies
    >> print_end
    >> pure tt

-- The loop over the copies of `printB21V1`.
unfoldable pub print_pages : EncodedImage → ℕ → List Packet → M (Unit {0})
print_pages enc zero rows = pure tt
print_pages enc (suc copies) rows =
    request cmd_page_start (1 ∷ []) (resp_page_start ∷ [])
    >> request cmd_set_page_size (u16 enc.rows ++ u16 enc.cols) (resp_set_page_size ∷ [])
    >> send_rows rows
    >> print_pages enc copies rows

-- `printB21V1`
unfoldable pub print_b21_v1 : EncodedImage → ℕ → ℕ → ℕ → Model → M (Unit {0})
print_b21_v1 enc density label_type copies m =
    print_init density label_type (1 ∷ [])
    >> with_rows (row_packets enc m.head_pixels count_total true) (print_pages enc copies)
    >> wait_by_end

-- The `switch` on the task.
abbrev pub run_task : Task → EncodedImage → ℕ → ℕ → ℕ → Model → M (Unit {0})
run_task task_b21_v1 = print_b21_v1
run_task task_d110 = print_d110
run_task task_b1 = print_b1

-- The reset after a failure; its own errors are ignored.
abbrev pub reset : Link → Link
reset l = (cancel_print (print_end l).1).1

abbrev pub reset_after : Result (Unit {0}) × Link → Result (Unit {0}) × Link
reset_after (ok _, l) = (ok tt, l)
reset_after (err e, l) = (err e, reset l)

-- `Print`, for the model that the client has.
unfoldable pub print_image : Model → EncodedImage → PrintSettings → M (Unit {0})
print_image m enc opts l =
    if ltb m.head_pixels enc.cols
    then (err image_too_wide, l)
    else if (enc.rows == 0) || ltb 0xFFFF enc.rows
    then (err invalid_rows, l)
    else reset_after (
        run_task m.task enc (density_for m opts.density) (label_type_for opts.label_type)
          (at_least_one opts.copies) m l)
