-- ===== src/Niimbot/Client/Replies.antt =====
-- internal/niimbot/client.go: the requests that read something, and how their replies are read.
use Prim.Native.Nat.{bit_or}
use mathlib.Core.Option
use brother_connect.Base.{
  get_elem?, ℕ, ◌+◌, ◌*◌, ◌^◌, ◌%◌, ◌==◌, ltb, leb, not, get_or, length, Bool, false, Option, none,
  List, [], ◌∷◌, if◌then◌else◌,
}
use brother_connect.Niimbot.Packet.{Packet}
use brother_connect.Niimbot.Commands.{
  cmd_heartbeat, cmd_printer_info, cmd_print_status, cmd_print_end, cmd_cancel_print,
  resp_heartbeat_adv1, resp_heartbeat_adv2, resp_heartbeat_base, resp_heartbeat_info,
  resp_print_status, resp_print_end, resp_cancel_print,
}
use brother_connect.Niimbot.Client.{
  M, Result, ok, err, short_status, request, request_retry, pure, ◌>>=◌,
}

-- `type Heartbeat struct`; `none` is a nil pointer.
pub record Heartbeat : Type 0 where
  pub raw : Packet
  pub lid_closed : Option Bool
  pub battery_level : Option ℕ
  pub paper_inserted : Option Bool
  pub rfid_read_ok : Option Bool

-- The byte at a place, as the three kinds of field read it; beyond the data, where Go panics,
-- there is none.
abbrev is_zero : List ℕ → ℕ → Option Bool
is_zero d i = Option.map (λ b. b == 0) (get_elem? d i)

abbrev is_set : List ℕ → ℕ → Option Bool
is_set d i = Option.map (λ b. not (b == 0)) (get_elem? d i)

abbrev level : List ℕ → ℕ → Option ℕ
level d i = get_elem? d i

-- The `switch` on the length of a `RespHeartbeatAdv1`.
unfoldable pub parse_adv1 : Heartbeat → List ℕ → Heartbeat
parse_adv1 hb d =
    let n = length d in
    if n == 10
    then record hb { lid_closed = is_zero d 8; battery_level = level d 9 }
    else if n == 13
    then record hb {
      lid_closed = is_zero d 9;
      battery_level = level d 10;
      paper_inserted = is_zero d 11;
      rfid_read_ok = is_set d 12;
    }
    else if n == 19
    then record hb {
      lid_closed = is_zero d 15;
      battery_level = level d 16;
      paper_inserted = is_zero d 17;
      rfid_read_ok = is_set d 18;
    }
    else if n == 20
    then record hb { paper_inserted = is_zero d 18; rfid_read_ok = is_set d 19 }
    else hb

-- `parseHeartbeat`
unfoldable pub parse_heartbeat : Packet → Heartbeat
unfolding parse_adv1
parse_heartbeat p =
    let hb : Heartbeat = record {
      raw = p;
      lid_closed = none;
      battery_level = none;
      paper_inserted = none;
      rfid_read_ok = none;
    } in
    let d = p.payload in
    if p.cmd == resp_heartbeat_adv2
    then (if leb 7 (length d)
        then record hb {
          battery_level = level d 2;
          lid_closed = is_zero d 4;
          paper_inserted = is_zero d 5;
          rfid_read_ok = is_set d 6;
        }
        else hb)
    else if p.cmd == resp_heartbeat_adv1
    then parse_adv1 hb d
    else hb

-- `Heartbeat`
unfoldable pub heartbeat : M Heartbeat
heartbeat = do
  p ←
      request_retry 3 cmd_heartbeat (1 ∷ [])
        (resp_heartbeat_adv1 ∷ resp_heartbeat_adv2 ∷ resp_heartbeat_base ∷ resp_heartbeat_info ∷ [])
  pure (parse_heartbeat p)

-- `Info`; a key is a byte.
unfoldable pub info : ℕ → M (List ℕ)
info key = do
  p ← request_retry 2 cmd_printer_info (key ∷ []) (((cmd_printer_info + key) % 256) ∷ [])
  pure p.payload

-- The loop of `InfoInt`, `v = v<<8 | int(b)`, on a 64-bit integer.
unfoldable pub big_endian : ℕ → List ℕ → ℕ
big_endian v [] = v
big_endian v (b ∷ bs) = big_endian (bit_or (v * 256 % 2 ^ 64) b) bs

-- `InfoInt`
unfoldable pub info_int : ℕ → M ℕ
info_int key = do d ← info key; pure (big_endian 0 d)

-- `type PrintStatus struct`
pub record PrintStatus : Type 0 where
  pub page : ℕ
  pub print_progress : ℕ
  pub feed_progress : ℕ
  pub error : ℕ

-- The reading of a reply to `PrintStatus`.
unfoldable pub parse_status : List ℕ → Result PrintStatus
parse_status d =
    if ltb (length d) 4
    then err short_status
    else ok (record {
      page = get_or d 0 0 * 256 + get_or d 1 0;
      print_progress = get_or d 2 0;
      feed_progress = get_or d 3 0;
      error = if leb 7 (length d) then get_or d 6 0 else 0;
    })

-- `PrintStatus`
unfoldable pub print_status : M PrintStatus
print_status = do
  p ← request cmd_print_status (1 ∷ []) (resp_print_status ∷ [])
  (λ l. (parse_status p.payload, l))

-- `len(p.Data) > 0 && p.Data[0] != 0`
unfoldable pub is_done : List ℕ → Bool
is_done [] = false
is_done (b ∷ _) = not (b == 0)

-- `PrintEnd`
unfoldable pub print_end : M Bool
print_end = do p ← request cmd_print_end (1 ∷ []) (resp_print_end ∷ []); pure (is_done p.payload)

-- `CancelPrint`
unfoldable pub cancel_print : M (Unit {0})
cancel_print = do p ← request cmd_cancel_print (1 ∷ []) (resp_cancel_print ∷ []); pure tt
