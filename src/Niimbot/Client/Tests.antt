-- ===== src/Niimbot/Client/Tests.antt =====
-- client.go: requests on scripted links, and the theorems at concrete inputs.
use mathlib.Core.Logic.{◌↔◌}
use brother_connect.Base.{◌≡◌, ◌≢◌, refl, [], ◌∷◌, some, none, true, false, arith}
use brother_connect.Niimbot.Packet.{Packet}
use brother_connect.Niimbot.Packet.Frame.{frame}
use brother_connect.Niimbot.Commands.{cmd_heartbeat, resp_heartbeat_adv1}
use brother_connect.Niimbot.Client.{
  ok, packet, timer, Exchange, Link, written, contains, accept_or_next, await, request,
  request_retry,
}
use brother_connect.Niimbot.Client.Replies.{parse_heartbeat}
use brother_connect.Niimbot.Client.Heartbeats.{parse_heartbeat_fields, LidVariant, RollVariant}
use brother_connect.Niimbot.Client.Requests.{request_lem}
use brother_connect.Niimbot.Client.Answers.{
  AnsweredBy, await_iff, request_retry_answers, no_more, one_more,
}

-- The heartbeat of a B1.
abbrev b1_heartbeat : Packet
b1_heartbeat = record {
  cmd = resp_heartbeat_adv1;
  payload = 0 ∷ 0 ∷ 0 ∷ 0 ∷ 0 ∷ 0 ∷ 0 ∷ 0 ∷ 0 ∷ 0 ∷ 4 ∷ 0 ∷ 1 ∷ [];
}

b1_battery : (parse_heartbeat b1_heartbeat).battery_level ≡ some 4
unfolding parse_heartbeat
b1_battery = refl

b1_lid : (parse_heartbeat b1_heartbeat).lid_closed ≡ some true
unfolding parse_heartbeat
b1_lid = refl

abbrev check_line_reply : Packet
check_line_reply = record { cmd = 0xD3; payload = [] }

abbrev late : Exchange
late = record {
  stale = [];
  writes = [];
  happenings = packet check_line_reply ∷ timer ∷ [];
  pause_cancelled = false;
}

abbrev answered : Exchange
answered = record {
  stale = check_line_reply ∷ [];
  writes = written ∷ [];
  happenings = packet check_line_reply ∷ packet b1_heartbeat ∷ [];
  pause_cancelled = false;
}

abbrev fresh_link : Link
fresh_link = record { exchanges = answered ∷ []; sent = [] }

await_iff_example :
    (await (resp_heartbeat_adv1 ∷ []) (packet b1_heartbeat ∷ []) ≡ ok b1_heartbeat)
    ↔ AnsweredBy (resp_heartbeat_adv1 ∷ []) b1_heartbeat (packet b1_heartbeat ∷ [])
await_iff_example = await_iff (resp_heartbeat_adv1 ∷ []) b1_heartbeat (packet b1_heartbeat ∷ [])

request_lem_run : request cmd_heartbeat (1 ∷ []) (resp_heartbeat_adv1 ∷ []) fresh_link ≡ (
  ok b1_heartbeat,
  record { exchanges = []; sent = frame (record { cmd = cmd_heartbeat; payload = 1 ∷ [] }) ∷ [] },
)
unfolding await contains accept_or_next
request_lem_run =
    request_lem cmd_heartbeat (1 ∷ []) (resp_heartbeat_adv1 ∷ []) fresh_link (omega arith)

request_retry_answers_example :
    request_retry 3 cmd_heartbeat
      (1 ∷ [])
      (resp_heartbeat_adv1 ∷ [])
      (record { exchanges = late ∷ answered ∷ []; sent = [] })
    ≡ (
      ok b1_heartbeat,
      record {
        exchanges = [];
        sent =
            frame (record { cmd = cmd_heartbeat; payload = 1 ∷ [] })
            ∷ frame (record { cmd = cmd_heartbeat; payload = 1 ∷ [] })
            ∷ [];
      },
    )
unfolding await contains
request_retry_answers_example =
    request_retry_answers cmd_heartbeat (1 ∷ []) resp_heartbeat_adv1 [] b1_heartbeat (late ∷ [])
      answered [] [] 3 (omega arith)
      (one_more (record { is_written = refl; is_late = refl }) no_more) refl refl (omega arith)

parse_heartbeat_fields_run :
    (((parse_heartbeat b1_heartbeat).lid_closed ≢ none) ↔ LidVariant b1_heartbeat)
    × (((parse_heartbeat b1_heartbeat).battery_level ≢ none) ↔ LidVariant b1_heartbeat)
    × (((parse_heartbeat b1_heartbeat).paper_inserted ≢ none) ↔ RollVariant b1_heartbeat)
    × (((parse_heartbeat b1_heartbeat).rfid_read_ok ≢ none) ↔ RollVariant b1_heartbeat)
parse_heartbeat_fields_run = parse_heartbeat_fields b1_heartbeat
