-- ===== src/Printer/Niimbot/Tests.antt =====
-- niimbot.go: a printer with an open lid, and one that is switched off.
use brother_connect.Base.{
  ℕ, ◌+◌, ◌≡◌, refl, ltb, true, false, String, List, [], ◌∷◌, none, some, pos, lookup, insert,
  arith,
}
use brother_connect.Niimbot.Commands.{resp_heartbeat_adv1}
use brother_connect.Niimbot.Client.{
  Link, packet, written, await, contains, request, request_retry, send, drain, accept_or_next,
}
use brother_connect.Niimbot.Client.Replies.{heartbeat, parse_heartbeat, parse_adv1}
use brother_connect.Niimbot.Packet.{marshal}
use brother_connect.Niimbot.Model.{default_model}
use brother_connect.Printer.Types.{
  bluetooth, ready, cover_open, PrintOptions, is_printable, not_printable,
}
use brother_connect.Printer.Niimbot.Device.{Device, Backend, set_status, status_from_heartbeat}
use brother_connect.Printer.Niimbot.Printing.{Raster, raster, PrintFault, print_label}
use brother_connect.Printer.Niimbot.Printing.Outcome.{Agrees, print_label-Agrees}
use brother_connect.Printer.Niimbot.Printing.Silence.{print_label-unheard}
use brother_connect.Printer.Niimbot.Polling.{NiimbotOptions, Surroundings}
use brother_connect.Printer.Niimbot.Polling.Absence.{is_known, poll_all, poll_all-absent}

abbrev device : Device
device = record {
  printer = record {
    id = "niimbot-1";
    model = "NIIMBOT B1";
    serial_number = "1";
    connection = bluetooth;
    status = ready;
    dpi = 203;
    loaded_width_mm = pos 0;
    loaded_height_mm = pos 0;
  };
  address = "aa:bb";
  serial_path = "";
  model = default_model;
  missed = 0;
  last_check = 0;
}

abbrev backend : Backend
backend = record { devices = ("niimbot-1", device) ∷ []; emitted_events = [] }

abbrev open_lid : Link
open_lid = record {
  exchanges =
      record {
        stale = [];
        writes = written ∷ [];
        happenings =
            packet (record {
              cmd = resp_heartbeat_adv1;
              payload = 0 ∷ 0 ∷ 0 ∷ 0 ∷ 0 ∷ 0 ∷ 0 ∷ 0 ∷ 0 ∷ 1 ∷ 4 ∷ 0 ∷ 1 ∷ [];
            })
            ∷ [];
        pause_cancelled = false;
      }
      ∷ [];
  sent = [];
}

abbrev label : Raster
label = raster (record { cols = 8; rows = 1; runs = [] })

abbrev options : PrintOptions
options = record { width_mm = pos 50; height_mm = pos 30 }

abbrev describe : PrintFault → String
describe f = "niimbot"

abbrev after_print : Backend
after_print = (print_label describe "niimbot-1" 5 9 label options none (some open_lid) backend).1

lid_is_told :
    (print_label describe "niimbot-1" 5 9 label options none (some open_lid) backend).0
    ≡ some (not_printable "niimbot-1" cover_open)
unfolding print_label lookup heartbeat request_retry request send drain await contains
    accept_or_next parse_heartbeat parse_adv1 status_from_heartbeat is_printable marshal
lid_is_told = refl

print_label-Agrees_example :
    Agrees "niimbot-1" backend
      (print_label describe "niimbot-1" 5 9 label options none (some open_lid) backend)
print_label-Agrees_example =
    print_label-Agrees describe "niimbot-1" 5 9 label options none (some open_lid) backend

print_label-unheard_example :
    (after_print.emitted_events ≡ [])
    × ((set_status "niimbot-1" cover_open true 20 after_print).emitted_events ≡ [])
unfolding print_label lookup set_status insert heartbeat request_retry request send drain await
    contains accept_or_next parse_heartbeat parse_adv1 status_from_heartbeat is_printable marshal
print_label-unheard_example =
    print_label-unheard describe "niimbot-1" 5 9 label options none (some open_lid) backend
      cover_open 20 refl

abbrev niimbot_options : NiimbotOptions
niimbot_options = record {
  status_interval = pos 120000;
  missed_scans = pos 3;
  serial_ports = [];
  disable_ble = false;
}

abbrev nobody : Surroundings
nobody = record {
  is_link_busy = false;
  at_port = λ path. none;
  found = ("cc:dd", none) ∷ [];
  attempts = λ id. (none, none);
}

abbrev cycles : List (Surroundings × ℕ)
cycles = (nobody, 20000) ∷ (nobody, 40000) ∷ (nobody, 60000) ∷ []

poll_all-absent_example :
    is_known "niimbot-1" (poll_all niimbot_options cycles backend) ≡ ltb (0 + 3) 3
unfolding lookup
poll_all-absent_example =
    poll_all-absent niimbot_options 3 "niimbot-1" "aa:bb" cycles 0 backend refl refl
      ((refl, ((refl, refl), tt)), ((refl, ((refl, refl), tt)), ((refl, ((refl, refl), tt)), tt)))
      (refl, tt) (device, refl, refl, refl, refl) (omega arith)
