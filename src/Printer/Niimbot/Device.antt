-- ===== src/Printer/Niimbot/Device.antt =====
-- internal/printer/niimbot.go: the printers that the backend knows, and the links to them. A link is
-- that of the NIIMBOT client; what an attempt to connect comes to is given, `none` for an error.
use brother_connect.Base.{
  ℕ, ◌&&◌, not, Bool, true, false, String, str_eq, Option, none, some, List, [], ◌∷◌, ◌++◌, lookup,
  insert, if◌then◌else◌,
}
use mathlib.Core.Bool.{decide}
use brother_connect.Niimbot.Client.{Link, Result, ok, err}
use brother_connect.Niimbot.Client.Replies.{Heartbeat, heartbeat}
use brother_connect.Niimbot.Model.{Model}
use brother_connect.Printer.Types.{
  Status, ready, out_of_media, cover_open, offline, Printer, DiscoveryEvent, connected,
  status_changed, PrintError, unknown_printer,
}

-- `type niimbotDevice struct`; the path of a serial port is empty for a Bluetooth device.
pub record Device : Type 0 where
  pub printer : Printer
  pub address : String
  pub serial_path : String
  pub model : Model
  pub missed : ℕ
  pub last_check : ℕ

-- What changes of `type NiimbotBackend struct`, and the events that it has emitted.
pub record Backend : Type 0 where
  pub devices : List (String × Device)
  pub emitted_events : List DiscoveryEvent

unfoldable pub Status-discrete : Discrete Status
Status-discrete = hlevel

unfoldable pub eq_status : Status → Status → Bool
unfolding Status-discrete decide
eq_status s t = decide (Status-discrete s t)

abbrev pub is_open_lid : Option Bool → Bool
is_open_lid (some closed) = not closed
is_open_lid none = false

-- `statusFromHeartbeat`
unfoldable pub status_from_heartbeat : Heartbeat → Status
status_from_heartbeat hb =
    if is_open_lid hb.lid_closed
    then cover_open
    else if is_open_lid hb.paper_inserted
    then out_of_media
    else ready

-- The two attempts of `open`.
abbrev pub open_link : Option Link → Option Link → Option Link
open_link (some l) second = some l
open_link none second = second

abbrev pub probed : Result Heartbeat × Link → Option Status
probed (ok hb, l) = some (status_from_heartbeat hb)
probed (err e, l) = none

abbrev pub probed_over : Option Link → Option Status
probed_over none = none
probed_over (some l) = probed (heartbeat l)

-- `probeStatus`; `none` is its error.
unfoldable pub probe_status : Option Link → Option Link → Option Status
probe_status first second = probed_over (open_link first second)

abbrev pub known_by : List (String × Device) → String → Option String
known_by [] address = none
known_by ((id, d) ∷ rest) address =
    let later = known_by rest address in if str_eq d.address address then some id else later

-- `knownByAddress`
unfoldable pub known_by_address : Backend → String → Option String
known_by_address b address = known_by b.devices address

abbrev pub event_of : Bool → Printer → List DiscoveryEvent
event_of true p = record { kind = status_changed; printer = p } ∷ []
event_of false p = []

-- `setStatus` from the look-up on; `tells` is whether it is given a channel for events.
abbrev pub refreshed : Option Device → String → Status → Bool → ℕ → Backend → Backend
refreshed none id st tells now b = b
refreshed (some d) id st tells now b =
    let p : Printer = record d.printer { status = st } in
    record b {
      devices = insert id (record d { printer = p; last_check = now }) b.devices;
      emitted_events =
          b.emitted_events ++ event_of (not (eq_status d.printer.status st) && tells) p;
    }

-- `setStatus`
unfoldable pub set_status : String → Status → Bool → ℕ → Backend → Backend
set_status id st tells now b = refreshed (lookup id b.devices) id st tells now b

-- `add`
unfoldable pub add_device : Device → Backend → Backend
add_device d b = record b {
  devices = insert d.printer.id d b.devices;
  emitted_events = b.emitted_events ++ (record { kind = connected; printer = d.printer } ∷ []);
}

abbrev pub status_or_unknown : String → Option Device → Status × Option PrintError
status_or_unknown id none = (offline, some (unknown_printer id))
status_or_unknown id (some d) = (d.printer.status, none)

-- `Status`
unfoldable pub cached_status : String → Backend → Status × Option PrintError
cached_status id b = status_or_unknown id (lookup id b.devices)
