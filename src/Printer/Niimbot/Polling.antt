-- ===== src/Printer/Niimbot/Polling.antt =====
-- internal/printer/niimbot.go: `poll`, one cycle of discovery. What the scan finds, what connecting to
-- a device and `identify` come to, and the links of the refresh are given for each cycle, as is the
-- time, which is read once here. A map is gone through in the order of its list.
pub mod Expiry
pub mod Refreshing
pub mod Absence
use brother_connect.Base.{
  ℕ, zero, suc, ◌+◌, leb, ◌&&◌, not, Bool, true, false, String, str_eq, str_append, Option, none,
  some, List, [], ◌∷◌, ◌++◌, ℤ, pos, negsuc, is_positive, if◌then◌else◌,
}
use brother_connect.Niimbot.Client.{Link}
use brother_connect.Niimbot.Model.{Model}
use brother_connect.Printer.Types.{Printer, DiscoveryEvent, disconnected, Status}
use brother_connect.Printer.Niimbot.Device.{
  Device, Backend, known_by_address, add_device, set_status, probe_status,
}

-- The parts of `type NiimbotOptions struct` that the cycle reads.
pub record NiimbotOptions : Type 0 where
  pub status_interval : ℤ
  pub missed_scans : ℤ
  pub serial_ports : List String
  pub disable_ble : Bool

abbrev pub or_two_minutes : ℤ → ℤ
or_two_minutes (pos zero) = pos 120000
or_two_minutes d = d

abbrev pub or_three : ℤ → ℤ
or_three (pos (suc n)) = pos (suc n)
or_three other = pos 3

-- The defaults of `NewNiimbotBackend`.
unfoldable pub complete_options : NiimbotOptions → NiimbotOptions
complete_options o = record o {
  status_interval = or_two_minutes o.status_interval;
  missed_scans = or_three o.missed_scans;
}

-- What `identify` reads from a device.
pub record Identity : Type 0 where
  pub printer : Printer
  pub model : Model

-- What a cycle meets: whether a print holds the link, what is at the serial ports, what the scan finds,
-- and the two attempts to connect to a printer for its status.
pub record Surroundings : Type 0 where
  pub is_link_busy : Bool
  pub at_port : String → Option Identity
  pub found : List (String × Option Identity)
  pub attempts : String → Option Link × Option Link

abbrev pub new_device : String → String → Identity → ℕ → Device
new_device address path i now = record {
  printer = i.printer;
  address = address;
  serial_path = path;
  model = i.model;
  missed = 0;
  last_check = now;
}

unfoldable pub contains_text : List String → String → Bool
contains_text [] s = false
contains_text (t ∷ more) s = let later = contains_text more s in if str_eq t s then true else later

-- The addresses seen, and the backend after a device is identified or not.
abbrev pub after_identify :
    Option Identity → String → String → Bool → ℕ → List String → Backend → List String × Backend
after_identify none address path counts now seen b = (if counts then address ∷ seen else seen, b)
after_identify (some i) address path counts now seen b =
    (address ∷ seen, add_device (new_device address path i now) b)

abbrev pub if_unknown :
    Option String → String → List String × Backend → List String → Backend → List String × Backend
if_unknown none address identified seen b = identified
if_unknown (some id) address identified seen b = (address ∷ seen, b)

-- The loop over the serial ports. A port that does not answer is not seen.
unfoldable pub probe_ports :
    (String → Option Identity) → ℕ → List String → List String × Backend → List String × Backend
probe_ports at_port now [] s = s
probe_ports at_port now (path ∷ more) (seen, b) =
    let address = str_append "serial:" path in
    probe_ports at_port now more (
      if_unknown (known_by_address b address) address
        (after_identify (at_port path) address path false now seen b) seen b)

-- The loop over the devices of the scan. They are all seen.
unfoldable pub take_found :
    ℕ → List (String × Option Identity) → List String × Backend → List String × Backend
take_found now [] s = s
take_found now ((address, identity) ∷ more) (seen, b) = take_found now more (
    if_unknown (known_by_address b address) address
      (after_identify identity address "" true now seen b) seen b)

-- The count of missed scans after a cycle.
unfoldable pub aged : List String → Device → Device
aged seen d =
    if contains_text seen d.address
    then record d { missed = 0 }
    else if str_eq d.serial_path ""
    then record d { missed = suc d.missed }
    else d

-- `d.missed >= b.opts.MissedScans`
abbrev pub has_reached : ℤ → ℕ → Bool
has_reached (pos limit) missed = leb limit missed
has_reached (negsuc n) missed = true

-- The devices that are kept.
unfoldable pub expire_devices : List String → ℤ → List (String × Device) → List (String × Device)
expire_devices seen limit [] = []
expire_devices seen limit ((id, d) ∷ more) =
    let later = expire_devices seen limit more in
    if has_reached limit (aged seen d).missed then later else (id, aged seen d) ∷ later

-- The events for those that are not.
unfoldable pub lost_printers : List String → ℤ → List (String × Device) → List DiscoveryEvent
lost_printers seen limit [] = []
lost_printers seen limit ((id, d) ∷ more) =
    let later = lost_printers seen limit more in
    if has_reached limit (aged seen d).missed
    then record { kind = disconnected; printer = d.printer } ∷ later
    else later

-- `StatusInterval > 0 && now.Sub(lastCheck) >= StatusInterval`
abbrev pub is_due : ℤ → ℕ → ℕ → Bool
is_due (pos interval) now last = is_positive (pos interval) && leb (last + interval) now
is_due (negsuc n) now last = false

unfoldable pub due_ones : ℤ → ℕ → List (String × Device) → List String
due_ones interval now [] = []
due_ones interval now ((id, d) ∷ more) =
    let later = due_ones interval now more in
    if is_due interval now d.last_check then id ∷ later else later

abbrev pub if_probed : Option Status → String → ℕ → Backend → Backend
if_probed none id now b = b
if_probed (some st) id now b = set_status id st true now b

-- The loop of the refresh.
unfoldable pub refresh : (String → Option Link × Option Link) → ℕ → List String → Backend → Backend
refresh attempts now [] b = b
refresh attempts now (id ∷ more) b =
    refresh attempts now more (if_probed (probe_status (attempts id).0 (attempts id).1) id now b)

-- The cycle from the expiry on.
abbrev pub settle : NiimbotOptions → Surroundings → ℕ → List String × Backend → Backend
settle o s now (seen, b) =
    let kept = expire_devices seen o.missed_scans b.devices in
    refresh s.attempts now (due_ones o.status_interval now kept) (record b {
      devices = kept;
      emitted_events = b.emitted_events ++ lost_printers seen o.missed_scans b.devices;
    })

abbrev pub scan : NiimbotOptions → Surroundings → ℕ → List String × Backend → List String × Backend
scan o s now acc = if o.disable_ble then acc else take_found now s.found acc

-- `poll`
unfoldable pub poll : NiimbotOptions → Surroundings → ℕ → Backend → Backend
poll o s now b =
    if s.is_link_busy
    then b
    else settle o s now (scan o s now (probe_ports s.at_port now o.serial_ports ([], b)))
