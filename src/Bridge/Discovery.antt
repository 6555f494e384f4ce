-- ===== src/Bridge/Discovery.antt =====
-- internal/bridge/bridge.go: the events of discovery. What the driver answers for a printer is a
-- parameter of each event.
pub mod Updates
use brother_connect.Base.{
  ℕ, ℤ, Bool, true, false, not, ◌&&◌, String, Option, none, some, List, [], ◌∷◌, ◌++◌,
}
use brother_connect.Bridge.State.{Bridge, record_printer}
use brother_connect.Bridge.Messages.{tell}
use brother_connect.Printer.Types.{
  Status, Printer, is_available, DiscoveryEvent, EventKind, connected, disconnected, status_changed,
}
use brother_connect.Protocol.{Codec, PrinterUpdate, tell_printer, type_printer_update}
use brother_connect.Transport.Outbox.{Outbox}

-- The driver at an event: whether it is a `Registrar`, its `Status` if it gives one, and the media
-- if it is a `MediaReporter` that gives one.
pub record DriverAnswers : Type 0 where
  pub is_registrar : Bool
  pub live_status : Option Status
  pub loaded_media : Option (ℤ × ℤ)

abbrev pub with_status : Option Status → Printer → Printer
with_status none p = p
with_status (some st) p = record p { status = st }

abbrev pub with_media : Option (ℤ × ℤ) → Printer → Printer
with_media none p = p
with_media (some (w, h)) p = record p { loaded_width_mm = w; loaded_height_mm = h }

-- `enrichFromDriver`
unfoldable pub enrich_from_driver : DriverAnswers → Printer → Printer
enrich_from_driver d p = with_media d.loaded_media (with_status d.live_status p)

-- `ev.Kind != printer.EventDisconnected`
abbrev pub is_present : EventKind → Bool
is_present disconnected = false
is_present connected = true
is_present status_changed = true

abbrev pub register : {W : Type 0} → Bool → Printer → Bridge W → Bridge W
register true p b = record b { registered = b.registered ++ (p ∷ []) }
register false p b = b

-- `p` after the branch for a printer that is there.
abbrev pub shown_as : Bool → DriverAnswers → Printer → Printer
shown_as true d p = enrich_from_driver d p
shown_as false d p = p

-- The message of `sendPrinterUpdate`.
abbrev pub update_of : Printer → Bool → PrinterUpdate
update_of p available = record {
  printer_id = p.id;
  model = p.model;
  serial_number = p.serial_number;
  connection = p.connection;
  status = p.status;
  available = available && is_available p;
  dpi = p.dpi;
  loaded_width_mm = p.loaded_width_mm;
  loaded_height_mm = p.loaded_height_mm;
}

module _ (codec : Codec) where
  -- `sendPrinterUpdate`
  unfoldable pub send_printer_update : Printer → Bool → Outbox → Outbox
  send_printer_update p available o =
      tell codec type_printer_update (tell_printer (update_of p available)) o

  -- One round of `watchPrinters`.
  unfoldable pub on_event :
      {W : Type 0} → DriverAnswers → DiscoveryEvent → Bridge W × Outbox → Bridge W × Outbox
  on_event d ev (b, o) =
      let present = is_present ev.kind in
      let p = shown_as present d ev.printer in
      (
        record_printer p (not present) (register (present && d.is_registrar) ev.printer b),
        send_printer_update p present o,
      )
