-- ===== src/Bridge/Discovery/Updates.antt =====
-- bridge.go: an event of discovery, and the printers that the bridge shows.
use brother_connect.Base.{
  ℕ, ℤ, ◌&&◌, ◌≡◌, refl, ap, ◌∙◌, Bool, true, false, not, Option, none, some, String, str_eq, List,
  [], ◌∷◌, lookup, insert, lookup-insert, lookup-delete, if◌then◌else◌,
}
use brother_connect.Bridge.State.{Bridge, record_printer}
use brother_connect.Bridge.Discovery.{
  DriverAnswers, enrich_from_driver, is_present, register, update_of, shown_as, on_event,
  send_printer_update, with_status, with_media,
}
use brother_connect.Bridge.Messages.Replies.{with_messages, as_envelope, HasRoom, tell_lem}
use brother_connect.Printer.Types.{
  Status, ready, busy, out_of_media, wrong_media, cover_open, error, offline, Printer, is_printable,
  is_available, EventKind, connected, disconnected, status_changed, DiscoveryEvent,
}
use brother_connect.Protocol.{Codec, Message, PrinterUpdate, tell_printer, type_printer_update}
use brother_connect.Transport.Outbox.{Outbox}

-- What is known of the printer of an event: the driver's word on its status and on its media counts
-- before that of the event.
abbrev pub status_known : Option Status → Status → Status
status_known none told = told
status_known (some live) told = live

abbrev pub width_known : Option (ℤ × ℤ) → ℤ → ℤ
width_known none told = told
width_known (some (width, height)) told = width

abbrev pub height_known : Option (ℤ × ℤ) → ℤ → ℤ
height_known none told = told
height_known (some (width, height)) told = height

abbrev pub known_printer : DriverAnswers → Printer → Printer
known_printer d p = record {
  id = p.id;
  model = p.model;
  serial_number = p.serial_number;
  connection = p.connection;
  status = status_known d.live_status p.status;
  dpi = p.dpi;
  loaded_width_mm = width_known d.loaded_media p.loaded_width_mm;
  loaded_height_mm = height_known d.loaded_media p.loaded_height_mm;
}

-- The printer that is shown: none once it is disconnected.
abbrev pub printer_shown : EventKind → DriverAnswers → Printer → Option Printer
printer_shown disconnected d p = none
printer_shown connected d p = some (known_printer d p)
printer_shown status_changed d p = some (known_printer d p)

abbrev pub can_print : Status → Bool
can_print ready = true
can_print busy = false
can_print out_of_media = false
can_print wrong_media = false
can_print cover_open = false
can_print error = false
can_print offline = false

-- An update that tells a printer as it is given.
abbrev pub told_as : Printer → Bool → PrinterUpdate
told_as p available = record {
  printer_id = p.id;
  model = p.model;
  serial_number = p.serial_number;
  connection = p.connection;
  status = p.status;
  available = available;
  dpi = p.dpi;
  loaded_width_mm = p.loaded_width_mm;
  loaded_height_mm = p.loaded_height_mm;
}

-- The update of an event: of a disconnected printer as the event has it, and not available.
abbrev pub update_told : EventKind → DriverAnswers → Printer → PrinterUpdate
update_told disconnected d p = told_as p false
update_told connected d p =
    told_as (known_printer d p) (can_print (status_known d.live_status p.status))
update_told status_changed d p =
    told_as (known_printer d p) (can_print (status_known d.live_status p.status))

enrich_from_driver-known :
    (d : DriverAnswers) (p : Printer) → enrich_from_driver d p ≡ known_printer d p
unfolding enrich_from_driver
enrich_from_driver-known d p = by_answers d.live_status d.loaded_media
  where
    by_answers :
        (st : Option Status) (m : Option (ℤ × ℤ))
        → with_media m (with_status st p) ≡ record p {
          status = status_known st p.status;
          loaded_width_mm = width_known m p.loaded_width_mm;
          loaded_height_mm = height_known m p.loaded_height_mm;
        }
    by_answers none none = refl
    by_answers none (some (w, h)) = refl
    by_answers (some s) none = refl
    by_answers (some s) (some (w, h)) = refl

is_available-can_print : (p : Printer) → is_available p ≡ can_print p.status
unfolding is_available is_printable
is_available-can_print p = by_status p.status
  where
    by_status : (s : Status) → is_printable s ≡ can_print s
    by_status ready = refl
    by_status busy = refl
    by_status out_of_media = refl
    by_status wrong_media = refl
    by_status cover_open = refl
    by_status error = refl
    by_status offline = refl

update_of-told :
    (d : DriverAnswers) (p : Printer)
    → update_of (enrich_from_driver d p) true
      ≡ told_as (known_printer d p) (can_print (status_known d.live_status p.status))
update_of-told d p =
    ap (λ q. update_of q true) (enrich_from_driver-known d p)
    ∙ ap (λ available. told_as (known_printer d p) available)
        (is_available-can_print (known_printer d p))

shown-printer_shown :
    (kind : EventKind) (d : DriverAnswers) (p : Printer)
    → (if is_present kind then some (enrich_from_driver d p) else none) ≡ printer_shown kind d p
shown-printer_shown connected d p = ap some (enrich_from_driver-known d p)
shown-printer_shown disconnected d p = refl
shown-printer_shown status_changed d p = ap some (enrich_from_driver-known d p)

update_of-update_told :
    (kind : EventKind) (d : DriverAnswers) (p : Printer)
    → update_of (shown_as (is_present kind) d p) (is_present kind) ≡ update_told kind d p
update_of-update_told connected d p = update_of-told d p
update_of-update_told disconnected d p = refl
update_of-update_told status_changed d p = update_of-told d p

-- What the bridge shows of the printer of an event.
abbrev shown : DriverAnswers → DiscoveryEvent → Option Printer
shown d ev = if is_present ev.kind then some (enrich_from_driver d ev.printer) else none

-- The update that the service gets.
abbrev reported : DriverAnswers → DiscoveryEvent → Printer
reported d ev = shown_as (is_present ev.kind) d ev.printer

enrich_from_driver-id : (d : DriverAnswers) (p : Printer) → (enrich_from_driver d p).id ≡ p.id
unfolding enrich_from_driver
enrich_from_driver-id d p = by_answers d.live_status d.loaded_media
  where
    by_answers :
        (st : Option Status) (m : Option (ℤ × ℤ)) → (with_media m (with_status st p)).id ≡ p.id
    by_answers none none = refl
    by_answers none (some (w, h)) = refl
    by_answers (some s) none = refl
    by_answers (some s) (some (w, h)) = refl

module _ (codec : Codec) (text : Message → List ℕ)
    (writes : (m : Message) → codec.marshal_json m ≡ some (text m)) where
  on_event-code :
      {W : Type 0} (d : DriverAnswers) (ev : DiscoveryEvent) (b : Bridge W) (out : Outbox)
      (id : String)
      → HasRoom 1 out
      → let (b', out') = on_event codec d ev (b, out) in
        (lookup id b'.printers
          ≡ (if str_eq ev.printer.id id then shown d ev else lookup id b.printers))
        × (out'
            ≡ with_messages
                (as_envelope text type_printer_update
                    (tell_printer (update_of (reported d ev) (is_present ev.kind)))
                  ∷ [])
                out)
  unfolding on_event send_printer_update record_printer
  on_event-code d ev b out id room = (
    by_presence (is_present ev.kind) (is_present ev.kind && d.is_registrar),
    tell_lem codec text writes _ _ out room,
  )
    where
      shown_now :
          lookup id (
            insert
              (enrich_from_driver d ev.printer).id
              (enrich_from_driver d ev.printer)
              b.printers)
          ≡ (if str_eq ev.printer.id id
              then some (enrich_from_driver d ev.printer)
              else lookup id b.printers)
      shown_now =
          lookup-insert (enrich_from_driver d ev.printer).id id (enrich_from_driver d ev.printer)
            b.printers
          ∙ ap
              (λ key.
                if str_eq key id
                then some (enrich_from_driver d ev.printer)
                else lookup id b.printers)
              (enrich_from_driver-id d ev.printer)

      by_presence :
          (present registers : Bool)
          → lookup id
              (record_printer
                (shown_as present d ev.printer)
                (not present)
                (register registers ev.printer b)).printers
            ≡ (if str_eq ev.printer.id id
                then if present then some (enrich_from_driver d ev.printer) else none
                else lookup id b.printers)
      by_presence false false = lookup-delete ev.printer.id id b.printers
      by_presence false true = lookup-delete ev.printer.id id b.printers
      by_presence true false = shown_now
      by_presence true true = shown_now

  -- An event of discovery, with a codec that writes every message and room for one message. A printer
  -- that is disconnected is shown no longer; any other is shown with the driver's status and media, or
  -- with those of the event where the driver gives none; the other printers are shown as before. The
  -- service is told of it in one message with the same fields, those of the event if it is
  -- disconnected; it is available exactly if it is not disconnected and that status is ready.
  pub on_event-shown :
      {W : Type 0} (d : DriverAnswers) (ev : DiscoveryEvent) (b : Bridge W) (out : Outbox)
      (id : String)
      → HasRoom 1 out
      → let (b', out') = on_event codec d ev (b, out) in
        (lookup id b'.printers ≡ (
          if str_eq ev.printer.id id
          then printer_shown ev.kind d ev.printer
          else lookup id b.printers))
        × (out'
            ≡ with_messages
                (as_envelope text type_printer_update
                    (tell_printer (update_told ev.kind d ev.printer))
                  ∷ [])
                out)
  on_event-shown d ev b out id room =
      let (seen, told) = on_event-code d ev b out id room in
      (
        seen
            ∙ ap (λ p. if str_eq ev.printer.id id then p else lookup id b.printers)
                (shown-printer_shown ev.kind d ev.printer),
        told
            ∙ ap
                (λ u.
                  with_messages (as_envelope text type_printer_update (tell_printer u) ∷ []) out)
                (update_of-update_told ev.kind d ev.printer),
      )
