-- ===== src/Printer/Niimbot/Printing.antt =====
-- internal/printer/niimbot.go: `Print`. What DecodeDocument, Fit and Encode make of the document is
-- given; the text of an error is what `describe` makes of it. A call is one step: a cycle of `poll`
-- that drops the device between its look-up and the lock on its link is not modelled.
pub mod Outcome
pub mod Silence
use brother_connect.Base.{
  ℕ, ◌==◌, ◌||◌, not, Bool, true, false, String, Option, none, some, List, lookup, is_positive, pos,
  if◌then◌else◌,
}
use brother_connect.Niimbot.Client.{Link, Result, ok, err, ClientError, print_error}
use brother_connect.Niimbot.Client.Replies.{Heartbeat, heartbeat}
use brother_connect.Niimbot.Image.{EncodedImage}
use brother_connect.Niimbot.Print.{print_image, PrintSettings}
use brother_connect.Printer.Types.{
  Status, ready, busy, out_of_media, wrong_media, cover_open, error, offline, is_printable,
  PrintOptions, PrintError, not_printable, unknown_printer, other,
}
use brother_connect.Printer.Niimbot.Device.{
  Device, Backend, open_link, status_from_heartbeat, set_status, eq_status,
}

pub data Raster : Type 0 where
  undecodable unfitting : Raster
  raster : EncodedImage → Raster

-- The errors that are only texts to the caller.
pub data PrintFault : Type 0 where
  bad_dimensions bad_document bad_fit not_connected not_responding : PrintFault
  printing_failed : ClientError → PrintFault

abbrev pub one_copy : PrintSettings
one_copy = record { density = pos 0; label_type = 0; copies = pos 1 }

-- The `switch` on the code of a printing error.
unfoldable pub status_of_code : ℕ → Status
status_of_code code =
    if code == 0x01
    then cover_open
    else if (code == 0x02) || (code == 0x08)
    then out_of_media
    else if code == 0x10
    then wrong_media
    else error

module _ (describe : PrintFault → String) (id : String) (began ended : ℕ) where
  abbrev pub fault : PrintFault → Option PrintError
  fault f = some (other (describe f))

  -- From the error of the client's `Print` on.
  abbrev pub after_printing : Result (Unit {0}) → Backend → Option PrintError × Backend
  after_printing (ok _) b = (none, set_status id ready false ended b)
  after_printing (err (print_error code)) b =
      let st = status_of_code code in
      (
        if eq_status st error
            then fault (printing_failed (print_error code))
            else some (not_printable id st),
        set_status id st false ended b,
      )
  after_printing (err e) b = (fault (printing_failed e), set_status id error false ended b)

  -- From the heartbeat on.
  abbrev pub after_heartbeat :
      EncodedImage → Device → Result Heartbeat × Link → Backend → Option PrintError × Backend
  after_heartbeat enc d (err e, l) b = (fault not_responding, set_status id offline false began b)
  after_heartbeat enc d (ok hb, l) b =
      let st = status_from_heartbeat hb in
      if not (is_printable st)
      then (some (not_printable id st), set_status id st false began b)
      else after_printing (print_image d.model enc one_copy l).0 (set_status id busy false began b)

  -- From `open` on.
  abbrev pub after_open :
      EncodedImage → Device → Option Link → Backend → Option PrintError × Backend
  after_open enc d none b = (fault not_connected, set_status id offline false began b)
  after_open enc d (some l) b = after_heartbeat enc d (heartbeat l) b

  abbrev pub after_raster :
      Raster → Device → Option Link → Option Link → Backend → Option PrintError × Backend
  after_raster undecodable d first second b = (fault bad_document, b)
  after_raster unfitting d first second b = (fault bad_fit, b)
  after_raster (raster enc) d first second b = after_open enc d (open_link first second) b

  abbrev pub after_lookup :
      Option Device
      → Raster
      → PrintOptions
      → Option Link
      → Option Link
      → Backend
      → Option PrintError × Backend
  after_lookup none document opts first second b = (some (unknown_printer id), b)
  after_lookup (some d) document opts first second b =
      if not (is_positive opts.width_mm) || not (is_positive opts.height_mm)
      then (fault bad_dimensions, b)
      else after_raster document d first second b

  -- `Print`
  unfoldable pub print_label :
      Raster → PrintOptions → Option Link → Option Link → Backend → Option PrintError × Backend
  print_label document opts first second b =
      after_lookup (lookup id b.devices) document opts first second b
