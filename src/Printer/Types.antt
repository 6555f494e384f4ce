-- ===== src/Printer/Types.antt =====
-- internal/printer/printer.go and internal/printer/errors.go: the vocabulary of printers.
use brother_connect.Base.{ℕ, ℤ, Bool, true, false, String}

pub data Connection : Type 0 where
  usb network bluetooth : Connection

pub data Status : Type 0 where
  ready busy out_of_media wrong_media cover_open error offline : Status

-- `Status.Printable`
unfoldable pub is_printable : Status → Bool
is_printable ready = true
is_printable _ = false

-- `type EventKind int`
pub data EventKind : Type 0 where
  connected disconnected status_changed : EventKind

-- `type Printer struct`; a zero size means an unknown one.
pub record Printer : Type 0 where
  pub id : String
  pub model : String
  pub serial_number : String
  pub connection : Connection
  pub status : Status
  pub dpi : ℕ
  pub loaded_width_mm : ℤ
  pub loaded_height_mm : ℤ

-- `Printer.Available`
unfoldable pub is_available : Printer → Bool
is_available p = is_printable p.status

pub record PrintOptions : Type 0 where
  pub width_mm : ℤ
  pub height_mm : ℤ

-- `type Event struct` without its time, which the bridge does not read.
pub record DiscoveryEvent : Type 0 where
  pub kind : EventKind
  pub printer : Printer

-- What `errors.As` finds in an error of a driver; the text is that of any other error.
pub data PrintError : Type 0 where
  not_printable : String → Status → PrintError
  unknown_printer : String → PrintError
  other : String → PrintError
