-- ===== src/Printer/Multi.antt =====
-- internal/printer/multi.go: a driver over several drivers. What a driver does is a parameter.
pub mod Routing
mod Tests
use brother_connect.Base.{
  ℕ, ℤ, Bool, true, false, ◌++◌, if◌then◌else◌, Option, none, some, List, [], ◌∷◌, String,
}
use brother_connect.Printer.Types.{
  Status, offline, Printer, PrintOptions, PrintError, unknown_printer,
}

-- What `d.(Owner)` and `Owns` say of a driver, for one printer.
pub data Ownership : Type 0 where
  owns not_owns no_owner : Ownership

-- A driver as it is used here: its ownership of a printer, its answers to `Status` and `Print`, whether
-- it is a `Registrar`, and the media if it is a `MediaReporter` that gives one.
pub record Driver : Type 0 where
  pub ownership : String → Ownership
  pub status : String → Status × Option PrintError
  pub print_answer : String → List ℕ → PrintOptions → Option PrintError
  pub takes_registrations : Bool
  pub media : String → Option (ℤ × ℤ)

-- `if !ok && fallback == nil`
abbrev pub keep_first : Option Driver → Driver → Option Driver
keep_first none d = some d
keep_first (some f) d = some f

abbrev pub by_ownership : Ownership → Option Driver → Option Driver → Option Driver → Option Driver
by_ownership owns this with_fallback without = this
by_ownership not_owns this with_fallback without = without
by_ownership no_owner this with_fallback without = with_fallback

-- The loop of `resolve`, and what follows it.
unfoldable pub resolve_loop : String → List Driver → Option Driver → Option Driver
resolve_loop id [] fallback = fallback
resolve_loop id (d ∷ ds) fallback =
    let with_fallback = resolve_loop id ds (keep_first fallback d) in
    let without = resolve_loop id ds fallback in
    by_ownership (d.ownership id) (some d) with_fallback without

abbrev pub or_first : Option Driver → List Driver → Option Driver
or_first (some d) ds = some d
or_first none [] = none
or_first none (d ∷ ds) = some d

-- `resolve`
unfoldable pub resolve : List Driver → String → Option Driver
resolve drivers id = or_first (resolve_loop id drivers none) drivers

abbrev pub status_by : String → Option Driver → Status × Option PrintError
status_by id none = (offline, some (unknown_printer id))
status_by id (some d) = d.status id

-- `Status`
unfoldable pub status_of : List Driver → String → Status × Option PrintError
status_of drivers id = status_by id (resolve drivers id)

abbrev pub print_by : String → List ℕ → PrintOptions → Option Driver → Option PrintError
print_by id document opts none = some (unknown_printer id)
print_by id document opts (some d) = d.print_answer id document opts

-- `Print`
unfoldable pub print_routed : List Driver → String → List ℕ → PrintOptions → Option PrintError
print_routed drivers id document opts = print_by id document opts (resolve drivers id)

abbrev pub registrar_of : Option Driver → Option Driver
registrar_of none = none
registrar_of (some d) = if d.takes_registrations then some d else none

-- `Register`: the driver that is told of the printer, if there is one.
unfoldable pub register_routed : List Driver → Printer → Option Driver
register_routed drivers p = registrar_of (resolve drivers p.id)

abbrev pub media_by : String → Option Driver → Option (ℤ × ℤ)
media_by id none = none
media_by id (some d) = d.media id

-- `LoadedMedia`
unfoldable pub loaded_media_of : List Driver → String → Option (ℤ × ℤ)
loaded_media_of drivers id = media_by id (resolve drivers id)

-- `NewMultiDriver`: a nil driver is ignored.
unfoldable pub combine_drivers : List (Option Driver) → List Driver
combine_drivers [] = []
combine_drivers (none ∷ more) = combine_drivers more
combine_drivers (some d ∷ more) = d ∷ combine_drivers more

-- `MultiDiscoverer.List`
unfoldable pub list_all : List (List Printer) → List Printer
list_all [] = []
list_all (printers ∷ more) = printers ++ list_all more
