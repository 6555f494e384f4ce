-- ===== src/Printer/Multi/Tests.antt =====
-- multi.go: two drivers, of which the second owns the printer.
use brother_connect.Base.{◌≡◌, refl, none, some, [], ◌∷◌, true, false, pos, List}
use brother_connect.Printer.Types.{offline, ready, usb, Printer}
use brother_connect.Printer.Multi.{
  Driver, Ownership, owns, no_owner, status_of, print_routed, loaded_media_of, register_routed,
  combine_drivers,
}
use brother_connect.Printer.Multi.Routing.{now, later, routed-owner}

abbrev system_driver : Driver
system_driver = record {
  ownership = λ id. no_owner;
  status = λ id. (offline, none);
  print_answer = λ id document opts. none;
  takes_registrations = true;
  media = λ id. some (pos 62, pos 0);
}

abbrev label_driver : Driver
label_driver = record {
  ownership = λ id. owns;
  status = λ id. (ready, none);
  print_answer = λ id document opts. none;
  takes_registrations = false;
  media = λ id. none;
}

abbrev drivers : List Driver
drivers = system_driver ∷ label_driver ∷ []

abbrev label_printer : Printer
label_printer = record {
  id = "B1-1";
  model = "B1";
  serial_number = "1";
  connection = usb;
  status = ready;
  dpi = 203;
  loaded_width_mm = pos 0;
  loaded_height_mm = pos 0;
}

no_owner-ne : ◌≡◌ {A = Ownership} no_owner owns → ⊥
no_owner-ne e = cc e

combined : combine_drivers (none ∷ some system_driver ∷ some label_driver ∷ []) ≡ drivers
unfolding combine_drivers
combined = refl

routed-owner_example :
    (status_of drivers "B1-1" ≡ (ready, none))
    × (print_routed drivers "B1-1" [] (record { width_mm = pos 50; height_mm = pos 30 }) ≡ none)
    × (loaded_media_of drivers "B1-1" ≡ none)
    × (register_routed drivers label_printer ≡ none)
routed-owner_example =
    routed-owner label_printer label_driver drivers []
      (record { width_mm = pos 50; height_mm = pos 30 }) (later no_owner-ne (now refl))
