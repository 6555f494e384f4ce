-- ===== src/Niimbot/Rfid/Tests.antt =====
-- client.go: a tag.
use brother_connect.Base.{◌≡◌, refl, true, [], ◌∷◌}
use brother_connect.Niimbot.Rfid.{Rfid, parse_rfid}
use brother_connect.Niimbot.Rfid.Tag.{tag_bytes, parse_rfid-tag_bytes}

abbrev roll : Rfid
roll = record {
  present = true;
  uuid = 1 ∷ 2 ∷ 3 ∷ 4 ∷ 5 ∷ 6 ∷ 7 ∷ 8 ∷ [];
  barcode = 0x36 ∷ 0x39 ∷ [];
  serial = 0x41 ∷ [];
  total_paper = 300;
  used_paper = 12;
  label_type = 1;
}

parse_rfid-tag_bytes_example : parse_rfid (tag_bytes roll) ≡ roll
parse_rfid-tag_bytes_example = parse_rfid-tag_bytes roll refl refl
