-- ===== src/Niimbot/Rfid.antt =====
-- internal/niimbot/client.go: the tag of the label roll, `RFID`. Texts are their bytes; the
-- identifier is the bytes that the source prints in hexadecimal.
pub mod Tag
mod Tests
use brother_connect.Base.{
  ℕ, zero, suc, ◌+◌, ◌*◌, leb, length, take, drop, Bool, true, false, List, [], ◌∷◌, if◌then◌else◌,
}
use brother_connect.Niimbot.Packet.{Packet}
use brother_connect.Niimbot.Client.{M, Result, ok, err, Link, request, pure, ◌>>=◌}

abbrev pub cmd_rfid_info : ℕ
cmd_rfid_info = 0x1A

abbrev pub resp_rfid_info : ℕ
resp_rfid_info = 0x1B

-- `type RFID struct`
pub record Rfid : Type 0 where
  pub present : Bool
  pub uuid : List ℕ
  pub barcode : List ℕ
  pub serial : List ℕ
  pub total_paper : ℕ
  pub used_paper : ℕ
  pub label_type : ℕ

-- A field with its length before it, and the rest; nothing at the end of the data.
abbrev pub read_sized : List ℕ → List ℕ × List ℕ
read_sized [] = ([], [])
read_sized (n ∷ rest) = (take n rest, drop n rest)

-- Two bytes, if there are two.
abbrev pub read_u16 : List ℕ → ℕ × List ℕ
read_u16 (high ∷ low ∷ rest) = (high * 256 + low, rest)
read_u16 other = (0, other)

abbrev pub read_byte : List ℕ → ℕ
read_byte [] = 0
read_byte (t ∷ rest) = t

-- The reading of the reply.
unfoldable pub parse_rfid : List ℕ → Rfid
parse_rfid d =
    if leb (length d) 1
    then record {
      present = false;
      uuid = [];
      barcode = [];
      serial = [];
      total_paper = 0;
      used_paper = 0;
      label_type = 0;
    }
    else let (barcode, after_barcode) = read_sized (drop 8 d) in
      let (serial, after_serial) = read_sized after_barcode in
      let (total_paper, after_total) = read_u16 after_serial in
      let (used_paper, after_used) = read_u16 after_total in
      record {
        present = true;
        uuid = take 8 d;
        barcode = barcode;
        serial = serial;
        total_paper = total_paper;
        used_paper = used_paper;
        label_type = read_byte after_used;
      }

-- `RFID`
unfoldable pub rfid : M Rfid
rfid = do p ← request cmd_rfid_info (1 ∷ []) (resp_rfid_info ∷ []); pure (parse_rfid p.payload)
