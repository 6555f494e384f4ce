-- ===== src/Niimbot/Client/Heartbeats.antt =====
-- client.go: which fields a heartbeat carries, by its variant.
use brother_connect.Base.{
  ℕ, zero, suc, ◌≤◌, ◌<◌, ◌≡◌, ◌≢◌, ◌↔◌, ◌⊎◌, length, none, List, [], ◌∷◌, arith, get_elem?,
}
use brother_connect.Niimbot.Packet.{Packet}
use brother_connect.Niimbot.Commands.{resp_heartbeat_adv1, resp_heartbeat_adv2}
use brother_connect.Niimbot.Client.Replies.{parse_heartbeat, parse_adv1}

-- The two variants with fields: the short report and the long one, by its lengths.
abbrev IsShort : Packet → Type 0
IsShort p = (p.cmd ≡ resp_heartbeat_adv2) × (7 ≤ length p.payload)

abbrev IsLong : ℕ → Packet → Type 0
IsLong n p = (p.cmd ≡ resp_heartbeat_adv1) × (length p.payload ≡ n)

get_elem?-ne-none : (d : List ℕ) (i : ℕ) → i < length d → get_elem? d i ≢ none
get_elem?-ne-none [] i h = absurd (omega arith)
get_elem?-ne-none (x ∷ d) zero h = λ e. ground arith
get_elem?-ne-none (x ∷ d) (suc i) h = get_elem?-ne-none d i (omega arith)

abbrev pub LidVariant : Packet → Type 0
LidVariant p = IsShort p ⊎ IsLong 10 p ⊎ IsLong 13 p ⊎ IsLong 19 p

abbrev pub RollVariant : Packet → Type 0
RollVariant p = IsShort p ⊎ IsLong 13 p ⊎ IsLong 19 p ⊎ IsLong 20 p

lid_closed_iff : (p : Packet) → ((parse_heartbeat p).lid_closed ≢ none) ↔ LidVariant p
unfolding parse_heartbeat parse_adv1
lid_closed_iff p = (
  λ h. ground arith,
  λ h e. ground (
    arith,
    get_elem?-ne-none p.payload 4,
    get_elem?-ne-none p.payload 8,
    get_elem?-ne-none p.payload 9,
    get_elem?-ne-none p.payload 15,
  ),
)

battery_level_iff : (p : Packet) → ((parse_heartbeat p).battery_level ≢ none) ↔ LidVariant p
unfolding parse_heartbeat parse_adv1
battery_level_iff p = (
  λ h. ground arith,
  λ h e. ground (
    arith,
    get_elem?-ne-none p.payload 2,
    get_elem?-ne-none p.payload 9,
    get_elem?-ne-none p.payload 10,
    get_elem?-ne-none p.payload 16,
  ),
)

paper_inserted_iff : (p : Packet) → ((parse_heartbeat p).paper_inserted ≢ none) ↔ RollVariant p
unfolding parse_heartbeat parse_adv1
paper_inserted_iff p = (
  λ h. ground arith,
  λ h e. ground (
    arith,
    get_elem?-ne-none p.payload 5,
    get_elem?-ne-none p.payload 11,
    get_elem?-ne-none p.payload 17,
    get_elem?-ne-none p.payload 18,
  ),
)

rfid_read_ok_iff : (p : Packet) → ((parse_heartbeat p).rfid_read_ok ≢ none) ↔ RollVariant p
unfolding parse_heartbeat parse_adv1
rfid_read_ok_iff p = (
  λ h. ground arith,
  λ h e. ground (
    arith,
    get_elem?-ne-none p.payload 6,
    get_elem?-ne-none p.payload 12,
    get_elem?-ne-none p.payload 18,
    get_elem?-ne-none p.payload 19,
  ),
)

-- Which fields of a heartbeat are known: lid and battery for a short report of at least seven
-- bytes and for a long one of 10, 13 or 19 bytes; paper and roll tag for such a short report and
-- for a long one of 13, 19 or 20 bytes. A report of any other kind carries none of the four, and no
-- field lies beyond the bytes that came.
pub parse_heartbeat_fields :
    (p : Packet)
    → (((parse_heartbeat p).lid_closed ≢ none) ↔ LidVariant p)
      × (((parse_heartbeat p).battery_level ≢ none) ↔ LidVariant p)
      × (((parse_heartbeat p).paper_inserted ≢ none) ↔ RollVariant p)
      × (((parse_heartbeat p).rfid_read_ok ≢ none) ↔ RollVariant p)
parse_heartbeat_fields p =
    (lid_closed_iff p, battery_level_iff p, paper_inserted_iff p, rfid_read_ok_iff p)
