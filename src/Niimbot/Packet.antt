-- ===== src/Niimbot/Packet.antt =====
-- internal/niimbot/packet.go: the frame format and the stream parser. A byte slice is a list of
-- numbers; a byte is a number below 256.
pub mod Frame
pub mod Loop
pub mod Stream
mod Tests
use Prim.Native.Nat.{bit_xor}
use mathlib.Core.List.{foldl}
use mathlib.Core.Option
use brother_connect.Base.{
  ℕ, zero, suc, ◌+◌, ◌-◌, ◌<◌, ◌%◌, ◌==◌, ltb, Bool, true, false, not, ◌&&◌, ◌||◌, Option, none,
  some, List, [], ◌∷◌, ◌++◌, length, get_or, take, drop, if◌then◌else◌,
}

-- `type Packet struct`
pub record Packet : Type 0 where
  pub cmd : ℕ
  pub payload : List ℕ

abbrev pub head_byte : ℕ
head_byte = 0x55

abbrev pub tail_byte : ℕ
tail_byte = 0xAA

abbrev pub packet_overhead : ℕ
packet_overhead = 7

abbrev pub max_data : ℕ
max_data = 255

pub data MarshalError : Type 0 where
  packet_too_long : MarshalError

-- The pair `([]byte, error)` of `Marshal`.
pub data Marshalled : Type 0 where
  wire : List ℕ → Marshalled
  failed : MarshalError → Marshalled

-- `byte(len(data))` keeps the low eight bits.
unfoldable pub checksum : ℕ → List ℕ → ℕ
checksum cmd payload = foldl bit_xor (bit_xor cmd (length payload % 256)) payload

unfoldable pub marshal : Packet → Marshalled
marshal p =
    if ltb max_data (length p.payload)
    then failed packet_too_long
    else wire (
        head_byte
        ∷ head_byte
        ∷ p.cmd
        ∷ (length p.payload % 256)
        ∷ (p.payload ++ (checksum p.cmd p.payload ∷ tail_byte ∷ tail_byte ∷ [])))

-- `Packet{}`
abbrev pub empty_packet : Packet
empty_packet = record { cmd = 0; payload = [] }

-- The first `i` with `buf[i] == buf[i+1] == headByte`; Go's -1 is `none`.
unfoldable pub find_head : List ℕ → Option ℕ
find_head [] = none
find_head (x ∷ []) = none
find_head (x ∷ y ∷ rest) =
    let later = Option.map suc (find_head (y ∷ rest)) in
    if x == head_byte && y == head_byte then some 0 else later

-- No head in the buffer: keep a trailing head byte, drop the rest.
unfoldable pub skip_garbage : List ℕ → Packet × ℕ × Bool
skip_garbage buf =
    let n = length buf in
    if ltb 0 n && get_or buf (n - 1) 0 == head_byte
    then (empty_packet, n - 1, false)
    else (empty_packet, n, false)

-- The tests on a buffer that begins with a head.
unfoldable pub parse_frame : List ℕ → Packet × ℕ × Bool
parse_frame buf =
    if ltb (length buf) 4
    then (empty_packet, 0, false)
    else let n = get_or buf 3 0 in
      let total = n + packet_overhead in
      let payload = take n (drop 4 buf) in
      if ltb (length buf) total
      then (empty_packet, 0, false)
      else if not (get_or buf (total - 2) 0 == tail_byte)
          || (not (get_or buf (total - 1) 0 == tail_byte)
              || not (get_or buf (total - 3) 0 == checksum (get_or buf 2 0) payload))
      then (empty_packet, 2, false)
      else (record { cmd = get_or buf 2 0; payload = payload }, total, true)

-- `Parser.next`: the packet, the bytes to consume, and whether there is a packet.
unfoldable pub parse_next : List ℕ → Packet × ℕ × Bool
parse_next buf = elim (find_head buf) [
  | none ↦ skip_garbage buf
  | some zero ↦ parse_frame buf
  | some (suc i) ↦ (empty_packet, suc i, false)
]

-- `type Parser struct`
pub record Parser : Type 0 where
  pub buf : List ℕ

-- The loop of `Feed` over the buffer and `out`, on fuel.
unfoldable pub feed_loop : ℕ → List ℕ → List Packet → List ℕ × List Packet
feed_loop zero buf out = (buf, out)
feed_loop (suc fuel) buf out =
    let (p, n, got) = parse_next buf in
    let rest = feed_loop fuel (drop n buf) out in
    let taken = feed_loop fuel (drop n buf) (out ++ (p ∷ [])) in
    if got then taken else if n == 0 then (drop n buf, out) else rest

-- `Parser.Feed`. Each round but the last takes a byte at least, so the fuel is enough.
unfoldable pub feed : Parser → List ℕ → Parser × List Packet
feed ps b =
    let buf = ps.buf ++ b in
    let (left, out) = feed_loop (suc (length buf)) buf [] in (record { buf = left }, out)
