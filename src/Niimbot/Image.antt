-- ===== src/Niimbot/Image.antt =====
-- internal/niimbot/image.go: binarised rows, their runs, and the packets that carry them. Which
-- pixels are black (luminance, threshold, dithering) is floating-point arithmetic and is given: a
-- row comes as the list of its pixels, `true` for black. A nil slice is the empty list.
pub mod Runs
pub mod Bits
pub mod Pixels
pub mod Packets
pub mod Printout
mod Tests
use Prim.Native.Nat.{bit_or, bit_and}
use brother_connect.Base.{
  ℕ, zero, suc, ◌+◌, ◌-◌, ◌*◌, ◌/◌, ◌%◌, ◌^◌, min, ◌==◌, ltb, leb, ◌&&◌, length, replicate, Bool,
  true, false, Option, none, some, List, [], ◌∷◌, ◌++◌, if◌then◌else◌,
}
use brother_connect.Niimbot.Packet.{Packet}
use brother_connect.Niimbot.Commands.{cmd_empty_row, cmd_bitmap_row, cmd_check_line}

-- `type Row struct`
pub record Row : Type 0 where
  pub index : ℕ
  pub repeat : ℕ
  pub bits : List ℕ
  pub black : ℕ

-- `Blank`
abbrev pub is_blank : Row → Bool
is_blank r = r.black == 0

-- `type EncodedImage struct`
pub record EncodedImage : Type 0 where
  pub cols : ℕ
  pub rows : ℕ
  pub runs : List Row

-- `bits[i] |= m`; a place beyond the slice, where Go panics, changes nothing.
unfoldable pub or_at : ℕ → ℕ → List ℕ → List ℕ
or_at i m [] = []
or_at zero m (b ∷ bs) = bit_or b m ∷ bs
or_at (suc i) m (b ∷ bs) = b ∷ or_at i m bs

-- The loop over the pixels of a row, from column `x`: the bytes and the count of black pixels.
unfoldable pub set_pixels : ℕ → List Bool → List ℕ → ℕ → List ℕ × ℕ
set_pixels x [] bits black = (bits, black)
set_pixels x (true ∷ more) bits black =
    set_pixels (suc x) more (or_at (x / 8) (0x80 / 2 ^ (x % 8)) bits) (suc black)
set_pixels x (false ∷ more) bits black = set_pixels (suc x) more bits black

-- `(w + 7) / 8 * 8`
abbrev pub padded : ℕ → ℕ
padded w = (w + 7) / 8 * 8

-- The bytes of one row, nil if no pixel is black.
unfoldable pub pack_row : ℕ → List Bool → List ℕ × ℕ
pack_row width pixels =
    let (bits, black) = set_pixels 0 pixels (replicate (padded width / 8) 0) 0 in
    if black == 0 then ([], 0) else (bits, black)

-- The loop of `bytesEqual`.
all_equal : List ℕ → List ℕ → Bool
all_equal [] b = true
all_equal (x ∷ a) [] = true
all_equal (x ∷ a) (y ∷ b) = let rest = all_equal a b in if x == y then rest else false

-- `bytesEqual`
unfoldable pub bytes_equal : List ℕ → List ℕ → Bool
unfolding all_equal
bytes_equal a b = if length a == length b then all_equal a b else false

abbrev pub joins : Row → Row → Bool
joins last row = ltb last.repeat 255 && (last.black == row.black) && bytes_equal last.bits row.bits

-- The end of a round of `Encode`: the row joins the last run or starts one.
unfoldable pub add_row : List Row → Row → List Row
add_row [] row = row ∷ []
add_row (last ∷ []) row =
    if joins last row then record last { repeat = suc last.repeat } ∷ [] else last ∷ row ∷ []
add_row (r ∷ s ∷ more) row = r ∷ add_row (s ∷ more) row

-- The loop over the rows, from row `y`.
unfoldable pub encode_rows : ℕ → ℕ → List (List Bool) → List Row → List Row
encode_rows width y [] runs = runs
encode_rows width y (pixels ∷ more) runs =
    let (bits, black) = pack_row width pixels in
    let row : Row = record { index = y; repeat = 1; bits = bits; black = black } in
    encode_rows width (suc y) more (add_row runs row)

-- `Encode` of a binarised image of the given width.
unfoldable pub encode : ℕ → List (List Bool) → EncodedImage
encode width image = record {
  cols = padded width;
  rows = length image;
  runs = encode_rows width 0 image [];
}

-- `type CountMode int`
pub data CountMode : Type 0 where
  count_split count_total : CountMode

-- The loop of `popcount`, `b &= b - 1`; each round lowers `b`, so `b` rounds are enough.
unfoldable pub popcount_loop : ℕ → ℕ → ℕ → ℕ
popcount_loop fuel zero n = n
popcount_loop zero (suc b) n = n
popcount_loop (suc fuel) (suc b) n = popcount_loop fuel (bit_and (suc b) b) (suc n)

-- `popcount`
unfoldable pub popcount : ℕ → ℕ
unfolding popcount_loop
popcount b = popcount_loop b b 0

-- `parts[i] += n`; a place beyond the array panics.
abbrev pub add_part : Option (ℕ × ℕ × ℕ) → ℕ → ℕ → Option (ℕ × ℕ × ℕ)
add_part none i n = none
add_part (some (a, b, c)) zero n = some (a + n, b, c)
add_part (some (a, b, c)) (suc zero) n = some (a, b + n, c)
add_part (some (a, b, c)) (suc (suc zero)) n = some (a, b, c + n)
add_part (some (a, b, c)) (suc (suc (suc i))) n = none

-- The loop of `pixelCounts` from byte `i`: the total and the parts.
unfoldable pub count_loop : Bool → ℕ → ℕ → List ℕ → ℕ → Option (ℕ × ℕ × ℕ) → ℕ × Option (ℕ × ℕ × ℕ)
count_loop split chunk i [] total parts = (total, parts)
count_loop split chunk i (b ∷ bs) total parts =
    let n = popcount b in
    count_loop split chunk (suc i) bs (total + n)
      (if split then add_part parts (i / chunk) n else parts)

abbrev is_split : CountMode → Bool
is_split count_split = true
is_split count_total = false

abbrev pub splits : ℕ → CountMode → List ℕ → Bool
splits chunk mode bits = is_split mode && ltb 0 chunk && leb (length bits) (chunk * 3)

abbrev part_bytes : Option (ℕ × ℕ × ℕ) → Option (List ℕ)
part_bytes none = none
part_bytes (some (a, b, c)) = some (min a 255 ∷ min b 255 ∷ min c 255 ∷ [])

-- `pixelCounts`; `none` is a panic.
unfoldable pub pixel_counts : List ℕ → ℕ → CountMode → Option (List ℕ)
pixel_counts bits head_pixels mode =
    let chunk = head_pixels / 8 / 3 in
    let split = splits chunk mode bits in
    let (total, parts) = count_loop split chunk 0 bits 0 (some (0, 0, 0)) in
    if split then part_bytes parts else some (0 ∷ (total % 256) ∷ (total / 256 % 256) ∷ [])

-- `u16`, and `binary.BigEndian.AppendUint16` of `uint16(v)`.
abbrev pub u16 : ℕ → List ℕ
u16 v = (v / 256 % 256) ∷ (v % 256) ∷ []

infixl 5 ◌>>=◌
abbrev pub ◌>>=◌ : {A B : Type 0} → Option A → (A → Option B) → Option B
none >>= f = none
some a >>= f = f a

-- The packet of one run; `none` is a panic.
unfoldable pub row_packet : ℕ → CountMode → Row → Option Packet
row_packet head_pixels mode r =
    if is_blank r
    then some (record { cmd = cmd_empty_row; payload = u16 r.index ++ ((r.repeat % 256) ∷ []) })
    else do
      counts ← pixel_counts r.bits head_pixels mode
      some (record {
        cmd = cmd_bitmap_row;
        payload = (u16 r.index ++ counts ++ ((r.repeat % 256) ∷ [])) ++ r.bits;
      })

abbrev pub check_line : ℕ → Packet
check_line n = record { cmd = cmd_check_line; payload = u16 n ++ (1 ∷ []) }

-- The loop over the check lines up to row `last`, in `last` + 1 rounds at most: the packets, and
-- the next row to mark.
unfoldable pub check_lines : ℕ → ℕ → ℕ → List Packet × ℕ
check_lines zero last next_check = ([], next_check)
check_lines (suc fuel) last next_check =
    let (ps, after) = check_lines fuel last (next_check + 200) in
    if leb next_check last then (check_line next_check ∷ ps, after) else ([], next_check)

-- `if checkLine`
unfoldable pub checks_up_to : Bool → ℕ → ℕ → List Packet × ℕ
unfolding check_lines
checks_up_to true last next_check = check_lines (suc last) last next_check
checks_up_to false last next_check = ([], next_check)

-- The loop of `RowPackets` over the runs.
unfoldable pub row_packets_from : ℕ → CountMode → Bool → ℕ → List Row → Option (List Packet)
row_packets_from head_pixels mode checks next_check [] = some []
row_packets_from head_pixels mode checks next_check (r ∷ more) =
    let last = (r.index + r.repeat) - 1 in
    let (markers, next') = checks_up_to checks last next_check in
    let later = row_packets_from head_pixels mode checks next' more in
    do p ← row_packet head_pixels mode r; ps ← later; some (p ∷ markers ++ ps)

-- `RowPackets`; `none` is a panic.
unfoldable pub row_packets : EncodedImage → ℕ → CountMode → Bool → Option (List Packet)
row_packets e head_pixels mode checks = row_packets_from head_pixels mode checks 199 e.runs
