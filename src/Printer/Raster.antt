-- ===== src/Printer/Raster.antt =====
-- internal/printer/render.go: the decoder of Brother raster data, up to the rows. A place in the
-- document is the rest of the document from there.
pub mod Rows
pub mod PackBits
mod Tests
use brother_connect.Base.{
  ℕ, zero, suc, ◌+◌, ◌-◌, ◌==◌, ltb, leb, ◌&&◌, ◌||◌, length, take, drop, replicate, Bool, true,
  false, Option, none, some, List, [], ◌∷◌, ◌++◌, if◌then◌else◌,
}

-- `rasterBytesPerLine`
abbrev pub raster_bytes_per_line : ℕ
raster_bytes_per_line = 90

skip_nulls : List ℕ → List ℕ
skip_nulls [] = []
skip_nulls (b ∷ bs) = let rest = skip_nulls bs in if b == 0x00 then rest else b ∷ bs

abbrev begins_command : List ℕ → Bool
begins_command (e ∷ c ∷ rest) = (e == 0x1B) && ((c == 0x40) || (c == 0x69))
begins_command other = false

-- `looksLikeBrotherRaster`
unfoldable pub looks_like_brother_raster : List ℕ → Bool
unfolding skip_nulls
looks_like_brother_raster doc = begins_command (skip_nulls doc)

-- The length of `ESC i` and the byte after it.
abbrev esc_i_len : List ℕ → ℕ
esc_i_len [] = 2
esc_i_len (k ∷ rest) =
    if k == 0x53
    then 3
    else if (k == 0x61) || ((k == 0x4D) || ((k == 0x41) || (k == 0x4B)))
    then 4
    else if k == 0x64
    then 5
    else if k == 0x7A
    then 13
    else 3

-- `escCommandLen` of a rest that begins with the ESC.
abbrev pub esc_command_len : List ℕ → ℕ
esc_command_len (e ∷ c ∷ rest) = if c == 0x40 then 2 else if c == 0x69 then esc_i_len rest else 2
esc_command_len other = 1

-- A run of the next byte; at the end of the data there is none.
abbrev pub repeat_next : ℕ → List ℕ → List ℕ × List ℕ
repeat_next n [] = ([], [])
repeat_next n (b ∷ rest) = (replicate n b, rest)

-- One round of `packbitsDecode` after its header byte: the bytes it appends, and the rest. The
-- header is a signed byte, from 128 on below 0: 1 - hdr is then 257 - h.
abbrev pub packbits_round : ℕ → List ℕ → List ℕ × List ℕ
packbits_round h rest =
    if ltb h 128
    then (take (suc h) rest, drop (suc h) rest)
    else if h == 128
    then ([], rest)
    else repeat_next (257 - h) rest

-- The loop of `packbitsDecode`. Each round takes a byte, so the length of the data is fuel enough.
unfoldable pub packbits_loop : ℕ → List ℕ → ℕ → List ℕ → List ℕ
packbits_loop zero src expected out = out
packbits_loop (suc fuel) [] expected out = out
packbits_loop (suc fuel) (h ∷ rest) expected out =
    let (bytes, rest') = packbits_round h rest in
    let later = packbits_loop fuel rest' expected (out ++ bytes) in
    if ltb (length out) expected then later else out

-- `packbitsDecode`
unfoldable pub packbits_decode : List ℕ → ℕ → List ℕ
packbits_decode src expected = packbits_loop (length src) src expected []

abbrev blank_row : List ℕ
blank_row = replicate raster_bytes_per_line 0

-- `copy` into a blank row.
abbrev pub row_of : List ℕ → List ℕ
row_of bytes = take raster_bytes_per_line bytes ++ drop (length bytes) blank_row

-- The compression mode, the rest and the new rows after one command.
abbrev pub Decoded : Type 0
Decoded = Bool × List ℕ × List (List ℕ)

abbrev select_mode : Bool → List ℕ → Decoded
select_mode compressed [] = (compressed, [], [])
select_mode compressed (mode ∷ rest) = (mode == 0x02, rest, [])

abbrev transfer : Bool → List ℕ → Decoded
transfer compressed (_ ∷ n ∷ rest) = if ltb (length rest) n then (compressed, [], []) else (
  compressed,
  drop n rest,
  row_of (if compressed then packbits_decode (take n rest) raster_bytes_per_line else take n rest)
      ∷ [],
)
transfer compressed other = (compressed, [], [])

-- The `switch` on the byte at the place.
unfoldable pub decode_command : Bool → ℕ → List ℕ → Decoded
decode_command compressed b rest =
    if (b == 0x00) || ((b == 0x0C) || (b == 0x1A))
    then (compressed, rest, [])
    else if b == 0x4D
    then select_mode compressed rest
    else if b == 0x5A
    then (compressed, rest, blank_row ∷ [])
    else if b == 0x67
    then transfer compressed rest
    else if b == 0x1B
    then (compressed, drop (esc_command_len (b ∷ rest)) (b ∷ rest), [])
    else (compressed, rest, [])

-- The loop of `decodeBrotherRaster`, in a round for each byte at most.
unfoldable pub decode_loop : ℕ → Bool → List ℕ → List (List ℕ) → List (List ℕ)
decode_loop zero compressed doc rows = rows
decode_loop (suc fuel) compressed [] rows = rows
decode_loop (suc fuel) compressed (b ∷ rest) rows =
    let (compressed', rest', new) = decode_command compressed b rest in
    decode_loop fuel compressed' rest' (rows ++ new)

-- `decodeBrotherRaster` up to its rows; `none` is its false.
unfoldable pub decode_brother_raster : List ℕ → Option (List (List ℕ))
decode_brother_raster doc =
    let rows = decode_loop (length doc) false doc [] in if length rows == 0 then none else some rows
