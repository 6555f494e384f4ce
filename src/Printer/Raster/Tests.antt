-- ===== src/Printer/Raster/Tests.antt =====
-- render.go: a small document, and the theorems at it.
use brother_connect.Base.{ℕ, ◌≡◌, ◌≤◌, refl, length, List, [], ◌∷◌, arith}
use brother_connect.Printer.Raster.{
  decode_brother_raster, decode_loop, decode_command, packbits_decode, packbits_loop, row_of,
}
use brother_connect.Printer.Raster.Rows.{decode_brother_raster-AreFull, AreFull}
use brother_connect.Printer.Raster.PackBits.{
  Piece, literal, repeated, all_encoded, packbits_decode-encoded,
}

abbrev pieces : List Piece
pieces = literal (1 ∷ 2 ∷ 3 ∷ []) ∷ repeated 4 0xFF ∷ []

packbits_decode-encoded_example :
    packbits_decode (all_encoded pieces) 90 ≡ 1 ∷ 2 ∷ 3 ∷ 0xFF ∷ 0xFF ∷ 0xFF ∷ 0xFF ∷ []
packbits_decode-encoded_example =
    packbits_decode-encoded pieces 90 ((omega arith, omega arith), ((omega arith, omega arith), tt))
      (omega arith)

-- Compression on, a row of pieces, and print.
abbrev document : List ℕ
document = 0x1B ∷ 0x40 ∷ 0x4D ∷ 0x02 ∷ 0x67 ∷ 0x00 ∷ 0x02 ∷ 0xFE ∷ 0x0F ∷ 0x1A ∷ []

decode_brother_raster-AreFull_run :
    AreFull (row_of (0x0F ∷ 0x0F ∷ 0x0F ∷ []) ∷ [])
    × (1 ≤ length (row_of (0x0F ∷ 0x0F ∷ 0x0F ∷ []) ∷ []))
unfolding decode_brother_raster decode_loop decode_command packbits_decode packbits_loop
decode_brother_raster-AreFull_run =
    decode_brother_raster-AreFull document (row_of (0x0F ∷ 0x0F ∷ 0x0F ∷ []) ∷ []) refl
