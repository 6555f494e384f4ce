-- ===== src/Niimbot/Image/Tests.antt =====
-- image.go: a small image, encoded and printed, and the theorems at it.
use brother_connect.Base.{
  ℕ, ◌≡◌, refl, List, [], ◌∷◌, get_or, map, Bool, true, false, some, if◌then◌else◌, arith,
}
use brother_connect.Niimbot.Packet.{Packet}
use brother_connect.Niimbot.Image.{
  encode, encode_rows, pack_row, row_packets, pixel_counts, count_split, set_pixels, or_at, add_row,
  bytes_equal, all_equal,
}
use brother_connect.Niimbot.Image.Runs.{encode-lines, lines, Runs}
use brother_connect.Niimbot.Image.Pixels.{pack_row_pixels, pixel, black_count}
use brother_connect.Niimbot.Image.Packets.{pixel_counts-some, printed, number}
use brother_connect.Niimbot.Image.Printout.{row_packets_print, bytes_of}

-- A bar of nine pixels over two rows, then a blank row.
abbrev bar : List Bool
bar = true ∷ false ∷ false ∷ false ∷ false ∷ false ∷ false ∷ false ∷ true ∷ []

abbrev blank : List Bool
blank = false ∷ []

abbrev picture : List (List Bool)
picture = bar ∷ bar ∷ blank ∷ []

bar_bytes : pack_row 9 bar ≡ (0x80 ∷ 0x80 ∷ [], 2)
unfolding pack_row set_pixels or_at
bar_bytes = refl

picture_runs :
    (encode 9 picture).runs
    ≡ record { index = 0; repeat = 2; bits = 0x80 ∷ 0x80 ∷ []; black = 2 }
      ∷ record { index = 2; repeat = 1; bits = []; black = 0 }
      ∷ []
unfolding encode encode_rows pack_row set_pixels or_at add_row bytes_equal all_equal
picture_runs = refl

encode-lines_run :
    (lines (encode 9 picture).runs ≡ map (pack_row 9) picture)
    × Runs 0 (encode 9 picture).rows (encode 9 picture).runs
encode-lines_run = encode-lines 9 picture

pack_row_pixels_example :
    ((pack_row 9 bar).1 ≡ black_count bar)
    × (pixel (pack_row 9 bar).0 8 ≡ (if get_or bar 8 false then 1 else 0))
pack_row_pixels_example = pack_row_pixels 9 bar 8 (omega arith)

pixel_counts-some_run :
    (a b c : ℕ) × (pixel_counts (0xFF ∷ 0x80 ∷ []) 384 count_split ≡ some (a ∷ b ∷ c ∷ []))
pixel_counts-some_run = pixel_counts-some (0xFF ∷ 0x80 ∷ []) 384 count_split

row_packets_print_example :
    (ps : List Packet) × (row_packets (encode 9 picture) 384 count_split true ≡ some ps)
    × (printed ps ≡ number 0 (bytes_of (map (pack_row 9) picture)))
row_packets_print_example = row_packets_print 9 picture 384 count_split true (omega arith)
