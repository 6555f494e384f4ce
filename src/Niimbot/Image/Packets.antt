-- ===== src/Niimbot/Image/Packets.antt =====
-- image.go: the packets of an encoded image, read back the way a printer reads them.
use native.Mathlib.Nat.{div-lt_iff_lt-mul}
use brother_connect.Base.{
  replicate, ℕ, zero, suc, ◌+◌, ◌*◌, ◌/◌, ◌%◌, min, ◌≤◌, ◌<◌, ◌≡◌, refl, sym, ap, ◌∙◌, ◌==◌, ==_iff,
  length, Bool, true, false, some, List, [], ◌∷◌, ◌++◌, Bool-cases, if◌then◌else◌, inl, inr, arith,
}
use brother_connect.Niimbot.Packet.{Packet}
use brother_connect.Niimbot.Commands.{cmd_empty_row, cmd_bitmap_row}
use brother_connect.Niimbot.Image.{
  Row, CountMode, add_part, count_loop, splits, pixel_counts, popcount, u16, is_blank, row_packet,
}

-- The parts never fail as long as the bytes lie within three chunks.
add_part-some :
    (parts : ℕ × ℕ × ℕ) (i n : ℕ) → i < 3 → (q : ℕ × ℕ × ℕ) × (add_part (some parts) i n ≡ some q)
add_part-some (a, b, c) zero n h = (_, refl)
add_part-some (a, b, c) (suc zero) n h = (_, refl)
add_part-some (a, b, c) (suc (suc zero)) n h = (_, refl)
add_part-some (a, b, c) (suc (suc (suc i))) n h = absurd (omega arith)

div_below : (i chunk : ℕ) → i < chunk * 3 → i / chunk < 3
div_below i zero h = absurd (omega arith)
div_below i (suc n) h =
    (div-lt_iff_lt-mul {k = suc n} {x = i} {y = 3} (omega arith)).1 (omega arith)

count_loop-some :
    (split : Bool) (chunk i : ℕ) (bits : List ℕ) (total : ℕ) (parts : ℕ × ℕ × ℕ)
    → (split ≡ true → i + length bits ≤ chunk * 3)
    → (q : ℕ × ℕ × ℕ) × ((count_loop split chunk i bits total (some parts)).1 ≡ some q)
unfolding count_loop
count_loop-some split chunk i [] total parts h = (parts, refl)
count_loop-some true chunk i (b ∷ bs) total parts h =
    let (q, e) =
      add_part-some parts (i / chunk) (popcount b) (div_below i chunk (omega (arith, h refl))) in
    let (r, f) =
      count_loop-some true chunk (suc i) bs (total + popcount b) q (λ t. omega (arith, h refl)) in
    (r, ap (λ z. (count_loop true chunk (suc i) bs (total + popcount b) z).1) e ∙ f)
count_loop-some false chunk i (b ∷ bs) total parts h =
    count_loop-some false chunk (suc i) bs (total + popcount b) parts (λ e. ground arith)

-- Three header bytes, whatever the row: `pixelCounts` never reads beyond its three parts.
pub pixel_counts-some :
    (bits : List ℕ) (head_pixels : ℕ) (mode : CountMode)
    → (a b c : ℕ) × (pixel_counts bits head_pixels mode ≡ some (a ∷ b ∷ c ∷ []))
unfolding pixel_counts
pixel_counts-some bits head_pixels mode = elim (Bool-cases (splits chunk mode bits)) [
  | inl t ↦
      let (q, e) = count_loop-some true chunk 0 bits 0 (0, 0, 0) (λ s. ground arith) in
      (min q.0 255, min q.1 255, min q.2 255, rw (t, e) refl)
  | inr f ↦ (0, total % 256, total / 256 % 256, rw f refl)
]
  where
    chunk : ℕ
    chunk = head_pixels / 8 / 3

    total : ℕ
    total = (count_loop false (head_pixels / 8 / 3) 0 bits 0 (some (0, 0, 0))).0

-- Lines with their numbers.
abbrev pub number : ℕ → List (List ℕ) → List (ℕ × List ℕ)
number y [] = []
number y (l ∷ ls) = (y, l) ∷ number (suc y) ls

abbrev empty_lines : List ℕ → List (ℕ × List ℕ)
empty_lines (hi ∷ lo ∷ n ∷ []) = number (hi * 256 + lo) (replicate n [])
empty_lines other = []

abbrev bitmap_lines : List ℕ → List (ℕ × List ℕ)
bitmap_lines (hi ∷ lo ∷ a ∷ b ∷ c ∷ n ∷ bits) = number (hi * 256 + lo) (replicate n bits)
bitmap_lines other = []

-- What a printer prints for one packet: the same line as often as the packet says, from the row
-- that it names.
abbrev pub lines_by : Packet → List (ℕ × List ℕ)
lines_by p =
    if p.cmd == cmd_empty_row
    then empty_lines p.payload
    else if p.cmd == cmd_bitmap_row
    then bitmap_lines p.payload
    else []

abbrev pub printed : List Packet → List (ℕ × List ℕ)
printed [] = []
printed (p ∷ ps) = lines_by p ++ printed ps

-- A run that fits its packet.
abbrev pub Fits : Row → Type 0
Fits r = (r.index < 65536) × (r.repeat ≤ 255) × (r.black ≡ 0 → r.bits ≡ [])

u16_back : (v : ℕ) → v < 65536 → v / 256 % 256 * 256 + v % 256 ≡ v
u16_back v h = omega arith

byte_back : (v : ℕ) → v ≤ 255 → v % 256 ≡ v
byte_back v h = omega arith

pub row_packet-lines :
    (head_pixels : ℕ) (mode : CountMode) (r : Row)
    → Fits r
    → (p : Packet) × (row_packet head_pixels mode r ≡ some p)
      × (lines_by p ≡ number r.index (replicate r.repeat r.bits))
unfolding row_packet
row_packet-lines head_pixels mode r (i, n, blank) = elim (Bool-cases (is_blank r)) [
  | inl t ↦ (
    record { cmd = cmd_empty_row; payload = u16 r.index ++ ((r.repeat % 256) ∷ []) },
    rw t refl,
    blank_lines (blank ((==_iff r.black 0).0 t)),
  )
  | inr f ↦
      let (a, b, c, e) = pixel_counts-some r.bits head_pixels mode in
      (
        record {
          cmd = cmd_bitmap_row;
          payload = (u16 r.index ++ (a ∷ b ∷ c ∷ []) ++ ((r.repeat % 256) ∷ [])) ++ r.bits;
        },
        rw (f, e) refl,
        same_lines r.bits,
      )
]
  where
    same_lines :
        (bits : List ℕ)
        → number (r.index / 256 % 256 * 256 + r.index % 256) (replicate (r.repeat % 256) bits)
          ≡ number r.index (replicate r.repeat bits)
    same_lines bits = cc (
      ap (λ y. number y (replicate (r.repeat % 256) bits)) (u16_back r.index i),
      ap (λ k. number r.index (replicate k bits)) (byte_back r.repeat n),
    )

    blank_lines :
        r.bits ≡ []
        → number (r.index / 256 % 256 * 256 + r.index % 256) (replicate (r.repeat % 256) [])
          ≡ number r.index (replicate r.repeat r.bits)
    blank_lines e = same_lines [] ∙ ap (λ bits. number r.index (replicate r.repeat bits)) (sym e)
