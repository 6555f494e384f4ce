-- ===== src/Niimbot/Image/Printout.antt =====
-- image.go: what a printer prints for all the packets of an image.
use brother_connect.Base.{
  ℕ, zero, suc, ◌+◌, ◌-◌, ◌≤◌, ◌≡◌, refl, sym, ap, ◌∙◌, leb, length, Bool, true, false, some, List,
  [], ◌∷◌, ◌++◌, map, append_assoc, Bool-cases, inl, inr, arith, length-replicate, replicate, All,
}
use brother_connect.Niimbot.Packet.{Packet}
use brother_connect.Niimbot.Image.{
  Row, CountMode, check_lines, checks_up_to, row_packets_from, row_packets, ◌>>=◌, add_row, joins,
  pack_row, encode, encode_rows,
}
use brother_connect.Niimbot.Image.Runs.{
  Runs, none_left, one_run, lines, line_of, Line, encode-lines,
}
use brother_connect.Niimbot.Image.Packets.{number, lines_by, printed, row_packet-lines}

number-append :
    (y : ℕ) (as_ bs : List (List ℕ))
    → number y (as_ ++ bs) ≡ number y as_ ++ number (y + length as_) bs
number-append y [] bs = ap (λ z. number z bs) (omega arith)
number-append y (a ∷ as_) bs =
    ap (λ ls. (y, a) ∷ ls)
      (number-append (suc y) as_ bs ∙ ap (λ z. number (suc y) as_ ++ number z bs) (omega arith))

printed-append : (ps qs : List Packet) → printed (ps ++ qs) ≡ printed ps ++ printed qs
printed-append [] qs = refl
printed-append (p ∷ ps) qs =
    ap (λ ls. lines_by p ++ ls) (printed-append ps qs)
    ∙ sym (append_assoc (lines_by p) (printed ps) (printed qs))

-- A check line prints nothing.
printed-check_lines : (fuel last next : ℕ) → printed (check_lines fuel last next).0 ≡ []
unfolding check_lines
printed-check_lines zero last next = refl
printed-check_lines (suc fuel) last next = elim (Bool-cases (leb next last)) [
  | inl t ↦ rw t (printed-check_lines fuel last (next + 200))
  | inr f ↦ rw f refl
]

printed-checks_up_to :
    (checks : Bool) (last next : ℕ) → printed (checks_up_to checks last next).0 ≡ []
unfolding checks_up_to
printed-checks_up_to true last next = printed-check_lines (suc last) last next
printed-checks_up_to false last next = refl

-- A blank run carries no bytes.
abbrev IsNilIfBlank : Row → Type 0
IsNilIfBlank r = r.black ≡ 0 → r.bits ≡ []

map-replicate : (n : ℕ) (l : Line) → map (λ (z : Line). z.0) (replicate n l) ≡ replicate n l.0
map-replicate zero l = refl
map-replicate (suc n) l = ap (λ ls. l.0 ∷ ls) (map-replicate n l)

map-append :
    (as_ bs : List Line)
    → map (λ (z : Line). z.0) (as_ ++ bs) ≡ map (λ z. z.0) as_ ++ map (λ z. z.0) bs
map-append [] bs = refl
map-append (a ∷ as_) bs = ap (λ ls. a.0 ∷ ls) (map-append as_ bs)

-- The bytes of the lines.
abbrev pub bytes_of : List Line → List (List ℕ)
bytes_of ls = map (λ l. l.0) ls

bytes_of_run :
    (y : ℕ) (r : Row) (runs : List Row)
    → r.index ≡ y
    → number y (bytes_of (lines (r ∷ runs)))
      ≡ number r.index (replicate r.repeat r.bits) ++ number (y + r.repeat) (bytes_of (lines runs))
bytes_of_run y r runs e =
    ap (λ ls. number y ls) (map-append (replicate r.repeat (line_of r)) (lines runs))
    ∙ ap (λ ls. number y (ls ++ bytes_of (lines runs))) (map-replicate r.repeat (line_of r))
    ∙ number-append y (replicate r.repeat r.bits) (bytes_of (lines runs))
    ∙ ap (λ n. number y (replicate r.repeat r.bits) ++ number (y + n) (bytes_of (lines runs)))
        (length-replicate r.repeat r.bits)
    ∙ ap
        (λ k. number k (replicate r.repeat r.bits) ++ number (y + r.repeat) (bytes_of (lines runs)))
        (sym e)

Runs-le : {y z : ℕ} {runs : List Row} → Runs y z runs → y ≤ z
Runs-le (none_left e) = omega (arith, e)
Runs-le (one_run i lo hi rs) = omega (arith, Runs-le rs)

row_packets_from-lines :
    (head_pixels : ℕ) (mode : CountMode) (checks : Bool) (next y z : ℕ) (runs : List Row)
    → Runs y z runs
    → All IsNilIfBlank runs
    → z ≤ 65535
    → (ps : List Packet) × (row_packets_from head_pixels mode checks next runs ≡ some ps)
      × (printed ps ≡ number y (bytes_of (lines runs)))
unfolding row_packets_from
row_packets_from-lines head_pixels mode checks next y z [] rs bs h = ([], refl, refl)
row_packets_from-lines head_pixels mode checks next y z (r ∷ runs) (one_run i lo hi rs) (b, bs) h =
    let (p, e, f) = row_packet-lines head_pixels mode r (omega (arith, Runs-le rs), hi, b) in
    let markers : List Packet × ℕ = checks_up_to checks ((r.index + r.repeat) - 1) next in
    let (qs, e', f') =
      row_packets_from-lines head_pixels mode checks markers.1 (y + r.repeat) z runs rs bs h in
    (
      p ∷ markers.0 ++ qs,
      ap
            (λ o. o >>= λ q. row_packets_from head_pixels mode checks markers.1 runs >>= λ qs.
              some (q ∷ markers.0 ++ qs))
            e
          ∙ ap (λ o. o >>= λ qs. some (p ∷ markers.0 ++ qs)) e',
      ap (λ ls. lines_by p ++ ls)
            (printed-append markers.0 qs
              ∙ ap (λ ls. ls ++ printed qs)
                  (printed-checks_up_to checks ((r.index + r.repeat) - 1) next))
          ∙ ap (λ ls. ls ++ printed qs) f
          ∙ ap (λ ls. number r.index (replicate r.repeat r.bits) ++ ls) f'
          ∙ sym (bytes_of_run y r runs i),
    )

pack_row-IsNil :
    (width : ℕ) (pixels : List Bool)
    → (pack_row width pixels).1 ≡ 0
    → (pack_row width pixels).0 ≡ []
unfolding pack_row
pack_row-IsNil width pixels e = ground arith

add_row-IsNil :
    (runs : List Row) (row : Row)
    → All IsNilIfBlank runs
    → IsNilIfBlank row
    → All IsNilIfBlank (add_row runs row)
unfolding add_row
add_row-IsNil [] row bs b = (b, tt)
add_row-IsNil (last ∷ []) row (l, _) b = elim (Bool-cases (joins last row)) [
  | inl t ↦ rw t (l, tt)
  | inr f ↦ rw f (l, (b, tt))
]
add_row-IsNil (r ∷ s ∷ more) row (l, bs) b = (l, add_row-IsNil (s ∷ more) row bs b)

encode_rows-IsNil :
    (width y : ℕ) (image : List (List Bool)) (runs : List Row)
    → All IsNilIfBlank runs
    → All IsNilIfBlank (encode_rows width y image runs)
unfolding encode_rows
encode_rows-IsNil width y [] runs bs = bs
encode_rows-IsNil width y (pixels ∷ more) runs bs =
    encode_rows-IsNil width (suc y) more _ (add_row-IsNil runs _ bs (pack_row-IsNil width pixels))

-- The packets of an image of at most 65535 rows, for every width of the head, with either way of
-- counting, with check lines and without: `RowPackets` does not panic, and a printer that prints
-- each packet's line as often as it says, from the row that it names, prints the packed rows of the
-- image, each under its own number and in order.
pub row_packets_print :
    (width : ℕ) (image : List (List Bool)) (head_pixels : ℕ) (mode : CountMode) (checks : Bool)
    → length image ≤ 65535
    → (ps : List Packet) × (row_packets (encode width image) head_pixels mode checks ≡ some ps)
      × (printed ps ≡ number 0 (bytes_of (map (pack_row width) image)))
unfolding row_packets encode
row_packets_print width image head_pixels mode checks h =
    let (same, rs) = encode-lines width image in
    let (ps, e, f) =
      row_packets_from-lines head_pixels mode checks 199 0 (length image) (encode width image).runs
        rs (encode_rows-IsNil width 0 image [] tt) h in
    (ps, e, f ∙ ap (λ ls. number 0 (bytes_of ls)) same)
