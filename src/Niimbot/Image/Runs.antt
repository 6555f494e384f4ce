-- ===== src/Niimbot/Image/Runs.antt =====
-- image.go: the runs of an encoded image and the rows they stand for.
use brother_connect.Base.{
  ℕ, zero, suc, ◌+◌, ◌≤◌, ◌≡◌, refl, sym, ap, ◌∙◌, ◌==◌, ==_iff, length, replicate, Bool, true,
  List, [], ◌∷◌, ◌++◌, map, append-nil, append_assoc, Bool-cases, inl, inr, arith,
}
use brother_connect.Niimbot.Image.{
  Row, all_equal, bytes_equal, joins, add_row, encode_rows, encode, pack_row,
}

-- What one row prints: its bytes and how many of its pixels are black.
abbrev pub Line : Type 0
Line = List ℕ × ℕ

abbrev pub line_of : Row → Line
line_of r = (r.bits, r.black)

-- The rows that runs stand for.
abbrev pub lines : List Row → List Line
lines [] = []
lines (r ∷ runs) = replicate r.repeat (line_of r) ++ lines runs

-- Runs that follow each other from row `y` to row `z`, each of 1 to 255 rows.
pub data Runs : ℕ → ℕ → List Row → Type 0 where
  none_left : {y z : ℕ} → y ≡ z → Runs y z []
  one_run :
      {r : Row} {y z : ℕ} {runs : List Row}
      → r.index ≡ y
      → 1 ≤ r.repeat
      → r.repeat ≤ 255
      → Runs (y + r.repeat) z runs
      → Runs y z (r ∷ runs)

all_equal_sound : (a b : List ℕ) → length a ≡ length b → all_equal a b ≡ true → a ≡ b
unfolding all_equal
all_equal_sound [] [] n e = refl
all_equal_sound [] (y ∷ b) n e = absurd (ground arith)
all_equal_sound (x ∷ a) [] n e = absurd (ground arith)
all_equal_sound (x ∷ a) (y ∷ b) n e = elim (Bool-cases (x == y)) [
  | inl t ↦
      let heads : x ≡ y = (==_iff x y).0 t in
      let tails : a ≡ b = all_equal_sound a b (omega (arith, n)) (ground arith) in cc (heads, tails)
  | inr f ↦ ground arith
]

bytes_equal_sound : (a b : List ℕ) → bytes_equal a b ≡ true → a ≡ b
unfolding bytes_equal
bytes_equal_sound a b e = all_equal_sound a b (ground arith) (ground arith)

replicate_snoc : {A : Type 0} (n : ℕ) (a : A) → replicate (suc n) a ≡ replicate n a ++ (a ∷ [])
replicate_snoc zero a = refl
replicate_snoc (suc n) a = ap (λ as_. a ∷ as_) (replicate_snoc n a)

joins-line : (last row : Row) → joins last row ≡ true → line_of last ≡ line_of row
joins-line last row e =
    let same : last.bits ≡ row.bits = bytes_equal_sound last.bits row.bits (ground arith) in
    let count : last.black ≡ row.black = ground arith in cc (same, count)

lines-add_row :
    (runs : List Row) (row : Row)
    → row.repeat ≡ 1
    → lines (add_row runs row) ≡ lines runs ++ (line_of row ∷ [])
unfolding add_row
lines-add_row [] row e = rw e refl
lines-add_row (last ∷ []) row e = elim (Bool-cases (joins last row)) [
  | inl t ↦ rw t (
      ap (λ ls. ls ++ []) (replicate_snoc last.repeat (line_of last))
      ∙ append-nil _
      ∙ ap (λ l. replicate last.repeat (line_of last) ++ (l ∷ [])) (joins-line last row t)
      ∙ ap (λ ls. ls ++ (line_of row ∷ [])) (sym (append-nil _)))
  | inr f ↦ rw f (
      ap (λ n. replicate last.repeat (line_of last) ++ (replicate n (line_of row) ++ [])) e
      ∙ ap (λ ls. ls ++ (line_of row ∷ [])) (sym (append-nil _)))
]
lines-add_row (r ∷ s ∷ more) row e =
    ap (λ ls. replicate r.repeat (line_of r) ++ ls) (lines-add_row (s ∷ more) row e)
    ∙ sym (append_assoc (replicate r.repeat (line_of r)) (lines (s ∷ more)) (line_of row ∷ []))

add_row-Runs :
    (y z : ℕ) (runs : List Row) (row : Row)
    → row.repeat ≡ 1
    → row.index ≡ z
    → Runs y z runs
    → Runs y (suc z) (add_row runs row)
unfolding add_row
add_row-Runs y z [] row e i (none_left k) =
    one_run (omega (arith, i, k)) (omega (arith, e)) (omega (arith, e))
      (none_left (omega (arith, e, k)))
add_row-Runs y z (last ∷ []) row e i (one_run j lo hi (none_left k)) =
    elim (Bool-cases (joins last row)) [
      | inl t ↦ rw t (one_run j (omega arith) (ground arith) (none_left (omega (arith, k))))
      | inr f ↦ rw f (
          one_run j lo hi (
            one_run (omega (arith, i, k)) (omega (arith, e)) (omega (arith, e))
              (none_left (omega (arith, e, k)))))
    ]
add_row-Runs y z (r ∷ s ∷ more) row e i (one_run j lo hi rs) =
    one_run j lo hi (add_row-Runs (y + r.repeat) z (s ∷ more) row e i rs)

by_end : {a b : ℕ} {runs : List Row} → a ≡ b → Runs 0 a runs → Runs 0 b runs
by_end e t = rw (← e) t

module _ (width : ℕ) where
  lines-encode_rows :
      (y : ℕ) (image : List (List Bool)) (runs : List Row)
      → lines (encode_rows width y image runs) ≡ lines runs ++ map (pack_row width) image
  unfolding encode_rows
  lines-encode_rows y [] runs = sym (append-nil (lines runs))
  lines-encode_rows y (pixels ∷ more) runs =
      lines-encode_rows (suc y) more _
      ∙ ap (λ ls. ls ++ map (pack_row width) more) (lines-add_row runs _ refl)
      ∙ append_assoc (lines runs) (pack_row width pixels ∷ []) (map (pack_row width) more)

  encode_rows-Runs :
      (y : ℕ) (image : List (List Bool)) (runs : List Row)
      → Runs 0 y runs
      → Runs 0 (y + length image) (encode_rows width y image runs)
  unfolding encode_rows
  encode_rows-Runs y [] runs rs = by_end (omega arith) rs
  encode_rows-Runs y (pixels ∷ more) runs rs =
      by_end (omega arith) (encode_rows-Runs (suc y) more _ (add_row-Runs 0 y runs _ refl refl rs))

-- The runs of `encode`, expanded, are the packed rows of the image in their order, and the runs
-- follow each other without a gap from row 0 to the last, each of 1 to 255 rows.
pub encode-lines :
    (width : ℕ) (image : List (List Bool))
    → (lines (encode width image).runs ≡ map (pack_row width) image)
      × Runs 0 (encode width image).rows (encode width image).runs
unfolding encode
encode-lines width image = (
  lines-encode_rows width 0 image [],
  by_end (omega arith) (encode_rows-Runs width 0 image [] (none_left refl)),
)
