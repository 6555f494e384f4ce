-- ===== src/Printer/Raster/Rows.antt =====
-- render.go: the rows of a decoded document.
use brother_connect.Base.{
  ℕ, zero, suc, ◌≤◌, ◌≡◌, refl, length, take, drop, replicate, length-append, length-take,
  length-drop, All, Bool, true, false, Bool-cases, List, [], ◌∷◌, ◌++◌, ◌==◌, ◌||◌, ltb, inl, inr,
  if◌then◌else◌, arith, none, some,
}
use brother_connect.Printer.Raster.{
  raster_bytes_per_line, row_of, decode_command, decode_loop, decode_brother_raster, transfer,
  select_mode, Decoded,
}

-- Rows of the width of the head.
abbrev pub AreFull : List (List ℕ) → Type 0
AreFull rows = All (λ r. length r ≡ raster_bytes_per_line) rows

AreFull-append : (as_ bs : List (List ℕ)) → AreFull as_ → AreFull bs → AreFull (as_ ++ bs)
AreFull-append [] bs u v = v
AreFull-append (a ∷ as_) bs (h, u) v = (h, AreFull-append as_ bs u v)

length-row_of : (bytes : List ℕ) → length (row_of bytes) ≡ raster_bytes_per_line
length-row_of bytes = omega (
  arith,
  length-append (take 90 bytes) (drop (length bytes) (replicate {A = ℕ} 90 0)),
  length-take 90 bytes,
  length-drop (length bytes) (replicate {A = ℕ} 90 0),
)

transfer-AreFull : (compressed : Bool) (rest : List ℕ) → AreFull (transfer compressed rest).2
transfer-AreFull compressed [] = tt
transfer-AreFull compressed (z ∷ []) = tt
transfer-AreFull compressed (z ∷ n ∷ rest) = elim (Bool-cases (ltb (length rest) n)) [
  | inl t ↦ rw t tt
  | inr f ↦ rw f (length-row_of _, tt)
]

select_mode-AreFull : (compressed : Bool) (rest : List ℕ) → AreFull (select_mode compressed rest).2
select_mode-AreFull compressed [] = tt
select_mode-AreFull compressed (mode ∷ rest) = tt

by_test : (c : Bool) (x y : Decoded) → AreFull x.2 → AreFull y.2 → AreFull (if c then x else y).2
by_test true x y u v = u
by_test false x y u v = v

decode_command-AreFull :
    (compressed : Bool) (b : ℕ) (rest : List ℕ) → AreFull (decode_command compressed b rest).2
unfolding decode_command
decode_command-AreFull compressed b rest =
    by_test ((b == 0x00) || ((b == 0x0C) || (b == 0x1A))) _ _ tt (
      by_test (b == 0x4D) _ _ (select_mode-AreFull compressed rest) (
        by_test (b == 0x5A) _ _ (refl, tt)
          (by_test (b == 0x67) _ _ (transfer-AreFull compressed rest)
            (by_test (b == 0x1B) _ (compressed, rest, []) tt tt))))

decode_loop-AreFull :
    (fuel : ℕ) (compressed : Bool) (doc : List ℕ) (rows : List (List ℕ))
    → AreFull rows
    → AreFull (decode_loop fuel compressed doc rows)
unfolding decode_loop
decode_loop-AreFull zero compressed doc rows u = u
decode_loop-AreFull (suc fuel) compressed [] rows u = u
decode_loop-AreFull (suc fuel) compressed (b ∷ rest) rows u =
    decode_loop-AreFull fuel _ _ _
      (AreFull-append rows _ u (decode_command-AreFull compressed b rest))

-- Whatever the document: if it is decoded, it has a row, and every row has 90 bytes, also where the
-- data of a transfer is shorter or longer.
pub decode_brother_raster-AreFull :
    (doc : List ℕ) (rows : List (List ℕ))
    → decode_brother_raster doc ≡ some rows
    → AreFull rows × (1 ≤ length rows)
unfolding decode_brother_raster
decode_brother_raster-AreFull doc rows e = by_count (length found == 0) refl e
  where
    found : List (List ℕ)
    found = decode_loop (length doc) false doc []

    by_count :
        (c : Bool)
        → (length found == 0) ≡ c
        → (if c then none else some found) ≡ some rows
        → AreFull rows × (1 ≤ length rows)
    by_count true t x = absurd (ground arith)
    by_count false f x =
        let same : found ≡ rows = ground arith in
        rw (← same) (decode_loop-AreFull (length doc) false doc [] tt, ground arith)
