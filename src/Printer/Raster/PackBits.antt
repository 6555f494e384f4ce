-- ===== src/Printer/Raster/PackBits.antt =====
-- render.go: what the decoder makes of encoded data.
use brother_connect.Base.{
  ℕ, zero, suc, ◌+◌, ◌-◌, ◌≤◌, ◌<◌, ◌≡◌, refl, sym, ap, ◌∙◌, length, replicate, length-append,
  length-replicate, take-append, drop-append, take_all, drop_all, append-nil, append_assoc, true,
  false, List, [], ◌∷◌, ◌++◌, ltb, ◌==◌, arith, All,
}
use brother_connect.Printer.Raster.{packbits_round, packbits_loop, packbits_decode}

-- A piece of encoded data: bytes as they are, or a byte that is repeated. The counts are less by one
-- and by two, as far as one header reaches.
pub data Piece : Type 0 where
  literal : List ℕ → Piece
  repeated : ℕ → ℕ → Piece

abbrev pub Fits : Piece → Type 0
Fits (literal bytes) = (1 ≤ length bytes) × (length bytes ≤ 128)
Fits (repeated n b) = (2 ≤ n) × (n ≤ 128)

abbrev pub bytes_of : Piece → List ℕ
bytes_of (literal bytes) = bytes
bytes_of (repeated n b) = replicate n b

abbrev pub encoded : Piece → List ℕ
encoded (literal bytes) = (length bytes - 1) ∷ bytes
encoded (repeated n b) = (257 - n) ∷ b ∷ []

abbrev pub all_bytes : List Piece → List ℕ
all_bytes [] = []
all_bytes (p ∷ ps) = bytes_of p ++ all_bytes ps

abbrev pub all_encoded : List Piece → List ℕ
all_encoded [] = []
all_encoded (p ∷ ps) = encoded p ++ all_encoded ps

-- One round reads one piece.
literal-round :
    (bytes rest : List ℕ)
    → 1 ≤ length bytes
    → length bytes ≤ 128
    → packbits_round (length bytes - 1) (bytes ++ rest) ≡ (bytes, rest)
literal-round bytes rest lo hi =
    let small : ltb (length bytes - 1) 128 ≡ true = ground arith in
    let count : suc (length bytes - 1) ≡ length bytes = omega arith in
    rw (small, count)
      (pair (take-append (length bytes) bytes rest (omega arith) ∙ take_all bytes) (
        drop-append (length bytes) bytes rest (omega arith)
        ∙ ap (λ z. z ++ rest) (drop_all (length bytes) bytes (omega arith))))
  where
    pair : {a b c d : List ℕ} → a ≡ b → c ≡ d → ◌≡◌ {A = List ℕ × List ℕ} (a, c) (b, d)
    pair e f = cc (e, f)

repeated-round :
    (n b : ℕ) (rest : List ℕ)
    → 2 ≤ n
    → n ≤ 128
    → packbits_round (257 - n) (b ∷ rest) ≡ (replicate n b, rest)
repeated-round n b rest lo hi =
    let large : ltb (257 - n) 128 ≡ false = ground arith in
    let other : ((257 - n) == 128) ≡ false = ground arith in
    let count : 257 - (257 - n) ≡ n = omega arith in rw (large, other, count) refl

module _ (fuel expected : ℕ) (out : List ℕ) where
  -- A round that has room for more goes on with what it read.
  packbits_loop-round :
      (h : ℕ) (rest bytes rest' : List ℕ)
      → length out < expected
      → packbits_round h rest ≡ (bytes, rest')
      → packbits_loop (suc fuel) (h ∷ rest) expected out
        ≡ packbits_loop fuel rest' expected (out ++ bytes)
  unfolding packbits_loop
  packbits_loop-round h rest bytes rest' room e =
      let test : ltb (length out) expected ≡ true = ground arith in
      rw test (ap (λ r. packbits_loop fuel r.1 expected (out ++ r.0)) e)

packbits_loop-encoded :
    (ps : List Piece) (fuel expected : ℕ) (out : List ℕ)
    → All Fits ps
    → length out + length (all_bytes ps) ≤ expected
    → length (all_encoded ps) ≤ fuel
    → packbits_loop fuel (all_encoded ps) expected out ≡ out ++ all_bytes ps
unfolding packbits_loop
packbits_loop-encoded [] zero expected out u h f = sym (append-nil out)
packbits_loop-encoded [] (suc fuel) expected out u h f = sym (append-nil out)
packbits_loop-encoded (literal bytes ∷ ps) zero expected out u h f = absurd (omega arith)
packbits_loop-encoded (literal bytes ∷ ps) (suc fuel) expected out ((lo, hi), u) h f =
    packbits_loop-round fuel expected out (length bytes - 1) (bytes ++ all_encoded ps) bytes
      (all_encoded ps) (omega (arith, h, lo, length-append bytes (all_bytes ps)))
      (literal-round bytes (all_encoded ps) lo hi)
    ∙ packbits_loop-encoded ps fuel expected (out ++ bytes) u
        (omega (arith, h, length-append out bytes, length-append bytes (all_bytes ps)))
        (omega (arith, f, length-append bytes (all_encoded ps)))
    ∙ append_assoc out bytes (all_bytes ps)
packbits_loop-encoded (repeated n b ∷ ps) zero expected out u h f = absurd (omega arith)
packbits_loop-encoded (repeated n b ∷ ps) (suc fuel) expected out ((lo, hi), u) h f =
    packbits_loop-round fuel expected out (257 - n) (b ∷ all_encoded ps) (replicate n b)
      (all_encoded ps)
      (omega (arith, h, lo, length-append (replicate n b) (all_bytes ps), length-replicate n b))
      (repeated-round n b (all_encoded ps) lo hi)
    ∙ packbits_loop-encoded ps fuel expected (out ++ replicate n b) u
        (omega (
          arith,
          h,
          length-append out (replicate n b),
          length-append (replicate n b) (all_bytes ps),
        ))
        (omega (arith, f))
    ∙ append_assoc out (replicate n b) (all_bytes ps)

-- Data encoded in pieces of 1 to 128 bytes as they are and of 2 to 128 equal bytes, of no more than
-- the expected bytes in all, is decoded to those bytes.
pub packbits_decode-encoded :
    (ps : List Piece) (expected : ℕ)
    → All Fits ps
    → length (all_bytes ps) ≤ expected
    → packbits_decode (all_encoded ps) expected ≡ all_bytes ps
unfolding packbits_decode
packbits_decode-encoded ps expected u h =
    packbits_loop-encoded ps (length (all_encoded ps)) expected [] u (omega (arith, h))
      (omega arith)
