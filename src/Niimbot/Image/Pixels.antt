-- ===== src/Niimbot/Image/Pixels.antt =====
-- image.go: the pixels of a packed row.
use Prim.Native.Nat.{bit_or}
use native.Mathlib.Omega.{div_fact}
use native.Mathlib.Nat.{zero-div}
use brother_connect.Base.{
  ℕ, zero, suc, ◌+◌, ◌-◌, ◌*◌, ◌/◌, ◌%◌, ◌^◌, ◌≤◌, ◌<◌, ◌≡◌, refl, sym, ap, ◌∙◌, ◌==◌, ==_iff,
  length, get_or, replicate, length-replicate, All, Bool, true, false, Bool-cases, List, [], ◌∷◌,
  if◌then◌else◌, inl, inr, arith,
}
use brother_connect.Niimbot.Image.{or_at, set_pixels, pack_row, padded}
use brother_connect.Niimbot.Image.Bits.{bit_of, bit_of-bit_or, bit_or-byte}

-- Pixel `x` of a packed row: 1 if it is black.
abbrev pub pixel : List ℕ → ℕ → ℕ
pixel bits x = bit_of (get_or bits (x / 8) 0) (x % 8)

abbrev pub black_count : List Bool → ℕ
black_count [] = 0
black_count (true ∷ ps) = suc (black_count ps)
black_count (false ∷ ps) = black_count ps

abbrev AreBytes : List ℕ → Type 0
AreBytes bits = All (λ b. b < 256) bits

-- Whether pixel `z` is among those from `x` on that are black.
is_on : ℕ → List Bool → ℕ → Bool
is_on x [] z = false
is_on x (p ∷ ps) z = let rest = is_on (suc x) ps z in if z == x then p else rest

get_or-byte : (bits : List ℕ) (i : ℕ) → AreBytes bits → get_or bits i 0 < 256
get_or-byte [] i bs = omega arith
get_or-byte (b ∷ bits) zero (h, bs) = h
get_or-byte (b ∷ bits) (suc i) (h, bs) = get_or-byte bits i bs

get_or-or_at :
    (i m : ℕ) (bits : List ℕ) (j : ℕ)
    → i < length bits
    → get_or (or_at i m bits) j 0 ≡ (if j == i then bit_or (get_or bits i 0) m else get_or bits j 0)
unfolding or_at
get_or-or_at i m [] j h = absurd (omega arith)
get_or-or_at zero m (b ∷ bits) zero h = refl
get_or-or_at zero m (b ∷ bits) (suc j) h = ground arith
get_or-or_at (suc i) m (b ∷ bits) zero h = ground arith
get_or-or_at (suc i) m (b ∷ bits) (suc j) h = ground (arith, get_or-or_at i m bits j (omega arith))

or_at-AreBytes :
    (i k : ℕ) (bits : List ℕ) → k < 8 → AreBytes bits → AreBytes (or_at i (0x80 / 2 ^ k) bits)
unfolding or_at
or_at-AreBytes i k [] hk bs = bs
or_at-AreBytes zero k (b ∷ bits) hk (h, bs) = (bit_or-byte b k h hk, bs)
or_at-AreBytes (suc i) k (b ∷ bits) hk (h, bs) = (h, or_at-AreBytes i k bits hk bs)

length-or_at : (i m : ℕ) (bits : List ℕ) → length (or_at i m bits) ≡ length bits
unfolding or_at
length-or_at i m [] = refl
length-or_at zero m (b ∷ bits) = refl
length-or_at (suc i) m (b ∷ bits) = ap suc (length-or_at i m bits)

-- Setting pixel `x`.
abbrev set_pixel : ℕ → List ℕ → List ℕ
set_pixel x bits = or_at (x / 8) (0x80 / 2 ^ (x % 8)) bits

-- Within one byte the place of a pixel is its remainder.
same_byte :
    (x z : ℕ)
    → z / 8 ≡ x / 8
    → (a : ℕ) → (if z % 8 == x % 8 then 1 else a) ≡ (if z == x then 1 else a)
same_byte x z e a = ground (arith, div_fact z 7, div_fact x 7)

other_byte : (x z : ℕ) → (z / 8 == x / 8) ≡ false → (a : ℕ) → a ≡ (if z == x then 1 else a)
other_byte x z f a = elim (Bool-cases (z == x)) [
  | inl t ↦ let same : z ≡ x = (==_iff z x).0 t in absurd (no_same (ap (λ y. y / 8) same))
  | inr k ↦ rw k refl
]
  where
    no_same : z / 8 ≡ x / 8 → ⊥
    no_same e = ground arith

pixel-set_pixel :
    (x z : ℕ) (bits : List ℕ)
    → x < 8 * length bits
    → AreBytes bits
    → pixel (set_pixel x bits) z ≡ (if z == x then 1 else pixel bits z)
pixel-set_pixel x z bits h bs = elim (Bool-cases (z / 8 == x / 8)) [
  | inl t ↦
      let place : z / 8 ≡ x / 8 = (==_iff (z / 8) (x / 8)).0 t in
      ap (λ b. bit_of b (z % 8)) (set_here t)
      ∙ bit_of-bit_or (get_or bits (x / 8) 0) (x % 8) (z % 8) (get_or-byte bits (x / 8) bs)
          (omega arith) (omega arith)
      ∙ same_byte x z place (bit_of (get_or bits (x / 8) 0) (z % 8))
      ∙ ap (λ i. if z == x then 1 else bit_of (get_or bits i 0) (z % 8)) (sym place)
  | inr f ↦ ap (λ b. bit_of b (z % 8)) (left_alone f) ∙ other_byte x z f (pixel bits z)
]
  where
    at_byte : get_or (set_pixel x bits) (z / 8) 0 ≡ (
        if z / 8 == x / 8
        then bit_or (get_or bits (x / 8) 0) (0x80 / 2 ^ (x % 8))
        else get_or bits (z / 8) 0)
    at_byte = get_or-or_at (x / 8) (0x80 / 2 ^ (x % 8)) bits (z / 8) (omega (arith, h))

    set_here :
        (z / 8 == x / 8) ≡ true
        → get_or (set_pixel x bits) (z / 8) 0 ≡ bit_or (get_or bits (x / 8) 0) (0x80 / 2 ^ (x % 8))
    set_here t =
        at_byte
        ∙ ap
            (λ c.
              if c
              then bit_or (get_or bits (x / 8) 0) (0x80 / 2 ^ (x % 8))
              else get_or bits (z / 8) 0)
            t

    left_alone :
        (z / 8 == x / 8) ≡ false → get_or (set_pixel x bits) (z / 8) 0 ≡ get_or bits (z / 8) 0
    left_alone f =
        at_byte
        ∙ ap
            (λ c.
              if c
              then bit_or (get_or bits (x / 8) 0) (0x80 / 2 ^ (x % 8))
              else get_or bits (z / 8) 0)
            f

is_on-before : (x z : ℕ) (ps : List Bool) → z < x → is_on x ps z ≡ false
unfolding is_on
is_on-before x z [] h = refl
is_on-before x z (p ∷ ps) h = ground (arith, is_on-before (suc x) z ps (omega arith))

is_on-get_or : (x z : ℕ) (ps : List Bool) → is_on x ps (x + z) ≡ get_or ps z false
unfolding is_on
is_on-get_or x z [] = refl
is_on-get_or x zero (p ∷ ps) = ground arith
is_on-get_or x (suc z) (p ∷ ps) =
    let skip : ((x + suc z) == x) ≡ false = ground arith in
    rw skip (ap (λ k. is_on (suc x) ps k) (omega arith) ∙ is_on-get_or (suc x) z ps)

set_pixels-pixel :
    (x : ℕ) (ps : List Bool) (bits : List ℕ) (black z : ℕ)
    → x + length ps ≤ 8 * length bits
    → AreBytes bits
    → pixel (set_pixels x ps bits black).0 z ≡ (if is_on x ps z then 1 else pixel bits z)
unfolding set_pixels is_on
set_pixels-pixel x [] bits black z h bs = refl
set_pixels-pixel x (true ∷ ps) bits black z h bs =
    set_pixels-pixel (suc x) ps (set_pixel x bits) (suc black) z
      (omega (arith, length-or_at (x / 8) (0x80 / 2 ^ (x % 8)) bits, h))
      (or_at-AreBytes (x / 8) (x % 8) bits (omega arith) bs)
    ∙ ap (λ a. if is_on (suc x) ps z then 1 else a) (pixel-set_pixel x z bits (omega (arith, h)) bs)
    ∙ either (is_on (suc x) ps z) (pixel bits z)
  where
    either :
        (c : Bool) (a : ℕ)
        → (if c then 1 else (if z == x then 1 else a))
          ≡ (if (if z == x then true else c) then 1 else a)
    either true a = ground arith
    either false a = ground arith
set_pixels-pixel x (false ∷ ps) bits black z h bs =
    set_pixels-pixel (suc x) ps bits black z (omega (arith, h)) bs ∙ elim (Bool-cases (z == x)) [
      | inl t ↦
          let off : is_on (suc x) ps z ≡ false = is_on-before (suc x) z ps (ground arith) in
          rw (t, off) refl
      | inr f ↦ rw f refl
    ]

set_pixels-black_count :
    (x : ℕ) (ps : List Bool) (bits : List ℕ) (black : ℕ)
    → (set_pixels x ps bits black).1 ≡ black + black_count ps
unfolding set_pixels
set_pixels-black_count x [] bits black = omega arith
set_pixels-black_count x (true ∷ ps) bits black =
    omega (arith, set_pixels-black_count (suc x) ps (set_pixel x bits) (suc black))
set_pixels-black_count x (false ∷ ps) bits black = set_pixels-black_count (suc x) ps bits black

all_white : (ps : List Bool) (z : ℕ) → black_count ps ≡ 0 → get_or ps z false ≡ false
all_white [] z e = refl
all_white (true ∷ ps) z e = absurd (omega (arith, e))
all_white (false ∷ ps) zero e = refl
all_white (false ∷ ps) (suc z) e = all_white ps z e

zeros-AreBytes : (n : ℕ) → AreBytes (replicate n 0)
zeros-AreBytes zero = tt
zeros-AreBytes (suc n) = (omega arith, zeros-AreBytes n)

get_or-zeros : (n i : ℕ) → ◌≡◌ {A = ℕ} (get_or {A = ℕ} (replicate n 0) i 0) 0
get_or-zeros zero i = refl
get_or-zeros (suc n) zero = refl
get_or-zeros (suc n) (suc i) = get_or-zeros n i

-- For a row that is not wider than the image: the count of black pixels is the number of its black
-- pixels, and pixel `x` of the packed bytes is 1 exactly if pixel `x` of the row is black; beyond the
-- row all pixels are 0.
pub pack_row_pixels :
    (width : ℕ) (ps : List Bool) (x : ℕ)
    → length ps ≤ width
    → ((pack_row width ps).1 ≡ black_count ps)
      × (pixel (pack_row width ps).0 x ≡ (if get_or ps x false then 1 else 0))
unfolding pack_row
pack_row_pixels width ps x h = elim (Bool-cases (black == 0)) [
  | inl t ↦ rw t (sym (none_black t), rw (all_white ps x (none_black t)) (no_pixel x))
  | inr f ↦ rw f (counted, set x)
]
  where
    zeros : List ℕ
    zeros = replicate (padded width / 8) 0

    black : ℕ
    black = (set_pixels 0 ps (replicate (padded width / 8) 0) 0).1

    counted : (set_pixels 0 ps (replicate (padded width / 8) 0) 0).1 ≡ black_count ps
    counted = set_pixels-black_count 0 ps (replicate (padded width / 8) 0) 0 ∙ omega arith

    none_black :
        ((set_pixels 0 ps (replicate (padded width / 8) 0) 0).1 == 0) ≡ true → black_count ps ≡ 0
    none_black t = omega (arith, counted, (==_iff _ 0).0 t)

    no_pixel : (x : ℕ) → pixel [] x ≡ 0
    no_pixel x = ap (λ a. a % 2) (zero-div (2 ^ (7 - x % 8)))

    set :
        (x : ℕ)
        → pixel (set_pixels 0 ps (replicate (padded width / 8) 0) 0).0 x
          ≡ (if get_or ps x false then 1 else 0)
    set x =
        set_pixels-pixel 0 ps (replicate (padded width / 8) 0) 0 x
          (omega (arith, h, length-replicate {A = ℕ} (padded width / 8) 0)) (zeros-AreBytes _)
        ∙ ap (λ c. if c then 1 else pixel (replicate (padded width / 8) 0) x)
            (ap (λ k. is_on 0 ps k) (omega arith) ∙ is_on-get_or 0 x ps)
        ∙ ap (λ a. if get_or ps x false then 1 else a)
            (ap (λ b. bit_of b (x % 8)) (get_or-zeros (padded width / 8) (x / 8)) ∙ no_pixel x)
