-- ===== src/Niimbot/Image/Bits.antt =====
-- image.go: one pixel in a packed byte. A statement on the 256 bytes and the 8 bits is checked at
-- each of them.
use Prim.Native.Nat.{bit_or}
use brother_connect.Base.{
  ℕ, zero, suc, ◌-◌, ◌/◌, ◌%◌, ◌^◌, ◌<◌, ◌≡◌, refl, ◌==◌, ==_iff, ltb, Bool, true, false,
  Bool-cases, if◌then◌else◌, inl, inr, arith,
}

-- The test holds below `n`.
all_below : ℕ → (ℕ → Bool) → Bool
all_below zero f = true
all_below (suc n) f = let rest = all_below n f in if f n then rest else false

all_below_sound : (n : ℕ) (f : ℕ → Bool) → all_below n f ≡ true → (i : ℕ) → i < n → f i ≡ true
unfolding all_below
all_below_sound zero f e i h = absurd (omega arith)
all_below_sound (suc n) f e i h = elim (Bool-cases (i == n)) [
  | inl t ↦
      let same : i ≡ n = (==_iff i n).0 t in let holds : f n ≡ true = ground arith in rw same holds
  | inr k ↦ all_below_sound n f (ground arith) i (ground arith)
]

-- Bit `k` of a byte, from the most significant one.
abbrev pub bit_of : ℕ → ℕ → ℕ
bit_of b k = b / 2 ^ (7 - k) % 2

abbrev set_bit : ℕ → ℕ → ℕ
set_bit b k = bit_or b (0x80 / 2 ^ k)

abbrev after_set : ℕ → ℕ → ℕ → ℕ
after_set b k j = if j == k then 1 else bit_of b j

abbrev sets_bit : ℕ → ℕ → ℕ → Bool
sets_bit b k j = bit_of (set_bit b k) j == after_set b k j

sets_every_bit : all_below 256 (λ b. all_below 8 (λ k. all_below 8 (λ j. sets_bit b k j))) ≡ true
unfolding all_below
sets_every_bit = refl

keeps_bytes : all_below 256 (λ b. all_below 8 (λ k. ltb (set_bit b k) 256)) ≡ true
unfolding all_below
keeps_bytes = refl

-- `b |= 0x80 >> k` sets bit `k` and leaves the others.
pub bit_of-bit_or :
    (b k j : ℕ)
    → b < 256
    → k < 8
    → j < 8
    → bit_of (bit_or b (0x80 / 2 ^ k)) j ≡ (if j == k then 1 else bit_of b j)
bit_of-bit_or b k j h hk hj = (==_iff _ _).0 (
    all_below_sound 8 (λ j. sets_bit b k j)
      (all_below_sound 8 (λ k. all_below 8 (λ j. sets_bit b k j))
        (all_below_sound 256 (λ b. all_below 8 (λ k. all_below 8 (λ j. sets_bit b k j)))
          sets_every_bit b h)
        k hk)
      j hj)

pub bit_or-byte : (b k : ℕ) → b < 256 → k < 8 → bit_or b (0x80 / 2 ^ k) < 256
bit_or-byte b k h hk = below (
    all_below_sound 8 (λ k. ltb (set_bit b k) 256)
      (all_below_sound 256 (λ b. all_below 8 (λ k. ltb (set_bit b k) 256)) keeps_bytes b h) k hk)
  where
    below : {a : ℕ} → ltb a 256 ≡ true → a < 256
    below e = ground arith
