-- ===== src/Transport/Backoff/Delays.antt =====
-- backoff.go: the delays, without the break in the loop.
use native.Mathlib.Numerals.{unary_clauses}
use native.Mathlib.Nat.{mul_assoc, mul_comm}
use brother_connect.Base.{
  ℕ, zero, suc, ◌*◌, ◌/◌, ◌^◌, ◌≤◌, ◌≡◌, refl, ap, ◌∙◌, min, ltb, leb, some, Bool-cases, inl, inr,
  if◌then◌else◌, arith,
}
use brother_connect.Transport.Backoff.{Backoff, default_backoff, grow, capped_delay, next_delay}

-- The delay after some doublings.
abbrev doubled : ℕ → ℕ → ℕ
doubled zero delay = delay
doubled (suc rounds) delay = doubled rounds (delay * 2)

doubled_grows : (rounds limit delay : ℕ) → limit ≤ delay → limit ≤ doubled rounds delay
doubled_grows zero limit delay le = le
doubled_grows (suc rounds) limit delay le =
    doubled_grows rounds limit (delay * 2) (omega (arith, le))

doubled_power : (rounds delay : ℕ) → doubled rounds delay ≡ delay * 2 ^ rounds
doubled_power zero delay = grind arith
doubled_power (suc rounds) delay = simp unary_clauses (
    doubled_power rounds (delay * 2)
    ∙ mul_assoc delay 2 (2 ^ rounds)
    ∙ ap (λ k. delay * k) (mul_comm 2 (2 ^ rounds)))

min-grow :
    (rounds limit delay : ℕ)
    → min (grow rounds limit delay) limit ≡ min (doubled rounds delay) limit
unfolding grow
min-grow zero limit delay = refl
min-grow (suc rounds) limit delay = elim (Bool-cases (leb limit (delay * 2))) [
  | inl t ↦
      let reached : limit ≤ delay * 2 = ground arith in
      rw t (omega (arith, doubled_grows rounds limit (delay * 2) reached))
  | inr f ↦ rw f (min-grow rounds limit (delay * 2))
]

capped_delay-min : (b : Backoff) → capped_delay b ≡ min (b.base * 2 ^ b.attempt) b.max
unfolding capped_delay
capped_delay-min b =
    is_min (grow b.attempt b.max b.base) b.max
    ∙ min-grow b.attempt b.max b.base
    ∙ ap (λ d. min d b.max) (doubled_power b.attempt b.base)
  where
    is_min : (d limit : ℕ) → (if ltb limit d then limit else d) ≡ min d limit
    is_min d limit = ground arith

-- The delays of `DefaultBackoff`, with a jitter that takes no more than what it is given: the delay
-- after n calls since a reset is half a second doubled n times, and 30 seconds at most, when there is
-- no jitter; with jitter it lies between half of that and the whole. The call is counted.
pub next_delay_lem :
    (n : ℕ) (j : ℕ → ℕ)
    → ((d : ℕ) → j d ≤ d)
    → ((next_delay (record default_backoff { attempt = n })).0
        ≡ min (500000000 * 2 ^ n) 30000000000)
      × (min (500000000 * 2 ^ n) 30000000000 / 2
          ≤ (next_delay (record default_backoff { attempt = n; jitter = some j })).0)
      × ((next_delay (record default_backoff { attempt = n; jitter = some j })).0
          ≤ min (500000000 * 2 ^ n) 30000000000)
      × ((next_delay (record default_backoff { attempt = n })).1.attempt ≡ suc n)
unfolding next_delay capped_delay
next_delay_lem n j small =
    let same = capped_delay-min (record default_backoff { attempt = n }) in
    (
      same,
      omega (arith, same),
      omega (arith, same, small (capped_delay (record default_backoff { attempt = n }) / 2)),
      refl,
    )
