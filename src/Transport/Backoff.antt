-- ===== src/Transport/Backoff.antt =====
-- internal/transport/backoff.go: the delay before a reconnection, in nanoseconds. `Factor` is 2.0, as
-- in `DefaultBackoff`, which is the only one that the repository makes outside its tests; another
-- factor is not modelled. The delay of the code is a float64, and so is the maximum that it meets:
-- both are exact for a base and a maximum below 2 ^ 53, and doubling a float64 is exact, so that the
-- numbers here are the same. The jitter is what `Jitter` makes of half a delay.
pub mod Delays
mod Tests
use brother_connect.Base.{ℕ, zero, suc, ◌+◌, ◌*◌, ◌/◌, ltb, leb, Option, none, some, if◌then◌else◌}

-- `type Backoff struct`
pub record Backoff : Type 0 where
  pub base : ℕ
  pub max : ℕ
  pub jitter : Option (ℕ → ℕ)
  pub attempt : ℕ

-- The `Factor` of `DefaultBackoff`.
abbrev pub factor : ℕ
factor = 2

-- `DefaultBackoff`
abbrev pub default_backoff : Backoff
default_backoff = record { base = 500000000; max = 30000000000; jitter = none; attempt = 0 }

-- `Reset`
unfoldable pub reset_backoff : Backoff → Backoff
reset_backoff b = record b { attempt = 0 }

-- The loop of `Next` with the rounds that are left; it breaks at the maximum.
unfoldable pub grow : ℕ → ℕ → ℕ → ℕ
grow zero limit delay = delay
grow (suc rounds) limit delay =
    let later = grow rounds limit (delay * factor) in
    if leb limit (delay * factor) then limit else later

abbrev pub with_jitter : Option (ℕ → ℕ) → ℕ → ℕ
with_jitter none d = d
with_jitter (some j) d = d / 2 + j (d / 2)

-- The delay that `Next` has before the jitter.
unfoldable pub capped_delay : Backoff → ℕ
capped_delay b = let delay = grow b.attempt b.max b.base in if ltb b.max delay then b.max else delay

-- `Next`: the delay, and the backoff after the call.
unfoldable pub next_delay : Backoff → ℕ × Backoff
next_delay b = (with_jitter b.jitter (capped_delay b), record b { attempt = suc b.attempt })
