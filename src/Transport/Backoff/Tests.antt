-- ===== src/Transport/Backoff/Tests.antt =====
-- backoff.go: the delays of `DefaultBackoff`.
use brother_connect.Base.{suc, ◌*◌, ◌/◌, ◌^◌, ◌≤◌, ◌≡◌, refl, min, some, arith}
use brother_connect.Transport.Backoff.{Backoff, default_backoff, next_delay, capped_delay, grow}
use brother_connect.Transport.Backoff.Delays.{next_delay_lem}

abbrev third : Backoff
third = record default_backoff { attempt = 2 }

third_delay : (next_delay third).0 ≡ 2000000000
unfolding next_delay capped_delay grow
third_delay = refl

next_delay_lem_example :
    ((next_delay (record default_backoff { attempt = 3 })).0 ≡ min (500000000 * 2 ^ 3) 30000000000)
    × (min (500000000 * 2 ^ 3) 30000000000 / 2
        ≤ (next_delay (record default_backoff { attempt = 3; jitter = some (λ d. d / 2) })).0)
    × ((next_delay (record default_backoff { attempt = 3; jitter = some (λ d. d / 2) })).0
        ≤ min (500000000 * 2 ^ 3) 30000000000)
    × ((next_delay (record default_backoff { attempt = 3 })).1.attempt ≡ suc 3)
next_delay_lem_example = next_delay_lem 3 (λ d. d / 2) (λ d. omega arith)
