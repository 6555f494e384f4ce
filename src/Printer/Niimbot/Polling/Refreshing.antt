-- ===== src/Printer/Niimbot/Polling/Refreshing.antt =====
-- niimbot.go: what the refresh of the statuses leaves as it was.
use brother_connect.Base.{
  ℕ, ◌≡◌, refl, sym, ap, ◌∙◌, Bool, true, false, Bool-cases, inl, inr, String, str_eq, str_eq_iff,
  Option, none, some, List, [], ◌∷◌, lookup, lookup-insert,
}
use brother_connect.Niimbot.Client.{Link}
use brother_connect.Printer.Types.{Status}
use brother_connect.Printer.Niimbot.Device.{Device, Backend, set_status, refreshed, probe_status}
use brother_connect.Printer.Niimbot.Polling.{if_probed, refresh}
use brother_connect.Printer.Niimbot.Polling.Expiry.{AreUnique, insert-AreUnique}
use brother_connect.Printer.Niimbot.Printing.Outcome.{lookup-set_status}

-- The backend knows the printer as a Bluetooth device at this address, missed so often.
abbrev pub HasMissed : String → String → ℕ → Backend → Type 0
HasMissed id address m b =
    (d : Device) × (lookup id b.devices ≡ some d)
    × (d.missed ≡ m)
    × (d.serial_path ≡ "")
    × (d.address ≡ address)

abbrev pub IsGone : String → Backend → Type 0
IsGone id b = lookup id b.devices ≡ none

-- The refresh changes no more of a device than its status and the time of its last check.
set_status-AreUnique :
    (id : String) (st : Status) (tells : Bool) (now : ℕ) (b : Backend)
    → AreUnique b.devices
    → AreUnique (set_status id st tells now b).devices
unfolding set_status
set_status-AreUnique id st tells now b u = by_lookup (lookup id b.devices)
  where
    by_lookup : (found : Option Device) → AreUnique (refreshed found id st tells now b).devices
    by_lookup none = u
    by_lookup (some d) = insert-AreUnique id _ b.devices u

lookup-set_status-other :
    (id id' : String) (st : Status) (tells : Bool) (now : ℕ) (b : Backend)
    → str_eq id' id ≡ false
    → lookup id (set_status id' st tells now b).devices ≡ lookup id b.devices
unfolding set_status
lookup-set_status-other id id' st tells now b f = by_lookup (lookup id' b.devices)
  where
    by_lookup :
        (found : Option Device)
        → lookup id (refreshed found id' st tells now b).devices ≡ lookup id b.devices
    by_lookup none = refl
    by_lookup (some d) = lookup-insert id' id _ b.devices ∙ rw f refl

set_status-IsGone :
    (id id' : String) (st : Status) (tells : Bool) (now : ℕ) (b : Backend)
    → IsGone id b
    → IsGone id (set_status id' st tells now b)
unfolding set_status
set_status-IsGone id id' st tells now b g = elim (Bool-cases (str_eq id' id)) [
  | inl t ↦
      ap (λ found. lookup id (refreshed found id' st tells now b).devices)
        (ap (λ key. lookup key b.devices) ((str_eq_iff id' id).0 t) ∙ g)
      ∙ g
  | inr f ↦ lookup-set_status-other id id' st tells now b f ∙ g
]

set_status-HasMissed :
    (id id' address : String) (m : ℕ) (st : Status) (tells : Bool) (now : ℕ) (b : Backend)
    → HasMissed id address m b
    → HasMissed id address m (set_status id' st tells now b)
set_status-HasMissed id id' address m st tells now b (d, h, n, p, a) =
    elim (Bool-cases (str_eq id' id)) [
      | inl t ↦ (
        _,
        ap (λ key. lookup key (set_status id' st tells now b).devices)
              (sym ((str_eq_iff id' id).0 t))
            ∙ lookup-set_status id' st tells now b d
                (ap (λ key. lookup key b.devices) ((str_eq_iff id' id).0 t) ∙ h),
        n,
        p,
        a,
      )
      | inr f ↦ (d, lookup-set_status-other id id' st tells now b f ∙ h, n, p, a)
    ]

if_probed-AreUnique :
    (st : Option Status) (id : String) (now : ℕ) (b : Backend)
    → AreUnique b.devices
    → AreUnique (if_probed st id now b).devices
if_probed-AreUnique none id now b u = u
if_probed-AreUnique (some st) id now b u = set_status-AreUnique id st true now b u

if_probed-IsGone :
    (id : String) (st : Option Status) (id' : String) (now : ℕ) (b : Backend)
    → IsGone id b
    → IsGone id (if_probed st id' now b)
if_probed-IsGone id none id' now b g = g
if_probed-IsGone id (some st) id' now b g = set_status-IsGone id id' st true now b g

if_probed-HasMissed :
    (id address : String) (m : ℕ) (st : Option Status) (id' : String) (now : ℕ) (b : Backend)
    → HasMissed id address m b
    → HasMissed id address m (if_probed st id' now b)
if_probed-HasMissed id address m none id' now b k = k
if_probed-HasMissed id address m (some st) id' now b k =
    set_status-HasMissed id id' address m st true now b k

module _ (attempts : String → Option Link × Option Link) (now : ℕ) where
  pub refresh-AreUnique :
      (ids : List String) (b : Backend)
      → AreUnique b.devices
      → AreUnique (refresh attempts now ids b).devices
  unfolding refresh
  refresh-AreUnique [] b u = u
  refresh-AreUnique (id ∷ more) b u =
      refresh-AreUnique more _
        (if_probed-AreUnique (probe_status (attempts id).0 (attempts id).1) id now b u)

  pub refresh-IsGone :
      (id : String) (ids : List String) (b : Backend)
      → IsGone id b
      → IsGone id (refresh attempts now ids b)
  unfolding refresh
  refresh-IsGone id [] b g = g
  refresh-IsGone id (id' ∷ more) b g =
      refresh-IsGone id more _
        (if_probed-IsGone id (probe_status (attempts id').0 (attempts id').1) id' now b g)

  pub refresh-HasMissed :
      (id address : String) (m : ℕ) (ids : List String) (b : Backend)
      → HasMissed id address m b
      → HasMissed id address m (refresh attempts now ids b)
  unfolding refresh
  refresh-HasMissed id address m [] b k = k
  refresh-HasMissed id address m (id' ∷ more) b k = refresh-HasMissed id address m more _ (
      if_probed-HasMissed id address m (probe_status (attempts id').0 (attempts id').1) id' now b k)
