-- ===== src/Printer/Niimbot/Polling/Absence.antt =====
-- niimbot.go: a Bluetooth printer that is not seen any more.
use brother_connect.Base.{
  ℕ, suc, ◌+◌, ◌<◌, ltb, leb, ◌≡◌, refl, ap, ◌∙◌, Bool, true, false, Bool-cases, inl, inr, String,
  str_eq, Option, none, some, List, [], ◌∷◌, lookup, length, All, pos, arith, if◌then◌else◌,
}
use brother_connect.Printer.Niimbot.Device.{Device, Backend, known_by_address}
use brother_connect.Printer.Niimbot.Polling.{
  NiimbotOptions, Identity, Surroundings, contains_text, after_identify, if_unknown, probe_ports,
  take_found, aged, has_reached, expire_devices, settle, poll,
}
use brother_connect.Printer.Niimbot.Polling.Expiry.{
  AreUnique, expire_devices-AreUnique, lookup-expire_devices, lookup-expire_devices-none,
}
use brother_connect.Printer.Niimbot.Polling.Refreshing.{
  HasMissed, IsGone, refresh-AreUnique, refresh-IsGone, refresh-HasMissed,
}

-- The scan finds no device at the address, and none of those that it finds is newly identified.
abbrev pub Unseen : String → Surroundings → Type 0
Unseen address s =
    (s.is_link_busy ≡ false)
    × All (λ (f : String × Option Identity). (str_eq f.0 address ≡ false) × (f.1 ≡ none)) s.found

abbrev pub NotAmong : String → List String × Backend → Backend → Type 0
NotAmong address acc b = (contains_text acc.0 address ≡ false) × (acc.1 ≡ b)

if_unknown-unidentified :
    (known : Option String) (identity : Option Identity) (address : String) (now : ℕ)
    (seen : List String) (b : Backend)
    → identity ≡ none
    → if_unknown known address (after_identify identity address "" true now seen b) seen b
      ≡ (address ∷ seen, b)
if_unknown-unidentified none identity address now seen b e = rw e refl
if_unknown-unidentified (some id) identity address now seen b e = refl

NotAmong-step :
    (address : String) (now : ℕ) (more : List (String × Option Identity))
    (acc acc' : List String × Backend) (b : Backend)
    → acc ≡ acc'
    → NotAmong address (take_found now more acc') b
    → NotAmong address (take_found now more acc) b
NotAmong-step address now more acc acc' b e k = rw e k

take_found-NotAmong :
    (address : String) (now : ℕ) (found : List (String × Option Identity)) (seen : List String)
    (b : Backend)
    → All (λ (f : String × Option Identity). (str_eq f.0 address ≡ false) × (f.1 ≡ none)) found
    → contains_text seen address ≡ false
    → NotAmong address (take_found now found (seen, b)) b
unfolding take_found contains_text
take_found-NotAmong address now [] seen b a c = (c, refl)
take_found-NotAmong address now ((other, identity) ∷ more) seen b ((f, e), a) c =
    NotAmong-step address now more _ (other ∷ seen, b) b
      (if_unknown-unidentified (known_by_address b other) identity other now seen b e)
      (take_found-NotAmong address now more (other ∷ seen) b a (rw f c))

aged-unseen :
    (seen : List String) (d : Device)
    → contains_text seen d.address ≡ false
    → d.serial_path ≡ ""
    → aged seen d ≡ record d { missed = suc d.missed }
unfolding aged
aged-unseen seen d c p = rw (c, p) refl

module _ (o : NiimbotOptions) (limit : ℕ) (id address : String) where
  -- After a cycle that does not see the printer, it has been missed once more, and is gone if that is
  -- often enough.
  abbrev pub Later : ℕ → Backend → Type 0
  Later m b = if leb limit m then IsGone id b else HasMissed id address m b

  settle-Later :
      (s : Surroundings) (now m : ℕ) (seen : List String) (b : Backend)
      → o.missed_scans ≡ pos limit
      → contains_text seen address ≡ false
      → AreUnique b.devices
      → HasMissed id address m b
      → Later (suc m) (settle o s now (seen, b))
  settle-Later s now m seen b l unseen u (d, h, n, p, a) = elim (Bool-cases (leb limit (suc m))) [
    | inl t ↦ rw t (refresh-IsGone s.attempts now id _ _ (expired ∙ rw (l, older, n, t) refl))
    | inr f ↦ rw f (
        refresh-HasMissed s.attempts now id address (suc m) _ _ (
          aged seen d,
          expired ∙ rw (l, older, n, f) refl,
          rw (older, n) refl,
          rw older p,
          rw older a,
        ))
  ]
    where
      older : aged seen d ≡ record d { missed = suc d.missed }
      older = aged-unseen seen d (rw a unseen) p

      expired :
          lookup id (expire_devices seen o.missed_scans b.devices)
          ≡ (if has_reached o.missed_scans (aged seen d).missed then none else some (aged seen d))
      expired = lookup-expire_devices seen o.missed_scans id d b.devices u h

  settle-IsGone :
      (s : Surroundings) (now : ℕ) (seen : List String) (b : Backend)
      → IsGone id b
      → IsGone id (settle o s now (seen, b))
  settle-IsGone s now seen b g =
      refresh-IsGone s.attempts now id _ _
        (lookup-expire_devices-none seen o.missed_scans id b.devices g)

  settle-AreUnique :
      (s : Surroundings) (now : ℕ) (seen : List String) (b : Backend)
      → AreUnique b.devices
      → AreUnique (settle o s now (seen, b)).devices
  settle-AreUnique s now seen b u =
      refresh-AreUnique s.attempts now _ _
        (expire_devices-AreUnique seen o.missed_scans b.devices u)

abbrev pub is_found : Option Device → Bool
is_found none = false
is_found (some d) = true

abbrev pub is_known : String → Backend → Bool
is_known id b = is_found (lookup id b.devices)

-- Some cycles, with the time of each.
unfoldable pub poll_all : NiimbotOptions → List (Surroundings × ℕ) → Backend → Backend
poll_all o [] b = b
poll_all o ((s, now) ∷ more) b = poll_all o more (poll o s now b)

abbrev pub AllUnseen : String → List (Surroundings × ℕ) → Type 0
AllUnseen address polls = All (λ (cycle : Surroundings × ℕ). Unseen address cycle.0) polls

module _ (o : NiimbotOptions) (limit : ℕ) (id address : String) where
  poll-settles :
      (s : Surroundings) (now : ℕ) (b : Backend)
      → o.serial_ports ≡ []
      → Unseen address s
      → (seen : List String) × (contains_text seen address ≡ false)
        × (poll o s now b ≡ settle o s now (seen, b))
  unfolding poll probe_ports contains_text
  poll-settles s now b ports (idle, unseen) = elim (Bool-cases o.disable_ble) [
    | inl t ↦ ([], refl, rw (idle, ports, t) refl)
    | inr f ↦
        let (among, same) = take_found-NotAmong address now s.found [] b unseen refl in
        (
          (take_found now s.found ([], b)).0,
          among,
          rw (idle, ports, f)
              (ap (λ b'. settle o s now ((take_found now s.found ([], b)).0, b')) same),
        )
  ]

  poll_all-cons :
      (s : Surroundings) (now : ℕ) (more : List (Surroundings × ℕ)) (b b' : Backend)
      → poll o s now b ≡ b'
      → poll_all o ((s, now) ∷ more) b ≡ poll_all o more b'
  unfolding poll_all
  poll_all-cons s now more b b' e = ap (λ c. poll_all o more c) e

  poll_all-IsGone :
      (polls : List (Surroundings × ℕ)) (b : Backend)
      → o.serial_ports ≡ []
      → AllUnseen address polls
      → IsGone id b
      → IsGone id (poll_all o polls b)
  unfolding poll_all
  poll_all-IsGone [] b ports a g = g
  poll_all-IsGone ((s, now) ∷ more) b ports (unseen, a) g =
      let (seen, _, settled) = poll-settles s now b ports unseen in
      ap (λ c. lookup id c.devices) (poll_all-cons s now more b (settle o s now (seen, b)) settled)
      ∙ poll_all-IsGone more (settle o s now (seen, b)) ports a
          (settle-IsGone o limit id address s now seen b g)

  is_known-IsGone : (b : Backend) → IsGone id b → is_known id b ≡ false
  is_known-IsGone b g = ap (λ found. is_found found) g

  -- For a backend that looks for Bluetooth devices only, and gives a printer up after `limit` cycles: a
  -- Bluetooth printer that it knows, and has missed fewer times than that, is still known after some
  -- cycles that neither see it nor identify a new device, nor find the link in use, exactly if the
  -- misses, with these, are fewer than the limit.
  pub poll_all-absent :
      (polls : List (Surroundings × ℕ)) (m : ℕ) (b : Backend)
      → o.serial_ports ≡ []
      → o.missed_scans ≡ pos limit
      → AllUnseen address polls
      → AreUnique b.devices
      → HasMissed id address m b
      → m < limit
      → is_known id (poll_all o polls b) ≡ ltb (m + length polls) limit
  unfolding poll_all
  poll_all-absent [] m b ports l a u (d, h, _, _, _) lt =
      ap (λ found. is_found found) h ∙ ground (arith, lt)
  poll_all-absent ((s, now) ∷ more) m b ports l (unseen, a) u k lt =
      let (seen, among, settled) = poll-settles s now b ports unseen in
      let b' = settle o s now (seen, b) in
      let later = settle-Later o limit id address s now m seen b l among u k in
      ap (λ c. is_known id c) (poll_all-cons s now more b b' settled)
      ∙ elim (Bool-cases (leb limit (suc m))) [
        | inl t ↦
            is_known-IsGone (poll_all o more b') (poll_all-IsGone more b' ports a (rw t at later))
            ∙ ground (arith, t)
        | inr f ↦
            poll_all-absent more (suc m) b' ports l a
              (settle-AreUnique o limit id address s now seen b u) (rw f at later)
              (ground (arith, f))
            ∙ ap (λ n. ltb n limit) (omega arith)
      ]
