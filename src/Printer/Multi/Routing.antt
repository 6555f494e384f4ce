-- ===== src/Printer/Multi/Routing.antt =====
-- multi.go: to which driver a call goes.
use brother_connect.Base.{
  ℕ, if◌then◌else◌, ◌≡◌, refl, ap, Option, none, some, List, [], ◌∷◌, String,
}
use brother_connect.Printer.Types.{Printer, PrintOptions}
use brother_connect.Printer.Multi.{
  Driver, Ownership, owns, not_owns, no_owner, keep_first, by_ownership, resolve_loop, or_first,
  resolve, status_of, status_by, print_routed, print_by, loaded_media_of, media_by, register_routed,
  registrar_of,
}

-- The driver is the first one with this ownership of the printer.
pub data IsFirst (id : String) (o : Ownership) (d : Driver) : List Driver → Type 0 where
  now : {ds : List Driver} → d.ownership id ≡ o → IsFirst id o d (d ∷ ds)
  later :
      {e : Driver} {ds : List Driver}
      → (e.ownership id ≡ o → ⊥)
      → IsFirst id o d ds
      → IsFirst id o d (e ∷ ds)

resolve_loop-owns :
    (id : String) (d : Driver) (ds : List Driver) (fallback : Option Driver)
    → IsFirst id owns d ds
    → resolve_loop id ds fallback ≡ some d
unfolding resolve_loop
resolve_loop-owns id d [] fallback f = elim f [ ]
resolve_loop-owns id d (d' ∷ ds) fallback (now o) = rw o refl
resolve_loop-owns id d (e ∷ ds) fallback (later other f) =
    by_case (e.ownership id) refl (resolve_loop-owns id d ds (keep_first fallback e) f)
      (resolve_loop-owns id d ds fallback f)
  where
    by_case :
        (o : Ownership)
        → e.ownership id ≡ o
        → resolve_loop id ds (keep_first fallback e) ≡ some d
        → resolve_loop id ds fallback ≡ some d
        → by_ownership o
            (some e)
            (resolve_loop id ds (keep_first fallback e))
            (resolve_loop id ds fallback)
          ≡ some d
    by_case owns q a b = absurd (other q)
    by_case not_owns q a b = b
    by_case no_owner q a b = a

resolve-owner :
    (id : String) (d : Driver) (ds : List Driver) → IsFirst id owns d ds → resolve ds id ≡ some d
unfolding resolve
resolve-owner id d ds f = ap (λ found. or_first found ds) (resolve_loop-owns id d ds none f)

-- The calls for a printer that a driver owns go to the first driver that owns it, wherever it
-- stands among the drivers and whatever the fall-back would be: its status, its media and the answer to
-- a print are those of that driver, and only it can be told of the printer.
pub routed-owner :
    (p : Printer) (d : Driver) (ds : List Driver) (document : List ℕ) (opts : PrintOptions)
    → IsFirst p.id owns d ds
    → (status_of ds p.id ≡ d.status p.id)
      × (print_routed ds p.id document opts ≡ d.print_answer p.id document opts)
      × (loaded_media_of ds p.id ≡ d.media p.id)
      × (register_routed ds p ≡ (if d.takes_registrations then some d else none))
unfolding status_of print_routed loaded_media_of register_routed
routed-owner p d ds document opts f =
    let found = resolve-owner p.id d ds f in
    (
      ap (λ r. status_by p.id r) found,
      ap (λ r. print_by p.id document opts r) found,
      ap (λ r. media_by p.id r) found,
      ap (λ r. registrar_of r) found,
    )
