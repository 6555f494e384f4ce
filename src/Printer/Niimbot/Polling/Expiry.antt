-- ===== src/Printer/Niimbot/Polling/Expiry.antt =====
-- niimbot.go: the expiry of devices, printer by printer.
use brother_connect.Base.{
  ◌≡◌, refl, sym, ap, ◌∙◌, false, Bool-cases, inl, inr, String, str_eq, str_eq_iff, none, some,
  List, [], ◌∷◌, lookup, insert, lookup-insert, ℤ, arith, if◌then◌else◌,
}
use brother_connect.Printer.Niimbot.Device.{Device}
use brother_connect.Printer.Niimbot.Polling.{aged, has_reached, expire_devices}

-- The keys of a map are listed once each.
abbrev pub AreUnique : {A : Type 0} → List (String × A) → Type 0
AreUnique [] = Unit {0}
AreUnique ((key, value) ∷ rest) = (lookup key rest ≡ none) × AreUnique rest

module _ {A : Type 0} where
  pub insert-AreUnique :
      (key : String) (value : A) (entries : List (String × A))
      → AreUnique entries
      → AreUnique (insert key value entries)
  unfolding insert lookup
  insert-AreUnique key value [] u = (refl, tt)
  insert-AreUnique key value ((name, old) ∷ rest) (fresh, u) = elim (Bool-cases (str_eq name key)) [
    | inl t ↦ rw t (ap (λ k. lookup k rest) (sym ((str_eq_iff name key).0 t)) ∙ fresh, u)
    | inr f ↦ rw f (
      ground (
        arith,
        lookup-insert key name value rest,
        str_eq_iff name key,
        str_eq_iff key name,
        fresh,
        f,
      ),
      insert-AreUnique key value rest u,
    )
  ]

module _ (seen : List String) (limit : ℤ) where
  pub lookup-expire_devices-none :
      (id : String) (entries : List (String × Device))
      → lookup id entries ≡ none
      → lookup id (expire_devices seen limit entries) ≡ none
  unfolding expire_devices lookup
  lookup-expire_devices-none id [] h = refl
  lookup-expire_devices-none id ((name, d) ∷ rest) h =
      ground (arith, lookup-expire_devices-none id rest)

  pub expire_devices-AreUnique :
      (entries : List (String × Device))
      → AreUnique entries
      → AreUnique (expire_devices seen limit entries)
  unfolding expire_devices
  expire_devices-AreUnique [] u = tt
  expire_devices-AreUnique ((name, d) ∷ rest) (fresh, u) =
      elim (Bool-cases (has_reached limit (aged seen d).missed)) [
        | inl t ↦ rw t (expire_devices-AreUnique rest u)
        | inr f ↦ rw f (lookup-expire_devices-none name rest fresh, expire_devices-AreUnique rest u)
      ]

  lookup-expire_devices-here :
      (name id : String) (d : Device) (rest : List (String × Device))
      → name ≡ id
      → lookup name rest ≡ none
      → lookup id (expire_devices seen limit ((name, d) ∷ rest))
        ≡ (if has_reached limit (aged seen d).missed then none else some (aged seen d))
  unfolding expire_devices lookup
  lookup-expire_devices-here name id d rest same fresh =
      elim (Bool-cases (has_reached limit (aged seen d).missed)) [
        | inl t ↦
            rw t (lookup-expire_devices-none id rest (ap (λ k. lookup k rest) (sym same) ∙ fresh))
        | inr f ↦ rw f (rw ((str_eq_iff name id).1 same) refl)
      ]

  lookup-expire_devices-there :
      (name id : String) (d : Device) (rest : List (String × Device))
      → str_eq name id ≡ false
      → lookup id (expire_devices seen limit ((name, d) ∷ rest))
        ≡ lookup id (expire_devices seen limit rest)
  unfolding expire_devices lookup
  lookup-expire_devices-there name id d rest other =
      elim (Bool-cases (has_reached limit (aged seen d).missed)) [
        | inl t ↦ rw t refl
        | inr f ↦ rw f (rw other refl)
      ]

  pub lookup-expire_devices :
      (id : String) (d : Device) (entries : List (String × Device))
      → AreUnique entries
      → lookup id entries ≡ some d
      → lookup id (expire_devices seen limit entries)
        ≡ (if has_reached limit (aged seen d).missed then none else some (aged seen d))
  unfolding expire_devices lookup
  lookup-expire_devices id d [] u h = absurd (cc h)
  lookup-expire_devices id d ((name, d') ∷ rest) (fresh, u) h = elim (Bool-cases (str_eq name id)) [
    | inl t ↦
        rw (← same (rw t at h))
          (lookup-expire_devices-here name id d' rest ((str_eq_iff name id).0 t) fresh)
    | inr f ↦
        lookup-expire_devices-there name id d' rest f
        ∙ lookup-expire_devices id d rest u (rw f at h)
  ]
    where
      same : some d' ≡ some d → d' ≡ d
      same e = cc e
