-- ===== src/Niimbot/Model/Lookup.antt =====
-- model.go: the look-up by device type.
use brother_connect.Base.{
  ℕ, ◌≡◌, ◌==◌, ==_iff, inl, inr, ◌↔◌, refl, true, Bool-cases, none, some, List, [], ◌∷◌, arith,
}
use brother_connect.Niimbot.Model.{Model, models, has_type, find_type, model_by_device_type}

pub data In {ℓ} {A : Type ℓ} (a : A) : List A → Type ℓ where
  here : {as_ : List A} → In a (a ∷ as_)
  there : {b : A} {as_ : List A} → In a as_ → In a (b ∷ as_)

has_type-In : (ds : List ℕ) (dt : ℕ) → has_type ds dt ≡ true → In dt ds
unfolding has_type
has_type-In [] dt e = absurd (ground arith)
has_type-In (d ∷ ds) dt e = elim (Bool-cases (d == dt)) [
  | inl t ↦ let same : d ≡ dt = (==_iff d dt).0 t in rw (← same) here
  | inr f ↦ there (has_type-In ds dt (ground arith))
]

find_type-In :
    (ms : List Model) (dt : ℕ) (m : Model)
    → find_type ms dt ≡ some m
    → In m ms × In dt m.device_types
unfolding find_type
find_type-In [] dt m e = absurd (no_some e)
  where
    no_some : none ≡ some m → ⊥
    no_some e = cc e
find_type-In (k ∷ ms) dt m e = elim (Bool-cases (has_type k.device_types dt)) [
  | inl t ↦ let same : k ≡ m = ground arith in rw (← same) (here, has_type-In k.device_types dt t)
  | inr f ↦ let (i, j) = find_type-In ms dt m (ground arith) in (there i, j)
]

In-model_by_device_type :
    (dt : ℕ) (m : Model) → In m models → In dt m.device_types → model_by_device_type dt ≡ some m
unfolding model_by_device_type find_type has_type
In-model_by_device_type dt m here here = refl
In-model_by_device_type dt m (there here) here = refl
In-model_by_device_type dt m (there (there here)) here = refl
In-model_by_device_type dt m (there (there here)) (there here) = refl
In-model_by_device_type dt m (there (there (there here))) here = refl
In-model_by_device_type dt m (there (there (there (there here)))) here = refl
In-model_by_device_type dt m (there (there (there (there (there here))))) here = refl
In-model_by_device_type dt m (there (there (there (there (there (there here)))))) here = refl
In-model_by_device_type dt _ here (there i) = elim i [ ]
In-model_by_device_type dt _ (there here) (there i) = elim i [ ]
In-model_by_device_type dt _ (there (there here)) (there (there i)) = elim i [ ]
In-model_by_device_type dt _ (there (there (there here))) (there i) = elim i [ ]
In-model_by_device_type dt _ (there (there (there (there here)))) (there i) = elim i [ ]
In-model_by_device_type dt _ (there (there (there (there (there here))))) (there i) = elim i [ ]
In-model_by_device_type dt _ (there (there (there (there (there (there here)))))) (there i) =
    elim i [ ]
In-model_by_device_type dt m (there (there (there (there (there (there (there i))))))) _ =
    elim i [ ]

-- The look-up by device type finds a model exactly if it is in the table and lists that type; no
-- type is listed twice.
pub model_by_device_type_iff :
    (dt : ℕ) (m : Model) → (model_by_device_type dt ≡ some m) ↔ (In m models × In dt m.device_types)
unfolding model_by_device_type
model_by_device_type_iff dt m =
    (find_type-In models dt m, λ i. In-model_by_device_type dt m i.0 i.1)
