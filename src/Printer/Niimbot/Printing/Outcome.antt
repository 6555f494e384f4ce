-- ===== src/Printer/Niimbot/Printing/Outcome.antt =====
-- niimbot.go: what `Print` answers, against the status that the backend then gives for the printer.
use brother_connect.Base.{
  ℕ, ◌||◌, not, ◌≡◌, ◌⊎◌, inl, inr, Bool-cases, refl, ap, ◌∙◌, Bool, true, false, String, str_eq,
  str_eq_iff, Option, none, some, lookup, lookup-insert, is_positive, arith, if◌then◌else◌,
}
use mathlib.Core.Bool.{decide}
use brother_connect.Niimbot.Client.{Link, Result, ok, err, print_error}
use brother_connect.Niimbot.Client.Replies.{Heartbeat, heartbeat}
use brother_connect.Niimbot.Image.{EncodedImage}
use brother_connect.Niimbot.Print.{print_image}
use brother_connect.Printer.Types.{
  Status, ready, busy, out_of_media, wrong_media, cover_open, error, offline, is_printable,
  PrintOptions, PrintError, not_printable, unknown_printer, other,
}
use brother_connect.Printer.Niimbot.Device.{
  Device, Backend, open_link, status_from_heartbeat, set_status, refreshed, eq_status,
  Status-discrete,
}
use brother_connect.Printer.Niimbot.Printing.{
  Raster, undecodable, unfitting, raster, PrintFault, one_copy, status_of_code, after_printing,
  after_heartbeat, after_open, after_raster, after_lookup, print_label,
}

-- The status that the backend has for a printer, if it knows it.
abbrev pub status_if : Option Device → Option Status
status_if none = none
status_if (some d) = some d.printer.status

abbrev pub known_status : String → Backend → Option Status
known_status id b = status_if (lookup id b.devices)

-- The answer of `Print` and the status afterwards: after a success the printer is ready; an answer that
-- it cannot print names this printer and the very status that the backend now has for it; a printer is
-- unknown only if the backend does not know it; after any other error nothing was changed, or the
-- status is that of an error or of a printer that cannot be reached.
abbrev pub Agrees : String → Backend → Option PrintError × Backend → Type 0
Agrees id b (none, b') = known_status id b' ≡ some ready
Agrees id b (some (not_printable i st), b') =
    (i ≡ id) × (known_status id b' ≡ some st) × (is_printable st ≡ false)
Agrees id b (some (unknown_printer i), b') = (i ≡ id) × (b' ≡ b) × (known_status id b ≡ none)
Agrees id b (some (other text), b') =
    (b' ≡ b) ⊎ ((known_status id b' ≡ some error) ⊎ (known_status id b' ≡ some offline))

str_eq_refl : (s : String) → str_eq s s ≡ true
str_eq_refl s = (str_eq_iff s s).1 refl

abbrev IsKnown : String → Backend → Type 0
IsKnown id b = (d : Device) × (lookup id b.devices ≡ some d)

pub lookup-set_status :
    (id : String) (st : Status) (tells : Bool) (now : ℕ) (b : Backend) (d : Device)
    → lookup id b.devices ≡ some d
    → lookup id (set_status id st tells now b).devices
      ≡ some (record d { printer = record d.printer { status = st }; last_check = now })
unfolding set_status
lookup-set_status id st tells now b d h =
    ap (λ found. lookup id (refreshed found id st tells now b).devices) h
    ∙ lookup-insert id id after b.devices
    ∙ ap (λ same. if same then some after else lookup id b.devices) (str_eq_refl id)
  where
    after : Device
    after = record d { printer = record d.printer { status = st }; last_check = now }

set_status-IsKnown :
    (id : String) (st : Status) (tells : Bool) (now : ℕ) (b : Backend)
    → IsKnown id b
    → IsKnown id (set_status id st tells now b)
set_status-IsKnown id st tells now b (d, h) = (_, lookup-set_status id st tells now b d h)

known_status-set_status :
    (id : String) (st : Status) (tells : Bool) (now : ℕ) (b : Backend)
    → IsKnown id b
    → known_status id (set_status id st tells now b) ≡ some st
known_status-set_status id st tells now b (d, h) =
    ap (λ found. status_if found) (lookup-set_status id st tells now b d h)

status_of_code-unprintable : (code : ℕ) → is_printable (status_of_code code) ≡ false
unfolding status_of_code is_printable
status_of_code-unprintable code = ground arith

module _ (describe : PrintFault → String) (id : String) (began ended : ℕ) where
  by_code :
      (st : Status) (f : PrintFault) (b₀ b : Backend)
      → is_printable st ≡ false
      → IsKnown id b
      → Agrees id b₀ (
        if eq_status st error then some (other (describe f)) else some (not_printable id st),
        set_status id st false ended b,
      )
  unfolding eq_status Status-discrete decide is_printable
  by_code ready f b₀ b n k = absurd (cc n)
  by_code busy f b₀ b n k = (refl, known_status-set_status id busy false ended b k, refl)
  by_code out_of_media f b₀ b n k =
      (refl, known_status-set_status id out_of_media false ended b k, refl)
  by_code wrong_media f b₀ b n k =
      (refl, known_status-set_status id wrong_media false ended b k, refl)
  by_code cover_open f b₀ b n k =
      (refl, known_status-set_status id cover_open false ended b k, refl)
  by_code error f b₀ b n k = inr (inl (known_status-set_status id error false ended b k))
  by_code offline f b₀ b n k = (refl, known_status-set_status id offline false ended b k, refl)

  after_printing-Agrees :
      (r : Result (Unit {0})) (b₀ b : Backend)
      → IsKnown id b
      → Agrees id b₀ (after_printing describe id began ended r b)
  after_printing-Agrees (ok u) b₀ b k = known_status-set_status id ready false ended b k
  after_printing-Agrees (err (print_error code)) b₀ b k =
      by_code (status_of_code code) _ b₀ b (status_of_code-unprintable code) k
  after_printing-Agrees (err e) b₀ b k =
      inr (inl (known_status-set_status id error false ended b k))

  after_heartbeat-Agrees :
      (enc : EncodedImage) (d : Device) (answer : Result Heartbeat × Link) (b : Backend)
      → IsKnown id b
      → Agrees id b (after_heartbeat describe id began ended enc d answer b)
  after_heartbeat-Agrees enc d (err e, l) b k =
      inr (inr (known_status-set_status id offline false began b k))
  after_heartbeat-Agrees enc d (ok hb, l) b k =
      elim (Bool-cases (is_printable (status_from_heartbeat hb))) [
        | inl t ↦ rw t (
            after_printing-Agrees (print_image d.model enc one_copy l).0 b
              (set_status id busy false began b) (set_status-IsKnown id busy false began b k))
        | inr f ↦
            rw f (refl, known_status-set_status id (status_from_heartbeat hb) false began b k, f)
      ]

  after_raster-Agrees :
      (document : Raster) (d : Device) (first second : Option Link) (b : Backend)
      → IsKnown id b
      → Agrees id b (after_raster describe id began ended document d first second b)
  after_raster-Agrees undecodable d first second b k = inl refl
  after_raster-Agrees unfitting d first second b k = inl refl
  after_raster-Agrees (raster enc) d first second b k = by_link (open_link first second)
    where
      by_link : (l : Option Link) → Agrees id b (after_open describe id began ended enc d l b)
      by_link none = inr (inr (known_status-set_status id offline false began b k))
      by_link (some l) = after_heartbeat-Agrees enc d (heartbeat l) b k

  -- What `Print` answers and the status that the backend then gives agree: after a success the printer
  -- is ready; an answer that it cannot print names this printer and the status that the backend now has
  -- for it, which is not one for printing; a printer is unknown only if the backend does not know it,
  -- and then nothing changes; after any other error nothing has changed, or the status is that of an
  -- error or of a printer that is offline.
  pub print_label-Agrees :
      (document : Raster) (opts : PrintOptions) (first second : Option Link) (b : Backend)
      → Agrees id b (print_label describe id began ended document opts first second b)
  unfolding print_label
  print_label-Agrees document opts first second b =
      by_lookup (lookup id b.devices) refl
        (Bool-cases (not (is_positive opts.width_mm) || not (is_positive opts.height_mm)))
    where
      by_lookup :
          (found : Option Device)
          → lookup id b.devices ≡ found
          → ((not (is_positive opts.width_mm) || not (is_positive opts.height_mm)) ≡ true)
            ⊎ ((not (is_positive opts.width_mm) || not (is_positive opts.height_mm)) ≡ false)
          → Agrees id b (after_lookup describe id began ended found document opts first second b)
      by_lookup none h sizes = (refl, refl, ap (λ found. status_if found) h)
      by_lookup (some d) h (inl t) = rw t (inl refl)
      by_lookup (some d) h (inr f) = rw f (after_raster-Agrees document d first second b (d, h))
