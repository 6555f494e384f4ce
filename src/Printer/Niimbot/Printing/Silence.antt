-- ===== src/Printer/Niimbot/Printing/Silence.antt =====
-- niimbot.go: `Print` sends no event, and what that means for the refresh after it.
use brother_connect.Base.{
  ℕ, ◌||◌, not, ◌≡◌, refl, ◌∙◌, Bool, true, false, Bool-cases, inl, inr, ◌&&◌, String, Option, none,
  some, append-nil, lookup, is_positive,
}
use mathlib.Core.Bool.{decide}
use brother_connect.Niimbot.Client.{Link, Result, ok, err, print_error}
use brother_connect.Niimbot.Client.Replies.{Heartbeat, heartbeat}
use brother_connect.Niimbot.Image.{EncodedImage}
use brother_connect.Niimbot.Print.{print_image}
use brother_connect.Printer.Types.{
  Status, ready, busy, out_of_media, wrong_media, cover_open, error, offline, is_printable,
  PrintOptions,
}
use brother_connect.Printer.Niimbot.Device.{
  Device, Backend, open_link, status_from_heartbeat, set_status, refreshed, eq_status,
  Status-discrete,
}
use brother_connect.Printer.Niimbot.Printing.{
  Raster, undecodable, unfitting, raster, PrintFault, one_copy, after_printing, after_heartbeat,
  after_open, after_raster, after_lookup, print_label,
}
use brother_connect.Printer.Niimbot.Printing.Outcome.{known_status, status_if}

abbrev eq_status_of : Option Device → Status → Bool
eq_status_of none st = true
eq_status_of (some d) st = eq_status d.printer.status st

-- A change that is not told, or no change, makes no event.
refreshed-silent :
    (found : Option Device) (id : String) (st : Status) (tells : Bool) (now : ℕ) (b : Backend)
    → (not (eq_status_of found st) && tells) ≡ false
    → (refreshed found id st tells now b).emitted_events ≡ b.emitted_events
refreshed-silent none id st tells now b e = refl
refreshed-silent (some d) id st tells now b e = rw e (append-nil b.emitted_events)

eq_status_refl : (st : Status) → eq_status st st ≡ true
unfolding eq_status Status-discrete decide
eq_status_refl ready = refl
eq_status_refl busy = refl
eq_status_refl out_of_media = refl
eq_status_refl wrong_media = refl
eq_status_refl cover_open = refl
eq_status_refl error = refl
eq_status_refl offline = refl

and_false : (t : Bool) → (t && false) ≡ false
and_false true = refl
and_false false = refl

module _ (describe : PrintFault → String) (id : String) (began ended : ℕ) where
  abbrev IsSilent : Backend → Backend → Type 0
  IsSilent b b' = b'.emitted_events ≡ b.emitted_events

  set_status-IsSilent :
      (st : Status) (now : ℕ) (b : Backend) → IsSilent b (set_status id st false now b)
  unfolding set_status
  set_status-IsSilent st now b =
      refreshed-silent (lookup id b.devices) id st false now b
        (and_false (not (eq_status_of (lookup id b.devices) st)))

  after_printing-IsSilent :
      (r : Result (Unit {0})) (b : Backend)
      → IsSilent b (after_printing describe id began ended r b).1
  after_printing-IsSilent (ok u) b = set_status-IsSilent ready ended b
  after_printing-IsSilent (err (print_error code)) b = set_status-IsSilent _ ended b
  after_printing-IsSilent (err e) b = set_status-IsSilent error ended b

  after_heartbeat-IsSilent :
      (enc : EncodedImage) (d : Device) (answer : Result Heartbeat × Link) (b : Backend)
      → IsSilent b (after_heartbeat describe id began ended enc d answer b).1
  after_heartbeat-IsSilent enc d (err e, l) b = set_status-IsSilent offline began b
  after_heartbeat-IsSilent enc d (ok hb, l) b =
      elim (Bool-cases (is_printable (status_from_heartbeat hb))) [
        | inl t ↦ rw t (
            after_printing-IsSilent (print_image d.model enc one_copy l).0
              (set_status id busy false began b)
            ∙ set_status-IsSilent busy began b)
        | inr f ↦ rw f (set_status-IsSilent (status_from_heartbeat hb) began b)
      ]

  after_raster-IsSilent :
      (document : Raster) (d : Device) (first second : Option Link) (b : Backend)
      → IsSilent b (after_raster describe id began ended document d first second b).1
  after_raster-IsSilent undecodable d first second b = refl
  after_raster-IsSilent unfitting d first second b = refl
  after_raster-IsSilent (raster enc) d first second b = by_link (open_link first second)
    where
      by_link : (l : Option Link) → IsSilent b (after_open describe id began ended enc d l b).1
      by_link none = set_status-IsSilent offline began b
      by_link (some l) = after_heartbeat-IsSilent enc d (heartbeat l) b

  print_label-IsSilent :
      (document : Raster) (opts : PrintOptions) (first second : Option Link) (b : Backend)
      → IsSilent b (print_label describe id began ended document opts first second b).1
  unfolding print_label
  print_label-IsSilent document opts first second b = by_lookup (lookup id b.devices)
    where
      by_lookup :
          (found : Option Device)
          → IsSilent b (after_lookup describe id began ended found document opts first second b).1
      by_lookup none = refl
      by_lookup (some d) =
          elim (Bool-cases (not (is_positive opts.width_mm) || not (is_positive opts.height_mm))) [
            | inl t ↦ rw t refl
            | inr f ↦ rw f (after_raster-IsSilent document d first second b)
          ]

  set_status-same :
      (st : Status) (now : ℕ) (b : Backend)
      → known_status id b ≡ some st
      → IsSilent b (set_status id st true now b)
  unfolding set_status
  set_status-same st now b k = by_lookup (lookup id b.devices) k
    where
      by_lookup :
          (found : Option Device)
          → status_if found ≡ some st
          → IsSilent b (refreshed found id st true now b)
      by_lookup none e = refl
      by_lookup (some d) e =
          refreshed-silent (some d) id st true now b
            (rw (the_status d.printer.status e, eq_status_refl st) refl)
        where
          the_status : (s : Status) → some s ≡ some st → s ≡ st
          the_status s e = cc e

  -- `Print` has sent no event when it returns. If a refresh then finds the printer in the status that
  -- the backend has for it since the print, it sends no event either.
  pub print_label-unheard :
      (document : Raster) (opts : PrintOptions) (first second : Option Link) (b : Backend)
      (st : Status) (now : ℕ)
      → known_status id (print_label describe id began ended document opts first second b).1
        ≡ some st
      → let b' = (print_label describe id began ended document opts first second b).1 in
        (b'.emitted_events ≡ b.emitted_events)
        × ((set_status id st true now b').emitted_events ≡ b.emitted_events)
  print_label-unheard document opts first second b st now k =
      let silent = print_label-IsSilent document opts first second b in
      (silent, set_status-same st now _ k ∙ silent)
