-- ===== src/Niimbot/Identify.antt =====
-- internal/niimbot/client.go: which model a client prints for. The text of a number, `%d`, is given.
mod Tests
use brother_connect.Base.{ℕ, Option, none, some, String, str_append, false}
use brother_connect.Niimbot.Client.{M, Result, ok, err, Link}
use brother_connect.Niimbot.Client.Replies.{info_int}
use brother_connect.Niimbot.Model.{Model, default_model, model_by_device_type}

-- `InfoDeviceType`
abbrev pub info_device_type : ℕ
info_device_type = 8

-- `DeviceType`
abbrev pub device_type : M ℕ
device_type = info_int info_device_type

-- `Model`; the fields `model` and `haveMdl` are an optional model.
abbrev pub current_model : Option Model → Model
current_model (some m) = m
current_model none = default_model

-- `SetModel`
abbrev pub set_model : Option Model → Model → Option Model
set_model old m = some m

module _ (decimal : ℕ → String) where
  abbrev pub or_unknown : ℕ → Option Model → Model
  or_unknown dt (some m) = m
  or_unknown dt none = record default_model {
    name = str_append "NIIMBOT type " (decimal dt);
    verified = false;
  }

  abbrev pub identified : Option Model → Result ℕ × Link → (Result Model × Option Model) × Link
  identified old (err e, l) = ((err e, old), l)
  identified old (ok dt, l) =
      let m = or_unknown dt (model_by_device_type dt) in ((ok m, set_model old m), l)

  -- `Identify`: the answer, and the client's model after it.
  unfoldable pub identify : Option Model → Link → (Result Model × Option Model) × Link
  identify old l = identified old (device_type l)
