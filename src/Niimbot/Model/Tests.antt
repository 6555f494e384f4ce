-- ===== src/Niimbot/Model/Tests.antt =====
-- model.go: the look-up of a B1.
use brother_connect.Base.{◌≡◌, ◌↔◌, some}
use brother_connect.Niimbot.Model.{default_model, models, model_by_device_type}
use brother_connect.Niimbot.Model.Lookup.{In, model_by_device_type_iff}

model_by_device_type_iff_run :
    (model_by_device_type 4096 ≡ some default_model)
    ↔ (In default_model models × In 4096 default_model.device_types)
model_by_device_type_iff_run = model_by_device_type_iff 4096 default_model
