-- ===== src/Niimbot/Identify/Tests.antt =====
-- client.go: a client that was never identified prints for the first model of the table.
use brother_connect.Base.{◌≡◌, refl, none}
use brother_connect.Niimbot.Model.{default_model}
use brother_connect.Niimbot.Identify.{current_model}

no_model : current_model none ≡ default_model
no_model = refl
