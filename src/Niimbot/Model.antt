-- ===== src/Niimbot/Model.antt =====
-- internal/niimbot/model.go: the printer models. Label types are their codes.
mod Lookup
mod Tests
use brother_connect.Base.{
  ℕ, ◌==◌, ◌||◌, Bool, true, false, Option, none, some, List, [], ◌∷◌, String, if◌then◌else◌,
}

-- `type Task int`
pub data Task : Type 0 where
  task_b1 task_b21_v1 task_d110 : Task

-- `type Model struct`
pub record Model : Type 0 where
  pub name : String
  pub device_types : List ℕ
  pub dpi : ℕ
  pub head_pixels : ℕ
  pub task : Task
  pub density_min : ℕ
  pub density_max : ℕ
  pub density_default : ℕ
  pub label_types : List ℕ
  pub verified : Bool

-- The models of 203 dots per inch and a head of 384 dots, with densities from 1 to 5.
abbrev wide : String → List ℕ → Task → List ℕ → Bool → Model
wide name device_types task label_types verified = record {
  name = name;
  device_types = device_types;
  dpi = 203;
  head_pixels = 384;
  task = task;
  density_min = 1;
  density_max = 5;
  density_default = 3;
  label_types = label_types;
  verified = verified;
}

abbrev b18 : Model
b18 = record {
  name = "B18";
  device_types = 3584 ∷ [];
  dpi = 203;
  head_pixels = 96;
  task = task_b1;
  density_min = 1;
  density_max = 3;
  density_default = 2;
  label_types = 1 ∷ 5 ∷ 10 ∷ 3 ∷ [];
  verified = false;
}

-- `DefaultModel`, the first of the table.
abbrev pub default_model : Model
default_model = wide "B1" (4096 ∷ []) task_b1 (1 ∷ 2 ∷ 5 ∷ []) true

-- `models`
abbrev pub models : List Model
models =
    default_model
    ∷ wide "B21" (768 ∷ []) task_b21_v1 (1 ∷ 2 ∷ 3 ∷ 5 ∷ []) false
    ∷ wide "B21_C2B" (771 ∷ 775 ∷ []) task_b1 (1 ∷ 3 ∷ 5 ∷ 2 ∷ []) false
    ∷ wide "B21_L2B" (769 ∷ []) task_b21_v1 (1 ∷ 2 ∷ 5 ∷ []) false
    ∷ wide "B21S" (777 ∷ []) task_d110 (1 ∷ 2 ∷ 3 ∷ 5 ∷ []) false
    ∷ wide "B21S_C2B" (776 ∷ []) task_d110 (1 ∷ 2 ∷ 5 ∷ []) false
    ∷ b18
    ∷ []

-- The inner loop of `ModelByDeviceType`.
unfoldable pub has_type : List ℕ → ℕ → Bool
has_type [] dt = false
has_type (d ∷ ds) dt = let later = has_type ds dt in if d == dt then true else later

-- Its outer loop.
unfoldable pub find_type : List Model → ℕ → Option Model
find_type [] dt = none
find_type (m ∷ ms) dt =
    let later = find_type ms dt in if has_type m.device_types dt then some m else later

-- `ModelByDeviceType`
unfoldable pub model_by_device_type : ℕ → Option Model
unfolding find_type
model_by_device_type dt = find_type models dt
