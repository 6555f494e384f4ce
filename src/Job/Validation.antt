-- ===== src/Job/Validation.antt =====
-- internal/job/job.go: a job and its structural validation. A length in millimetres is a whole
-- number of some small unit here: the code only compares it with 0 and passes it on. A time is a
-- number of nanoseconds.
mod Tests
use brother_connect.Base.{
  ℕ, ℤ, pos, ◌==◌, is_positive, length, Bool, true, false, not, ◌||◌, ◌≡◌, ◌≢◌, ◌↔◌, arith, String,
  str_eq, str_eq_iff, Option, none, some, List, [], if◌then◌else◌,
}

-- `type Dimensions struct`
pub record Dimensions : Type 0 where
  pub width_mm : ℤ
  pub height_mm : ℤ

-- `type Job struct`
pub record Job : Type 0 where
  pub id : String
  pub tenant_id : String
  pub user_id : String
  pub printer_id : String
  pub dimensions : Dimensions
  pub copies : ℤ
  pub payload : List ℕ
  pub created_at : ℕ
  pub metadata : List (String × String)

-- `ErrInvalidJob` with the message that `wrap` joins to it.
pub data InvalidJob : Type 0 where
  missing_id missing_tenant_id missing_printer_id copies_below_one empty_payload : InvalidJob
  invalid_dimensions : InvalidJob

-- `Job.Validate`: `none` is Go's nil.
unfoldable pub validate : Job → Option InvalidJob
validate j =
    if str_eq j.id ""
    then some missing_id
    else if str_eq j.tenant_id ""
    then some missing_tenant_id
    else if str_eq j.printer_id ""
    then some missing_printer_id
    else if not (is_positive j.copies)
    then some copies_below_one
    else if length j.payload == 0
    then some empty_payload
    else if not (is_positive j.dimensions.width_mm) || not (is_positive j.dimensions.height_mm)
    then some invalid_dimensions
    else none

-- The structure that a job must have.
pub record IsWellFormed (j : Job) : Type 0 where
  pub has_id : j.id ≢ ""
  pub has_tenant : j.tenant_id ≢ ""
  pub has_printer : j.printer_id ≢ ""
  pub has_copies : is_positive j.copies ≡ true
  pub has_payload : j.payload ≢ []
  pub has_width : is_positive j.dimensions.width_mm ≡ true
  pub has_height : is_positive j.dimensions.height_mm ≡ true

-- `Validate` accepts exactly the jobs with an id, a tenant, a printer, at least one copy, a
-- payload and a label of positive width and height.
pub validate_iff : (j : Job) → (validate j ≡ none) ↔ IsWellFormed j
unfolding validate
validate_iff j =
    ground (arith, str_eq_iff j.id "", str_eq_iff j.tenant_id "", str_eq_iff j.printer_id "")
