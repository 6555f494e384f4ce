-- ===== src/Job/Validation/Tests.antt =====
-- job.go: the jobs of job_test.go.
use brother_connect.Base.{◌≡◌, refl, ◌↔◌, pos, negsuc, [], ◌∷◌, none, some}
use brother_connect.Job.Validation.{
  Job, validate, IsWellFormed, validate_iff, copies_below_one, invalid_dimensions,
}

abbrev valid_job : Job
valid_job = record {
  id = "job-1";
  tenant_id = "t1";
  user_id = "u1";
  printer_id = "p1";
  dimensions = record { width_mm = pos 50; height_mm = pos 70 };
  copies = pos 1;
  payload = 1 ∷ 2 ∷ [];
  created_at = 0;
  metadata = [];
}

no_copies : validate (record valid_job { copies = negsuc 0 }) ≡ some copies_below_one
unfolding validate
no_copies = refl

no_height :
    validate (record valid_job { dimensions = record { width_mm = pos 50; height_mm = pos 0 } })
    ≡ some invalid_dimensions
unfolding validate
no_height = refl

validate_iff_example : (validate valid_job ≡ none) ↔ IsWellFormed valid_job
validate_iff_example = validate_iff valid_job
