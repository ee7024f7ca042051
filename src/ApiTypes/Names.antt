-- ===== src/ApiTypes/Names.antt =====
-- The names of api_types.h read back.
use c_tests_runner.Base.{String, ◌≡◌, refl, arith}
use c_tests_runner.Base.Result.{ok, is_ok}
use c_tests_runner.ApiTypes.{
  TestMode, correctness, performance, all, test_mode_to_string, test_mode_from_string,
  is_valid_test_mode, JobStatus, queued, building, running, completed, failed, cancelled,
  job_status_to_string, job_status_from_string,
}
use text.Mathlib.TextEquality.{eq_iff}

test_mode_back : (m : TestMode) → test_mode_from_string (test_mode_to_string m) ≡ ok m
unfolding test_mode_to_string test_mode_from_string
test_mode_back correctness = refl
test_mode_back performance = refl
test_mode_back all = refl

test_mode_inverse :
    (s : String) (m : TestMode) → test_mode_from_string s ≡ ok m → test_mode_to_string m ≡ s
unfolding test_mode_to_string test_mode_from_string
test_mode_inverse s m h =
    ground (arith, eq_iff s "correctness", eq_iff s "performance", eq_iff s "all")

-- Every test mode reads back from its name; a text that reads as a mode is the name of that mode;
-- and a text reads as some mode exactly when `is_valid_test_mode` accepts it.
test_mode_names :
    ((m : TestMode) → test_mode_from_string (test_mode_to_string m) ≡ ok m)
    × ((s : String) (m : TestMode) → test_mode_from_string s ≡ ok m → test_mode_to_string m ≡ s)
    × ((s : String) → is_valid_test_mode s ≡ is_ok (test_mode_from_string s))
unfolding test_mode_from_string is_valid_test_mode
test_mode_names = (test_mode_back, test_mode_inverse, λ s. ground arith)

job_status_back : (m : JobStatus) → job_status_from_string (job_status_to_string m) ≡ ok m
unfolding job_status_to_string job_status_from_string
job_status_back queued = refl
job_status_back building = refl
job_status_back running = refl
job_status_back completed = refl
job_status_back failed = refl
job_status_back cancelled = refl

job_status_inverse :
    (s : String) (m : JobStatus) → job_status_from_string s ≡ ok m → job_status_to_string m ≡ s
unfolding job_status_to_string job_status_from_string
job_status_inverse s m h = ground (
  arith,
  eq_iff s "queued",
  eq_iff s "building",
  eq_iff s "running",
  eq_iff s "completed",
  eq_iff s "failed",
  eq_iff s "cancelled",
)

-- Every job status reads back from its name, and a text that reads as a status is its name.
job_status_names :
    ((m : JobStatus) → job_status_from_string (job_status_to_string m) ≡ ok m)
    × ((s : String) (m : JobStatus) → job_status_from_string s ≡ ok m → job_status_to_string m ≡ s)
job_status_names = (job_status_back, job_status_inverse)
