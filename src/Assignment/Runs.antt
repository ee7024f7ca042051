-- ===== src/Assignment/Runs.antt =====
-- The configuration of an assignment for two frameworks that lists no packages.
use c_tests_runner.Base.{◌≡◌, refl, none, some, [], ◌∷◌}
use c_tests_runner.Base.Int.{pos}
use c_tests_runner.Base.Result.{ok}
use c_tests_runner.Assignment.{
  integer, other, ConfigFile, packages_of, append_unique, append_packages, default_allowed_packages,
  read_cap, load,
}
use c_tests_runner.Assignment.Packages.{IsChosen, load-IsChosen}

abbrev two_frameworks : ConfigFile
two_frameworks = record {
  name = some (ok "sorting");
  mode = none;
  correctness_mode = none;
  allowed_frameworks = some (ok ("openmp" ∷ "cilk" ∷ "openmp" ∷ []));
  allowed_packages = none;
  threads = some (integer (pos 4));
  memory_limit_mb = some other;
  wall_time_sec = none;
  cpu_time_sec = none;
  max_processes = none;
  warmup_iterations = none;
}

load-IsChosen_example : IsChosen (some (ok two_frameworks)) (load (some (ok two_frameworks)))
load-IsChosen_example = load-IsChosen (some (ok two_frameworks))

two_frameworks_packages :
    (load (some (ok two_frameworks))).allowed_packages ≡ "OpenMP" ∷ "parallel_lib" ∷ "Cilk" ∷ []
unfolding load default_allowed_packages append_packages append_unique packages_of
two_frameworks_packages = refl

two_frameworks_threads :
    ((load (some (ok two_frameworks))).threads ≡ some (pos 4))
    × ((load (some (ok two_frameworks))).memory_limit_mb ≡ none)
unfolding load default_allowed_packages append_packages append_unique packages_of read_cap
two_frameworks_threads = (refl, refl)
