-- ===== src/Assignment.antt =====
-- server_core/src/assignment_config.{h,cpp}: the configuration of an assignment.
pub mod Packages
mod Runs
use c_tests_runner.Base.{
  ℕ, ◌-◌, ◌^◌, ◌%◌, ltb, Option, none, some, String, List, [], ◌∷◌, ◌++◌, ◌=ₛ◌, if◌then◌else◌,
}
use c_tests_runner.Base.Maps.{contains}
use c_tests_runner.Base.Int.{ℤ, pos, negsuc}
use c_tests_runner.Base.Result.{Result, ok, err}
use c_tests_runner.Pipeline.{Given, AssignmentConfig}
use c_tests_runner.Pipeline.Context.{value}

-- A value of a cap: only an integer counts.
pub data CapValue : Type 0 where
  integer : ℤ → CapValue
  other : CapValue

-- The members of config.json that the reader asks for.
pub record ConfigFile : Type 0 where
  pub name : Given String
  pub mode : Given String
  pub correctness_mode : Given String
  pub allowed_frameworks : Given (List String)
  pub allowed_packages : Given (List String)
  pub threads : Option CapValue
  pub memory_limit_mb : Option CapValue
  pub wall_time_sec : Option CapValue
  pub cpu_time_sec : Option CapValue
  pub max_processes : Option CapValue
  pub warmup_iterations : Option CapValue

abbrev pub default_config : AssignmentConfig
default_config = record {
  name = "";
  mode = "correctness";
  allowed_frameworks = [];
  allowed_packages = [];
  correctness_mode = "stress";
  threads = none;
  memory_limit_mb = none;
  wall_time_sec = none;
  cpu_time_sec = none;
  max_processes = none;
  warmup_iterations = none;
}

-- The integer with the residue `r` below 2^w that a signed type of `w` bits holds.
abbrev pub signed : ℕ → ℕ → ℤ
signed w r = if ltb r (2 ^ (w - 1)) then pos r else negsuc (2 ^ w - 1 - r)

-- A cast to a signed type of `w` bits.
abbrev pub cast : ℕ → ℤ → ℤ
cast w (pos n) = signed w (n % 2 ^ w)
cast w (negsuc n) = signed w (2 ^ w - 1 - n % 2 ^ w)

-- `read_int` for 32 bits, `read_int64` for 64.
unfoldable pub read_cap : ℕ → Option CapValue → Option ℤ
read_cap w none = none
read_cap w (some other) = none
read_cap w (some (integer n)) = some (cast w n)

-- One step of `append_unique`.
abbrev pub append_one : String → List String → List String
append_one p result = if contains p result then result else result ++ p ∷ []

unfoldable pub append_unique : List String → List String → List String
append_unique [] result = result
append_unique (p ∷ pkgs) result = append_unique pkgs (append_one p result)

-- The packages of one framework.
unfoldable pub packages_of : String → List String
packages_of fw =
    if fw =ₛ "openmp"
    then "OpenMP" ∷ "parallel_lib" ∷ []
    else if fw =ₛ "parlay"
    then "parlay" ∷ "parlaylib" ∷ []
    else if fw =ₛ "cilk"
    then "Cilk" ∷ []
    else []

unfoldable pub append_packages : List String → List String → List String
unfolding append_unique packages_of
append_packages [] result = result
append_packages (fw ∷ frameworks) result =
    append_packages frameworks (append_unique (packages_of fw) result)

unfoldable pub default_allowed_packages : List String → List String
unfolding append_packages
default_allowed_packages frameworks = append_packages frameworks []

-- What was set before an exception stays.
abbrev pub use_member :
    {A : Type 0} → AssignmentConfig → Result A → (A → AssignmentConfig) → AssignmentConfig
use_member cfg (err what) next = cfg
use_member cfg (ok a) next = next a

abbrev pub read_caps : ConfigFile → AssignmentConfig → AssignmentConfig
read_caps j cfg = record cfg {
  threads = read_cap 32 j.threads;
  memory_limit_mb = read_cap 64 j.memory_limit_mb;
  wall_time_sec = read_cap 32 j.wall_time_sec;
  cpu_time_sec = read_cap 32 j.cpu_time_sec;
  max_processes = read_cap 32 j.max_processes;
  warmup_iterations = read_cap 32 j.warmup_iterations;
}

abbrev pub read_packages : ConfigFile → AssignmentConfig → AssignmentConfig
read_packages j cfg =
    use_member cfg (value j.allowed_packages cfg.allowed_packages)
      (λ packages. read_caps j (record cfg { allowed_packages = packages }))

abbrev pub read_frameworks : ConfigFile → AssignmentConfig → AssignmentConfig
read_frameworks j cfg =
    use_member cfg (value j.allowed_frameworks cfg.allowed_frameworks)
      (λ frameworks. read_packages j (record cfg { allowed_frameworks = frameworks }))

abbrev pub read_correctness_mode : ConfigFile → AssignmentConfig → AssignmentConfig
read_correctness_mode j cfg =
    use_member cfg (value j.correctness_mode "stress")
      (λ mode. read_frameworks j (record cfg { correctness_mode = mode }))

abbrev pub read_mode : ConfigFile → AssignmentConfig → AssignmentConfig
read_mode j cfg =
    use_member cfg (value j.mode "correctness")
      (λ mode. read_correctness_mode j (record cfg { mode = mode }))

-- The `try` block, on a file that was parsed or not.
abbrev pub read_config : Result ConfigFile → AssignmentConfig
read_config (err what) = default_config
read_config (ok j) =
    use_member default_config (value j.name "")
      (λ name. read_mode j (record default_config { name = name }))

abbrev pub with_defaults : AssignmentConfig → List String → AssignmentConfig
with_defaults cfg [] = record cfg {
  allowed_packages = default_allowed_packages cfg.allowed_frameworks;
}
with_defaults cfg (p ∷ pkgs) = cfg

-- `none` is a file that is missing or cannot be opened.
unfoldable pub load : Option (Result ConfigFile) → AssignmentConfig
unfolding read_cap default_allowed_packages
load none = default_config
load (some parsed) = with_defaults (read_config parsed) (read_config parsed).allowed_packages
