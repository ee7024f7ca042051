-- ===== src/Pipeline.antt =====
-- server_core/src/pipeline.h: the state of one job in the pipeline, and the services that it calls.
-- The JSON result is a record with its fields, `none` where a field is not set. What the job does
-- outside is a list of events, in order: the last is the latest.
pub mod Context
pub mod Steps
pub mod Lanes
pub mod Execute
pub mod Outline
pub mod Advance
pub mod Order
pub mod Gating
pub mod Verdicts
pub mod Caps
pub mod Skips
pub mod Queueing
mod Runs
use c_tests_runner.Base.{ℕ, Bool, Option, String, List}
use c_tests_runner.Base.Int.{ℤ}
use c_tests_runner.Base.Result.{Result}
use c_tests_runner.ApiTypes.{JobStatus}
use c_tests_runner.Summary.{ScenarioResults}
use c_tests_runner.Summary.Scalability.{Summary}
use c_tests_runner.Scenarios.Load.{ScenarioType}

-- A field of the request: missing, or what its getter returns or throws.
abbrev pub Given : Type 0 → Type 0
Given A = Option (Result A)

-- A TaskSubmission. `J` are the descriptors of sources, with "_kind" set; `solution_path` and
-- `solution_url` are the entries of "solutionSource" that name the solution.
pub record Request (J : Type 0) : Type 0 where
  pub job_id : Result String
  pub test_id : Result String
  pub threads : Given ℤ
  pub memory_limit_mb : Given ℤ
  pub wall_time_sec : Given ℤ
  pub cpu_time_sec : Given ℤ
  pub max_processes : Given ℤ
  pub warmup_iterations : Given ℤ
  pub test_source_type : Given String
  pub solution_source_type : Given String
  pub test_source : Result J
  pub solution_source : Result J
  pub solution_name : Result String

pub record AssignmentConfig : Type 0 where
  pub name : String
  pub mode : String
  pub allowed_frameworks : List String
  pub allowed_packages : List String
  pub correctness_mode : String
  pub threads : Option ℤ
  pub memory_limit_mb : Option ℤ
  pub wall_time_sec : Option ℤ
  pub cpu_time_sec : Option ℤ
  pub max_processes : Option ℤ
  pub warmup_iterations : Option ℤ

pub record RunnerBuildResult : Type 0 where
  pub success : Bool
  pub error_message : String
  pub build_output : String
  pub runner_exe_path : String
  pub build_dir : String

pub record TestPluginBuildResult : Type 0 where
  pub success : Bool
  pub error_message : String
  pub build_output : String
  pub plugin_paths : List String
  pub build_dir : String

pub record Detection : Type 0 where
  pub is_ok : Bool
  pub framework : String
  pub error_message : String

pub record Validation : Type 0 where
  pub valid : Bool
  pub violations : List String

-- The arguments of `SandboxTestExecutor::run` but the registry and the callback.
pub record LaneRequest : Type 0 where
  pub runner_exe_path : String
  pub scenario_type : ScenarioType
  pub thread_counts : List ℕ
  pub monitor_mode : String
  pub memory_limit_kb : ℤ
  pub job_id : String
  pub wall_time_sec : ℤ
  pub cpu_time_sec : ℤ
  pub node_id : String
  pub extra_lib_dirs : List String
  pub max_processes : ℤ
  pub warmup_iterations : ℤ

-- The collaborators of the pipeline. `J` are the descriptors of sources, `S` the scenarios of a
-- registry, `G` the grouped JSON of a lane, `D` doubles. A service that may throw returns a result.
pub record Services (J S G D : Type 0) : Type 0 where
  -- the reading of the steady clock at each call, in nanoseconds
  pub clock : ℕ → ℕ
  pub sanitize : String → String
  pub file_name : String → String
  pub hardware_threads : ℕ
  pub default_memory_limit_mb : ℤ
  pub default_threads : ℤ
  pub default_wall_time_sec : ℤ
  pub default_cpu_time_sec : ℤ
  pub sandbox_process_multiplier : ℤ
  pub resolve : String → J → Result String
  pub load_config : String → Result AssignmentConfig
  pub detect : String → List String → Result Detection
  pub has_cmake_lists : String → Result Bool
  pub validate : String → List String → Result Validation
  pub validate_framework : String → Bool × String
  pub build_runner : String → String → String → String → Bool → Result RunnerBuildResult
  pub build_test_plugins : String → Result TestPluginBuildResult
  pub load_plugin : String → List S → Result (List S × Bool)
  pub load_cases : String → List S → Result (List S)
  pub scenario_type : S → ScenarioType
  pub tests_of : S → Result ℕ
  pub extra_lib_dirs : String → List String
  pub run : List S → LaneRequest → Result (List (ScenarioResults D))
  pub to_grouped_json : List (ScenarioResults D) → List ℕ → Bool → Result G

pub record StepInfo : Type 0 where
  pub step : String
  pub status : String
  pub duration : ℕ

pub data Detail : Type 0 where
  text : String → Detail
  texts : List String → Detail
  flag : Bool → Detail

pub record EffectiveParams : Type 0 where
  pub threads : ℤ
  pub memory_limit_mb : ℤ
  pub wall_time_sec : ℤ
  pub cpu_time_sec : ℤ
  pub max_processes : ℤ
  pub warmup_iterations : ℤ
  pub test_source_type : String
  pub solution_source_type : String
  pub mode : Option String
  pub has_cmake_lists : Option Bool

pub record AssignmentInfo : Type 0 where
  pub allowed_frameworks : List String
  pub allowed_packages : List String
  pub framework : String
  pub correctness_mode : String
  pub mode : String
  pub name : Option String

pub record Discovered : Type 0 where
  pub correctness_scenarios : ℕ
  pub correctness_tests : ℕ
  pub performance_scenarios : ℕ
  pub performance_tests : ℕ
  -- each plugin, and whether it was loaded
  pub plugins_loaded : List (String × Bool)

pub record TaskResult (G D : Type 0) : Type 0 where
  pub job_id : String
  pub solution : String
  pub effective_params : Option EffectiveParams
  pub hardware_threads : ℕ
  pub mode : Option String
  pub assignment_config : Option AssignmentInfo
  pub build_output : Option String
  pub status : Option String
  pub failed_step : Option String
  pub error : Option String
  pub error_details : List (String × Detail)
  pub tests_discovered : Option Discovered
  pub grouped : List (String × G)
  pub thread_counts : List (String × List ℕ)
  pub performance_skipped : Bool
  pub performance_skip_reason : Option String
  pub summary : List (String × Option (Summary D))
  pub build_info : Option String
  pub total_time : Option ℕ
  pub pipeline : List StepInfo

-- What a job does outside of its own state.
pub data Event : Type 0 where
  progress : String → String → Event
  updated : JobStatus → Event
  entered_correctness : Event
  exited_correctness : Event
  entered_perf : Event
  exited_perf : Event
  unloaded : Event
  cleaned : String → Event

pub record JobContext (J G D : Type 0) : Type 0 where
  pub request : Request J
  pub job_id : String
  pub test_id : String
  pub node_id : String
  pub threads : ℤ
  pub memory_limit_mb : ℤ
  pub wall_time_sec : ℤ
  pub cpu_time_sec : ℤ
  pub max_processes : ℤ
  pub warmup_iterations : ℤ
  pub solution_name : String
  pub on_progress : Bool
  pub result : TaskResult G D
  pub pipeline : List StepInfo
  pub test_dir : String
  pub solution_dir : String
  pub assignment_config : AssignmentConfig
  pub framework : String
  pub mode : String
  pub runner_result : RunnerBuildResult
  pub plugin_result : TestPluginBuildResult
  pub runner_build_dir : String
  pub plugin_build_dir : String
  pub plugin_load_error : String
  pub job_start : ℕ
  pub step_start : ℕ
  -- how often the clock has been read, and what was done outside
  pub readings : ℕ
  pub events : List Event
