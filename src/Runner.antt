-- ===== src/Runner.antt =====
-- runner_lib/src/runner.cpp: the options, the loop of RUNNER_EXECUTE and the end of a run. A time is
-- a reading of the steady clock in microseconds.
pub mod Execution
pub mod Loop
pub mod Output
mod Runs
use c_tests_runner.Base.{
  ℕ, zero, suc, ◌+◌, ◌-◌, String, ◌=ₛ◌, Bool, true, false, not, Option, none, some, List, [], ◌∷◌,
  ltb, ◌==◌, if◌then◌else◌,
}
use c_tests_runner.Base.Int.{ℤ, pos, negsuc}
use c_tests_runner.TestData.Store.{Entries}

pub record RunnerConfig : Type 0 where
  pub input_dir : String
  pub output_dir : String
  pub thread_count : ℤ
  pub monitor_mode : String
  pub warmup_iterations : ℤ

-- The variables of the file; `counter` is the one of `_execute_should_continue`, and `M` is the type
-- of the meta data that the finish hook fills in.
pub record Runner (M : Type 0) : Type 0 where
  pub config : RunnerConfig
  pub initialized : Bool
  pub execute_start : ℕ
  pub execute_end : ℕ
  pub finish_hook : Option (M → M)
  pub input_data : Entries
  pub output_data : Entries
  pub counter : ℕ

abbrev pub or_else : ℤ → Option ℤ → ℤ
or_else z none = z
or_else z (some v) = v

-- The default values of a `RunnerConfig`.
abbrev pub new_config : RunnerConfig
new_config = record {
  input_dir = "";
  output_dir = "";
  thread_count = pos 1;
  monitor_mode = "normal";
  warmup_iterations = pos 0;
}

-- `stoi` is std::stoi, without a value where it throws.
module _ (stoi : String → Option ℤ) where
  unfoldable pub set_option : String → String → RunnerConfig → RunnerConfig
  set_option key val c =
      if key =ₛ "--input"
      then record c { input_dir = val }
      else if key =ₛ "--output"
      then record c { output_dir = val }
      else if key =ₛ "--threads"
      then record c { thread_count = or_else (pos 1) (stoi val) }
      else if key =ₛ "--monitor-mode"
      then record c { monitor_mode = val }
      else if key =ₛ "--warmup"
      then record c { warmup_iterations = or_else (pos 0) (stoi val) }
      else c

  -- The arguments behind the program's name, two at a time; a key without a value ends the loop.
  unfoldable pub parse_options : List String → RunnerConfig → RunnerConfig
  unfolding set_option
  parse_options [] c = c
  parse_options (key ∷ []) c = c
  parse_options (key ∷ val ∷ rest) c = parse_options rest (set_option key val c)

  unfoldable pub init : {M : Type 0} → List String → Runner M → Runner M
  unfolding parse_options
  init args r = record r {
    config = parse_options args new_config;
    initialized = true;
    finish_hook = none;
    input_data = [];
    output_data = [];
  }
