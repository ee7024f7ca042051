-- ===== src/Executor.antt =====
-- server_core/src/test_result_builder.cpp, `build_test_result`, and test_engine/src/test_result.h.
-- `D` are doubles. A missing field of the meta data has its default; the getter of a field that is
-- there may throw.
pub mod Run
pub mod Passing
pub mod Layout
mod Runs
use c_tests_runner.Base.{
  ℕ, zero, suc, ◌==◌, ◌&&◌, Bool, true, false, not, Option, none, some, String, List, [], ◌∷◌,
  length, ◌=ₛ◌, if◌then◌else◌,
}
use c_tests_runner.Base.Int.{ℤ, pos, negsuc}
use c_tests_runner.Base.Result.{Result, ok, err, ◌>>=◌}
use c_tests_runner.CpuIsolator.Text.{decimal}
use c_tests_runner.CMake.Validator.{same_text}
use c_tests_runner.TestData.{Bytes}
use c_tests_runner.TestData.Store.{Entries}
use c_tests_runner.TestData.Typed.{load}
use c_tests_runner.Scenarios.Verify.{Verdict}
use c_tests_runner.Pipeline.{Given}
use c_tests_runner.Pipeline.Context.{value}
use Prim.Native.String.{◌++◌ as ◌++ₛ◌}

-- What the sandbox reports of a process.
pub record RunResult (D : Type 0) : Type 0 where
  pub exit_code : ℤ
  pub cg_mem_peak_kb : ℕ
  pub max_rss_kb : ℕ
  pub cpu_time_sec : D
  pub wall_time_sec : D
  pub oom_killed : Bool
  pub timed_out : Bool
  pub stderr_output : String

-- "parallelStats" of the meta data.
pub record MetaStats : Type 0 where
  pub parallel_regions : Given ℕ
  pub tasks_created : Given ℕ
  pub max_threads_used : Given ℕ
  pub single_regions : Given ℕ
  pub taskwaits : Given ℕ
  pub barriers : Given ℕ
  pub criticals : Given ℕ
  pub for_loops : Given ℕ
  pub atomics : Given ℕ
  pub sections : Given ℕ
  pub masters : Given ℕ
  pub ordered : Given ℕ
  pub taskgroups : Given ℕ
  pub simd_constructs : Given ℕ
  pub cancels : Given ℕ
  pub flushes : Given ℕ
  pub taskyields : Given ℕ
  pub work_ns : Given ℕ
  pub span_ns : Given ℕ

pub record Meta (D : Type 0) : Type 0 where
  pub time_ms : Given D
  pub parallel_stats : Option MetaStats

pub record ParallelStats : Type 0 where
  pub parallel_regions : ℕ
  pub tasks_created : ℕ
  pub max_threads_used : ℕ
  pub single_regions : ℕ
  pub taskwaits : ℕ
  pub barriers : ℕ
  pub criticals : ℕ
  pub for_loops : ℕ
  pub atomics : ℕ
  pub sections : ℕ
  pub masters : ℕ
  pub ordered : ℕ
  pub taskgroups : ℕ
  pub simd_constructs : ℕ
  pub cancels : ℕ
  pub flushes : ℕ
  pub taskyields : ℕ
  pub work_ns : ℕ
  pub span_ns : ℕ

pub record TestResult (D : Type 0) : Type 0 where
  pub name : String
  pub passed : Bool
  pub message : String
  pub time_ms : D
  pub stats : ParallelStats
  pub exit_code : ℤ
  pub cg_mem_peak_kb : ℕ
  pub max_rss_kb : ℕ
  pub cpu_time_sec : D
  pub wall_time_sec : D
  pub oom_killed : Bool
  pub timed_out : Bool
  pub stderr_output : String

-- A test as the executor sees it; setup and verification may throw.
pub record Test : Type 0 where
  pub name : String
  pub raw_input_path : String
  pub expected_output_path : String
  pub setup : Entries → Result Entries
  pub verify : Entries → Entries → Result Verdict

-- What the builder uses of its surroundings: the text of bytes, the cleaning of paths out of a text,
-- the double 0.0, milliseconds to nanoseconds, the bytes of a file that can be opened, and the
-- system's text on one that cannot be copied.
pub record Surroundings (D : Type 0) : Type 0 where
  pub text : Bytes → String
  pub sanitize : String → String
  pub zero_time : D
  pub to_ns : D → ℕ
  pub open_file : String → Option Bytes
  pub copy_error : String → String

abbrev pub no_stats : ParallelStats
no_stats = record {
  parallel_regions = 0;
  tasks_created = 0;
  max_threads_used = 0;
  single_regions = 0;
  taskwaits = 0;
  barriers = 0;
  criticals = 0;
  for_loops = 0;
  atomics = 0;
  sections = 0;
  masters = 0;
  ordered = 0;
  taskgroups = 0;
  simd_constructs = 0;
  cancels = 0;
  flushes = 0;
  taskyields = 0;
  work_ns = 0;
  span_ns = 0;
}

unfoldable pub read_stats : MetaStats → Result ParallelStats
read_stats ps = do
  parallel_regions ← value ps.parallel_regions 0
  tasks_created ← value ps.tasks_created 0
  max_threads_used ← value ps.max_threads_used 0
  single_regions ← value ps.single_regions 0
  taskwaits ← value ps.taskwaits 0
  barriers ← value ps.barriers 0
  criticals ← value ps.criticals 0
  for_loops ← value ps.for_loops 0
  atomics ← value ps.atomics 0
  sections ← value ps.sections 0
  masters ← value ps.masters 0
  ordered ← value ps.ordered 0
  taskgroups ← value ps.taskgroups 0
  simd_constructs ← value ps.simd_constructs 0
  cancels ← value ps.cancels 0
  flushes ← value ps.flushes 0
  taskyields ← value ps.taskyields 0
  work_ns ← value ps.work_ns 0
  span_ns ← value ps.span_ns 0
  ok (record {
    parallel_regions = parallel_regions;
    tasks_created = tasks_created;
    max_threads_used = max_threads_used;
    single_regions = single_regions;
    taskwaits = taskwaits;
    barriers = barriers;
    criticals = criticals;
    for_loops = for_loops;
    atomics = atomics;
    sections = sections;
    masters = masters;
    ordered = ordered;
    taskgroups = taskgroups;
    simd_constructs = simd_constructs;
    cancels = cancels;
    flushes = flushes;
    taskyields = taskyields;
    work_ns = work_ns;
    span_ns = span_ns;
  })

unfoldable pub read_parallel_stats : Option MetaStats → Result ParallelStats
unfolding read_stats
read_parallel_stats none = ok no_stats
read_parallel_stats (some ps) = read_stats ps

-- `none` would be a reader that ran out of fuel, which does not occur.
abbrev pub verify_loaded : Test → Entries → Option (Result Entries) → Result Verdict
verify_loaded test input none = err ""
verify_loaded test input (some loaded) = loaded >>= λ output. test.verify input output

abbrev pub caught : Result Verdict → Verdict
caught (ok verdict) = verdict
caught (err what) = (false, "Verify threw exception: " ++ₛ what)

abbrev pub has_none : {A B : Type 0} → Option A → Option B → Bool
has_none none none = true
has_none none (some b) = false
has_none (some a) b = false

module _ {D : Type 0} (around : Surroundings D) where
  -- A result with what the process reports, and no verdict yet.
  unfoldable pub new_result : String → RunResult D → TestResult D
  new_result name run = record {
    name = name;
    passed = false;
    message = "";
    time_ms = around.zero_time;
    stats = no_stats;
    exit_code = run.exit_code;
    cg_mem_peak_kb = run.cg_mem_peak_kb;
    max_rss_kb = run.max_rss_kb;
    cpu_time_sec = run.cpu_time_sec;
    wall_time_sec = run.wall_time_sec;
    oom_killed = run.oom_killed;
    timed_out = run.timed_out;
    stderr_output = around.sanitize run.stderr_output;
  }

  -- The message for an exit code other than 0; `negsuc n` is signal n + 1.
  unfoldable pub exit_message : ℤ → Option String
  exit_message (pos zero) = none
  exit_message (pos (suc n)) = some ("Process exited with code " ++ₛ around.text (decimal (suc n)))
  exit_message (negsuc n) =
      some ("Process crashed (signal " ++ₛ (around.text (decimal (suc n)) ++ₛ ")"))

  -- Why the process as such failed, if it did.
  unfoldable pub process_failure : RunResult D → Option String
  unfolding exit_message
  process_failure run =
      if run.timed_out
      then some "Time limit exceeded"
      else if run.oom_killed
      then some "Out of memory"
      else exit_message run.exit_code

  -- The time and the statistics of the meta data, or of an empty object.
  unfoldable pub read_meta : Option (Meta D) → Result (D × ParallelStats)
  unfolding read_parallel_stats
  read_meta none = ok (around.zero_time, no_stats)
  read_meta (some j) = do
    time_ms ← value j.time_ms around.zero_time
    stats ← read_parallel_stats j.parallel_stats
    ok (time_ms, stats)

  -- Without monitoring the span is the wall-clock time.
  abbrev pub with_span : D → ParallelStats → ParallelStats
  with_span time_ms stats =
      if (stats.work_ns == 0) && (stats.span_ns == 0)
      then record stats { span_ns = around.to_ns time_ms }
      else stats

  -- The two files, where both can be opened.
  unfoldable pub compare_files : Option Bytes → Option Bytes → Verdict
  unfolding same_text
  compare_files none exp = (false, "Failed to open output / expected file")
  compare_files (some got) none = (false, "Failed to open output / expected file")
  compare_files (some got) (some exp) =
      if not (length got == length exp)
      then (
        false,
        "output size "
            ++ₛ (around.text (decimal (length got))
                ++ₛ (" != expected " ++ₛ around.text (decimal (length exp)))),
      )
      else if not (same_text got exp)
      then (false, "output bytes differ from expected")
      else (true, "")

  -- The `try` block, from the bytes of output.bin where it exists.
  unfoldable pub judge : Test → Entries → Option Bytes → Result Verdict
  unfolding compare_files
  judge test input output_bin =
      if test.expected_output_path =ₛ ""
      then verify_loaded test input (load output_bin)
      else ok (compare_files output_bin (around.open_file test.expected_output_path))

  -- The verdict and the meta data go into the result, unless a field of those threw.
  unfoldable pub use_meta :
      TestResult D → Verdict → Result (D × ParallelStats) → Result (TestResult D)
  use_meta tr verdict (err what) = err what
  use_meta tr verdict (ok m) = ok (record tr {
    time_ms = m.0;
    stats = with_span m.0 m.1;
    passed = verdict.0;
    message = verdict.1;
  })

  -- A clean exit: meta data and output are read, and the output is judged.
  unfoldable pub judge_output :
      Test → TestResult D → Option (Meta D) → Entries → Option Bytes → Result (TestResult D)
  unfolding read_meta judge use_meta
  judge_output test tr output_json input output_bin =
      if has_none output_json output_bin
      then ok (record tr { message = "Runner produced no output" })
      else use_meta tr (caught (judge test input output_bin)) (read_meta output_json)

  -- A process that failed is not judged.
  unfoldable pub decide :
      Test
      → TestResult D
      → Option (Meta D)
      → Entries
      → Option Bytes
      → Option String
      → Result (TestResult D)
  unfolding judge_output
  decide test tr output_json input output_bin (some message) = ok (record tr { message = message })
  decide test tr output_json input output_bin none =
      judge_output test tr output_json input output_bin

  unfoldable pub build_test_result :
      Test → RunResult D → Option (Meta D) → Entries → Option Bytes → Result (TestResult D)
  unfolding new_result process_failure decide
  build_test_result test run output_json input output_bin =
      decide test (new_result test.name run) output_json input output_bin (process_failure run)
