-- ===== src/Lib.antt =====
-- The C-tests-runner: a server that builds student solutions, runs them in a sandbox under several
-- thread counts, monitors their use of OpenMP, and reports results.
--
-- The parts and how they meet. Adapters hand requests to a job queue (server_core/src/job_queue.cpp),
-- whose workers run each job through the pipeline (server_core/src/pipeline.cpp and
-- pipeline_steps.cpp): it resolves the sources, reads the assignment, finds the framework
-- (framework_detector.cpp), checks the build files of the solution (cmake_validator.cpp), builds,
-- loads the scenarios (json_scenario_loader.cpp), and runs a correctness and a performance lane.
-- Correctness phases of jobs run side by side and a performance phase runs alone; the gates of the
-- queue are for that. A lane is run by the executor (sandbox_test_executor.cpp), which sets up the
-- inputs of the tests, gets cores from the CPU isolator (cpu_isolator.cpp), runs the solution in the
-- sandbox and turns the outcome into a result (test_result_builder.cpp). Runner and server exchange
-- inputs and outputs as test data (runner_lib/include/test_data.h), a map of typed values with a
-- binary file format. The solution counts its parallel constructs, its work and its span through the
-- monitor (parallel_lib/src/monitor.cpp). The results are summed up by test_result_builder.cpp and grouped for the
-- answer by test_scenario_result_converter.cpp.
--
-- Files and code:
--   Base        shared names, lists over native numbers, association lists, results, the interface of
--               a JSON value
--   ApiTypes    server_core/src/api_types.h: test_mode, job_status, queue_status, response_status
--   JobQueue    server_core/src/job_queue.{h,cpp}: the members of class JobQueue as a record. Jobs has
--               submit, cancel, get_status and the expiry of jobs; Phases the gates, the pool's size,
--               shutdown and the worker's decision; Execute the end of a job; System the threads as a
--               step relation, in which every locked section is one step and a condition variable's
--               wait is a step that is not enabled
--   CpuIsolator server_core/src/cpu_isolator.{h,cpp}: Text has format_cores and parse_cores, Allocate
--               has allocate and release, Construct the constructor; Sharing is the pool under any
--               sequence of requests and releases
--   TestData    runner_lib/include/test_data.h: Nested is NestedIO, Fields is MapIO and the strings,
--               Store the entries with serialize and deserialize, Typed the operations of class
--               TestData
--   Monitor     parallel_lib/include/par/monitor.h and src/monitor.cpp: Counting has the control
--               interface and the counting hooks, Timing work_begin and work_end, Span the span hooks
--   Summary     server_core/src/test_result_builder.cpp: the tally of a job, and in Scalability the
--               ladder of thread counts and the two summaries
--   Executor    server_core/src/test_result_builder.cpp, build_test_result; Run has `run` of
--               sandbox_test_executor.cpp with its helpers
--   Scenarios   server_core/src/json_scenario_loader.cpp: setup_input here, the comparison of outputs
--               in Verify; Load has `load` and the registry of test_engine/src/test_registry.h
--   Pipeline    server_core/src/pipeline.{h,cpp} and pipeline_steps.cpp: the state of a job and the
--               services it calls; Context the helpers, Steps the steps up to the registry, Lanes the
--               two lanes and their gates, Execute `execute`
--   CMake       server_core/src: the text without comments that both readers use, in Detector
--               framework_detector.cpp, in Validator cmake_validator.cpp
--   Grouping    server_core/src/test_scenario_result_converter.cpp and test_result_converter.cpp: the
--               results of a lane by scenario and test
--   Assignment  server_core/src/assignment_config.{h,cpp}: the reader of config.json
--   Runner      runner_lib/src/runner.cpp: the options, in Execution RUNNER_EXECUTE and finish
--   ThreadCounts server_core/src/thread_counts.h: ThreadCounts::get
-- The other files of a part prove its properties, and the Runs of a part applies them to concrete
-- inputs.
--
-- Numbers. Counts, positions and sizes that the code keeps far below the range of their type are
-- natural numbers; an int that can be negative is an integer. Arithmetic that can leave its type has
-- its modulus written out: the byte count of a vector in TestData, the counters and the work time in
-- Monitor. Times in nanoseconds since the start of the clock are natural numbers without a bound. A
-- double is an interface. The bytes of a value are least significant first, as the format fixes.
--
-- Loops. All loops recurse on a list or a count, except four that run on fuel: the reader of test
-- data, whose fuel is one more than the bytes of the file since a record takes sixteen of them; the
-- decimal digits of a core, with one more than the number; the ladder of thread counts, with 31
-- for the bits of an int, which is enough below 2^30, where the doubling does not overflow; and
-- RUNNER_EXECUTE, which needs two tests of its condition more than there are warm-up runs. The
-- theorems on loading, on parsing, on the ladder and on the runs of the body show that the fuel is
-- enough.
--
-- Parameters. JSON values and the getters of their fields, map-like containers, reals, what discovery
-- reports of the machine, the outcome of a job's executor and the numbers that the runner's options
-- name are arguments. The pipeline takes its services, which may throw, as a record, and the executor
-- the sandbox and the isolator. The CMake checks take what their regular expressions match.
-- The library and the language are modelled: std::map and std::set by increasing lists, std::sort,
-- std::getline and std::stoi by their documented results, shared pointers to atomics by indices of
-- cells.
--
-- Not modelled: the operating system's side (sandbox launcher, processes, cgroups, dynamic libraries,
-- directories, files beyond their bytes), NUMA discovery, the network adapters and their manager, git,
-- the builds and the generator of build files, the reader of the server's configuration, progress
-- events and logging, the mock clients and the examples.
pub mod ApiTypes
pub mod Assignment
pub mod Base
pub mod CMake
pub mod CpuIsolator
pub mod Executor
pub mod Grouping
pub mod JobQueue
pub mod Monitor
pub mod Pipeline
pub mod Runner
pub mod Scenarios
pub mod Summary
pub mod TestData
pub mod ThreadCounts
