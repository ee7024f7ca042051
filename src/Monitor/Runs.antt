-- ===== src/Monitor/Runs.antt =====
-- The theorems about monitor.cpp on a monitored context.
use c_tests_runner.Base.{
  ◌+◌, ◌-◌, ◌%◌, ◌^◌, ◌≡◌, ◌≤◌, refl, true, false, none, some, List, [], ◌∷◌, arith, if◌then◌else◌,
}
use c_tests_runner.Base.Int.{pos}
use c_tests_runner.Monitor.{
  monitor, is_monitored, zero_stats, new_context, MonitorContext, Runtime, at_or, current,
}
use c_tests_runner.Monitor.Counting.{Hook, call_all, parallel_begin, task_create, taskwait}
use c_tests_runner.Monitor.Counts.{counters, occurrences, counts_exactly}
use c_tests_runner.Monitor.Isolation.{contexts_isolated}
use c_tests_runner.Monitor.Work.{Work, tick, timed, both, run, busy, IsTimed, work_counts_outermost}
use c_tests_runner.Monitor.Span.{
  span_init_root, span_finalize_root, span_prepare_child, span_sync_children,
}
use c_tests_runner.Monitor.Elapsed.{Thread, here, next, spawns, passes, syncs, span_covers_elapsed}

abbrev context : MonitorContext
context = record { mode = monitor; max_threads = pos 4; stats = zero_stats }

abbrev runtime : Runtime
runtime = record {
  contexts = context ∷ [];
  active = none;
  in_work_timing = false;
  span = record { depth = 0; strand_start = 0; children_max = none };
  cells = [];
  omp = record { num_threads = 8; dynamic = true };
}

abbrev some_hooks : List Hook
some_hooks = parallel_begin ∷ task_create ∷ task_create ∷ taskwait ∷ []

counts_exactly_example :
    at_or 0 1 (counters (current (call_all some_hooks runtime)).stats) % 2 ^ 32
    ≡ (at_or 0 1 (counters (current runtime).stats)
        + (if is_monitored (current runtime).mode then occurrences 1 some_hooks else 0))
      % 2 ^ 32
counts_exactly_example = counts_exactly some_hooks 1 runtime (omega arith) (omega arith)

abbrev nested : Work
nested = both (timed (both (tick 3) (timed (tick 4)))) (tick 5)

work_counts_outermost_example : IsTimed runtime (run nested 100 runtime) (busy nested)
unfolding current
work_counts_outermost_example =
    work_counts_outermost nested 100 runtime (omega arith) refl refl (omega arith)

abbrev joined : Thread
joined = record {
  now = 110;
  runtime = span_sync_children 110 (span_prepare_child 100 (span_init_root 100 runtime)).1;
  frames = [];
}

span_covers_elapsed_example :
    110 - 100 ≤ (current (span_finalize_root 110 joined.runtime)).stats.span_ns
unfolding current
span_covers_elapsed_example =
    span_covers_elapsed 100 runtime joined (omega arith) refl (omega arith)
      (next (next (next here spawns) (passes 10)) syncs) refl

abbrev two_jobs : Runtime
two_jobs = record runtime { contexts = context ∷ context ∷ []; active = some 1 }

contexts_isolated_example :
    at_or new_context 0 (call_all some_hooks two_jobs).contexts
    ≡ at_or new_context 0 two_jobs.contexts
contexts_isolated_example = contexts_isolated some_hooks 0 two_jobs (omega arith)
