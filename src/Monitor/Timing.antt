-- ===== src/Monitor/Timing.antt =====
-- parallel_lib/src/monitor.cpp: `work_begin` and `work_end`, at a reading of the clock.
use c_tests_runner.Base.{ℕ, ◌+◌, ◌-◌, ◌%◌, ◌^◌, true, false, not, ◌&&◌, ◌==◌, if◌then◌else◌}
use c_tests_runner.Monitor.{is_monitored, Runtime, current, update_context, update_stats}

-- The start time, or 0 inside a timed region.
unfoldable pub work_begin : ℕ → Runtime → ℕ × Runtime
unfolding current
work_begin now r =
    if is_monitored (current r).mode && not r.in_work_timing
    then (now, record r { in_work_timing = true })
    else (0, r)

unfoldable pub work_end : ℕ → ℕ → Runtime → Runtime
unfolding current update_context
work_end start_ns now r =
    let elapsed = now - start_ns in
    let added =
      (if is_monitored (current r).mode
        then update_stats (λ s. record s { work_ns = (s.work_ns + elapsed) % 2 ^ 64 }) r
        else r) in
    if start_ns == 0 then r else record added { in_work_timing = false }
