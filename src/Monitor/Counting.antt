-- ===== src/Monitor/Counting.antt =====
-- parallel_lib/src/monitor.cpp: the control interface and the hooks that count constructs.
use c_tests_runner.Base.{
  ℕ, zero, suc, ◌+◌, ◌%◌, ◌^◌, false, Option, List, [], ◌∷◌, ◌++◌, ltb, if◌then◌else◌,
}
use c_tests_runner.Base.Int.{ℤ, pos, negsuc}
use c_tests_runner.Monitor.{
  Mode, is_monitored, Stats, zero_stats, new_context, Omp, Runtime, current, update_context,
  update_stats,
}

unfoldable pub reset_stats : Runtime → Runtime
unfolding update_context
reset_stats r = update_stats (λ s. zero_stats) r

-- The new context's index.
unfoldable pub create_context : Runtime → Runtime
create_context r = record r { contexts = r.contexts ++ new_context ∷ [] }

unfoldable pub activate_context : Option ℕ → Runtime → Runtime
activate_context c r = record r { active = c }

unfoldable pub set_mode : Mode → Runtime → Runtime
unfolding update_context
set_mode mode r = update_context (λ c. record c { mode = mode }) r

-- omp_set_num_threads(n), for a positive n
abbrev pub set_num_threads : ℤ → Omp → Omp
set_num_threads (pos zero) o = o
set_num_threads (pos (suc n)) o = record o { num_threads = suc n }
set_num_threads (negsuc n) o = o

unfoldable pub set_max_threads : ℤ → Runtime → Runtime
unfolding update_context
set_max_threads n r =
    let q = update_context (λ c. record c { max_threads = n }) r in
    record q { omp = set_num_threads n q.omp }

abbrev pub bump : ℕ → ℕ
bump n = (n + 1) % 2 ^ 32

-- A counter's update, in a monitored mode.
unfoldable pub count : (Stats → Stats) → Runtime → Runtime
unfolding current update_context
count f r = if is_monitored (current r).mode then update_stats f r else r

abbrev pub fixed_threads : ℤ → Omp → Omp
fixed_threads (pos zero) o = o
fixed_threads (pos (suc n)) o = record o { num_threads = suc n; dynamic = false }
fixed_threads (negsuc n) o = o

abbrev pub raise_to : ℕ → ℕ → ℕ
raise_to value cur = if ltb cur value then value else cur

unfoldable pub on_parallel_begin : Runtime → Runtime
unfolding count current update_context
on_parallel_begin r =
    let o = fixed_threads (current r).max_threads r.omp in
    let observed =
      update_stats
        (λ s. record s { max_threads_observed = raise_to o.num_threads s.max_threads_observed })
        (record r { omp = o }) in
    count (λ s. record s { parallel_regions = bump s.parallel_regions }) observed

unfoldable pub on_parallel_end : Runtime → Runtime
on_parallel_end r = r

unfoldable pub on_task_create : Runtime → Runtime
unfolding count
on_task_create r = count (λ s. record s { tasks_created = bump s.tasks_created }) r

unfoldable pub on_single : Runtime → Runtime
unfolding count
on_single r = count (λ s. record s { single_regions = bump s.single_regions }) r

unfoldable pub on_taskwait : Runtime → Runtime
unfolding count
on_taskwait r = count (λ s. record s { taskwaits = bump s.taskwaits }) r

unfoldable pub on_barrier : Runtime → Runtime
unfolding count
on_barrier r = count (λ s. record s { barriers = bump s.barriers }) r

unfoldable pub on_critical : Runtime → Runtime
unfolding count
on_critical r = count (λ s. record s { criticals = bump s.criticals }) r

unfoldable pub on_for_loop : Runtime → Runtime
unfolding count
on_for_loop r = count (λ s. record s { for_loops = bump s.for_loops }) r

unfoldable pub on_atomic : Runtime → Runtime
unfolding count
on_atomic r = count (λ s. record s { atomics = bump s.atomics }) r

unfoldable pub on_sections : Runtime → Runtime
unfolding count
on_sections r = count (λ s. record s { sections = bump s.sections }) r

unfoldable pub on_master : Runtime → Runtime
unfolding count
on_master r = count (λ s. record s { masters = bump s.masters }) r

unfoldable pub on_ordered : Runtime → Runtime
unfolding count
on_ordered r = count (λ s. record s { ordered = bump s.ordered }) r

unfoldable pub on_taskgroup : Runtime → Runtime
unfolding count
on_taskgroup r = count (λ s. record s { taskgroups = bump s.taskgroups }) r

unfoldable pub on_simd : Runtime → Runtime
unfolding count
on_simd r = count (λ s. record s { simd_constructs = bump s.simd_constructs }) r

unfoldable pub on_cancel : Runtime → Runtime
unfolding count
on_cancel r = count (λ s. record s { cancels = bump s.cancels }) r

unfoldable pub on_flush : Runtime → Runtime
unfolding count
on_flush r = count (λ s. record s { flushes = bump s.flushes }) r

unfoldable pub on_taskyield : Runtime → Runtime
unfolding count
on_taskyield r = count (λ s. record s { taskyields = bump s.taskyields }) r

-- The hooks of the constructs, as a thread calls them.
pub data Hook : Type 0 where
  parallel_begin : Hook
  task_create : Hook
  single : Hook
  taskwait : Hook
  barrier : Hook
  critical : Hook
  for_loop : Hook
  atomic : Hook
  sections : Hook
  master : Hook
  ordered : Hook
  taskgroup : Hook
  simd : Hook
  cancel : Hook
  flush : Hook
  taskyield : Hook

unfoldable pub call : Hook → Runtime → Runtime
unfolding on_parallel_begin on_task_create on_single on_taskwait on_barrier on_critical on_for_loop
    on_atomic on_sections on_master on_ordered on_taskgroup on_simd on_cancel on_flush on_taskyield
call parallel_begin r = on_parallel_begin r
call task_create r = on_task_create r
call single r = on_single r
call taskwait r = on_taskwait r
call barrier r = on_barrier r
call critical r = on_critical r
call for_loop r = on_for_loop r
call atomic r = on_atomic r
call sections r = on_sections r
call master r = on_master r
call ordered r = on_ordered r
call taskgroup r = on_taskgroup r
call simd r = on_simd r
call cancel r = on_cancel r
call flush r = on_flush r
call taskyield r = on_taskyield r

unfoldable pub call_all : List Hook → Runtime → Runtime
unfolding call
call_all [] r = r
call_all (h ∷ hs) r = call_all hs (call h r)
