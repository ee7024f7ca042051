-- ===== src/Monitor/Isolation.antt =====
-- Concurrent jobs have contexts of their own: a thread's hooks leave the others alone.
use c_tests_runner.Base.{ℕ, zero, suc, ◌≡◌, ◌≢◌, refl, ap, ◌∙◌, inl, inr, List, [], ◌∷◌, Bool-cases}
use c_tests_runner.Monitor.{
  is_monitored, Stats, MonitorContext, new_context, Runtime, modify_at, at_or, context_index,
  current, update_context,
}
use c_tests_runner.Monitor.Counting.{
  bump, raise_to, fixed_threads, count, Hook, parallel_begin, task_create, single, taskwait,
  barrier, critical, for_loop, atomic, sections, master, ordered, taskgroup, simd, cancel, flush,
  taskyield, call, call_all, on_parallel_begin, on_task_create, on_single, on_taskwait, on_barrier,
  on_critical, on_for_loop, on_atomic, on_sections, on_master, on_ordered, on_taskgroup, on_simd,
  on_cancel, on_flush, on_taskyield,
}

at_other-modify_at :
    {A : Type 0} (d : A) (f : A → A) (i j : ℕ) (xs : List A)
    → j ≢ i
    → at_or d j (modify_at f i xs) ≡ at_or d j xs
at_other-modify_at d f i j [] n = refl
at_other-modify_at d f zero zero (x ∷ xs) n = absurd (n refl)
at_other-modify_at d f zero (suc j) (x ∷ xs) n = refl
at_other-modify_at d f (suc i) zero (x ∷ xs) n = refl
at_other-modify_at d f (suc i) (suc j) (x ∷ xs) n =
    at_other-modify_at d f i j xs (λ e. n (ap suc e))

-- The same context is active, and context `j` is as it was.
record IsAside (j : ℕ) (r q : Runtime) : Type 0 where
  active : q.active ≡ r.active
  aside : at_or new_context j q.contexts ≡ at_or new_context j r.contexts

update_context-IsAside :
    (j : ℕ) (f : MonitorContext → MonitorContext) (r : Runtime)
    → j ≢ context_index r.active
    → IsAside j r (update_context f r)
unfolding update_context
update_context-IsAside j f r n = record {
  active = refl;
  aside = at_other-modify_at new_context f (context_index r.active) j r.contexts n;
}

count-IsAside :
    (j : ℕ) (f : Stats → Stats) (r : Runtime) → j ≢ context_index r.active → IsAside j r (count f r)
unfolding count
count-IsAside j f r n = elim (Bool-cases (is_monitored (current r).mode)) [
  | inl e ↦ rw (count, e) (update_context-IsAside j (λ c. record c { stats = f c.stats }) r n)
  | inr e ↦ rw (count, e) (record { active = refl; aside = refl })
]

call-IsAside :
    (j : ℕ) (h : Hook) (r : Runtime) → j ≢ context_index r.active → IsAside j r (call h r)
unfolding call current update_context on_parallel_begin on_task_create on_single on_taskwait
    on_barrier on_critical on_for_loop on_atomic on_sections on_master on_ordered on_taskgroup
    on_simd on_cancel on_flush on_taskyield
call-IsAside j parallel_begin r n =
    let o = fixed_threads (current r).max_threads r.omp in
    let up : MonitorContext → MonitorContext = (λ c. record c {
      stats = record (c.stats) {
        max_threads_observed = raise_to o.num_threads c.stats.max_threads_observed;
      };
    }) in
    let q = update_context up (record r { omp = o }) in
    let a = update_context-IsAside j up (record r { omp = o }) n in
    let b = count-IsAside j (λ s. record s { parallel_regions = bump s.parallel_regions }) q n in
    record { active = b.active; aside = b.aside ∙ a.aside }
call-IsAside j task_create r n =
    count-IsAside j (λ s. record s { tasks_created = bump s.tasks_created }) r n
call-IsAside j single r n =
    count-IsAside j (λ s. record s { single_regions = bump s.single_regions }) r n
call-IsAside j taskwait r n = count-IsAside j (λ s. record s { taskwaits = bump s.taskwaits }) r n
call-IsAside j barrier r n = count-IsAside j (λ s. record s { barriers = bump s.barriers }) r n
call-IsAside j critical r n = count-IsAside j (λ s. record s { criticals = bump s.criticals }) r n
call-IsAside j for_loop r n = count-IsAside j (λ s. record s { for_loops = bump s.for_loops }) r n
call-IsAside j atomic r n = count-IsAside j (λ s. record s { atomics = bump s.atomics }) r n
call-IsAside j sections r n = count-IsAside j (λ s. record s { sections = bump s.sections }) r n
call-IsAside j master r n = count-IsAside j (λ s. record s { masters = bump s.masters }) r n
call-IsAside j ordered r n = count-IsAside j (λ s. record s { ordered = bump s.ordered }) r n
call-IsAside j taskgroup r n =
    count-IsAside j (λ s. record s { taskgroups = bump s.taskgroups }) r n
call-IsAside j simd r n =
    count-IsAside j (λ s. record s { simd_constructs = bump s.simd_constructs }) r n
call-IsAside j cancel r n = count-IsAside j (λ s. record s { cancels = bump s.cancels }) r n
call-IsAside j flush r n = count-IsAside j (λ s. record s { flushes = bump s.flushes }) r n
call-IsAside j taskyield r n =
    count-IsAside j (λ s. record s { taskyields = bump s.taskyields }) r n

-- Whatever hooks a thread calls, every context but its active one stays as it was: concurrent jobs do
-- not count into each other's statistics.
pub contexts_isolated :
    (hs : List Hook) (j : ℕ) (r : Runtime)
    → j ≢ context_index r.active
    → at_or new_context j (call_all hs r).contexts ≡ at_or new_context j r.contexts
unfolding call_all
contexts_isolated [] j r n = refl
contexts_isolated (h ∷ hs) j r n =
    let a = call-IsAside j h r n in
    contexts_isolated hs j (call h r) (λ e. n (e ∙ ap context_index a.active)) ∙ a.aside
