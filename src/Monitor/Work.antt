-- ===== src/Monitor/Work.antt =====
-- Nested timed regions: only the outermost one counts.
use c_tests_runner.Base.{
  ℕ, ◌+◌, ◌-◌, ◌%◌, ◌^◌, ◌≡◌, ◌<◌, refl, sym, ap, ◌∙◌, true, false, arith, ◌==◌,
}
use c_tests_runner.Monitor.{is_monitored, MonitorContext, Runtime, current, update_context}
use c_tests_runner.Monitor.Timing.{work_begin, work_end}
use c_tests_runner.Monitor.Counts.{IsActive, current-update_context, update_context-IsActive}

-- What a thread does: time passes, a timed region is entered and left, one thing after another.
pub data Work : Type 0 where
  tick : ℕ → Work
  timed : Work → Work
  both : Work → Work → Work

abbrev pub duration : Work → ℕ
duration (tick d) = d
duration (timed w) = duration w
duration (both a b) = duration a + duration b

-- The time inside regions.
abbrev pub busy : Work → ℕ
busy (tick d) = 0
busy (timed w) = duration w
busy (both a b) = busy a + busy b

unfoldable pub run : Work → ℕ → Runtime → Runtime
unfolding work_begin work_end
run (tick d) now r = r
run (timed w) now r =
    let (start_ns, q) = work_begin now r in work_end start_ns (now + duration w) (run w now q)
run (both a b) now r = run b (now + duration a) (run a now r)

-- A thread's run added `t` to the work time, and changed nothing else that timing reads.
pub record IsTimed (r q : Runtime) (t : ℕ) : Type 0 where
  pub active : IsActive q
  pub mode : (current q).mode ≡ (current r).mode
  pub flag : q.in_work_timing ≡ r.in_work_timing
  pub work : (current q).stats.work_ns % 2 ^ 64 ≡ ((current r).stats.work_ns + t) % 2 ^ 64

begin_nested : (now : ℕ) (r : Runtime) → r.in_work_timing ≡ true → work_begin now r ≡ (0, r)
unfolding work_begin
begin_nested now r e = ground (arith, e)

begin_outer :
    (now : ℕ) (r : Runtime)
    → is_monitored (current r).mode ≡ true
    → r.in_work_timing ≡ false
    → work_begin now r ≡ (now, record r { in_work_timing = true })
unfolding work_begin
begin_outer now r m e = rw (m, e) refl

end_nested : (now : ℕ) (r : Runtime) → work_end 0 now r ≡ r
unfolding work_end
end_nested now r = refl

run_nested : (w : Work) (now : ℕ) (r : Runtime) → r.in_work_timing ≡ true → run w now r ≡ r
unfolding run
run_nested (tick d) now r e = refl
run_nested (timed w) now r e =
    rw (begin_nested now r e, run_nested w now r e, end_nested (now + duration w) r) refl
run_nested (both a b) now r e = rw (run_nested a now r e, run_nested b (now + duration a) r e) refl

end_outer-IsTimed :
    (now d : ℕ) (r : Runtime)
    → IsActive r
    → is_monitored (current r).mode ≡ true
    → r.in_work_timing ≡ false
    → 0 < now
    → IsTimed r (work_end now (now + d) (record r { in_work_timing = true })) d
unfolding work_end current
end_outer-IsTimed now d r v m e z =
    let add : MonitorContext → MonitorContext = (λ c. record c {
      stats = record (c.stats) { work_ns = (c.stats.work_ns + (now + d - now)) % 2 ^ 64 };
    }) in
    let up = current-update_context add r v in
    let started : (now == 0) ≡ false = ground (arith, z) in
    let ended : work_end now (now + d) (record r { in_work_timing = true })
        ≡ record (update_context add r) { in_work_timing = false } =
      rw (work_end, started, m) refl in
    rw ended (record {
      active = update_context-IsActive add r v;
      mode = ap (λ c. c.mode) up;
      flag = sym e;
      work = rw up (omega arith);
    })

-- Whatever a thread does from outside any timed region, in a monitored mode and with a clock past
-- 0, the active context's work time grows by the length of the outermost timed regions, modulo the
-- 64 bits of its counter: nested regions add nothing of their own, and at the end the thread is
-- outside any timed region again.
pub work_counts_outermost :
    (w : Work) (now : ℕ) (r : Runtime)
    → IsActive r
    → is_monitored (current r).mode ≡ true
    → r.in_work_timing ≡ false
    → 0 < now
    → IsTimed r (run w now r) (busy w)
unfolding run
work_counts_outermost (tick d) now r v m e z = record {
  active = v;
  mode = refl;
  flag = refl;
  work = omega arith;
}
work_counts_outermost (timed w) now r v m e z =
    rw (begin_outer now r m e, run_nested w now (record r { in_work_timing = true }) refl)
      (end_outer-IsTimed now (duration w) r v m e z)
work_counts_outermost (both a b) now r v m e z =
    let x = work_counts_outermost a now r v m e z in
    let y =
      work_counts_outermost b (now + duration a) (run a now r) x.active (ap is_monitored x.mode ∙ m)
        (x.flag ∙ e) (omega (arith, z)) in
    record {
      active = y.active;
      mode = y.mode ∙ x.mode;
      flag = y.flag ∙ x.flag;
      work = omega (arith, x.work, y.work);
    }
