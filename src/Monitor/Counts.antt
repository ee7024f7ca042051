-- ===== src/Monitor/Counts.antt =====
-- Every construct is counted once, in its own counter of the active context.
use c_tests_runner.Base.{
  ℕ, zero, suc, ◌+◌, ◌%◌, ◌^◌, ◌≡◌, ◌<◌, refl, ap, ◌∙◌, inl, inr, List, [], ◌∷◌, length, count_if,
  arith, Bool-cases, ◌==◌, if◌then◌else◌,
}
use c_tests_runner.Monitor.{
  is_monitored, Stats, MonitorContext, new_context, Runtime, modify_at, at_or, context_index,
  current, update_context,
}
use c_tests_runner.Monitor.Counting.{
  bump, raise_to, fixed_threads, count, Hook, parallel_begin, task_create, single, taskwait,
  barrier, critical, for_loop, atomic, sections, master, ordered, taskgroup, simd, cancel, flush,
  taskyield, call, call_all, on_parallel_begin, on_task_create, on_single, on_taskwait, on_barrier,
  on_critical, on_for_loop, on_atomic, on_sections, on_master, on_ordered, on_taskgroup, on_simd,
  on_cancel, on_flush, on_taskyield,
}

-- The counters of constructs, in the order of the hooks.
abbrev pub counters : Stats → List ℕ
counters s =
    s.parallel_regions ∷ s.tasks_created ∷ s.single_regions ∷ s.taskwaits ∷ s.barriers ∷ s.criticals
    ∷ s.for_loops ∷ s.atomics ∷ s.sections ∷ s.masters ∷ s.ordered ∷ s.taskgroups
    ∷ s.simd_constructs ∷ s.cancels ∷ s.flushes ∷ s.taskyields ∷ []

abbrev pub index : Hook → ℕ
index parallel_begin = 0
index task_create = 1
index single = 2
index taskwait = 3
index barrier = 4
index critical = 5
index for_loop = 6
index atomic = 7
index sections = 8
index master = 9
index ordered = 10
index taskgroup = 11
index simd = 12
index cancel = 13
index flush = 14
index taskyield = 15

-- The active context is one that exists.
abbrev pub IsActive : Runtime → Type 0
IsActive r = context_index r.active < length r.contexts

at_or-modify_at :
    {A : Type 0} (d : A) (f : A → A) (i : ℕ) (xs : List A)
    → i < length xs
    → at_or d i (modify_at f i xs) ≡ f (at_or d i xs)
at_or-modify_at d f i [] h = absurd (omega (arith, h))
at_or-modify_at d f zero (x ∷ xs) h = refl
at_or-modify_at d f (suc i) (x ∷ xs) h = at_or-modify_at d f i xs (omega (arith, h))

length-modify_at :
    {A : Type 0} (f : A → A) (i : ℕ) (xs : List A) → length (modify_at f i xs) ≡ length xs
length-modify_at f i [] = refl
length-modify_at f zero (x ∷ xs) = refl
length-modify_at f (suc i) (x ∷ xs) = ap suc (length-modify_at f i xs)

pub current-update_context :
    (f : MonitorContext → MonitorContext) (r : Runtime)
    → IsActive r
    → current (update_context f r) ≡ f (current r)
unfolding current update_context
current-update_context f r v = at_or-modify_at new_context f (context_index r.active) r.contexts v

pub update_context-IsActive :
    (f : MonitorContext → MonitorContext) (r : Runtime) → IsActive r → IsActive (update_context f r)
unfolding update_context
update_context-IsActive f r v =
    omega (arith, v, length-modify_at f (context_index r.active) r.contexts)

count-IsActive : (f : Stats → Stats) (r : Runtime) → IsActive r → IsActive (count f r)
unfolding count
count-IsActive f r v = elim (Bool-cases (is_monitored (current r).mode)) [
  | inl e ↦ rw (count, e) (update_context-IsActive (λ c. record c { stats = f c.stats }) r v)
  | inr e ↦ rw (count, e) v
]

-- What a hook leaves of the active context: its mode, and its counters with one of them up.
record IsCounted (r q : Runtime) (i : ℕ) : Type 0 where
  active : IsActive q
  mode : (current q).mode ≡ (current r).mode
  counted : counters (current q).stats ≡ (
      if is_monitored (current r).mode
      then modify_at bump i (counters (current r).stats)
      else counters (current r).stats)

count-IsCounted :
    (f : Stats → Stats) (i : ℕ)
    → ((s : Stats) → counters (f s) ≡ modify_at bump i (counters s))
    → (r : Runtime) → IsActive r
    → IsCounted r (count f r) i
unfolding count
count-IsCounted f i g r v = elim (Bool-cases (is_monitored (current r).mode)) [
  | inl e ↦
      let now = current-update_context (λ c. record c { stats = f c.stats }) r v in
      record {
        active = count-IsActive f r v;
        mode = rw (count, e, now) refl;
        counted = rw (count, e, now) (g (current r).stats);
      }
  | inr e ↦ record {
    active = count-IsActive f r v;
    mode = rw (count, e) refl;
    counted = rw (count, e) refl;
  }
]

parallel-IsCounted : (r : Runtime) → IsActive r → IsCounted r (on_parallel_begin r) 0
unfolding on_parallel_begin current
parallel-IsCounted r v =
    let o = fixed_threads (current r).max_threads r.omp in
    let up : MonitorContext → MonitorContext = (λ c. record c {
      stats = record (c.stats) {
        max_threads_observed = raise_to o.num_threads c.stats.max_threads_observed;
      };
    }) in
    let p : Runtime = record r { omp = o } in
    let q = update_context up p in
    let same : current q ≡ up (current r) = current-update_context up p v in
    let c =
      count-IsCounted (λ s. record s { parallel_regions = bump s.parallel_regions }) 0 (λ s. refl) q
        (update_context-IsActive up p v) in
    record {
      active = c.active;
      mode = c.mode ∙ ap (λ x. x.mode) same;
      counted =
          c.counted
          ∙ ap
              (λ x.
                if is_monitored x.mode
                then modify_at bump 0 (counters x.stats)
                else counters x.stats)
              same;
    }

call-IsCounted : (h : Hook) (r : Runtime) → IsActive r → IsCounted r (call h r) (index h)
unfolding call on_task_create on_single on_taskwait on_barrier on_critical on_for_loop on_atomic
    on_sections on_master on_ordered on_taskgroup on_simd on_cancel on_flush on_taskyield
call-IsCounted parallel_begin r v = parallel-IsCounted r v
call-IsCounted task_create r v =
    count-IsCounted (λ s. record s { tasks_created = bump s.tasks_created }) 1 (λ s. refl) r v
call-IsCounted single r v =
    count-IsCounted (λ s. record s { single_regions = bump s.single_regions }) 2 (λ s. refl) r v
call-IsCounted taskwait r v =
    count-IsCounted (λ s. record s { taskwaits = bump s.taskwaits }) 3 (λ s. refl) r v
call-IsCounted barrier r v =
    count-IsCounted (λ s. record s { barriers = bump s.barriers }) 4 (λ s. refl) r v
call-IsCounted critical r v =
    count-IsCounted (λ s. record s { criticals = bump s.criticals }) 5 (λ s. refl) r v
call-IsCounted for_loop r v =
    count-IsCounted (λ s. record s { for_loops = bump s.for_loops }) 6 (λ s. refl) r v
call-IsCounted atomic r v =
    count-IsCounted (λ s. record s { atomics = bump s.atomics }) 7 (λ s. refl) r v
call-IsCounted sections r v =
    count-IsCounted (λ s. record s { sections = bump s.sections }) 8 (λ s. refl) r v
call-IsCounted master r v =
    count-IsCounted (λ s. record s { masters = bump s.masters }) 9 (λ s. refl) r v
call-IsCounted ordered r v =
    count-IsCounted (λ s. record s { ordered = bump s.ordered }) 10 (λ s. refl) r v
call-IsCounted taskgroup r v =
    count-IsCounted (λ s. record s { taskgroups = bump s.taskgroups }) 11 (λ s. refl) r v
call-IsCounted simd r v =
    count-IsCounted (λ s. record s { simd_constructs = bump s.simd_constructs }) 12 (λ s. refl) r v
call-IsCounted cancel r v =
    count-IsCounted (λ s. record s { cancels = bump s.cancels }) 13 (λ s. refl) r v
call-IsCounted flush r v =
    count-IsCounted (λ s. record s { flushes = bump s.flushes }) 14 (λ s. refl) r v
call-IsCounted taskyield r v =
    count-IsCounted (λ s. record s { taskyields = bump s.taskyields }) 15 (λ s. refl) r v

at_or-bump :
    (i j : ℕ) (xs : List ℕ)
    → i < length xs
    → at_or 0 i (modify_at bump j xs) % 2 ^ 32 ≡ (at_or 0 i xs + (if j == i then 1 else 0)) % 2 ^ 32
at_or-bump i j [] h = absurd (omega (arith, h))
at_or-bump zero zero (x ∷ xs) h = omega arith
at_or-bump zero (suc j) (x ∷ xs) h = ground arith
at_or-bump (suc i) zero (x ∷ xs) h = ground arith
at_or-bump (suc i) (suc j) (x ∷ xs) h = at_or-bump i j xs (omega (arith, h)) ∙ ground arith

-- How often the construct of counter `i` occurs.
abbrev pub occurrences : ℕ → List Hook → ℕ
occurrences i hs = count_if (λ h. index h == i) hs

-- In a monitored mode, each of the sixteen counters of the active context, which exists, goes up by
-- the number of times that its construct was entered, modulo the 32 bits of an `int`; in normal
-- mode none moves.
pub counts_exactly :
    (hs : List Hook) (i : ℕ) (r : Runtime)
    → IsActive r
    → i < 16
    → at_or 0 i (counters (current (call_all hs r)).stats) % 2 ^ 32
      ≡ (at_or 0 i (counters (current r).stats)
          + (if is_monitored (current r).mode then occurrences i hs else 0))
        % 2 ^ 32
unfolding call_all
counts_exactly [] i r v h = ground arith
counts_exactly (k ∷ hs) i r v h =
    let c = call-IsCounted k r v in
    let later = counts_exactly hs i (call k r) c.active h in
    elim (Bool-cases (is_monitored (current r).mode)) [
      | inl e ↦ ground (
        arith,
        later,
        ap is_monitored c.mode,
        ap (λ xs. at_or 0 i xs) c.counted,
        at_or-bump i (index k) (counters (current r).stats) h,
        e,
      )
      | inr e ↦ ground (arith, later, ap is_monitored c.mode, ap (λ xs. at_or 0 i xs) c.counted, e)
    ]
