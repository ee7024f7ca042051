-- ===== src/Monitor.antt =====
-- parallel_lib/{include/par/monitor.h,src/monitor.cpp}: the contexts that a thread counts into. An
-- atomic<int> is its 32 bits and an atomic<long long> its 64; a time in nanoseconds is a number.
pub mod Counting
pub mod Timing
pub mod Span
pub mod Counts
pub mod Isolation
pub mod Work
pub mod Elapsed
mod Runs
use c_tests_runner.Base.{
  ℕ, zero, suc, ◌+◌, ◌%◌, ◌^◌, Bool, true, false, not, Option, none, some, List, [], ◌∷◌, ltb,
  if◌then◌else◌,
}
use c_tests_runner.Base.Int.{ℤ, pos, negsuc}

pub data Mode : Type 0 where
  normal : Mode
  monitor : Mode
  stress : Mode

-- c->mode != Mode::NORMAL
abbrev pub is_monitored : Mode → Bool
is_monitored normal = false
is_monitored monitor = true
is_monitored stress = true

pub record Stats : Type 0 where
  pub parallel_regions : ℕ
  pub tasks_created : ℕ
  pub single_regions : ℕ
  pub taskwaits : ℕ
  pub barriers : ℕ
  pub criticals : ℕ
  pub for_loops : ℕ
  pub atomics : ℕ
  pub sections : ℕ
  pub masters : ℕ
  pub ordered : ℕ
  pub taskgroups : ℕ
  pub simd_constructs : ℕ
  pub cancels : ℕ
  pub flushes : ℕ
  pub taskyields : ℕ
  pub max_threads_observed : ℕ
  pub work_ns : ℕ
  pub span_ns : ℕ

pub record MonitorContext : Type 0 where
  pub mode : Mode
  pub max_threads : ℤ
  pub stats : Stats

-- The initial values, which `reset_stats` also stores.
abbrev pub zero_stats : Stats
zero_stats = record {
  parallel_regions = 0;
  tasks_created = 0;
  single_regions = 0;
  taskwaits = 0;
  barriers = 0;
  criticals = 0;
  for_loops = 0;
  atomics = 0;
  sections = 0;
  masters = 0;
  ordered = 0;
  taskgroups = 0;
  simd_constructs = 0;
  cancels = 0;
  flushes = 0;
  taskyields = 0;
  max_threads_observed = 0;
  work_ns = 0;
  span_ns = 0;
}

abbrev pub new_context : MonitorContext
new_context = record { mode = normal; max_threads = pos 0; stats = zero_stats }

-- What `omp_set_num_threads` and `omp_set_dynamic` set for the calling thread.
pub record Omp : Type 0 where
  pub num_threads : ℕ
  pub dynamic : Bool

-- The span state of a thread: the accumulated depth, the start of the running strand (0 for none),
-- and the shared cell with the longest path of a child.
pub record SpanState : Type 0 where
  pub depth : ℕ
  pub strand_start : ℕ
  pub children_max : Option ℕ

-- A thread and what it shares. The context at 0 is `g_default_ctx`; `active` is `tl_ctx`; `cells` are
-- the atomics that the shared pointers own.
pub record Runtime : Type 0 where
  pub contexts : List MonitorContext
  pub active : Option ℕ
  pub in_work_timing : Bool
  pub span : SpanState
  pub cells : List ℕ
  pub omp : Omp

abbrev pub modify_at {ℓ} : {A : Type ℓ} → (A → A) → ℕ → List A → List A
modify_at f i [] = []
modify_at f zero (x ∷ xs) = f x ∷ xs
modify_at f (suc i) (x ∷ xs) = x ∷ modify_at f i xs

abbrev pub at_or {ℓ} : {A : Type ℓ} → A → ℕ → List A → A
at_or d i [] = d
at_or d zero (x ∷ xs) = x
at_or d (suc i) (x ∷ xs) = at_or d i xs

abbrev pub context_index : Option ℕ → ℕ
context_index none = 0
context_index (some i) = i

-- ctx()
unfoldable pub current : Runtime → MonitorContext
current r = at_or new_context (context_index r.active) r.contexts

unfoldable pub update_context : (MonitorContext → MonitorContext) → Runtime → Runtime
update_context f r = record r { contexts = modify_at f (context_index r.active) r.contexts }

abbrev pub update_stats : (Stats → Stats) → Runtime → Runtime
update_stats f r = update_context (λ c. record c { stats = f c.stats }) r
