-- ===== src/Monitor/Elapsed.antt =====
-- The span of a task tree, against the time that its root took.
use mathlib.Core.Path.{subst}
use c_tests_runner.Base.{
  ℕ, ◌+◌, ◌-◌, ◌≡◌, ◌<◌, ◌≤◌, refl, ap, ◌∙◌, true, some, List, [], ◌∷◌, ◌++◌, length, arith, ltb,
  if◌then◌else◌,
}
use c_tests_runner.Monitor.{is_monitored, SpanState, Runtime, modify_at, current, update_context}
use c_tests_runner.Monitor.Counting.{raise_to}
use c_tests_runner.Monitor.Span.{
  SpanChildCtx, raise_cell, clear_cell, closed_depth, joined_depth, raise_span_ns, span_init_root,
  span_finalize_root, span_prepare_child, span_enter_task, span_exit_task, span_sync_children,
}
use c_tests_runner.Monitor.Counts.{IsActive, current-update_context, update_context-IsActive}

-- A frame of a task that the thread runs inside another: what `span_enter_task` saved, and the
-- context of the child.
abbrev pub Frame : Type 0
Frame = SpanState × SpanChildCtx

pub record Thread : Type 0 where
  pub now : ℕ
  pub runtime : Runtime
  pub frames : List Frame

-- What happens on the thread of the root: time passes, other threads write to shared cells, a child
-- is spawned, the thread takes up a task (of any parent) or ends one, and it has waited for children.
pub data Step : Thread → Thread → Type 0 where
  passes : {t : Thread} (d : ℕ) → Step t (record t { now = t.now + d })
  writes :
      {t : Thread} (p value : ℕ)
      → Step t (record t {
        runtime = record (t.runtime) { cells = modify_at (λ v. value) p t.runtime.cells };
      })
  spawns : {t : Thread} → Step t (record t { runtime = (span_prepare_child t.now t.runtime).1 })
  enters :
      {t : Thread} (child : SpanChildCtx)
      → Step t (record t {
        runtime = (span_enter_task t.now child t.runtime).1;
        frames = ((span_enter_task t.now child t.runtime).0, child) ∷ t.frames;
      })
  exits :
      {now : ℕ} {r : Runtime} (saved : SpanState) (child : SpanChildCtx) (frames : List Frame)
      → Step
          (record { now = now; runtime = r; frames = (saved, child) ∷ frames })
          (record { now = now; runtime = span_exit_task now saved child r; frames = frames })
  syncs : {t : Thread} → Step t (record t { runtime = span_sync_children t.now t.runtime })

pub data Reach (s : Thread) : Thread → Type 0 where
  here : Reach s s
  next : {r t : Thread} → Reach s r → Step r t → Reach s t

-- The depth of the state covers the time from `began` to its running strand.
abbrev Covers : ℕ → ℕ → SpanState → Type 0
Covers began now s =
    (0 < s.strand_start) × (s.strand_start ≤ now) × (s.strand_start ≤ began + s.depth)

-- The root's state: the saved one of the outermost frame, or the running one.
abbrev root_state : SpanState → List Frame → SpanState
root_state s [] = s
root_state s ((saved, child) ∷ frames) = root_state saved frames

pub record IsCovered (began : ℕ) (t : Thread) : Type 0 where
  active : IsActive t.runtime
  mode : is_monitored (current t.runtime).mode ≡ true
  positive : 0 < t.now
  covers : Covers began t.now (root_state t.runtime.span t.frames)

raise_to-le : (a b : ℕ) → (b ≤ raise_to a b)
raise_to-le a b = ground arith

span_of_prepare :
    (now : ℕ) (r : Runtime)
    → is_monitored (current r).mode ≡ true
    → (span_prepare_child now r).1 ≡ record r {
      span = record (r.span) {
        depth = closed_depth now r.span;
        strand_start = if ltb 0 r.span.strand_start then now else r.span.strand_start;
      };
    }
unfolding span_prepare_child
span_of_prepare now r m = rw (span_prepare_child, m) refl

advanced :
    (began now depth : ℕ) (s : SpanState)
    → Covers began now s
    → closed_depth now s ≤ depth
    → Covers began now (record s {
      depth = depth;
      strand_start = if ltb 0 s.strand_start then now else s.strand_start;
    })
advanced began now depth s c h = ground (arith, c, h)

move_root :
    (began now : ℕ) (s u : SpanState) (frames : List Frame)
    → (Covers began now s → Covers began now u)
    → Covers began now (root_state s frames)
    → Covers began now (root_state u frames)
move_root began now s u [] f c = f c
move_root began now s u ((saved, child) ∷ frames) f c = c

later : (began now d : ℕ) (s : SpanState) → Covers began now s → Covers began (now + d) s
later began now d s c = (c.0, omega (arith, c.1), c.2)

enter_result :
    (now : ℕ) (child : SpanChildCtx) (r : Runtime)
    → is_monitored (current r).mode ≡ true
    → (span_enter_task now child r) ≡ (
      r.span,
      record r {
        span = record {
          depth = child.parent_depth;
          strand_start = now;
          children_max = some (length r.cells);
        };
        cells = r.cells ++ 0 ∷ [];
      },
    )
unfolding span_enter_task
enter_result now child r m = rw (span_enter_task, m) refl

exit_result :
    (now : ℕ) (saved : SpanState) (child : SpanChildCtx) (r : Runtime)
    → is_monitored (current r).mode ≡ true
    → span_exit_task now saved child r
      ≡ raise_span_ns (joined_depth now r) (record r {
        span = saved;
        cells = raise_cell child.parent_children_max (joined_depth now r) r.cells;
      })
unfolding span_exit_task
exit_result now saved child r m = rw (span_exit_task, m) refl

sync_result :
    (now : ℕ) (r : Runtime)
    → is_monitored (current r).mode ≡ true
    → span_sync_children now r ≡ record r {
      span = record (r.span) {
        depth = joined_depth now r;
        strand_start = if ltb 0 r.span.strand_start then now else r.span.strand_start;
      };
      cells = clear_cell r.span.children_max r.cells;
    }
unfolding span_sync_children
sync_result now r m = rw (span_sync_children, m) refl

raise_span-current :
    (depth : ℕ) (r : Runtime)
    → IsActive r
    → current (raise_span_ns depth r) ≡ record (current r) {
      stats = record ((current r).stats) { span_ns = raise_to depth (current r).stats.span_ns };
    }
raise_span-current depth r v =
    current-update_context
      (λ c. record c { stats = record (c.stats) { span_ns = raise_to depth c.stats.span_ns } }) r v

step-IsCovered : (began : ℕ) (s t : Thread) → Step s t → IsCovered began s → IsCovered began t
unfolding current update_context
step-IsCovered began s t (passes d) i = record {
  active = i.active;
  mode = i.mode;
  positive = omega (arith, i.positive);
  covers = later began s.now d (root_state s.runtime.span s.frames) i.covers;
}
step-IsCovered began s t (writes p value) i = record {
  active = i.active;
  mode = i.mode;
  positive = i.positive;
  covers = i.covers;
}
step-IsCovered began s t spawns i = rw (span_of_prepare s.now s.runtime i.mode) (record {
  active = i.active;
  mode = i.mode;
  positive = i.positive;
  covers =
      move_root began s.now s.runtime.span _ s.frames
        (λ c.
          advanced began s.now (closed_depth s.now s.runtime.span) s.runtime.span c (omega arith))
        i.covers;
})
step-IsCovered began s t (enters child) i =
    rw (enter_result s.now child s.runtime i.mode)
      (record { active = i.active; mode = i.mode; positive = i.positive; covers = i.covers })
step-IsCovered began s t (exits {now = now} {r = r} saved child frames) i =
    let q : Runtime = record r {
      span = saved;
      cells = raise_cell child.parent_children_max (joined_depth now r) r.cells;
    } in
    rw (exit_result now saved child r i.mode) (record {
      active =
          update_context-IsActive
            (λ c. record c {
              stats = record (c.stats) { span_ns = raise_to (joined_depth now r) c.stats.span_ns };
            })
            q i.active;
      mode =
          ap (λ c. is_monitored c.mode) (raise_span-current (joined_depth now r) q i.active)
          ∙ i.mode;
      positive = i.positive;
      covers = i.covers;
    })
step-IsCovered began s t syncs i = rw (sync_result s.now s.runtime i.mode) (record {
  active = i.active;
  mode = i.mode;
  positive = i.positive;
  covers =
      move_root began s.now s.runtime.span _ s.frames
        (λ c. advanced began s.now (joined_depth s.now s.runtime) s.runtime.span c (ground arith))
        i.covers;
})

Reach-IsCovered : (began : ℕ) (s t : Thread) → Reach s t → IsCovered began s → IsCovered began t
Reach-IsCovered began s t here i = i
Reach-IsCovered began s t (next {r = r} before step) i =
    step-IsCovered began r t step (Reach-IsCovered began s r before i)

abbrev pub started : ℕ → Runtime → Thread
started began r = record { now = began; runtime = span_init_root began r; frames = [] }

start-IsCovered :
    (began : ℕ) (r : Runtime)
    → IsActive r
    → is_monitored (current r).mode ≡ true
    → 0 < began
    → IsCovered began (started began r)
unfolding span_init_root current
start-IsCovered began r v m z =
    rw (span_init_root, m)
      (record { active = v; mode = m; positive = z; covers = (z, omega arith, omega arith) })

finalize_result :
    (now : ℕ) (r : Runtime)
    → is_monitored (current r).mode ≡ true
    → span_finalize_root now r
      ≡ raise_span_ns
          (joined_depth now r)
          (record r { span = record (r.span) { depth = joined_depth now r; strand_start = 0 } })
unfolding span_finalize_root
finalize_result now r m = rw (span_finalize_root, m) refl

-- In a monitored mode and with a clock past 0, whatever tasks are spawned, run on the root's thread
-- or joined, and whatever other threads report for theirs, the span that is on record after the
-- root has ended is at least the time between its beginning and its end. So it is never below the
-- elapsed time, also where the longest path of the task tree is shorter: waiting for children
-- counts as a strand of the parent.
pub span_covers_elapsed :
    (began : ℕ) (r : Runtime) (t : Thread)
    → IsActive r
    → is_monitored (current r).mode ≡ true
    → 0 < began
    → Reach (started began r) t
    → t.frames ≡ []
    → t.now - began ≤ (current (span_finalize_root t.now t.runtime)).stats.span_ns
unfolding current
span_covers_elapsed began r t v m z reach f =
    let i = Reach-IsCovered began (started began r) t reach (start-IsCovered began r v m z) in
    let c = subst (λ fs. Covers began t.now (root_state t.runtime.span fs)) f i.covers in
    let total = joined_depth t.now t.runtime in
    let q : Runtime = record (t.runtime) {
      span = record (t.runtime.span) { depth = total; strand_start = 0 };
    } in
    rw (finalize_result t.now t.runtime i.mode, raise_span-current total q i.active)
      (ground (arith, c))
