-- ===== src/Monitor/Span.antt =====
-- parallel_lib/src/monitor.cpp: the span hooks, at a reading of the clock. A shared atomic is a cell,
-- and `make_shared` adds one.
use c_tests_runner.Base.{
  ℕ, ◌+◌, ◌-◌, not, Option, none, some, List, [], ◌∷◌, ◌++◌, length, ltb, if◌then◌else◌,
}
use c_tests_runner.Monitor.{
  is_monitored, Runtime, SpanState, modify_at, at_or, current, update_context, update_stats,
}
use c_tests_runner.Monitor.Counting.{raise_to}

-- The compare-exchange loop of `atomic_max`, on a cell.
abbrev pub raise_cell : Option ℕ → ℕ → List ℕ → List ℕ
raise_cell none value cells = cells
raise_cell (some p) value cells = modify_at (raise_to value) p cells

abbrev pub read_cell : Option ℕ → List ℕ → ℕ
read_cell none cells = 0
read_cell (some p) cells = at_or 0 p cells

abbrev pub clear_cell : Option ℕ → List ℕ → List ℕ
clear_cell none cells = cells
clear_cell (some p) cells = modify_at (λ v. 0) p cells

pub record SpanChildCtx : Type 0 where
  pub parent_depth : ℕ
  pub parent_children_max : Option ℕ

unfoldable pub span_save_state : Runtime → SpanState
span_save_state r = r.span

unfoldable pub span_restore_state : SpanState → Runtime → Runtime
span_restore_state saved r = record r { span = saved }

unfoldable pub span_init_root : ℕ → Runtime → Runtime
unfolding current
span_init_root now r = if not (is_monitored (current r).mode) then r else record r {
  span = record { depth = 0; strand_start = now; children_max = some (length r.cells) };
  cells = r.cells ++ 0 ∷ [];
}

-- The depth with the running strand, up to now.
abbrev pub closed_depth : ℕ → SpanState → ℕ
closed_depth now s = if ltb 0 s.strand_start then s.depth + (now - s.strand_start) else s.depth

-- The depth where the children have ended too.
abbrev pub joined_depth : ℕ → Runtime → ℕ
joined_depth now r = raise_to (read_cell r.span.children_max r.cells) (closed_depth now r.span)

abbrev pub raise_span_ns : ℕ → Runtime → Runtime
raise_span_ns depth r = update_stats (λ s. record s { span_ns = raise_to depth s.span_ns }) r

unfoldable pub span_finalize_root : ℕ → Runtime → Runtime
unfolding current update_context
span_finalize_root now r =
    let total = joined_depth now r in
    if not (is_monitored (current r).mode)
    then r
    else raise_span_ns total
        (record r { span = record (r.span) { depth = total; strand_start = 0 } })

unfoldable pub span_prepare_child : ℕ → Runtime → SpanChildCtx × Runtime
unfolding current
span_prepare_child now r =
    let reached = closed_depth now r.span in
    if not (is_monitored (current r).mode)
    then (record { parent_depth = 0; parent_children_max = none }, r)
    else (
      record { parent_depth = reached; parent_children_max = r.span.children_max },
      record r {
        span = record (r.span) {
          depth = reached;
          strand_start = if ltb 0 r.span.strand_start then now else r.span.strand_start;
        };
      },
    )

abbrev pub no_state : SpanState
no_state = record { depth = 0; strand_start = 0; children_max = none }

unfoldable pub span_enter_task : ℕ → SpanChildCtx → Runtime → SpanState × Runtime
unfolding current
span_enter_task now span_ctx r = if not (is_monitored (current r).mode) then (no_state, r) else (
  r.span,
  record r {
    span = record {
      depth = span_ctx.parent_depth;
      strand_start = now;
      children_max = some (length r.cells);
    };
    cells = r.cells ++ 0 ∷ [];
  },
)

unfoldable pub span_exit_task : ℕ → SpanState → SpanChildCtx → Runtime → Runtime
unfolding current update_context
span_exit_task now saved span_ctx r =
    let final_depth = joined_depth now r in
    if not (is_monitored (current r).mode)
    then r
    else raise_span_ns final_depth (record r {
      span = saved;
      cells = raise_cell span_ctx.parent_children_max final_depth r.cells;
    })

unfoldable pub span_sync_children : ℕ → Runtime → Runtime
unfolding current
span_sync_children now r = if not (is_monitored (current r).mode) then r else record r {
  span = record (r.span) {
    depth = joined_depth now r;
    strand_start = if ltb 0 r.span.strand_start then now else r.span.strand_start;
  };
  cells = clear_cell r.span.children_max r.cells;
}
