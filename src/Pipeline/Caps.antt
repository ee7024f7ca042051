-- ===== src/Pipeline/Caps.antt =====
-- The caps of a job: request, assignment, server.
use c_tests_runner.Base.{◌≡◌, none, some, Option}
use c_tests_runner.Base.Int.{ℤ, pos}
use c_tests_runner.Base.Result.{Result, ok}
use c_tests_runner.Pipeline.{Given, Request, Services}
use c_tests_runner.Pipeline.Context.{times, value, Inputs}

-- The first of the request's value, the assignment's and the server's.
abbrev pub prefer : Given ℤ → Option ℤ → ℤ → Result ℤ
prefer (some given) assigned default = given
prefer none (some a) default = ok a
prefer none none default = ok default

module _ {J S G D : Type 0} (service : Services J S G D) where
  -- The caps as they are read, in the order of the fields.
  abbrev pub CapsRead : Request J → Inputs → Type 0
  CapsRead req inputs =
      (value req.threads service.default_threads ≡ ok inputs.params.threads)
      × (value req.memory_limit_mb service.default_memory_limit_mb
          ≡ ok inputs.params.memory_limit_mb)
      × (value req.wall_time_sec service.default_wall_time_sec ≡ ok inputs.params.wall_time_sec)
      × (value req.cpu_time_sec service.default_cpu_time_sec ≡ ok inputs.params.cpu_time_sec)
      × (value req.max_processes (times inputs.params.threads service.sandbox_process_multiplier)
          ≡ ok inputs.params.max_processes)
      × (value req.warmup_iterations (pos 0) ≡ ok inputs.params.warmup_iterations)
