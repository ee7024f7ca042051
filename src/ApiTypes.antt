-- ===== src/ApiTypes.antt =====
-- server_core/src/api_types.h: the enumerations of the API and their names on the wire.
pub mod Names
use c_tests_runner.Base.{String, Bool, ◌||◌, ◌=ₛ◌, if◌then◌else◌}
use c_tests_runner.Base.Result.{Result}
use Prim.Native.String.{◌++◌}

pub data TestMode : Type 0 where
  correctness performance all : TestMode

unfoldable pub test_mode_to_string : TestMode → String
test_mode_to_string correctness = "correctness"
test_mode_to_string performance = "performance"
test_mode_to_string all = "all"

unfoldable pub test_mode_from_string : String → Result TestMode
test_mode_from_string s =
    if s =ₛ "correctness"
    then Result.ok correctness
    else if s =ₛ "performance"
    then Result.ok performance
    else if s =ₛ "all"
    then Result.ok all
    else Result.err ("Invalid mode: '" ++ s ++ "'. Must be 'correctness', 'performance', or 'all'")

unfoldable pub is_valid_test_mode : String → Bool
is_valid_test_mode s = s =ₛ "correctness" || s =ₛ "performance" || s =ₛ "all"

pub data JobStatus : Type 0 where
  queued building running completed failed cancelled : JobStatus

unfoldable pub job_status_to_string : JobStatus → String
job_status_to_string queued = "queued"
job_status_to_string building = "building"
job_status_to_string running = "running"
job_status_to_string completed = "completed"
job_status_to_string failed = "failed"
job_status_to_string cancelled = "cancelled"

unfoldable pub job_status_from_string : String → Result JobStatus
job_status_from_string s =
    if s =ₛ "queued"
    then Result.ok queued
    else if s =ₛ "building"
    then Result.ok building
    else if s =ₛ "running"
    then Result.ok running
    else if s =ₛ "completed"
    then Result.ok completed
    else if s =ₛ "failed"
    then Result.ok failed
    else if s =ₛ "cancelled"
    then Result.ok cancelled
    else Result.err ("Invalid job status: '" ++ s ++ "'")

pub data QueueStatus : Type 0 where
  busy idle : QueueStatus

unfoldable pub queue_status_to_string : QueueStatus → String
queue_status_to_string busy = "busy"
queue_status_to_string idle = "idle"

pub data ResponseStatus : Type 0 where
  ok error rejected : ResponseStatus

unfoldable pub response_status_to_string : ResponseStatus → String
response_status_to_string ResponseStatus.ok = "ok"
response_status_to_string error = "error"
response_status_to_string rejected = "rejected"
