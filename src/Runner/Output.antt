-- ===== src/Runner/Output.antt =====
-- What the runner writes is what the server reads.
use c_tests_runner.Base.{ℕ, ◌≡◌, ◌=ₛ◌, Bool, true, false, some, [], All, arith}
use mathlib.Core.Path.{subst}
use mathlib.Core.List.{append-nil}
use c_tests_runner.Base.Result.{ok}
use c_tests_runner.TestData.Store.{serialize, deserialize}
use c_tests_runner.TestData.Keys.{IsSorted}
use c_tests_runner.TestData.StreamTrip.{EntryFits, deserialize-serialize}
use c_tests_runner.TestData.Typed.{load}
use c_tests_runner.Runner.{Runner}
use c_tests_runner.Runner.Execution.{finish, Files}

-- If an output directory is set and output.bin can be opened, the server loads from it exactly the
-- entries that the runner had at the end, provided that they are in the order of a std::map and
-- within the caps of the format.
pub load-finish :
    {M : Type 0} (meta_of : ℕ → M) (meta_opens : Bool) (r : Runner M) (files : Files M)
    → (r.config.output_dir =ₛ "") ≡ false
    → IsSorted r.output_data
    → All EntryFits r.output_data
    → load (finish meta_of true meta_opens r files).output_bin ≡ some (ok r.output_data)
unfolding finish load
load-finish meta_of meta_opens r files o s f =
    let trip : deserialize (serialize r.output_data) ≡ some (ok r.output_data) =
      subst (λ p. deserialize p ≡ some (ok r.output_data)) (append-nil (serialize r.output_data))
        (deserialize-serialize r.output_data [] (omega arith) s f) in
    rw (finish, o) trip
