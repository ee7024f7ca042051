-- ===== src/TestData.antt =====
-- runner_lib/include/test_data.h: the byte level of the test data format. A value of a trivially
-- copyable type is the number that its bytes spell, least significant first (the file fixes
-- x86_64), so `sizeof(T)` is the width.
pub mod Nested
pub mod Fields
pub mod Store
pub mod Typed
pub mod Pod
pub mod NestedTrip
pub mod FieldTrip
pub mod Keys
pub mod StreamTrip
pub mod Access
mod Runs
use c_tests_runner.Base.{
  ℕ, zero, suc, ◌+◌, ◌*◌, ◌/◌, ◌%◌, String, List, [], ◌∷◌, length, take, drop, ltb, if◌then◌else◌,
}
use c_tests_runner.Base.Result.{Result, ok, err}
use Prim.Native.String.{◌++◌}

abbrev pub Bytes : Type 0
Bytes = List ℕ

-- append_pod: the bytes of a value of width `w`.
unfoldable pub append_pod : ℕ → ℕ → Bytes
append_pod zero v = []
append_pod (suc w) v = v % 256 ∷ append_pod w (v / 256)

-- The value that bytes spell.
unfoldable pub value_of : Bytes → ℕ
value_of [] = 0
value_of (b ∷ bs) = b + 256 * value_of bs

abbrev pub truncated {ℓ} : {A : Type ℓ} → String → Result A
truncated ctx = err ("test_data: truncated " ++ ctx)

unfoldable pub load_pod : ℕ → Bytes → String → Result (ℕ × Bytes)
load_pod w p ctx = if ltb (length p) w then truncated ctx else ok (value_of (take w p), drop w p)

unfoldable pub check_room : Bytes → ℕ → String → Result (Unit {0})
check_room p n ctx = if ltb (length p) n then truncated ctx else ok tt
