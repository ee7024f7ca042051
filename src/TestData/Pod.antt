-- ===== src/TestData/Pod.antt =====
-- The bytes of a value spell it.
use native.Mathlib.Nat.{pow-suc}
use c_tests_runner.Base.{
  ℕ, zero, suc, ◌/◌, ◌^◌, ◌<◌, ◌≡◌, refl, ap, String, ◌++◌, length, length-append, take-append_len,
  drop-append_len, arith,
}
use c_tests_runner.Base.Result.{ok}
use c_tests_runner.TestData.{Bytes, append_pod, value_of, load_pod, check_room}

pub length-append_pod : (w v : ℕ) → length (append_pod w v) ≡ w
unfolding append_pod
length-append_pod zero v = refl
length-append_pod (suc w) v = ap suc (length-append_pod w (v / 256))

pub value_of-append_pod : (w v : ℕ) → v < 256 ^ w → value_of (append_pod w v) ≡ v
unfolding append_pod value_of
value_of-append_pod zero v h = omega arith
value_of-append_pod (suc w) v h =
    omega (arith, pow-suc 256 w, value_of-append_pod w (v / 256) (omega (arith, pow-suc 256 w)))

pub check_room-append :
    (xs rest : Bytes) (n : ℕ) (ctx : String) → length xs ≡ n → check_room (xs ++ rest) n ctx ≡ ok tt
unfolding check_room
check_room-append xs rest n ctx e = ground (arith, length-append xs rest)

pub load_pod-append :
    (w v : ℕ) (rest : Bytes) (ctx : String)
    → v < 256 ^ w
    → load_pod w (append_pod w v ++ rest) ctx ≡ ok (v, rest)
unfolding load_pod
load_pod-append w v rest ctx h =
    rw
      (
        take-append_len w (append_pod w v) rest (length-append_pod w v),
        drop-append_len w (append_pod w v) rest (length-append_pod w v),
        value_of-append_pod w v h,
      )
      (ground (arith, length-append (append_pod w v) rest, length-append_pod w v))
