-- ===== src/JobQueue/Places.antt =====
-- Places in the queue of ids of job_queue.cpp, counted from 1.
use text.Mathlib.TextEquality.{eq_iff}
use c_tests_runner.Base.{
  ℕ, ◌+◌, ◌≡◌, ◌≢◌, refl, ◌∙◌, String, true, false, Option, none, some, List, [], ◌∷◌, ◌++◌, length,
  ◌=ₛ◌, if◌then◌else◌, arith,
}
use c_tests_runner.Base.Int.{ℤ, pos}
use c_tests_runner.Base.Maps.{contains}
use c_tests_runner.JobQueue.Jobs.{remove_id}

abbrev pub place : String → ℕ → List String → Option ℤ
place id i [] = none
place id i (j ∷ js) = if j =ₛ id then some (pos (i + 1)) else place id (i + 1) js

abbrev pub Distinct : List String → Type 0
Distinct [] = Unit
Distinct (x ∷ xs) = (contains x xs ≡ false) × Distinct xs

pub place-contains :
    (id : String) (i : ℕ) (ids : List String) → contains id ids ≡ false → place id i ids ≡ none
place-contains id i [] h = refl
place-contains id i (x ∷ xs) h = ground (arith, place-contains id (i + 1) xs)

pub place-found :
    (id : String) (i : ℕ) (ids : List String) → contains id ids ≡ true → place id i ids ≢ none
place-found id i [] h e = cc
place-found id i (x ∷ xs) h e = ground (arith, place-found id (i + 1) xs)

pub place-append :
    (id new : String) (i : ℕ) (ids : List String)
    → contains new ids ≡ false
    → place id i (ids ++ new ∷ [])
      ≡ (if new =ₛ id then some (pos (length ids + i + 1)) else place id i ids)
place-append id new i [] h = ground arith
place-append id new i (x ∷ xs) h =
    ground (arith, place-append id new (i + 1) xs, eq_iff x id, eq_iff x new, eq_iff new id)

pub contains-append :
    (k new : String) (ids : List String)
    → contains k (ids ++ new ∷ []) ≡ (if contains k ids then true else new =ₛ k)
contains-append k new [] = ground arith
contains-append k new (x ∷ xs) = ground (arith, contains-append k new xs)

pub Distinct-append :
    (new : String) (ids : List String)
    → contains new ids ≡ false
    → Distinct ids
    → Distinct (ids ++ new ∷ [])
Distinct-append new [] h d = (refl, tt)
Distinct-append new (x ∷ xs) h d = (
  contains-append x new xs ∙ ground (arith, d.0, eq_iff new x, eq_iff x new),
  Distinct-append new xs (ground arith) d.1,
)

pub contains-remove_id :
    (id k : String) (ids : List String)
    → contains k (remove_id id ids) ≡ (if id =ₛ k then false else contains k ids)
unfolding remove_id
contains-remove_id id k [] = ground arith
contains-remove_id id k (x ∷ xs) =
    ground (arith, contains-remove_id id k xs, eq_iff x id, eq_iff x k, eq_iff id k)

pub Distinct-remove_id :
    (id : String) (ids : List String) → Distinct ids → Distinct (remove_id id ids)
unfolding remove_id
Distinct-remove_id id [] d = tt
Distinct-remove_id id (x ∷ xs) d =
    ground
      (arith, Distinct-remove_id id xs d.1, contains-remove_id id x xs, eq_iff x id, eq_iff id x)
