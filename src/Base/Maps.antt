-- ===== src/Base/Maps.antt =====
-- Dictionaries keyed by text, as association lists: `std::map` and `std::unordered_map` where the
-- program does not depend on the order of entries.
use text.Mathlib.Text.{◌==◌}
use text.Mathlib.TextEquality.{eq_iff}
use Prim.Native.String.{String}
use mathlib.Core.Path.{◌≡◌}
use mathlib.Core.Bool.{Bool, true, false}
use mathlib.Core.List.{List, [], ◌∷◌}
use mathlib.Core.Option.{Option, none, some}
use native.Mathlib.Omega.{arith}
use c_tests_runner.Base.Tests.{if◌then◌else◌}

module _ {ℓ} {V : Type ℓ} where
  -- m.find(key)
  unfoldable pub lookup : String → List (String × V) → Option V
  lookup key [] = none
  lookup key ((here, value) ∷ rest) = if here == key then some value else lookup key rest

  -- m.erase(key): every entry under the key goes.
  unfoldable pub erase : String → List (String × V) → List (String × V)
  erase key [] = []
  erase key ((here, value) ∷ rest) =
      let kept = erase key rest in if here == key then kept else (here, value) ∷ kept

  -- m[key] = value: in place where the key is present, else at the end.
  unfoldable pub insert : String → V → List (String × V) → List (String × V)
  insert key new [] = (key, new) ∷ []
  insert key new (entry ∷ rest) =
      if entry.0 == key then (key, new) ∷ rest else entry ∷ insert key new rest

  pub lookup-erase :
      (key other : String) (entries : List (String × V))
      → lookup other (erase key entries) ≡ (if key == other then none else lookup other entries)
  unfolding lookup erase
  lookup-erase key other [] = ground arith
  lookup-erase key other ((here, value) ∷ rest) =
      ground
        (arith, lookup-erase key other rest, eq_iff here key, eq_iff key other, eq_iff here other)

  pub lookup-insert :
      (key other : String) (new : V) (entries : List (String × V))
      → lookup other (insert key new entries)
        ≡ (if key == other then some new else lookup other entries)
  unfolding lookup insert
  lookup-insert key other new [] = ground arith
  lookup-insert key other new ((here, value) ∷ rest) = ground (
    arith,
    lookup-insert key other new rest,
    eq_iff here other,
    eq_iff here key,
    eq_iff key other,
  )

-- Membership of a key in a list of keys.
abbrev pub contains : String → List String → Bool
contains k [] = false
contains k (j ∷ ks) = if j == k then true else contains k ks

module _ {ℓ} {V : Type ℓ} where
  unfoldable pub keys : List (String × V) → List String
  keys [] = []
  keys ((k, v) ∷ m) = k ∷ keys m

  -- A write through m[k], which makes a default entry where the key is missing.
  unfoldable pub modify : String → V → (V → V) → List (String × V) → List (String × V)
  modify k d f [] = (k, f d) ∷ []
  modify k d f ((j, w) ∷ m) = if j == k then (k, f w) ∷ m else (j, w) ∷ modify k d f m

  abbrev pub or_default : Option V → V → V
  or_default none d = d
  or_default (some v) d = v

  pub lookup-modify :
      (k j : String) (d : V) (f : V → V) (m : List (String × V))
      → lookup j (modify k d f m)
        ≡ (if k == j then some (f (or_default (lookup k m) d)) else lookup j m)
  unfolding lookup modify
  lookup-modify k j d f [] = ground (arith, eq_iff k j, eq_iff k k)
  lookup-modify k j d f ((i, w) ∷ m) =
      ground (arith, eq_iff k j, eq_iff i k, eq_iff i j, lookup-modify k j d f m)

  -- A key that is found is among the keys.
  pub contains-keys :
      (k : String) (v : V) (m : List (String × V))
      → lookup k m ≡ some v
      → contains k (keys m) ≡ true
  unfolding lookup keys
  contains-keys k v [] h = cc
  contains-keys k v ((j, w) ∷ m) h = ground (arith, contains-keys k v m)

pub ruleset map_laws = (lookup-insert, lookup-erase, lookup-modify)
