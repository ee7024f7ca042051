-- ===== src/Assignment/Packages.antt =====
-- The allowed packages of an assignment.
use text.Mathlib.TextEquality.{eq_iff}
use c_tests_runner.Base.{
  ◌≡◌, ◌≢◌, ◌⊎◌, inl, inr, refl, ◌∙◌, Bool, false, ◌||◌, Option, none, some, String, List, [], ◌∷◌,
  ◌=ₛ◌, arith, Bool-cases,
}
use c_tests_runner.Base.Maps.{contains}
use c_tests_runner.Base.Result.{Result, ok, err}
use c_tests_runner.Pipeline.{Given, AssignmentConfig}
use c_tests_runner.Pipeline.Context.{value}
use c_tests_runner.JobQueue.Places.{Distinct, Distinct-append, contains-append}
use c_tests_runner.Assignment.{
  ConfigFile, append_one, append_unique, packages_of, append_packages, default_allowed_packages,
  use_member, read_caps, read_config, with_defaults, load,
}

contains-append_one :
    (k p : String) (r : List String) → contains k (append_one p r) ≡ (contains k r || p =ₛ k)
contains-append_one k p r = ground (arith, contains-append k p r, eq_iff p k)

contains-append_unique :
    (k : String) (pkgs r : List String)
    → contains k (append_unique pkgs r) ≡ (contains k r || contains k pkgs)
unfolding append_unique
contains-append_unique k [] r = ground arith
contains-append_unique k (p ∷ pkgs) r =
    contains-append_unique k pkgs (append_one p r) ∙ ground (arith, contains-append_one k p r)

-- The package belongs to a framework of the list.
abbrev pub is_provided : String → List String → Bool
is_provided k [] = false
is_provided k (fw ∷ frameworks) = contains k (packages_of fw) || is_provided k frameworks

contains-append_packages :
    (k : String) (frameworks r : List String)
    → contains k (append_packages frameworks r) ≡ (contains k r || is_provided k frameworks)
unfolding append_packages
contains-append_packages k [] r = ground arith
contains-append_packages k (fw ∷ frameworks) r =
    contains-append_packages k frameworks (append_unique (packages_of fw) r)
    ∙ ground (arith, contains-append_unique k (packages_of fw) r)

append_one-Distinct : (p : String) (r : List String) → Distinct r → Distinct (append_one p r)
append_one-Distinct p r d = elim (Bool-cases (contains p r)) [
  | inl h ↦ rw h d
  | inr h ↦ rw h (Distinct-append p r h d)
]

append_unique-Distinct : (pkgs r : List String) → Distinct r → Distinct (append_unique pkgs r)
unfolding append_unique
append_unique-Distinct [] r d = d
append_unique-Distinct (p ∷ pkgs) r d =
    append_unique-Distinct pkgs (append_one p r) (append_one-Distinct p r d)

append_packages-Distinct :
    (frameworks r : List String) → Distinct r → Distinct (append_packages frameworks r)
unfolding append_packages
append_packages-Distinct [] r d = d
append_packages-Distinct (fw ∷ frameworks) r d =
    append_packages-Distinct frameworks (append_unique (packages_of fw) r)
      (append_unique-Distinct (packages_of fw) r d)

-- The packages are those of the frameworks, each once.
abbrev pub IsUnion : List String → List String → Type 0
IsUnion frameworks packages =
    Distinct packages × ((k : String) → contains k packages ≡ is_provided k frameworks)

default_allowed_packages-IsUnion :
    (frameworks : List String) → IsUnion frameworks (default_allowed_packages frameworks)
unfolding default_allowed_packages
default_allowed_packages-IsUnion frameworks = (
  append_packages-Distinct frameworks [] tt,
  λ k. contains-append_packages k frameworks [] ∙ ground arith,
)

-- The packages that a file lists.
abbrev pub own_packages : Given (List String) → List String
own_packages (some (ok packages)) = packages
own_packages _ = []

abbrev pub own_of : Option (Result ConfigFile) → List String
own_of (some (ok j)) = own_packages j.allowed_packages
own_of _ = []

-- No packages, or those of the file.
abbrev Unset : List String → AssignmentConfig → Type 0
Unset own cfg = (cfg.allowed_packages ≡ []) ⊎ (cfg.allowed_packages ≡ own)

use_member-Unset :
    {A : Type 0} (own : List String) (cfg : AssignmentConfig) (r : Result A)
    (next : A → AssignmentConfig)
    → cfg.allowed_packages ≡ []
    → ((a : A) → Unset own (next a))
    → Unset own (use_member cfg r next)
use_member-Unset own cfg (err what) next e h = inl e
use_member-Unset own cfg (ok a) next e h = h a

value-Unset :
    (j : ConfigFile) (cfg : AssignmentConfig) (given : Given (List String))
    → cfg.allowed_packages ≡ []
    → Unset (own_packages given) (
        use_member cfg
          (value given cfg.allowed_packages)
          (λ packages. read_caps j (record cfg { allowed_packages = packages })))
value-Unset j cfg none e = inl e
value-Unset j cfg (some (err what)) e = inl e
value-Unset j cfg (some (ok packages)) e = inr refl

read_config-Unset : (parsed : Result ConfigFile) → Unset (own_of (some parsed)) (read_config parsed)
read_config-Unset (err what) = inl refl
read_config-Unset (ok j) =
    let own = own_packages j.allowed_packages in
    use_member-Unset own _ (value j.name "") _ refl (λ name.
      use_member-Unset own _ (value j.mode "correctness") _ refl (λ mode.
        use_member-Unset own _ (value j.correctness_mode "stress") _ refl (λ correctness.
          use_member-Unset own _ (value j.allowed_frameworks []) _ refl
            (λ frameworks. value-Unset j _ j.allowed_packages refl))))

-- The packages of a configuration: the file's, or the frameworks'.
abbrev pub IsChosen : Option (Result ConfigFile) → AssignmentConfig → Type 0
IsChosen file cfg =
    IsUnion cfg.allowed_frameworks cfg.allowed_packages
    ⊎ ((cfg.allowed_packages ≡ own_of file) × (own_of file ≢ []))

with_defaults-IsChosen :
    (file : Option (Result ConfigFile)) (cfg : AssignmentConfig) (packages : List String)
    → cfg.allowed_packages ≡ packages
    → Unset (own_of file) cfg
    → IsChosen file (with_defaults cfg packages)
with_defaults-IsChosen file cfg [] e u =
    inl (default_allowed_packages-IsUnion cfg.allowed_frameworks)
with_defaults-IsChosen file cfg (p ∷ packages) e (inl none_set) = cc
with_defaults-IsChosen file cfg (p ∷ packages) e (inr own) = inr (own, λ empty. cc)

-- Whatever the file of an assignment is, the allowed packages of its configuration are the ones that
-- the file lists, if it lists any; and if not, or where reading stopped before them, each package of
-- an allowed framework, once, and no other.
pub load-IsChosen : (file : Option (Result ConfigFile)) → IsChosen file (load file)
unfolding load
load-IsChosen none = inl (tt, λ k. refl)
load-IsChosen (some parsed) =
    with_defaults-IsChosen (some parsed) (read_config parsed) (read_config parsed).allowed_packages
      refl (read_config-Unset parsed)
