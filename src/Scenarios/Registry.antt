-- ===== src/Scenarios/Registry.antt =====
-- The registry of scenarios while files are loaded into it.
use text.Mathlib.TextEquality.{eq_iff}
use c_tests_runner.Base.{
  ◌≡◌, refl, ap, sym, ◌∙◌, false, ◌&&◌, String, List, [], ◌∷◌, ◌++◌, ◌=ₛ◌, arith, if◌then◌else◌,
  inl, inr, Bool-cases,
}
use mathlib.Core.List.{append-nil, append_assoc}
use c_tests_runner.Base.Result.{Result, ok, err, ◌>>=◌}
use c_tests_runner.Scenarios.Load.{
  JsonScenario, Document, Paths, DirEntry, has_name, register_test, parse_scenario, register_parsed,
  load_file, load_entries,
}

module _ {S : Type 0} (name_of : S → String) where
  -- No two scenarios have one name.
  abbrev pub IsUnique : List S → Type 0
  IsUnique [] = Unit
  IsUnique (s ∷ ss) = (has_name name_of (name_of s) ss ≡ false) × IsUnique ss

  has_name-append :
      (n : String) (s : S) (ss : List S)
      → has_name name_of n ss ≡ false
      → (name_of s =ₛ n) ≡ false
      → has_name name_of n (ss ++ s ∷ []) ≡ false
  unfolding has_name
  has_name-append n s [] h e = rw e refl
  has_name-append n s (t ∷ ss) h e = ground (arith, has_name-append n s ss)

  append-IsUnique :
      (s : S) (ss : List S)
      → IsUnique ss
      → has_name name_of (name_of s) ss ≡ false
      → IsUnique (ss ++ s ∷ [])
  unfolding has_name
  append-IsUnique s [] u h = (refl, tt)
  append-IsUnique s (t ∷ ss) u h =
      let apart : (name_of s =ₛ name_of t) ≡ false =
        ground (arith, eq_iff (name_of t) (name_of s), eq_iff (name_of s) (name_of t)) in
      let later : has_name name_of (name_of s) ss ≡ false = ground arith in
      (has_name-append (name_of t) s ss u.0 apart, append-IsUnique s ss u.1 later)

  -- A list that continues another.
  abbrev pub Extends : List S → List S → Type 0
  Extends old new = (more : List S) × (new ≡ old ++ more)

  -- What registration keeps: names stay distinct, and nothing that was there moves or goes.
  abbrev pub Keeps : List S → List S → Type 0
  Keeps old new = IsUnique new × Extends old new

  same-Keeps : (ss : List S) → IsUnique ss → Keeps ss ss
  same-Keeps ss u = (u, ([], sym (append-nil ss)))

  register_test-Keeps :
      (s : S) (ss : List S) → IsUnique ss → Keeps ss (register_test name_of s ss).0
  unfolding register_test
  register_test-Keeps s ss u = elim (Bool-cases (has_name name_of (name_of s) ss)) [
    | inl h ↦ rw h (same-Keeps ss u)
    | inr h ↦ rw h (append-IsUnique s ss u h, (s ∷ [], refl))
  ]

module _ {J D S : Type 0} (doc : Document J D) (paths : Paths) (name_of : S → String)
    (scenario_of : JsonScenario J D → S) where
  register_parsed-Keeps :
      (parsed : Result (JsonScenario J D)) (ss : List S)
      → IsUnique name_of ss
      → Keeps name_of ss (register_parsed doc paths name_of scenario_of parsed ss)
  unfolding register_parsed
  register_parsed-Keeps (err what) ss u = same-Keeps name_of ss u
  register_parsed-Keeps (ok scenario) ss u = register_test-Keeps name_of (scenario_of scenario) ss u

  load_file-Keeps :
      (entry : DirEntry J) (ss : List S)
      → IsUnique name_of ss
      → Keeps name_of ss (load_file doc paths name_of scenario_of entry ss)
  unfolding load_file
  load_file-Keeps entry ss u =
      register_parsed-Keeps (entry.content >>= λ j. parse_scenario doc paths entry.parent_path j) ss
        u

  -- However many files of the directory are loaded, and whichever of them fail to parse or repeat a
  -- name, the names of the registry stay distinct, and the scenarios that were registered before
  -- stay in front, in their order.
  pub load_entries-Keeps :
      (entries : List (DirEntry J)) (ss : List S)
      → IsUnique name_of ss
      → Keeps name_of ss (load_entries doc paths name_of scenario_of entries ss)
  unfolding load_entries
  load_entries-Keeps [] ss u = same-Keeps name_of ss u
  load_entries-Keeps (entry ∷ entries) ss u =
      elim (Bool-cases (entry.is_regular_file && (entry.extension =ₛ ".json"))) [
        | inl e ↦
            let mid = load_file doc paths name_of scenario_of entry ss in
            let (um, (first, e₁)) = load_file-Keeps entry ss u in
            let (ul, (later, e₂)) = load_entries-Keeps entries mid um in
            rw e
              (ul, (first ++ later, e₂ ∙ (ap (λ z. z ++ later) e₁ ∙ append_assoc ss first later)))
        | inr e ↦ rw e (load_entries-Keeps entries ss u)
      ]

  -- A file that cannot be parsed, or lacks what a scenario needs, leaves the registry as it would be
  -- if the file were not in the directory; the files before and behind it are loaded as ever.
  pub load_entries_skip :
      (before after : List (DirEntry J)) (bad : DirEntry J) (ss : List S) (what : String)
      → (bad.content >>= λ j. parse_scenario doc paths bad.parent_path j) ≡ err what
      → load_entries doc paths name_of scenario_of (before ++ bad ∷ after) ss
        ≡ load_entries doc paths name_of scenario_of (before ++ after) ss
  unfolding load_entries load_file register_parsed
  load_entries_skip [] after bad ss what h =
      elim (Bool-cases (bad.is_regular_file && (bad.extension =ₛ ".json"))) [
        | inl e ↦ rw (load_entries, e, h) refl
        | inr e ↦ rw (load_entries, e) refl
      ]
  load_entries_skip (entry ∷ before) after bad ss what h =
      load_entries_skip before after bad
        (if entry.is_regular_file && (entry.extension =ₛ ".json")
          then load_file doc paths name_of scenario_of entry ss
          else ss)
        what h
