-- ===== src/Scenarios/Echo.antt =====
-- A test's verifier over all members: after a setup from the same JSON, and in general.
use mathlib.Core.Path.{subst}
use c_tests_runner.Base.{
  ◌≡◌, refl, ap, true, false, String, List, [], ◌∷◌, ◌++◌, All, arith, if◌then◌else◌, inl, inr,
  Bool-cases, ◌⊎◌,
}
use c_tests_runner.Base.Result.{ok, err}
use c_tests_runner.TestData.{Bytes}
use c_tests_runner.TestData.Store.{Entries, same, assign}
use c_tests_runner.TestData.Typed.{view, contains}
use c_tests_runner.TestData.Access.{view-assign, view-assign_same}
use c_tests_runner.Scenarios.{
  Json, Double, classify_value, write_json_to_test_data, write_members, setup_input,
}
use c_tests_runner.Scenarios.Verify.{
  Verdict, passes, verify_json_against_output, verify_members, verify_output,
}
use c_tests_runner.Scenarios.Payloads.{bind_ok, payload, write_as-payload}
use c_tests_runner.Scenarios.Agreement.{JsonLaws, IsStorable, verify_as-payload}

-- No key appears twice, as in a JSON object.
abbrev pub IsDistinct : {J : Type 0} → List (Bytes × J) → Type 0
IsDistinct [] = Unit
IsDistinct (e ∷ ms) = All (λ f. same f.0 e.0 ≡ false) ms × IsDistinct ms

contains-view :
    (text : Bytes → String) (k b : Bytes) (m : Entries) → view text k m ≡ ok b → contains k m ≡ true
unfolding view contains
contains-view text k b m h = ground arith

module _ {J D : Type 0} (json : Json J D) (real : Double D) (text : Bytes → String) where
  write_json-payload :
      (key : Bytes) (v : J) (td td' : Entries)
      → write_json_to_test_data json real text key v td ≡ ok td'
      → (b : Bytes) × (payload json real (classify_value json v) v ≡ ok b) × (td' ≡ assign key b td)
  unfolding write_json_to_test_data
  write_json-payload key v td td' h =
      write_as-payload json real text (classify_value json v) key v td td' h

  -- The members that are written leave the other keys alone.
  write_members-other :
      (k : Bytes) (ms : List (Bytes × J)) (td td' : Entries)
      → All (λ f. same f.0 k ≡ false) ms
      → write_members json real text ms td ≡ ok td'
      → view text k td' ≡ view text k td
  unfolding write_members
  write_members-other k [] td td' a h = let e : td ≡ td' = cc in rw (← e) refl
  write_members-other k ((j, v) ∷ ms) td td' a h =
      let (td₁, w, rest) =
        bind_ok (write_json_to_test_data json real text j v td)
          (λ z. write_members json real text ms z) td' h in
      let (b, p, e) = write_json-payload j v td td₁ w in
      rw (write_members-other k ms td₁ td' a.1 rest, e, view-assign text j k b td, a.0) refl

  module _ (laws : JsonLaws json real) (eps : D) where
    verify_json-payload :
        (k : Bytes) (v : J) (m : Entries) (b : Bytes)
        → IsStorable json v
        → payload json real (classify_value json v) v ≡ ok b
        → view text k m ≡ ok b
        → verify_json_against_output json real text k v m eps ≡ passes
    unfolding verify_json_against_output
    verify_json-payload k v m b st p h = rw (
      contains-view text k b m h,
      verify_as-payload json real text laws k m (classify_value json v) v eps b st p h,
    )

    verify_members-write_members :
        (ms : List (Bytes × J)) (td td' : Entries)
        → IsDistinct ms
        → All (λ e. IsStorable json e.1) ms
        → write_members json real text ms td ≡ ok td'
        → verify_members json real text ms td' eps ≡ passes
    unfolding write_members verify_members
    verify_members-write_members [] td td' d st h = refl
    verify_members-write_members ((k, v) ∷ ms) td td' d st h =
        let (td₁, w, rest) =
          bind_ok (write_json_to_test_data json real text k v td)
            (λ z. write_members json real text ms z) td' h in
        let (b, p, e) = write_json-payload k v td td₁ w in
        let kept = write_members-other k ms td₁ td' d.0 rest in
        let there : view text k td' ≡ ok b = rw (kept, e) (view-assign_same text k b td) in
        rw (
          verify_json-payload k v td' b st.0 p there,
          verify_members-write_members ms td₁ td' d.1 st.1 rest,
        )

    -- Entries that a setup made from a JSON object pass the verifier that expects the same object,
    -- whatever the tolerance and whatever was there before, for every kind of value that the setup
    -- accepts, if no key appears twice and the values are within the caps of the format.
    pub verify_output-setup_input :
        (v : J) (td td' : Entries)
        → IsDistinct (json.members v)
        → All (λ e. IsStorable json e.1) (json.members v)
        → setup_input json real text v td ≡ ok td'
        → verify_output json real text v td' eps ≡ passes
    unfolding setup_input verify_output
    verify_output-setup_input v td td' d st h = elim (Bool-cases (json.is_object v)) [
      | inl o ↦ rw o (
          verify_members-write_members (json.members v) td td' d st (
            subst
              (λ b.
                (if b
                  then write_members json real text (json.members v) td
                  else err "JSON scenario: 'input' must be an object")
                ≡ ok td')
              o h))
      | inr o ↦ rw o refl
    ]

  -- A verdict on an object: it passes, with no message, exactly if every member passes; else it
  -- fails with the message of a member that fails, and all members before that one pass.
  abbrev pub FirstFailure : List (Bytes × J) → Entries → D → String → Type 0
  FirstFailure ms output eps message =
      (before : List (Bytes × J)) × (k : Bytes) × (v : J) × (after : List (Bytes × J)) × (ms
        ≡ before ++ (k, v) ∷ after)
      × (verify_members json real text before output eps ≡ passes)
      × (verify_json_against_output json real text k v output eps ≡ (false, message))

  fail_eta : (w : Verdict) → w.0 ≡ false → w ≡ (false, w.1)
  fail_eta (b, s) h = ap (λ z. (z, s)) h

  -- The verdict on an object is a pass with no message, or the failure of its first member that
  -- fails, with the message of that member; all members before it pass.
  pub verify_members-FirstFailure :
      (ms : List (Bytes × J)) (output : Entries) (eps : D)
      → (verify_members json real text ms output eps ≡ passes)
        ⊎ ((message : String) × (verify_members json real text ms output eps ≡ (false, message))
            × FirstFailure ms output eps message)
  unfolding verify_members
  verify_members-FirstFailure [] output eps = inl refl
  verify_members-FirstFailure ((k, v) ∷ ms) output eps =
      let verdict = verify_json_against_output json real text k v output eps in
      elim (Bool-cases (verdict.0)) [
        | inr e ↦ inr (verdict.1, rw e refl, ([], k, v, ms, refl, refl, fail_eta verdict e))
        | inl e ↦ elim (verify_members-FirstFailure ms output eps) [
          | inl p ↦ inl (rw (e, p) refl)
          | inr (message, r, (before, j, w, after, split, pass, f)) ↦ inr (
            message,
            rw (e, r) refl,
            ((k, v) ∷ before, j, w, after, ap (◌∷◌ (k, v)) split, rw (e, pass) refl, f),
          )
        ]
      ]
