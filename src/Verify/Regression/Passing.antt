-- ===== src/Verify/Regression/Passing.antt =====
-- What a passed test says of the engine: py2fw/verify/regression.py.
use package.text.Mathlib.TextEquality.{eq_iff}
use py2fw.Common.{
  ℕ, ◌+◌, String, true, false, ◌||◌, some, List, [], ◌∷◌, ◌++◌, all, elem, is_empty, ◌≡◌, ◌⊎◌, refl,
  ◌==◌, String_eq, arith, inl, inr, Bool-cases, Option-cases,
}
use py2fw.IpAddress.{Address, IpText, Version_eq}
use py2fw.Parser.Schema.{FlowTestModel}
use py2fw.Compiler.Ir.{FirewallIr}
use py2fw.Engine.Evaluate.{Flow, Decision, evaluate}
use py2fw.Utils.Emptiness.{left_nonempty, right_nonempty}
use py2fw.Verify.Regression.{
  FlowTestResult, Probing, endpoints, describe, actual, flow_between, not_an_address, mismatch,
  probe_destinations, probe_sources, run_flow_test, run_tests_from, run_flow_tests,
}

module _ (ip : IpText) (ir : FirewallIr) (test : FlowTestModel) where
  -- A pair of probes is as the test expects: both are addresses, and they are of different
  -- versions, or the engine decides the flow between them as expected.
  abbrev pub AsExpected : String → String → Type 0
  AsExpected src dst =
      (source : Address) × (destination : Address) × (ip.ip_address src ≡ some source)
      × (ip.ip_address dst ≡ some destination)
      × (((source.version == destination.version) ≡ false)
          ⊎ ((d : Decision) × (evaluate ip ir (flow_between ip ir test src dst) ≡ some d)
              × (actual d ≡ test.expect)))

  not_an_address_nonempty : (src dst : String) → (not_an_address ip ir test src dst == "") ≡ false
  unfolding not_an_address
  not_an_address_nonempty src dst = left_nonempty "not an IP address: " _ refl

  mismatch_nonempty : (flow : Flow) (d : Decision) → (mismatch ip ir test flow d == "") ≡ false
  unfolding mismatch
  mismatch_nonempty flow d = right_nonempty (describe flow) _ (left_nonempty " is " _ refl)

  destinations-AsExpected :
      (src dst : String) (dsts : List String) (probes : ℕ) (p : Probing)
      → probe_destinations ip ir test src dsts probes ≡ some p
      → (p.failure == "") ≡ true
      → elem dst dsts ≡ true
      → AsExpected src dst
  unfolding probe_destinations
  destinations-AsExpected src dst [] probes p e clean here = absurd (ground (arith, here))
  destinations-AsExpected src dst (first ∷ dsts) probes p e clean here =
      elim (Option-cases (ip.ip_address src)) [
        | inl s ↦ absurd (ground (arith, e, s, clean, not_an_address_nonempty src first))
        | inr (source, s) ↦ elim (Option-cases (ip.ip_address first)) [
          | inl t ↦ absurd (ground (arith, e, s, t, clean, not_an_address_nonempty src first))
          | inr (destination, t) ↦ elim (Bool-cases (source.version == destination.version)) [
            | inr apart ↦ elim (Bool-cases (first == dst)) [
              | inl same ↦ (source, destination, s, rw (← (eq_iff first dst).0 same) t, inl apart)
              | inr later ↦
                  destinations-AsExpected src dst dsts probes p (ground (arith, e, s, t, apart))
                    clean (ground (arith, here, later))
            ]
            | inl together ↦
                elim (Option-cases (evaluate ip ir (flow_between ip ir test src first))) [
                  | inl v ↦ absurd (ground (arith, e, s, t, together, v))
                  | inr (d, v) ↦ elim (Bool-cases (actual d == test.expect)) [
                    | inr wrong ↦ absurd (
                        ground (
                          arith,
                          e,
                          s,
                          t,
                          together,
                          v,
                          wrong,
                          clean,
                          mismatch_nonempty (flow_between ip ir test src first) d,
                        ))
                    | inl right ↦ elim (Bool-cases (first == dst)) [
                      | inl same ↦
                          let at : first ≡ dst = (eq_iff first dst).0 same in
                          (
                            source,
                            destination,
                            s,
                            rw (← at) t,
                            inr (d, rw (← at) v, (eq_iff (actual d) test.expect).0 right),
                          )
                      | inr later ↦
                          destinations-AsExpected src dst dsts (probes + 1) p
                            (ground (arith, e, s, t, together, v, right)) clean
                            (ground (arith, here, later))
                    ]
                  ]
                ]
          ]
        ]
      ]

  sources-AsExpected :
      (src dst : String) (srcs dsts : List String) (probes : ℕ) (p : Probing)
      → probe_sources ip ir test srcs dsts probes ≡ some p
      → (p.failure == "") ≡ true
      → elem src srcs ≡ true
      → elem dst dsts ≡ true
      → AsExpected src dst
  unfolding probe_sources
  sources-AsExpected src dst [] dsts probes p e clean here there = absurd (ground (arith, here))
  sources-AsExpected src dst (first ∷ srcs) dsts probes p e clean here there =
      elim (Option-cases (probe_destinations ip ir test first dsts probes)) [
        | inl s ↦ absurd (ground (arith, e, s))
        | inr (q, s) ↦ elim (Bool-cases (q.failure == "")) [
          | inr bad ↦ absurd (ground (arith, e, s, bad, clean))
          | inl good ↦ elim (Bool-cases (first == src)) [
            | inl same ↦
                rw (← (eq_iff first src).0 same)
                  (destinations-AsExpected first dst dsts probes q s good there)
            | inr later ↦
                sources-AsExpected src dst srcs dsts q.probes p (ground (arith, e, s, good)) clean
                  (ground (arith, here, later)) there
          ]
        ]
      ]

  -- When a regression test passes, every pair of a source probe and a destination probe is as the
  -- test expects: both are addresses, and they are of different versions, or the engine decides
  -- the flow between them with the expected verdict.
  pub run_flow_test-AsExpected :
      (origin : String) (index : ℕ) (result : FlowTestResult) (src dst : String)
      → run_flow_test ip ir test origin index ≡ some result
      → result.passed ≡ true
      → elem src (endpoints ip ir test.src) ≡ true
      → elem dst (endpoints ip ir test.dst) ≡ true
      → AsExpected src dst
  unfolding run_flow_test
  run_flow_test-AsExpected origin index result src dst e passed here there =
      elim (Bool-cases
        (is_empty (endpoints ip ir test.src) || is_empty (endpoints ip ir test.dst))) [
          | inl nothing ↦ absurd (ground (arith, e, passed, nothing))
          | inr probed ↦
              elim (Option-cases (
                probe_sources ip ir test (endpoints ip ir test.src) (endpoints ip ir test.dst) 0)) [
                  | inl s ↦ absurd (ground (arith, e, s, probed))
                  | inr (p, s) ↦
                      sources-AsExpected src dst (endpoints ip ir test.src)
                        (endpoints ip ir test.dst) 0 p s (ground (arith, e, s, probed, passed)) here
                        there
                ]
        ]

module _ (ip : IpText) (ir : FirewallIr) where
  -- A list of tests that all passed has run each of its tests, and that one passed.
  run_tests_at :
      (origin : String) (index : ℕ) (before : List FlowTestModel) (test : FlowTestModel)
      (after : List FlowTestModel) (results : List FlowTestResult)
      → run_tests_from ip ir origin index (before ++ test ∷ after) ≡ some results
      → all (λ result. result.passed) results ≡ true
      → (place : ℕ) × (result : FlowTestResult) × (run_flow_test ip ir test origin place
          ≡ some result)
        × (result.passed ≡ true)
  unfolding run_tests_from
  run_tests_at origin index [] test after results h p =
      elim (Option-cases (run_flow_test ip ir test origin index)) [
        | inl n ↦ absurd (ground (arith, h, n))
        | inr (result, e) ↦ elim (Option-cases (run_tests_from ip ir origin (index + 1) after)) [
          | inl n ↦ absurd (ground (arith, h, e, n))
          | inr (rest, r) ↦ (index, result, e, ground (arith, h, e, r, p))
        ]
      ]
  run_tests_at origin index (first ∷ before) test after results h p =
      elim (Option-cases (run_flow_test ip ir first origin index)) [
        | inl n ↦ absurd (ground (arith, h, n))
        | inr (result, e) ↦
            elim (Option-cases (run_tests_from ip ir origin (index + 1) (before ++ test ∷ after))) [
              | inl n ↦ absurd (ground (arith, h, e, n))
              | inr (rest, r) ↦
                  run_tests_at origin (index + 1) before test after rest r
                    (ground (arith, h, e, r, p))
            ]
      ]

  pub run_flow_tests-AsExpected :
      (origin : String) (before : List FlowTestModel) (test : FlowTestModel)
      (after : List FlowTestModel) (results : List FlowTestResult)
      → run_flow_tests ip ir (before ++ test ∷ after) origin ≡ some results
      → all (λ result. result.passed) results ≡ true
      → (src dst : String) → elem src (endpoints ip ir test.src) ≡ true
      → elem dst (endpoints ip ir test.dst) ≡ true
      → AsExpected ip ir test src dst
  unfolding run_flow_tests
  run_flow_tests-AsExpected origin before test after results h p src dst here there =
      let (place, result, e, good) = run_tests_at origin 0 before test after results h p in
      run_flow_test-AsExpected ip ir test origin place result src dst e good here there
