-- ===== src/Examples/Testing.antt =====
-- A regression test on the sample policy.
use py2fw.Common.{refl, true, some, none, get, String_eq, str_ℕ}
use py2fw.IpAddress.{broadcast_address}
use py2fw.Parser.Schema.{FlowTestModel}
use py2fw.Compiler.Query.{address_values, name_values}
use py2fw.Engine.Evaluate.{evaluate, match_reason, addr_contains, service_matches}
use py2fw.Verify.Regression.{FlowTestResult, run_flow_test, endpoints, probe_destinations}
use py2fw.Verify.Regression.Passing.{AsExpected, run_flow_test-AsExpected}
use py2fw.Examples.Samples.{sample_text, sample_ir}

abbrev host_test : FlowTestModel
host_test = record {
  name = "lab reaches corp";
  src = "10.1.2.3";
  dst = "10.2.0.1";
  protocol = "tcp";
  port = some 443;
  expect = "allow";
}

abbrev host_result : FlowTestResult
host_result = record {
  name = "lab reaches corp";
  origin = "baseline";
  passed = true;
  detail = "1 flow(s) got allow as expected";
  location = "baseline tests[0]";
  line = none;
}

run_flow_test-AsExpected_example : AsExpected sample_text sample_ir host_test "10.1.2.3" "10.2.0.1"
unfolding run_flow_test probe_destinations endpoints evaluate match_reason addr_contains
    service_matches address_values name_values broadcast_address get str_ℕ
run_flow_test-AsExpected_example =
    run_flow_test-AsExpected sample_text sample_ir host_test "baseline" 0 host_result "10.1.2.3"
      "10.2.0.1" refl refl refl refl
