-- ===== src/Tests/Codes.antt =====
-- Short codes and health checks.
use adaptive_api_routing_gat.Base.{◌≡◌, refl, codes, true, false, [], ◌∷◌, arith}
use adaptive_api_routing_gat.Base.Int.{pos}
use adaptive_api_routing_gat.Idgen.{short, code_of, digits, base62_char}
use adaptive_api_routing_gat.Idgen.ShortCodes.{code_value, short-value}
use adaptive_api_routing_gat.Model.HealthChecks.{HealthCheck, health_healthy, health_unhealthy}
use adaptive_api_routing_gat.Model.HealthChecks.Probes.{run, run-status}

code_of_3843 : code_of 3843 ≡ codes "zz"
unfolding code_of digits base62_char
code_of_3843 = refl

short-value_example : ((short 3843).0 ≡ 3844) × (code_value (short 3843).1 ≡ (short 3843).0)
short-value_example = short-value 3843

abbrev fine : HealthCheck
fine = record {
  id = codes "h1";
  service_id = codes "s1";
  status = health_healthy;
  latency_ms = 3;
  failure_count = pos 0;
  last_checked = 1;
}

run-status_example :
    ((run ((2, true, 4) ∷ (3, false, 9) ∷ (4, false, 9) ∷ (5, false, 9) ∷ []) fine).status
      ≡ health_unhealthy)
    × ((run ((2, true, 4) ∷ (3, false, 9) ∷ (4, false, 9) ∷ (5, false, 9) ∷ []) fine).failure_count
        ≡ pos 3)
run-status_example =
    run-status ((2, true, 4) ∷ (3, false, 9) ∷ (4, false, 9) ∷ (5, false, 9) ∷ []) 0 fine
      (omega arith) refl refl
