-- ===== src/FullNode/Pods/Probes.antt =====
-- The readiness probes of internal/fullnode/pod_builder.go, of the main container and of the health
-- check. Both ask by HTTP.
use cosmos_operator.Common.{ℕ, Text, txt, text_eq, Option, none, some, if◌then◌else◌}
use cosmos_operator.FullNode.{FullNode}

pub record Probe : Type 0 where
  pub path : Text
  pub port : ℕ
  pub initial_delay_seconds : ℕ
  pub timeout_seconds : ℕ
  pub period_seconds : ℕ
  pub success_threshold : ℕ
  pub failure_threshold : ℕ

abbrev pub probe : Text → ℕ → ℕ → Probe
probe path port failures = record {
  path = path;
  port = port;
  initial_delay_seconds = 1;
  timeout_seconds = 10;
  period_seconds = 10;
  success_threshold = 1;
  failure_threshold = failures;
}

unfoldable pub pod_readiness_probes : FullNode → Option Probe × Option Probe
pod_readiness_probes crd =
    if text_eq crd.body.spec.probe_strategy (txt "None")
    then (none, none)
    else (some (probe (txt "/health") 26657 5), some (probe (txt "/") 1251 3))
