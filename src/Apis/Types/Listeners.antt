-- ===== src/Apis/Types/Listeners.antt =====
-- pkg/apis/configuration/v1alpha1/types.go: GlobalConfigurations and TransportServers.
use aspenmesh_k3s_multiclust.Prelude.{String, Option, List}
use aspenmesh_k3s_multiclust.Prelude.Integers.{ℤ}

pub record Listener : Type 0 where
  pub name : String
  pub port : ℤ
  pub protocol : String

pub record TransportServerListener : Type 0 where
  pub name : String
  pub protocol : String

pub record HealthCheck : Type 0 where
  pub timeout : String
  pub jitter : String
  pub port : ℤ
  pub interval : String
  pub passes : ℤ
  pub fails : ℤ

pub record Upstream : Type 0 where
  pub name : String
  pub service : String
  pub port : ℤ
  pub fail_timeout : String
  pub max_fails : Option ℤ
  pub health_check : Option HealthCheck

pub record UpstreamParameters : Type 0 where
  pub udp_requests : Option ℤ
  pub udp_responses : Option ℤ
  pub connect_timeout : String
  pub next_upstream_timeout : String
  pub next_upstream_tries : ℤ

pub record SessionParameters : Type 0 where
  pub timeout : String

pub record Action : Type 0 where
  pub pass : String

pub record TransportServerSpec : Type 0 where
  pub listener : TransportServerListener
  pub server_snippets : String
  pub host : String
  pub upstreams : List Upstream
  pub upstream_parameters : Option UpstreamParameters
  pub session_parameters : Option SessionParameters
  pub action : Option Action
