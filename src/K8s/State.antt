-- ===== src/K8s/State.antt =====
-- internal/k8s/configuration.go: the state of the Configuration, and what it is created with.
use aspenmesh_k3s_multiclust.Configs.ParsingHelpers.{ParsingLibrary}
use aspenmesh_k3s_multiclust.Prelude.{String, Bool, Option, none, List, []}
use aspenmesh_k3s_multiclust.Prelude.Dict.{Dict}
use aspenmesh_k3s_multiclust.K8s.Objects.{
  Ingress, VirtualServer, VirtualServerRoute, TransportServer, GlobalConfiguration,
}
use aspenmesh_k3s_multiclust.K8s.FieldErrors.{FieldError}
use aspenmesh_k3s_multiclust.K8s.Resource.{Resource, TransportServerConfiguration}

-- runtime.Object, by the kinds that problems are reported for.
pub data Object : Type 0 where
  ingress : Ingress → Object
  virtual_server : VirtualServer → Object
  virtual_server_route : VirtualServerRoute → Object
  transport_server : TransportServer → Object

pub data Operation : Type 0 where
  delete add_or_update : Operation

pub record ResourceChange : Type 0 where
  pub op : Operation
  pub resource : Resource
  pub error : String

pub record ConfigurationProblem : Type 0 where
  pub object : Object
  pub is_error : Bool
  pub reason : String
  pub message : String

-- The fields that operations change. The lock is left out: each operation holds it throughout.
pub record Configuration : Type 0 where
  pub hosts : Dict Resource
  pub listeners : Dict TransportServerConfiguration
  pub ingresses : Dict Ingress
  pub virtual_servers : Dict VirtualServer
  pub virtual_server_routes : Dict VirtualServerRoute
  pub transport_servers : Dict TransportServer
  pub global_configuration : Option GlobalConfiguration
  pub host_problems : Dict ConfigurationProblem
  pub listener_problems : Dict ConfigurationProblem

-- The fields that NewConfiguration sets for good. A validator returns the text of its error, or
-- `none`. Those of the custom resources are injected by the caller; that of the annotations of an
-- Ingress returns the list of its errors, and `aggregate` is the text of an aggregated list.
pub record Settings : Type 0 where
  pub has_correct_ingress_class : Object → Bool
  pub aggregate : List FieldError → String
  pub validate_virtual_server : VirtualServer → Option String
  pub validate_virtual_server_route : VirtualServerRoute → Option String
  pub validate_virtual_server_route_for_virtual_server :
      VirtualServerRoute → String → String → Option String
  pub validate_transport_server : TransportServer → Option String
  pub validate_global_configuration : GlobalConfiguration → Option String
  pub parsing : ParsingLibrary
  pub is_plus : Bool
  pub app_protect_enabled : Bool
  pub internal_routes_enabled : Bool
  pub is_tls_passthrough_enabled : Bool

abbrev pub new_configuration : Configuration
new_configuration = record {
  hosts = [];
  listeners = [];
  ingresses = [];
  virtual_servers = [];
  virtual_server_routes = [];
  transport_servers = [];
  global_configuration = none;
  host_problems = [];
  listener_problems = [];
}
