-- ===== src/K8s/Examples.antt =====
-- Concrete objects of internal/k8s, runs of its code on them, and the theorems at them.
pub mod HostWitnesses
pub mod Witnesses
pub mod SecretWitnesses
mod AppProtectWitnesses
mod AnnotationWitnesses
pub mod Move
use aspenmesh_k3s_multiclust.Configs.ParsingHelpers.{ParsingLibrary}
use aspenmesh_k3s_multiclust.Prelude.{
  ℕ, String, ◌≡◌, refl, Bool, true, false, Option, none, some, List, [], ◌∷◌,
}
use aspenmesh_k3s_multiclust.Prelude.Dict.{Dict, lookup, insert}
use aspenmesh_k3s_multiclust.K8s.Objects.{
  Listener, ObjectMeta, Ingress, Rule, HttpPath, VirtualServer, TransportServer,
}
use aspenmesh_k3s_multiclust.K8s.Resource.{
  Resource, virtual_server_conf, new_virtual_server_configuration,
}
use aspenmesh_k3s_multiclust.K8s.State.{Settings, Configuration, ResourceChange, new_configuration}
use aspenmesh_k3s_multiclust.K8s.Rebuild.{Outcome}
use aspenmesh_k3s_multiclust.K8s.Operations.Requests.{Request, put_virtual_server, handle}

-- Patterns that match every text.
abbrev pub parsing : ParsingLibrary
parsing = record {
  find_time = λ s. none;
  matches_offset = λ s. true;
  matches_size = λ s. true;
  matches_proxy_buffers = λ s. true;
  matches_high_low = λ s. true;
  matches_low_high = λ s. true;
  number_error = λ s. "invalid syntax";
  bool_error = λ s. "invalid syntax";
  quote = λ s. s;
  quote_int = λ n. "";
  show_list = λ ss. "";
}

-- Validators that accept everything.
abbrev pub settings : Settings
settings = record {
  has_correct_ingress_class = λ object. true;
  aggregate = λ es. "invalid";
  validate_virtual_server = λ vs. none;
  validate_virtual_server_route = λ vsr. none;
  validate_virtual_server_route_for_virtual_server = λ vsr host path. none;
  validate_transport_server = λ ts. none;
  validate_global_configuration = λ gc. none;
  parsing = parsing;
  is_plus = false;
  app_protect_enabled = false;
  internal_routes_enabled = false;
  is_tls_passthrough_enabled = true;
}

abbrev pub meta : String → String → ℕ → ObjectMeta
meta name uid created = record {
  namespace = "default";
  name = name;
  uid = uid;
  generation = 1;
  creation_timestamp = created;
  annotations = none;
}

abbrev pub cafe : VirtualServer
cafe = record {
  meta = meta "cafe" "1" 10;
  host = "cafe.example.com";
  tls_secret = some "cafe-secret";
  policies = [];
  upstreams = [];
  routes = [];
}

-- A younger VirtualServer that asks for the same host.
abbrev pub bistro : VirtualServer
bistro = record {
  meta = meta "bistro" "2" 20;
  host = "cafe.example.com";
  tls_secret = none;
  policies = [];
  upstreams = [];
  routes = [];
}

abbrev pub two_servers : Configuration
two_servers = record new_configuration {
  virtual_servers = ("default/cafe", cafe) ∷ ("default/bistro", bistro) ∷ [];
}

abbrev pub cafe_conf : Resource
cafe_conf = virtual_server_conf (new_virtual_server_configuration cafe [] [])

abbrev pub bistro_conf : Resource
bistro_conf = virtual_server_conf (new_virtual_server_configuration bistro [] [])

abbrev pub cafe_ingress : Ingress
cafe_ingress = record {
  meta = meta "tea" "3" 30;
  backend = none;
  tls_secrets = [];
  rules =
      record {
        host = "tea.example.com";
        http = some (record { path = "/"; service_name = "tea" } ∷ []);
      }
      ∷ [];
}

abbrev pub dns : TransportServer
dns = record {
  meta = meta "dns" "5" 50;
  listener_name = "dns-udp";
  listener_protocol = "UDP";
  host = "";
  upstream_services = "coredns" ∷ [];
}

abbrev pub dns_udp : Listener
dns_udp = record { name = "dns-udp"; port = 5353; protocol = "UDP" }

abbrev pub one_listener : Configuration
one_listener = record new_configuration {
  transport_servers = ("default/dns", dns) ∷ [];
  global_configuration = some (record { listeners = dns_udp ∷ [] });
}
