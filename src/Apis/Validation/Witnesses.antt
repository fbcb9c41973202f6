-- ===== src/Apis/Validation/Witnesses.antt =====
-- The theorems about parsers and validators at concrete texts and resources.
use aspenmesh_k3s_multiclust.Prelude.{
  ℕ, ◌<◌, String, ◌≡◌, ◌≢◌, ◌↔◌, refl, ◌⊎◌, true, false, ◌&&◌, ◌||◌, none, some, List, [], ◌∷◌, map,
  arith, any, Elem, Distinct, if◌then◌else◌,
}
use aspenmesh_k3s_multiclust.Prelude.Results.{ok}
use aspenmesh_k3s_multiclust.Prelude.Integers.{ℤ, pos, negsuc, ltb_int, eqb_int}
use aspenmesh_k3s_multiclust.Prelude.Decimal.{show_natural, show_before, show_int}
use aspenmesh_k3s_multiclust.Prelude.Strings.{join}
use aspenmesh_k3s_multiclust.K8s.Objects.{tls_passthrough_listener_name}
use aspenmesh_k3s_multiclust.Configs.ParsingHelpers.{ParsingLibrary, parse_port, parse_port_list}
use aspenmesh_k3s_multiclust.Configs.ParsingHelpers.Ports.{
  IsParsed, parse_port-show_natural, parse_port_list-join, parse_port-IsParsed,
  parse_port-show_natural_lem,
}
use aspenmesh_k3s_multiclust.Apis.Types.{Upstream, Action, Route, VirtualServerSpec}
use aspenmesh_k3s_multiclust.Apis.Types.Listeners.{Listener}
use aspenmesh_k3s_multiclust.Apis.Validation.{ValidationLibrary}
use aspenmesh_k3s_multiclust.Apis.Validation.Names.{validate_dns1035_label}
use aspenmesh_k3s_multiclust.Apis.Validation.Listeners.{
  generate_port_protocol_key, validate_listener_protocol, validate_listener_name,
  validate_global_configuration_listener_name, validate_listener_port, validate_listener,
  validate_listeners_from, validate_listeners, validate_global_configuration,
}
use aspenmesh_k3s_multiclust.Apis.Validation.Listeners.Accepted.{
  ChecksPorts, port_and_protocol, name_of, validate_global_configuration-accepted,
}
use aspenmesh_k3s_multiclust.Apis.Validation.Routes.Referred.{IsReferred}
use aspenmesh_k3s_multiclust.Apis.Validation.VirtualServers.{validate_virtual_server}
use aspenmesh_k3s_multiclust.Apis.Validation.VirtualServers.Accepted as VirtualServers

abbrev parsing : ParsingLibrary
parsing = record {
  find_time = λ s. none;
  matches_offset = λ s. true;
  matches_size = λ s. true;
  matches_proxy_buffers = λ s. true;
  matches_high_low = λ s. true;
  matches_low_high = λ s. false;
  number_error = λ s. "invalid syntax";
  bool_error = λ s. "invalid syntax";
  quote = λ s. s;
  quote_int = λ n. "";
  show_list = λ s. "";
}

abbrev port_messages : ℤ → List String
port_messages (negsuc n) = "must be between 1 and 65535, inclusive" ∷ []
port_messages (pos n) =
    if ltb_int (pos 0) (pos n) && ltb_int (pos n) (pos 65536)
    then []
    else "must be between 1 and 65535, inclusive" ∷ []

abbrev range_messages : ℤ → ℤ → ℤ → List String
range_messages n low high =
    if ltb_int n low || ltb_int high n then "must be in the range" ∷ [] else []

abbrev library : ValidationLibrary
library = record {
  is_dns1123_subdomain = λ s. [];
  is_dns1123_label = λ s. [];
  is_dns1035_label = λ s. [];
  is_qualified_name = λ s. [];
  is_http_header_name = λ s. [];
  is_valid_label_value = λ s. [];
  is_valid_port_num = port_messages;
  is_in_range = range_messages;
  inclusive_range_error = λ low high. "must be in the range";
  regex_error = λ message pattern examples. message;
  compile_regexp = λ s. none;
  matches_escaped_strings = λ s. true;
  matches_header_value = λ s. true;
  matches_return_type = λ s. true;
  matches_path = λ s. true;
  matches_cookie_name = λ s. true;
  matches_argument_name = λ s. true;
  capture_variables = λ s. [];
  parsing = parsing;
}

library-ChecksPorts : ChecksPorts library
library-ChecksPorts (negsuc n) h = cc
library-ChecksPorts (pos n) h = (n, refl, ground arith, ground arith)

-- parse_port_list "80,443" is read as it is printed.
two_ports-IsParsed : (m : ℕ) → Elem m (80 ∷ 443 ∷ []) → IsParsed m
two_ports-IsParsed m h = ground arith

parse_port_list-join_example :
    parse_port_list parsing (join "," (map show_natural (80 ∷ 443 ∷ [])))
    ≡ ok (pos 80 ∷ pos 443 ∷ [])
parse_port_list-join_example = parse_port_list-join parsing 80 (443 ∷ []) two_ports-IsParsed

parse_port-IsParsed_example : (n : ℕ) × (pos 443 ≡ pos n) × IsParsed n
parse_port-IsParsed_example =
    parse_port-IsParsed parsing (show_natural 443) (pos 443)
      (parse_port-show_natural parsing 443 (ground arith, ground arith))

-- A port above 32767 is not read.
parse_port-show_natural_lem_example :
    (parse_port parsing (show_natural 40000) ≡ ok (pos 40000)) ↔ IsParsed 40000
parse_port-show_natural_lem_example = parse_port-show_natural_lem parsing 40000

abbrev listeners : List Listener
listeners =
    record { name = "dns-udp"; port = pos 5353; protocol = "UDP" }
    ∷ record { name = "dns-tcp"; port = pos 5353; protocol = "TCP" }
    ∷ []

listeners_accepted : validate_global_configuration library (pos 80 ∷ []) listeners ≡ []
unfolding validate_global_configuration validate_listeners validate_listeners_from validate_listener
    validate_global_configuration_listener_name validate_listener_name validate_dns1035_label
    validate_listener_port validate_listener_protocol generate_port_protocol_key show_int
    show_natural show_before
listeners_accepted = refl

validate_global_configuration-accepted_example :
    ((l : Listener)
      → Elem l listeners
      → (l.name ≢ tls_passthrough_listener_name)
        × (any (eqb_int l.port) (pos 80 ∷ []) ≡ false)
        × ((l.protocol ≡ "TCP") ⊎ (l.protocol ≡ "UDP"))
        × ((n : ℕ) × (l.port ≡ pos n) × (0 < n) × (n < 65536)))
    × Distinct (map name_of listeners)
    × Distinct (map port_and_protocol listeners)
validate_global_configuration-accepted_example =
    validate_global_configuration-accepted library (pos 80 ∷ []) listeners library-ChecksPorts
      listeners_accepted

abbrev tea : Upstream
tea = record {
  name = "tea";
  service = "tea-svc";
  subselector = none;
  port = 80;
  lb_method = "";
  fail_timeout = "";
  max_fails = none;
  max_conns = none;
  keepalive = none;
  proxy_connect_timeout = "";
  proxy_read_timeout = "";
  proxy_send_timeout = "";
  proxy_next_upstream = "";
  proxy_next_upstream_timeout = "";
  proxy_next_upstream_tries = pos 0;
  proxy_buffers = none;
  proxy_buffer_size = "";
  client_max_body_size = "";
  health_check = none;
  slow_start = "";
  queue = none;
  session_cookie = none;
  use_cluster_ip = false;
}

abbrev pass_to_tea : Action
pass_to_tea = record { pass = "tea"; redirect = none; return = none; proxy = none }

-- Ninety of a hundred requests go one way, and ten the other.
abbrev canary : Route
canary = record {
  path = "/";
  policies = [];
  route = "";
  action = none;
  splits =
      record { weight = pos 90; action = some pass_to_tea }
      ∷ record { weight = pos 10; action = some pass_to_tea }
      ∷ [];
  matches = [];
  error_pages = [];
}

abbrev cafe : VirtualServerSpec
cafe = record {
  host = "cafe.example.com";
  tls = none;
  policies = [];
  upstreams = tea ∷ [];
  routes = canary ∷ [];
}

cafe_accepted : validate_virtual_server library false cafe "default" ≡ []
unfolding validate_virtual_server
cafe_accepted = refl

validate_virtual_server-accepted_example :
    (cafe.host ≢ "")
    × Distinct (map VirtualServers.name_of cafe.upstreams)
    × Distinct (map VirtualServers.path_of cafe.routes)
    × ((r : Route) → Elem r cafe.routes → IsReferred (map VirtualServers.name_of cafe.upstreams) r)
validate_virtual_server-accepted_example =
    VirtualServers.validate_virtual_server-accepted library false cafe "default" cafe_accepted
