-- ===== src/Apis/Validation/Listeners.antt =====
-- globalconfiguration.go and transportserver.go: the checks of listeners and TransportServers.
pub mod Accepted
use aspenmesh_k3s_multiclust.Prelude.{
  ℕ, suc, String, Bool, true, false, not, ◌&&◌, ◌||◌, Option, none, some, List, [], ◌∷◌, ◌++◌, ◌==◌,
  any, if◌then◌else◌, is_some,
}
use aspenmesh_k3s_multiclust.Prelude.Texts.{concat}
use aspenmesh_k3s_multiclust.Prelude.Integers.{ℤ, pos, ltb_int, eqb_int}
use aspenmesh_k3s_multiclust.Prelude.Decimal.{show_int}
use aspenmesh_k3s_multiclust.K8s.FieldErrors.{
  FieldPath, new_path, child, index, FieldError, required, duplicate, invalid, forbidden,
}
use aspenmesh_k3s_multiclust.K8s.Objects.{
  tls_passthrough_listener_name, tls_passthrough_listener_protocol,
}
use aspenmesh_k3s_multiclust.Apis.Types.Listeners.{
  Listener, TransportServerListener, TransportServerSpec, Upstream, HealthCheck, UpstreamParameters,
  SessionParameters, Action,
}
use aspenmesh_k3s_multiclust.Apis.Validation.{ValidationLibrary, invalid_number_each, if_given, has}
use aspenmesh_k3s_multiclust.Apis.Validation.Names.{
  validate_positive_int_or_zero, validate_positive_int_or_zero_from_pointer, validate_host,
  validate_dns1035_label, validate_upstream_name, validate_service_name, validate_time,
}
use aspenmesh_k3s_multiclust.Apis.Validation.Upstreams.{checked_name}
use aspenmesh_k3s_multiclust.Apis.Validation.Actions.{validate_referenced_upstream}

unfoldable pub generate_port_protocol_key : ℤ → String → String
unfolding show_int
generate_port_protocol_key port protocol = concat (show_int port ∷ "/" ∷ protocol ∷ [])

unfoldable pub validate_listener_protocol : String → FieldPath → List FieldError
validate_listener_protocol protocol path =
    if protocol == ""
    then required path "must specify protocol. Accepted values: TCP, UDP" ∷ []
    else (if has ("TCP" ∷ "UDP" ∷ []) protocol
        then []
        else invalid path protocol "invalid protocol. Accepted values: TCP, UDP" ∷ [])

unfoldable pub is_potential_tls_passthrough_listener : TransportServerListener → Bool
is_potential_tls_passthrough_listener l =
    l.name == tls_passthrough_listener_name || l.protocol == tls_passthrough_listener_protocol

unfoldable pub validate_tls_passthrough_listener :
    (tls_passthrough : Bool) → TransportServerListener → FieldPath → List FieldError
validate_tls_passthrough_listener tls_passthrough l path =
    if not tls_passthrough
    then forbidden path "TLS Passthrough is not enabled" ∷ []
    else (if l.name == tls_passthrough_listener_name
          && not (l.protocol == tls_passthrough_listener_protocol)
        then invalid (child path "protocol") l.protocol
            "must be 'TLS_PASSTHROUGH' for the built-in tls-passthrough listener"
          ∷ []
        else (if l.protocol == tls_passthrough_listener_protocol
              && not (l.name == tls_passthrough_listener_name)
            then invalid (child path "name") l.name
                "must be 'tls-passthrough' for a listener with the protocol TLS_PASSTHROUGH"
              ∷ []
            else []))

unfoldable pub validate_snippets : String → FieldPath → (snippets_enabled : Bool) → List FieldError
validate_snippets snippet path snippets_enabled =
    if not snippets_enabled && not (snippet == "")
    then forbidden path "snippet specified but snippets feature is not enabled" ∷ []
    else []

unfoldable pub validate_udp_upstream_parameter :
    Option ℤ → FieldPath → (protocol : String) → List FieldError
unfolding validate_positive_int_or_zero_from_pointer
validate_udp_upstream_parameter parameter path protocol =
    if is_some parameter && not (protocol == "UDP")
    then forbidden path "is not allowed for non-UDP TransportServers" ∷ []
    else validate_positive_int_or_zero_from_pointer parameter path

module _ (lib : ValidationLibrary) where
  unfoldable pub validate_listener_name : String → FieldPath → List FieldError
  unfolding validate_dns1035_label
  validate_listener_name name path = validate_dns1035_label lib name path

  unfoldable pub validate_global_configuration_listener_name : String → FieldPath → List FieldError
  unfolding validate_listener_name
  validate_global_configuration_listener_name name path =
      if name == tls_passthrough_listener_name
      then forbidden path "is the name of a built-in listener" ∷ []
      else validate_listener_name name path

  unfoldable pub validate_listener_port :
      (forbidden_ports : List ℤ) → ℤ → FieldPath → List FieldError
  validate_listener_port forbidden_ports port path =
      if any (eqb_int port) forbidden_ports
      then forbidden path (concat ("port " ∷ show_int port ∷ " is forbidden" ∷ [])) ∷ []
      else invalid_number_each path port (lib.is_valid_port_num port)

  unfoldable pub validate_listener :
      (forbidden_ports : List ℤ) → Listener → FieldPath → List FieldError
  unfolding validate_global_configuration_listener_name validate_listener_port
      validate_listener_protocol
  validate_listener forbidden_ports l path =
      validate_global_configuration_listener_name l.name (child path "name")
      ++ validate_listener_port forbidden_ports l.port (child path "port")
      ++ validate_listener_protocol l.protocol (child path "protocol")

  -- The errors of a listener, those of its own before those of its place among the others, and the
  -- sets listenerNames and portProtocolCombinations.
  abbrev pub checked_listener :
      (listener_errors : List FieldError)
      → Listener
      → FieldPath
      → ℕ
      → (names keys : List String) → List FieldError × List String × List String
  checked_listener (e ∷ es) l path i names keys = (e ∷ es, names, keys)
  checked_listener [] l path i names keys =
      let key = generate_port_protocol_key l.port l.protocol in
      if has names l.name
      then (duplicate (child (index path i) "name") l.name ∷ [], names, keys)
      else (if has keys key
          then (
            duplicate path (concat ("Duplicated port/protocol combination " ∷ key ∷ [])) ∷ [],
            names,
            keys,
          )
          else ([], l.name ∷ names, key ∷ keys))

  unfoldable pub validate_listeners_from :
      (forbidden_ports : List ℤ)
      → FieldPath
      → ℕ
      → (names keys : List String) → List Listener
      → List FieldError
  unfolding validate_listener
  validate_listeners_from forbidden_ports path i names keys [] = []
  validate_listeners_from forbidden_ports path i names keys (l ∷ ls) =
      let (errors, next_names, next_keys) =
        checked_listener (validate_listener forbidden_ports l (index path i)) l path i names keys in
      errors ++ validate_listeners_from forbidden_ports path (suc i) next_names next_keys ls

  unfoldable pub validate_listeners :
      (forbidden_ports : List ℤ) → List Listener → FieldPath → List FieldError
  unfolding validate_listeners_from
  validate_listeners forbidden_ports listeners path =
      validate_listeners_from forbidden_ports path 0 [] [] listeners

  -- The list that is aggregated; an empty one is no error.
  unfoldable pub validate_global_configuration :
      (forbidden_ports : List ℤ) → List Listener → List FieldError
  unfolding validate_listeners
  validate_global_configuration forbidden_ports listeners =
      validate_listeners forbidden_ports listeners (child (new_path "spec") "listeners")

  unfoldable pub validate_regular_listener : TransportServerListener → FieldPath → List FieldError
  unfolding validate_listener_name validate_listener_protocol
  validate_regular_listener l path =
      validate_listener_name l.name (child path "name")
      ++ validate_listener_protocol l.protocol (child path "protocol")

  unfoldable pub validate_transport_listener :
      (tls_passthrough : Bool) → TransportServerListener → FieldPath → List FieldError
  unfolding is_potential_tls_passthrough_listener validate_tls_passthrough_listener
      validate_regular_listener
  validate_transport_listener tls_passthrough l path =
      if is_potential_tls_passthrough_listener l
      then validate_tls_passthrough_listener tls_passthrough l path
      else validate_regular_listener l path

  unfoldable pub validate_transport_server_host :
      String → FieldPath → (is_tls_passthrough : Bool) → List FieldError
  unfolding validate_host
  validate_transport_server_host host path true = validate_host lib host path
  validate_transport_server_host host path false =
      if host == ""
      then []
      else forbidden path "host field is allowed only for TLS Passthrough TransportServers" ∷ []

  unfoldable pub validate_ts_upstream_health_checks :
      Option HealthCheck → FieldPath → List FieldError
  unfolding validate_time validate_positive_int_or_zero
  validate_ts_upstream_health_checks hc path =
      if_given
        (λ h.
          validate_time lib h.timeout (child path "timeout")
          ++ validate_time lib h.interval (child path "interval")
          ++ validate_time lib h.jitter (child path "jitter")
          ++ validate_positive_int_or_zero h.fails (child path "fails")
          ++ validate_positive_int_or_zero h.passes (child path "passes")
          ++ (if ltb_int (pos 0) h.port
              then invalid_number_each (child path "port") h.port (lib.is_valid_port_num h.port)
              else []))
        hc

  unfoldable pub ts_upstream_errors : Upstream → FieldPath → List FieldError
  unfolding validate_service_name validate_positive_int_or_zero_from_pointer validate_time
      validate_ts_upstream_health_checks
  ts_upstream_errors u path =
      validate_service_name lib u.service (child path "service")
      ++ validate_positive_int_or_zero_from_pointer u.max_fails (child path "maxFails")
      ++ validate_time lib u.fail_timeout (child path "failTimeout")
      ++ invalid_number_each (child path "port") u.port (lib.is_valid_port_num u.port)
      ++ validate_ts_upstream_health_checks u.health_check (child path "healthChecks")

  unfoldable pub validate_transport_server_upstreams :
      FieldPath → ℕ → (names : List String) → List Upstream → List FieldError × List String
  unfolding validate_upstream_name ts_upstream_errors
  validate_transport_server_upstreams path i names [] = ([], names)
  validate_transport_server_upstreams path i names (u ∷ us) =
      let here = index path i in
      let (errors, next) =
        checked_name lib (validate_upstream_name lib u.name (child here "name")) u.name here
          names in
      let (later, all_names) = validate_transport_server_upstreams path (suc i) next us in
      (errors ++ ts_upstream_errors u here ++ later, all_names)

  unfoldable pub validate_transport_server_upstream_parameters :
      Option UpstreamParameters → FieldPath → (protocol : String) → List FieldError
  unfolding validate_udp_upstream_parameter validate_time validate_positive_int_or_zero
  validate_transport_server_upstream_parameters parameters path protocol =
      if_given
        (λ p.
          validate_udp_upstream_parameter p.udp_requests (child path "udpRequests") protocol
          ++ validate_udp_upstream_parameter p.udp_responses (child path "udpResponses") protocol
          ++ validate_time lib p.connect_timeout (child path "connectTimeout")
          ++ validate_time lib p.next_upstream_timeout (child path "nextUpstreamTimeout")
          ++ validate_positive_int_or_zero p.next_upstream_tries (child path "nextUpstreamTries"))
        parameters

  unfoldable pub validate_session_parameters :
      Option SessionParameters → FieldPath → List FieldError
  unfolding validate_time
  validate_session_parameters parameters path =
      if_given (λ p. validate_time lib p.timeout (child path "timeout")) parameters

  unfoldable pub validate_transport_server_action :
      Action → FieldPath → (names : List String) → List FieldError
  unfolding validate_referenced_upstream
  validate_transport_server_action action path names =
      if action.pass == ""
      then required path "must specify pass" ∷ []
      else validate_referenced_upstream lib action.pass (child path "pass") names

  unfoldable pub validate_transport_server_spec :
      (tls_passthrough snippets_enabled : Bool) → TransportServerSpec → FieldPath → List FieldError
  unfolding validate_transport_listener is_potential_tls_passthrough_listener
      validate_transport_server_host validate_transport_server_upstreams
      validate_transport_server_upstream_parameters validate_session_parameters
      validate_transport_server_action validate_snippets
  validate_transport_server_spec tls_passthrough snippets_enabled spec path =
      let (upstream_errors, names) =
        validate_transport_server_upstreams (child path "upstreams") 0 [] spec.upstreams in
      validate_transport_listener tls_passthrough spec.listener (child path "listener")
      ++ validate_transport_server_host spec.host (child path "host")
          (is_potential_tls_passthrough_listener spec.listener)
      ++ upstream_errors
      ++ validate_transport_server_upstream_parameters spec.upstream_parameters
          (child path "upstreamParameters") spec.listener.protocol
      ++ validate_session_parameters spec.session_parameters (child path "sessionParameters")
      ++ elim spec.action [
        | none ↦ required (child path "action") "must specify action" ∷ []
        | some action ↦ validate_transport_server_action action (child path "action") names
      ]
      ++ validate_snippets spec.server_snippets (child path "serverSnippets") snippets_enabled

  unfoldable pub validate_transport_server :
      (tls_passthrough snippets_enabled : Bool) → TransportServerSpec → List FieldError
  unfolding validate_transport_server_spec
  validate_transport_server tls_passthrough snippets_enabled spec =
      validate_transport_server_spec tls_passthrough snippets_enabled spec (new_path "spec")
