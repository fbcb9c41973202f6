-- ===== src/K8s/Listeners.antt =====
-- internal/k8s/configuration.go, rebuildListeners and buildListenersAndTSConfigurations: which
-- TransportServer holds each listener of the GlobalConfiguration.
pub mod Priority
use aspenmesh_k3s_multiclust.Prelude.{
  String, Bool, not, ◌&&◌, Option, none, some, List, [], ◌∷◌, map, ◌==◌, ◌>>=◌, if◌then◌else◌, keep,
}
use aspenmesh_k3s_multiclust.Prelude.Texts.{concat}
use aspenmesh_k3s_multiclust.Prelude.Dict.{Dict, values}
use aspenmesh_k3s_multiclust.K8s.Objects.{
  TransportServer, Listener, GlobalConfiguration, get_resource_key,
  tls_passthrough_listener_protocol,
}
use aspenmesh_k3s_multiclust.K8s.Resource.{
  TransportServerConfiguration, Resource, transport_server_conf, choose_object_meta_winner,
  new_transport_server_configuration,
}
use aspenmesh_k3s_multiclust.K8s.State.{Configuration}
use aspenmesh_k3s_multiclust.K8s.Contest.{Event, took, ousted, refused, Contest, no_claims, claim}
use aspenmesh_k3s_multiclust.K8s.Changes.{
  removed_names, updated_names, added_names, create_resource_changes, squash_resource_changes,
}
use aspenmesh_k3s_multiclust.K8s.Problems.{
  detect_changes_in_problems, add_problems_for_ts_configs_without_active_listener,
}
use aspenmesh_k3s_multiclust.K8s.Rebuild.{Outcome, refresh}

-- The first listener with the name and the protocol that the TransportServer asks for.
unfoldable pub find_listener : TransportServer → List Listener → Option Listener
find_listener ts [] = none
find_listener ts (l ∷ ls) =
    if ts.listener_name == l.name && ts.listener_protocol == l.protocol
    then some l
    else find_listener ts ls

-- What a TransportServer finds in the GlobalConfiguration, if there is one.
unfoldable pub listener_of : Option GlobalConfiguration → TransportServer → Option Listener
unfolding find_listener
listener_of none ts = none
listener_of (some gc) ts = find_listener ts gc.listeners

abbrev pub with_port : Option Listener → TransportServerConfiguration → TransportServerConfiguration
with_port none tsc = tsc
with_port (some l) tsc = record tsc { listener_port = l.port }

unfoldable pub transport_server_configuration :
    Option GlobalConfiguration → TransportServer → TransportServerConfiguration
unfolding listener_of
transport_server_configuration gc ts =
    with_port (listener_of gc ts) (new_transport_server_configuration ts)

abbrev pub listener_wins : TransportServerConfiguration → TransportServerConfiguration → Bool
listener_wins tsc usc =
    choose_object_meta_winner tsc.transport_server.meta usc.transport_server.meta

-- The TransportServers that are not for TLS Passthrough.
unfoldable pub listening : List TransportServer → List TransportServer
listening tss = keep (λ ts. not (ts.listener_protocol == tls_passthrough_listener_protocol)) tss

-- A TransportServer claims the listener that it has found, if any.
abbrev pub claim_found :
    Option GlobalConfiguration
    → TransportServer
    → Option Listener
    → Contest TransportServerConfiguration
    → Contest TransportServerConfiguration
claim_found gc ts none s = s
claim_found gc ts (some l) s = claim listener_wins (transport_server_configuration gc ts) l.name s

unfoldable pub claim_listeners :
    Option GlobalConfiguration
    → List TransportServer
    → Contest TransportServerConfiguration
    → Contest TransportServerConfiguration
unfolding listener_of transport_server_configuration
claim_listeners gc [] s = s
claim_listeners gc (ts ∷ tss) s = claim_listeners gc tss (claim_found gc ts (listener_of gc ts) s)

abbrev listener_warning : String → String
listener_warning name = concat ("listener " ∷ name ∷ " is taken by another resource" ∷ [])

-- The warnings that the contest gives to the TransportServer with the key.
unfoldable pub listener_warnings : String → List (Event TransportServerConfiguration) → List String
listener_warnings key [] = []
listener_warnings key (took tsc name ∷ events) = listener_warnings key events
listener_warnings key (ousted tsc name ∷ events) =
    let rest = listener_warnings key events in
    if get_resource_key tsc.transport_server.meta == key then listener_warning name ∷ rest else rest
listener_warnings key (refused tsc name ∷ events) =
    let rest = listener_warnings key events in
    if get_resource_key tsc.transport_server.meta == key then listener_warning name ∷ rest else rest

unfoldable pub finish_listener :
    List (Event TransportServerConfiguration)
    → TransportServerConfiguration
    → TransportServerConfiguration
unfolding listener_warnings
finish_listener events tsc = record tsc {
  warnings = listener_warnings (get_resource_key tsc.transport_server.meta) events;
}

abbrev pub map_values {ℓ κ} : {V : Type ℓ} {W : Type κ} → (V → W) → Dict V → Dict W
map_values f [] = []
map_values f ((k, v) ∷ m) = (k, f v) ∷ map_values f m

unfoldable pub ts_configurations :
    List (Event TransportServerConfiguration)
    → Option GlobalConfiguration
    → Dict TransportServer
    → Dict TransportServerConfiguration
unfolding finish_listener
ts_configurations events gc [] = []
ts_configurations events gc ((key, ts) ∷ m) =
    let rest = ts_configurations events gc m in
    if ts.listener_protocol == tls_passthrough_listener_protocol
    then rest
    else (key, finish_listener events (transport_server_configuration gc ts)) ∷ rest

-- The holder of each listener, and every TransportServer under the key that it is stored with.
unfoldable pub build_listeners_and_ts_configurations :
    Configuration → Dict TransportServerConfiguration × Dict TransportServerConfiguration
unfolding listening claim_listeners finish_listener ts_configurations
build_listeners_and_ts_configurations c =
    let s =
      claim_listeners c.global_configuration (listening (values c.transport_servers)) no_claims in
    (
      map_values (finish_listener s.events) s.holders,
      ts_configurations s.events c.global_configuration c.transport_servers,
    )

abbrev pub as_resources : Dict TransportServerConfiguration → Dict Resource
as_resources m = map_values transport_server_conf m

-- The changes look the resources up by GetKeyWithKind, as the source does: the map has other keys.
unfoldable pub rebuild_listeners : Configuration → Option Outcome
unfolding build_listeners_and_ts_configurations
rebuild_listeners c =
    let (listeners, configs) = build_listeners_and_ts_configurations c in
    let old = as_resources c.listeners in
    let new = as_resources listeners in
    create_resource_changes (removed_names old new) (updated_names old new) (added_names old new)
      old new
    >>= λ changes.
        let problems =
          add_problems_for_ts_configs_without_active_listener listeners (values configs) [] in
        some (
          record c { listeners = listeners; listener_problems = problems },
          map (refresh (as_resources configs)) (squash_resource_changes changes),
          detect_changes_in_problems problems c.listener_problems,
        )
