-- ===== src/K8s/Hosts.antt =====
-- internal/k8s/configuration.go, buildHostsAndResources and updateActiveHostsForIngresses: from the
-- stored objects to the resource that holds each host. The source shares one object between its two
-- maps and writes warnings and ValidHosts into it; here what is written is collected first, and put
-- into the object under both maps at the end.
pub mod Stored
pub mod Source
pub mod Claims
pub mod Finish
pub mod Coherence
pub mod Built
pub mod Oldest
pub mod Priority
use aspenmesh_k3s_multiclust.Prelude.{
  String, Bool, not, ◌&&◌, Option, none, some, List, [], ◌∷◌, ◌++◌, map, ◌==◌, ◌>>=◌, if◌then◌else◌,
  traverse, keep, is_some,
}
use text.Mathlib.Text.{find?}
use aspenmesh_k3s_multiclust.Prelude.Texts.{concat}
use aspenmesh_k3s_multiclust.Prelude.Dict.{Dict, lookup, insert}
use aspenmesh_k3s_multiclust.Prelude.Traversal.{at_value}
use aspenmesh_k3s_multiclust.Prelude.Sorting.{sorted_values}
use aspenmesh_k3s_multiclust.K8s.Objects.{
  Ingress, Rule, Route, VirtualServer, VirtualServerRoute, TransportServer, is_minion, is_master,
  tls_passthrough_listener_name, tls_passthrough_listener_protocol,
}
use aspenmesh_k3s_multiclust.K8s.Resource.{
  IngressConfiguration, Resource, ingress_conf, virtual_server_conf, transport_server_conf, wins,
  get_key_with_kind, add_warning, new_regular_ingress_configuration,
  new_master_ingress_configuration, new_virtual_server_configuration,
  new_transport_server_configuration,
}
use aspenmesh_k3s_multiclust.K8s.Contest.{
  Event, took, ousted, refused, Contest, no_claims, claim_each,
}
use aspenmesh_k3s_multiclust.K8s.State.{Configuration, Settings}
use aspenmesh_k3s_multiclust.K8s.Minions.{first_rule, build_minion_configs}

unfoldable pub ingress_configuration : Configuration → Ingress → Option IngressConfiguration
ingress_configuration c ing =
    if is_master ing
    then (first_rule ing >>= λ rule.
        build_minion_configs c rule.host >>= λ (minions, child_warnings).
        some (new_master_ingress_configuration ing minions child_warnings))
    else some (new_regular_ingress_configuration ing)

-- Step 1: one resource for each Ingress that is no minion.
unfoldable pub ingress_resources : Configuration → List Ingress → Option (List Resource)
unfolding ingress_configuration
ingress_resources c [] = some []
ingress_resources c (ing ∷ ings) =
    let rest = ingress_resources c ings in
    if is_minion ing
    then rest
    else (ingress_configuration c ing >>= λ ic. rest >>= λ rs. some (ingress_conf ic ∷ rs))

-- strings.Contains(s, "/")
contains_slash : String → Bool
contains_slash s = is_some (find? s "/")

-- The key of the VirtualServerRoute that a route names; its namespace defaults to the VirtualServer's.
unfoldable pub route_key : VirtualServer → Route → String
unfolding contains_slash
route_key vs r =
    if contains_slash r.route then r.route else concat (vs.meta.namespace ∷ "/" ∷ r.route ∷ [])

module _ (env : Settings) where
  -- What one route adds: a VirtualServerRoute or a warning, and nothing when it names none.
  unfoldable pub build_virtual_server_route :
      Configuration → VirtualServer → Route → List VirtualServerRoute × List String
  unfolding route_key
  build_virtual_server_route c vs r =
      if r.route == "" then ([], []) else elim (lookup (route_key vs r) c.virtual_server_routes) [
        | none ↦ (
          [],
          concat ("VirtualServerRoute " ∷ route_key vs r ∷ " doesn't exist or invalid" ∷ []) ∷ [],
        )
        | some vsr ↦
            elim (env.validate_virtual_server_route_for_virtual_server vsr vs.host r.path) [
              | none ↦ (vsr ∷ [], [])
              | some err ↦ (
                [],
                concat ("VirtualServerRoute " ∷ route_key vs r ∷ " is invalid: " ∷ err ∷ []) ∷ [],
              )
            ]
      ]

  unfoldable pub build_virtual_server_routes :
      Configuration → VirtualServer → List Route → List VirtualServerRoute × List String
  unfolding build_virtual_server_route
  build_virtual_server_routes c vs [] = ([], [])
  build_virtual_server_routes c vs (r ∷ rs) =
      let (vsrs, warnings) = build_virtual_server_route c vs r in
      let (more_vsrs, more_warnings) = build_virtual_server_routes c vs rs in
      (vsrs ++ more_vsrs, warnings ++ more_warnings)

  -- Step 2: one resource for each VirtualServer.
  unfoldable pub virtual_server_resource : Configuration → VirtualServer → Resource
  unfolding build_virtual_server_routes
  virtual_server_resource c vs =
      let (vsrs, warnings) = build_virtual_server_routes c vs vs.routes in
      virtual_server_conf (new_virtual_server_configuration vs vsrs warnings)

  unfoldable pub is_skipped : TransportServer → Bool
  is_skipped ts =
      not (ts.listener_name == tls_passthrough_listener_name)
      && not (ts.listener_protocol == tls_passthrough_listener_protocol)

  -- Step 3: one resource for each TransportServer of the TLS Passthrough listener.
  unfoldable pub transport_server_resources : Configuration → List Resource
  unfolding is_skipped
  transport_server_resources c =
      if env.is_tls_passthrough_enabled
      then map (λ ts. transport_server_conf (new_transport_server_configuration ts))
          (keep (λ ts. not (is_skipped ts)) (sorted_values c.transport_servers))
      else []

  -- The resources of the three steps, in the order in which they claim their hosts.
  unfoldable pub new_resources : Configuration → Option (List Resource)
  unfolding ingress_resources virtual_server_resource transport_server_resources
  new_resources c = ingress_resources c (sorted_values c.ingresses) >>= λ rs. some (
      rs
      ++ map (virtual_server_resource c) (sorted_values c.virtual_servers)
      ++ transport_server_resources c)

-- The hosts that a resource asks for.
unfoldable pub claimed_hosts : Resource → List String
claimed_hosts (ingress_conf ic) = map (λ (r : Rule). r.host) ic.ingress.rules
claimed_hosts (virtual_server_conf vsc) = vsc.virtual_server.host ∷ []
claimed_hosts (transport_server_conf tsc) = tsc.transport_server.host ∷ []

unfoldable pub claim_hosts : List Resource → Contest Resource → Contest Resource
claim_hosts [] s = s
claim_hosts (r ∷ rs) s = claim_hosts rs (claim_each wins r (claimed_hosts r) s)

abbrev host_warning : String → String
host_warning host = concat ("host " ∷ host ∷ " is taken by another resource" ∷ [])

-- Adds the warnings of the contest to the resource with the key.
unfoldable pub add_host_warnings : String → List (Event Resource) → Resource → Resource
add_host_warnings key [] r = r
add_host_warnings key (took q host ∷ events) r = add_host_warnings key events r
add_host_warnings key (ousted q host ∷ events) r =
    add_host_warnings key events
      (if get_key_with_kind q == key then add_warning (host_warning host) r else r)
add_host_warnings key (refused q host ∷ events) r =
    add_host_warnings key events
      (if get_key_with_kind q == key then add_warning (host_warning host) r else r)

-- ValidHosts of the Ingress with the key; a host without a holder panics.
unfoldable pub mark_valid_hosts :
    Dict Resource → String → List Rule → Dict Bool → Option (Dict Bool)
mark_valid_hosts hosts key [] valid = some valid
mark_valid_hosts hosts key (rule ∷ rules) valid = lookup rule.host hosts >>= λ res.
    mark_valid_hosts hosts key rules (insert rule.host (get_key_with_kind res == key) valid)

unfoldable pub update_active_hosts : Dict Resource → Resource → Option Resource
unfolding mark_valid_hosts
update_active_hosts hosts (ingress_conf ic) =
    mark_valid_hosts hosts (get_key_with_kind (ingress_conf ic)) ic.ingress.rules ic.valid_hosts
    >>= λ valid. some (ingress_conf (record ic { valid_hosts = valid }))
update_active_hosts hosts (virtual_server_conf vsc) = some (virtual_server_conf vsc)
update_active_hosts hosts (transport_server_conf tsc) = some (transport_server_conf tsc)

-- The object that a resource of the contest has become once all is written into it.
unfoldable pub finish : Contest Resource → Resource → Option Resource
unfolding add_host_warnings update_active_hosts
finish s r = update_active_hosts s.holders (add_host_warnings (get_key_with_kind r) s.events r)

-- newResources[resource.GetKeyWithKind()] = resource, for each resource in turn
unfoldable pub by_key : Contest Resource → List Resource → Dict Resource → Option (Dict Resource)
unfolding finish
by_key s [] m = some m
by_key s (r ∷ rs) m = finish s r >>= λ done. by_key s rs (insert (get_key_with_kind r) done m)

-- The holder of each host, and every resource under its key.
unfoldable pub build_hosts_and_resources :
    Settings → Configuration → Option (Dict Resource × Dict Resource)
unfolding new_resources claim_hosts by_key
build_hosts_and_resources env c = new_resources env c >>= λ rs.
    let s = claim_hosts rs no_claims in
    traverse (at_value (finish s)) s.holders >>= λ hosts.
    by_key s rs [] >>= λ resources. some (hosts, resources)
