-- ===== src/K8s/Problems.antt =====
-- internal/k8s/configuration.go: the problems that are reported to the user. A nil resource whose
-- method is called panics.
pub mod Reported
use aspenmesh_k3s_multiclust.Prelude.{
  String, Bool, false, ◌&&◌, Option, none, some, List, [], ◌∷◌, ◌++◌, ◌==◌, ◌>>=◌, if◌then◌else◌,
  bool_eq, any,
}
use aspenmesh_k3s_multiclust.Prelude.Texts.{concat}
use aspenmesh_k3s_multiclust.Prelude.Dict.{Dict, lookup, insert, keys, values}
use aspenmesh_k3s_multiclust.Prelude.Sorting.{sort_strings}
use aspenmesh_k3s_multiclust.K8s.Objects.{
  Ingress, VirtualServerRoute, is_minion, get_resource_key, get_resource_key_with_kind,
}
use aspenmesh_k3s_multiclust.K8s.Resource.{
  TransportServerConfiguration, Resource, ingress_conf, virtual_server_conf, transport_server_conf,
  get_key_with_kind, transport_server_is_equal, ingress_kind, virtual_server_route_kind,
}
use aspenmesh_k3s_multiclust.K8s.State.{
  Object, ingress, virtual_server, virtual_server_route, transport_server, ConfigurationProblem,
}
use aspenmesh_k3s_multiclust.K8s.Minions.{first_rule}

unfoldable pub compare_configuration_problems : ConfigurationProblem → ConfigurationProblem → Bool
compare_configuration_problems p1 p2 =
    bool_eq p1.is_error p2.is_error && p1.reason == p2.reason && p1.message == p2.message

abbrev pub is_same_problem : ConfigurationProblem → Option ConfigurationProblem → Bool
is_same_problem p none = false
is_same_problem p (some q) = compare_configuration_problems p q

-- The problem under a key, if it is to be returned.
abbrev pub changed_problem :
    Option ConfigurationProblem → Option ConfigurationProblem → List ConfigurationProblem
changed_problem none old = []
changed_problem (some p) old = if is_same_problem p old then [] else p ∷ []

unfoldable pub detect_changes :
    List String → Dict ConfigurationProblem → Dict ConfigurationProblem → List ConfigurationProblem
detect_changes [] new old = []
detect_changes (key ∷ rest) new old =
    changed_problem (lookup key new) (lookup key old) ++ detect_changes rest new old

-- The problems that are new, or not what they were, by their keys.
unfoldable pub detect_changes_in_problems :
    Dict ConfigurationProblem → Dict ConfigurationProblem → List ConfigurationProblem
unfolding detect_changes
detect_changes_in_problems new old = detect_changes (sort_strings (keys new)) new old

abbrev pub rejected : Object → String → ConfigurationProblem
rejected object message = record {
  object = object;
  is_error = false;
  reason = "Rejected";
  message = message;
}

-- The test of one resource: `none` is a panic, and `some none` is no problem.
abbrev host_problem :
    Dict Resource → Resource → Object → String → Option (Option ConfigurationProblem)
host_problem hosts r object host = lookup host hosts >>= λ res. some (
    if get_key_with_kind res == get_key_with_kind r
    then none
    else some (rejected object "Host is taken by another resource"))

unfoldable pub problem_without_active_host :
    Dict Resource → Resource → Option (Option ConfigurationProblem)
problem_without_active_host hosts (ingress_conf ic) = some (
    if any (λ v. v) (values ic.valid_hosts)
    then none
    else some (rejected (ingress ic.ingress) "All hosts are taken by other resources"))
problem_without_active_host hosts (virtual_server_conf vsc) =
    host_problem hosts (virtual_server_conf vsc) (virtual_server vsc.virtual_server)
      vsc.virtual_server.host
problem_without_active_host hosts (transport_server_conf tsc) =
    host_problem hosts (transport_server_conf tsc) (transport_server tsc.transport_server)
      tsc.transport_server.host

-- problems[key] = p, when there is a problem.
abbrev pub put_problem :
    String → Option ConfigurationProblem → Dict ConfigurationProblem → Dict ConfigurationProblem
put_problem key none problems = problems
put_problem key (some p) problems = insert key p problems

unfoldable pub add_problems_for_resources_without_active_host :
    Dict Resource → List Resource → Dict ConfigurationProblem → Option (Dict ConfigurationProblem)
unfolding problem_without_active_host
add_problems_for_resources_without_active_host hosts [] problems = some problems
add_problems_for_resources_without_active_host hosts (r ∷ rs) problems =
    problem_without_active_host hosts r >>= λ p.
    add_problems_for_resources_without_active_host hosts rs
      (put_problem (get_key_with_kind r) p problems)

-- The holder of the host is a master Ingress.
abbrev pub is_master_holder : Option Resource → Bool
is_master_holder (some (ingress_conf ic)) = ic.is_master
is_master_holder _ = false

abbrev pub orphan_minion : Ingress → ConfigurationProblem
orphan_minion ing = record {
  object = ingress ing;
  is_error = false;
  reason = "NoIngressMasterFound";
  message = "Ingress master is invalid or doesn't exist";
}

unfoldable pub add_problems_for_orphan_minions :
    Dict Resource → List Ingress → Dict ConfigurationProblem → Option (Dict ConfigurationProblem)
unfolding first_rule
add_problems_for_orphan_minions hosts [] problems = some problems
add_problems_for_orphan_minions hosts (ing ∷ ings) problems =
    let rest = add_problems_for_orphan_minions hosts ings problems in
    let key = get_resource_key_with_kind ingress_kind ing.meta in
    let rest_with =
      add_problems_for_orphan_minions hosts ings (insert key (orphan_minion ing) problems) in
    if is_minion ing
    then (first_rule ing >>= λ rule.
        if is_master_holder (lookup rule.host hosts) then rest else rest_with)
    else rest

abbrev same_name : VirtualServerRoute → VirtualServerRoute → Bool
same_name vsr v = vsr.meta.namespace == v.meta.namespace && vsr.meta.name == v.meta.name

abbrev no_virtual_server : VirtualServerRoute → ConfigurationProblem
no_virtual_server vsr = record {
  object = virtual_server_route vsr;
  is_error = false;
  reason = "NoVirtualServerFound";
  message = "VirtualServer is invalid or doesn't exist";
}

-- The problem of a VirtualServerRoute, by the holder of its host.
unfoldable pub route_problem : Option Resource → VirtualServerRoute → Option ConfigurationProblem
route_problem (some (virtual_server_conf vsc)) vsr =
    if any (same_name vsr) vsc.virtual_server_routes
    then none
    else some (record {
      object = virtual_server_route vsr;
      is_error = false;
      reason = "Ignored";
      message = concat (
          "VirtualServer "
          ∷ get_resource_key vsc.virtual_server.meta
          ∷ " ignores VirtualServerRoute"
          ∷ []);
    })
route_problem (some (ingress_conf ic)) vsr = some (no_virtual_server vsr)
route_problem (some (transport_server_conf tsc)) vsr = some (no_virtual_server vsr)
route_problem none vsr = some (no_virtual_server vsr)

unfoldable pub add_problems_for_orphan_or_ignored_vsrs :
    Dict Resource → List VirtualServerRoute → Dict ConfigurationProblem → Dict ConfigurationProblem
unfolding route_problem
add_problems_for_orphan_or_ignored_vsrs hosts [] problems = problems
add_problems_for_orphan_or_ignored_vsrs hosts (vsr ∷ vsrs) problems =
    add_problems_for_orphan_or_ignored_vsrs hosts vsrs (
      put_problem (get_resource_key_with_kind virtual_server_route_kind vsr.meta)
        (route_problem (lookup vsr.host hosts) vsr) problems)

-- The problem of a TransportServer, by the holder of the listener that it names.
unfoldable pub listener_problem :
    Option TransportServerConfiguration → TransportServerConfiguration → Option ConfigurationProblem
listener_problem none tsc = some (
    rejected (transport_server tsc.transport_server)
      (concat ("Listener " ∷ tsc.transport_server.listener_name ∷ " doesn't exist" ∷ [])))
listener_problem (some holder) tsc =
    if transport_server_is_equal tsc holder
    then none
    else some (
        rejected (transport_server tsc.transport_server) (
          concat (
            "Listener " ∷ tsc.transport_server.listener_name ∷ " is taken by another resource"
            ∷ [])))

unfoldable pub add_problems_for_ts_configs_without_active_listener :
    Dict TransportServerConfiguration
    → List TransportServerConfiguration
    → Dict ConfigurationProblem
    → Dict ConfigurationProblem
unfolding listener_problem
add_problems_for_ts_configs_without_active_listener listeners [] problems = problems
add_problems_for_ts_configs_without_active_listener listeners (tsc ∷ tscs) problems =
    add_problems_for_ts_configs_without_active_listener listeners tscs (
      put_problem (get_key_with_kind (transport_server_conf tsc))
        (listener_problem (lookup tsc.transport_server.listener_name listeners) tsc) problems)
