-- ===== src/K8s/Operations.antt =====
-- internal/k8s/configuration.go: the operations of the Configuration, each of which stores or drops
-- an object and rebuilds the hosts (and listeners) that depend on it.
pub mod Errors
pub mod Outcomes
pub mod Stores
pub mod Requests
pub mod Total
pub mod Reachable
use aspenmesh_k3s_multiclust.Prelude.{
  String, Bool, true, false, Option, none, some, List, [], ◌∷◌, ◌++◌, ◌==◌, ◌>>=◌, if◌then◌else◌,
  is_some,
}
use aspenmesh_k3s_multiclust.Prelude.Texts.{concat}
use aspenmesh_k3s_multiclust.Prelude.Dict.{Dict, lookup, insert, remove}
use aspenmesh_k3s_multiclust.K8s.Objects.{
  ObjectMeta, Ingress, VirtualServer, VirtualServerRoute, TransportServer, GlobalConfiguration,
  get_resource_key, get_resource_key_with_kind,
}
use aspenmesh_k3s_multiclust.K8s.FieldErrors.{FieldError}
use aspenmesh_k3s_multiclust.K8s.Resource.{
  Resource, get_key_with_kind, ingress_kind, virtual_server_kind, transport_server_kind,
}
use aspenmesh_k3s_multiclust.K8s.State.{
  Object, ingress, virtual_server, virtual_server_route, transport_server, ResourceChange,
  ConfigurationProblem, Configuration, Settings,
}
use aspenmesh_k3s_multiclust.K8s.Changes.{key_of}
use aspenmesh_k3s_multiclust.K8s.Validation.{validate_ingress}
use aspenmesh_k3s_multiclust.K8s.Rebuild.{Outcome, rebuild_hosts}
use aspenmesh_k3s_multiclust.K8s.Listeners.{rebuild_listeners}

-- Puts the error into the first change of the resource with the key; `none` when there is none.
unfoldable pub attach_error : String → String → List ResourceChange → Option (List ResourceChange)
attach_error key err [] = none
attach_error key err (change ∷ changes) =
    let rest = attach_error key err changes in
    if key_of change == key
    then some (record change { error = err } ∷ changes)
    else (rest >>= λ cs. some (change ∷ cs))

abbrev pub rejection : Object → String → ConfigurationProblem
rejection object message = record {
  object = object;
  is_error = true;
  reason = "Rejected";
  message = message;
}

-- The changes with the error in one of them, or the problem that tells of it.
abbrev pub reported : Outcome → ConfigurationProblem → Option (List ResourceChange) → Outcome
reported (c, changes, problems) p (some with_error) = (c, with_error, problems)
reported (c, changes, problems) p none = (c, changes, problems ++ p ∷ [])

-- A validation error goes with the change that removes the resource, or becomes a problem.
unfoldable pub report_error :
    String → Object → Option String → (String → String) → Outcome → Outcome
unfolding attach_error
report_error key object none message outcome = outcome
report_error key object (some err) message (c, changes, problems) =
    reported (c, changes, problems) (rejection object (message err)) (attach_error key err changes)

-- Stores an object of the right class that is valid, and drops any other.
unfoldable pub store_object {ℓ} : {V : Type ℓ} → Bool → Option String → String → V → Dict V → Dict V
store_object correct_class err key v m =
    if correct_class
    then elim err [ none ↦ insert key v m | some e ↦ remove key m ]
    else remove key m

-- An object of another class is not validated.
abbrev pub error_in_class : Bool → Option String → Option String
error_in_class correct_class err = if correct_class then err else none

-- ToAggregate of a list of errors: nil when it is empty.
abbrev pub to_aggregate : Settings → List FieldError → Option String
to_aggregate env [] = none
to_aggregate env (e ∷ es) = some (env.aggregate (e ∷ es))

abbrev rejected_with : String → ObjectMeta → String → String
rejected_with kind meta err =
    concat (kind ∷ " " ∷ get_resource_key meta ∷ " was rejected with error: " ∷ err ∷ [])

module _ (env : Settings) where
  unfoldable pub add_or_update_ingress : Ingress → Configuration → Option Outcome
  unfolding store_object report_error
  add_or_update_ingress ing c =
      let correct_class = env.has_correct_ingress_class (ingress ing) in
      let err = to_aggregate env (validate_ingress env ing) in
      rebuild_hosts env (record c {
        ingresses = store_object correct_class err (get_resource_key ing.meta) ing c.ingresses;
      })
      >>= λ outcome. some (
          report_error (get_resource_key_with_kind ingress_kind ing.meta) (ingress ing)
            (error_in_class correct_class err) (λ e. e) outcome)

  unfoldable pub delete_ingress : String → Configuration → Option Outcome
  delete_ingress key c =
      if is_some (lookup key c.ingresses)
      then rebuild_hosts env (record c { ingresses = remove key c.ingresses })
      else some (c, [], [])

  unfoldable pub add_or_update_virtual_server : VirtualServer → Configuration → Option Outcome
  unfolding store_object report_error
  add_or_update_virtual_server vs c =
      let correct_class = env.has_correct_ingress_class (virtual_server vs) in
      let err = env.validate_virtual_server vs in
      rebuild_hosts env (record c {
        virtual_servers =
            store_object correct_class err (get_resource_key vs.meta) vs c.virtual_servers;
      })
      >>= λ outcome. some (
          report_error (get_resource_key_with_kind virtual_server_kind vs.meta) (virtual_server vs)
            (error_in_class correct_class err) (rejected_with "VirtualServer" vs.meta) outcome)

  unfoldable pub delete_virtual_server : String → Configuration → Option Outcome
  delete_virtual_server key c =
      if is_some (lookup key c.virtual_servers)
      then rebuild_hosts env (record c { virtual_servers = remove key c.virtual_servers })
      else some (c, [], [])

  -- A VirtualServerRoute is no resource of its own: its error is always a problem.
  abbrev pub report_route_error : VirtualServerRoute → Option String → Outcome → Outcome
  report_route_error vsr none (c, changes, problems) = (c, changes, problems)
  report_route_error vsr (some err) (c, changes, problems) = (
    c,
    changes,
    problems
        ++ rejection (virtual_server_route vsr) (rejected_with "VirtualServerRoute" vsr.meta err)
          ∷ [],
  )

  unfoldable pub add_or_update_virtual_server_route :
      VirtualServerRoute → Configuration → Option Outcome
  unfolding store_object
  add_or_update_virtual_server_route vsr c =
      let correct_class = env.has_correct_ingress_class (virtual_server_route vsr) in
      let err = env.validate_virtual_server_route vsr in
      rebuild_hosts env (record c {
        virtual_server_routes =
            store_object correct_class err (get_resource_key vsr.meta) vsr c.virtual_server_routes;
      })
      >>= λ outcome. some (report_route_error vsr (error_in_class correct_class err) outcome)

  unfoldable pub delete_virtual_server_route : String → Configuration → Option Outcome
  delete_virtual_server_route key c =
      if is_some (lookup key c.virtual_server_routes)
      then rebuild_hosts env
          (record c { virtual_server_routes = remove key c.virtual_server_routes })
      else some (c, [], [])

  -- Returns the validation error as well.
  unfoldable pub add_or_update_global_configuration :
      GlobalConfiguration → Configuration → Option (Outcome × Option String)
  add_or_update_global_configuration gc c =
      let err = env.validate_global_configuration gc in
      rebuild_listeners
        (record c { global_configuration = elim err [ none ↦ some gc | some e ↦ none ] })
      >>= λ outcome. some (outcome, err)

  unfoldable pub delete_global_configuration : Configuration → Option Outcome
  delete_global_configuration c = rebuild_listeners (record c { global_configuration = none })

  -- The listeners are rebuilt, and with TLS Passthrough the hosts too; the changes are concatenated.
  unfoldable pub rebuild_listeners_and_hosts : Configuration → Option Outcome
  rebuild_listeners_and_hosts c = rebuild_listeners c >>= λ (c1, changes, problems).
      if env.is_tls_passthrough_enabled
      then (rebuild_hosts env c1 >>= λ (c2, host_changes, host_problems).
          some (c2, changes ++ host_changes, problems ++ host_problems))
      else some (c1, changes, problems)

  unfoldable pub add_or_update_transport_server : TransportServer → Configuration → Option Outcome
  unfolding store_object report_error rebuild_listeners_and_hosts
  add_or_update_transport_server ts c =
      let correct_class = env.has_correct_ingress_class (transport_server ts) in
      let err = env.validate_transport_server ts in
      rebuild_listeners_and_hosts (record c {
        transport_servers =
            store_object correct_class err (get_resource_key ts.meta) ts c.transport_servers;
      })
      >>= λ outcome. some (
          report_error (get_resource_key_with_kind transport_server_kind ts.meta)
            (transport_server ts) (error_in_class correct_class err)
            (rejected_with "TransportServer" ts.meta) outcome)

  unfoldable pub delete_transport_server : String → Configuration → Option Outcome
  unfolding rebuild_listeners_and_hosts
  delete_transport_server key c =
      if is_some (lookup key c.transport_servers)
      then rebuild_listeners_and_hosts
          (record c { transport_servers = remove key c.transport_servers })
      else some (c, [], [])
