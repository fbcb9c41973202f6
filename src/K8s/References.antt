-- ===== src/K8s/References.antt =====
-- internal/k8s/reference_checkers.go, and the queries of internal/k8s/configuration.go: which
-- resources reference a secret, a service, a policy or an App Protect resource.
pub mod Found
use aspenmesh_k3s_multiclust.Prelude.{
  String, Bool, true, false, not, ◌&&◌, ◌||◌, Option, none, some, List, [], ◌∷◌, ◌++◌, ◌==◌, map,
  if◌then◌else◌, keep, any,
}
use aspenmesh_k3s_multiclust.Prelude.Texts.{concat}
use aspenmesh_k3s_multiclust.Prelude.Dict.{Dict, lookup, insert}
use aspenmesh_k3s_multiclust.Prelude.Sorting.{sorted_values}
use aspenmesh_k3s_multiclust.K8s.Objects.{
  Ingress, Rule, HttpPath, PolicyReference, Upstream, Route, VirtualServer, VirtualServerRoute,
  TransportServer, annotation,
}
use aspenmesh_k3s_multiclust.K8s.Resource.{
  MinionConfiguration, TransportServerConfiguration, Resource, ingress_conf, virtual_server_conf,
  transport_server_conf, get_key_with_kind,
}
use aspenmesh_k3s_multiclust.K8s.State.{Configuration}

-- The interface resourceReferenceChecker: each test takes the namespace and the name of a resource.
pub record ResourceReferenceChecker : Type 0 where
  pub is_referenced_by_ingress : String → String → Ingress → Bool
  pub is_referenced_by_minion : String → String → Ingress → Bool
  pub is_referenced_by_virtual_server : String → String → VirtualServer → Bool
  pub is_referenced_by_virtual_server_route : String → String → VirtualServerRoute → Bool
  pub is_referenced_by_transport_server : String → String → TransportServer → Bool

abbrev pub jwt_key_annotation : String
jwt_key_annotation = "nginx.com/jwt-key"

abbrev is_text : Option String → String → Bool
is_text none name = false
is_text (some text) name = text == name

unfoldable pub secret_reference_checker : Bool → ResourceReferenceChecker
secret_reference_checker is_plus = record {
  is_referenced_by_ingress = λ namespace name (ing : Ingress).
      ing.meta.namespace == namespace
      && (any (λ s. s == name) ing.tls_secrets
          || (is_plus && is_text (annotation ing.meta jwt_key_annotation) name));
  is_referenced_by_minion = λ namespace name (ing : Ingress).
      ing.meta.namespace == namespace
      && (is_plus && is_text (annotation ing.meta jwt_key_annotation) name);
  is_referenced_by_virtual_server = λ namespace name (vs : VirtualServer).
      vs.meta.namespace == namespace && is_text vs.tls_secret name;
  is_referenced_by_virtual_server_route = λ namespace name vsr. false;
  is_referenced_by_transport_server = λ namespace name ts. false;
}

-- An upstream that uses the cluster IP of its service does not depend on the endpoints.
abbrev upstream_uses : Bool → String → Upstream → Bool
upstream_uses has_cluster_ip name u = not (has_cluster_ip && u.use_cluster_ip) && u.service == name

abbrev pub rule_uses : String → Rule → Bool
rule_uses name rule = elim rule.http [
  | none ↦ false
  | some paths ↦ any (λ (p : HttpPath). p.service_name == name) paths
]

abbrev pub ingress_uses : String → String → Ingress → Bool
ingress_uses namespace name ing =
    ing.meta.namespace == namespace && (is_text ing.backend name || any (rule_uses name) ing.rules)

unfoldable pub service_reference_checker : Bool → ResourceReferenceChecker
service_reference_checker has_cluster_ip = record {
  is_referenced_by_ingress = ingress_uses;
  is_referenced_by_minion = ingress_uses;
  is_referenced_by_virtual_server = λ namespace name (vs : VirtualServer).
      vs.meta.namespace == namespace && any (upstream_uses has_cluster_ip name) vs.upstreams;
  is_referenced_by_virtual_server_route = λ namespace name (vsr : VirtualServerRoute).
      vsr.meta.namespace == namespace && any (upstream_uses has_cluster_ip name) vsr.upstreams;
  is_referenced_by_transport_server = λ namespace name (ts : TransportServer).
      ts.meta.namespace == namespace && any (λ s. s == name) ts.upstream_services;
}

unfoldable pub is_policy_referenced : List PolicyReference → String → String → String → Bool
is_policy_referenced policies resource_namespace namespace name =
    any
      (λ (p : PolicyReference).
        p.name == name
        && (if p.namespace == "" then resource_namespace else p.namespace) == namespace)
      policies

unfoldable pub policy_reference_checker : ResourceReferenceChecker
unfolding is_policy_referenced
policy_reference_checker = record {
  is_referenced_by_ingress = λ namespace name ing. false;
  is_referenced_by_minion = λ namespace name ing. false;
  is_referenced_by_virtual_server = λ namespace name (vs : VirtualServer).
      is_policy_referenced vs.policies vs.meta.namespace namespace name
      || any (λ (r : Route). is_policy_referenced r.policies vs.meta.namespace namespace name)
          vs.routes;
  is_referenced_by_virtual_server_route = λ namespace name (vsr : VirtualServerRoute).
      any (λ (r : Route). is_policy_referenced r.policies vsr.meta.namespace namespace name)
        vsr.subroutes;
  is_referenced_by_transport_server = λ namespace name ts. false;
}

-- Only a regular or a master Ingress can reference an App Protect resource.
unfoldable pub app_protect_resource_reference_checker : String → ResourceReferenceChecker
app_protect_resource_reference_checker annotation_name = record {
  is_referenced_by_ingress = λ namespace name (ing : Ingress).
      is_text (annotation ing.meta annotation_name) (concat (namespace ∷ "/" ∷ name ∷ []))
      || (namespace == ing.meta.namespace && is_text (annotation ing.meta annotation_name) name);
  is_referenced_by_minion = λ namespace name ing. false;
  is_referenced_by_virtual_server = λ namespace name vs. false;
  is_referenced_by_virtual_server_route = λ namespace name vsr. false;
  is_referenced_by_transport_server = λ namespace name ts. false;
}

-- The resource itself, or a part of it, is found to reference the named one.
unfoldable pub is_referenced_by : ResourceReferenceChecker → String → String → Resource → Bool
is_referenced_by checker namespace name (ingress_conf ic) =
    checker.is_referenced_by_ingress namespace name ic.ingress
    || any (λ (m : MinionConfiguration). checker.is_referenced_by_minion namespace name m.ingress)
        ic.minions
is_referenced_by checker namespace name (virtual_server_conf vsc) =
    checker.is_referenced_by_virtual_server namespace name vsc.virtual_server
    || any (checker.is_referenced_by_virtual_server_route namespace name) vsc.virtual_server_routes
is_referenced_by checker namespace name (transport_server_conf tsc) =
    checker.is_referenced_by_transport_server namespace name tsc.transport_server

-- The holders of the hosts, then those of the listeners, by the names that they hold.
unfoldable pub find_resources_for_resource_reference :
    ResourceReferenceChecker → String → String → Configuration → List Resource
unfolding is_referenced_by
find_resources_for_resource_reference checker namespace name c =
    keep (is_referenced_by checker namespace name) (sorted_values c.hosts)
    ++ keep (is_referenced_by checker namespace name)
        (map transport_server_conf (sorted_values c.listeners))

pub record ResourceFilter : Type 0 where
  pub ingresses : Bool
  pub virtual_servers : Bool

abbrev pub passes : ResourceFilter → Resource → Bool
passes filter (ingress_conf ic) = filter.ingresses
passes filter (virtual_server_conf vsc) = filter.virtual_servers
passes filter (transport_server_conf tsc) = false

-- The holders that pass the filter, under their keys.
unfoldable pub filtered : ResourceFilter → Dict Resource → Dict Resource → Dict Resource
filtered filter [] m = m
filtered filter ((host, r) ∷ hosts) m =
    filtered filter hosts (if passes filter r then insert (get_key_with_kind r) r m else m)

unfoldable pub get_resources_with_filter : ResourceFilter → Configuration → List Resource
unfolding filtered
get_resources_with_filter filter c = sorted_values (filtered filter c.hosts [])
