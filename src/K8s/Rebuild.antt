-- ===== src/K8s/Rebuild.antt =====
-- internal/k8s/configuration.go, rebuildHosts: hosts are assigned anew, and the changes to the
-- former assignment and the problems that are new are returned.
pub mod Total
pub mod Refresh
pub mod Effect
use aspenmesh_k3s_multiclust.Prelude.{Option, none, some, List, [], ◌∷◌, map, ◌>>=◌}
use aspenmesh_k3s_multiclust.Prelude.Dict.{Dict, lookup, values}
use aspenmesh_k3s_multiclust.Prelude.Sorting.{sorted_values}
use aspenmesh_k3s_multiclust.K8s.Resource.{Resource}
use aspenmesh_k3s_multiclust.K8s.State.{
  ResourceChange, ConfigurationProblem, Configuration, Settings,
}
use aspenmesh_k3s_multiclust.K8s.Hosts.{build_hosts_and_resources}
use aspenmesh_k3s_multiclust.K8s.Changes.{
  removed_names, updated_names, added_names, create_resource_changes, squash_resource_changes,
  key_of,
}
use aspenmesh_k3s_multiclust.K8s.Problems.{
  detect_changes_in_problems, add_problems_for_resources_without_active_host,
  add_problems_for_orphan_minions, add_problems_for_orphan_or_ignored_vsrs,
}

-- The new state, with what is returned.
abbrev pub Outcome : Type 0
Outcome = Configuration × List ResourceChange × List ConfigurationProblem

abbrev pub with_latest : ResourceChange → Option Resource → ResourceChange
with_latest change none = change
with_latest change (some r) = record change { resource = r }

-- The change refers to the latest version of its resource, if there is one.
unfoldable pub refresh : Dict Resource → ResourceChange → ResourceChange
refresh resources change = with_latest change (lookup (key_of change) resources)

-- The problems of the hosts, once these are assigned.
unfoldable pub host_problems_of :
    Configuration → Dict Resource → Dict Resource → Option (Dict ConfigurationProblem)
host_problems_of c hosts resources =
    add_problems_for_resources_without_active_host hosts (values resources) [] >>= λ p.
    add_problems_for_orphan_minions hosts (sorted_values c.ingresses) p >>= λ q.
    some (add_problems_for_orphan_or_ignored_vsrs hosts (sorted_values c.virtual_server_routes) q)

unfoldable pub rebuild_hosts : Settings → Configuration → Option Outcome
unfolding refresh host_problems_of
rebuild_hosts env c = build_hosts_and_resources env c >>= λ (hosts, resources).
    create_resource_changes (removed_names c.hosts hosts) (updated_names c.hosts hosts)
      (added_names c.hosts hosts) c.hosts hosts
    >>= λ changes. host_problems_of c hosts resources >>= λ problems. some (
      record c { hosts = hosts; host_problems = problems },
      map (refresh resources) (squash_resource_changes changes),
      detect_changes_in_problems problems c.host_problems,
    )
