-- ===== src/K8s/Rebuild/Total.antt =====
-- rebuildHosts does not panic: no nil resource is met when problems are looked for.
use aspenmesh_k3s_multiclust.Prelude.{
  String, ◌≡◌, refl, inl, inr, true, some, List, [], ◌∷◌, arith, Elem, is_some, of_is_some,
  is_some->>=,
}
use aspenmesh_k3s_multiclust.Prelude.Dict.{Dict, lookup, insert, values}
use aspenmesh_k3s_multiclust.Prelude.Sorting.{sorted_values, sorted_values-Elem}
use aspenmesh_k3s_multiclust.K8s.Objects.{Ingress, get_resource_key_with_kind}
use aspenmesh_k3s_multiclust.K8s.Resource.{
  Resource, ingress_conf, virtual_server_conf, transport_server_conf, ingress_kind,
}
use aspenmesh_k3s_multiclust.K8s.State.{ConfigurationProblem, Configuration, Settings}
use aspenmesh_k3s_multiclust.K8s.Hosts.{claimed_hosts, build_hosts_and_resources}
use aspenmesh_k3s_multiclust.K8s.Hosts.Stored.{IsReadable, IsStored}
use aspenmesh_k3s_multiclust.K8s.Hosts.Built.{
  build_hosts_and_resources-is_some, asked_host-assigned,
}
use aspenmesh_k3s_multiclust.K8s.Changes.Create.{create_resource_changes-Created}
use aspenmesh_k3s_multiclust.K8s.Problems.{
  problem_without_active_host, add_problems_for_resources_without_active_host, orphan_minion,
  add_problems_for_orphan_minions,
}
use aspenmesh_k3s_multiclust.K8s.Rebuild.{host_problems_of, rebuild_hosts}

problem_without_active_host-some :
    (hosts : Dict Resource) (r : Resource)
    → ((host : String)
        → Elem host (claimed_hosts r)
        → (h : Resource) × (lookup host hosts ≡ some h))
    → is_some (problem_without_active_host hosts r) ≡ true
unfolding problem_without_active_host claimed_hosts
problem_without_active_host-some hosts (ingress_conf ic) h = refl
problem_without_active_host-some hosts (virtual_server_conf vsc) h =
    let (res, e) = h vsc.virtual_server.host (inl refl) in rw e
problem_without_active_host-some hosts (transport_server_conf tsc) h =
    let (res, e) = h tsc.transport_server.host (inl refl) in rw e

resources_problems-some :
    (hosts : Dict Resource) (rs : List Resource) (problems : Dict ConfigurationProblem)
    → ((r : Resource) (host : String)
        → Elem r rs
        → Elem host (claimed_hosts r)
        → (h : Resource) × (lookup host hosts ≡ some h))
    → is_some (add_problems_for_resources_without_active_host hosts rs problems) ≡ true
unfolding add_problems_for_resources_without_active_host
resources_problems-some hosts [] problems h = refl
resources_problems-some hosts (r ∷ rs) problems h =
    is_some->>= (problem_without_active_host hosts r) _
      (problem_without_active_host-some hosts r (λ host m. h r host (inl refl) m))
      (λ p. resources_problems-some hosts rs _ (λ q host m n. h q host (inr m) n))

minion_problems-some :
    (hosts : Dict Resource) (ings : List Ingress) (problems : Dict ConfigurationProblem)
    → ((ing : Ingress) → Elem ing ings → IsReadable ing)
    → is_some (add_problems_for_orphan_minions hosts ings problems) ≡ true
unfolding add_problems_for_orphan_minions
minion_problems-some hosts [] problems h = refl
minion_problems-some hosts (ing ∷ ings) problems h =
    let (rule, er, ok) = h ing (inl refl) in
    ground (
      arith,
      er,
      minion_problems-some hosts ings problems (λ i m. h i (inr m)),
      minion_problems-some hosts ings
          (insert (get_resource_key_with_kind ingress_kind ing.meta) (orphan_minion ing) problems)
          (λ i m. h i (inr m)),
    )

host_problems_of-some :
    (env : Settings) (c : Configuration) (hosts resources : Dict Resource)
    → IsStored c
    → build_hosts_and_resources env c ≡ some (hosts, resources)
    → is_some (host_problems_of c hosts resources) ≡ true
unfolding host_problems_of
host_problems_of-some env c hosts resources st e =
    is_some->>= (add_problems_for_resources_without_active_host hosts (values resources) []) _
      (resources_problems-some hosts (values resources) []
        (λ r host m n. asked_host-assigned env c hosts resources r host e m n))
      (λ p.
        is_some->>= (add_problems_for_orphan_minions hosts (sorted_values c.ingresses) p) _
          (minion_problems-some hosts (sorted_values c.ingresses) p (λ ing m.
            let (k, ek) = sorted_values-Elem c.ingresses ing m in st.ingress_readable k ing ek))
          (λ q. refl))

-- With stored objects, hosts are rebuilt without a panic.
pub rebuild_hosts-is_some :
    (env : Settings) (c : Configuration) → IsStored c → is_some (rebuild_hosts env c) ≡ true
unfolding rebuild_hosts
rebuild_hosts-is_some env c st =
    let ((hosts, resources), e) =
      of_is_some (build_hosts_and_resources env c) (build_hosts_and_resources-is_some env c st) in
    let (deletes, updates, ec, created) = create_resource_changes-Created c.hosts hosts in
    let (problems, ep) =
      of_is_some (host_problems_of c hosts resources)
        (host_problems_of-some env c hosts resources st e) in
    rw (e, ec, ep)
