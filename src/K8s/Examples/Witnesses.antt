-- ===== src/K8s/Examples/Witnesses.antt =====
-- The theorems about the Configuration, at the objects of the examples.
use aspenmesh_k3s_multiclust.Prelude.{
  String, ◌≡◌, ◌↔◌, refl, sym, ◌∙◌, ◌⊎◌, inl, inr, true, false, none, some, List, [], ◌∷◌, ◌++◌,
  Elem, Distinct, map,
}
use aspenmesh_k3s_multiclust.Prelude.Dict.{Dict, lookup}
use aspenmesh_k3s_multiclust.Prelude.Sorting.{sort_strings}
use aspenmesh_k3s_multiclust.K8s.Objects.{is_master, is_minion}
use aspenmesh_k3s_multiclust.K8s.Resource.{
  Resource, new_transport_server_configuration, TransportServerConfiguration,
}
use aspenmesh_k3s_multiclust.K8s.State.{
  ConfigurationProblem, Configuration, ResourceChange, new_configuration, virtual_server,
}
use aspenmesh_k3s_multiclust.K8s.Changes.{
  delete_of, update_of, key_of, squash_resource_changes, create_resource_changes, removed_names,
  updated_names, added_names,
}
use aspenmesh_k3s_multiclust.K8s.Changes.Squash.{IsLast, DeletesFirst, squash_resource_changes_lem}
use aspenmesh_k3s_multiclust.K8s.Changes.Create.{Created, create_resource_changes-Created}
use aspenmesh_k3s_multiclust.K8s.Changes.Deploy.{apply_changes}
use aspenmesh_k3s_multiclust.K8s.Validation.{validate_ingress}
use aspenmesh_k3s_multiclust.K8s.Validation.Accepted.{IsWellFormed, accepted-IsWellFormed}
use aspenmesh_k3s_multiclust.K8s.References.{
  secret_reference_checker, find_resources_for_resource_reference,
}
use aspenmesh_k3s_multiclust.K8s.References.Found.{
  IsActive, References, find_resources_for_resource_reference_lem,
}
use aspenmesh_k3s_multiclust.K8s.Rebuild.{Outcome, rebuild_hosts}
use aspenmesh_k3s_multiclust.K8s.Rebuild.Effect.{state_of, changes_of, Reaches, rebuild_hosts_lem}
use aspenmesh_k3s_multiclust.K8s.Operations.{add_or_update_ingress}
use aspenmesh_k3s_multiclust.K8s.Listeners.{
  listener_of, listener_wins, build_listeners_and_ts_configurations,
}
use aspenmesh_k3s_multiclust.K8s.Listeners.Priority.{HaveUniqueUids, build_listeners-oldest}
use aspenmesh_k3s_multiclust.K8s.Operations.Outcomes.{IsHandled, add_or_update_ingress_lem}
use aspenmesh_k3s_multiclust.K8s.Operations.Requests.{put_virtual_server, put_ingress, handle}
use aspenmesh_k3s_multiclust.K8s.Operations.Total.{IsSafe, handle-IsSafe}
use aspenmesh_k3s_multiclust.K8s.Operations.Reachable.{
  Reachable, start, after, IsCoherent, new_configuration-IsCoherent, Reachable-IsCoherent,
}
use aspenmesh_k3s_multiclust.K8s.Problems.{rejected, detect_changes_in_problems}
use aspenmesh_k3s_multiclust.K8s.Problems.Reported.{IsNews, detect_changes_in_problems_lem}
use aspenmesh_k3s_multiclust.K8s.Examples.{
  bistro, settings, cafe, two_servers, cafe_conf, bistro_conf, cafe_ingress, dns, dns_udp,
  one_listener,
}
use aspenmesh_k3s_multiclust.K8s.Examples.HostWitnesses.{two_servers-IsStored, cafe_hosts}

-- The outcome of the first request, and the state that it leads to.
abbrev first_step :
    (out : Outcome) × (handle settings (put_virtual_server cafe) new_configuration ≡ some out)
first_step =
    let (out, e, st) =
      handle-IsSafe settings (put_virtual_server cafe) new_configuration
        new_configuration-IsCoherent.stored in
    (out, e)

first_reached :
    Reachable settings
      (state_of first_step.0)
      (apply_changes (changes_of first_step.0) (λ key. none))
first_reached =
    after new_configuration (λ key. none) (put_virtual_server cafe) first_step.0 start refl
      first_step.1

Reachable-IsCoherent_example :
    IsCoherent (state_of first_step.0) (apply_changes (changes_of first_step.0) (λ key. none))
Reachable-IsCoherent_example =
    Reachable-IsCoherent settings (state_of first_step.0)
      (apply_changes (changes_of first_step.0) (λ key. none)) first_reached

rebuild_hosts_lem_example :
    (out : Outcome) × (rebuild_hosts settings two_servers ≡ some out) × Reaches (λ key. none) out
rebuild_hosts_lem_example =
    rebuild_hosts_lem settings two_servers (λ key. none) two_servers-IsStored
      new_configuration-IsCoherent.assigned new_configuration-IsCoherent.deployed

handle-IsSafe_example : IsSafe (handle settings (put_ingress cafe_ingress) two_servers)
handle-IsSafe_example =
    handle-IsSafe settings (put_ingress cafe_ingress) two_servers two_servers-IsStored

abbrev two_changes : List ResourceChange
two_changes = delete_of cafe_conf ∷ update_of bistro_conf ∷ update_of cafe_conf ∷ []

squash_resource_changes_lem_example :
    ((d : ResourceChange) → Elem d (squash_resource_changes two_changes) ↔ IsLast d two_changes)
    × Distinct (map key_of (squash_resource_changes two_changes))
    × DeletesFirst (squash_resource_changes two_changes)
squash_resource_changes_lem_example = squash_resource_changes_lem two_changes

abbrev bistro_hosts : Dict Resource
bistro_hosts = ("cafe.example.com", bistro_conf) ∷ []

create_resource_changes-Created_example :
    (deletes : List ResourceChange) × (updates : List ResourceChange) × (create_resource_changes
        (removed_names bistro_hosts cafe_hosts)
        (updated_names bistro_hosts cafe_hosts)
        (added_names bistro_hosts cafe_hosts)
        bistro_hosts
        cafe_hosts
      ≡ some (deletes ++ updates))
    × Created bistro_hosts cafe_hosts deletes updates
create_resource_changes-Created_example = create_resource_changes-Created bistro_hosts cafe_hosts

cafe_ingress-valid : validate_ingress settings cafe_ingress ≡ []
unfolding validate_ingress is_master is_minion sort_strings lookup
cafe_ingress-valid = refl

accepted-IsWellFormed_example : IsWellFormed cafe_ingress
accepted-IsWellFormed_example = accepted-IsWellFormed settings cafe_ingress cafe_ingress-valid

abbrev running : Configuration
running = record new_configuration { hosts = cafe_hosts }

find_resources_for_resource_reference_lem_example :
    Elem cafe_conf (
      find_resources_for_resource_reference
        (secret_reference_checker false)
        "default"
        "cafe-secret"
        running)
    ↔ (IsActive running cafe_conf
        × References (secret_reference_checker false) "default" "cafe-secret" cafe_conf)
find_resources_for_resource_reference_lem_example =
    find_resources_for_resource_reference_lem (secret_reference_checker false) "default"
      "cafe-secret" running cafe_conf

add_or_update_ingress_lem_example :
    (out : Outcome) × (add_or_update_ingress settings cafe_ingress two_servers ≡ some out)
    × IsHandled settings cafe_ingress out
add_or_update_ingress_lem_example =
    add_or_update_ingress_lem settings cafe_ingress two_servers two_servers-IsStored

dns-HaveUniqueUids : HaveUniqueUids (dns ∷ [])
dns-HaveUniqueUids ts us (inl p) (inl q) e = p ∙ sym q
dns-HaveUniqueUids ts us (inr m) n e = elim m [ ]
dns-HaveUniqueUids ts us (inl p) (inr n) e = elim n [ ]

build_listeners-oldest_example :
    (h : TransportServerConfiguration) × (lookup "dns-udp"
        (build_listeners_and_ts_configurations one_listener).0
      ≡ some h)
    × (((h.transport_server ≡ dns) × (h.listener_port ≡ 5353))
        ⊎ (listener_wins h (new_transport_server_configuration dns) ≡ true))
unfolding lookup listener_of
build_listeners-oldest_example =
    build_listeners-oldest one_listener "default/dns" dns dns_udp dns-HaveUniqueUids refl refl refl

abbrev host_taken : ConfigurationProblem
host_taken = rejected (virtual_server bistro) "Host is taken by another resource"

detect_changes_in_problems_lem_example :
    Elem host_taken
      (detect_changes_in_problems (("VirtualServer/default/bistro", host_taken) ∷ []) [])
    ↔ ((k : String) × (lookup k (("VirtualServer/default/bistro", host_taken) ∷ [])
          ≡ some host_taken)
        × IsNews host_taken (lookup k []))
detect_changes_in_problems_lem_example =
    detect_changes_in_problems_lem (("VirtualServer/default/bistro", host_taken) ∷ []) [] host_taken
