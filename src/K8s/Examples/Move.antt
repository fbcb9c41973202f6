-- ===== src/K8s/Examples/Move.antt =====
-- A run of AddOrUpdateTransportServer, when a TransportServer moves from TLS Passthrough to a listener.
use aspenmesh_k3s_multiclust.Prelude.{◌≡◌, refl, true, false, some, [], ◌∷◌, map, ◌>>=◌}
use aspenmesh_k3s_multiclust.K8s.Objects.{TransportServer, get_resource_key}
use aspenmesh_k3s_multiclust.K8s.Resource.{
  transport_server_conf, new_transport_server_configuration, get_key_with_kind, is_equal, wins,
}
use aspenmesh_k3s_multiclust.K8s.State.{Configuration}
use aspenmesh_k3s_multiclust.K8s.Changes.{
  is_delete, create_resource_changes, removed_names, updated_names, added_names,
  squash_resource_changes,
}
use aspenmesh_k3s_multiclust.K8s.Rebuild.Effect.{changes_of}
use aspenmesh_k3s_multiclust.K8s.Operations.{add_or_update_transport_server}
use aspenmesh_k3s_multiclust.K8s.Listeners.{rebuild_listeners}
use aspenmesh_k3s_multiclust.Prelude.Sorting.{sort_strings, sorted_values}
use aspenmesh_k3s_multiclust.Prelude.Dict.{insert, lookup}
use aspenmesh_k3s_multiclust.K8s.Contest.{claim, claim_each}
use aspenmesh_k3s_multiclust.K8s.Rebuild.{rebuild_hosts}
use aspenmesh_k3s_multiclust.K8s.Hosts.{build_hosts_and_resources, claimed_hosts}
use aspenmesh_k3s_multiclust.K8s.Problems.{
  add_problems_for_resources_without_active_host, add_problems_for_orphan_minions,
}
use aspenmesh_k3s_multiclust.K8s.Examples.{settings, dns, one_listener}

-- The same TransportServer, as it was before.
abbrev dns_before : TransportServer
dns_before = record dns {
  listener_name = "tls-passthrough";
  listener_protocol = "TLS_PASSTHROUGH";
  host = "dns.example.com";
}

abbrev passing_through : Configuration
passing_through = record one_listener {
  transport_servers = ("default/dns", dns_before) ∷ [];
  hosts =
      ("dns.example.com", transport_server_conf (new_transport_server_configuration dns_before))
      ∷ [];
}

-- The changes add or update the TransportServer first, and then delete it.
move_changes :
    (add_or_update_transport_server settings dns passing_through >>= λ out.
    some (map is_delete (changes_of out)))
    ≡ some (false ∷ true ∷ [])
unfolding add_or_update_transport_server rebuild_listeners create_resource_changes removed_names
    updated_names added_names squash_resource_changes sort_strings sorted_values insert lookup claim
    claim_each rebuild_hosts build_hosts_and_resources claimed_hosts
    add_problems_for_resources_without_active_host add_problems_for_orphan_minions get_resource_key
    get_key_with_kind is_equal wins
move_changes = refl
