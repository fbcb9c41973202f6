-- ===== src/K8s/Examples/HostWitnesses.antt =====
-- The theorems about the assignment of hosts, at two VirtualServers that ask for one host.
use aspenmesh_k3s_multiclust.Prelude.{
  String, ◌≡◌, refl, sym, ap, ◌∙◌, ◌⊎◌, inl, inr, true, false, some, [], ◌∷◌, ◌==◌, eq_iff,
  some_inj, Bool-cases, Elem,
}
use aspenmesh_k3s_multiclust.Prelude.Dict.{Dict, lookup, insert}
use aspenmesh_k3s_multiclust.Prelude.Sorting.{sorted_values}
use aspenmesh_k3s_multiclust.K8s.Objects.{VirtualServer, get_resource_key}
use aspenmesh_k3s_multiclust.K8s.Resource.{
  Resource, get_key_with_kind, virtual_server_conf, new_virtual_server_configuration, wins,
  choose_object_meta_winner, add_warning,
}
use aspenmesh_k3s_multiclust.K8s.Contest.{no_claims, claim, claim_each}
use aspenmesh_k3s_multiclust.K8s.Hosts.{build_hosts_and_resources, claimed_hosts, claim_hosts}
use aspenmesh_k3s_multiclust.K8s.Hosts.Stored.{IsStored}
use aspenmesh_k3s_multiclust.K8s.Hosts.Coherence.{ServesHost}
use aspenmesh_k3s_multiclust.K8s.Hosts.Built.{
  build_hosts_and_resources-Assignment, holder_in_resources,
}
use aspenmesh_k3s_multiclust.K8s.Hosts.Oldest.{uid_of, HasUniqueUids, claim_hosts-order}
use aspenmesh_k3s_multiclust.K8s.Hosts.Priority.{OneForEachUid, build_hosts_and_resources-oldest}
use aspenmesh_k3s_multiclust.K8s.Changes.Refine.{Assignment}
use aspenmesh_k3s_multiclust.K8s.Operations.Reachable.{new_configuration-IsCoherent}
use aspenmesh_k3s_multiclust.K8s.Examples.{settings, bistro, two_servers, cafe_conf, bistro_conf}

pub two_servers-IsStored : IsStored two_servers
unfolding lookup get_resource_key
two_servers-IsStored = record {
  ingress_key = λ k i e. cc;
  ingress_readable = new_configuration-IsCoherent.stored.ingress_readable;
  virtual_server_key = λ k v e. elim (Bool-cases ("default/cafe" == k)) [
    | inl t ↦
        ap (λ (w : VirtualServer). get_resource_key w.meta) (sym (some_inj (rw t at e)))
        ∙ (eq_iff "default/cafe" k).0 t
    | inr t ↦ elim (Bool-cases ("default/bistro" == k)) [
      | inl u ↦
          ap (λ (w : VirtualServer). get_resource_key w.meta) (sym (some_inj (rw (t, u) at e)))
          ∙ (eq_iff "default/bistro" k).0 u
      | inr u ↦ cc ((rw (t, u) at e))
    ]
  ];
  transport_server_key = λ k t e. cc;
}

abbrev late_bistro : Resource
late_bistro = virtual_server_conf (
    new_virtual_server_configuration bistro []
      ("host cafe.example.com is taken by another resource" ∷ []))

abbrev pub cafe_hosts : Dict Resource
cafe_hosts = ("cafe.example.com", cafe_conf) ∷ []

abbrev both_resources : Dict Resource
both_resources =
    ("VirtualServer/default/bistro", late_bistro) ∷ ("VirtualServer/default/cafe", cafe_conf) ∷ []

two_servers-build :
    build_hosts_and_resources settings two_servers ≡ some (cafe_hosts, both_resources)
unfolding build_hosts_and_resources get_key_with_kind sorted_values lookup claim_each claimed_hosts
    claim insert wins choose_object_meta_winner get_resource_key add_warning
two_servers-build = refl

both_resources-keys :
    (k : String) (r : Resource)
    → lookup k both_resources ≡ some r
    → (("VirtualServer/default/bistro" ≡ k) × (r ≡ late_bistro))
      ⊎ (("VirtualServer/default/cafe" ≡ k) × (r ≡ cafe_conf))
unfolding lookup
both_resources-keys k r e = elim (Bool-cases ("VirtualServer/default/bistro" == k)) [
  | inl t ↦ inl ((eq_iff _ k).0 t, sym (some_inj (rw t at e)))
  | inr t ↦ elim (Bool-cases ("VirtualServer/default/cafe" == k)) [
    | inl u ↦ inr ((eq_iff _ k).0 u, sym (some_inj (rw (t, u) at e)))
    | inr u ↦ cc (rw (t, u) at e)
  ]
]

both_resources-OneForEachUid : OneForEachUid both_resources
both_resources-OneForEachUid k l r s er es same =
    by_entry (both_resources-keys k r er) (both_resources-keys l s es)
  where
    by_entry :
        (("VirtualServer/default/bistro" ≡ k) × (r ≡ late_bistro))
          ⊎ (("VirtualServer/default/cafe" ≡ k) × (r ≡ cafe_conf))
        → (("VirtualServer/default/bistro" ≡ l) × (s ≡ late_bistro))
          ⊎ (("VirtualServer/default/cafe" ≡ l) × (s ≡ cafe_conf))
        → k ≡ l
    by_entry (inl (p, a)) (inl (q, b)) = sym p ∙ q
    by_entry (inl (p, a)) (inr (q, b)) =
        let differ : true ≡ false = ap (λ u. u == "2") (sym (ap uid_of a) ∙ same ∙ ap uid_of b) in
        cc
    by_entry (inr (p, a)) (inl (q, b)) =
        let differ : false ≡ true = ap (λ u. u == "2") (sym (ap uid_of a) ∙ same ∙ ap uid_of b) in
        cc
    by_entry (inr (p, a)) (inr (q, b)) = sym p ∙ q

build_hosts_and_resources-oldest_example :
    (h : Resource) × (lookup "cafe.example.com" cafe_hosts ≡ some h)
    × ((h ≡ late_bistro) ⊎ (wins h late_bistro ≡ true))
unfolding lookup claimed_hosts
build_hosts_and_resources-oldest_example =
    build_hosts_and_resources-oldest settings two_servers cafe_hosts both_resources
      "VirtualServer/default/bistro" late_bistro "cafe.example.com" two_servers-IsStored
      two_servers-build both_resources-OneForEachUid refl (inl refl)

build_hosts_and_resources-Assignment_example : Assignment ServesHost cafe_hosts
build_hosts_and_resources-Assignment_example =
    build_hosts_and_resources-Assignment settings two_servers cafe_hosts both_resources
      two_servers-IsStored two_servers-build

holder_in_resources_example : lookup (get_key_with_kind cafe_conf) both_resources ≡ some cafe_conf
unfolding lookup
holder_in_resources_example =
    holder_in_resources settings two_servers cafe_hosts both_resources "cafe.example.com" cafe_conf
      two_servers-IsStored two_servers-build refl

two-HasUniqueUids : HasUniqueUids (cafe_conf ∷ bistro_conf ∷ [])
two-HasUniqueUids r s (inl p) (inl q) e = p ∙ sym q
two-HasUniqueUids r s (inr (inl p)) (inr (inl q)) e = p ∙ sym q
two-HasUniqueUids r s (inl p) (inr (inl q)) e =
    let differ : false ≡ true = ap (λ u. u == "2") (sym (ap uid_of p) ∙ e ∙ ap uid_of q) in cc
two-HasUniqueUids r s (inr (inl p)) (inl q) e =
    let differ : true ≡ false = ap (λ u. u == "2") (sym (ap uid_of p) ∙ e ∙ ap uid_of q) in cc
two-HasUniqueUids r s (inr (inr m)) n e = elim m [ ]
two-HasUniqueUids r s (inl p) (inr (inr n)) e = elim n [ ]
two-HasUniqueUids r s (inr (inl p)) (inr (inr n)) e = elim n [ ]

swapped : (a b r : Resource) → Elem r (a ∷ b ∷ []) → Elem r (b ∷ a ∷ [])
swapped a b r (inl p) = inr (inl p)
swapped a b r (inr (inl p)) = inl p
swapped a b r (inr (inr m)) = elim m [ ]

claim_hosts-order_example :
    lookup "cafe.example.com" (claim_hosts (cafe_conf ∷ bistro_conf ∷ []) no_claims).holders
    ≡ lookup "cafe.example.com" (claim_hosts (bistro_conf ∷ cafe_conf ∷ []) no_claims).holders
claim_hosts-order_example =
    claim_hosts-order (cafe_conf ∷ bistro_conf ∷ []) (bistro_conf ∷ cafe_conf ∷ [])
      "cafe.example.com" two-HasUniqueUids
      (λ r. (swapped cafe_conf bistro_conf r, swapped bistro_conf cafe_conf r))
