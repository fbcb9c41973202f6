-- ===== src/K8s/Hosts/Claims.antt =====
-- The claims that the resources make on hosts, and who holds a host once all are made.
use aspenmesh_k3s_multiclust.Prelude.{
  String, ◌≡◌, sym, subst, ◌⊎◌, inl, inr, some, List, [], ◌∷◌, Elem,
}
use aspenmesh_k3s_multiclust.Prelude.Dict.{lookup, lookup-Elem}
use aspenmesh_k3s_multiclust.K8s.Resource.{Resource, wins}
use aspenmesh_k3s_multiclust.K8s.Contest.{Contest, no_claims, with_claims}
use aspenmesh_k3s_multiclust.K8s.Contest.Claimed.{
  Claimed, no_claims-Claimed, claim_each-Claimed, with_claims-old, with_claims-new,
  with_claims-Elem,
}
use aspenmesh_k3s_multiclust.K8s.Hosts.{claimed_hosts, claim_hosts}

-- All claims of the resources, the last one first.
unfoldable pub all_claims : List Resource → List (Resource × String) → List (Resource × String)
all_claims [] claims = claims
all_claims (r ∷ rs) claims = all_claims rs (with_claims r (claimed_hosts r) claims)

claim_hosts-Claimed :
    (rs : List Resource) (claims : List (Resource × String)) (s : Contest Resource)
    → Claimed wins claims s
    → Claimed wins (all_claims rs claims) (claim_hosts rs s)
unfolding claim_hosts all_claims
claim_hosts-Claimed [] claims s v = v
claim_hosts-Claimed (r ∷ rs) claims s v =
    claim_hosts-Claimed rs _ _ (claim_each-Claimed wins r (claimed_hosts r) claims s v)

all_claims-old :
    (p : Resource × String) (rs : List Resource) (claims : List (Resource × String))
    → Elem p claims
    → Elem p (all_claims rs claims)
unfolding all_claims
all_claims-old p [] claims m = m
all_claims-old p (r ∷ rs) claims m =
    all_claims-old p rs _ (with_claims-old p r (claimed_hosts r) claims m)

pub all_claims-new :
    (r : Resource) (host : String) (rs : List Resource) (claims : List (Resource × String))
    → Elem r rs
    → Elem host (claimed_hosts r)
    → Elem (r, host) (all_claims rs claims)
unfolding all_claims
all_claims-new r host [] claims m n = elim m [ ]
all_claims-new r host (q ∷ rs) claims (inl e) n =
    all_claims-old (r, host) rs _
      (subst (λ x. Elem (r, host) (with_claims x (claimed_hosts x) claims)) e
        (with_claims-new r host (claimed_hosts r) claims n))
all_claims-new r host (q ∷ rs) claims (inr m) n = all_claims-new r host rs _ m n

pub all_claims-Elem :
    (r : Resource) (host : String) (rs : List Resource) (claims : List (Resource × String))
    → Elem (r, host) (all_claims rs claims)
    → (Elem r rs × Elem host (claimed_hosts r)) ⊎ Elem (r, host) claims
unfolding all_claims
all_claims-Elem r host [] claims m = inr m
all_claims-Elem r host (q ∷ rs) claims m =
    elim (all_claims-Elem r host rs (with_claims q (claimed_hosts q) claims) m) [
      | inl (mr, mh) ↦ inl (inr mr, mh)
      | inr n ↦ elim (with_claims-Elem r q host (claimed_hosts q) claims n) [
        | inl (e, mh) ↦ inl (inl e, subst (λ x. Elem host (claimed_hosts x)) (sym e) mh)
        | inr o ↦ inr o
      ]
    ]

module _ (rs : List Resource) where
  -- The contest for the hosts, once all resources have made their claims.
  abbrev pub settled : Contest Resource
  settled = claim_hosts rs no_claims

  settled-Claimed : Claimed wins (all_claims rs []) settled
  settled-Claimed = claim_hosts-Claimed rs [] no_claims (no_claims-Claimed wins)

  -- The holder of a host is one of the resources, and asks for the host.
  pub entry-Elem :
      (host : String) (r : Resource)
      → Elem (host, r) settled.holders
      → Elem r rs × Elem host (claimed_hosts r)
  entry-Elem host r m = elim (all_claims-Elem r host rs [] (settled-Claimed.entries host r m)) [
    | inl n ↦ n
    | inr n ↦ elim n [ ]
  ]

  pub holder-Elem :
      (host : String) (r : Resource)
      → lookup host settled.holders ≡ some r
      → Elem r rs × Elem host (claimed_hosts r)
  holder-Elem host r e = entry-Elem host r (lookup-Elem host r settled.holders e)

  -- A host that a resource asks for has a holder.
  pub claimed-holder :
      (r : Resource) (host : String)
      → Elem r rs
      → Elem host (claimed_hosts r)
      → (h : Resource) × (lookup host settled.holders ≡ some h)
  claimed-holder r host m n = settled-Claimed.taken r host (all_claims-new r host rs [] m n)
