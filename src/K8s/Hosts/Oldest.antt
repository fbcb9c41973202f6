-- ===== src/K8s/Hosts/Oldest.antt =====
-- The holder of a host is the oldest of the resources that ask for it, in whatever order they come.
use aspenmesh_k3s_multiclust.Prelude.{
  String, ◌≡◌, refl, ◌⊎◌, inl, inr, true, false, some, List, [], ◌∷◌, ◌↔◌, Elem,
}
use aspenmesh_k3s_multiclust.Prelude.Dict.{lookup}
use aspenmesh_k3s_multiclust.K8s.Resource.{Resource, get_object_meta, wins}
use aspenmesh_k3s_multiclust.K8s.Resource.Order.{
  choose_object_meta_winner_irrefl, choose_object_meta_winner_trans,
  choose_object_meta_winner_connected,
}
use aspenmesh_k3s_multiclust.K8s.Contest.{Contest, no_claims}
use aspenmesh_k3s_multiclust.K8s.Contest.Winner.{
  Settled, claim_each-Settled, no_claims-Settled, Settled-unique,
}
use aspenmesh_k3s_multiclust.K8s.Hosts.{claimed_hosts, claim_hosts}
use aspenmesh_k3s_multiclust.K8s.Hosts.Claims.{all_claims, settled, all_claims-new, all_claims-Elem}

abbrev pub uid_of : Resource → String
uid_of r = (get_object_meta r).uid

-- The resources of the list have different UIDs.
abbrev pub HasUniqueUids : List Resource → Type 0
HasUniqueUids rs = (r s : Resource) → Elem r rs → Elem s rs → uid_of r ≡ uid_of s → r ≡ s

wins_trans : (r s t : Resource) → wins r s ≡ true → wins s t ≡ true → wins r t ≡ true
unfolding wins
wins_trans r s t h k =
    choose_object_meta_winner_trans (get_object_meta r) (get_object_meta s) (get_object_meta t) h k

wins_irrefl : (r : Resource) → wins r r ≡ false
unfolding wins
wins_irrefl r = choose_object_meta_winner_irrefl (get_object_meta r)

module _ (rs : List Resource) (unique : HasUniqueUids rs) where
  wins_connected :
      (r s : Resource) → Elem r rs → Elem s rs → wins r s ≡ false → (r ≡ s) ⊎ (wins s r ≡ true)
  unfolding wins
  wins_connected r s m n h =
      elim (choose_object_meta_winner_connected (get_object_meta r) (get_object_meta s) h) [
        | inl e ↦ inl (unique r s m n e)
        | inr e ↦ inr e
      ]

  abbrev IsSettled : List (Resource × String) → Contest Resource → Type 0
  IsSettled = Settled wins (λ r. Elem r rs) wins_trans wins_connected

  claim_hosts-Settled :
      (qs : List Resource) (claims : List (Resource × String)) (s : Contest Resource)
      → ((r : Resource) → Elem r qs → Elem r rs)
      → IsSettled claims s
      → IsSettled (all_claims qs claims) (claim_hosts qs s)
  unfolding claim_hosts all_claims
  claim_hosts-Settled [] claims s h v = v
  claim_hosts-Settled (q ∷ qs) claims s h v =
      claim_hosts-Settled qs _ _ (λ r m. h r (inr m))
        (claim_each-Settled wins (λ r. Elem r rs) wins_trans wins_connected q (claimed_hosts q)
          claims s (h q (inl refl)) v)

  settled-Settled :
      (qs : List Resource)
      → ((r : Resource) → Elem r qs → Elem r rs)
      → IsSettled (all_claims qs []) (settled qs)
  settled-Settled qs h =
      claim_hosts-Settled qs [] no_claims h
        (no_claims-Settled wins (λ r. Elem r rs) wins_trans wins_connected)

  -- The holder of a host wins against every other resource that asks for it.
  pub holder_wins :
      (r : Resource) (host : String)
      → Elem r rs
      → Elem host (claimed_hosts r)
      → (h : Resource) × (lookup host (settled rs).holders ≡ some h) × ((h ≡ r) ⊎ (wins h r ≡ true))
  holder_wins r host m n =
      (settled-Settled rs (λ q k. k)).best r host (all_claims-new r host rs [] m n)

all_claims-same :
    (rs qs : List Resource)
    → ((r : Resource) → Elem r rs → Elem r qs)
    → (p : Resource × String) → Elem p (all_claims rs [])
    → Elem p (all_claims qs [])
all_claims-same rs qs h p m = elim (all_claims-Elem p.0 p.1 rs [] m) [
  | inl (mr, mh) ↦ all_claims-new p.0 p.1 qs [] (h p.0 mr) mh
  | inr n ↦ elim n [ ]
]

-- Resources with different UIDs are assigned the same hosts in whatever order they make their
-- claims.
pub claim_hosts-order :
    (rs qs : List Resource) (host : String)
    → HasUniqueUids rs
    → ((r : Resource) → Elem r rs ↔ Elem r qs)
    → lookup host (claim_hosts rs no_claims).holders
      ≡ lookup host (claim_hosts qs no_claims).holders
claim_hosts-order rs qs host unique same =
    Settled-unique wins (λ r. Elem r rs) wins_trans (wins_connected rs unique) wins_irrefl
      (all_claims rs []) (all_claims qs []) (settled rs) (settled qs)
      (settled-Settled rs unique rs (λ r m. m)) (settled-Settled rs unique qs (λ r m. (same r).1 m))
      (all_claims-same rs qs (λ r m. (same r).0 m)) (all_claims-same qs rs (λ r m. (same r).1 m))
      host
