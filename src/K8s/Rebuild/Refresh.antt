-- ===== src/K8s/Rebuild/Refresh.antt =====
-- Referring to the latest version of a resource changes nothing of what the changes do.
use aspenmesh_k3s_multiclust.Prelude.{
  String, ◌≡◌, refl, ap, ◌∙◌, ◌⊎◌, inl, inr, true, Option, none, some, List, [], ◌∷◌, map, ◌==◌,
  Elem, if◌then◌else◌,
}
use aspenmesh_k3s_multiclust.Prelude.Dict.{Dict, lookup}
use aspenmesh_k3s_multiclust.K8s.Resource.{Resource, get_key_with_kind}
use aspenmesh_k3s_multiclust.K8s.State.{ResourceChange}
use aspenmesh_k3s_multiclust.K8s.Changes.{key_of, is_delete}
use aspenmesh_k3s_multiclust.K8s.Changes.Deploy.{Deployed, outcome, apply_change, apply_changes}
use aspenmesh_k3s_multiclust.K8s.Rebuild.{refresh, with_latest}

module _ (f : ResourceChange → ResourceChange) where
  -- The change has the key and the outcome that it had.
  abbrev pub IsSameEffect : ResourceChange → Type 0
  IsSameEffect c = (key_of (f c) ≡ key_of c) × (outcome (f c) ≡ outcome c)

  pub apply_changes-map :
      (cs : List ResourceChange) (d : Deployed)
      → ((c : ResourceChange) → Elem c cs → IsSameEffect c)
      → apply_changes (map f cs) d ≡ apply_changes cs d
  unfolding apply_changes
  apply_changes-map [] d h = refl
  apply_changes-map (c ∷ cs) d h =
      let (k, o) = h c (inl refl) in
      apply_changes-map cs (apply_change (f c) d) (λ b m. h b (inr m))
      ∙ ap
          (λ (e : String × Option Resource).
            apply_changes cs (λ name. if e.0 == name then e.1 else d name))
          (λ i. (k i, o i))

with_latest-IsSameEffect :
    (c : ResourceChange) (o : Option Resource)
    → ((r : Resource)
        → o ≡ some r
        → (get_key_with_kind r ≡ key_of c) × ((is_delete c ≡ true) ⊎ (r ≡ c.resource)))
    → (key_of (with_latest c o) ≡ key_of c) × (outcome (with_latest c o) ≡ outcome c)
with_latest-IsSameEffect c none h = (refl, refl)
with_latest-IsSameEffect c (some r) h =
    let (k, same) = h r refl in (k, elim same [ inl d ↦ rw d | inr p ↦ rw p ])

-- Under its key a resource is found that has the key, and that is the change's if this is an update.
pub refresh-IsSameEffect :
    (resources : Dict Resource) (c : ResourceChange)
    → ((r : Resource)
        → lookup (key_of c) resources ≡ some r
        → (get_key_with_kind r ≡ key_of c) × ((is_delete c ≡ true) ⊎ (r ≡ c.resource)))
    → IsSameEffect (refresh resources) c
unfolding refresh
refresh-IsSameEffect resources c h = with_latest-IsSameEffect c (lookup (key_of c) resources) h
