-- ===== src/K8s/Changes/Deploy.antt =====
-- What the changes do to the configuration that is deployed: after they are applied, it is that of
-- the new assignment. The deployed configuration holds one resource for each key, as the Configurator
-- keeps one file of NGINX configuration for each resource.
use aspenmesh_k3s_multiclust.Prelude.{
  String, ◌≡◌, ◌≢◌, refl, ap, ◌∙◌, subst, inl, inr, Option, none, some, List, [], ◌∷◌, map, ◌==◌,
  eq_iff, eq_refl, arith, Elem, Distinct, map-Elem, if◌then◌else◌,
}
use aspenmesh_k3s_multiclust.K8s.Resource.{Resource}
use aspenmesh_k3s_multiclust.K8s.State.{ResourceChange}
use aspenmesh_k3s_multiclust.K8s.Changes.{key_of, is_delete}

-- The resource that is deployed under each key.
abbrev pub Deployed : Type 0
Deployed = String → Option Resource

abbrev pub outcome : ResourceChange → Option Resource
outcome c = if is_delete c then none else some c.resource

-- A delete takes the resource's configuration away, an update writes it.
abbrev pub apply_change : ResourceChange → Deployed → Deployed
apply_change c d k = if key_of c == k then outcome c else d k

unfoldable pub apply_changes : List ResourceChange → Deployed → Deployed
apply_changes [] d = d
apply_changes (c ∷ cs) d = apply_changes cs (apply_change c d)

pub apply_changes-absent :
    (cs : List ResourceChange) (d : Deployed) (k : String)
    → ((c : ResourceChange) → Elem c cs → key_of c ≢ k)
    → apply_changes cs d k ≡ d k
unfolding apply_changes
apply_changes-absent [] d k h = refl
apply_changes-absent (c ∷ cs) d k h =
    apply_changes-absent cs (apply_change c d) k (λ b m. h b (inr m))
    ∙ ground (arith, eq_iff (key_of c) k, h c (inl refl))

pub apply_changes-present :
    (cs : List ResourceChange) (d : Deployed) (c : ResourceChange)
    → Distinct (map key_of cs)
    → Elem c cs
    → apply_changes cs d (key_of c) ≡ outcome c
unfolding apply_changes
apply_changes-present [] d c h m = elim m [ ]
apply_changes-present (b ∷ cs) d c h (inl e) =
    apply_changes-absent cs (apply_change b d) (key_of c) (λ a ma ea.
      elim (h.0
        (subst (λ k. Elem k (map key_of cs)) (ea ∙ ap key_of e) (map-Elem key_of a cs ma))) [ ])
    ∙ rw e (rw eq_refl)
apply_changes-present (b ∷ cs) d c h (inr m) = apply_changes-present cs (apply_change b d) c h.1 m
