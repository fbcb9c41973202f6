-- ===== src/K8s/AppProtect/Signatures/Reconciled.antt =====
-- reconcileUserSigs: of the signatures with one tag exactly one is valid, and none goes before it.
use aspenmesh_k3s_multiclust.Prelude.{
  String, ◌≡◌, refl, sym, ap, ◌∙◌, subst, inl, inr, Bool, true, false, none, some, List, [], ◌∷◌,
  map, ◌==◌, eq_iff, eq_refl, Elem, Distinct, Bool-cases, map-Elem,
}
use aspenmesh_k3s_multiclust.Prelude.Dict.{Dict, lookup, keys, lookup-Elem}
use aspenmesh_k3s_multiclust.Prelude.Uniform.{Elem-lookup, Rewriting, Rewriting-start}
use aspenmesh_k3s_multiclust.K8s.AppProtect.{UserSigEx}
use aspenmesh_k3s_multiclust.K8s.AppProtect.Signatures.{
  Pointer, sort_sigs, group_by_tag, detect_duplicate_tags, tagged_groups, reconcile_user_sigs,
}
use aspenmesh_k3s_multiclust.K8s.AppProtect.Signatures.Oldest.{
  key_of, Elem-sort_sigs, sort_sigs-Distinct,
}
use aspenmesh_k3s_multiclust.K8s.AppProtect.Signatures.Grouped.{
  is_failed, Grouped, group_by_tag-Grouped, Elem-tagged_groups, tagged_groups-Elem,
}
use aspenmesh_k3s_multiclust.K8s.AppProtect.Signatures.Settle.{
  leads, keys-map, settled, HasPlace, AreRanked, reconcile_groups-done,
}

-- A signature is valid when it has no error message, and one that was found invalid has no tag.
pub record IsWellFormed (sig : UserSigEx) : Type 0 where
  pub message : sig.is_valid ≡ (sig.error_msg == "")
  pub validated : (sig.tag == "") ≡ false → is_failed sig ≡ false

pub record AreWellFormed (sigs : Dict UserSigEx) : Type 0 where
  pub unique : Distinct (keys sigs)
  pub each : (key : String) (sig : UserSigEx) → lookup key sigs ≡ some sig → IsWellFormed sig

module _ (sigs : Dict UserSigEx) (wf : AreWellFormed sigs) where
  pub grouped : Grouped sigs [] (group_by_tag sigs [])
  grouped = group_by_tag-Grouped sigs (subst Distinct (keys-map sigs) wf.unique)

  module _ (tag : String) (group : List Pointer) (given : (tag == "") ≡ false)
      (found : lookup tag (group_by_tag sigs []) ≡ some group) where
    placed :
        (wins : Bool) (p : Pointer)
        → Elem p (sort_sigs group)
        → leads (sort_sigs group) p.0 ≡ wins
        → HasPlace sigs wins p
    placed wins p m e =
        let (known, same, gone) = grouped.member tag group p found (Elem-sort_sigs p group m) in
        record {
          known = Elem-lookup p.0 p.1 sigs wf.unique known;
          tagged = rw same given;
          place = rw same (rw found e);
        }

    ranked :
        (ps : List Pointer)
        → sort_sigs group ≡ ps
        → Distinct (map key_of ps)
        → ((wins : Bool) (p : Pointer) → Elem p ps → leads ps p.0 ≡ wins → HasPlace sigs wins p)
        → AreRanked sigs ps
    ranked [] e d h = tt
    ranked (p ∷ ps) e d h = (
      h true p (inl refl) (eq_refl p.0),
      λ q m. h false q (inr m) (elim (Bool-cases (p.0 == q.0)) [
        | inl t ↦
            elim (d.0 (
              subst (λ k. Elem k (map key_of ps)) (sym ((eq_iff p.0 q.0).0 t))
                (map-Elem key_of q ps m))) [ ]
        | inr t ↦ t
      ]),
    )

    group-AreRanked : AreRanked sigs (sort_sigs group)
    group-AreRanked =
        ranked (sort_sigs group) refl (sort_sigs-Distinct group (grouped.apart tag group found))
          placed

  -- The loops set the signatures of every group.
  abbrev pub result : Dict UserSigEx
  result = (reconcile_user_sigs sigs).user_sigs

  reconcile_user_sigs-done :
      (next : List Pointer) × Rewriting sigs (settled sigs) next result
      × ((x : Pointer) (group : List Pointer)
          → Elem group (detect_duplicate_tags sigs)
          → Elem x group
          → Elem x next)
  unfolding reconcile_user_sigs detect_duplicate_tags
  reconcile_user_sigs-done =
      let (next, r, old, new) =
        reconcile_groups-done sigs (tagged_groups (group_by_tag sigs [])) [] _
          (λ group m.
            let (tag, given, found) = Elem-tagged_groups _ group grouped.unique m in
            group-AreRanked tag group given found)
          (Rewriting-start sigs (settled sigs) wf.unique) in
      (next, r, λ x group m n. new x (group, m, n))

  -- What the loops leave under a key.
  pub lookup-reconcile_user_sigs :
      (key : String) (sig : UserSigEx)
      → lookup key sigs ≡ some sig
      → lookup key result ≡ some (settled sigs key sig)
  unfolding detect_duplicate_tags
  lookup-reconcile_user_sigs key sig e =
      let (next, r, new) = reconcile_user_sigs-done in
      elim (Bool-cases (sig.tag == "")) [
        | inl t ↦
            let same : settled sigs key sig ≡ sig = (rw t) in
            elim (r.kept key sig e) [ inl p ↦ p ∙ ap some (sym same) | inr p ↦ p ]
        | inr t ↦
            elim (grouped.placed (key, sig) (lookup-Elem key sig sigs e)
              ((wf.each key sig e).validated t)) [
                | inl m ↦ elim m [ ]
                | inr (group, found, m) ↦
                    r.done key sig
                      (new (key, sig) group (tagged_groups-Elem _ sig.tag group t found) m)
              ]
      ]

  pub reconcile_user_sigs-missing :
      (key : String) → lookup key sigs ≡ none → lookup key result ≡ none
  reconcile_user_sigs-missing key e = reconcile_user_sigs-done.1.missing key e

  pub reconcile_user_sigs-Distinct : Distinct (keys result)
  reconcile_user_sigs-Distinct = reconcile_user_sigs-done.1.unique
