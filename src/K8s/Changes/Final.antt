-- ===== src/K8s/Changes/Final.antt =====
-- The change that a resource is left with, when deletes are followed by updates and all is squashed.
use aspenmesh_k3s_multiclust.Prelude.{
  String, ◌≡◌, ◌≢◌, refl, sym, ap, ◌∙◌, subst, inl, List, [], ◌∷◌, ◌++◌, ◌==◌, eq_iff, Elem,
  Elem-append_right, keep-Elem, append-nil,
}
use aspenmesh_k3s_multiclust.K8s.State.{ResourceChange}
use aspenmesh_k3s_multiclust.K8s.Changes.{key_of, last_change, squash_resource_changes}
use aspenmesh_k3s_multiclust.K8s.Changes.Groups.{with_key}
use aspenmesh_k3s_multiclust.K8s.Changes.Squash.{
  IsLast, last_change-append, last_change-IsLast, with_key-append, squash_resource_changes-IsLast,
}

first_of : (xs : List ResourceChange) → xs ≢ [] → (c : ResourceChange) × Elem c xs
first_of [] h = absurd (h refl)
first_of (x ∷ xs) h = (x, inl refl)

IsLast-Elem : (d : ResourceChange) (cs : List ResourceChange) → IsLast d cs → Elem d cs
IsLast-Elem d cs l = subst (Elem d) (sym l.2) (Elem-append_right d l.0 (d ∷ l.1) (inl refl))

append-nil_left : (xs ys : List ResourceChange) → xs ++ ys ≡ [] → ys ≡ []
append-nil_left [] ys e = e
append-nil_left (x ∷ xs) ys e = cc

append-nil_right : (xs ys : List ResourceChange) → xs ++ ys ≡ [] → xs ≡ []
append-nil_right [] ys e = refl
append-nil_right (x ∷ xs) ys e = cc

module _ (k : String) (ds us : List ResourceChange) where
  -- The change of the resource with the key that squashing keeps, and the list that it is from.
  abbrev pub FinalIn : List ResourceChange → Type 0
  FinalIn cs =
      (c : ResourceChange) × Elem c (squash_resource_changes (ds ++ us))
      × Elem c cs
      × (key_of c ≡ k)

  kept :
      (c : ResourceChange)
      → with_key k (ds ++ us) ≢ []
      → Elem (last_change c (with_key k (ds ++ us))) (squash_resource_changes (ds ++ us))
  kept c h = (squash_resource_changes-IsLast (ds ++ us) _).1 (last_change-IsLast c k (ds ++ us) h).0

  -- An update is final.
  pub final_update : with_key k us ≢ [] → FinalIn us
  final_update h =
      let (c, m) = first_of (with_key k us) h in
      let last =
        ap (last_change c) (with_key-append k ds us)
        ∙ last_change-append c (with_key k ds) (with_key k us) in
      let (l, kl) = last_change-IsLast (last_change c (with_key k ds)) k us h in
      (
        last_change (last_change c (with_key k ds)) (with_key k us),
        subst (λ d. Elem d (squash_resource_changes (ds ++ us))) last
            (kept c (λ e. h (
              append-nil_left (with_key k ds) (with_key k us)
                (sym (with_key-append k ds us) ∙ e)))),
        IsLast-Elem _ us l,
        kl,
      )

  -- A delete is final when there is no update.
  pub final_delete : with_key k us ≡ [] → with_key k ds ≢ [] → FinalIn ds
  final_delete none_updated h =
      let (c, m) = first_of (with_key k ds) h in
      let last = ap (last_change c) (
        with_key-append k ds us
        ∙ ap (λ l. with_key k ds ++ l) none_updated
        ∙ append-nil (with_key k ds)) in
      let (l, kl) = last_change-IsLast c k ds h in
      (
        last_change c (with_key k ds),
        subst (λ d. Elem d (squash_resource_changes (ds ++ us))) last
            (kept c (λ e. h (
              append-nil_right (with_key k ds) (with_key k us)
                (sym (with_key-append k ds us) ∙ e)))),
        IsLast-Elem _ ds l,
        kl,
      )

  -- With neither, the resource has no change.
  pub final_none :
      with_key k us ≡ []
      → with_key k ds ≡ []
      → (c : ResourceChange) → Elem c (squash_resource_changes (ds ++ us))
      → key_of c ≢ k
  final_none nu nd c m e =
      let l = (squash_resource_changes-IsLast (ds ++ us) c).0 m in
      let here =
        keep-Elem (λ c. key_of c == k) c (ds ++ us) (IsLast-Elem c (ds ++ us) l)
          ((eq_iff (key_of c) k).1 e) in
      elim (subst (Elem c) (with_key-append k ds us ∙ ap (λ l. l ++ with_key k us) nd ∙ nu)
        here) [ ]

pub has_key :
    (k : String) (c : ResourceChange) (cs : List ResourceChange)
    → Elem c cs
    → key_of c ≡ k
    → with_key k cs ≢ []
has_key k c cs m e none_found =
    elim (subst (Elem c) none_found
      (keep-Elem (λ c. key_of c == k) c cs m ((eq_iff (key_of c) k).1 e))) [ ]
