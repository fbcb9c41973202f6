-- ===== src/K8s/Changes/Squash.antt =====
-- squashResourceChanges: one change for each resource, and it is the last one.
use aspenmesh_k3s_multiclust.Prelude.{
  String, ◌≡◌, ◌≢◌, refl, sym, ap, ◌∙◌, subst, inl, inr, ◌⊎◌, ◌↔◌, true, false, not, some, List, [],
  ◌∷◌, ◌++◌, map, ◌==◌, eq_iff, eq_refl, Elem, Elem-append, Elem-append_left, Elem-append_right,
  Elem-keep, keep-Elem, Distinct, all, any, all-keep, any-keep-not, keep, keep-append, Bool-cases,
  some_inj,
}
use aspenmesh_k3s_multiclust.Prelude.Dict.{lookup}
use aspenmesh_k3s_multiclust.K8s.State.{ResourceChange}
use aspenmesh_k3s_multiclust.K8s.Changes.Groups.{
  with_key, group_of, lookup-group_changes, IsKeyed, squash_groups-Elem, Elem-squash_groups,
  squash_groups-Distinct,
}
use aspenmesh_k3s_multiclust.Prelude.Uniqueness.{Distinct-partition}
use aspenmesh_k3s_multiclust.K8s.Changes.{
  key_of, group_changes, last_change, squash_groups, is_delete, squash_resource_changes,
}

-- `d` is the last change of its resource.
abbrev pub IsLast : ResourceChange → List ResourceChange → Type 0
IsLast d cs =
    (before : List ResourceChange) × (after : List ResourceChange) × (cs ≡ before ++ d ∷ after)
    × (with_key (key_of d) after ≡ [])

pub with_key-append :
    (k : String) (xs ys : List ResourceChange)
    → with_key k (xs ++ ys) ≡ with_key k xs ++ with_key k ys
with_key-append k xs ys = keep-append (λ c. key_of c == k) xs ys

pub last_change-append :
    (c : ResourceChange) (xs ys : List ResourceChange)
    → last_change c (xs ++ ys) ≡ last_change (last_change c xs) ys
last_change-append c [] ys = refl
last_change-append c (x ∷ xs) ys = last_change-append x xs ys

with_key-IsLast :
    (d : ResourceChange) (before after : List ResourceChange)
    → with_key (key_of d) after ≡ []
    → with_key (key_of d) (before ++ d ∷ after) ≡ with_key (key_of d) before ++ d ∷ []
with_key-IsLast d before after h =
    with_key-append (key_of d) before (d ∷ after)
    ∙ ap (λ l. with_key (key_of d) before ++ l) (simp (eq_refl, h))

snoc-ne-nil : (xs : List ResourceChange) (d : ResourceChange) → xs ++ d ∷ [] ≢ []
snoc-ne-nil [] d e = cc
snoc-ne-nil (x ∷ xs) d e = cc

-- A change that is the last of its resource ends the group.
pub IsLast-last_change :
    (c d : ResourceChange) (cs : List ResourceChange)
    → IsLast d cs
    → (with_key (key_of d) cs ≢ []) × (last_change c (with_key (key_of d) cs) ≡ d)
IsLast-last_change c d cs (before, after, e, none_after) =
    let group = ap (with_key (key_of d)) e ∙ with_key-IsLast d before after none_after in
    (
      λ empty. snoc-ne-nil (with_key (key_of d) before) d (sym group ∙ empty),
      ap (last_change c) group ∙ last_change-append c (with_key (key_of d) before) (d ∷ []),
    )

IsLast-cons : (b d : ResourceChange) (cs : List ResourceChange) → IsLast d cs → IsLast d (b ∷ cs)
IsLast-cons b d cs (before, after, e, h) = (b ∷ before, after, ap (◌∷◌ b) e, h)

pub list_cases : (xs : List ResourceChange) → (xs ≡ []) ⊎ (xs ≢ [])
list_cases [] = inl refl
list_cases (x ∷ xs) = inr (λ e. cc)

-- The end of a group is the last change of its resource.
pub last_change-IsLast :
    (c : ResourceChange) (k : String) (cs : List ResourceChange)
    → with_key k cs ≢ []
    → IsLast (last_change c (with_key k cs)) cs × (key_of (last_change c (with_key k cs)) ≡ k)
last_change-IsLast c k [] h = absurd (h refl)
last_change-IsLast c k (d ∷ cs) h =
    split (Bool-cases (key_of d == k)) (list_cases (with_key k cs)) (λ c. last_change-IsLast c k cs)
  where
    split :
        ((key_of d == k) ≡ true) ⊎ ((key_of d == k) ≡ false)
        → (with_key k cs ≡ []) ⊎ (with_key k cs ≢ [])
        → ((c : ResourceChange)
            → with_key k cs ≢ []
            → IsLast (last_change c (with_key k cs)) cs
              × (key_of (last_change c (with_key k cs)) ≡ k))
        → IsLast (last_change c (with_key k (d ∷ cs))) (d ∷ cs)
          × (key_of (last_change c (with_key k (d ∷ cs))) ≡ k)
    split (inl e) (inl empty) rec =
        let same = (eq_iff (key_of d) k).0 e in
        rw e (rw empty (([], cs, refl, rw same empty), same))
    split (inl e) (inr more) rec = let (l, kl) = rec d more in rw e (IsLast-cons d _ cs l, kl)
    split (inr e) (inl empty) rec = absurd (h (rw e empty))
    split (inr e) (inr more) rec = let (l, kl) = rec c more in rw e (IsLast-cons d _ cs l, kl)

module _ (cs : List ResourceChange) where
  group_at : (k : String) → lookup k (group_changes cs []) ≡ group_of (with_key k cs)
  unfolding lookup
  group_at k = lookup-group_changes cs [] (λ j. refl) k

  group_of-some : (ds bs : List ResourceChange) → group_of bs ≡ some ds → (ds ≡ bs) × (bs ≢ [])
  group_of-some ds [] e = cc
  group_of-some ds (b ∷ bs) e = (sym (some_inj e), λ n. cc)

  group_of-full : (bs : List ResourceChange) → bs ≢ [] → group_of bs ≡ some bs
  group_of-full [] h = absurd (h refl)
  group_of-full (b ∷ bs) h = refl

  in_group :
      (k : String) (ds : List ResourceChange)
      → lookup k (group_changes cs []) ≡ some ds
      → (ds ≡ with_key k cs) × (with_key k cs ≢ [])
  in_group k ds e = group_of-some ds (with_key k cs) (sym (group_at k) ∙ e)

  groups-IsKeyed : IsKeyed (group_changes cs [])
  groups-IsKeyed k ds e c =
      let (same, full) = in_group k ds e in
      ap (λ l. key_of (last_change c l)) same ∙ (last_change-IsLast c k cs full).1

  abbrev squashed : List ResourceChange
  squashed = squash_groups (group_changes cs []) cs

  squashed-IsLast : (d : ResourceChange) → Elem d squashed → IsLast d cs
  squashed-IsLast d m =
      let (ds, c, e, last) = squash_groups-Elem (group_changes cs []) cs d groups-IsKeyed m in
      let (same, full) = in_group (key_of d) ds e in
      subst (λ b. IsLast b cs) (sym (last ∙ ap (last_change c) same))
        (last_change-IsLast c (key_of d) cs full).0

  IsLast-squashed : (d : ResourceChange) → IsLast d cs → Elem d squashed
  IsLast-squashed d l =
      let (full, last) = IsLast-last_change d d cs l in
      let found = group_at (key_of d) ∙ group_of-full (with_key (key_of d) cs) full in
      let (b, mb, kb) =
        Elem-squash_groups (group_changes cs []) cs d (with_key (key_of d) cs) groups-IsKeyed
          (subst (Elem d) (sym l.2) (Elem-append_right d l.0 (d ∷ l.1) (inl refl))) found in
      let (full_b, last_b) = IsLast-last_change d b cs (squashed-IsLast b mb) in
      let same = ap (λ k. last_change d (with_key k cs)) kb in
      subst (λ c. Elem c squashed) (sym last_b ∙ same ∙ last) mb

  -- Exactly the last change of each resource is kept.
  pub squash_resource_changes-IsLast :
      (d : ResourceChange) → Elem d (squash_resource_changes cs) ↔ IsLast d cs
  unfolding squash_resource_changes
  squash_resource_changes-IsLast d = (
    λ m. elim (Elem-append d (keep is_delete squashed) (keep (λ c. not (is_delete c)) squashed) m) [
      | inl n ↦ squashed-IsLast d (Elem-keep is_delete d squashed n).0
      | inr n ↦ squashed-IsLast d (Elem-keep (λ c. not (is_delete c)) d squashed n).0
    ],
    λ l. elim (Bool-cases (is_delete d)) [
      | inl e ↦
          Elem-append_left d (keep is_delete squashed) _
            (keep-Elem is_delete d squashed (IsLast-squashed d l) e)
      | inr e ↦
          Elem-append_right d (keep is_delete squashed) _
            (keep-Elem (λ c. not (is_delete c)) d squashed (IsLast-squashed d l) (ap not e))
    ],
  )

  -- No resource has two changes.
  pub squash_resource_changes-Distinct : Distinct (map key_of (squash_resource_changes cs))
  unfolding squash_resource_changes
  squash_resource_changes-Distinct =
      Distinct-partition key_of is_delete squashed
        (squash_groups-Distinct (group_changes cs []) cs groups-IsKeyed)

-- The deletes come first.
abbrev pub DeletesFirst : List ResourceChange → Type 0
DeletesFirst cs =
    (ds : List ResourceChange) × (us : List ResourceChange) × (cs ≡ ds ++ us)
    × (all is_delete ds ≡ true)
    × (any is_delete us ≡ false)

squash_resource_changes-DeletesFirst :
    (cs : List ResourceChange) → DeletesFirst (squash_resource_changes cs)
unfolding squash_resource_changes
squash_resource_changes-DeletesFirst cs = (
  keep is_delete (squashed cs),
  keep (λ c. not (is_delete c)) (squashed cs),
  refl,
  all-keep is_delete (squashed cs),
  any-keep-not is_delete (squashed cs),
)

-- For any changes, squashResourceChanges keeps exactly the changes after which their resource has no
-- other change, keeps no two changes of one resource, and puts the deletes before the updates.
pub squash_resource_changes_lem :
    (cs : List ResourceChange)
    → ((d : ResourceChange) → Elem d (squash_resource_changes cs) ↔ IsLast d cs)
      × Distinct (map key_of (squash_resource_changes cs))
      × DeletesFirst (squash_resource_changes cs)
squash_resource_changes_lem cs = (
  squash_resource_changes-IsLast cs,
  squash_resource_changes-Distinct cs,
  squash_resource_changes-DeletesFirst cs,
)
