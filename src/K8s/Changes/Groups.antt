-- ===== src/K8s/Changes/Groups.antt =====
-- squashResourceChanges: what the groups by resource hold, and what is taken from them.
use aspenmesh_k3s_multiclust.Prelude.{
  String, ◌≡◌, refl, sym, ap, ◌∙◌, inl, inr, ◌⊎◌, true, false, Option, none, some, List, [], ◌∷◌,
  ◌++◌, map, append-nil, append_assoc, ◌==◌, eq_iff, eq_refl, Elem, Elem-map, Distinct, Never, keep,
  Bool-cases,
}
use aspenmesh_k3s_multiclust.Prelude.Dict.{
  Dict, lookup, insert, remove, lookup-insert, some_of_remove, lookup-remove_ne,
}
use aspenmesh_k3s_multiclust.K8s.State.{ResourceChange}
use aspenmesh_k3s_multiclust.K8s.Changes.{
  key_of, or_empty, group_changes, last_change, squash_groups,
}

-- The changes of one resource, in order.
abbrev pub with_key : String → List ResourceChange → List ResourceChange
with_key k cs = keep (λ c. key_of c == k) cs

abbrev pub group_of : List ResourceChange → Option (List ResourceChange)
group_of [] = none
group_of (c ∷ cs) = some (c ∷ cs)

group_of-snoc :
    (cs : List ResourceChange) (c : ResourceChange) → group_of (cs ++ c ∷ []) ≡ some (cs ++ c ∷ [])
group_of-snoc [] c = refl
group_of-snoc (d ∷ cs) c = refl

abbrev add_change : ResourceChange → Dict (List ResourceChange) → Dict (List ResourceChange)
add_change c m = insert (key_of c) (or_empty (lookup (key_of c) m) ++ c ∷ []) m

abbrev pub NoEmptyGroup : Dict (List ResourceChange) → Type 0
NoEmptyGroup m = (k : String) → lookup k m ≡ group_of (or_empty (lookup k m))

add_change-NoEmptyGroup :
    (c : ResourceChange) (m : Dict (List ResourceChange))
    → NoEmptyGroup m
    → NoEmptyGroup (add_change c m)
add_change-NoEmptyGroup c m h k = elim (Bool-cases (key_of c == k)) [
  | inl e ↦ simp (lookup-insert, e) (sym (group_of-snoc (or_empty (lookup (key_of c) m)) c))
  | inr e ↦ simp (lookup-insert, e) (h k)
]

add_change-with_key :
    (k : String) (c : ResourceChange) (cs : List ResourceChange) (m : Dict (List ResourceChange))
    → or_empty (lookup k (add_change c m)) ++ with_key k cs
      ≡ or_empty (lookup k m) ++ with_key k (c ∷ cs)
add_change-with_key k c cs m = elim (Bool-cases (key_of c == k)) [
  | inl e ↦
      simp (lookup-insert, e)
        (append_assoc _ (c ∷ []) (with_key k cs)
          ∙ ap (λ (j : String). or_empty (lookup j m) ++ c ∷ with_key k cs)
              ((eq_iff (key_of c) k).0 e))
  | inr e ↦ simp (lookup-insert, e)
]

-- Every group is the changes with its key so far.
pub lookup-group_changes :
    (cs : List ResourceChange) (m : Dict (List ResourceChange))
    → NoEmptyGroup m
    → (k : String)
    → lookup k (group_changes cs m) ≡ group_of (or_empty (lookup k m) ++ with_key k cs)
unfolding group_changes
lookup-group_changes [] m h k = rw append-nil (h k)
lookup-group_changes (c ∷ cs) m h k =
    lookup-group_changes cs (add_change c m) (add_change-NoEmptyGroup c m h) k
    ∙ ap group_of (add_change-with_key k c cs m)

-- What a group gives is a change of the group's key.
abbrev pub IsKeyed : Dict (List ResourceChange) → Type 0
IsKeyed groups =
    (k : String) (ds : List ResourceChange)
    → lookup k groups ≡ some ds
    → (c : ResourceChange) → key_of (last_change c ds) ≡ k

remove-IsKeyed :
    (k : String) (groups : Dict (List ResourceChange)) → IsKeyed groups → IsKeyed (remove k groups)
remove-IsKeyed j groups h k ds e c = h k ds (some_of_remove j k ds groups e).1 c

-- The change is the last of its group.
abbrev pub FromGroup : Dict (List ResourceChange) → ResourceChange → Type 0
FromGroup groups d =
    (ds : List ResourceChange) × (c : ResourceChange) × (lookup (key_of d) groups ≡ some ds)
    × (d ≡ last_change c ds)

-- The changes come from the groups of the keys that occur.
pub squash_groups-Elem :
    (groups : Dict (List ResourceChange)) (cs : List ResourceChange) (d : ResourceChange)
    → IsKeyed groups
    → Elem d (squash_groups groups cs)
    → FromGroup groups d
unfolding squash_groups
squash_groups-Elem groups [] d h m = elim m [ ]
squash_groups-Elem groups (c ∷ cs) d h m =
    by_group (lookup (key_of c) groups) refl (squash_groups-Elem groups cs d h)
      (squash_groups-Elem (remove (key_of c) groups) cs d (remove-IsKeyed (key_of c) groups h)) m
  where
    by_group :
        (o : Option (List ResourceChange))
        → lookup (key_of c) groups ≡ o
        → (Elem d (squash_groups groups cs) → FromGroup groups d)
        → (Elem d (squash_groups (remove (key_of c) groups) cs)
            → FromGroup (remove (key_of c) groups) d)
        → Elem d (elim o [
          | none ↦ squash_groups groups cs
          | some ds ↦ last_change c ds ∷ squash_groups (remove (key_of c) groups) cs
        ])
        → FromGroup groups d
    by_group none e same later m = same m
    by_group (some ds) e same later (inl p) = (
      ds,
      c,
      ap (λ (b : ResourceChange). lookup (key_of b) groups) p
          ∙ ap (λ k. lookup k groups) (h (key_of c) ds e c)
          ∙ e,
      p,
    )
    by_group (some ds) e same later (inr p) =
        let (bs, b, eb, q) = later p in
        (bs, b, (some_of_remove (key_of c) (key_of d) bs groups eb).1, q)

abbrev pub HasKey : String → List ResourceChange → Type 0
HasKey k cs = (d : ResourceChange) × Elem d cs × (key_of d ≡ k)

pub Elem-squash_groups :
    (groups : Dict (List ResourceChange)) (cs : List ResourceChange) (c : ResourceChange)
    (ds : List ResourceChange)
    → IsKeyed groups
    → Elem c cs
    → lookup (key_of c) groups ≡ some ds
    → HasKey (key_of c) (squash_groups groups cs)
unfolding squash_groups
Elem-squash_groups groups [] c ds h m e = elim m [ ]
Elem-squash_groups groups (b ∷ cs) c ds h m e =
    by_group (lookup (key_of b) groups) refl (λ m. Elem-squash_groups groups cs c ds h m e)
      (λ m ne.
        Elem-squash_groups (remove (key_of b) groups) cs c ds (remove-IsKeyed (key_of b) groups h) m
          (lookup-remove_ne (key_of b) (key_of c) groups ne ∙ e))
      (Bool-cases (key_of b == key_of c)) m
  where
    by_group :
        (o : Option (List ResourceChange))
        → lookup (key_of b) groups ≡ o
        → (Elem c cs → HasKey (key_of c) (squash_groups groups cs))
        → (Elem c cs
            → (key_of b == key_of c) ≡ false
            → HasKey (key_of c) (squash_groups (remove (key_of b) groups) cs))
        → ((key_of b == key_of c) ≡ true) ⊎ ((key_of b == key_of c) ≡ false)
        → Elem c (b ∷ cs)
        → HasKey (key_of c) (elim o [
          | none ↦ squash_groups groups cs
          | some ds ↦ last_change b ds ∷ squash_groups (remove (key_of b) groups) cs
        ])
    by_group none eo same later t (inl p) = cc (e, eo, p)
    by_group none eo same later t (inr m) = same m
    by_group (some bs) eo same later (inl t) m =
        (last_change b bs, inl refl, h (key_of b) bs eo b ∙ (eq_iff (key_of b) (key_of c)).0 t)
    by_group (some bs) eo same later (inr t) (inl p) = cc (t, p, eq_refl (key_of b))
    by_group (some bs) eo same later (inr t) (inr m) =
        let (d, md, ed) = later m t in (d, inr md, ed)

pub squash_groups-Distinct :
    (groups : Dict (List ResourceChange)) (cs : List ResourceChange)
    → IsKeyed groups
    → Distinct (map key_of (squash_groups groups cs))
unfolding squash_groups
squash_groups-Distinct groups [] h = tt
squash_groups-Distinct groups (c ∷ cs) h =
    by_group (lookup (key_of c) groups) refl (squash_groups-Distinct groups cs h)
      (squash_groups-Distinct (remove (key_of c) groups) cs (remove-IsKeyed (key_of c) groups h))
  where
    rest : List ResourceChange
    rest = squash_groups (remove (key_of c) groups) cs

    fresh : (k : String) → k ≡ key_of c → Elem k (map key_of rest) → Never {0}
    fresh k e m =
        let (d, md, ed) = Elem-map key_of k rest m in
        let (ds, b, f, g) =
          squash_groups-Elem (remove (key_of c) groups) cs d (remove-IsKeyed (key_of c) groups h)
            md in
        cc ((some_of_remove (key_of c) (key_of d) ds groups f).0, e, ed, eq_refl k)

    by_group :
        (o : Option (List ResourceChange))
        → lookup (key_of c) groups ≡ o
        → Distinct (map key_of (squash_groups groups cs))
        → Distinct (map key_of rest)
        → Distinct (
            map key_of
              (elim o [ none ↦ squash_groups groups cs | some ds ↦ last_change c ds ∷ rest ]))
    by_group none e same later = same
    by_group (some ds) e same later = (fresh _ (h (key_of c) ds e c), later)
