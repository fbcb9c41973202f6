-- ===== src/K8s/Changes/Create.antt =====
-- detectChanges… and createResourceChanges…: which deletes and updates they yield, and that they
-- never meet a missing resource.
use aspenmesh_k3s_multiclust.Prelude.{
  String, ◌≡◌, ◌≢◌, refl, sym, ap, ◌∙◌, ◌⊎◌, inl, inr, Bool, true, false, not, Option, none, some,
  List, ◌++◌, eq_iff, arith, Elem, Elem-append, Elem-append_left, Elem-append_right, Elem-keep,
  keep-Elem, keep, some_inj, >>=-eq-some, is_some, traverse, traverse-some, traverse-Elem,
  Elem-traverse,
}
use aspenmesh_k3s_multiclust.Prelude.Dict.{Dict, lookup, keys, lookup-keys, keys-lookup}
use aspenmesh_k3s_multiclust.Prelude.Sorting.{sort_strings, Elem-sort_strings, sort_strings-Elem}
use aspenmesh_k3s_multiclust.K8s.Resource.{Resource, get_key_with_kind, is_equal}
use aspenmesh_k3s_multiclust.K8s.State.{ResourceChange}
use aspenmesh_k3s_multiclust.K8s.Changes.{
  is_changed, has_moved, removed_names, added_names, updated_names, delete_of, update_of, change_at,
  create_resource_changes,
}

is_changed-some :
    (o : Option Resource) (n : Resource)
    → is_changed o (some n) ≡ true
    → (r : Resource) × (o ≡ some r) × (is_equal r n ≡ false)
is_changed-some none n h = cc
is_changed-some (some r) n h = (r, refl, ground arith)

change_at-some :
    (change : Resource → ResourceChange) (m : Dict Resource) (h : String) (c : ResourceChange)
    → change_at change m h ≡ some c
    → (r : Resource) × (lookup h m ≡ some r) × (c ≡ change r)
change_at-some change m h c e =
    let (r, er, last) = >>=-eq-some (lookup h m) _ e in (r, er, sym (some_inj last))

some-change_at :
    (change : Resource → ResourceChange) (m : Dict Resource) (h : String) (r : Resource)
    → lookup h m ≡ some r
    → change_at change m h ≡ some (change r)
some-change_at change m h r e = rw e

module _ (old new : Dict Resource) where
  -- The name has left the resource: nobody holds it, or a resource with another key.
  abbrev pub HasLost : String → Resource → Type 0
  HasLost h r =
      (lookup h new ≡ none)
      ⊎ ((n : Resource) × (lookup h new ≡ some n)
          × (is_equal r n ≡ false)
          × (get_key_with_kind r ≢ get_key_with_kind n))

  -- The name is new, or its holder is not equal to the former one.
  abbrev pub HasGained : String → Resource → Type 0
  HasGained h r =
      (lookup h old ≡ none) ⊎ ((o : Resource) × (lookup h old ≡ some o) × (is_equal o r ≡ false))

  -- The deletes are for the resources that lose a name, the updates for those that gain or keep a
  -- name and have changed.
  pub record Created (deletes updates : List ResourceChange) : Type 0 where
    pub lost :
        (c : ResourceChange)
        → Elem c deletes
        → (h : String) × (r : Resource) × (lookup h old ≡ some r) × HasLost h r × (c ≡ delete_of r)
    pub deleted :
        (h : String) (r : Resource)
        → lookup h old ≡ some r
        → HasLost h r
        → Elem (delete_of r) deletes
    pub gained :
        (c : ResourceChange)
        → Elem c updates
        → (h : String) × (r : Resource) × (lookup h new ≡ some r) × (c ≡ update_of r)
    pub updated :
        (h : String) (r : Resource)
        → lookup h new ≡ some r
        → HasGained h r
        → Elem (update_of r) updates

  -- What each list of names holds.
  removed-old :
      (h : String)
      → Elem h (removed_names old new)
      → (r : Resource) × (lookup h old ≡ some r) × (lookup h new ≡ none)
  unfolding removed_names
  removed-old h m =
      let (mk, e) = Elem-keep (λ h. not (is_some (lookup h new))) h (sort_strings (keys old)) m in
      let (r, er) = keys-lookup h old (Elem-sort_strings h (keys old) mk) in (r, er, ground arith)

  old-removed :
      (h : String) (r : Resource)
      → lookup h old ≡ some r
      → lookup h new ≡ none
      → Elem h (removed_names old new)
  unfolding removed_names
  old-removed h r e n =
      keep-Elem (λ h. not (is_some (lookup h new))) h (sort_strings (keys old))
        (sort_strings-Elem h (keys old) (lookup-keys h r old e)) (rw n)

  added-new : (h : String) → Elem h (added_names old new) → (r : Resource) × (lookup h new ≡ some r)
  unfolding added_names
  added-new h m =
      let (mk, e) = Elem-keep (λ h. not (is_some (lookup h old))) h (sort_strings (keys new)) m in
      keys-lookup h new (Elem-sort_strings h (keys new) mk)

  new-added :
      (h : String) (r : Resource)
      → lookup h new ≡ some r
      → lookup h old ≡ none
      → Elem h (added_names old new)
  unfolding added_names
  new-added h r e n =
      keep-Elem (λ h. not (is_some (lookup h old))) h (sort_strings (keys new))
        (sort_strings-Elem h (keys new) (lookup-keys h r new e)) (rw n)

  updated-both :
      (h : String)
      → Elem h (updated_names old new)
      → (o n : Resource) × (lookup h old ≡ some o)
        × (lookup h new ≡ some n)
        × (is_equal o n ≡ false)
  unfolding updated_names
  updated-both h m =
      let (mk, e) =
        Elem-keep (λ h. is_changed (lookup h old) (lookup h new)) h (sort_strings (keys new)) m in
      let (n, en) = keys-lookup h new (Elem-sort_strings h (keys new) mk) in
      let (o, eo, ne) =
        is_changed-some (lookup h old) n (ap (is_changed (lookup h old)) (sym en) ∙ e) in
      (o, n, eo, en, ne)

  both-updated :
      (h : String) (o n : Resource)
      → lookup h old ≡ some o
      → lookup h new ≡ some n
      → is_equal o n ≡ false
      → Elem h (updated_names old new)
  unfolding updated_names
  both-updated h o n eo en e =
      keep-Elem (λ h. is_changed (lookup h old) (lookup h new)) h (sort_strings (keys new))
        (sort_strings-Elem h (keys new) (lookup-keys h n new en)) (rw eo (rw en (rw e)))

  abbrev moved : String → Bool
  moved h = has_moved (lookup h old) (lookup h new)

  moved_names : List String
  moved_names = keep moved (updated_names old new)

  moved_names-both :
      (h : String) → Elem h moved_names → (r : Resource) × (lookup h old ≡ some r) × HasLost h r
  unfolding moved_names
  moved_names-both h m =
      let (mu, e) = Elem-keep moved h (updated_names old new) m in
      let (o, n, eo, en, ne) = updated-both h mu in
      let differ = ap (λ b. has_moved b (lookup h new)) (sym eo) ∙ e in
      let differ' = ap (has_moved (some o)) (sym en) ∙ differ in
      (
        o,
        eo,
        inr (
          n,
          en,
          ne,
          λ p. cc (differ', (eq_iff (get_key_with_kind o) (get_key_with_kind n)).1 p),
        ),
      )

  both-moved_names :
      (h : String) (o n : Resource)
      → lookup h old ≡ some o
      → lookup h new ≡ some n
      → is_equal o n ≡ false
      → get_key_with_kind o ≢ get_key_with_kind n
      → Elem h moved_names
  unfolding moved_names
  both-moved_names h o n eo en e ne =
      keep-Elem moved h (updated_names old new) (both-updated h o n eo en e)
        (rw eo (rw en (ground (arith, eq_iff (get_key_with_kind o) (get_key_with_kind n)))))

  module _ (ds ms us ns : List ResourceChange)
      (eds : traverse (change_at delete_of old) (removed_names old new) ≡ some ds)
      (ems : traverse (change_at delete_of old) moved_names ≡ some ms)
      (eus : traverse (change_at update_of new) (updated_names old new) ≡ some us)
      (ens : traverse (change_at update_of new) (added_names old new) ≡ some ns) where
    lost_of :
        (c : ResourceChange)
        → Elem c (ds ++ ms)
        → (h : String) × (r : Resource) × (lookup h old ≡ some r) × HasLost h r × (c ≡ delete_of r)
    lost_of c m = elim (Elem-append c ds ms m) [
      | inl m ↦
          let (h, mh, e) =
            traverse-Elem (change_at delete_of old) (removed_names old new) ds c eds m in
          let (r, er, n) = removed-old h mh in
          let (q, eq, same) = change_at-some delete_of old h c e in
          (h, r, er, inl n, same ∙ ap delete_of (some_inj (sym eq ∙ er)))
      | inr m ↦
          let (h, mh, e) = traverse-Elem (change_at delete_of old) moved_names ms c ems m in
          let (r, er, l) = moved_names-both h mh in
          let (q, eq, same) = change_at-some delete_of old h c e in
          (h, r, er, l, same ∙ ap delete_of (some_inj (sym eq ∙ er)))
    ]

    deleted_of :
        (h : String) (r : Resource)
        → lookup h old ≡ some r
        → HasLost h r
        → Elem (delete_of r) (ds ++ ms)
    deleted_of h r e (inl n) = Elem-append_left (delete_of r) ds ms (
        Elem-traverse (change_at delete_of old) (removed_names old new) ds h (delete_of r) eds
          (old-removed h r e n) (some-change_at delete_of old h r e))
    deleted_of h r e (inr (n, en, ne, differ)) = Elem-append_right (delete_of r) ds ms (
        Elem-traverse (change_at delete_of old) moved_names ms h (delete_of r) ems
          (both-moved_names h r n e en ne differ) (some-change_at delete_of old h r e))

    gained_of :
        (c : ResourceChange)
        → Elem c (us ++ ns)
        → (h : String) × (r : Resource) × (lookup h new ≡ some r) × (c ≡ update_of r)
    gained_of c m = elim (Elem-append c us ns m) [
      | inl m ↦
          let (h, mh, e) =
            traverse-Elem (change_at update_of new) (updated_names old new) us c eus m in
          let (r, er, same) = change_at-some update_of new h c e in (h, r, er, same)
      | inr m ↦
          let (h, mh, e) =
            traverse-Elem (change_at update_of new) (added_names old new) ns c ens m in
          let (r, er, same) = change_at-some update_of new h c e in (h, r, er, same)
    ]

    updated_of :
        (h : String) (r : Resource)
        → lookup h new ≡ some r
        → HasGained h r
        → Elem (update_of r) (us ++ ns)
    updated_of h r e (inl n) = Elem-append_right (update_of r) us ns (
        Elem-traverse (change_at update_of new) (added_names old new) ns h (update_of r) ens
          (new-added h r e n) (some-change_at update_of new h r e))
    updated_of h r e (inr (o, eo, ne)) = Elem-append_left (update_of r) us ns (
        Elem-traverse (change_at update_of new) (updated_names old new) us h (update_of r) eus
          (both-updated h o r eo e ne) (some-change_at update_of new h r e))

  deletes_found :
      (h : String)
      → ((r : Resource) × (lookup h old ≡ some r))
      → (c : ResourceChange) × (change_at delete_of old h ≡ some c)
  deletes_found h (r, e) = (delete_of r, some-change_at delete_of old h r e)

  updates_found :
      (h : String)
      → ((r : Resource) × (lookup h new ≡ some r))
      → (c : ResourceChange) × (change_at update_of new h ≡ some c)
  updates_found h (r, e) = (update_of r, some-change_at update_of new h r e)

  -- For any two assignments, the changes are found without a panic and are deletes followed by
  -- updates; the deletes are those of the resources that lose a name, all of them; every update is
  -- that of a holder, and every holder that is new at a name or not equal to the former one has an
  -- update.
  pub create_resource_changes-Created :
      (deletes : List ResourceChange) × (updates : List ResourceChange) × (create_resource_changes
          (removed_names old new)
          (updated_names old new)
          (added_names old new)
          old
          new
        ≡ some (deletes ++ updates))
      × Created deletes updates
  unfolding create_resource_changes moved_names
  create_resource_changes-Created =
      let (ds, eds) =
        traverse-some (change_at delete_of old) (removed_names old new)
          (λ h m. let (r, e, n) = removed-old h m in deletes_found h (r, e)) in
      let (ms, ems) =
        traverse-some (change_at delete_of old) moved_names
          (λ h m. let (r, e, n) = moved_names-both h m in deletes_found h (r, e)) in
      let (us, eus) =
        traverse-some (change_at update_of new) (updated_names old new)
          (λ h m. let (o, n, eo, en, ne) = updated-both h m in updates_found h (n, en)) in
      let (ns, ens) =
        traverse-some (change_at update_of new) (added_names old new)
          (λ h m. updates_found h (added-new h m)) in
      (
        ds ++ ms,
        us ++ ns,
        rw (eds, ems, eus, ens),
        record {
          lost = lost_of ds ms us ns eds ems eus ens;
          deleted = deleted_of ds ms us ns eds ems eus ens;
          gained = gained_of ds ms us ns eds ems eus ens;
          updated = updated_of ds ms us ns eds ems eus ens;
        },
      )
