-- ===== src/K8s/Changes.antt =====
-- internal/k8s/configuration.go: the changes between two assignments of hosts (or listeners), as
-- operations on resources. detectChangesInListeners and createResourceChangesForListeners are the
-- same code at another type of map, and take the listeners as resources here.
pub mod Groups
pub mod Squash
pub mod Create
pub mod Final
pub mod Deploy
pub mod Refine
use aspenmesh_k3s_multiclust.Prelude.{
  String, Bool, true, false, not, Option, none, some, List, [], ◌∷◌, ◌++◌, ◌==◌, ◌>>=◌,
  if◌then◌else◌, traverse, keep, is_some,
}
use aspenmesh_k3s_multiclust.Prelude.Dict.{Dict, lookup, insert, remove, keys}
use aspenmesh_k3s_multiclust.Prelude.Sorting.{sort_strings}
use aspenmesh_k3s_multiclust.K8s.Resource.{Resource, get_key_with_kind, is_equal}
use aspenmesh_k3s_multiclust.K8s.State.{ResourceChange, Operation, delete, add_or_update}

-- The two assignments disagree on a name that both have.
abbrev pub is_changed : Option Resource → Option Resource → Bool
is_changed none new = false
is_changed (some o) none = true
is_changed (some o) (some n) = not (is_equal o n)

unfoldable pub removed_names : Dict Resource → Dict Resource → List String
removed_names old new = keep (λ h. not (is_some (lookup h new))) (sort_strings (keys old))

unfoldable pub added_names : Dict Resource → Dict Resource → List String
added_names old new = keep (λ h. not (is_some (lookup h old))) (sort_strings (keys new))

unfoldable pub updated_names : Dict Resource → Dict Resource → List String
updated_names old new =
    keep (λ h. is_changed (lookup h old) (lookup h new)) (sort_strings (keys new))

abbrev pub delete_of : Resource → ResourceChange
delete_of r = record { op = delete; resource = r; error = "" }

abbrev pub update_of : Resource → ResourceChange
update_of r = record { op = add_or_update; resource = r; error = "" }

-- The name has passed from one resource to another.
abbrev pub has_moved : Option Resource → Option Resource → Bool
has_moved (some o) (some n) = not (get_key_with_kind o == get_key_with_kind n)
has_moved (some o) none = false
has_moved none new = false

abbrev pub change_at : (Resource → ResourceChange) → Dict Resource → String → Option ResourceChange
change_at change m h = lookup h m >>= λ r. some (change r)

-- The deletes, then the updates. A name that a map lacks would give a nil resource, and panic.
unfoldable pub create_resource_changes :
    List String
    → List String
    → List String
    → Dict Resource
    → Dict Resource
    → Option (List ResourceChange)
create_resource_changes removed updated added old new =
    traverse (change_at delete_of old) removed >>= λ ds.
    traverse (change_at delete_of old) (keep (λ h. has_moved (lookup h old) (lookup h new)) updated)
    >>= λ moved. traverse (change_at update_of new) updated >>= λ us.
        traverse (change_at update_of new) added >>= λ as_new.
        some ((ds ++ moved) ++ (us ++ as_new))

abbrev pub key_of : ResourceChange → String
key_of c = get_key_with_kind c.resource

abbrev or_empty : Option (List ResourceChange) → List ResourceChange
or_empty none = []
or_empty (some cs) = cs

-- changesPerResource
unfoldable pub group_changes :
    List ResourceChange → Dict (List ResourceChange) → Dict (List ResourceChange)
group_changes [] m = m
group_changes (c ∷ cs) m =
    group_changes cs (insert (key_of c) (or_empty (lookup (key_of c) m) ++ c ∷ []) m)

-- changes[len(changes)-1]; no group is empty.
abbrev pub last_change : ResourceChange → List ResourceChange → ResourceChange
last_change c [] = c
last_change c (d ∷ ds) = last_change d ds

-- The last change of each resource, in the order in which the resources first occur.
unfoldable pub squash_groups :
    Dict (List ResourceChange) → List ResourceChange → List ResourceChange
squash_groups groups [] = []
squash_groups groups (c ∷ cs) = elim (lookup (key_of c) groups) [
  | none ↦ squash_groups groups cs
  | some ds ↦ last_change c ds ∷ squash_groups (remove (key_of c) groups) cs
]

abbrev pub is_delete : ResourceChange → Bool
is_delete c = elim c.op [ delete ↦ true | add_or_update ↦ false ]

unfoldable pub squash_resource_changes : List ResourceChange → List ResourceChange
unfolding group_changes squash_groups
squash_resource_changes changes =
    let squashed = squash_groups (group_changes changes []) changes in
    keep is_delete squashed ++ keep (λ c. not (is_delete c)) squashed
