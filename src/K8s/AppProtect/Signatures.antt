-- ===== src/K8s/AppProtect/Signatures.antt =====
-- app_protect_configuration.go: the signatures with one tag, of which the oldest is valid. A pointer
-- to a signature is its key in the map, which is the only one to it, with the value that is read.
pub mod Grouped
pub mod Oldest
pub mod Settle
pub mod Reconciled
pub mod Valid
use aspenmesh_k3s_multiclust.Prelude.{
  String, Bool, Option, none, some, List, [], ◌∷◌, ◌++◌, ◌==◌, eqb, ltb, if◌then◌else◌,
}
use aspenmesh_k3s_multiclust.Prelude.Texts.{text_lt}
use aspenmesh_k3s_multiclust.Prelude.Dict.{Dict, lookup, insert}
use aspenmesh_k3s_multiclust.K8s.AppProtect.{
  failed_validation_error_msg, duplicated_tags_error_msg, UserSigEx, set_sig_invalid, set_sig_valid,
  delete, add_or_update, user_sig, Change, Problem, rejected,
}

abbrev pub Pointer : Type 0
Pointer = String × UserSigEx

-- appProtectUserSigSlice.Less
unfoldable pub less : UserSigEx → UserSigEx → Bool
less s t =
    if eqb s.obj.creation_timestamp t.obj.creation_timestamp
    then text_lt t.obj.uid s.obj.uid
    else ltb s.obj.creation_timestamp t.obj.creation_timestamp

unfoldable pub insert_sig : Pointer → List Pointer → List Pointer
unfolding less
insert_sig p [] = p ∷ []
insert_sig p (q ∷ qs) = let rest = insert_sig p qs in if less q.1 p.1 then q ∷ rest else p ∷ q ∷ qs

-- sort.Sort
unfoldable pub sort_sigs : List Pointer → List Pointer
unfolding insert_sig
sort_sigs [] = []
sort_sigs (p ∷ ps) = insert_sig p (sort_sigs ps)

unfoldable pub add_to_group : Pointer → Dict (List Pointer) → Dict (List Pointer)
add_to_group (key, sig) tmp = elim (lookup sig.tag tmp) [
  | some group ↦
      if sig.error_msg == failed_validation_error_msg
      then tmp
      else insert sig.tag (group ++ (key, sig) ∷ []) tmp
  | none ↦
      if sig.error_msg == failed_validation_error_msg
      then tmp
      else insert sig.tag ((key, sig) ∷ []) tmp
]

-- The loop that fills `tmp`.
unfoldable pub group_by_tag : List Pointer → Dict (List Pointer) → Dict (List Pointer)
unfolding add_to_group
group_by_tag [] tmp = tmp
group_by_tag (p ∷ ps) tmp = group_by_tag ps (add_to_group p tmp)

-- The loop that fills `outcome`.
unfoldable pub tagged_groups : Dict (List Pointer) → List (List Pointer)
tagged_groups [] = []
tagged_groups ((tag, group) ∷ rest) =
    let groups = tagged_groups rest in if tag == "" then groups else group ∷ groups

unfoldable pub detect_duplicate_tags : Dict UserSigEx → List (List Pointer)
unfolding group_by_tag tagged_groups
detect_duplicate_tags sigs = tagged_groups (group_by_tag sigs [])

-- The signatures as they are changed, and what the loops return.
pub record Reconciliation : Type 0 where
  pub user_sigs : Dict UserSigEx
  pub changes : List Change
  pub problems : List Problem

unfoldable pub accept_winner : Pointer → Reconciliation → Reconciliation
accept_winner (key, sig) s = if sig.is_valid then s else record s {
  user_sigs = insert key (set_sig_valid sig) s.user_sigs;
  changes =
      s.changes ++ record { op = add_or_update; resource = user_sig (set_sig_valid sig) } ∷ [];
}

unfoldable pub reject_loser : Pointer → Reconciliation → Reconciliation
reject_loser (key, sig) s =
    if sig.is_valid
    then record {
      user_sigs = insert key (set_sig_invalid duplicated_tags_error_msg sig) s.user_sigs;
      changes =
          s.changes
          ++ record {
            op = delete;
            resource = user_sig (set_sig_invalid duplicated_tags_error_msg sig);
          }
            ∷ [];
      problems = s.problems ++ rejected sig.obj duplicated_tags_error_msg ∷ [];
    }
    else s

unfoldable pub reject_losers : List Pointer → Reconciliation → Reconciliation
unfolding reject_loser
reject_losers [] s = s
reject_losers (p ∷ ps) s = reject_losers ps (reject_loser p s)

-- On a sorted group; no group is empty.
unfoldable pub reconcile_group : List Pointer → Reconciliation → Reconciliation
unfolding accept_winner reject_losers
reconcile_group [] s = s
reconcile_group (winner ∷ losers) s = reject_losers losers (accept_winner winner s)

unfoldable pub reconcile_groups : List (List Pointer) → Reconciliation → Reconciliation
unfolding sort_sigs reconcile_group
reconcile_groups [] s = s
reconcile_groups (group ∷ groups) s = reconcile_groups groups (reconcile_group (sort_sigs group) s)

unfoldable pub reconcile_user_sigs : Dict UserSigEx → Reconciliation
unfolding detect_duplicate_tags reconcile_groups
reconcile_user_sigs sigs =
    reconcile_groups (detect_duplicate_tags sigs)
      (record { user_sigs = sigs; changes = []; problems = [] })
