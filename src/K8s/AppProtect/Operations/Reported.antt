-- ===== src/K8s/AppProtect/Operations/Reported.antt =====
-- buildUserSigChangeAndProblems: the policies that a UserSigChange lists.
use aspenmesh_k3s_multiclust.Prelude.{
  String, ◌≡◌, ◌↔◌, refl, sym, ap, ◌∙◌, subst, inl, inr, Bool, true, false, not, ◌&&◌, some, List,
  [], ◌∷◌, ◌++◌, append-nil, append_assoc, arith, Elem, Elem-append, Elem-append_left,
  Elem-append_right, Bool-cases, some_inj, if◌then◌else◌, Distinct,
}
use aspenmesh_k3s_multiclust.Prelude.Dict.{Dict, lookup, keys, lookup-Elem}
use aspenmesh_k3s_multiclust.Prelude.Uniform.{Elem-lookup}
use aspenmesh_k3s_multiclust.K8s.AppProtect.{
  Unstructured, PolicyEx, UserSigEx, duplicated_tags_error_msg, set_sig_invalid, Operation, delete,
  add_or_update, Resource, policy, log_conf, user_sig, Change, Problem, UserSigChange,
  ConfigurationImpl,
}
use aspenmesh_k3s_multiclust.K8s.AppProtect.Signatures.{
  Pointer, Reconciliation, accept_winner, reject_loser, reject_losers, reconcile_group,
  reconcile_groups, reconcile_user_sigs, sort_sigs, detect_duplicate_tags,
}
use aspenmesh_k3s_multiclust.K8s.AppProtect.Policies.{
  revive_policy, retire_policy, verify_policy, verify_policies,
}
use aspenmesh_k3s_multiclust.K8s.AppProtect.Policies.Verified.{
  verify_valid, lookup-verify_policies, verify_policies-lookup,
}
use aspenmesh_k3s_multiclust.K8s.AppProtect.Operations.{
  collect_change, collect_changes, build_user_sig_change_and_problems,
}

-- What a change adds to the policies that are deleted, and to those that are added or updated.
abbrev pub listed_under : Operation → Operation → Resource → List Unstructured
listed_under delete delete (policy impl) = impl.obj ∷ []
listed_under add_or_update add_or_update (policy impl) = impl.obj ∷ []
listed_under delete add_or_update r = []
listed_under add_or_update delete r = []
listed_under op other (log_conf impl) = []
listed_under op other (user_sig impl) = []

abbrev pub list_under : Operation → UserSigChange → List Unstructured
list_under delete s = s.policy_deletions
list_under add_or_update s = s.policy_adds_or_updates

module _ (op : Operation) where
  abbrev gather : List Change → List Unstructured
  gather [] = []
  gather (c ∷ cs) = listed_under op c.op c.resource ++ gather cs

  gather-append : (cs ds : List Change) → gather (cs ++ ds) ≡ gather cs ++ gather ds
  gather-append [] ds = refl
  gather-append (c ∷ cs) ds =
      ap (◌++◌ (listed_under op c.op c.resource)) (gather-append cs ds)
      ∙ sym (append_assoc (listed_under op c.op c.resource) (gather cs) (gather ds))

  list_under-collect_change :
      (other : Operation) (r : Resource) (s : UserSigChange)
      → list_under op (collect_change other r s) ≡ list_under op s ++ listed_under op other r
  list_under-collect_change other r s = by_kind op other r
    where
      by_kind :
          (o other : Operation) (r : Resource)
          → list_under o (collect_change other r s) ≡ list_under o s ++ listed_under o other r
      by_kind delete delete (policy impl) = refl
      by_kind delete add_or_update (policy impl) = sym (append-nil _)
      by_kind add_or_update delete (policy impl) = sym (append-nil _)
      by_kind add_or_update add_or_update (policy impl) = refl
      by_kind delete delete (log_conf impl) = sym (append-nil _)
      by_kind delete add_or_update (log_conf impl) = sym (append-nil _)
      by_kind add_or_update delete (log_conf impl) = sym (append-nil _)
      by_kind add_or_update add_or_update (log_conf impl) = sym (append-nil _)
      by_kind delete delete (user_sig impl) = sym (append-nil _)
      by_kind delete add_or_update (user_sig impl) = sym (append-nil _)
      by_kind add_or_update delete (user_sig impl) = sym (append-nil _)
      by_kind add_or_update add_or_update (user_sig impl) = sym (append-nil _)

  list_under-collect_changes :
      (cs : List Change) (s : UserSigChange)
      → list_under op (collect_changes cs s) ≡ list_under op s ++ gather cs
  unfolding collect_changes
  list_under-collect_changes [] s = sym (append-nil _)
  list_under-collect_changes (c ∷ cs) s =
      list_under-collect_changes cs (collect_change c.op c.resource s)
      ∙ ap (λ x. x ++ gather cs) (list_under-collect_change c.op c.resource s)
      ∙ append_assoc (list_under op s) (listed_under op c.op c.resource) (gather cs)

  -- The changes of signatures list no policy.
  Quiet : Reconciliation → Type 0
  Quiet s = gather s.changes ≡ []

  listed-user_sig :
      (other : Operation) (sig : UserSigEx) → listed_under op other (user_sig sig) ≡ []
  listed-user_sig other sig = by_kind op other
    where
      by_kind : (o p : Operation) → listed_under o p (user_sig sig) ≡ []
      by_kind delete delete = refl
      by_kind delete add_or_update = refl
      by_kind add_or_update delete = refl
      by_kind add_or_update add_or_update = refl

  gather-snoc :
      (cs : List Change) (other : Operation) (sig : UserSigEx)
      → gather cs ≡ []
      → gather (cs ++ record { op = other; resource = user_sig sig } ∷ []) ≡ []
  gather-snoc cs other sig h = gather-append cs _ ∙ rw (h, listed-user_sig other sig)

  accept_winner-Quiet : (p : Pointer) (s : Reconciliation) → Quiet s → Quiet (accept_winner p s)
  unfolding accept_winner Quiet
  accept_winner-Quiet p s h = ground (
    arith,
    gather-snoc s.changes add_or_update (record p.1 { is_valid = true; error_msg = "" }) h,
  )

  reject_loser-Quiet : (p : Pointer) (s : Reconciliation) → Quiet s → Quiet (reject_loser p s)
  unfolding reject_loser Quiet
  reject_loser-Quiet p s h =
      ground (arith, gather-snoc s.changes delete (set_sig_invalid duplicated_tags_error_msg p.1) h)

  reject_losers-Quiet :
      (ps : List Pointer) (s : Reconciliation) → Quiet s → Quiet (reject_losers ps s)
  unfolding reject_losers
  reject_losers-Quiet [] s h = h
  reject_losers-Quiet (p ∷ ps) s h = reject_losers-Quiet ps _ (reject_loser-Quiet p s h)

  reconcile_group-Quiet :
      (ps : List Pointer) (s : Reconciliation) → Quiet s → Quiet (reconcile_group ps s)
  unfolding reconcile_group
  reconcile_group-Quiet [] s h = h
  reconcile_group-Quiet (p ∷ ps) s h = reject_losers-Quiet ps _ (accept_winner-Quiet p s h)

  reconcile_groups-Quiet :
      (groups : List (List Pointer)) (s : Reconciliation)
      → Quiet s
      → Quiet (reconcile_groups groups s)
  unfolding reconcile_groups
  reconcile_groups-Quiet [] s h = h
  reconcile_groups-Quiet (g ∷ gs) s h =
      reconcile_groups-Quiet gs _ (reconcile_group-Quiet (sort_sigs g) s h)

  reconcile_user_sigs-Quiet :
      (sigs : Dict UserSigEx) → gather (reconcile_user_sigs sigs).changes ≡ []
  unfolding reconcile_user_sigs Quiet
  reconcile_user_sigs-Quiet sigs =
      reconcile_groups-Quiet (detect_duplicate_tags sigs)
        (record { user_sigs = sigs; changes = []; problems = [] }) refl

-- A policy stops being valid, or comes to be valid.
abbrev pub turns : Operation → (old new : PolicyEx) → Bool
turns delete old new = old.is_valid && not new.is_valid
turns add_or_update old new = not old.is_valid && new.is_valid

module _ (sigs : Dict UserSigEx) where
  gather-verify_policy :
      (op : Operation) (pol : PolicyEx)
      → gather op (verify_policy sigs pol).1
        ≡ (if turns op pol (verify_policy sigs pol).0 then pol.obj ∷ [] else [])
  unfolding verify_policy revive_policy retire_policy
  gather-verify_policy delete pol = ground (arith, verify_valid sigs pol)
  gather-verify_policy add_or_update pol = ground (arith, verify_valid sigs pol)

  gather_if :
      (op : Operation) (pol : PolicyEx) (turned : Bool)
      → turns op pol (verify_policy sigs pol).0 ≡ turned
      → gather op (verify_policy sigs pol).1 ≡ (if turned then pol.obj ∷ [] else [])
  gather_if op pol turned e =
      gather-verify_policy op pol ∙ ap (λ b. if b then pol.obj ∷ [] else []) e

  -- The policies of the entries that turn.
  Turning : Operation → Dict PolicyEx → Unstructured → Type 0
  Turning op pols obj =
      (key : String) × (old : PolicyEx) × Elem (key, old) pols
      × (turns op old (verify_policy sigs old).0 ≡ true)
      × (obj ≡ old.obj)

  gather-Turning :
      (op : Operation) (pols : Dict PolicyEx) (obj : Unstructured)
      → Elem obj (gather op (verify_policies sigs pols).changes)
      → Turning op pols obj
  unfolding verify_policies Turning
  gather-Turning op [] obj m = elim m [ ]
  gather-Turning op ((key, pol) ∷ pols) obj m =
      let both = gather-append op (verify_policy sigs pol).1 (verify_policies sigs pols).changes in
      elim (Elem-append obj (gather op (verify_policy sigs pol).1) _ (subst (Elem obj) both m)) [
        | inl n ↦ at_head n
        | inr n ↦
            let (k, old, e, t, same) = gather-Turning op pols obj n in (k, old, inr e, t, same)
      ]
    where
      at_head :
          Elem obj (gather op (verify_policy sigs pol).1)
          → (k : String) × (old : PolicyEx) × Elem (k, old) ((key, pol) ∷ pols)
            × (turns op old (verify_policy sigs old).0 ≡ true)
            × (obj ≡ old.obj)
      at_head n = elim (Bool-cases (turns op pol (verify_policy sigs pol).0)) [
        | inl t ↦ elim (subst (Elem obj) (gather_if op pol true t) n) [
          | inl same ↦ (key, pol, inl refl, t, same)
          | inr none_left ↦ elim none_left [ ]
        ]
        | inr t ↦ elim (subst (Elem obj) (gather_if op pol false t) n) [ ]
      ]

  Turning-gather :
      (op : Operation) (pols : Dict PolicyEx) (obj : Unstructured)
      → Turning op pols obj
      → Elem obj (gather op (verify_policies sigs pols).changes)
  unfolding verify_policies Turning
  Turning-gather op [] obj (k, old, m, t, same) = elim m [ ]
  Turning-gather op ((key, pol) ∷ pols) obj (k, old, m, t, same) =
      subst (Elem obj)
        (sym (gather-append op (verify_policy sigs pol).1 (verify_policies sigs pols).changes))
        (elim m [
          | inl e ↦ Elem-append_left obj _ _ (at_head (ap (λ (x : String × PolicyEx). x.1) e))
          | inr n ↦
              Elem-append_right obj (gather op (verify_policy sigs pol).1) _
                (Turning-gather op pols obj (k, old, n, t, same))
        ])
    where
      at_head : old ≡ pol → Elem obj (gather op (verify_policy sigs pol).1)
      at_head e =
          let turned : turns op pol (verify_policy sigs pol).0 ≡ true =
            (subst (λ x. turns op x (verify_policy sigs x).0 ≡ true) e t) in
          subst (Elem obj) (sym (gather_if op pol true turned))
            (inl (same ∙ ap (λ (x : PolicyEx). x.obj) e))

module _ (ci : ConfigurationImpl) (once : Distinct (keys ci.policies)) (problems : List Problem)
    (change : UserSigChange) where
  abbrev outcome : ConfigurationImpl × UserSigChange × List Problem
  outcome = build_user_sig_change_and_problems ci problems change

  list_under-outcome :
      (op : Operation)
      → list_under op change ≡ []
      → list_under op outcome.1
        ≡ gather op
            (verify_policies (reconcile_user_sigs ci.user_sigs).user_sigs ci.policies).changes
  unfolding build_user_sig_change_and_problems
  list_under-outcome op h = by_op op h
    where
      recon : List Change
      recon = (reconcile_user_sigs ci.user_sigs).changes

      ver : List Change
      ver = (verify_policies (reconcile_user_sigs ci.user_sigs).user_sigs ci.policies).changes

      all_of :
          (o : Operation)
          → list_under o change ≡ []
          → list_under o (collect_changes (recon ++ ver) change) ≡ gather o ver
      all_of o h =
          list_under-collect_changes o (recon ++ ver) change
          ∙ rw (h, gather-append, reconcile_user_sigs-Quiet)

      by_op :
          (o : Operation)
          → list_under o change ≡ []
          → list_under o
              (record (collect_changes (recon ++ ver) change) { user_sigs = outcome.1.user_sigs })
            ≡ gather o ver
      by_op delete h = all_of delete h
      by_op add_or_update h = all_of add_or_update h

  -- A policy that is stored before and after turns.
  abbrev pub Turned : Operation → Unstructured → Type 0
  Turned op obj =
      (key : String) × (old : PolicyEx) × (new : PolicyEx) × (lookup key ci.policies ≡ some old)
      × (lookup key outcome.0.policies ≡ some new)
      × (turns op old new ≡ true)
      × (obj ≡ old.obj)

  -- When no key of a policy occurs twice and the change that is passed lists no policy yet, an
  -- object is listed under the deletions (the additions or updates) of the resulting UserSigChange
  -- exactly when it is that of a stored policy that was valid and is not any more (was not valid and
  -- is now).
  pub build_user_sig_change_and_problems_lem :
      (op : Operation) (obj : Unstructured)
      → list_under op change ≡ []
      → Elem obj (list_under op outcome.1) ↔ Turned op obj
  unfolding build_user_sig_change_and_problems Turning
  build_user_sig_change_and_problems_lem op obj h = (
    (λ m.
        let (key, old, e, t, same) =
          gather-Turning sigs op ci.policies obj (subst (Elem obj) (list_under-outcome op h) m) in
        let found = Elem-lookup key old ci.policies once e in
        (key, old, _, found, verify_policies-lookup sigs ci.policies key old found, t, same)),
    λ (key, old, new, found, after, t, same).
        let (was, e, made) = lookup-verify_policies sigs ci.policies key new after in
        let one = some_inj (sym found ∙ e) in
        subst (Elem obj) (sym (list_under-outcome op h)) (
          Turning-gather sigs op ci.policies obj (
            key,
            old,
            lookup-Elem key old ci.policies found,
            subst (λ x. turns op old x ≡ true) (made ∙ ap (λ x. (verify_policy sigs x).0) (sym one))
                t,
            same,
          )),
  )
    where
      sigs : Dict UserSigEx
      sigs = (reconcile_user_sigs ci.user_sigs).user_sigs
