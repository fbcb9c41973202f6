-- ===== src/K8s/Problems/Reported.antt =====
-- detectChangesInProblems: which problems are reported to the user.
use aspenmesh_k3s_multiclust.Prelude.{
  String, ◌≡◌, ◌↔◌, refl, sym, ap, ◌∙◌, subst, ◌⊎◌, inl, inr, Bool, true, false, bool_eq, eq_iff,
  arith, Option, none, some, List, [], ◌∷◌, Elem, Elem-append, Elem-append_left, Elem-append_right,
  Bool-cases, if◌then◌else◌, some_inj,
}
use aspenmesh_k3s_multiclust.Prelude.Dict.{Dict, lookup, keys, lookup-keys}
use aspenmesh_k3s_multiclust.Prelude.Sorting.{sort_strings, sort_strings-Elem}
use aspenmesh_k3s_multiclust.K8s.State.{ConfigurationProblem}
use aspenmesh_k3s_multiclust.K8s.Problems.{
  compare_configuration_problems, is_same_problem, changed_problem, detect_changes,
  detect_changes_in_problems,
}

-- The two are of one kind, and give the same reason and message; the object is not compared.
pub record SaysTheSame (p q : ConfigurationProblem) : Type 0 where
  pub kind : p.is_error ≡ q.is_error
  pub reason : p.reason ≡ q.reason
  pub message : p.message ≡ q.message

-- There was no problem, or one that differs in its kind, reason or message.
abbrev pub IsNews : ConfigurationProblem → Option ConfigurationProblem → Type 0
IsNews p old = (old ≡ none) ⊎ ((q : ConfigurationProblem) × (old ≡ some q) × ¬ (SaysTheSame p q))

bool_eq_iff : (a b : Bool) → (bool_eq a b ≡ true) ↔ (a ≡ b)
bool_eq_iff true true = ((λ h. refl), λ h. refl)
bool_eq_iff true false = ((λ h. cc), λ h. cc)
bool_eq_iff false true = ((λ h. cc), λ h. cc)
bool_eq_iff false false = ((λ h. refl), λ h. refl)

compare_configuration_problems_iff :
    (p q : ConfigurationProblem) → (compare_configuration_problems p q ≡ true) ↔ SaysTheSame p q
unfolding compare_configuration_problems
compare_configuration_problems_iff p q = (
  (λ h. record {
    kind = (bool_eq_iff p.is_error q.is_error).0 (ground arith);
    reason = (eq_iff p.reason q.reason).0 (ground arith);
    message = (eq_iff p.message q.message).0 (ground arith);
  }),
  λ same. rw (
    (bool_eq_iff p.is_error q.is_error).1 same.kind,
    (eq_iff p.reason q.reason).1 same.reason,
    (eq_iff p.message q.message).1 same.message,
  ),
)

is_same_problem-IsNews :
    (p : ConfigurationProblem) (old : Option ConfigurationProblem)
    → is_same_problem p old ≡ false
    → IsNews p old
is_same_problem-IsNews p none h = inl refl
is_same_problem-IsNews p (some q) h =
    inr (q, refl, λ same. cc ((compare_configuration_problems_iff p q).1 same, h))

IsNews-is_same_problem :
    (p : ConfigurationProblem) (old : Option ConfigurationProblem)
    → IsNews p old
    → is_same_problem p old ≡ false
IsNews-is_same_problem p none h = refl
IsNews-is_same_problem p (some q) (inl e) = cc
IsNews-is_same_problem p (some q) (inr (r, e, h)) =
    elim (Bool-cases (compare_configuration_problems p q)) [
      | inl t ↦
          absurd
            (h (subst (SaysTheSame p) (some_inj e) ((compare_configuration_problems_iff p q).0 t)))
      | inr t ↦ t
    ]

Elem-changed_problem :
    (p : ConfigurationProblem) (new old : Option ConfigurationProblem)
    → Elem p (changed_problem new old)
    → (new ≡ some p) × IsNews p old
Elem-changed_problem p none old m = elim m [ ]
Elem-changed_problem p (some q) old m = by_test (Bool-cases (is_same_problem q old)) m
  where
    kept : is_same_problem q old ≡ false → Elem p (q ∷ []) → (some q ≡ some p) × IsNews p old
    kept f (inl e) =
        (ap some (sym e), subst (λ x. IsNews x old) (sym e) (is_same_problem-IsNews q old f))
    kept f (inr n) = elim n [ ]

    by_test :
        (is_same_problem q old ≡ true) ⊎ (is_same_problem q old ≡ false)
        → Elem p (if is_same_problem q old then [] else q ∷ [])
        → (some q ≡ some p) × IsNews p old
    by_test (inl t) m = let n : Elem p [] = (rw t at m) in elim n [ ]
    by_test (inr f) m = kept f (rw f at m)

changed_problem-Elem :
    (p : ConfigurationProblem) (new old : Option ConfigurationProblem)
    → new ≡ some p
    → IsNews p old
    → Elem p (changed_problem new old)
changed_problem-Elem p none old e h = cc
changed_problem-Elem p (some q) old e h =
    rw (ap (λ x. is_same_problem x old) (some_inj e) ∙ IsNews-is_same_problem p old h)
      (inl (sym (some_inj e)))

-- A problem is news under one of the keys.
abbrev FoundAt :
    List String
    → Dict ConfigurationProblem
    → Dict ConfigurationProblem
    → ConfigurationProblem
    → Type 0
FoundAt ks new old p = (k : String) × Elem k ks × (lookup k new ≡ some p) × IsNews p (lookup k old)

Elem-detect_changes :
    (p : ConfigurationProblem) (ks : List String) (new old : Dict ConfigurationProblem)
    → Elem p (detect_changes ks new old)
    → FoundAt ks new old p
unfolding detect_changes
Elem-detect_changes p [] new old m = elim m [ ]
Elem-detect_changes p (k ∷ ks) new old m =
    elim (Elem-append p (changed_problem (lookup k new) (lookup k old)) (detect_changes ks new old)
      m) [
        | inl n ↦
            let (e, h) = Elem-changed_problem p (lookup k new) (lookup k old) n in
            (k, inl refl, e, h)
        | inr n ↦ let (j, mj, e, h) = Elem-detect_changes p ks new old n in (j, inr mj, e, h)
      ]

detect_changes-Elem :
    (p : ConfigurationProblem) (k : String) (ks : List String) (new old : Dict ConfigurationProblem)
    → Elem k ks
    → lookup k new ≡ some p
    → IsNews p (lookup k old)
    → Elem p (detect_changes ks new old)
unfolding detect_changes
detect_changes-Elem p k [] new old m e h = elim m [ ]
detect_changes-Elem p k (j ∷ ks) new old (inl same) e h =
    Elem-append_left p (changed_problem (lookup j new) (lookup j old)) (detect_changes ks new old) (
      changed_problem-Elem p (lookup j new) (lookup j old) (ap (λ x. lookup x new) (sym same) ∙ e)
        (subst (λ x. IsNews p (lookup x old)) same h))
detect_changes-Elem p k (j ∷ ks) new old (inr m) e h =
    Elem-append_right p (changed_problem (lookup j new) (lookup j old)) (detect_changes ks new old)
      (detect_changes-Elem p k ks new old m e h)

-- For any new and old problems, a problem is returned exactly when it stands under some key of the
-- new ones and the old ones have none under that key, or one that has not the same kind, reason and
-- message.
pub detect_changes_in_problems_lem :
    (new old : Dict ConfigurationProblem) (p : ConfigurationProblem)
    → Elem p (detect_changes_in_problems new old)
      ↔ ((k : String) × (lookup k new ≡ some p) × IsNews p (lookup k old))
unfolding detect_changes_in_problems
detect_changes_in_problems_lem new old p = (
  λ m. let (k, mk, e, h) = Elem-detect_changes p (sort_strings (keys new)) new old m in (k, e, h),
  λ found. back found.0 found.1 found.2,
)
  where
    back :
        (k : String)
        → lookup k new ≡ some p
        → IsNews p (lookup k old)
        → Elem p (detect_changes (sort_strings (keys new)) new old)
    back k e h =
        detect_changes-Elem p k (sort_strings (keys new)) new old
          (sort_strings-Elem k (keys new) (lookup-keys k p new e)) e h
