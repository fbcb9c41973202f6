-- ===== src/K8s/Operations/Errors.antt =====
-- Reporting an error leaves the state, and what the changes do.
use aspenmesh_k3s_multiclust.Prelude.{
  String, ◌≡◌, refl, sym, ap, ◌∙◌, inl, inr, Option, none, some, List, [], ◌∷◌, ◌==◌, >>=-eq-some,
  some_inj, Bool-cases,
}
use aspenmesh_k3s_multiclust.K8s.State.{Object, ResourceChange}
use aspenmesh_k3s_multiclust.K8s.Changes.{key_of}
use aspenmesh_k3s_multiclust.K8s.Changes.Deploy.{Deployed, apply_change, apply_changes}
use aspenmesh_k3s_multiclust.K8s.Rebuild.{Outcome}
use aspenmesh_k3s_multiclust.K8s.Rebuild.Effect.{state_of, changes_of}
use aspenmesh_k3s_multiclust.K8s.Operations.{attach_error, reported, rejection, report_error}

attach_error-apply_changes :
    (key err : String) (cs ds : List ResourceChange) (d : Deployed)
    → attach_error key err cs ≡ some ds
    → apply_changes ds d ≡ apply_changes cs d
unfolding attach_error apply_changes
attach_error-apply_changes key err [] ds d e = cc
attach_error-apply_changes key err (c ∷ cs) ds d e = elim (Bool-cases (key_of c == key)) [
  | inl t ↦ ap (λ xs. apply_changes xs d) (sym (some_inj (rw t at e)))
  | inr t ↦
      let (rest, er, last) = >>=-eq-some (attach_error key err cs) _ (rw t at e) in
      ap (λ xs. apply_changes xs d) (sym (some_inj last))
      ∙ attach_error-apply_changes key err cs rest (apply_change c d) er
]

pub report_error-state :
    (key : String) (object : Object) (err : Option String) (message : String → String)
    (out : Outcome)
    → state_of (report_error key object err message out) ≡ state_of out
unfolding report_error
report_error-state key object none message (c, changes, problems) = refl
report_error-state key object (some err) message (c, changes, problems) =
    by_change (attach_error key err changes)
  where
    by_change :
        (o : Option (List ResourceChange))
        → state_of (reported (c, changes, problems) (rejection object (message err)) o) ≡ c
    by_change none = refl
    by_change (some ds) = refl

-- Reporting a validation error, or none, leaves what the changes do to the deployed configuration.
pub report_error-apply_changes :
    (key : String) (object : Object) (err : Option String) (message : String → String)
    (out : Outcome) (d : Deployed)
    → apply_changes (changes_of (report_error key object err message out)) d
      ≡ apply_changes (changes_of out) d
unfolding report_error
report_error-apply_changes key object none message (c, changes, problems) d = refl
report_error-apply_changes key object (some err) message (c, changes, problems) d =
    by_change (attach_error key err changes) refl
  where
    by_change :
        (o : Option (List ResourceChange))
        → attach_error key err changes ≡ o
        → apply_changes
            (changes_of (reported (c, changes, problems) (rejection object (message err)) o))
            d
          ≡ apply_changes changes d
    by_change none e = refl
    by_change (some ds) e = attach_error-apply_changes key err changes ds d e
