-- ===== src/K8s/Validation.antt =====
-- internal/k8s/validation.go, validateIngress and the checks of the spec; those of the annotations
-- are in K8s.Annotations, and their errors come first.
pub mod Accepted
pub mod Annotated
use aspenmesh_k3s_multiclust.Prelude.{
  ℕ, suc, ◌+◌, String, Bool, not, ◌&&◌, ◌||◌, Option, none, some, List, [], ◌∷◌, ◌++◌, ◌==◌,
  if◌then◌else◌, length, any, eqb, ltb,
}
use aspenmesh_k3s_multiclust.K8s.Objects.{Ingress, Rule, HttpPath, is_minion, is_master}
use aspenmesh_k3s_multiclust.K8s.FieldErrors.{
  FieldPath, new_path, child, index, FieldError, required, duplicate, too_many,
}
use aspenmesh_k3s_multiclust.Prelude.Dict.{Dict}
use aspenmesh_k3s_multiclust.K8s.Annotations.Configured.{
  validate_ingress_annotations, get_spec_services,
}
use aspenmesh_k3s_multiclust.K8s.State.{Settings}

-- The loop over the rules: `i` is the index, `seen` the set allHosts.
unfoldable pub validate_hosts : FieldPath → ℕ → List String → List Rule → List FieldError
validate_hosts path i seen [] = []
validate_hosts path i seen (r ∷ rules) =
    let host_path = child (index (child path "rules") i) "host" in
    let rest = validate_hosts path (suc i) seen rules in
    let rest_with = validate_hosts path (suc i) (r.host ∷ seen) rules in
    if r.host == ""
    then required host_path "" ∷ rest
    else (if any (λ h. h == r.host) seen then duplicate host_path r.host ∷ rest else rest_with)

unfoldable pub validate_ingress_spec : FieldPath → Ingress → List FieldError
unfolding validate_hosts
validate_ingress_spec path ing = elim ing.rules [
  | [] ↦ required (child path "rules") "" ∷ []
  | rule ∷ rules ↦ validate_hosts path 0 [] (rule ∷ rules)
]

-- The paths of a rule; none when the rule has no HTTP section.
abbrev pub paths_of : Rule → List HttpPath
paths_of rule = elim rule.http [ none ↦ [] | some paths ↦ paths ]

abbrev first_paths : FieldPath → FieldPath
first_paths path = child (child (index (child path "rules") 0) "http") "paths"

unfoldable pub validate_master_spec : FieldPath → Ingress → List FieldError
validate_master_spec path ing = elim ing.rules [
  | rule ∷ [] ↦
      if ltb 0 (length (paths_of rule))
      then too_many (first_paths path) (length (paths_of rule)) 0 ∷ []
      else []
  | rules ↦ too_many (child path "rules") (length rules) 1 ∷ []
]

tls_errors : FieldPath → Ingress → List FieldError
tls_errors path ing =
    if ltb 0 (length ing.tls_secrets)
    then too_many (child path "tls") (length ing.tls_secrets) 0 ∷ []
    else []

rule_errors : FieldPath → List Rule → List FieldError
rule_errors path (rule ∷ []) =
    if eqb (length (paths_of rule)) 0
    then required (first_paths path) "must include at least one path" ∷ []
    else []
rule_errors path rules = too_many (child path "rules") (length rules) 1 ∷ []

unfoldable pub validate_minion_spec : FieldPath → Ingress → List FieldError
unfolding tls_errors rule_errors
validate_minion_spec path ing = tls_errors path ing ++ rule_errors path ing.rules

kind_errors : Ingress → List FieldError
unfolding validate_master_spec validate_minion_spec
kind_errors ing =
    if is_master ing
    then validate_master_spec (new_path "spec") ing
    else (if is_minion ing then validate_minion_spec (new_path "spec") ing else [])

abbrev pub annotations_of : Ingress → Dict String
annotations_of ing = elim ing.meta.annotations [ none ↦ [] | some m ↦ m ]

unfoldable pub annotation_errors : Settings → Ingress → List FieldError
unfolding validate_ingress_annotations get_spec_services
annotation_errors env ing =
    validate_ingress_annotations env.parsing (annotations_of ing) (get_spec_services ing)
      env.is_plus env.app_protect_enabled env.internal_routes_enabled (new_path "annotations")

unfoldable pub validate_ingress : Settings → Ingress → List FieldError
unfolding annotation_errors validate_ingress_spec kind_errors
validate_ingress env ing =
    annotation_errors env ing ++ validate_ingress_spec (new_path "spec") ing ++ kind_errors ing
