-- ===== src/K8s/Examples/AnnotationWitnesses.antt =====
-- Ingresses with annotations, and the theorems about their validation at them.
use aspenmesh_k3s_multiclust.Prelude.{
  ℕ, ◌<◌, String, ◌≡◌, ◌↔◌, refl, true, false, some, List, [], ◌∷◌, Elem,
}
use aspenmesh_k3s_multiclust.Prelude.Dict.{Dict, lookup}
use aspenmesh_k3s_multiclust.Prelude.Sorting.{sort_strings}
use aspenmesh_k3s_multiclust.Prelude.Results.{ok}
use aspenmesh_k3s_multiclust.Prelude.Integers.{ℤ, pos}
use aspenmesh_k3s_multiclust.Configs.ParsingHelpers.{parse_bool, parse_port_list}
use aspenmesh_k3s_multiclust.K8s.FieldErrors.{new_path}
use aspenmesh_k3s_multiclust.K8s.Objects.{Ingress, annotation, is_master, is_minion}
use aspenmesh_k3s_multiclust.K8s.State.{Settings}
use aspenmesh_k3s_multiclust.Prelude.Decimal.{parse_int}
use aspenmesh_k3s_multiclust.Prelude.Strings.{split}
use aspenmesh_k3s_multiclust.K8s.Annotations.{
  validate_plus_only_annotation, validate_required_annotation, validate_bool_annotation,
  validate_is_true, validate_port_list_annotation,
}
use aspenmesh_k3s_multiclust.K8s.Annotations.Configured.{
  get_spec_services, validate_ingress_annotations,
}
use aspenmesh_k3s_multiclust.K8s.Annotations.Configured.Accepted.{
  ArePassed, validate_ingress_annotations_lem,
}
use aspenmesh_k3s_multiclust.K8s.Validation.{validate_ingress}
use aspenmesh_k3s_multiclust.K8s.Validation.Annotated.{
  validate_ingress-listen_ports, validate_ingress-health_checks_mandatory,
}
use aspenmesh_k3s_multiclust.K8s.Examples.{parsing, settings, cafe_ingress}

abbrev plus : Settings
plus = record settings { is_plus = true }

abbrev set_annotations : Dict String
set_annotations =
    ("nginx.org/listen-ports", "8080,9090")
    ∷ ("nginx.com/health-checks", "true")
    ∷ ("nginx.com/health-checks-mandatory", "false")
    ∷ []

abbrev annotated : Ingress
annotated = record cafe_ingress {
  meta = record cafe_ingress.meta { annotations = some set_annotations };
}

annotated-valid : validate_ingress plus annotated ≡ []
unfolding validate_ingress is_master is_minion sort_strings lookup validate_plus_only_annotation
    validate_required_annotation validate_bool_annotation parse_bool validate_is_true
    validate_port_list_annotation parse_port_list split parse_int
annotated-valid = refl

annotated-ports : annotation annotated.meta "nginx.org/listen-ports" ≡ some "8080,9090"
unfolding annotation lookup
annotated-ports = refl

annotated-mandatory : annotation annotated.meta "nginx.com/health-checks-mandatory" ≡ some "false"
unfolding annotation lookup
annotated-mandatory = refl

validate_ingress-listen_ports_example :
    (ports : List ℤ) × (parse_port_list parsing "8080,9090" ≡ ok ports)
    × ((p : ℤ) → Elem p ports → (n : ℕ) × (p ≡ pos n) × (0 < n) × (n < 32768))
validate_ingress-listen_ports_example =
    validate_ingress-listen_ports plus annotated "8080,9090" annotated-valid annotated-ports

validate_ingress-health_checks_mandatory_example :
    (plus.is_plus ≡ true)
    × ((v : String) × (annotation annotated.meta "nginx.com/health-checks" ≡ some v)
        × (parse_bool v ≡ some true))
validate_ingress-health_checks_mandatory_example =
    validate_ingress-health_checks_mandatory plus annotated "false" annotated-valid
      annotated-mandatory

validate_ingress_annotations_lem_example :
    (validate_ingress_annotations parsing set_annotations
        (get_spec_services annotated)
        true
        false
        false
        (new_path "annotations")
      ≡ [])
    ↔ ArePassed parsing set_annotations
        (get_spec_services annotated)
        true
        false
        false
        (new_path "annotations")
validate_ingress_annotations_lem_example =
    validate_ingress_annotations_lem parsing set_annotations (get_spec_services annotated) true
      false false (new_path "annotations")
