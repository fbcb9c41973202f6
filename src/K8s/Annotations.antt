-- ===== src/K8s/Annotations.antt =====
-- internal/k8s/validation.go: the checks of the annotations of an Ingress.
pub mod Configured
use aspenmesh_k3s_multiclust.Prelude.{
  String, Bool, true, false, not, ◌&&◌, Option, none, some, List, [], ◌∷◌, ◌++◌, ◌==◌, is_some,
  if◌then◌else◌,
}
use aspenmesh_k3s_multiclust.Prelude.Texts.{concat}
use aspenmesh_k3s_multiclust.Prelude.Dict.{Dict, lookup, insert, keys}
use aspenmesh_k3s_multiclust.Prelude.Sorting.{sort_strings}
use aspenmesh_k3s_multiclust.Prelude.Results.{Result, ok, err}
use aspenmesh_k3s_multiclust.Prelude.Decimal.{parse_int, parse_uint}
use aspenmesh_k3s_multiclust.Prelude.Strings.{join}
use aspenmesh_k3s_multiclust.Configs.ParsingHelpers.{
  ParsingLibrary, parse_bool, parse_lb_method, parse_lb_method_for_plus, parse_time, parse_offset,
  parse_size, parse_proxy_buffers_spec, parse_port_list, parse_service_list, parse_rewrite_list,
  parse_sticky_service_list,
}
use aspenmesh_k3s_multiclust.K8s.FieldErrors.{
  FieldPath, child, FieldError, required, invalid, forbidden,
}
use aspenmesh_k3s_multiclust.K8s.Objects.{HttpPath, Rule, Ingress}

pub record AnnotationValidationContext : Type 0 where
  pub annotations : Dict String
  pub spec_services : Dict Bool
  pub name : String
  pub value : String
  pub is_plus : Bool
  pub app_protect_enabled : Bool
  pub internal_routes_enabled : Bool
  pub field_path : FieldPath

abbrev pub AnnotationValidationFunc : Type 0
AnnotationValidationFunc = AnnotationValidationContext → List FieldError

abbrev pub is_ok : {A : Type 0} → Result A → Bool
is_ok (ok a) = true
is_ok (err e) = false

-- An error about the value when it is not parsed.
abbrev pub unless : (parsed : Bool) → AnnotationValidationContext → String → List FieldError
unless true context message = []
unless false context message = invalid context.field_path context.value message ∷ []

-- An error about the annotation when it is not allowed.
abbrev pub allow : (allowed : Bool) → AnnotationValidationContext → String → List FieldError
allow true context message = []
allow false context message = forbidden context.field_path message ∷ []

unfoldable pub validate_mergeable_ingress_type_annotation : AnnotationValidationFunc
validate_mergeable_ingress_type_annotation context =
    if not (context.value == "master") && not (context.value == "minion")
    then unless false context "must be one of: 'master' or 'minion'"
    else []

unfoldable pub validate_server_tokens_annotation : AnnotationValidationFunc
unfolding parse_bool
validate_server_tokens_annotation context =
    if not context.is_plus
    then unless (is_some (parse_bool context.value)) context "must be a boolean"
    else []

unfoldable pub validate_required_annotation : AnnotationValidationFunc
validate_required_annotation context =
    if context.value == "" then required context.field_path "" ∷ [] else []

unfoldable pub validate_plus_only_annotation : AnnotationValidationFunc
validate_plus_only_annotation context =
    allow context.is_plus context "annotation requires NGINX Plus"

unfoldable pub validate_app_protect_only_annotation : AnnotationValidationFunc
validate_app_protect_only_annotation context =
    allow context.app_protect_enabled context "annotation requires AppProtect"

unfoldable pub validate_internal_routes_only_annotation : AnnotationValidationFunc
validate_internal_routes_only_annotation context =
    allow context.internal_routes_enabled context "annotation requires Internal Routes enabled"

unfoldable pub validate_bool_annotation : AnnotationValidationFunc
validate_bool_annotation context =
    unless (is_some (parse_bool context.value)) context "must be a boolean"

unfoldable pub validate_uint64_annotation : AnnotationValidationFunc
validate_uint64_annotation context =
    unless (is_some (parse_uint 64 context.value)) context "must be a non-negative integer"

unfoldable pub validate_int64_annotation : AnnotationValidationFunc
validate_int64_annotation context =
    unless (is_some (parse_int 63 context.value)) context "must be an integer"

unfoldable pub validate_int_annotation : AnnotationValidationFunc
validate_int_annotation context =
    unless (is_some (parse_int 63 context.value)) context "must be an integer"

-- The names of the services that the Ingress does not have.
unfoldable pub unknown_services : Dict Bool → (annotation_services : Dict Bool) → List String
unknown_services spec_services [] = []
unknown_services spec_services ((svc, here) ∷ services) =
    let rest = unknown_services spec_services services in
    if is_some (lookup svc spec_services) then rest else svc ∷ rest

-- `validator` returns the text of an error, or none.
abbrev pub validate_related_annotation :
    String → (validator : String → Option String) → AnnotationValidationFunc
validate_related_annotation name validator context = elim (lookup name context.annotations) [
  | none ↦ allow false context (concat ("related annotation " ∷ name ∷ ": must be set" ∷ []))
  | some val ↦ elim (validator val) [
    | none ↦ []
    | some e ↦ allow false context (concat ("related annotation " ∷ name ∷ ": " ∷ e ∷ []))
  ]
]

module _ (lib : ParsingLibrary) where
  unfoldable pub validate_is_bool : String → Option String
  unfolding parse_bool
  validate_is_bool v = elim (parse_bool v) [ some b ↦ none | none ↦ some (lib.bool_error v) ]

  unfoldable pub validate_is_true : String → Option String
  unfolding parse_bool
  validate_is_true v = elim (parse_bool v) [
    | some true ↦ none
    | some false ↦ some "must be true"
    | none ↦ some (lib.bool_error v)
  ]

  abbrev unless_error : Result String → AnnotationValidationContext → List FieldError
  unless_error (ok a) context = []
  unless_error (err e) context = unless false context e

  unfoldable pub validate_lb_method_annotation : AnnotationValidationFunc
  validate_lb_method_annotation context =
      if context.is_plus
      then unless_error (parse_lb_method_for_plus lib context.value) context
      else unless_error (parse_lb_method lib context.value) context

  unfoldable pub validate_time_annotation : AnnotationValidationFunc
  validate_time_annotation context =
      unless (is_ok (parse_time lib context.value)) context "must be a time"

  unfoldable pub validate_offset_annotation : AnnotationValidationFunc
  validate_offset_annotation context =
      unless (is_ok (parse_offset lib context.value)) context "must be an offset"

  unfoldable pub validate_size_annotation : AnnotationValidationFunc
  validate_size_annotation context =
      unless (is_ok (parse_size lib context.value)) context "must be a size"

  unfoldable pub validate_proxy_buffers_annotation : AnnotationValidationFunc
  validate_proxy_buffers_annotation context =
      unless (is_ok (parse_proxy_buffers_spec lib context.value)) context
        "must be a proxy buffer spec"

  unfoldable pub validate_port_list_annotation : AnnotationValidationFunc
  validate_port_list_annotation context =
      unless (is_ok (parse_port_list lib context.value)) context
        "must be a comma-separated list of port numbers"

  unfoldable pub validate_sticky_service_list_annotation : AnnotationValidationFunc
  validate_sticky_service_list_annotation context =
      unless (is_ok (parse_sticky_service_list lib context.value)) context
        "must be a semicolon-separated list of sticky services"

  unfoldable pub validate_rewrite_list_annotation : AnnotationValidationFunc
  validate_rewrite_list_annotation context =
      unless (is_ok (parse_rewrite_list lib context.value)) context
        "must be a semicolon-separated list of rewrites"

  unfoldable pub validate_service_list_annotation : AnnotationValidationFunc
  unfolding parse_service_list unknown_services
  validate_service_list_annotation context =
      elim (unknown_services context.spec_services (parse_service_list lib context.value)) [
        | [] ↦ []
        | svc ∷ services ↦ unless false context (
            concat (
              "must be a comma-separated list of services. "
              ∷ "The following services were not found: "
              ∷ join "," (svc ∷ services)
              ∷ []))
      ]
