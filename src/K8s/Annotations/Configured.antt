-- ===== src/K8s/Annotations/Configured.antt =====
-- internal/k8s/validation.go: the table annotationValidations, and the checks that it asks for.
pub mod Accepted
use aspenmesh_k3s_multiclust.Prelude.{String, Bool, true, Option, none, some, List, [], ◌∷◌, ◌++◌}
use aspenmesh_k3s_multiclust.Prelude.Dict.{Dict, lookup, insert, keys}
use aspenmesh_k3s_multiclust.Prelude.Sorting.{sort_strings}
use aspenmesh_k3s_multiclust.Configs.ParsingHelpers.{ParsingLibrary}
use aspenmesh_k3s_multiclust.K8s.FieldErrors.{FieldPath, child, FieldError}
use aspenmesh_k3s_multiclust.K8s.Objects.{HttpPath, Rule, Ingress}
use aspenmesh_k3s_multiclust.K8s.Annotations.{
  AnnotationValidationContext, AnnotationValidationFunc, validate_app_protect_only_annotation,
  validate_bool_annotation, validate_int64_annotation, validate_int_annotation,
  validate_internal_routes_only_annotation, validate_is_bool, validate_is_true,
  validate_lb_method_annotation, validate_mergeable_ingress_type_annotation,
  validate_offset_annotation, validate_plus_only_annotation, validate_port_list_annotation,
  validate_proxy_buffers_annotation, validate_related_annotation, validate_required_annotation,
  validate_rewrite_list_annotation, validate_server_tokens_annotation,
  validate_service_list_annotation, validate_size_annotation,
  validate_sticky_service_list_annotation, validate_time_annotation, validate_uint64_annotation,
}

module _ (lib : ParsingLibrary) where
  unfoldable pub annotation_validations : Dict (List AnnotationValidationFunc)
  annotation_validations =
      (
        "nginx.org/mergeable-ingress-type",
        validate_required_annotation ∷ validate_mergeable_ingress_type_annotation ∷ [],
      )
      ∷ (
        "nginx.org/lb-method",
        validate_required_annotation ∷ validate_lb_method_annotation lib ∷ [],
      )
      ∷ (
        "nginx.com/health-checks",
        validate_plus_only_annotation ∷ validate_required_annotation ∷ validate_bool_annotation
            ∷ [],
      )
      ∷ (
        "nginx.com/health-checks-mandatory",
        validate_plus_only_annotation
            ∷ validate_related_annotation "nginx.com/health-checks" (validate_is_true lib)
            ∷ validate_required_annotation
            ∷ validate_bool_annotation
            ∷ [],
      )
      ∷ (
        "nginx.com/health-checks-mandatory-queue",
        validate_plus_only_annotation
            ∷ validate_related_annotation "nginx.com/health-checks-mandatory" (validate_is_true lib)
            ∷ validate_required_annotation
            ∷ validate_uint64_annotation
            ∷ [],
      )
      ∷ (
        "nginx.com/slow-start",
        validate_plus_only_annotation
            ∷ validate_required_annotation
            ∷ validate_time_annotation lib
            ∷ [],
      )
      ∷ (
        "nginx.org/server-tokens",
        validate_required_annotation ∷ validate_server_tokens_annotation ∷ [],
      )
      ∷ ("nginx.org/server-snippets", [])
      ∷ ("nginx.org/location-snippets", [])
      ∷ (
        "nginx.org/proxy-connect-timeout",
        validate_required_annotation ∷ validate_time_annotation lib ∷ [],
      )
      ∷ (
        "nginx.org/proxy-read-timeout",
        validate_required_annotation ∷ validate_time_annotation lib ∷ [],
      )
      ∷ (
        "nginx.org/proxy-send-timeout",
        validate_required_annotation ∷ validate_time_annotation lib ∷ [],
      )
      ∷ ("nginx.org/proxy-hide-headers", [])
      ∷ ("nginx.org/proxy-pass-headers", [])
      ∷ (
        "nginx.org/client-max-body-size",
        validate_required_annotation ∷ validate_offset_annotation lib ∷ [],
      )
      ∷ (
        "nginx.org/redirect-to-https",
        validate_required_annotation ∷ validate_bool_annotation ∷ [],
      )
      ∷ (
        "ingress.kubernetes.io/ssl-redirect",
        validate_required_annotation ∷ validate_bool_annotation ∷ [],
      )
      ∷ ("nginx.org/proxy-buffering", validate_required_annotation ∷ validate_bool_annotation ∷ [])
      ∷ ("nginx.org/hsts", validate_required_annotation ∷ validate_bool_annotation ∷ [])
      ∷ (
        "nginx.org/hsts-max-age",
        validate_related_annotation "nginx.org/hsts" (validate_is_bool lib)
            ∷ validate_required_annotation
            ∷ validate_int64_annotation
            ∷ [],
      )
      ∷ (
        "nginx.org/hsts-include-subdomains",
        validate_related_annotation "nginx.org/hsts" (validate_is_bool lib)
            ∷ validate_required_annotation
            ∷ validate_bool_annotation
            ∷ [],
      )
      ∷ (
        "nginx.org/hsts-behind-proxy",
        validate_related_annotation "nginx.org/hsts" (validate_is_bool lib)
            ∷ validate_required_annotation
            ∷ validate_bool_annotation
            ∷ [],
      )
      ∷ (
        "nginx.org/proxy-buffers",
        validate_required_annotation ∷ validate_proxy_buffers_annotation lib ∷ [],
      )
      ∷ (
        "nginx.org/proxy-buffer-size",
        validate_required_annotation ∷ validate_size_annotation lib ∷ [],
      )
      ∷ (
        "nginx.org/proxy-max-temp-file-size",
        validate_required_annotation ∷ validate_size_annotation lib ∷ [],
      )
      ∷ (
        "nginx.org/upstream-zone-size",
        validate_required_annotation ∷ validate_size_annotation lib ∷ [],
      )
      ∷ ("nginx.com/jwt-realm", validate_plus_only_annotation ∷ [])
      ∷ ("nginx.com/jwt-key", validate_plus_only_annotation ∷ [])
      ∷ ("nginx.com/jwt-token", validate_plus_only_annotation ∷ [])
      ∷ ("nginx.com/jwt-login-url", validate_plus_only_annotation ∷ [])
      ∷ (
        "nginx.org/listen-ports",
        validate_required_annotation ∷ validate_port_list_annotation lib ∷ [],
      )
      ∷ (
        "nginx.org/listen-ports-ssl",
        validate_required_annotation ∷ validate_port_list_annotation lib ∷ [],
      )
      ∷ ("nginx.org/keepalive", validate_required_annotation ∷ validate_int_annotation ∷ [])
      ∷ ("nginx.org/max-fails", validate_required_annotation ∷ validate_uint64_annotation ∷ [])
      ∷ ("nginx.org/max-conns", validate_required_annotation ∷ validate_uint64_annotation ∷ [])
      ∷ ("nginx.org/fail-timeout", validate_required_annotation ∷ validate_time_annotation lib ∷ [])
      ∷ (
        "appprotect.f5.com/app-protect-enable",
        validate_app_protect_only_annotation ∷ validate_required_annotation
            ∷ validate_bool_annotation ∷ [],
      )
      ∷ (
        "appprotect.f5.com/app-protect-security-log-enable",
        validate_app_protect_only_annotation ∷ validate_required_annotation
            ∷ validate_bool_annotation ∷ [],
      )
      ∷ (
        "nsm.nginx.com/internal-route",
        validate_internal_routes_only_annotation ∷ validate_required_annotation
            ∷ validate_bool_annotation ∷ [],
      )
      ∷ (
        "nginx.org/websocket-services",
        validate_required_annotation ∷ validate_service_list_annotation lib ∷ [],
      )
      ∷ (
        "nginx.org/ssl-services",
        validate_required_annotation ∷ validate_service_list_annotation lib ∷ [],
      )
      ∷ (
        "nginx.org/grpc-services",
        validate_required_annotation ∷ validate_service_list_annotation lib ∷ [],
      )
      ∷ (
        "nginx.org/rewrites",
        validate_required_annotation ∷ validate_rewrite_list_annotation lib ∷ [],
      )
      ∷ (
        "nginx.com/sticky-cookie-services",
        validate_plus_only_annotation
            ∷ validate_required_annotation
            ∷ validate_sticky_service_list_annotation lib
            ∷ [],
      )
      ∷ []

  unfoldable pub annotation_names : List String
  unfolding annotation_validations
  annotation_names = sort_strings (keys annotation_validations)

-- The loop over the checks of one annotation, which ends with the first that fails.
unfoldable pub run_validations :
    List AnnotationValidationFunc → AnnotationValidationContext → List FieldError
run_validations [] context = []
run_validations (validation ∷ validations) context =
    let rest = run_validations validations context in
    elim (validation context) [ [] ↦ rest | e ∷ es ↦ e ∷ es ]

module _ (lib : ParsingLibrary) where
  unfoldable pub validate_ingress_annotation : AnnotationValidationFunc
  unfolding annotation_validations run_validations
  validate_ingress_annotation context = elim (lookup context.name (annotation_validations lib)) [
    | none ↦ []
    | some validations ↦ run_validations validations context
  ]

  module _ (annotations : Dict String) (spec_services : Dict Bool)
      (is_plus app_protect_enabled internal_routes_enabled : Bool) (path : FieldPath) where
    abbrev pub context_of : (name value : String) → AnnotationValidationContext
    context_of name value = record {
      annotations = annotations;
      spec_services = spec_services;
      name = name;
      value = value;
      is_plus = is_plus;
      app_protect_enabled = app_protect_enabled;
      internal_routes_enabled = internal_routes_enabled;
      field_path = child path name;
    }

    -- The loop over the names.
    unfoldable pub validate_names : List String → List FieldError
    unfolding validate_ingress_annotation
    validate_names [] = []
    validate_names (name ∷ names) =
        let rest = validate_names names in
        elim (lookup name annotations) [
          | none ↦ rest
          | some value ↦ validate_ingress_annotation (context_of name value) ++ rest
        ]

    unfoldable pub validate_ingress_annotations : List FieldError
    unfolding validate_names annotation_names
    validate_ingress_annotations = validate_names (annotation_names lib)

abbrev path_services : List HttpPath → Dict Bool → Dict Bool
path_services [] services = services
path_services (p ∷ paths) services = path_services paths (insert p.service_name true services)

abbrev rule_services : List Rule → Dict Bool → Dict Bool
rule_services [] services = services
rule_services (rule ∷ rules) services = elim rule.http [
  | none ↦ rule_services rules services
  | some paths ↦ rule_services rules (path_services paths services)
]

-- A set, as a map to true.
unfoldable pub get_spec_services : Ingress → Dict Bool
get_spec_services ing =
    rule_services ing.rules (elim ing.backend [ none ↦ [] | some name ↦ (name, true) ∷ [] ])
