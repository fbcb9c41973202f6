-- ===== src/K8s/Validation/Annotated.antt =====
-- validateIngress: what the annotations of an Ingress that it accepts hold.
use aspenmesh_k3s_multiclust.Prelude.{
  ℕ, ◌<◌, String, ◌≡◌, refl, inl, inr, Bool, true, false, Option, none, some, List, [], ◌++◌,
  append-empty, Elem, Option-cases,
}
use aspenmesh_k3s_multiclust.Prelude.Dict.{Dict, lookup}
use aspenmesh_k3s_multiclust.Prelude.Results.{Result, ok, err}
use aspenmesh_k3s_multiclust.Prelude.Integers.{ℤ, pos}
use aspenmesh_k3s_multiclust.Configs.ParsingHelpers.{parse_bool, parse_port_list}
use aspenmesh_k3s_multiclust.Configs.ParsingHelpers.Ports.{parse_port_list-IsParsed}
use aspenmesh_k3s_multiclust.K8s.FieldErrors.{new_path}
use aspenmesh_k3s_multiclust.K8s.Objects.{Ingress, annotation}
use aspenmesh_k3s_multiclust.K8s.State.{Settings}
use aspenmesh_k3s_multiclust.K8s.Annotations.{
  AnnotationValidationContext, AnnotationValidationFunc, is_ok, unless, allow,
  validate_plus_only_annotation, validate_related_annotation, validate_is_true,
  validate_port_list_annotation,
}
use aspenmesh_k3s_multiclust.K8s.Annotations.Configured.{
  annotation_validations, context_of, get_spec_services,
}
use aspenmesh_k3s_multiclust.K8s.Annotations.Configured.Accepted.{validate_ingress_annotations_lem}
use aspenmesh_k3s_multiclust.K8s.Validation.{
  annotations_of, annotation_errors, validate_ingress, validate_ingress_spec,
}

unless-true :
    (b : Bool) (context : AnnotationValidationContext) (message : String)
    → unless b context message ≡ []
    → b ≡ true
unless-true true context message h = refl
unless-true false context message h = cc

allow-true :
    (b : Bool) (context : AnnotationValidationContext) (message : String)
    → allow b context message ≡ []
    → b ≡ true
allow-true true context message h = refl
allow-true false context message h = cc

is_ok-ok : {A : Type 0} (r : Result A) → is_ok r ≡ true → (a : A) × (r ≡ ok a)
is_ok-ok (ok a) h = (a, refl)
is_ok-ok (err e) h = cc

module _ (env : Settings) (ing : Ingress) where
  set-lookup :
      (name value : String)
      → annotation ing.meta name ≡ some value
      → lookup name (annotations_of ing) ≡ some value
  unfolding annotation lookup
  set-lookup name value h = by_map ing.meta.annotations h
    where
      by_map :
          (o : Option (Dict String))
          → elim o [ none ↦ none | some m ↦ lookup name m ] ≡ some value
          → lookup name (elim o [ none ↦ [] | some m ↦ m ]) ≡ some value
      by_map none h = cc
      by_map (some m) h = h

  lookup-set :
      (name value : String)
      → lookup name (annotations_of ing) ≡ some value
      → annotation ing.meta name ≡ some value
  unfolding annotation lookup
  lookup-set name value h = by_map ing.meta.annotations h
    where
      by_map :
          (o : Option (Dict String))
          → lookup name (elim o [ none ↦ [] | some m ↦ m ]) ≡ some value
          → elim o [ none ↦ none | some m ↦ lookup name m ] ≡ some value
      by_map none h = h
      by_map (some m) h = h

  abbrev context : (name value : String) → AnnotationValidationContext
  context =
      context_of env.parsing (annotations_of ing) (get_spec_services ing) env.is_plus
        env.app_protect_enabled env.internal_routes_enabled (new_path "annotations")

  -- A check of an annotation that is set passes.
  accepted_check :
      validate_ingress env ing ≡ []
      → (name value : String) (vs : List AnnotationValidationFunc) (f : AnnotationValidationFunc)
      → annotation ing.meta name ≡ some value
      → lookup name (annotation_validations env.parsing) ≡ some vs
      → Elem f vs
      → f (context name value) ≡ []
  unfolding validate_ingress annotation_errors
  accepted_check h name value vs f set listed m =
      let (front, kinds) =
        append-empty (annotation_errors env ing ++ validate_ingress_spec (new_path "spec") ing) _
          h in
      let (none_of_annotations, spec) = append-empty (annotation_errors env ing) _ front in
      (validate_ingress_annotations_lem env.parsing (annotations_of ing) (get_spec_services ing)
          env.is_plus env.app_protect_enabled env.internal_routes_enabled
          (new_path "annotations")).0
        none_of_annotations name value vs (set-lookup name value set) listed f m

  listen_ports_listed :
      (vs : List AnnotationValidationFunc) × (lookup "nginx.org/listen-ports"
          (annotation_validations env.parsing)
        ≡ some vs)
      × Elem (validate_port_list_annotation env.parsing) vs
  unfolding lookup annotation_validations
  listen_ports_listed = (_, refl, inr (inl refl))

  -- When validateIngress yields no error for an Ingress with the annotation nginx.org/listen-ports,
  -- ParsePortList reads the value of the annotation, and every port of the list is from 1 to 32767.
  pub validate_ingress-listen_ports :
      (value : String)
      → validate_ingress env ing ≡ []
      → annotation ing.meta "nginx.org/listen-ports" ≡ some value
      → (ports : List ℤ) × (parse_port_list env.parsing value ≡ ok ports)
        × ((p : ℤ) → Elem p ports → (n : ℕ) × (p ≡ pos n) × (0 < n) × (n < 32768))
  unfolding validate_port_list_annotation
  validate_ingress-listen_ports value h set =
      let (vs, listed, m) = listen_ports_listed in
      let passed = accepted_check h "nginx.org/listen-ports" value vs _ set listed m in
      let (ports, read) = is_ok-ok (parse_port_list env.parsing value) (unless-true _ _ _ passed) in
      (
        ports,
        read,
        λ p k.
            let (n, same, (positive, small)) =
              parse_port_list-IsParsed env.parsing value ports p read k in
            (n, same, positive, small),
      )

  -- The checks of the annotation that makes health checks mandatory.
  health_checks_listed :
      (vs : List AnnotationValidationFunc) × (lookup "nginx.com/health-checks-mandatory"
          (annotation_validations env.parsing)
        ≡ some vs)
      × Elem validate_plus_only_annotation vs
      × Elem
          (validate_related_annotation "nginx.com/health-checks" (validate_is_true env.parsing))
          vs
  unfolding lookup annotation_validations
  health_checks_listed = (_, refl, inl refl, inr (inl refl))

  validate_is_true_lem :
      (v : String) → validate_is_true env.parsing v ≡ none → parse_bool v ≡ some true
  unfolding validate_is_true
  validate_is_true_lem v h = by_result (parse_bool v) h
    where
      by_result :
          (o : Option Bool)
          → elim o [
            | some true ↦ none
            | some false ↦ some "must be true"
            | none ↦ some (env.parsing.bool_error v)
          ]
            ≡ none
          → o ≡ some true
      by_result (some true) k = refl
      by_result (some false) k = cc
      by_result none k = cc

  validate_related_annotation_lem :
      (name : String) (validator : String → Option String) (c : AnnotationValidationContext)
      → validate_related_annotation name validator c ≡ []
      → (v : String) × (lookup name c.annotations ≡ some v) × (validator v ≡ none)
  validate_related_annotation_lem name validator c h =
      elim (Option-cases (lookup name c.annotations)) [
        | inl e ↦ cc (rw (validate_related_annotation, e) at h)
        | inr (v, e) ↦ elim (Option-cases (validator v)) [
          | inl n ↦ (v, e, n)
          | inr (message, n) ↦ cc (rw (validate_related_annotation, e, n) at h)
        ]
      ]

  -- When validateIngress yields no error for an Ingress with the annotation nginx.com/health-checks-
  -- mandatory, the controller runs NGINX Plus, and the annotation nginx.com/health-checks is set to
  -- a value that ParseBool reads as true.
  pub validate_ingress-health_checks_mandatory :
      (value : String)
      → validate_ingress env ing ≡ []
      → annotation ing.meta "nginx.com/health-checks-mandatory" ≡ some value
      → (env.is_plus ≡ true)
        × ((v : String) × (annotation ing.meta "nginx.com/health-checks" ≡ some v)
            × (parse_bool v ≡ some true))
  unfolding validate_plus_only_annotation
  validate_ingress-health_checks_mandatory value h set =
      let (vs, listed, plus, related) = health_checks_listed in
      let name : String = "nginx.com/health-checks-mandatory" in
      let (v, found, valid) =
        validate_related_annotation_lem "nginx.com/health-checks" (validate_is_true env.parsing)
          (context name value) (accepted_check h name value vs _ set listed related) in
      (
        allow-true env.is_plus (context name value) _
            (accepted_check h name value vs _ set listed plus),
        (v, lookup-set "nginx.com/health-checks" v found, validate_is_true_lem v valid),
      )
