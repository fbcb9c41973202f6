-- ===== src/K8s/Annotations/Configured/Accepted.antt =====
-- validateIngressAnnotations: when the annotations have no errors.
use aspenmesh_k3s_multiclust.Prelude.{
  String, ◌≡◌, ◌↔◌, refl, sym, ap, ◌∙◌, subst, inl, inr, Bool, Option, none, some, some_inj, List,
  [], ◌∷◌, ◌++◌, Elem,
}
use aspenmesh_k3s_multiclust.Prelude.{append-empty}
use aspenmesh_k3s_multiclust.Prelude.Dict.{Dict, lookup, keys, lookup-keys}
use aspenmesh_k3s_multiclust.Prelude.Sorting.{sort_strings-Elem}
use aspenmesh_k3s_multiclust.Configs.ParsingHelpers.{ParsingLibrary}
use aspenmesh_k3s_multiclust.K8s.FieldErrors.{FieldPath, FieldError}
use aspenmesh_k3s_multiclust.K8s.Annotations.{AnnotationValidationContext, AnnotationValidationFunc}
use aspenmesh_k3s_multiclust.K8s.Annotations.Configured.{
  annotation_validations, annotation_names, run_validations, validate_ingress_annotation,
  context_of, validate_names, validate_ingress_annotations,
}

-- Every check passes.
abbrev pub AllPass : List AnnotationValidationFunc → AnnotationValidationContext → Type 0
AllPass vs context = (f : AnnotationValidationFunc) → Elem f vs → f context ≡ []

module _ (context : AnnotationValidationContext) where
  tail-empty :
      (es rest : List FieldError)
      → elim es [ [] ↦ rest | e ∷ more ↦ e ∷ more ] ≡ []
      → (es ≡ []) × (rest ≡ [])
  tail-empty [] rest h = (refl, h)
  tail-empty (e ∷ es) rest h = cc

  run_validations-AllPass :
      (vs : List AnnotationValidationFunc) → run_validations vs context ≡ [] → AllPass vs context
  unfolding run_validations
  run_validations-AllPass [] h f m = elim m [ ]
  run_validations-AllPass (v ∷ vs) h f (inl e) =
      ap (λ (g : AnnotationValidationFunc). g context) e
      ∙ (tail-empty (v context) (run_validations vs context) h).0
  run_validations-AllPass (v ∷ vs) h f (inr m) =
      run_validations-AllPass vs (tail-empty (v context) (run_validations vs context) h).1 f m

  AllPass-run_validations :
      (vs : List AnnotationValidationFunc) → AllPass vs context → run_validations vs context ≡ []
  unfolding run_validations
  AllPass-run_validations [] h = refl
  AllPass-run_validations (v ∷ vs) h =
      rw (h v (inl refl)) (AllPass-run_validations vs (λ f m. h f (inr m)))

module _ (lib : ParsingLibrary) (annotations : Dict String) (spec_services : Dict Bool)
    (is_plus app_protect_enabled internal_routes_enabled : Bool) (path : FieldPath) where
  abbrev context : (name value : String) → AnnotationValidationContext
  context =
      context_of lib annotations spec_services is_plus app_protect_enabled internal_routes_enabled
        path

  -- The annotation is absent, or none of its checks fails.
  abbrev IsAccepted : String → Type 0
  IsAccepted name =
      (value : String)
      → lookup name annotations ≡ some value
      → validate_ingress_annotation lib (context name value) ≡ []

  Errors : List String → Type 0
  Errors names =
      validate_names lib annotations spec_services is_plus app_protect_enabled
        internal_routes_enabled path names
      ≡ []

  by_value :
      (o : Option String) (name : String) (rest : List FieldError)
      → lookup name annotations ≡ o
      → elim o [
        | none ↦ rest
        | some value ↦ validate_ingress_annotation lib (context name value) ++ rest
      ]
        ≡ []
      → IsAccepted name × (rest ≡ [])
  by_value none name rest e h = ((λ value found. cc), h)
  by_value (some value) name rest e h =
      let (own, others) =
        append-empty (validate_ingress_annotation lib (context name value)) rest h in
      (
        (λ v found.
            subst (λ x. validate_ingress_annotation lib (context name x) ≡ [])
              (some_inj (sym e ∙ found)) own),
        others,
      )

  validate_names-IsAccepted :
      (names : List String) → Errors names → (name : String) → Elem name names → IsAccepted name
  unfolding validate_names Errors
  validate_names-IsAccepted [] h name m = elim m [ ]
  validate_names-IsAccepted (n ∷ names) h name m =
      let (own, rest) = by_value (lookup n annotations) n _ refl h in
      elim m [
        | inl e ↦ subst IsAccepted (sym e) own
        | inr k ↦ validate_names-IsAccepted names rest name k
      ]

  from_lookup :
      (o : Option String) (name : String) (rest : List FieldError)
      → lookup name annotations ≡ o
      → IsAccepted name
      → rest ≡ []
      → elim o [
        | none ↦ rest
        | some value ↦ validate_ingress_annotation lib (context name value) ++ rest
      ]
        ≡ []
  from_lookup none name rest e own h = h
  from_lookup (some value) name rest e own h = rw (own value e) h

  IsAccepted-validate_names :
      (names : List String) → ((name : String) → Elem name names → IsAccepted name) → Errors names
  unfolding validate_names Errors
  IsAccepted-validate_names [] h = refl
  IsAccepted-validate_names (n ∷ names) h =
      from_lookup (lookup n annotations) n _ refl (h n (inl refl))
        (IsAccepted-validate_names names (λ k m. h k (inr m)))

  run_found :
      (name value : String) (o : Option (List AnnotationValidationFunc))
      → lookup name (annotation_validations lib) ≡ o
      → validate_ingress_annotation lib (context name value)
        ≡ elim o [ none ↦ [] | some vs ↦ run_validations vs (context name value) ]
  unfolding validate_ingress_annotation
  run_found name value o e =
      ap
        (λ (p : Option (List AnnotationValidationFunc)). elim p [
          | none ↦ []
          | some vs ↦ run_validations vs (context name value)
        ])
        e

  by_table :
      (name value : String) (o : Option (List AnnotationValidationFunc))
      → lookup name (annotation_validations lib) ≡ o
      → (validate_ingress_annotation lib (context name value) ≡ [])
        ↔ ((vs : List AnnotationValidationFunc) → o ≡ some vs → AllPass vs (context name value))
  by_table name value none e = ((λ h vs found. cc), λ h. run_found name value none e)
  by_table name value (some ws) e = (
    (λ h vs found.
        subst (λ us. AllPass us (context name value)) (some_inj found)
          (run_validations-AllPass (context name value) ws
            (sym (run_found name value (some ws) e) ∙ h))),
    λ h.
        run_found name value (some ws) e
        ∙ AllPass-run_validations (context name value) ws (h ws refl),
  )

  -- Every check that the table has for the name of an annotation that is set passes.
  abbrev pub ArePassed : Type 0
  ArePassed =
      (name value : String) (vs : List AnnotationValidationFunc)
      → lookup name annotations ≡ some value
      → lookup name (annotation_validations lib) ≡ some vs
      → AllPass vs (context name value)

  -- An Ingress has no errors of validateIngressAnnotations exactly when, for every annotation that
  -- is set and has a list of checks in the table annotationValidations, each of these checks yields
  -- none.
  pub validate_ingress_annotations_lem :
      (validate_ingress_annotations lib annotations spec_services is_plus app_protect_enabled
          internal_routes_enabled path
        ≡ [])
      ↔ ArePassed
  unfolding validate_ingress_annotations annotation_names Errors
  validate_ingress_annotations_lem = (
    (λ h name value vs set listed.
        (by_table name value (some vs) listed).0
          (validate_names-IsAccepted (annotation_names lib) h name
            (sort_strings-Elem name (keys (annotation_validations lib))
              (lookup-keys name vs (annotation_validations lib) listed))
            value set)
          vs refl),
    λ h. IsAccepted-validate_names (annotation_names lib) (λ name m value set.
        (by_table name value (lookup name (annotation_validations lib)) refl).1
          (λ vs listed. h name value vs set listed)),
  )
