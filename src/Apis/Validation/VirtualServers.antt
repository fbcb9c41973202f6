-- ===== src/Apis/Validation/VirtualServers.antt =====
-- virtualserver.go: the checks of the specs of VirtualServers and VirtualServerRoutes.
pub mod Accepted
use aspenmesh_k3s_multiclust.Prelude.{
  ℕ, suc, String, Bool, true, false, not, ◌&&◌, ◌||◌, Option, none, some, List, [], ◌∷◌, ◌++◌, ◌==◌,
  if◌then◌else◌,
}
use aspenmesh_k3s_multiclust.Prelude.Texts.{concat}
use text.Mathlib.Text.{starts_with}
use aspenmesh_k3s_multiclust.K8s.FieldErrors.{
  FieldPath, new_path, child, index, FieldError, duplicate, invalid,
}
use aspenmesh_k3s_multiclust.Apis.Types.{Route, VirtualServerSpec, VirtualServerRouteSpec}
use aspenmesh_k3s_multiclust.Apis.Validation.{ValidationLibrary, has}
use aspenmesh_k3s_multiclust.Apis.Validation.Names.{validate_host, validate_tls, validate_policies}
use aspenmesh_k3s_multiclust.Apis.Validation.Upstreams.{validate_upstreams}
use aspenmesh_k3s_multiclust.Apis.Validation.Routes.{validate_route}

-- The error of a route's path, when the route is not valid or the path is in the set, and the set
-- with it otherwise.
abbrev pub checked_path :
    (route_errors : List FieldError)
    → String
    → FieldPath
    → List String
    → List FieldError × List String
checked_path (e ∷ es) route_path path paths = (e ∷ es, paths)
checked_path [] route_path path paths =
    if has paths route_path
    then (duplicate (child path "path") route_path ∷ [], paths)
    else ([], route_path ∷ paths)

abbrev is_regex_or_exact_match : String → Bool
is_regex_or_exact_match path = starts_with path "~" || starts_with path "="

module _ (lib : ValidationLibrary) (is_plus : Bool) where
  -- The loop, from the index on; `paths` is the set allPaths.
  unfoldable pub validate_virtual_server_routes_from :
      FieldPath
      → (names : List String) → (namespace : String) → ℕ
      → (paths : List String) → List Route
      → List FieldError
  unfolding validate_route
  validate_virtual_server_routes_from path names namespace i paths [] = []
  validate_virtual_server_routes_from path names namespace i paths (r ∷ rs) =
      let here = index path i in
      let (errors, next) =
        checked_path (validate_route lib is_plus r here names false namespace) r.path here paths in
      errors ++ validate_virtual_server_routes_from path names namespace (suc i) next rs

  unfoldable pub validate_virtual_server_routes :
      List Route → FieldPath → (names : List String) → (namespace : String) → List FieldError
  unfolding validate_virtual_server_routes_from
  validate_virtual_server_routes routes path names namespace =
      validate_virtual_server_routes_from path names namespace 0 [] routes

  unfoldable pub validate_virtual_server_spec :
      VirtualServerSpec → FieldPath → (namespace : String) → List FieldError
  unfolding validate_host validate_tls validate_policies validate_upstreams
      validate_virtual_server_routes
  validate_virtual_server_spec spec path namespace =
      let (upstream_errors, names) =
        validate_upstreams lib is_plus spec.upstreams (child path "upstreams") in
      validate_host lib spec.host (child path "host")
      ++ validate_tls lib spec.tls (child path "tls")
      ++ validate_policies lib spec.policies (child path "policies") namespace
      ++ upstream_errors
      ++ validate_virtual_server_routes spec.routes (child path "routes") names namespace

  -- The list that is aggregated; an empty one is no error.
  unfoldable pub validate_virtual_server :
      VirtualServerSpec → (namespace : String) → List FieldError
  unfolding validate_virtual_server_spec
  validate_virtual_server spec namespace =
      validate_virtual_server_spec spec (new_path "spec") namespace

  unfoldable pub validate_virtual_server_route_host :
      (host virtual_server_host : String) → FieldPath → List FieldError
  unfolding validate_host
  validate_virtual_server_route_host host virtual_server_host path =
      validate_host lib host path
      ++ (if not (virtual_server_host == "") && not (host == virtual_server_host)
          then invalid path host (concat ("must be equal to '" ∷ virtual_server_host ∷ "'" ∷ []))
            ∷ []
          else [])

  abbrev prefix_errors : (vs_path : String) → Route → FieldPath → List FieldError
  prefix_errors vs_path r path =
      if not (vs_path == "")
        && not (starts_with r.path vs_path)
        && not (is_regex_or_exact_match r.path)
      then invalid path r.path (concat ("must start with '" ∷ vs_path ∷ "'" ∷ [])) ∷ []
      else []

  unfoldable pub validate_subroutes_from :
      FieldPath
      → (names : List String) → (vs_path namespace : String) → ℕ
      → (paths : List String) → List Route
      → List FieldError
  unfolding validate_route
  validate_subroutes_from path names vs_path namespace i paths [] = []
  validate_subroutes_from path names vs_path namespace i paths (r ∷ rs) =
      let here = index path i in
      let (errors, next) =
        checked_path
          (validate_route lib is_plus r here names true namespace ++ prefix_errors vs_path r here)
          r.path here paths in
      errors ++ validate_subroutes_from path names vs_path namespace (suc i) next rs

  abbrev single_subroute :
      FieldPath
      → (names : List String) → (vs_path namespace : String) → List Route
      → List FieldError
  single_subroute path names vs_path namespace (r ∷ []) =
      if r.path == vs_path
      then validate_route lib is_plus r (index path 0) names true namespace
      else invalid (child (index path 0) "path") r.path
          "must have the same path as the referenced VirtualServer route path"
        ∷ []
  single_subroute path names vs_path namespace [] =
      invalid path "subroutes"
        "must have only one subroute if regex match or exact match are being used"
      ∷ []
  single_subroute path names vs_path namespace (r ∷ s ∷ rs) =
      invalid path "subroutes"
        "must have only one subroute if regex match or exact match are being used"
      ∷ []

  unfoldable pub validate_virtual_server_route_subroutes :
      List Route
      → FieldPath
      → (names : List String) → (vs_path namespace : String) → List FieldError
  unfolding validate_route validate_subroutes_from
  validate_virtual_server_route_subroutes routes path names vs_path namespace =
      if is_regex_or_exact_match vs_path
      then single_subroute path names vs_path namespace routes
      else validate_subroutes_from path names vs_path namespace 0 [] routes

  unfoldable pub validate_virtual_server_route_spec :
      VirtualServerRouteSpec
      → FieldPath
      → (virtual_server_host vs_path namespace : String) → List FieldError
  unfolding validate_virtual_server_route_host validate_upstreams
      validate_virtual_server_route_subroutes
  validate_virtual_server_route_spec spec path virtual_server_host vs_path namespace =
      let (upstream_errors, names) =
        validate_upstreams lib is_plus spec.upstreams (child path "upstreams") in
      validate_virtual_server_route_host spec.host virtual_server_host (child path "host")
      ++ upstream_errors
      ++ validate_virtual_server_route_subroutes spec.subroutes (child path "subroutes") names
          vs_path namespace

  unfoldable pub validate_virtual_server_route :
      VirtualServerRouteSpec → (namespace : String) → List FieldError
  unfolding validate_virtual_server_route_spec
  validate_virtual_server_route spec namespace =
      validate_virtual_server_route_spec spec (new_path "spec") "" "/" namespace

  unfoldable pub validate_virtual_server_route_for_virtual_server :
      VirtualServerRouteSpec → (virtual_server_host vs_path namespace : String) → List FieldError
  unfolding validate_virtual_server_route_spec
  validate_virtual_server_route_for_virtual_server spec virtual_server_host vs_path namespace =
      validate_virtual_server_route_spec spec (new_path "spec") virtual_server_host vs_path
        namespace
