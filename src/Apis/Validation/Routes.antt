-- ===== src/Apis/Validation/Routes.antt =====
-- virtualserver.go: the checks of routes, splits, matches and error pages.
pub mod Referred
use aspenmesh_k3s_multiclust.Prelude.{
  ℕ, suc, ◌+◌, String, Bool, true, false, not, ◌&&◌, ◌||◌, Option, none, some, List, [], ◌∷◌, ◌++◌,
  ◌==◌, length, eqb, ltb, if◌then◌else◌, is_some,
}
use aspenmesh_k3s_multiclust.Prelude.Texts.{concat}
use aspenmesh_k3s_multiclust.Prelude.Integers.{ℤ, pos, ◌+ℤ◌, eqb_int}
use aspenmesh_k3s_multiclust.Prelude.Strings.{trim_prefix}
use text.Mathlib.Text.{starts_with}
use aspenmesh_k3s_multiclust.K8s.FieldErrors.{
  FieldPath, child, index, FieldError, required, invalid, invalid_number, forbidden,
}
use aspenmesh_k3s_multiclust.Apis.Types.{
  Header, Action, Split, Condition, Match, ErrorPage, ErrorPageReturn, ErrorPageRedirect, Route,
}
use aspenmesh_k3s_multiclust.Apis.Validation.{
  ValidationLibrary, invalid_each, invalid_number_each, if_given, each_at, has,
}
use aspenmesh_k3s_multiclust.Apis.Validation.Names.{validate_path, validate_policies}
use aspenmesh_k3s_multiclust.Apis.Validation.Variables.{
  unescaped, is_cookie_name, is_argument_name, validate_string_with_variables,
}
use aspenmesh_k3s_multiclust.Apis.Validation.Upstreams.{header_name_errors}
use aspenmesh_k3s_multiclust.Apis.Validation.Actions.{
  one_if, given, validate_action, validate_action_return, validate_action_redirect,
}

abbrev valid_variable_names : List String
valid_variable_names =
    "$args" ∷ "$http2" ∷ "$https" ∷ "$remote_addr" ∷ "$remote_port" ∷ "$query_string" ∷ "$request"
    ∷ "$request_body" ∷ "$request_uri" ∷ "$request_method" ∷ "$scheme" ∷ []

unfoldable pub validate_variable_name : String → FieldPath → List FieldError
validate_variable_name name path =
    if not (starts_with name "$")
    then invalid path name "must start with `$`" ∷ []
    else (if has valid_variable_names name
        then []
        else invalid path name "is not allowed or is not an NGINX variable" ∷ [])

-- The sum of the weights.
unfoldable pub total_weight : ℤ → List Split → ℤ
unfolding ◌+ℤ◌
total_weight total [] = total
total_weight total (s ∷ splits) = total_weight (total +ℤ s.weight) splits

unfoldable pub error_page_has_required_fields : ErrorPage → Bool
error_page_has_required_fields page = eqb (given page.return + given page.redirect) 1

abbrev pub one_if_any {ℓ} : {A : Type ℓ} → List A → ℕ
one_if_any [] = 0
one_if_any (x ∷ xs) = 1

-- fieldCount, after the checks.
abbrev pub field_count : Route → (is_forbidden : Bool) → ℕ
field_count route is_forbidden =
    given route.action
    + one_if_any route.splits
    + one_if (not (route.route == "") && not is_forbidden)

abbrev pub count_message : Route → (is_forbidden : Bool) → String
count_message route is_forbidden =
    if is_forbidden || ltb 0 (length route.matches)
    then "must specify exactly one of `action` or `splits`"
    else "must specify exactly one of `action`, `splits` or `route`"

module _ (lib : ValidationLibrary) (is_plus : Bool) where
  unfoldable pub validate_regex_path : String → FieldPath → List FieldError
  validate_regex_path text path = elim (lib.compile_regexp text) [
    | some e ↦ invalid path text (concat ("must be a valid regular expression: " ∷ e ∷ [])) ∷ []
    | none ↦ unescaped lib text path ("*.jpg" ∷ "^/images/image_*.png$" ∷ [])
  ]

  unfoldable pub validate_route_path : String → FieldPath → List FieldError
  unfolding validate_regex_path validate_path
  validate_route_path text path =
      if text == ""
      then required path "" ∷ []
      else (if starts_with text "~"
          then validate_regex_path text path
          else (if starts_with text "/"
              then validate_path lib text path
              else (if starts_with text "="
                  then validate_path lib (trim_prefix b'=' text) path
                  else invalid path text "must start with /, ~ or =" ∷ [])))

  abbrev pub split_errors :
      (names : List String) → (route_path : String) → Split → FieldPath → List FieldError
  split_errors names route_path s here =
      invalid_number_each (child here "weight") s.weight (lib.is_in_range s.weight (pos 1) (pos 99))
      ++ elim s.action [
        | none ↦ required (child here "action") "" ∷ []
        | some action ↦
            validate_action lib is_plus action (child here "action") names route_path true
      ]

  unfoldable pub validate_splits :
      List Split → FieldPath → (names : List String) → (route_path : String) → List FieldError
  unfolding total_weight validate_action
  validate_splits splits path names route_path =
      if ltb (length splits) 2
      then invalid path "" "must include at least 2 splits" ∷ []
      else each_at (split_errors names route_path) path 0 splits
        ++ (if eqb_int (total_weight (pos 0) splits) (pos 100)
            then []
            else invalid path "" "the sum of the weights of all splits must be equal to 100" ∷ [])

  unfoldable pub validate_condition : Condition → FieldPath → List FieldError
  unfolding is_cookie_name is_argument_name validate_variable_name
  validate_condition c path =
      let count =
        one_if (not (c.header == ""))
        + one_if (not (c.cookie == ""))
        + one_if (not (c.argument == ""))
        + one_if (not (c.variable == "")) in
      (if c.header == ""
        then []
        else invalid_each (child path "header") c.header (lib.is_http_header_name c.header))
      ++ (if c.cookie == ""
          then []
          else invalid_each (child path "cookie") c.cookie (is_cookie_name lib c.cookie))
      ++ (if c.argument == ""
          then []
          else invalid_each (child path "argument") c.argument (is_argument_name lib c.argument))
      ++ (if c.variable == ""
          then []
          else validate_variable_name c.variable (child path "variable"))
      ++ (if eqb count 1
          then []
          else invalid path ""
              "must specify exactly one of: `header`, `cookie`, `argument` or `variable`"
            ∷ [])
      ++ unescaped lib c.value (child path "value") ("value-123" ∷ [])

  abbrev pub splits_if_any :
      List Split → FieldPath → (names : List String) → (route_path : String) → List FieldError
  splits_if_any [] path names route_path = []
  splits_if_any (s ∷ splits) path names route_path =
      validate_splits (s ∷ splits) path names route_path

  unfoldable pub validate_match :
      (names : List String) → (route_path : String) → Match → FieldPath → List FieldError
  unfolding validate_condition validate_action validate_splits
  validate_match names route_path m path =
      (if eqb (length m.conditions) 0
        then required (child path "conditions") "must specify at least one condition" ∷ []
        else each_at validate_condition (child path "conditions") 0 m.conditions)
      ++ if_given
          (λ action. validate_action lib is_plus action (child path "action") names route_path true)
          m.action
      ++ splits_if_any m.splits (child path "splits") names route_path
      ++ (if eqb (given m.action + one_if_any m.splits) 1
          then []
          else invalid path "" "must specify exactly one of `action` or `splits`" ∷ [])

  unfoldable pub validate_error_page_header : Header → FieldPath → List FieldError
  unfolding validate_string_with_variables
  validate_error_page_header h path =
      header_name_errors lib h path
      ++ unescaped lib h.value (child path "value") ("value" ∷ "\\\"${status}\\\"" ∷ [])
      ++ validate_string_with_variables lib is_plus h.value (child path "value") []
          ("upstream_status" ∷ [])

  unfoldable pub validate_error_page_return : ErrorPageReturn → FieldPath → List FieldError
  unfolding validate_action_return validate_error_page_header
  validate_error_page_return r path =
      validate_action_return lib is_plus r.action_return path [] ("upstream_status" ∷ [])
      ++ each_at validate_error_page_header (child path "headers") 0 r.headers

  unfoldable pub validate_error_page_redirect : ErrorPageRedirect → FieldPath → List FieldError
  unfolding validate_action_redirect
  validate_error_page_redirect r path =
      validate_action_redirect lib is_plus r.action_redirect path
        ("scheme" ∷ "http_x_forwarded_proto" ∷ [])

  unfoldable pub validate_error_page : ErrorPage → FieldPath → List FieldError
  unfolding error_page_has_required_fields validate_error_page_return validate_error_page_redirect
  validate_error_page page path =
      if not (error_page_has_required_fields page)
      then required path "must specify exactly one of `redirect` or `return`" ∷ []
      else (if eqb (length page.codes) 0
          then required (child path "codes") "must include at least 1 status code in `codes`" ∷ []
          else each_at
              (λ c here. invalid_number_each here c (lib.is_in_range c (pos 300) (pos 599)))
              (child path "codes") 0 page.codes
            ++ if_given (λ r. validate_error_page_return r (child path "return")) page.return
            ++ if_given (λ r. validate_error_page_redirect r (child path "redirect")) page.redirect)

  unfoldable pub validate_route_field : String → FieldPath → List FieldError
  validate_route_field value path = invalid_each path value (lib.is_qualified_name value)

  abbrev pub route_field_errors : Route → FieldPath → (is_forbidden : Bool) → List FieldError
  route_field_errors route path true =
      if route.route == "" then [] else forbidden (child path "route") "is not allowed" ∷ []
  route_field_errors route path false =
      if route.route == "" then [] else validate_route_field route.route (child path "route")

  unfoldable pub validate_route :
      Route
      → FieldPath
      → (names : List String) → (is_forbidden : Bool) → (namespace : String) → List FieldError
  unfolding validate_route_path validate_policies validate_action validate_splits validate_match
      validate_error_page validate_route_field
  validate_route route path names is_forbidden namespace =
      validate_route_path route.path (child path "path")
      ++ validate_policies lib route.policies (child path "policies") namespace
      ++ if_given
          (λ action.
            validate_action lib is_plus action (child path "action") names route.path false)
          route.action
      ++ splits_if_any route.splits (child path "splits") names route.path
      ++ each_at (validate_match names route.path) (child path "matches") 0 route.matches
      ++ each_at validate_error_page (child path "errorPages") 0 route.error_pages
      ++ route_field_errors route path is_forbidden
      ++ (if eqb (field_count route is_forbidden) 1
          then []
          else invalid path "" (count_message route is_forbidden) ∷ [])
