-- ===== src/Apis/Validation/Variables.antt =====
-- common.go: texts with NGINX variables.
use aspenmesh_k3s_multiclust.Prelude.{
  String, Bool, not, ◌&&◌, ◌||◌, Option, none, some, List, [], ◌∷◌, ◌++◌, ◌==◌, any, length, eqb,
  ltb, if◌then◌else◌,
}
use aspenmesh_k3s_multiclust.Prelude.Texts.{concat}
use aspenmesh_k3s_multiclust.Prelude.Strings.{join, split_n, contains, has_suffix, replace_each}
use Prim.Native.Char.{code}
use Prim.Native.String
use text.Mathlib.Text.{starts_with}
use aspenmesh_k3s_multiclust.K8s.FieldErrors.{FieldPath, FieldError, invalid, forbidden}
use aspenmesh_k3s_multiclust.Apis.Validation.{ValidationLibrary, invalid_each, has}

-- What parseSpecialVariable returns: a name and a value, or that there is none.
abbrev common_parts : List String → Option (String × String)
common_parts (name ∷ value ∷ []) = some (name, value)
common_parts [] = none
common_parts (a ∷ []) = none
common_parts (a ∷ b ∷ c ∷ parts) = none

abbrev jwt_parts : List String → Option (String × String)
jwt_parts (a ∷ b ∷ value ∷ []) = some (join "_" (a ∷ b ∷ []), value)
jwt_parts [] = none
jwt_parts (a ∷ []) = none
jwt_parts (a ∷ b ∷ []) = none
jwt_parts (a ∷ b ∷ c ∷ d ∷ parts) = none

unfoldable pub parse_special_variable : String → Option (String × String)
parse_special_variable n_var =
    if starts_with n_var "jwt_header" || starts_with n_var "jwt_claim"
    then jwt_parts (split_n b'_' n_var 2)
    else common_parts (split_n b'_' n_var 1)

unfoldable pub validate_variable : List String → String → FieldPath → List FieldError
validate_variable valid_vars n_var path =
    if has valid_vars n_var
    then []
    else invalid path n_var (
        concat (
          "'"
          ∷ n_var
          ∷ "' contains an invalid NGINX variable. Accepted variables are: "
          ∷ join ", " valid_vars
          ∷ []))
      ∷ []

-- After every `$` comes a `{`, and later a `}`; the errors stop at the first one.
unfoldable pub check_braces : FieldPath → (whole : String) → String → List FieldError
check_braces path whole Prim.Native.String.[] = []
check_braces path whole (Prim.Native.String.◌∷◌ c s) =
    let rest = check_braces path whole s in
    if not (eqb (code c) b'$')
    then rest
    else (if starts_with s "{" && contains s "}"
        then rest
        else invalid path whole "variables must be enclosed in curly braces, for example ${host}"
          ∷ [])

module _ (lib : ValidationLibrary) where
  unfoldable pub is_argument_name : String → List String
  is_argument_name value =
      if lib.matches_argument_name value
      then []
      else lib.regex_error "a valid argument name must consist of alphanumeric characters or '_'"
          "[_A-Za-z0-9]+" ("argument_123" ∷ [])
        ∷ []

  unfoldable pub is_cookie_name : String → List String
  is_cookie_name value =
      if lib.matches_cookie_name value
      then []
      else lib.regex_error "a valid cookie name must consist of alphanumeric characters or '_'"
          "[_A-Za-z0-9]+" ("my_cookie_123" ∷ [])
        ∷ []

  unfoldable pub is_valid_special_header_like_variable : String → List String
  is_valid_special_header_like_variable value =
      if ltb 0 (length (lib.is_http_header_name (replace_each b'_' "-" value)))
        || contains value "-"
      then "a valid special variable must consists of alphanumeric characters or '_'" ∷ []
      else []

  abbrev special_errors : Bool → String → FieldPath → (name value : String) → List FieldError
  special_errors is_plus n_var path name value =
      if name == "arg"
      then invalid_each path n_var (is_argument_name value)
      else (if name == "http"
          then invalid_each path n_var (is_valid_special_header_like_variable value)
          else (if name == "cookie"
              then invalid_each path n_var (is_cookie_name value)
              else (if name == "jwt_header" || name == "jwt_claim"
                  then (if is_plus
                      then invalid_each path n_var (is_valid_special_header_like_variable value)
                      else forbidden path "is only supported in NGINX Plus" ∷ [])
                  else invalid path n_var "unknown special variable" ∷ [])))

  unfoldable pub validate_special_variable : Bool → String → FieldPath → List FieldError
  unfolding parse_special_variable is_argument_name is_cookie_name
      is_valid_special_header_like_variable
  validate_special_variable is_plus n_var path = elim (parse_special_variable n_var) [
    | none ↦ invalid path n_var "is invalid variable" ∷ []
    | some (name, value) ↦ special_errors is_plus n_var path name value
  ]

  unfoldable pub validate_variables :
      Bool → FieldPath → (special_vars valid_vars : List String) → List String → List FieldError
  unfolding validate_special_variable validate_variable
  validate_variables is_plus path special_vars valid_vars [] = []
  validate_variables is_plus path special_vars valid_vars (n_var ∷ n_vars) =
      (if any (λ special. starts_with n_var special) special_vars
        then validate_special_variable is_plus n_var path
        else validate_variable valid_vars n_var path)
      ++ validate_variables is_plus path special_vars valid_vars n_vars

  abbrev after_braces : List FieldError → List FieldError → List FieldError
  after_braces [] later = later
  after_braces (e ∷ es) later = e ∷ es

  unfoldable pub validate_string_with_variables :
      Bool → String → FieldPath → (special_vars valid_vars : List String) → List FieldError
  unfolding check_braces validate_variables
  validate_string_with_variables is_plus str path special_vars valid_vars =
      if has_suffix str "$"
      then invalid path str "must not end with $" ∷ []
      else after_braces (check_braces path str str)
          (validate_variables is_plus path special_vars valid_vars (lib.capture_variables str))

  abbrev pub escaped_strings_err_msg : String
  escaped_strings_err_msg =
      "must have all '\"' (double quotes) escaped and must not end with an unescaped '\\' (backslash)"

  -- One error when the text is not escaped.
  abbrev pub unescaped : String → FieldPath → (examples : List String) → List FieldError
  unescaped text path examples =
      if lib.matches_escaped_strings text
      then []
      else invalid path text (lib.regex_error escaped_strings_err_msg "([^\"\\\\]|\\\\.)*" examples)
        ∷ []

  unfoldable pub validate_escaped_string_with_variables :
      Bool → String → FieldPath → (special_vars valid_vars : List String) → List FieldError
  unfolding validate_string_with_variables
  validate_escaped_string_with_variables is_plus body path special_vars valid_vars =
      unescaped body path ("Hello World! \\n" ∷ "\\\"${request_uri}\\\" is unavailable. \\n" ∷ [])
      ++ validate_string_with_variables is_plus body path special_vars valid_vars
