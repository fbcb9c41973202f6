-- ===== src/Apis/Validation/Names.antt =====
-- virtualserver.go and common.go: the checks of names, hosts, numbers, sizes and secrets.
use aspenmesh_k3s_multiclust.Prelude.{
  ℕ, suc, String, Option, List, [], ◌∷◌, ◌++◌, ◌==◌, any, if◌then◌else◌,
}
use aspenmesh_k3s_multiclust.Prelude.Texts.{concat}
use aspenmesh_k3s_multiclust.Prelude.Integers.{ℤ, pos, ltb_int, eqb_int}
use aspenmesh_k3s_multiclust.Prelude.Strings.{join}
use aspenmesh_k3s_multiclust.K8s.FieldErrors.{
  FieldPath, child, index, FieldError, required, duplicate, invalid, invalid_number,
}
use aspenmesh_k3s_multiclust.Configs.ParsingHelpers.{parse_time, parse_offset, parse_size}
use aspenmesh_k3s_multiclust.Apis.Types.{PolicyReference, Tls, TlsRedirect}
use aspenmesh_k3s_multiclust.Apis.Validation.{
  ValidationLibrary, invalid_each, if_given, error_of, has,
}

-- The keys of a map of strings to true.
abbrev map_to_pretty_string : List String → String
map_to_pretty_string m = join ", " m

abbrev pub validate_parameter : List String → String → FieldPath → List FieldError
validate_parameter valid_params n_par path =
    if has valid_params n_par
    then []
    else invalid path n_par (
        concat (
          "'"
          ∷ n_par
          ∷ "' contains an invalid NGINX parameter. Accepted parameters are: "
          ∷ map_to_pretty_string valid_params
          ∷ []))
      ∷ []

unfoldable pub validate_positive_int_or_zero : ℤ → FieldPath → List FieldError
validate_positive_int_or_zero n path =
    if ltb_int n (pos 0) then invalid_number path n "must be positive" ∷ [] else []

abbrev validate_int_or_zero : ℤ → FieldPath → List FieldError
validate_int_or_zero n path =
    if ltb_int n (pos 0) then invalid_number path n "must be positive or zero" ∷ [] else []

unfoldable pub validate_positive_int_or_zero_from_pointer : Option ℤ → FieldPath → List FieldError
validate_positive_int_or_zero_from_pointer n path = if_given (λ m. validate_int_or_zero m path) n

unfoldable pub validate_redirect_status_code : ℤ → FieldPath → List FieldError
validate_redirect_status_code code path =
    if any (eqb_int code) (pos 301 ∷ pos 302 ∷ pos 307 ∷ pos 308 ∷ [])
    then []
    else invalid_number path code
        "status code out of accepted range. accepted values are '301', '302', '307', '308'"
      ∷ []

module _ (lib : ValidationLibrary) where
  unfoldable pub validate_host : String → FieldPath → List FieldError
  validate_host host path =
      if host == ""
      then required path "" ∷ []
      else invalid_each path host (lib.is_dns1123_subdomain host)

  unfoldable pub validate_dns1035_label : String → FieldPath → List FieldError
  validate_dns1035_label name path =
      if name == ""
      then required path "" ∷ []
      else invalid_each path name (lib.is_dns1035_label name)

  unfoldable pub validate_upstream_name : String → FieldPath → List FieldError
  unfolding validate_dns1035_label
  validate_upstream_name name path = validate_dns1035_label name path

  unfoldable pub validate_service_name : String → FieldPath → List FieldError
  unfolding validate_dns1035_label
  validate_service_name name path = validate_dns1035_label name path

  unfoldable pub validate_secret_name : String → FieldPath → List FieldError
  validate_secret_name name path =
      if name == "" then [] else invalid_each path name (lib.is_dns1123_subdomain name)

  unfoldable pub validate_time : String → FieldPath → List FieldError
  unfolding parse_time
  validate_time time path =
      if time == "" then [] else error_of (invalid path time) (parse_time lib.parsing time)

  abbrev offset_err_msg : String
  offset_err_msg =
      "must consist of numeric characters followed by a valid size suffix. 'k|K|m|M|g|G"

  unfoldable pub validate_offset : String → FieldPath → List FieldError
  unfolding parse_offset
  validate_offset offset path =
      if offset == ""
      then []
      else error_of
          (λ e.
            invalid path offset
              (lib.regex_error offset_err_msg "\\d+[kKmMgG]?" ("16" ∷ "32k" ∷ "64M" ∷ "2G" ∷ [])))
          (parse_offset lib.parsing offset)

  abbrev size_err_msg : String
  size_err_msg = "must consist of numeric characters followed by a valid size suffix. 'k|K|m|M"

  unfoldable pub validate_size : String → FieldPath → List FieldError
  unfolding parse_size
  validate_size size path =
      if size == ""
      then []
      else error_of
          (λ e.
            invalid path size
              (lib.regex_error size_err_msg "\\d+[kKmM]?" ("16" ∷ "32k" ∷ "64M" ∷ [])))
          (parse_size lib.parsing size)

  abbrev path_err_msg : String
  path_err_msg = "must start with / and must not include any whitespace character, `{`, `}` or `;`"

  unfoldable pub validate_path : String → FieldPath → List FieldError
  validate_path text path =
      if text == ""
      then required path "" ∷ []
      else (if lib.matches_path text
          then []
          else invalid path text (
              lib.regex_error path_err_msg "/[^\\s{};]*" ("/" ∷ "/path" ∷ "/path/subpath-123" ∷ []))
            ∷ [])

  unfoldable pub validate_tls_redirect : Option TlsRedirect → FieldPath → List FieldError
  unfolding validate_redirect_status_code
  validate_tls_redirect redirect path =
      if_given
        (λ r.
          if_given (λ code. validate_redirect_status_code code (child path "code")) r.code
          ++ (if r.based_on == ""
              then []
              else (if r.based_on == "scheme"
                  then []
                  else (if r.based_on == "x-forwarded-proto"
                      then []
                      else invalid (child path "basedOn") r.based_on
                          "accepted values are 'scheme', 'x-forwarded-proto'"
                        ∷ []))))
        redirect

  unfoldable pub validate_tls : Option Tls → FieldPath → List FieldError
  unfolding validate_secret_name validate_tls_redirect
  validate_tls tls path =
      if_given
        (λ t.
          validate_secret_name t.secret (child path "secret")
          ++ validate_tls_redirect t.redirect (child path "redirect"))
        tls

  abbrev policy_key : String → PolicyReference → String
  policy_key namespace p =
      concat ((if p.namespace == "" then namespace else p.namespace) ∷ "/" ∷ p.name ∷ [])

  -- The checks of a policy that do not look at the others.
  abbrev pub policy_errors : PolicyReference → FieldPath → List FieldError
  policy_errors p path =
      (if p.name == ""
        then required (child path "name") "" ∷ []
        else invalid_each (child path "name") p.name (lib.is_dns1123_subdomain p.name))
      ++ (if p.namespace == ""
          then []
          else invalid_each (child path "namespace") p.namespace (lib.is_dns1123_label p.namespace))

  -- The loop, from the index on; `seen` is the set policyKeys.
  unfoldable pub validate_policies_from :
      String → FieldPath → ℕ → (seen : List String) → List PolicyReference → List FieldError
  validate_policies_from namespace path i seen [] = []
  validate_policies_from namespace path i seen (p ∷ ps) =
      let key = policy_key namespace p in
      let again = validate_policies_from namespace path (suc i) seen ps in
      let first = validate_policies_from namespace path (suc i) (key ∷ seen) ps in
      if has seen key
      then duplicate (index path i) key ∷ policy_errors p (index path i) ++ again
      else policy_errors p (index path i) ++ first

  unfoldable pub validate_policies : List PolicyReference → FieldPath → String → List FieldError
  unfolding validate_policies_from
  validate_policies policies path namespace = validate_policies_from namespace path 0 [] policies
