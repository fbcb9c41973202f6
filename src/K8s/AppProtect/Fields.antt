-- ===== src/K8s/AppProtect/Fields.antt =====
-- internal/k8s/appprotect/app_protect_resources.go: the checks of required fields, and names.
use aspenmesh_k3s_multiclust.Prelude.{String, Option, none, some, List, [], ◌∷◌}
use aspenmesh_k3s_multiclust.Prelude.Texts.{concat}
use aspenmesh_k3s_multiclust.K8s.AppProtect.{
  Unstructured, Nested, wrong_kind, absent, present, Library,
}

abbrev pub app_protect_policy_required_fields : List (List String)
app_protect_policy_required_fields = ("spec" ∷ "policy" ∷ []) ∷ []

abbrev pub app_protect_log_conf_required_fields : List (List String)
app_protect_log_conf_required_fields = ("spec" ∷ "content" ∷ []) ∷ ("spec" ∷ "filter" ∷ []) ∷ []

abbrev pub app_protect_user_sig_required_slices : List (List String)
app_protect_user_sig_required_slices = ("spec" ∷ "signatures" ∷ []) ∷ []

-- The check of one field; the message names the value that was read, which is nil, and printed
-- as `shown`.
abbrev check_field {ℓ} : {A : Type ℓ} → (shown : String) → Nested A → Option String
check_field shown (wrong_kind cause) =
    some (concat ("Error checking for required field " ∷ shown ∷ ": " ∷ cause ∷ []))
check_field shown absent = some (concat ("Required field " ∷ shown ∷ " not found" ∷ []))
check_field shown (present value) = none

-- The first error, if there is one.
abbrev pub first_error : Option String → Option String → Option String
first_error (some e) later = some e
first_error none later = later

-- The rest of a message about the object with the name.
abbrev pub about : String → String → Option String → Option String
about kind name none = none
about kind name (some cause) =
    some (concat ("Error validating App Protect " ∷ kind ∷ " " ∷ name ∷ ": " ∷ cause ∷ []))

module _ (lib : Library) where
  unfoldable pub validate_required_fields : Unstructured → List (List String) → Option String
  validate_required_fields obj [] = none
  validate_required_fields obj (path ∷ paths) =
      first_error (check_field "map[]" (lib.nested_map obj path))
        (validate_required_fields obj paths)

  unfoldable pub validate_required_slices : Unstructured → List (List String) → Option String
  validate_required_slices obj [] = none
  validate_required_slices obj (path ∷ paths) =
      first_error (check_field "[]" (lib.nested_slice obj path))
        (validate_required_slices obj paths)

  unfoldable pub validate_required_strings : Unstructured → List (List String) → Option String
  validate_required_strings obj [] = none
  validate_required_strings obj (path ∷ paths) =
      first_error (check_field "" (lib.nested_string obj path))
        (validate_required_strings obj paths)

  unfoldable pub validate_app_protect_policy : Unstructured → Option String
  unfolding validate_required_fields
  validate_app_protect_policy pol =
      about "Policy" pol.name (validate_required_fields pol app_protect_policy_required_fields)

  unfoldable pub validate_app_protect_log_conf : Unstructured → Option String
  unfolding validate_required_fields
  validate_app_protect_log_conf conf =
      about "Log Configuration" conf.name
        (validate_required_fields conf app_protect_log_conf_required_fields)

  unfoldable pub validate_app_protect_user_sig : Unstructured → Option String
  unfolding validate_required_slices
  validate_app_protect_user_sig sig =
      about "User Signature" sig.name
        (validate_required_slices sig app_protect_user_sig_required_slices)

unfoldable pub get_ns_name : Unstructured → String
get_ns_name obj = concat (obj.namespace ∷ "/" ∷ obj.name ∷ [])
