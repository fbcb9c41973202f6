-- ===== src/K8s/AppProtect.antt =====
-- internal/k8s/appprotect: the policies, log configurations and user defined signatures of App
-- Protect. Here are the types of app_protect_configuration.go and the settings; the operations are
-- in the child modules. FakeConfiguration, which serves tests, is not modelled.
pub mod LogDestination
pub mod Fields
pub mod Create
pub mod Signatures
pub mod Policies
pub mod Operations
use aspenmesh_k3s_multiclust.Prelude.{ℕ, String, Bool, true, false, Option, none, List, []}
use aspenmesh_k3s_multiclust.Prelude.Dict.{Dict}
use aspenmesh_k3s_multiclust.Prelude.Results.{Result}

-- An object of a kind that the program has no type for. Its content is only read by the library of
-- the Kubernetes API; a creation timestamp is an instant, and only compared.
pub record Unstructured : Type 0 where
  pub namespace : String
  pub name : String
  pub uid : String
  pub creation_timestamp : ℕ
  pub content : String

-- What unstructured.NestedMap and the like return: an error, `found` false, or the field.
pub data Nested {ℓ} (A : Type ℓ) : Type ℓ where
  wrong_kind : String → Nested A
  absent : Nested A
  present : A → Nested A

-- A value of the type interface{}: a string, or something else.
pub data Value : Type 0 where
  text : String → Value
  no_text : Value

-- An entry of the list of signature requirements: a map, or something else.
pub data Item : Type 0 where
  fields : Dict Value → Item
  no_fields : Item

-- The code outside of the repository: the readers of the Kubernetes API for a path of field names,
-- time.Parse with the layout RFC3339, and fmt.Errorf of a text and nothing else.
pub record Library : Type 0 where
  pub nested_map : Unstructured → List String → Nested (Dict Value)
  pub nested_slice : Unstructured → List String → Nested (List Item)
  pub nested_string : Unstructured → List String → Nested String
  pub parse_time : String → Result ℕ
  pub errorf : String → String

abbrev pub failed_validation_error_msg : String
failed_validation_error_msg = "Validation Failed"

abbrev pub missing_user_sig_error_msg : String
missing_user_sig_error_msg = "Policy has unsatisfied signature requirements"

abbrev pub duplicated_tags_error_msg : String
duplicated_tags_error_msg = "Duplicate tag set"

abbrev pub invalid_timestamp_error_msg : String
invalid_timestamp_error_msg = "Invalid timestamp"

-- An instant is a number, and only compared; a bound that is not given is nil.
pub record RevTimes : Type 0 where
  pub min_rev_time : Option ℕ
  pub max_rev_time : Option ℕ

pub record SignatureReq : Type 0 where
  pub tag : String
  pub rev_times : Option RevTimes

pub record PolicyEx : Type 0 where
  pub obj : Unstructured
  pub signature_reqs : List SignatureReq
  pub is_valid : Bool
  pub error_msg : String

pub record LogConfEx : Type 0 where
  pub obj : Unstructured
  pub is_valid : Bool
  pub error_msg : String

pub record UserSigEx : Type 0 where
  pub obj : Unstructured
  pub tag : String
  pub rev_time : Option ℕ
  pub is_valid : Bool
  pub error_msg : String

-- PolicyEx.setInvalid and setValid.
abbrev pub set_policy_invalid : String → PolicyEx → PolicyEx
set_policy_invalid reason pol = record pol { is_valid = false; error_msg = reason }

abbrev pub set_policy_valid : PolicyEx → PolicyEx
set_policy_valid pol = record pol { is_valid = true; error_msg = "" }

-- UserSigEx.setInvalid and setValid.
abbrev pub set_sig_invalid : String → UserSigEx → UserSigEx
set_sig_invalid reason sig = record sig { is_valid = false; error_msg = reason }

abbrev pub set_sig_valid : UserSigEx → UserSigEx
set_sig_valid sig = record sig { is_valid = true; error_msg = "" }

pub data Operation : Type 0 where
  delete : Operation
  add_or_update : Operation

-- The types that a change can hold.
pub data Resource : Type 0 where
  policy : PolicyEx → Resource
  log_conf : LogConfEx → Resource
  user_sig : UserSigEx → Resource

pub record Change : Type 0 where
  pub op : Operation
  pub resource : Resource

pub record Problem : Type 0 where
  pub object : Unstructured
  pub reason : String
  pub message : String

pub record UserSigChange : Type 0 where
  pub policy_deletions : List Unstructured
  pub policy_adds_or_updates : List Unstructured
  pub user_sigs : List Unstructured

abbrev pub rejected : Unstructured → String → Problem
rejected obj message = record { object = obj; reason = "Rejected"; message = message }

pub record ConfigurationImpl : Type 0 where
  pub policies : Dict PolicyEx
  pub log_confs : Dict LogConfEx
  pub user_sigs : Dict UserSigEx

abbrev pub new_configuration_impl : ConfigurationImpl
new_configuration_impl = record { policies = []; log_confs = []; user_sigs = [] }
