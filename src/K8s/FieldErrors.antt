-- ===== src/K8s/FieldErrors.antt =====
-- The errors of a validation, as internal/k8s/validation.go and pkg/apis/configuration/validation
-- build them: a kind, the path of the field, and what is wrong with it.
use aspenmesh_k3s_multiclust.Prelude.{ℕ, String}
use aspenmesh_k3s_multiclust.Prelude.Integers.{ℤ}

pub data FieldPath : Type 0 where
  new_path : String → FieldPath
  child : FieldPath → String → FieldPath
  index : FieldPath → ℕ → FieldPath

pub data FieldError : Type 0 where
  required : FieldPath → String → FieldError
  duplicate : FieldPath → String → FieldError
  too_many : FieldPath → ℕ → ℕ → FieldError
  invalid : FieldPath → String → String → FieldError
  forbidden : FieldPath → String → FieldError
  not_found : FieldPath → String → FieldError
  invalid_number : FieldPath → ℤ → String → FieldError
