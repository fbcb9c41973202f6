-- ===== src/Apis/Validation.antt =====
-- pkg/apis/configuration/validation: the checks of the custom resources. A resource is accepted when
-- the list of errors is empty.
pub mod Names
pub mod Variables
pub mod Upstreams
pub mod Actions
pub mod Routes
pub mod VirtualServers
pub mod Listeners
pub mod Unique
mod Witnesses
use aspenmesh_k3s_multiclust.Prelude.{append-empty}
use aspenmesh_k3s_multiclust.Prelude.{
  ◌≡◌, refl, sym, eq_iff, Bool-cases, ap, ◌∙◌, inl, inr, true, false, arith, Elem, ℕ, String, Bool,
  Option, none, some, List, [], ◌∷◌, ◌++◌, any, ◌==◌,
}
use aspenmesh_k3s_multiclust.Prelude.Results.{Result, ok, err}
use aspenmesh_k3s_multiclust.Prelude.Integers.{ℤ, pos}
use aspenmesh_k3s_multiclust.K8s.FieldErrors.{FieldPath, index, FieldError, invalid, invalid_number}
use aspenmesh_k3s_multiclust.Configs.ParsingHelpers.{ParsingLibrary}

-- The code outside of the repository: the checks of the Kubernetes library, which return messages;
-- the texts that it and fmt make; and what the regular expressions of the package, named in the
-- comments, find.
pub record ValidationLibrary : Type 0 where
  pub is_dns1123_subdomain : String → List String
  pub is_dns1123_label : String → List String
  pub is_dns1035_label : String → List String
  pub is_qualified_name : String → List String
  pub is_http_header_name : String → List String
  pub is_valid_label_value : String → List String
  pub is_valid_port_num : ℤ → List String
  pub is_in_range : ℤ → ℤ → ℤ → List String
  pub inclusive_range_error : ℤ → ℤ → String
  pub regex_error : (message pattern : String) → (examples : List String) → String
  pub compile_regexp : String → Option String
  pub matches_escaped_strings : String → Bool
  pub matches_header_value : String → Bool
  pub matches_return_type : String → Bool
  pub matches_path : String → Bool
  pub matches_cookie_name : String → Bool
  pub matches_argument_name : String → Bool
  -- nginxVariableRegexp.FindAllStringSubmatch: the texts between `${` and `}`
  pub capture_variables : String → List String
  pub parsing : ParsingLibrary

-- for _, msg := range … { allErrs = append(allErrs, field.Invalid(path, value, msg)) }
abbrev pub invalid_each : FieldPath → String → List String → List FieldError
invalid_each path value [] = []
invalid_each path value (msg ∷ msgs) = invalid path value msg ∷ invalid_each path value msgs

abbrev pub invalid_number_each : FieldPath → ℤ → List String → List FieldError
invalid_number_each path value [] = []
invalid_number_each path value (msg ∷ msgs) =
    invalid_number path value msg ∷ invalid_number_each path value msgs

-- The checks of a field that may be nil.
abbrev pub if_given {ℓ} : {A : Type ℓ} → (A → List FieldError) → Option A → List FieldError
if_given check none = []
if_given check (some value) = check value

-- The errors of the entries of a list, each at its index, which starts at `i`.
abbrev pub each_at {ℓ} :
    {A : Type ℓ} → (A → FieldPath → List FieldError) → FieldPath → ℕ → List A → List FieldError
each_at check path i [] = []
each_at check path i (x ∷ xs) = check x (index path i) ++ each_at check path (ℕ.suc i) xs

-- One error when the parser fails.
abbrev pub error_of {ℓ} : {A : Type ℓ} → (String → FieldError) → Result A → List FieldError
error_of report (ok a) = []
error_of report (err e) = report e ∷ []

-- Membership in a set of strings.
abbrev pub has : List String → String → Bool
has names name = any (λ n. n == name) names

-- Where no entry has an error, the one at hand has none.
pub each_at-empty {ℓ} :
    {A : Type ℓ} (check : A → FieldPath → List FieldError) (path : FieldPath) (i : ℕ) (xs : List A)
    (x : A)
    → each_at check path i xs ≡ []
    → Elem x xs
    → (here : FieldPath) × (check x here ≡ [])
each_at-empty check path i [] x h m = elim m [ ]
each_at-empty check path i (y ∷ ys) x h (inl e) = (
  index path i,
  ap (λ z. check z (index path i)) e ∙ (append-empty (check y (index path i)) _ h).0,
)
each_at-empty check path i (y ∷ ys) x h (inr m) =
    each_at-empty check path (ℕ.suc i) ys x (append-empty (check y (index path i)) _ h).1 m

-- A name that is in no set with one more is not the one, and not in the set.
pub has-cons :
    (x y : String) (names : List String)
    → has (x ∷ names) y ≡ false
    → ((x == y) ≡ false) × (has names y ≡ false)
has-cons x y names h = ground arith

pub has-Elem : (name : String) (names : List String) → has names name ≡ true → Elem name names
has-Elem name [] h = cc
has-Elem name (n ∷ names) h = elim (Bool-cases (n == name)) [
  | inl e ↦ inl (sym ((eq_iff n name).0 e))
  | inr e ↦ inr (has-Elem name names (rw e at h))
]
