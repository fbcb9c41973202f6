-- ===== src/K8s/AppProtect/Create.antt =====
-- app_protect_configuration.go: what is kept of an object, and why it is not valid. An error comes
-- with the representation; `none` is a failed type assertion, which panics.
use aspenmesh_k3s_multiclust.Prelude.{
  ℕ, String, true, false, Option, none, some, List, [], ◌∷◌, ◌>>=◌,
}
use aspenmesh_k3s_multiclust.Prelude.Texts.{concat}
use aspenmesh_k3s_multiclust.Prelude.Dict.{Dict, lookup}
use aspenmesh_k3s_multiclust.Prelude.Results.{Result, ok, err}
use aspenmesh_k3s_multiclust.K8s.AppProtect.{
  Unstructured, Nested, wrong_kind, absent, present, Value, text, no_text, Item, fields, no_fields,
  Library, failed_validation_error_msg, invalid_timestamp_error_msg, RevTimes, SignatureReq,
  PolicyEx, LogConfEx, UserSigEx,
}
use aspenmesh_k3s_multiclust.K8s.AppProtect.Fields.{
  validate_app_protect_policy, validate_app_protect_log_conf, validate_app_protect_user_sig,
}

-- v.(string)
abbrev as_text : Value → Option String
as_text (text s) = some s
as_text no_text = none

-- v.(map[string]interface{})
abbrev as_fields : Item → Option (Dict Value)
as_fields (fields m) = some m
as_fields no_fields = none

module _ (lib : Library) where
  abbrev labelled_time : String → Result ℕ → Result (Option ℕ)
  labelled_time label (ok time) = ok (some time)
  labelled_time label (err cause) = err (lib.errorf (concat (label ∷ cause ∷ [])))

  -- The bound under a key of the requirement, which may be missing.
  unfoldable pub rev_time_at : String → Option Value → Option (Result (Option ℕ))
  rev_time_at label none = some (ok none)
  rev_time_at label (some value) =
      as_text value >>= λ s. some (labelled_time label (lib.parse_time s))

  unfoldable pub build_rev_times : Dict Value → Option (Result RevTimes)
  unfolding rev_time_at
  build_rev_times requirement =
      rev_time_at "Error Parsing time from minRevisionDatetime "
        (lookup "minRevisionDatetime" requirement)
      >>= λ least. elim least [
        | err e ↦ some (err e)
        | ok min_rev ↦
            rev_time_at "Error Parsing time from maxRevisionDatetime  "
              (lookup "maxRevisionDatetime" requirement)
            >>= λ most. elim most [
              | err e ↦ some (err e)
              | ok max_rev ↦ some (ok (record { min_rev_time = min_rev; max_rev_time = max_rev }))
            ]
      ]

  abbrev with_req : SignatureReq → Result (List SignatureReq) → Result (List SignatureReq)
  with_req req (ok reqs) = ok (req ∷ reqs)
  with_req req (err e) = err e

  -- The loop over the requirements: an entry with no tag is passed over.
  unfoldable pub build_signature_reqs : List Item → Option (Result (List SignatureReq))
  unfolding build_rev_times
  build_signature_reqs [] = some (ok [])
  build_signature_reqs (item ∷ items) =
      let rest = build_signature_reqs items in
      as_fields item >>= λ requirement. elim (lookup "tag" requirement) [
        | none ↦ rest
        | some req_tag ↦ build_rev_times requirement >>= λ times. elim times [
          | err e ↦ some (err e)
          | ok time_req ↦ as_text req_tag >>= λ tag. rest >>= λ reqs.
              some (with_req (record { tag = tag; rev_times = some time_req }) reqs)
        ]
      ]

  abbrev invalid_policy : Unstructured → String → List String → PolicyEx × Option String
  invalid_policy obj reason message = (
    record { obj = obj; signature_reqs = []; is_valid = false; error_msg = reason },
    some (lib.errorf (concat message)),
  )

  abbrev valid_policy : Unstructured → List SignatureReq → PolicyEx × Option String
  valid_policy obj reqs =
      (record { obj = obj; signature_reqs = reqs; is_valid = true; error_msg = "" }, none)

  abbrev pub policy_of : Unstructured → Result (List SignatureReq) → PolicyEx × Option String
  policy_of obj (ok reqs) = valid_policy obj reqs
  policy_of obj (err e) =
      invalid_policy obj invalid_timestamp_error_msg
        ("Error creating time requirements from " ∷ obj.name ∷ ": " ∷ e ∷ [])

  -- By the signature requirements that the policy lists, once it is validated.
  unfoldable pub policy_by_requirements :
      Unstructured → Nested (List Item) → Option (PolicyEx × Option String)
  unfolding build_signature_reqs
  policy_by_requirements obj (wrong_kind e) = some (
      invalid_policy obj failed_validation_error_msg
        ("Error retrieving Signature requirements from " ∷ obj.name ∷ ": " ∷ e ∷ []))
  policy_by_requirements obj absent = some (valid_policy obj [])
  policy_by_requirements obj (present list) =
      build_signature_reqs list >>= λ reqs. some (policy_of obj reqs)

  unfoldable pub policy_by_validation :
      Unstructured → Option String → Option (PolicyEx × Option String)
  unfolding policy_by_requirements
  policy_by_validation obj (some e) = some (
      invalid_policy obj failed_validation_error_msg
        ("Error validating policy " ∷ obj.name ∷ ": " ∷ e ∷ []))
  policy_by_validation obj none =
      policy_by_requirements obj
        (lib.nested_slice obj ("spec" ∷ "policy" ∷ "signature-requirements" ∷ []))

  unfoldable pub create_app_protect_policy_ex : Unstructured → Option (PolicyEx × Option String)
  unfolding policy_by_validation validate_app_protect_policy
  create_app_protect_policy_ex obj = policy_by_validation obj (validate_app_protect_policy lib obj)

  abbrev pub log_conf_by_validation : Unstructured → Option String → LogConfEx × Option String
  log_conf_by_validation obj (some e) =
      (record { obj = obj; is_valid = false; error_msg = failed_validation_error_msg }, some e)
  log_conf_by_validation obj none = (record { obj = obj; is_valid = true; error_msg = "" }, none)

  unfoldable pub create_app_protect_log_conf_ex : Unstructured → LogConfEx × Option String
  unfolding validate_app_protect_log_conf
  create_app_protect_log_conf_ex obj =
      log_conf_by_validation obj (validate_app_protect_log_conf lib obj)

  abbrev invalid_sig : Unstructured → String → UserSigEx × Option String
  invalid_sig obj reason = (
    record { obj = obj; tag = ""; rev_time = none; is_valid = false; error_msg = reason },
    some (lib.errorf reason),
  )

  abbrev valid_sig : Unstructured → String → Option ℕ → UserSigEx × Option String
  valid_sig obj tag time =
      (record { obj = obj; tag = tag; rev_time = time; is_valid = true; error_msg = "" }, none)

  abbrev text_if_found : Nested String → String
  text_if_found (present s) = s
  text_if_found absent = ""
  text_if_found (wrong_kind e) = ""

  abbrev pub sig_at_time : Unstructured → String → Result ℕ → UserSigEx × Option String
  sig_at_time obj tag (ok time) = valid_sig obj tag (some time)
  sig_at_time obj tag (err e) = invalid_sig obj invalid_timestamp_error_msg

  -- By the revision time that the signature names; errors of the reader are passed over.
  abbrev pub sig_by_time : Unstructured → String → Nested String → UserSigEx × Option String
  sig_by_time obj tag (present s) = sig_at_time obj tag (lib.parse_time s)
  sig_by_time obj tag absent = valid_sig obj tag none
  sig_by_time obj tag (wrong_kind e) = valid_sig obj tag none

  abbrev pub sig_by_validation : Unstructured → Option String → UserSigEx × Option String
  sig_by_validation obj (some e) = invalid_sig obj failed_validation_error_msg
  sig_by_validation obj none =
      sig_by_time obj (text_if_found (lib.nested_string obj ("spec" ∷ "tag" ∷ [])))
        (lib.nested_string obj ("spec" ∷ "revisionDatetime" ∷ []))

  unfoldable pub create_app_protect_user_sig_ex : Unstructured → UserSigEx × Option String
  unfolding validate_app_protect_user_sig
  create_app_protect_user_sig_ex obj = sig_by_validation obj (validate_app_protect_user_sig lib obj)
