-- ===== src/K8s/AppProtect/Operations/Created.antt =====
-- app_protect_configuration.go: the representation of an object, and the error that comes with it.
use aspenmesh_k3s_multiclust.Prelude.{
  ℕ, String, ◌≡◌, refl, ◌⊎◌, inl, inr, true, false, Option, none, some, List, ◌==◌, some_inj,
  >>=-eq-some, subst,
}
use aspenmesh_k3s_multiclust.Prelude.Results.{Result, ok, err}
use aspenmesh_k3s_multiclust.K8s.AppProtect.{
  Unstructured, Nested, wrong_kind, absent, present, Item, Library, failed_validation_error_msg,
  invalid_timestamp_error_msg, SignatureReq, PolicyEx, LogConfEx,
}
use aspenmesh_k3s_multiclust.K8s.AppProtect.Create.{
  build_signature_reqs, create_app_protect_policy_ex, create_app_protect_log_conf_ex,
  create_app_protect_user_sig_ex, policy_of, policy_by_requirements, policy_by_validation,
  log_conf_by_validation, sig_at_time, sig_by_time, sig_by_validation,
}
use aspenmesh_k3s_multiclust.K8s.AppProtect.Signatures.Reconciled.{IsWellFormed}

-- Without an error the policy is valid; with one it is not, for one of two reasons.
abbrev pub IsCreated : PolicyEx × Option String → Type 0
IsCreated (pol, none) = (pol.is_valid ≡ true) × (pol.error_msg ≡ "")
IsCreated (pol, some e) =
    (pol.is_valid ≡ false)
    × ((pol.error_msg ≡ failed_validation_error_msg)
        ⊎ (pol.error_msg ≡ invalid_timestamp_error_msg))

module _ (lib : Library) (obj : Unstructured) where
  by_reqs-IsCreated :
      (reqs : Result (List SignatureReq))
      → IsCreated (policy_of lib obj reqs) × ((policy_of lib obj reqs).0.obj ≡ obj)
  by_reqs-IsCreated (ok reqs) = ((refl, refl), refl)
  by_reqs-IsCreated (err e) = ((refl, inr refl), refl)

  AreCreated : Option (PolicyEx × Option String) → Type 0
  AreCreated o =
      (created : PolicyEx × Option String)
      → o ≡ some created
      → IsCreated created × (created.0.obj ≡ obj)

  some-AreCreated :
      (made : PolicyEx × Option String)
      → IsCreated made × (made.0.obj ≡ obj)
      → AreCreated (some made)
  unfolding AreCreated
  some-AreCreated made h created e = subst (λ c. IsCreated c × (c.0.obj ≡ obj)) (some_inj e) h

  policy_by_requirements-AreCreated :
      (list : Nested (List Item)) → AreCreated (policy_by_requirements lib obj list)
  unfolding policy_by_requirements AreCreated
  policy_by_requirements-AreCreated (wrong_kind e) = some-AreCreated _ ((refl, inl refl), refl)
  policy_by_requirements-AreCreated absent = some-AreCreated _ ((refl, refl), refl)
  policy_by_requirements-AreCreated (present list) = λ created e.
      let (reqs, found, last) = >>=-eq-some (build_signature_reqs lib list) _ e in
      subst (λ c. IsCreated c × (c.0.obj ≡ obj)) (some_inj last) (by_reqs-IsCreated reqs)

  policy_by_validation-AreCreated :
      (e : Option String) → AreCreated (policy_by_validation lib obj e)
  unfolding policy_by_validation
  policy_by_validation-AreCreated (some e) = some-AreCreated _ ((refl, inl refl), refl)
  policy_by_validation-AreCreated none = policy_by_requirements-AreCreated _

  pub create_app_protect_policy_ex-IsCreated :
      (created : PolicyEx × Option String)
      → create_app_protect_policy_ex lib obj ≡ some created
      → IsCreated created × (created.0.obj ≡ obj)
  unfolding create_app_protect_policy_ex AreCreated
  create_app_protect_policy_ex-IsCreated = policy_by_validation-AreCreated _

  sig_at_time-IsWellFormed :
      (tag : String) (time : Result ℕ) → IsWellFormed (sig_at_time lib obj tag time).0
  sig_at_time-IsWellFormed tag (ok time) = record { message = refl; validated = λ h. refl }
  sig_at_time-IsWellFormed tag (err e) = record { message = refl; validated = λ h. cc }

  sig_by_time-IsWellFormed :
      (tag : String) (time : Nested String) → IsWellFormed (sig_by_time lib obj tag time).0
  sig_by_time-IsWellFormed tag (present s) = sig_at_time-IsWellFormed tag _
  sig_by_time-IsWellFormed tag absent = record { message = refl; validated = λ h. refl }
  sig_by_time-IsWellFormed tag (wrong_kind e) = record { message = refl; validated = λ h. refl }

  sig_by_validation-IsWellFormed :
      (e : Option String) → IsWellFormed (sig_by_validation lib obj e).0
  sig_by_validation-IsWellFormed (some e) = record { message = refl; validated = λ h. cc }
  sig_by_validation-IsWellFormed none = sig_by_time-IsWellFormed _ _

  pub create_app_protect_user_sig_ex-IsWellFormed :
      IsWellFormed (create_app_protect_user_sig_ex lib obj).0
  unfolding create_app_protect_user_sig_ex
  create_app_protect_user_sig_ex-IsWellFormed = sig_by_validation-IsWellFormed _

  HasMessage : LogConfEx → Type 0
  HasMessage conf = conf.is_valid ≡ (conf.error_msg == "")

  log_conf_by_validation-HasMessage :
      (e : Option String) → HasMessage (log_conf_by_validation lib obj e).0
  unfolding HasMessage
  log_conf_by_validation-HasMessage (some e) = refl
  log_conf_by_validation-HasMessage none = refl

  pub create_app_protect_log_conf_ex-HasMessage :
      (create_app_protect_log_conf_ex lib obj).0.is_valid
      ≡ ((create_app_protect_log_conf_ex lib obj).0.error_msg == "")
  unfolding create_app_protect_log_conf_ex HasMessage
  create_app_protect_log_conf_ex-HasMessage = log_conf_by_validation-HasMessage _
