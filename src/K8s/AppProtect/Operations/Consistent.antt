-- ===== src/K8s/AppProtect/Operations/Consistent.antt =====
-- ConfigurationImpl: what every operation keeps.
use aspenmesh_k3s_multiclust.Prelude.{
  String, Distinct, ◌≡◌, refl, sym, ap, ◌∙◌, subst, ◌⊎◌, inl, inr, Bool, true, false, Option, none,
  some, List, [], ◌==◌, Bool-cases, some_inj, >>=-eq-some,
}
use aspenmesh_k3s_multiclust.Prelude.Dict.{
  Dict, lookup, insert, keys, lookup-insert, some_of_remove,
}
use aspenmesh_k3s_multiclust.Prelude.Uniform.{insert-Distinct, remove-Distinct}
use aspenmesh_k3s_multiclust.K8s.AppProtect.{
  Unstructured, Library, missing_user_sig_error_msg, failed_validation_error_msg,
  invalid_timestamp_error_msg, PolicyEx, LogConfEx, UserSigEx, Problem, UserSigChange,
  ConfigurationImpl, new_configuration_impl,
}
use aspenmesh_k3s_multiclust.K8s.AppProtect.Fields.{get_ns_name}
use aspenmesh_k3s_multiclust.K8s.AppProtect.Create.{create_app_protect_policy_ex}
use aspenmesh_k3s_multiclust.K8s.AppProtect.Signatures.{reconcile_user_sigs}
use aspenmesh_k3s_multiclust.K8s.AppProtect.Signatures.Reconciled.{IsWellFormed, AreWellFormed}
use aspenmesh_k3s_multiclust.K8s.AppProtect.Signatures.Valid.{
  AreReconciled, reconcile_user_sigs-AreWellFormed, reconcile_user_sigs-AreReconciled,
}
use aspenmesh_k3s_multiclust.K8s.AppProtect.Policies.{verify_policy_against_user_sigs}
use aspenmesh_k3s_multiclust.K8s.AppProtect.Policies.Verified.{
  IsVerified, message_of, decided_by, verify_invalid, verify_policy-IsVerified,
  lookup-verify_policies, keys-verify_policies,
}
use aspenmesh_k3s_multiclust.K8s.AppProtect.Operations.{
  Outcome, no_sig_change, build_user_sig_change_and_problems, put_policy, policy_outcome,
  add_or_update_policy, add_or_update_log_conf, add_or_update_user_sig, delete_policy,
  delete_log_conf, delete_user_sig, without_policy, without_log_conf, without_user_sig,
}
use aspenmesh_k3s_multiclust.K8s.AppProtect.Operations.Created.{
  IsCreated, create_app_protect_policy_ex-IsCreated, create_app_protect_user_sig_ex-IsWellFormed,
  create_app_protect_log_conf_ex-HasMessage,
}

-- Of the signatures with a tag one is valid, the oldest; a policy is valid exactly when its object
-- creates one without an error and the valid signatures satisfy its requirements.
pub record IsConsistent (lib : Library) (ci : ConfigurationImpl) : Type 0 where
  pub well_formed : AreWellFormed ci.user_sigs
  pub reconciled : AreReconciled ci.user_sigs
  pub unique : Distinct (keys ci.policies)
  pub verified :
      (key : String) (pol : PolicyEx)
      → lookup key ci.policies ≡ some pol
      → IsVerified lib ci.user_sigs pol
  pub log_conf_message :
      (key : String) (conf : LogConfEx)
      → lookup key ci.log_confs ≡ some conf
      → conf.is_valid ≡ (conf.error_msg == "")

pub new_configuration_impl-IsConsistent : (lib : Library) → IsConsistent lib new_configuration_impl
unfolding lookup
new_configuration_impl-IsConsistent lib = record {
  well_formed = record { unique = tt; each = λ key sig e. cc };
  reconciled = record { winner = λ key sig e. cc; one = λ j k s t e. cc };
  unique = tt;
  verified = λ key pol e. cc;
  log_conf_message = λ key conf e. cc;
}

-- A property of the values of a map is kept by a write of a value that has it.
found_after {ℓ κ} :
    {V : Type ℓ} (P : V → Type κ) (key : String) (v : V) (m : Dict V)
    → P v
    → ((k : String) (w : V) → lookup k m ≡ some w → P w)
    → (k : String) (w : V) → lookup k (insert key v m) ≡ some w
    → P w
found_after P key v m pv pm k w e = elim (Bool-cases (key == k)) [
  | inl t ↦ subst P (some_inj (sym (lookup-insert key k v m ∙ rw t) ∙ e)) pv
  | inr t ↦ pm k w (sym (lookup-insert key k v m ∙ rw t) ∙ e)
]

module _ (lib : Library) (before : Dict UserSigEx) (ci : ConfigurationImpl)
    (problems : List Problem) (change : UserSigChange) (wf : AreWellFormed ci.user_sigs)
    (once : Distinct (keys ci.policies))
    (verified : (key : String) (pol : PolicyEx)
      → lookup key ci.policies ≡ some pol
      → IsVerified lib before pol)
    (confs : (key : String) (conf : LogConfEx)
      → lookup key ci.log_confs ≡ some conf
      → conf.is_valid ≡ (conf.error_msg == "")) where
  build_user_sig_change_and_problems-IsConsistent :
      IsConsistent lib (build_user_sig_change_and_problems ci problems change).0
  unfolding build_user_sig_change_and_problems
  build_user_sig_change_and_problems-IsConsistent = record {
    well_formed = reconcile_user_sigs-AreWellFormed ci.user_sigs wf;
    reconciled = reconcile_user_sigs-AreReconciled ci.user_sigs wf;
    unique = keys-verify_policies (reconcile_user_sigs ci.user_sigs).user_sigs ci.policies once;
    verified = λ key pol e.
        let sigs = (reconcile_user_sigs ci.user_sigs).user_sigs in
        let (old, d, same) = lookup-verify_policies sigs ci.policies key pol e in
        subst (IsVerified lib sigs) (sym same)
          (verify_policy-IsVerified sigs old lib before (verified key old d));
    log_conf_message = confs;
  }

module _ (lib : Library) (ci : ConfigurationImpl) (ok : IsConsistent lib ci) where
  put_policy-IsConsistent :
      (key : String) (pol : PolicyEx)
      → IsVerified lib ci.user_sigs pol
      → IsConsistent lib (put_policy key pol ci)
  put_policy-IsConsistent key pol v = record {
    well_formed = ok.well_formed;
    reconciled = ok.reconciled;
    unique = insert-Distinct key pol ci.policies ok.unique;
    verified = found_after (IsVerified lib ci.user_sigs) key pol ci.policies v ok.verified;
    log_conf_message = ok.log_conf_message;
  }

  not_missing :
      (message : String)
      → (message ≡ failed_validation_error_msg) ⊎ (message ≡ invalid_timestamp_error_msg)
      → (message == missing_user_sig_error_msg) ≡ false
  not_missing message (inl e) = ap (λ x. x == missing_user_sig_error_msg) e
  not_missing message (inr e) = ap (λ x. x == missing_user_sig_error_msg) e

  policy_outcome-IsConsistent :
      (obj : Unstructured) (pol : PolicyEx) (e : Option String) (verified : Bool)
      → create_app_protect_policy_ex lib obj ≡ some (pol, e)
      → IsCreated (pol, e)
      → pol.obj ≡ obj
      → verify_policy_against_user_sigs ci.user_sigs pol ≡ verified
      → IsConsistent lib (policy_outcome obj ci pol e verified).0
  policy_outcome-IsConsistent obj pol (some e) verified made (invalid, why) same v =
      put_policy-IsConsistent (get_ns_name obj) pol (record {
        created = pol;
        creation_error = some e;
        made = ap (create_app_protect_policy_ex lib) same ∙ made;
        reqs = refl;
        decided = (refl, invalid, not_missing pol.error_msg why);
      })
  policy_outcome-IsConsistent obj pol none true made (valid, message) same v =
      put_policy-IsConsistent (get_ns_name obj) pol (record {
        created = pol;
        creation_error = none;
        made = ap (create_app_protect_policy_ex lib) same ∙ made;
        reqs = refl;
        decided =
            (decided_by ci.user_sigs pol (valid ∙ sym v), message ∙ sym (ap message_of valid));
      })
  policy_outcome-IsConsistent obj pol none false made (valid, message) same v =
      put_policy-IsConsistent (get_ns_name obj) _ (record {
        created = pol;
        creation_error = none;
        made = ap (create_app_protect_policy_ex lib) same ∙ made;
        reqs = refl;
        decided = (
          decided_by ci.user_sigs _
              (sym (verify_invalid ci.user_sigs pol missing_user_sig_error_msg ∙ v)),
          refl,
        );
      })

  pub add_or_update_policy-IsConsistent :
      (obj : Unstructured) (out : Outcome)
      → add_or_update_policy lib obj ci ≡ some out
      → IsConsistent lib out.0
  unfolding add_or_update_policy
  add_or_update_policy-IsConsistent obj out e =
      let (created, found, last) = >>=-eq-some (create_app_protect_policy_ex lib obj) _ e in
      let (right, same) = create_app_protect_policy_ex-IsCreated lib obj created found in
      subst (λ (o : Outcome). IsConsistent lib o.0) (some_inj last)
        (policy_outcome-IsConsistent obj created.0 created.1 _ found right same refl)

  pub add_or_update_log_conf-IsConsistent :
      (obj : Unstructured) → IsConsistent lib (add_or_update_log_conf lib obj ci).0
  unfolding add_or_update_log_conf
  add_or_update_log_conf-IsConsistent obj = record {
    well_formed = ok.well_formed;
    reconciled = ok.reconciled;
    unique = ok.unique;
    verified = ok.verified;
    log_conf_message =
        found_after (λ (c : LogConfEx). c.is_valid ≡ (c.error_msg == "")) (get_ns_name obj) _
          ci.log_confs (create_app_protect_log_conf_ex-HasMessage lib obj) ok.log_conf_message;
  }

  pub add_or_update_user_sig-IsConsistent :
      (obj : Unstructured) → IsConsistent lib (add_or_update_user_sig lib obj ci).0
  unfolding add_or_update_user_sig
  add_or_update_user_sig-IsConsistent obj =
      build_user_sig_change_and_problems-IsConsistent lib ci.user_sigs _ [] no_sig_change
        (record {
          unique = insert-Distinct (get_ns_name obj) _ ci.user_sigs ok.well_formed.unique;
          each =
              found_after IsWellFormed (get_ns_name obj) _ ci.user_sigs
                (create_app_protect_user_sig_ex-IsWellFormed lib obj) ok.well_formed.each;
        })
        ok.unique ok.verified ok.log_conf_message

  without_policy-IsConsistent :
      (key : String) (o : Option PolicyEx) → IsConsistent lib (without_policy key ci o).0
  without_policy-IsConsistent key none = ok
  without_policy-IsConsistent key (some pol) = record {
    well_formed = ok.well_formed;
    reconciled = ok.reconciled;
    unique = remove-Distinct key ci.policies ok.unique;
    verified = λ k p e. ok.verified k p (some_of_remove key k p ci.policies e).1;
    log_conf_message = ok.log_conf_message;
  }

  without_log_conf-IsConsistent :
      (key : String) (o : Option LogConfEx) → IsConsistent lib (without_log_conf key ci o).0
  without_log_conf-IsConsistent key none = ok
  without_log_conf-IsConsistent key (some conf) = record {
    well_formed = ok.well_formed;
    reconciled = ok.reconciled;
    unique = ok.unique;
    verified = ok.verified;
    log_conf_message = λ k c e. ok.log_conf_message k c (some_of_remove key k c ci.log_confs e).1;
  }

  without_user_sig-IsConsistent :
      (key : String) (o : Option UserSigEx) → IsConsistent lib (without_user_sig key ci o).0
  unfolding without_user_sig
  without_user_sig-IsConsistent key none = ok
  without_user_sig-IsConsistent key (some sig) =
      build_user_sig_change_and_problems-IsConsistent lib ci.user_sigs _ [] no_sig_change
        (record {
          unique = remove-Distinct key ci.user_sigs ok.well_formed.unique;
          each = λ k s e. ok.well_formed.each k s (some_of_remove key k s ci.user_sigs e).1;
        })
        ok.unique ok.verified ok.log_conf_message

  pub delete_policy-IsConsistent : (key : String) → IsConsistent lib (delete_policy key ci).0
  unfolding delete_policy
  delete_policy-IsConsistent key = without_policy-IsConsistent key _

  pub delete_log_conf-IsConsistent : (key : String) → IsConsistent lib (delete_log_conf key ci).0
  unfolding delete_log_conf
  delete_log_conf-IsConsistent key = without_log_conf-IsConsistent key _

  pub delete_user_sig-IsConsistent : (key : String) → IsConsistent lib (delete_user_sig key ci).0
  unfolding delete_user_sig
  delete_user_sig-IsConsistent key = without_user_sig-IsConsistent key _
