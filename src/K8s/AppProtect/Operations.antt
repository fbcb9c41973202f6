-- ===== src/K8s/AppProtect/Operations.antt =====
-- app_protect_configuration.go: the operations of ConfigurationImpl. `none` is a panic.
pub mod Created
pub mod Consistent
pub mod Requests
pub mod Reported
use aspenmesh_k3s_multiclust.Prelude.{
  String, Bool, true, false, Option, none, some, List, [], ◌∷◌, ◌++◌, ◌==◌, ◌>>=◌, if◌then◌else◌,
}
use aspenmesh_k3s_multiclust.Prelude.Texts.{concat}
use aspenmesh_k3s_multiclust.Prelude.Dict.{Dict, lookup, insert, remove}
use aspenmesh_k3s_multiclust.Prelude.Results.{Result, ok, err}
use aspenmesh_k3s_multiclust.K8s.AppProtect.{
  Unstructured, Library, missing_user_sig_error_msg, PolicyEx, LogConfEx, UserSigEx,
  set_policy_invalid, Operation, delete, add_or_update, Resource, policy, log_conf, user_sig,
  Change, Problem, UserSigChange, rejected, ConfigurationImpl,
}
use aspenmesh_k3s_multiclust.K8s.AppProtect.Fields.{get_ns_name}
use aspenmesh_k3s_multiclust.K8s.AppProtect.Create.{
  create_app_protect_policy_ex, create_app_protect_log_conf_ex, create_app_protect_user_sig_ex,
}
use aspenmesh_k3s_multiclust.K8s.AppProtect.Signatures.{Reconciliation, reconcile_user_sigs}
use aspenmesh_k3s_multiclust.K8s.AppProtect.Policies.{
  verify_policy_against_user_sigs, Verification, verify_policies,
}

abbrev pub Outcome : Type 0
Outcome = ConfigurationImpl × List Change × List Problem

abbrev pub SigOutcome : Type 0
SigOutcome = ConfigurationImpl × UserSigChange × List Problem

abbrev pub no_sig_change : UserSigChange
no_sig_change = record { policy_deletions = []; policy_adds_or_updates = []; user_sigs = [] }

unfoldable pub get_all_user_sig_objects : Dict UserSigEx → List Unstructured
get_all_user_sig_objects [] = []
get_all_user_sig_objects ((key, uds) ∷ sigs) =
    let out = get_all_user_sig_objects sigs in if uds.is_valid then uds.obj ∷ out else out

abbrev with_policy : Operation → Unstructured → UserSigChange → UserSigChange
with_policy delete obj s = record s { policy_deletions = s.policy_deletions ++ obj ∷ [] }
with_policy add_or_update obj s = record s {
  policy_adds_or_updates = s.policy_adds_or_updates ++ obj ∷ [];
}

-- The switch in the loop; a change of a log configuration matches no case.
abbrev pub collect_change : Operation → Resource → UserSigChange → UserSigChange
collect_change op (policy impl) s = with_policy op impl.obj s
collect_change op (log_conf impl) s = s
collect_change op (user_sig impl) s = s

unfoldable pub collect_changes : List Change → UserSigChange → UserSigChange
collect_changes [] s = s
collect_changes (c ∷ cs) s = collect_changes cs (collect_change c.op c.resource s)

unfoldable pub build_user_sig_change_and_problems :
    ConfigurationImpl → List Problem → UserSigChange → SigOutcome
unfolding reconcile_user_sigs verify_policies collect_changes get_all_user_sig_objects
build_user_sig_change_and_problems ci problems change =
    let recon = reconcile_user_sigs ci.user_sigs in
    let ver = verify_policies recon.user_sigs ci.policies in
    (
      record ci { policies = ver.policies; user_sigs = recon.user_sigs },
      record (collect_changes (recon.changes ++ ver.changes) change) {
        user_sigs = get_all_user_sig_objects recon.user_sigs;
      },
      problems ++ recon.problems ++ ver.problems,
    )

abbrev pub put_policy : String → PolicyEx → ConfigurationImpl → ConfigurationImpl
put_policy key pol ci = record ci { policies = insert key pol ci.policies }

-- What is stored when the policy was created with an error, or with none, and is then verified.
abbrev pub policy_outcome :
    Unstructured
    → ConfigurationImpl
    → (created : PolicyEx) → Option String
    → (verified : Bool) → Outcome
policy_outcome obj ci pol (some e) verified = (
  put_policy (get_ns_name obj) pol ci,
  record { op = delete; resource = policy pol } ∷ [],
  rejected obj e ∷ [],
)
policy_outcome obj ci pol none true = (
  put_policy (get_ns_name obj) pol ci,
  record { op = add_or_update; resource = policy pol } ∷ [],
  [],
)
policy_outcome obj ci pol none false =
    let unsatisfied = set_policy_invalid missing_user_sig_error_msg pol in
    (
      put_policy (get_ns_name obj) unsatisfied ci,
      record { op = delete; resource = policy unsatisfied } ∷ [],
      rejected obj missing_user_sig_error_msg ∷ [],
    )

abbrev pub log_conf_outcome : Unstructured → Resource → Option String → List Change × List Problem
log_conf_outcome obj conf (some e) =
    (record { op = delete; resource = conf } ∷ [], rejected obj e ∷ [])
log_conf_outcome obj conf none = (record { op = add_or_update; resource = conf } ∷ [], [])

abbrev error_problem : Unstructured → Option String → List Problem
error_problem obj none = []
error_problem obj (some e) = rejected obj e ∷ []

module _ (lib : Library) where
  unfoldable pub add_or_update_policy : Unstructured → ConfigurationImpl → Option Outcome
  unfolding get_ns_name create_app_protect_policy_ex verify_policy_against_user_sigs
  add_or_update_policy obj ci = create_app_protect_policy_ex lib obj >>= λ created. some (
      policy_outcome obj ci created.0 created.1
        (verify_policy_against_user_sigs ci.user_sigs created.0))

  unfoldable pub add_or_update_log_conf : Unstructured → ConfigurationImpl → Outcome
  unfolding get_ns_name create_app_protect_log_conf_ex
  add_or_update_log_conf obj ci =
      let (conf, error) = create_app_protect_log_conf_ex lib obj in
      let (changes, problems) = log_conf_outcome obj (log_conf conf) error in
      (record ci { log_confs = insert (get_ns_name obj) conf ci.log_confs }, changes, problems)

  unfoldable pub add_or_update_user_sig : Unstructured → ConfigurationImpl → SigOutcome
  unfolding get_ns_name create_app_protect_user_sig_ex build_user_sig_change_and_problems
  add_or_update_user_sig obj ci =
      let (sig, error) = create_app_protect_user_sig_ex lib obj in
      build_user_sig_change_and_problems
        (record ci { user_sigs = insert (get_ns_name obj) sig ci.user_sigs })
        (error_problem obj error) (record no_sig_change { user_sigs = obj ∷ [] })

  abbrev pub served : Bool → Unstructured → String → Result Unstructured
  served true obj message = ok obj
  served false obj message = err (lib.errorf message)

  abbrev not_found : String → String → Result Unstructured
  not_found kind key = err (concat ("App Protect " ∷ kind ∷ " " ∷ key ∷ " not found" ∷ []))

  unfoldable pub get_app_resource : (kind key : String) → ConfigurationImpl → Result Unstructured
  get_app_resource kind key ci =
      if kind == "APPolicy"
      then elim (lookup key ci.policies) [
        | some pol ↦ served pol.is_valid pol.obj pol.error_msg
        | none ↦ not_found "Policy" key
      ]
      else (if kind == "APLogConf"
          then elim (lookup key ci.log_confs) [
            | some conf ↦ served conf.is_valid conf.obj conf.error_msg
            | none ↦ not_found "LogConf" key
          ]
          else (if kind == "APUserSig"
              then elim (lookup key ci.user_sigs) [
                | some sig ↦ served sig.is_valid sig.obj sig.error_msg
                | none ↦ not_found "UserSig" key
              ]
              else err (concat ("Unknown App Protect resource kind " ∷ kind ∷ []))))

-- By what is stored under the key.
abbrev pub without_policy : String → ConfigurationImpl → Option PolicyEx → Outcome
without_policy key ci none = (ci, [], [])
without_policy key ci (some pol) = (
  record ci { policies = remove key ci.policies },
  record { op = delete; resource = policy pol } ∷ [],
  [],
)

unfoldable pub delete_policy : String → ConfigurationImpl → Outcome
delete_policy key ci = without_policy key ci (lookup key ci.policies)

abbrev pub without_log_conf : String → ConfigurationImpl → Option LogConfEx → Outcome
without_log_conf key ci none = (ci, [], [])
without_log_conf key ci (some conf) = (
  record ci { log_confs = remove key ci.log_confs },
  record { op = delete; resource = log_conf conf } ∷ [],
  [],
)

unfoldable pub delete_log_conf : String → ConfigurationImpl → Outcome
delete_log_conf key ci = without_log_conf key ci (lookup key ci.log_confs)

unfoldable pub without_user_sig : String → ConfigurationImpl → Option UserSigEx → SigOutcome
unfolding build_user_sig_change_and_problems
without_user_sig key ci none = (ci, no_sig_change, [])
without_user_sig key ci (some sig) =
    build_user_sig_change_and_problems (record ci { user_sigs = remove key ci.user_sigs }) []
      (record no_sig_change { user_sigs = sig.obj ∷ [] })

unfoldable pub delete_user_sig : String → ConfigurationImpl → SigOutcome
unfolding without_user_sig
delete_user_sig key ci = without_user_sig key ci (lookup key ci.user_sigs)
