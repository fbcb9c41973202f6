-- ===== src/K8s/AppProtect/Policies.antt =====
-- app_protect_configuration.go: whether signatures satisfy the requirements of a policy.
pub mod Verified
pub mod Satisfied
use aspenmesh_k3s_multiclust.Prelude.{
  ℕ, String, Bool, true, false, not, ◌&&◌, ◌||◌, Option, none, some, List, [], ◌∷◌, ◌++◌, ◌==◌, ltb,
  any, all, if◌then◌else◌,
}
use aspenmesh_k3s_multiclust.Prelude.Dict.{Dict, values}
use aspenmesh_k3s_multiclust.K8s.AppProtect.{
  missing_user_sig_error_msg, RevTimes, SignatureReq, PolicyEx, UserSigEx, set_policy_invalid,
  set_policy_valid, delete, add_or_update, policy, Change, Problem, rejected,
}

-- Before(max) and After(min), as far as they are given; false when neither is.
abbrev pub is_between : (min_rev max_rev : Option ℕ) → ℕ → Bool
is_between (some earliest) (some latest) time = ltb time latest && ltb earliest time
is_between none (some latest) time = ltb time latest
is_between (some earliest) none time = ltb earliest time
is_between none none time = false

abbrev pub is_time_satisfied : (same_tag : Bool) → Option RevTimes → Option ℕ → Bool
is_time_satisfied same_tag none time = same_tag
is_time_satisfied same_tag (some times) none = same_tag
is_time_satisfied same_tag (some times) (some time) =
    is_between times.min_rev_time times.max_rev_time time

unfoldable pub is_req_satisfied_by_user_sig : SignatureReq → UserSigEx → Bool
is_req_satisfied_by_user_sig req sig =
    if sig.tag == "" || not (sig.tag == req.tag)
    then false
    else is_time_satisfied (sig.tag == req.tag) req.rev_times sig.rev_time

unfoldable pub is_req_satisfied_by_user_sigs : SignatureReq → Dict UserSigEx → Bool
unfolding is_req_satisfied_by_user_sig
is_req_satisfied_by_user_sigs req sigs =
    any (λ sig. is_req_satisfied_by_user_sig req sig && sig.is_valid) (values sigs)

unfoldable pub verify_policy_against_user_sigs : Dict UserSigEx → PolicyEx → Bool
unfolding is_req_satisfied_by_user_sigs
verify_policy_against_user_sigs sigs pol =
    all (λ req. is_req_satisfied_by_user_sigs req sigs) pol.signature_reqs

-- The policies as they are changed, and what the loop returns.
pub record Verification : Type 0 where
  pub policies : Dict PolicyEx
  pub changes : List Change
  pub problems : List Problem

-- The body of the loop: a policy that lacked signatures, and then one that is valid.
unfoldable pub revive_policy : Dict UserSigEx → PolicyEx → PolicyEx × List Change
unfolding verify_policy_against_user_sigs
revive_policy sigs pol =
    if not pol.is_valid && pol.error_msg == missing_user_sig_error_msg
    then (if verify_policy_against_user_sigs sigs pol
        then (
          set_policy_valid pol,
          record { op = add_or_update; resource = policy (set_policy_valid pol) } ∷ [],
        )
        else (pol, []))
    else (pol, [])

unfoldable pub retire_policy : Dict UserSigEx → PolicyEx → PolicyEx × List Change × List Problem
unfolding verify_policy_against_user_sigs
retire_policy sigs pol =
    if pol.is_valid
    then (if verify_policy_against_user_sigs sigs pol then (pol, [], []) else (
      set_policy_invalid missing_user_sig_error_msg pol,
      record { op = delete; resource = policy (set_policy_invalid missing_user_sig_error_msg pol) }
          ∷ [],
      rejected pol.obj missing_user_sig_error_msg ∷ [],
    ))
    else (pol, [], [])

unfoldable pub verify_policy : Dict UserSigEx → PolicyEx → PolicyEx × List Change × List Problem
unfolding revive_policy retire_policy
verify_policy sigs pol =
    let (revived, additions) = revive_policy sigs pol in
    let (verified, deletions, problems) = retire_policy sigs revived in
    (verified, additions ++ deletions, problems)

unfoldable pub verify_policies : Dict UserSigEx → Dict PolicyEx → Verification
unfolding verify_policy
verify_policies sigs [] = record { policies = []; changes = []; problems = [] }
verify_policies sigs ((key, pol) ∷ pols) =
    let (verified, changes, problems) = verify_policy sigs pol in
    let rest = verify_policies sigs pols in
    record {
      policies = (key, verified) ∷ rest.policies;
      changes = changes ++ rest.changes;
      problems = problems ++ rest.problems;
    }
