-- ===== src/K8s/Examples/AppProtectWitnesses.antt =====
-- Runs of the App Protect configuration, and the theorems about it at them.
use aspenmesh_k3s_multiclust.Prelude.{
  ℕ, String, ◌≡◌, refl, ◌↔◌, ◌≢◌, true, false, Option, none, some, List, [], ◌∷◌, Elem, Distinct,
  ◌==◌, if◌then◌else◌,
}
use aspenmesh_k3s_multiclust.Prelude.Dict.{lookup, insert, keys}
use aspenmesh_k3s_multiclust.Prelude.Results.{Result, ok}
use aspenmesh_k3s_multiclust.K8s.AppProtect.{
  Unstructured, Nested, absent, present, text, fields, Library, SignatureReq, PolicyEx, UserSigEx,
  delete, ConfigurationImpl, new_configuration_impl,
}
use aspenmesh_k3s_multiclust.K8s.AppProtect.Policies.{is_req_satisfied_by_user_sig}
use aspenmesh_k3s_multiclust.K8s.AppProtect.Policies.Satisfied.{
  IsRecent, is_req_satisfied_by_user_sig_lem,
}
use aspenmesh_k3s_multiclust.K8s.AppProtect.Operations.{
  get_app_resource, no_sig_change, build_user_sig_change_and_problems,
}
use aspenmesh_k3s_multiclust.K8s.AppProtect.Operations.Consistent.{IsConsistent}
use aspenmesh_k3s_multiclust.K8s.AppProtect.Operations.Requests.{
  Request, put_policy, put_user_sig, handle, Reachable, start, after, Reachable-IsConsistent,
  get_app_resource-satisfied,
}
use aspenmesh_k3s_multiclust.K8s.AppProtect.Operations.Reported.{
  list_under, Turned, build_user_sig_change_and_problems_lem,
}
use aspenmesh_k3s_multiclust.Prelude.Strings.{contains, split, join}
use aspenmesh_k3s_multiclust.Prelude.Strings.Split.{is_free}
use aspenmesh_k3s_multiclust.Prelude.Decimal.{show_natural}
use Prim.Native.Nat.{◌<◌}
use aspenmesh_k3s_multiclust.Prelude.{◌⊎◌, ◌||◌, arith}
use aspenmesh_k3s_multiclust.K8s.AppProtect.LogDestination.{
  LogDestinationLibrary, validate_app_protect_log_destination, syslog_server, IsForServer,
  validate_app_protect_log_destination-syslog_server,
}

-- A reader of objects whose content is a tag.
abbrev string_at : Unstructured → List String → Nested String
string_at obj [] = absent
string_at obj (name ∷ names) =
    let rest = string_at obj names in if name == "tag" then present obj.content else rest

abbrev library : Library
library = record {
  nested_map = λ obj path. present [];
  nested_slice = λ obj path. present (fields (("tag", text obj.content) ∷ []) ∷ []);
  nested_string = string_at;
  parse_time = λ s. ok 0;
  errorf = λ s. s;
}

abbrev object_named : String → ℕ → String → Unstructured
object_named name time tag = record {
  namespace = "default";
  name = name;
  uid = name;
  creation_timestamp = time;
  content = tag;
}

abbrev newer : Unstructured
newer = object_named "newer" 5 "tag"

abbrev older : Unstructured
older = object_named "older" 3 "tag"

abbrev policy_of_tag : Unstructured
policy_of_tag = object_named "policy" 9 "tag"

abbrev state_or_empty : Option ConfigurationImpl → ConfigurationImpl
state_or_empty none = new_configuration_impl
state_or_empty (some ci) = ci

unfoldable step : Request → ConfigurationImpl → ConfigurationImpl
unfolding handle
step q ci = state_or_empty (handle library q ci)

unfoldable one_signature : ConfigurationImpl
unfolding step
one_signature = step (put_user_sig newer) new_configuration_impl

unfoldable two_signatures : ConfigurationImpl
unfolding step one_signature
two_signatures = step (put_user_sig older) one_signature

unfoldable with_policy : ConfigurationImpl
unfolding step two_signatures
with_policy = step (put_policy policy_of_tag) two_signatures

with_policy-Reachable : Reachable library with_policy
unfolding with_policy two_signatures one_signature step handle lookup
with_policy-Reachable =
    after two_signatures with_policy (put_policy policy_of_tag)
      (after one_signature two_signatures (put_user_sig older)
        (after new_configuration_impl one_signature (put_user_sig newer) start refl) refl)
      refl

served_policy : get_app_resource library "APPolicy" "default/policy" with_policy ≡ ok policy_of_tag
unfolding get_app_resource with_policy two_signatures one_signature step handle lookup insert
served_policy = refl

loser_not_served :
    get_app_resource library "APUserSig" "default/newer" with_policy
    ≡ Result.err "Duplicate tag set"
unfolding get_app_resource with_policy two_signatures one_signature step handle lookup insert
loser_not_served = refl

Reachable-IsConsistent_example : IsConsistent library with_policy
Reachable-IsConsistent_example = Reachable-IsConsistent library with_policy with_policy-Reachable

get_app_resource-satisfied_example :
    (pol : PolicyEx) × (lookup "default/policy" with_policy.policies ≡ some pol)
    × (pol.obj ≡ policy_of_tag)
    × ((req : SignatureReq)
        → Elem req pol.signature_reqs
        → (k : String) × (sig : UserSigEx) × (lookup k with_policy.user_sigs ≡ some sig)
          × (get_app_resource library "APUserSig" k with_policy ≡ ok sig.obj)
          × (is_req_satisfied_by_user_sig req sig ≡ true))
get_app_resource-satisfied_example =
    get_app_resource-satisfied library with_policy with_policy-Reachable "default/policy"
      policy_of_tag served_policy

-- The signatures are gone, and the policy is still valid.
unfoldable orphaned : ConfigurationImpl
orphaned = record with_policy { user_sigs = [] }

orphaned-Distinct : Distinct (keys orphaned.policies)
unfolding orphaned
orphaned-Distinct = (Reachable-IsConsistent library with_policy with_policy-Reachable).unique

build_user_sig_change_and_problems_lem_example :
    Elem policy_of_tag
      (list_under delete (build_user_sig_change_and_problems orphaned [] no_sig_change).1)
    ↔ Turned orphaned orphaned-Distinct [] no_sig_change delete policy_of_tag
build_user_sig_change_and_problems_lem_example =
    build_user_sig_change_and_problems_lem orphaned orphaned-Distinct [] no_sig_change delete
      policy_of_tag refl

abbrev any_time : SignatureReq
any_time = record {
  tag = "tag";
  rev_times = some (record { min_rev_time = none; max_rev_time = none });
}

abbrev signature_at : ℕ → UserSigEx
signature_at time = record {
  obj = older;
  tag = "tag";
  rev_time = some time;
  is_valid = true;
  error_msg = "";
}

is_req_satisfied_by_user_sig_lem_example :
    (is_req_satisfied_by_user_sig any_time (signature_at 7) ≡ true) ↔ (
      ((signature_at 7).tag ≢ "")
      × ((signature_at 7).tag ≡ any_time.tag)
      × IsRecent any_time.rev_times (some 7))
is_req_satisfied_by_user_sig_lem_example =
    is_req_satisfied_by_user_sig_lem any_time (signature_at 7)

-- A requirement without bounds turns down a signature that has a time.
any_time_not_satisfied : is_req_satisfied_by_user_sig any_time (signature_at 7) ≡ false
unfolding is_req_satisfied_by_user_sig
any_time_not_satisfied = refl

abbrev local_host : String
local_host = "localhost"

abbrev patterns : LogDestinationLibrary
patterns = record {
  matches_log_destination =
      λ s. contains s "syslog:server=" || contains s "stderr" || contains s "/";
  matches_log_file = λ s. contains s "/";
  parses_ip = λ s. s == "10.0.0.1";
}

local_server : IsForServer patterns local_host 514
unfolding contains join show_natural is_free
local_server = record { matches = refl; no_file = refl; no_colon = refl; no_sign = refl }

validate_app_protect_log_destination-syslog_server_example :
    (validate_app_protect_log_destination patterns (syslog_server local_host 514) ≡ some none) ↔ (
      (0 < 514)
      × (514 < 65536)
      × ((local_host ≡ "localhost") ⊎ (patterns.parses_ip local_host ≡ true)))
validate_app_protect_log_destination-syslog_server_example =
    validate_app_protect_log_destination-syslog_server patterns local_host 514 local_server
      (omega arith)

-- The pattern stands within the text, and the access to a slice panics.
unanchored_panics : validate_app_protect_log_destination patterns "x-stderr" ≡ none
unfolding validate_app_protect_log_destination contains split
unanchored_panics = refl
