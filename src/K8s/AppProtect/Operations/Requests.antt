-- ===== src/K8s/AppProtect/Operations/Requests.antt =====
-- The states of ConfigurationImpl that its operations lead to, and what it serves in them.
use aspenmesh_k3s_multiclust.Prelude.{
  String, ◌≡◌, refl, subst, Bool, true, false, Option, none, some, arith, Elem, any-Elem, all-Elem,
  some_inj, ◌>>=◌, >>=-eq-some,
}
use aspenmesh_k3s_multiclust.Prelude.Dict.{lookup, values}
use aspenmesh_k3s_multiclust.Prelude.Uniform.{values-lookup}
use aspenmesh_k3s_multiclust.Prelude.Results.{ok, err}
use aspenmesh_k3s_multiclust.K8s.AppProtect.{
  Unstructured, Library, SignatureReq, PolicyEx, UserSigEx, ConfigurationImpl,
  new_configuration_impl,
}
use aspenmesh_k3s_multiclust.K8s.AppProtect.Policies.{
  is_req_satisfied_by_user_sig, is_req_satisfied_by_user_sigs, verify_policy_against_user_sigs,
}
use aspenmesh_k3s_multiclust.K8s.AppProtect.Policies.Verified.{IsVerified-satisfied}
use aspenmesh_k3s_multiclust.K8s.AppProtect.Operations.{
  add_or_update_policy, add_or_update_log_conf, add_or_update_user_sig, delete_policy,
  delete_log_conf, delete_user_sig, served, get_app_resource,
}
use aspenmesh_k3s_multiclust.K8s.AppProtect.Operations.Consistent.{
  IsConsistent, new_configuration_impl-IsConsistent, add_or_update_policy-IsConsistent,
  add_or_update_log_conf-IsConsistent, add_or_update_user_sig-IsConsistent,
  delete_policy-IsConsistent, delete_log_conf-IsConsistent, delete_user_sig-IsConsistent,
}

-- The calls of the interface Configuration that change the state.
pub data Request : Type 0 where
  put_policy : Unstructured → Request
  put_log_conf : Unstructured → Request
  put_user_sig : Unstructured → Request
  drop_policy : String → Request
  drop_log_conf : String → Request
  drop_user_sig : String → Request

-- The state after a call; `none` is a panic.
unfoldable pub handle : Library → Request → ConfigurationImpl → Option ConfigurationImpl
unfolding add_or_update_policy add_or_update_log_conf add_or_update_user_sig delete_policy
    delete_log_conf delete_user_sig
handle lib (put_policy obj) ci = add_or_update_policy lib obj ci >>= λ out. some out.0
handle lib (put_log_conf obj) ci = some (add_or_update_log_conf lib obj ci).0
handle lib (put_user_sig obj) ci = some (add_or_update_user_sig lib obj ci).0
handle lib (drop_policy key) ci = some (delete_policy key ci).0
handle lib (drop_log_conf key) ci = some (delete_log_conf key ci).0
handle lib (drop_user_sig key) ci = some (delete_user_sig key ci).0

pub data Reachable (lib : Library) : ConfigurationImpl → Type 0 where
  start : Reachable lib new_configuration_impl
  after :
      (ci next : ConfigurationImpl) (q : Request)
      → Reachable lib ci
      → handle lib q ci ≡ some next
      → Reachable lib next

module _ (lib : Library) where
  handle-IsConsistent :
      (q : Request) (ci next : ConfigurationImpl)
      → IsConsistent lib ci
      → handle lib q ci ≡ some next
      → IsConsistent lib next
  unfolding handle
  handle-IsConsistent (put_policy obj) ci next c e =
      let (out, found, last) = >>=-eq-some (add_or_update_policy lib obj ci) _ e in
      subst (IsConsistent lib) (some_inj last)
        (add_or_update_policy-IsConsistent lib ci c obj out found)
  handle-IsConsistent (put_log_conf obj) ci next c e =
      subst (IsConsistent lib) (some_inj e) (add_or_update_log_conf-IsConsistent lib ci c obj)
  handle-IsConsistent (put_user_sig obj) ci next c e =
      subst (IsConsistent lib) (some_inj e) (add_or_update_user_sig-IsConsistent lib ci c obj)
  handle-IsConsistent (drop_policy key) ci next c e =
      subst (IsConsistent lib) (some_inj e) (delete_policy-IsConsistent lib ci c key)
  handle-IsConsistent (drop_log_conf key) ci next c e =
      subst (IsConsistent lib) (some_inj e) (delete_log_conf-IsConsistent lib ci c key)
  handle-IsConsistent (drop_user_sig key) ci next c e =
      subst (IsConsistent lib) (some_inj e) (delete_user_sig-IsConsistent lib ci c key)

  -- In every state that calls of the App Protect Configuration lead to from the empty one: no key
  -- occurs twice; a user signature, and a log configuration, is valid exactly when it has no error
  -- message; of the signatures with one tag that is not empty exactly one is valid, and none of the
  -- others goes before it; a policy whose object createAppProtectPolicyEx turns into one without an
  -- error has its requirements, is valid exactly when each of them is satisfied by a valid
  -- signature, and has no message then and the one about missing signatures otherwise; and a policy
  -- whose object gives an error is as it was created, not valid, with another message.
  pub Reachable-IsConsistent : (ci : ConfigurationImpl) → Reachable lib ci → IsConsistent lib ci
  Reachable-IsConsistent ci start = new_configuration_impl-IsConsistent lib
  Reachable-IsConsistent ci (after before next q r e) =
      handle-IsConsistent q before next (Reachable-IsConsistent before r) e

  module _ (ci : ConfigurationImpl) where
    served_inj :
        (valid : Bool) (obj got : Unstructured) (message : String)
        → served lib valid obj message ≡ ok got
        → (valid ≡ true) × (obj ≡ got)
    served_inj true obj got message e = (refl, cc)
    served_inj false obj got message e = cc

    policy_of_served :
        (o : Option PolicyEx) (key : String) (obj : Unstructured)
        → elim o [ some pol ↦ served lib pol.is_valid pol.obj pol.error_msg | none ↦ err key ]
          ≡ ok obj
        → (pol : PolicyEx) × (o ≡ some pol) × (pol.is_valid ≡ true) × (pol.obj ≡ obj)
    policy_of_served none key obj e = cc
    policy_of_served (some pol) key obj e =
        let (v, same) = served_inj pol.is_valid pol.obj obj pol.error_msg e in (pol, refl, v, same)

    -- A policy that is served is stored and valid.
    get_app_resource-policy :
        (key : String) (obj : Unstructured)
        → get_app_resource lib "APPolicy" key ci ≡ ok obj
        → (pol : PolicyEx) × (lookup key ci.policies ≡ some pol)
          × (pol.is_valid ≡ true)
          × (pol.obj ≡ obj)
    unfolding get_app_resource
    get_app_resource-policy key obj e = policy_of_served (lookup key ci.policies) _ obj e

    get_app_resource-user_sig :
        (key : String) (sig : UserSigEx)
        → lookup key ci.user_sigs ≡ some sig
        → sig.is_valid ≡ true
        → get_app_resource lib "APUserSig" key ci ≡ ok sig.obj
    unfolding get_app_resource
    get_app_resource-user_sig key sig e v = rw (e, v)

    req-satisfied :
        IsConsistent lib ci
        → (req : SignatureReq) → is_req_satisfied_by_user_sigs req ci.user_sigs ≡ true
        → (key : String) × (sig : UserSigEx) × (lookup key ci.user_sigs ≡ some sig)
          × (get_app_resource lib "APUserSig" key ci ≡ ok sig.obj)
          × (is_req_satisfied_by_user_sig req sig ≡ true)
    unfolding is_req_satisfied_by_user_sigs
    req-satisfied c req h =
        let (sig, m, both) = any-Elem _ (values ci.user_sigs) h in
        let (key, e) = values-lookup sig ci.user_sigs c.well_formed.unique m in
        (key, sig, e, get_app_resource-user_sig key sig e (ground arith), ground arith)

module _ (lib : Library) (ci : ConfigurationImpl) where
  -- In every state that is reached, a policy that GetAppResource returns without an error is stored,
  -- and for each of its requirements there is a stored user signature that satisfies it and that
  -- GetAppResource returns too.
  pub get_app_resource-satisfied :
      Reachable lib ci
      → (key : String) (obj : Unstructured) → get_app_resource lib "APPolicy" key ci ≡ ok obj
      → (pol : PolicyEx) × (lookup key ci.policies ≡ some pol)
        × (pol.obj ≡ obj)
        × ((req : SignatureReq)
            → Elem req pol.signature_reqs
            → (k : String) × (sig : UserSigEx) × (lookup k ci.user_sigs ≡ some sig)
              × (get_app_resource lib "APUserSig" k ci ≡ ok sig.obj)
              × (is_req_satisfied_by_user_sig req sig ≡ true))
  unfolding verify_policy_against_user_sigs
  get_app_resource-satisfied r key obj e =
      let c = Reachable-IsConsistent lib ci r in
      let (pol, found, v, same) = get_app_resource-policy lib ci key obj e in
      (
        pol,
        found,
        same,
        λ req m. req-satisfied lib ci c req (
            all-Elem _ pol.signature_reqs req
              (IsVerified-satisfied lib ci.user_sigs pol (c.verified key pol found) v) m),
      )
