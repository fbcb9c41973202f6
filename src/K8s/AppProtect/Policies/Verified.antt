-- ===== src/K8s/AppProtect/Policies/Verified.antt =====
-- verifyPolicies: the validity of a policy and the signatures agree, and what the loop returns.
use aspenmesh_k3s_multiclust.Prelude.{
  String, Distinct, ◌≡◌, refl, sym, ap, ◌∙◌, subst, ◌⊎◌, inl, inr, Bool, true, false, Option, none,
  some, [], ◌∷◌, ◌==◌, eq_iff, arith, Bool-cases, some_inj, ◌↔◌, Elem, ◌&&◌, any-Elem, all-Elem,
  Elem-any, Elem-all,
}
use aspenmesh_k3s_multiclust.Prelude.Dict.{Dict, lookup, keys, values}
use aspenmesh_k3s_multiclust.K8s.AppProtect.{
  missing_user_sig_error_msg, Library, SignatureReq, PolicyEx, UserSigEx, set_policy_invalid,
  set_policy_valid,
}
use aspenmesh_k3s_multiclust.K8s.AppProtect.Create.{create_app_protect_policy_ex}
use aspenmesh_k3s_multiclust.K8s.AppProtect.Policies.{
  is_req_satisfied_by_user_sig, is_req_satisfied_by_user_sigs, verify_policy_against_user_sigs,
  revive_policy, retire_policy, verify_policy, verify_policies,
}

-- Each requirement of the policy is satisfied by a stored signature that is valid.
abbrev pub AreSatisfied : Dict UserSigEx → PolicyEx → Type 0
AreSatisfied sigs pol =
    (req : SignatureReq)
    → Elem req pol.signature_reqs
    → (sig : UserSigEx) × Elem sig (values sigs)
      × (sig.is_valid ≡ true)
      × (is_req_satisfied_by_user_sig req sig ≡ true)

verify_policy_against_user_sigs_iff :
    (sigs : Dict UserSigEx) (pol : PolicyEx)
    → (verify_policy_against_user_sigs sigs pol ≡ true) ↔ AreSatisfied sigs pol
unfolding verify_policy_against_user_sigs is_req_satisfied_by_user_sigs
verify_policy_against_user_sigs_iff sigs pol = (
  (λ h req m.
      let (sig, k, both) = any-Elem _ (values sigs) (all-Elem _ pol.signature_reqs req h m) in
      (sig, k, ground arith, ground arith)),
  λ h. Elem-all _ pol.signature_reqs (λ req m.
      let (sig, k, valid, satisfied) = h req m in
      Elem-any (λ s. is_req_satisfied_by_user_sig req s && s.is_valid) sig (values sigs) k
        (rw (satisfied, valid))),
)

-- The message of a policy that is created without an error.
abbrev pub message_of : (is_valid : Bool) → String
message_of true = ""
message_of false = missing_user_sig_error_msg

-- By the error that the creation of the policy comes with. Without one, the policy is valid exactly
-- when the signatures satisfy its requirements, and its message says so; with one, it is as it was
-- created, which is not valid, and for another reason.
abbrev pub Decided :
    Dict UserSigEx → PolicyEx → (created : PolicyEx) → (error : Option String) → Type 0
Decided sigs pol created none =
    ((pol.is_valid ≡ true) ↔ AreSatisfied sigs pol) × (pol.error_msg ≡ message_of pol.is_valid)
Decided sigs pol created (some e) =
    (pol ≡ created)
    × (pol.is_valid ≡ false)
    × ((pol.error_msg == missing_user_sig_error_msg) ≡ false)

-- The policy is what its object creates, up to its validity, which is decided by the signatures when
-- there was no error.
pub record IsVerified (lib : Library) (sigs : Dict UserSigEx) (pol : PolicyEx) : Type 0 where
  pub created : PolicyEx
  pub creation_error : Option String
  pub made : create_app_protect_policy_ex lib pol.obj ≡ some (created, creation_error)
  pub reqs : pol.signature_reqs ≡ created.signature_reqs
  pub decided : Decided sigs pol created creation_error

pub decided_by :
    (sigs : Dict UserSigEx) (pol : PolicyEx)
    → pol.is_valid ≡ verify_policy_against_user_sigs sigs pol
    → (pol.is_valid ≡ true) ↔ AreSatisfied sigs pol
decided_by sigs pol same =
    let (to, back) = verify_policy_against_user_sigs_iff sigs pol in
    ((λ v. to (sym same ∙ v)), λ h. same ∙ back h)

Decided-satisfied :
    (sigs : Dict UserSigEx) (pol created : PolicyEx) (error : Option String)
    → Decided sigs pol created error
    → pol.is_valid ≡ true
    → verify_policy_against_user_sigs sigs pol ≡ true
Decided-satisfied sigs pol created none (same, message) v =
    (verify_policy_against_user_sigs_iff sigs pol).1 (same.0 v)
Decided-satisfied sigs pol created (some e) (same, invalid, other) v = cc

pub IsVerified-satisfied :
    (lib : Library) (sigs : Dict UserSigEx) (pol : PolicyEx)
    → IsVerified lib sigs pol
    → pol.is_valid ≡ true
    → verify_policy_against_user_sigs sigs pol ≡ true
IsVerified-satisfied lib sigs pol w =
    Decided-satisfied sigs pol w.created w.creation_error w.decided

module _ (sigs : Dict UserSigEx) (pol : PolicyEx) where
  pub verify_valid :
      verify_policy_against_user_sigs sigs (set_policy_valid pol)
      ≡ verify_policy_against_user_sigs sigs pol
  unfolding verify_policy_against_user_sigs
  verify_valid = refl

  pub verify_invalid :
      (reason : String)
      → verify_policy_against_user_sigs sigs (set_policy_invalid reason pol)
        ≡ verify_policy_against_user_sigs sigs pol
  unfolding verify_policy_against_user_sigs
  verify_invalid reason = refl

  abbrev holds : Bool
  holds = verify_policy_against_user_sigs sigs pol

  abbrev after : PolicyEx
  after = (verify_policy sigs pol).0

  verify_policy_cases :
      ((pol.is_valid ≡ true) × (holds ≡ true) × (after ≡ pol))
      ⊎ ((pol.is_valid ≡ true)
          × (holds ≡ false)
          × (after ≡ set_policy_invalid missing_user_sig_error_msg pol))
      ⊎ ((pol.is_valid ≡ false)
          × ((pol.error_msg == missing_user_sig_error_msg) ≡ true)
          × (holds ≡ true)
          × (after ≡ set_policy_valid pol))
      ⊎ ((pol.is_valid ≡ false)
          × ((pol.error_msg == missing_user_sig_error_msg) ≡ true)
          × (holds ≡ false)
          × (after ≡ pol))
      ⊎ ((pol.is_valid ≡ false)
          × ((pol.error_msg == missing_user_sig_error_msg) ≡ false)
          × (after ≡ pol))
  unfolding verify_policy revive_policy retire_policy
  verify_policy_cases = ground (arith, verify_valid)

  keeps_object : (after.obj ≡ pol.obj) × (after.signature_reqs ≡ pol.signature_reqs)
  keeps_object = elim verify_policy_cases [
    | inl (v, h, e) ↦ same_object e
    | inr (inl (v, h, e)) ↦ same_object e
    | inr (inr (inl (v, l, h, e))) ↦ same_object e
    | inr (inr (inr (inl (v, l, h, e)))) ↦ same_object e
    | inr (inr (inr (inr (v, l, e)))) ↦ same_object e
  ]
    where
      same_object :
          {p q : PolicyEx} → p ≡ q → (p.obj ≡ q.obj) × (p.signature_reqs ≡ q.signature_reqs)
      same_object e = (ap (λ (p : PolicyEx). p.obj) e, ap (λ (p : PolicyEx). p.signature_reqs) e)

  -- The message of a policy that is not valid, and was created without an error.
  lacks :
      pol.error_msg ≡ message_of pol.is_valid
      → pol.is_valid ≡ false
      → (pol.error_msg == missing_user_sig_error_msg) ≡ true
  lacks m v = (eq_iff pol.error_msg missing_user_sig_error_msg).1 (m ∙ ap message_of v)

  module _ (before : Dict UserSigEx) (created : PolicyEx) where
    redecided :
        (error : Option String)
        → Decided before pol created error
        → Decided sigs after created error
    redecided none (same, m) = elim verify_policy_cases [
      | inl (v, h, e) ↦
          subst (λ p. Decided sigs p created none) (sym e) (decided_by sigs _ (v ∙ sym h), m)
      | inr (inl (v, h, e)) ↦
          subst (λ p. Decided sigs p created none) (sym e)
            (decided_by sigs _ (sym (verify_invalid missing_user_sig_error_msg ∙ h)), refl)
      | inr (inr (inl (v, l, h, e))) ↦
          subst (λ p. Decided sigs p created none) (sym e)
            (decided_by sigs _ (sym (verify_valid ∙ h)), refl)
      | inr (inr (inr (inl (v, l, h, e)))) ↦
          subst (λ p. Decided sigs p created none) (sym e) (decided_by sigs _ (v ∙ sym h), m)
      | inr (inr (inr (inr (v, l, e)))) ↦ cc (lacks m v, l)
    ]
    redecided (some error) (same, invalid, other) = elim verify_policy_cases [
      | inl (v, h, e) ↦ cc
      | inr (inl (v, h, e)) ↦ cc
      | inr (inr (inl (v, l, h, e))) ↦ cc
      | inr (inr (inr (inl (v, l, h, e)))) ↦ cc
      | inr (inr (inr (inr (v, l, e)))) ↦
          subst (λ p. Decided sigs p created (some error)) (sym e) (same, invalid, other)
    ]

  pub verify_policy-IsVerified :
      (lib : Library) (before : Dict UserSigEx)
      → IsVerified lib before pol
      → IsVerified lib sigs after
  verify_policy-IsVerified lib before w = record {
    created = w.created;
    creation_error = w.creation_error;
    made = ap (create_app_protect_policy_ex lib) keeps_object.0 ∙ w.made;
    reqs = keeps_object.1 ∙ w.reqs;
    decided = redecided before w.created w.creation_error w.decided;
  }

module _ (sigs : Dict UserSigEx) where
  pub lookup-verify_policies :
      (pols : Dict PolicyEx) (key : String) (pol : PolicyEx)
      → lookup key (verify_policies sigs pols).policies ≡ some pol
      → (old : PolicyEx) × (lookup key pols ≡ some old) × (pol ≡ (verify_policy sigs old).0)
  unfolding verify_policies lookup
  lookup-verify_policies [] key pol e = cc
  lookup-verify_policies ((j, old) ∷ pols) key pol e = elim (Bool-cases (j == key)) [
    | inl t ↦ (old, rw t, sym (some_inj (rw t at e)))
    | inr t ↦ rw t (lookup-verify_policies pols key pol (rw t at e))
  ]

  pub verify_policies-lookup :
      (pols : Dict PolicyEx) (key : String) (old : PolicyEx)
      → lookup key pols ≡ some old
      → lookup key (verify_policies sigs pols).policies ≡ some (verify_policy sigs old).0
  unfolding verify_policies lookup
  verify_policies-lookup [] key old e = cc
  verify_policies-lookup ((j, pol) ∷ pols) key old e = elim (Bool-cases (j == key)) [
    | inl t ↦ rw t (ap (λ x. some (verify_policy sigs x).0) (some_inj (rw t at e)))
    | inr t ↦ rw t (verify_policies-lookup pols key old (rw t at e))
  ]

  same_keys : (pols : Dict PolicyEx) → keys (verify_policies sigs pols).policies ≡ keys pols
  unfolding verify_policies
  same_keys [] = refl
  same_keys ((key, pol) ∷ pols) = ap (◌∷◌ key) (same_keys pols)

  pub keys-verify_policies :
      (pols : Dict PolicyEx)
      → Distinct (keys pols)
      → Distinct (keys (verify_policies sigs pols).policies)
  keys-verify_policies pols d = subst Distinct (sym (same_keys pols)) d
