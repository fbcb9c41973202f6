-- ===== src/K8s/AppProtect/Policies/Satisfied.antt =====
-- isReqSatisfiedByUserSig and verifyPolicyAgainstUserSigs: which signatures a policy asks for.
use aspenmesh_k3s_multiclust.Prelude.{
  ℕ, ◌≡◌, ◌≢◌, ◌↔◌, ◌<◌, refl, sym, ◌∙◌, ◌⊎◌, inl, inr, true, false, Option, none, some, ◌==◌,
  eq_iff, arith, ltb, Bool-cases,
}
use aspenmesh_k3s_multiclust.K8s.AppProtect.{RevTimes, SignatureReq, UserSigEx}
use aspenmesh_k3s_multiclust.K8s.AppProtect.Policies.{
  is_between, is_time_satisfied, is_req_satisfied_by_user_sig,
}

-- The time lies strictly within the bounds that are given, and one is given.
pub data IsWithin : Option ℕ → Option ℕ → ℕ → Type 0 where
  after : (earliest time : ℕ) → earliest < time → IsWithin (some earliest) none time
  before : (latest time : ℕ) → time < latest → IsWithin none (some latest) time
  inside :
      (earliest latest time : ℕ)
      → earliest < time
      → time < latest
      → IsWithin (some earliest) (some latest) time

-- The requirement or the signature names no time, or the signature's one is within the bounds.
pub data IsRecent : Option RevTimes → Option ℕ → Type 0 where
  no_bounds : (time : Option ℕ) → IsRecent none time
  no_time : (times : RevTimes) → IsRecent (some times) none
  within :
      (times : RevTimes) (time : ℕ)
      → IsWithin times.min_rev_time times.max_rev_time time
      → IsRecent (some times) (some time)

ltb_lem : (m n : ℕ) → ltb m n ≡ true → m < n
ltb_lem m n h = ground arith

lt-ltb : (m n : ℕ) → m < n → ltb m n ≡ true
lt-ltb m n h = ground arith

is_between-IsWithin : (a b : Option ℕ) (time : ℕ) → is_between a b time ≡ true → IsWithin a b time
is_between-IsWithin (some a) (some b) time h = inside a b time (ground arith) (ground arith)
is_between-IsWithin none (some b) time h = before b time (ltb_lem time b h)
is_between-IsWithin (some a) none time h = after a time (ltb_lem a time h)
is_between-IsWithin none none time h = cc

IsWithin-is_between : (a b : Option ℕ) (time : ℕ) → IsWithin a b time → is_between a b time ≡ true
IsWithin-is_between _ _ _ (after a time h) = lt-ltb a time h
IsWithin-is_between _ _ _ (before b time h) = lt-ltb time b h
IsWithin-is_between _ _ _ (inside a b time h k) = rw (lt-ltb a time h, lt-ltb time b k)

is_time_satisfied-IsRecent :
    (times : Option RevTimes) (time : Option ℕ)
    → is_time_satisfied true times time ≡ true
    → IsRecent times time
is_time_satisfied-IsRecent none time h = no_bounds time
is_time_satisfied-IsRecent (some times) none h = no_time times
is_time_satisfied-IsRecent (some times) (some time) h =
    within times time (is_between-IsWithin _ _ time h)

IsRecent-is_time_satisfied :
    (times : Option RevTimes) (time : Option ℕ)
    → IsRecent times time
    → is_time_satisfied true times time ≡ true
IsRecent-is_time_satisfied _ _ (no_bounds time) = refl
IsRecent-is_time_satisfied _ _ (no_time times) = refl
IsRecent-is_time_satisfied _ _ (within times time h) = IsWithin-is_between _ _ time h

module _ (req : SignatureReq) (sig : UserSigEx) where
  with_tag :
      (sig.tag == "") ≡ false
      → (sig.tag == req.tag) ≡ true
      → is_req_satisfied_by_user_sig req sig ≡ is_time_satisfied true req.rev_times sig.rev_time
  unfolding is_req_satisfied_by_user_sig
  with_tag e t = rw (e, t)

  by_tag :
      (is_req_satisfied_by_user_sig req sig ≡ false)
      ⊎ (((sig.tag == "") ≡ false)
          × ((sig.tag == req.tag) ≡ true)
          × (is_req_satisfied_by_user_sig req sig
              ≡ is_time_satisfied true req.rev_times sig.rev_time))
  unfolding is_req_satisfied_by_user_sig
  by_tag = elim (Bool-cases (sig.tag == "")) [
    | inl e ↦ inl (rw e)
    | inr e ↦ elim (Bool-cases (sig.tag == req.tag)) [
      | inl t ↦ inr (e, t, with_tag e t)
      | inr t ↦ inl (rw (e, t))
    ]
  ]

  -- A requirement is satisfied by a signature exactly when the tag of the signature is not empty and
  -- that of the requirement, and the requirement has no record of times or the signature no time, or
  -- the time lies strictly between the bounds that are given, of which there is one.
  pub is_req_satisfied_by_user_sig_lem :
      (is_req_satisfied_by_user_sig req sig ≡ true)
      ↔ ((sig.tag ≢ "") × (sig.tag ≡ req.tag) × IsRecent req.rev_times sig.rev_time)
  is_req_satisfied_by_user_sig_lem = (
    (λ h. elim by_tag [
      | inl e ↦ cc
      | inr (e, t, same) ↦ (
        (λ given. cc ((eq_iff sig.tag "").1 given, e)),
        (eq_iff sig.tag req.tag).0 t,
        is_time_satisfied-IsRecent _ _ (sym same ∙ h),
      )
    ]),
    λ (given, tags, recent). satisfied given tags recent,
  )
    where
      satisfied :
          sig.tag ≢ ""
          → sig.tag ≡ req.tag
          → IsRecent req.rev_times sig.rev_time
          → is_req_satisfied_by_user_sig req sig ≡ true
      satisfied given tags recent = elim (Bool-cases (sig.tag == "")) [
        | inl e ↦ absurd (given ((eq_iff sig.tag "").0 e))
        | inr e ↦
            with_tag e ((eq_iff sig.tag req.tag).1 tags) ∙ IsRecent-is_time_satisfied _ _ recent
      ]
