-- ===== src/K8s/AppProtect/Signatures/Valid.antt =====
-- reconcileUserSigs: which of the signatures with one tag is valid.
use aspenmesh_k3s_multiclust.Prelude.{
  String, ◌≡◌, refl, sym, ap, ◌∙◌, subst, ◌⊎◌, inl, inr, true, false, some, List, [], ◌∷◌, ◌==◌,
  eq_iff, eq_refl, arith, Elem, Bool-cases, Option-cases, some_inj,
}
use aspenmesh_k3s_multiclust.Prelude.Dict.{Dict, lookup, lookup-Elem}
use aspenmesh_k3s_multiclust.Prelude.Uniform.{Elem-lookup}
use aspenmesh_k3s_multiclust.K8s.AppProtect.{
  UserSigEx, set_sig_valid, set_sig_invalid, duplicated_tags_error_msg,
}
use aspenmesh_k3s_multiclust.K8s.AppProtect.Signatures.{
  Pointer, less, sort_sigs, reconcile_user_sigs,
}
use aspenmesh_k3s_multiclust.K8s.AppProtect.Signatures.Oldest.{
  less_asym, Elem-sort_sigs, sort_sigs-Elem, IsLed, sort_sigs-IsLed,
}
use aspenmesh_k3s_multiclust.K8s.AppProtect.Signatures.Settle.{leads, is_winner, settled}
use aspenmesh_k3s_multiclust.K8s.AppProtect.Signatures.Reconciled.{
  IsWellFormed, AreWellFormed, grouped, lookup-reconcile_user_sigs, reconcile_user_sigs-missing,
  reconcile_user_sigs-Distinct,
}

-- Every tag that is given has one valid signature, and no signature with the tag goes before it.
pub record AreReconciled (sigs : Dict UserSigEx) : Type 0 where
  pub winner :
      (key : String) (sig : UserSigEx)
      → lookup key sigs ≡ some sig
      → (sig.tag == "") ≡ false
      → (best : String) × (t : UserSigEx) × (lookup best sigs ≡ some t)
        × (t.tag ≡ sig.tag)
        × (t.is_valid ≡ true)
        × (less sig t ≡ false)
  pub one :
      (j k : String) (s t : UserSigEx)
      → lookup j sigs ≡ some s
      → lookup k sigs ≡ some t
      → (s.tag == "") ≡ false
      → s.tag ≡ t.tag
      → s.is_valid ≡ true
      → t.is_valid ≡ true
      → j ≡ k

less_same : (s s' t t' : UserSigEx) → s.obj ≡ s'.obj → t.obj ≡ t'.obj → less s t ≡ less s' t'
unfolding less
less_same s s' t t' e f = rw (e, f)

less_irrefl : (s : UserSigEx) → less s s ≡ false
less_irrefl s = elim (Bool-cases (less s s)) [ inl e ↦ less_asym s s e | inr e ↦ e ]

leads_unique : (ps : List Pointer) (j k : String) → leads ps j ≡ true → leads ps k ≡ true → j ≡ k
leads_unique [] j k e f = cc
leads_unique (p ∷ ps) j k e f = sym ((eq_iff p.0 j).0 e) ∙ (eq_iff p.0 k).0 f

module _ (sigs : Dict UserSigEx) where
  settled-tag : (key : String) (s : UserSigEx) → (settled sigs key s).tag ≡ s.tag
  settled-tag key s = ground arith

  settled-obj : (key : String) (s : UserSigEx) → (settled sigs key s).obj ≡ s.obj
  settled-obj key s = ground arith

  settled-is_valid :
      (key : String) (s : UserSigEx)
      → (s.tag == "") ≡ false
      → (settled sigs key s).is_valid ≡ is_winner sigs key s.tag
  settled-is_valid key s h = ground arith

  settled_cases :
      (key : String) (s : UserSigEx)
      → (settled sigs key s ≡ s)
        ⊎ (settled sigs key s ≡ set_sig_valid s)
        ⊎ (settled sigs key s ≡ set_sig_invalid duplicated_tags_error_msg s)
  settled_cases key s = ground arith

  settled-IsWellFormed :
      (key : String) (s : UserSigEx) → IsWellFormed s → IsWellFormed (settled sigs key s)
  settled-IsWellFormed key s w = elim (settled_cases key s) [
    | inl e ↦ subst IsWellFormed (sym e) w
    | inr (inl e) ↦ subst IsWellFormed (sym e) (record { message = refl; validated = λ h. refl })
    | inr (inr e) ↦ subst IsWellFormed (sym e) (record { message = refl; validated = λ h. refl })
  ]

  module _ (wf : AreWellFormed sigs) where
    -- What was under the key before the loops.
    source :
        (key : String) (s : UserSigEx)
        → lookup key (reconcile_user_sigs sigs).user_sigs ≡ some s
        → (old : UserSigEx) × (lookup key sigs ≡ some old) × (s ≡ settled sigs key old)
    source key s e = elim (Option-cases (lookup key sigs)) [
      | inl d ↦ cc (reconcile_user_sigs-missing sigs wf key d, e)
      | inr (old, d) ↦ (old, d, some_inj (sym e ∙ lookup-reconcile_user_sigs sigs wf key old d))
    ]

    pub reconcile_user_sigs-AreWellFormed : AreWellFormed (reconcile_user_sigs sigs).user_sigs
    reconcile_user_sigs-AreWellFormed = record {
      unique = reconcile_user_sigs-Distinct sigs wf;
      each = λ key s e.
          let (old, d, same) = source key s e in
          subst IsWellFormed (sym same) (settled-IsWellFormed key old (wf.each key old d));
    }

    -- The first of a group that has a signature.
    first :
        (ps : List Pointer) (x : Pointer)
        → IsLed ps
        → Elem x ps
        → (p : Pointer) × Elem p ps × (leads ps p.0 ≡ true) × (less x.1 p.1 ≡ false)
    first [] x h m = elim m [ ]
    first (p ∷ ps) x h (inl e) = (p, inl refl, eq_refl p.0, rw e (less_irrefl p.1))
    first (p ∷ ps) x h (inr m) = (p, inl refl, eq_refl p.0, h x m)

    best :
        (key : String) (s : UserSigEx)
        → lookup key sigs ≡ some s
        → (s.tag == "") ≡ false
        → (p : Pointer) × (lookup p.0 sigs ≡ some p.1)
          × (p.1.tag ≡ s.tag)
          × (is_winner sigs p.0 s.tag ≡ true)
          × (less s p.1 ≡ false)
    best key s e h =
        elim ((grouped sigs wf).placed (key, s) (lookup-Elem key s sigs e)
          ((wf.each key s e).validated h)) [
            | inl m ↦ elim m [ ]
            | inr (group, found, m) ↦
                let (p, mp, leading, later) =
                  first (sort_sigs group) (key, s) (sort_sigs-IsLed group)
                    (sort_sigs-Elem (key, s) group m) in
                let (known, same, gone) =
                  (grouped sigs wf).member s.tag group p found (Elem-sort_sigs p group mp) in
                (p, Elem-lookup p.0 p.1 sigs wf.unique known, same, rw found leading, later)
          ]

    winner_after :
        (key : String) (s old : UserSigEx)
        → lookup key sigs ≡ some old
        → s ≡ settled sigs key old
        → (s.tag == "") ≡ false
        → (best : String) × (t : UserSigEx) × (lookup best (reconcile_user_sigs sigs).user_sigs
            ≡ some t)
          × (t.tag ≡ s.tag)
          × (t.is_valid ≡ true)
          × (less s t ≡ false)
    winner_after key s old d same h =
        let tag_same = ap (λ (x : UserSigEx). x.tag) same ∙ settled-tag key old in
        let given = ap (λ x. x == "") (sym tag_same) ∙ h in
        let (p, known, tag_p, wins, later) = best key old d given in
        (
          p.0,
          settled sigs p.0 p.1,
          lookup-reconcile_user_sigs sigs wf p.0 p.1 known,
          settled-tag p.0 p.1 ∙ tag_p ∙ sym tag_same,
          settled-is_valid p.0 p.1 (ap (λ x. x == "") tag_p ∙ given)
              ∙ ap (is_winner sigs p.0) tag_p
              ∙ wins,
          less_same s old (settled sigs p.0 p.1) p.1
                (ap (λ (x : UserSigEx). x.obj) same ∙ settled-obj key old) (settled-obj p.0 p.1)
              ∙ later,
        )

    wins_at :
        (key : String) (s old : UserSigEx)
        → s ≡ settled sigs key old
        → (s.tag == "") ≡ false
        → s.is_valid ≡ true
        → is_winner sigs key s.tag ≡ true
    wins_at key s old same h v =
        let tag_same = ap (λ (x : UserSigEx). x.tag) same ∙ settled-tag key old in
        ap (is_winner sigs key) tag_same
        ∙ sym (settled-is_valid key old (ap (λ x. x == "") (sym tag_same) ∙ h))
        ∙ ap (λ (x : UserSigEx). x.is_valid) (sym same)
        ∙ v

    pub reconcile_user_sigs-AreReconciled : AreReconciled (reconcile_user_sigs sigs).user_sigs
    reconcile_user_sigs-AreReconciled = record {
      winner = λ key s e h. let (old, d, same) = source key s e in winner_after key s old d same h;
      one = λ j k s t es et h tags vs vt.
          let (old_s, ds, same_s) = source j s es in
          let (old_t, dt, same_t) = source k t et in
          leads_unique _ j k (wins_at j s old_s same_s h vs) (
            ap (is_winner sigs k) tags
            ∙ wins_at k t old_t same_t (ap (λ x. x == "") (sym tags) ∙ h) vt);
    }
