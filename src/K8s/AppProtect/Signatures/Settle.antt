-- ===== src/K8s/AppProtect/Signatures/Settle.antt =====
-- reconcileUserSigs: the loops set every signature with a tag to what its place in its group says.
use aspenmesh_k3s_multiclust.Prelude.{
  String, ◌≡◌, refl, sym, ap, ◌∙◌, subst, ◌⊎◌, inl, inr, Bool, true, false, some, List, [], ◌∷◌,
  map, ◌==◌, arith, Elem, if◌then◌else◌,
}
use aspenmesh_k3s_multiclust.Prelude.Dict.{Dict, lookup, insert, keys}
use aspenmesh_k3s_multiclust.Prelude.Uniform.{Rewriting, Rewriting-skip, Rewriting-write}
use aspenmesh_k3s_multiclust.K8s.AppProtect.{
  duplicated_tags_error_msg, UserSigEx, set_sig_invalid, set_sig_valid,
}
use aspenmesh_k3s_multiclust.K8s.AppProtect.Signatures.{
  Pointer, sort_sigs, group_by_tag, Reconciliation, accept_winner, reject_loser, reject_losers,
  reconcile_group, reconcile_groups,
}
use aspenmesh_k3s_multiclust.K8s.AppProtect.Signatures.Oldest.{sort_sigs-Elem}
use aspenmesh_k3s_multiclust.K8s.AppProtect.Signatures.Grouped.{group_or_empty}

abbrev pub leads : List Pointer → String → Bool
leads [] key = false
leads (p ∷ ps) key = p.0 == key

pub keys-map {ℓ} : {V : Type ℓ} (m : Dict V) → keys m ≡ map (λ (p : String × V). p.0) m
keys-map [] = refl
keys-map ((k, v) ∷ m) = ap (◌∷◌ k) (keys-map m)

module _ (sigs : Dict UserSigEx) where
  -- The signature is the first one of its sorted group.
  abbrev pub is_winner : String → String → Bool
  is_winner key tag = leads (sort_sigs (group_or_empty (lookup tag (group_by_tag sigs [])))) key

  abbrev pub by_place : (wins : Bool) → UserSigEx → UserSigEx
  by_place true sig = if sig.is_valid then sig else set_sig_valid sig
  by_place false sig = if sig.is_valid then set_sig_invalid duplicated_tags_error_msg sig else sig

  abbrev pub settled : String → UserSigEx → UserSigEx
  settled key sig = if sig.tag == "" then sig else by_place (is_winner key sig.tag) sig

  -- The signature is in the map, under a tag that is given, and this is its place.
  pub record HasPlace (wins : Bool) (p : Pointer) : Type 0 where
    pub known : lookup p.0 sigs ≡ some p.1
    pub tagged : (p.1.tag == "") ≡ false
    pub place : is_winner p.0 p.1.tag ≡ wins

  settled-HasPlace :
      (wins : Bool) (p : Pointer) → HasPlace wins p → settled p.0 p.1 ≡ by_place wins p.1
  settled-HasPlace wins p h = rw (h.tagged, h.place)

  -- More signatures have been set, those of the list among them.
  Covers : (xs written : List Pointer) → Dict UserSigEx → Type 0
  Covers xs written m =
      (next : List Pointer) × Rewriting sigs settled next m
      × ((x : Pointer) → Elem x xs ⊎ Elem x written → Elem x next)

  module _ (p : Pointer) (written : List Pointer) (s : Reconciliation)
      (r : Rewriting sigs settled written s.user_sigs) where
    set_to :
        (x : UserSigEx) (m : Dict UserSigEx)
        → lookup p.0 sigs ≡ some p.1
        → settled p.0 p.1 ≡ x
        → ((x ≡ p.1) × (m ≡ s.user_sigs)) ⊎ (m ≡ insert p.0 x s.user_sigs)
        → Rewriting sigs settled (p ∷ written) m
    set_to x m known e (inl (same, em)) =
        subst (Rewriting sigs settled (p ∷ written)) (sym em)
          (Rewriting-skip sigs settled p.0 p.1 written _ known (e ∙ same) r)
    set_to x m known e (inr em) =
        subst (Rewriting sigs settled (p ∷ written))
          (sym (em ∙ ap (λ y. insert p.0 y s.user_sigs) (sym e)))
          (Rewriting-write sigs settled p.0 p.1 written _ known r)

    accept_winner-Rewriting :
        HasPlace true p → Rewriting sigs settled (p ∷ written) (accept_winner p s).user_sigs
    unfolding accept_winner
    accept_winner-Rewriting h = set_to _ _ h.known (settled-HasPlace true p h) (ground arith)

    reject_loser-Rewriting :
        HasPlace false p → Rewriting sigs settled (p ∷ written) (reject_loser p s).user_sigs
    unfolding reject_loser
    reject_loser-Rewriting h = set_to _ _ h.known (settled-HasPlace false p h) (ground arith)

  Covers-cons :
      (p : Pointer) (ps written : List Pointer) (m : Dict UserSigEx)
      → Covers ps (p ∷ written) m
      → Covers (p ∷ ps) written m
  unfolding Covers
  Covers-cons p ps written m (next, r, c) = (
    next,
    r,
    λ x h. elim h [
      | inl (inl e) ↦ c x (inr (inl e))
      | inl (inr n) ↦ c x (inl n)
      | inr n ↦ c x (inr (inr n))
    ],
  )

  reject_losers-Covers :
      (ps written : List Pointer) (s : Reconciliation)
      → ((p : Pointer) → Elem p ps → HasPlace false p)
      → Rewriting sigs settled written s.user_sigs
      → Covers ps written (reject_losers ps s).user_sigs
  unfolding reject_losers Covers
  reject_losers-Covers [] written s h r =
      (written, r, λ x m. elim m [ inl n ↦ elim n [ ] | inr n ↦ n ])
  reject_losers-Covers (p ∷ ps) written s h r = Covers-cons p ps written _ (
      reject_losers-Covers ps (p ∷ written) (reject_loser p s) (λ q m. h q (inr m))
        (reject_loser-Rewriting p written s r (h p (inl refl))))

  -- A list of signatures, each with its place in it.
  abbrev pub AreRanked : List Pointer → Type 0
  AreRanked [] = Unit
  AreRanked (p ∷ ps) = HasPlace true p × ((q : Pointer) → Elem q ps → HasPlace false q)

  reconcile_group-Covers :
      (ps written : List Pointer) (s : Reconciliation)
      → AreRanked ps
      → Rewriting sigs settled written s.user_sigs
      → Covers ps written (reconcile_group ps s).user_sigs
  unfolding reconcile_group Covers
  reconcile_group-Covers [] written s h r =
      (written, r, λ x m. elim m [ inl n ↦ elim n [ ] | inr n ↦ n ])
  reconcile_group-Covers (p ∷ ps) written s h r = Covers-cons p ps written _ (
      reject_losers-Covers ps (p ∷ written) (accept_winner p s) h.1
        (accept_winner-Rewriting p written s r h.0))

  -- Every signature of one of the groups.
  abbrev Among : Pointer → List (List Pointer) → Type 0
  Among x groups = (group : List Pointer) × Elem group groups × Elem x group

  pub reconcile_groups-done :
      (groups : List (List Pointer)) (written : List Pointer) (s : Reconciliation)
      → ((group : List Pointer) → Elem group groups → AreRanked (sort_sigs group))
      → Rewriting sigs settled written s.user_sigs
      → (next : List Pointer) × Rewriting sigs settled next (reconcile_groups groups s).user_sigs
        × ((x : Pointer) → Elem x written → Elem x next)
        × ((x : Pointer) → Among x groups → Elem x next)
  unfolding reconcile_groups Covers
  reconcile_groups-done [] written s h r = (written, r, (λ x m. m), λ x m. elim m.1 [ ])
  reconcile_groups-done (group ∷ groups) written s h r =
      let (mid, rm, cm) =
        reconcile_group-Covers (sort_sigs group) written s (h group (inl refl)) r in
      let (next, rn, old, new) =
        reconcile_groups-done groups mid (reconcile_group (sort_sigs group) s) (λ g m. h g (inr m))
          rm in
      (
        next,
        rn,
        (λ x m. old x (cm x (inr m))),
        λ x m. elim m.1 [
          | inl e ↦ old x (cm x (inl (sort_sigs-Elem x group (subst (Elem x) e m.2))))
          | inr n ↦ new x (m.0, n, m.2)
        ],
      )
