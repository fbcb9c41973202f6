-- ===== src/K8s/Contest/Claimed.antt =====
-- Every name that is claimed has a holder, and every holder has claimed it, whoever wins.
use aspenmesh_k3s_multiclust.Prelude.{
  String, ◌≡◌, sym, ap, subst, ◌⊎◌, inl, inr, Bool, true, some, List, [], ◌∷◌, ◌==◌, eq_iff, arith,
  Elem, Bool-cases,
}
use aspenmesh_k3s_multiclust.Prelude.Dict.{lookup, insert, Elem-insert}
use aspenmesh_k3s_multiclust.K8s.Contest.{Contest, no_claims, claim, claim_each, with_claims}
use aspenmesh_k3s_multiclust.K8s.Contest.Winner.{better, lookup-claim}

module _ {ℓ} {A : Type ℓ} (beats : A → A → Bool) where
  -- `claims` are the pairs that have been processed.
  pub record Claimed (claims : List (A × String)) (s : Contest A) : Type ℓ where
    pub entries : (name : String) (h : A) → Elem (name, h) s.holders → Elem (h, name) claims
    pub taken :
        (a : A) (name : String) → Elem (a, name) claims → (h : A) × (lookup name s.holders ≡ some h)

  pub no_claims-Claimed : Claimed [] no_claims
  unfolding lookup
  no_claims-Claimed = record { entries = λ name h m. elim m [ ]; taken = λ a name m. elim m [ ] }

  taken_after :
      (a : A) (name : String) (s : Contest A) (other : String)
      → ((name == other) ≡ true) ⊎ ((h : A) × (lookup other s.holders ≡ some h))
      → (h : A) × (lookup other (claim beats a name s).holders ≡ some h)
  taken_after a name s other (inl e) =
      (better beats (lookup other s.holders) a, rw lookup-claim (rw e))
  taken_after a name s other (inr (h, e)) = elim (Bool-cases (name == other)) [
    | inl t ↦ (better beats (lookup other s.holders) a, rw lookup-claim (rw t))
    | inr t ↦ (h, rw lookup-claim (rw t e))
  ]

  claim-holders :
      (a : A) (name : String) (s : Contest A)
      → ((claim beats a name s).holders ≡ insert name a s.holders)
        ⊎ ((claim beats a name s).holders ≡ s.holders)
  unfolding claim
  claim-holders a name s = ground arith

  claim-entries :
      (p : String × A) (a : A) (name : String) (s : Contest A)
      → Elem p (claim beats a name s).holders
      → (p ≡ (name, a)) ⊎ Elem p s.holders
  claim-entries p a name s m = elim (claim-holders a name s) [
    | inl e ↦ Elem-insert p name a s.holders (subst (Elem p) e m)
    | inr e ↦ inr (subst (Elem p) e m)
  ]

  entries_after :
      (a : A) (name : String) (claims : List (A × String)) (s : Contest A)
      → Claimed claims s
      → (other : String) (h : A) → Elem (other, h) (claim beats a name s).holders
      → Elem (h, other) ((a, name) ∷ claims)
  entries_after a name claims s v other h m = elim (claim-entries (other, h) a name s m) [
    | inl e ↦ inl (λ i. ((e i).1, (e i).0))
    | inr n ↦ inr (v.entries other h n)
  ]

  pub claim-Claimed :
      (a : A) (name : String) (claims : List (A × String)) (s : Contest A)
      → Claimed claims s
      → Claimed ((a, name) ∷ claims) (claim beats a name s)
  claim-Claimed a name claims s v = record {
    entries = entries_after a name claims s v;
    taken = λ b other m. elim m [
      | inl e ↦
          taken_after a name s other
            (inl ((eq_iff name other).1 (sym (ap (λ (p : A × String). p.1) e))))
      | inr n ↦ taken_after a name s other (inr (v.taken b other n))
    ];
  }

  pub claim_each-Claimed :
      (a : A) (names : List String) (claims : List (A × String)) (s : Contest A)
      → Claimed claims s
      → Claimed (with_claims a names claims) (claim_each beats a names s)
  unfolding claim_each
  claim_each-Claimed a [] claims s v = v
  claim_each-Claimed a (name ∷ names) claims s v =
      claim_each-Claimed a names ((a, name) ∷ claims) (claim beats a name s)
        (claim-Claimed a name claims s v)

module _ {ℓ} {A : Type ℓ} where
  -- The claims so far are kept, and the new ones are those of the value.
  pub with_claims-old :
      (p : A × String) (a : A) (names : List String) (claims : List (A × String))
      → Elem p claims
      → Elem p (with_claims a names claims)
  with_claims-old p a [] claims m = m
  with_claims-old p a (name ∷ names) claims m =
      with_claims-old p a names ((a, name) ∷ claims) (inr m)

  pub with_claims-new :
      (a : A) (name : String) (names : List String) (claims : List (A × String))
      → Elem name names
      → Elem (a, name) (with_claims a names claims)
  with_claims-new a name [] claims m = elim m [ ]
  with_claims-new a name (other ∷ names) claims (inl e) =
      with_claims-old (a, name) a names ((a, other) ∷ claims) (inl (ap (λ (n : String). (a, n)) e))
  with_claims-new a name (other ∷ names) claims (inr m) =
      with_claims-new a name names ((a, other) ∷ claims) m

  pub with_claims-Elem :
      (b a : A) (name : String) (names : List String) (claims : List (A × String))
      → Elem (b, name) (with_claims a names claims)
      → ((b ≡ a) × Elem name names) ⊎ Elem (b, name) claims
  with_claims-Elem b a name [] claims m = inr m
  with_claims-Elem b a name (other ∷ names) claims m =
      elim (with_claims-Elem b a name names ((a, other) ∷ claims) m) [
        | inl (e, n) ↦ inl (e, inr n)
        | inr (inl e) ↦ inl (ap (λ (p : A × String). p.0) e, inl (ap (λ (p : A × String). p.1) e))
        | inr (inr n) ↦ inr n
      ]
