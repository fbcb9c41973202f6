-- ===== src/K8s/Contest/Winner.antt =====
-- Who holds a name once every resource has claimed its names.
use aspenmesh_k3s_multiclust.Prelude.{
  String, ◌≡◌, refl, sym, ap, subst, ◌∙◌, ◌⊎◌, inl, inr, Bool, true, false, Option, none, some,
  List, [], ◌∷◌, ◌==◌, eq_iff, eq_refl, arith, Elem, Bool-cases, Option-cases, some_inj,
  if◌then◌else◌,
}
use aspenmesh_k3s_multiclust.Prelude.Dict.{lookup, lookup-insert}
use aspenmesh_k3s_multiclust.K8s.Contest.{Contest, with_claims, no_claims, claim, claim_each}

module _ {ℓ} {A : Type ℓ} (beats : A → A → Bool) where
  -- The holder after one more claim.
  abbrev pub better : Option A → A → A
  better none a = a
  better (some h) a = if beats h a then h else a

  pub lookup-claim :
      (a : A) (name other : String) (s : Contest A)
      → lookup other (claim beats a name s).holders ≡ (
          if name == other
          then some (better (lookup other s.holders) a)
          else lookup other s.holders)
  unfolding claim
  lookup-claim a name other s =
      ground (arith, eq_iff name other, lookup-insert name other a s.holders)

-- `IsClaimant` says which values take part: among them `beats` is a strict total order.
module _ {ℓ} {A : Type ℓ} (beats : A → A → Bool) (IsClaimant : A → Type ℓ)
    (beats_trans : (a b c : A) → beats a b ≡ true → beats b c ≡ true → beats a c ≡ true)
    (connected : (a b : A)
      → IsClaimant a
      → IsClaimant b
      → beats a b ≡ false
      → (a ≡ b) ⊎ (beats b a ≡ true)) where
  -- The holders are claimants, and each is the best of those that claimed its name.
  pub record Settled (claims : List (A × String)) (s : Contest A) : Type ℓ where
    pub held : (name : String) (h : A) → lookup name s.holders ≡ some h → Elem (h, name) claims
    pub claimant : (a : A) (name : String) → Elem (a, name) claims → IsClaimant a
    pub best :
        (a : A) (name : String)
        → Elem (a, name) claims
        → (h : A) × (lookup name s.holders ≡ some h) × ((h ≡ a) ⊎ (beats h a ≡ true))

  -- The claim does not make the name's holder worse, and the claimant is not better than it.
  better_best :
      (o : Option A) (a : A)
      → ((h : A) → o ≡ some h → IsClaimant h)
      → IsClaimant a
      → (h : A) → h ≡ better beats o a
      → (h ≡ a) ⊎ (beats h a ≡ true)
  better_best none a c ca h e = inl e
  better_best (some w) a c ca h e = ground arith

  better_keeps :
      (w a b : A)
      → IsClaimant w
      → IsClaimant a
      → ((w ≡ b) ⊎ (beats w b ≡ true))
      → (better beats (some w) a ≡ b) ⊎ (beats (better beats (some w) a) b ≡ true)
  better_keeps w a b cw ca r = elim (Bool-cases (beats w a)) [
    | inl e ↦ rw e r
    | inr e ↦ rw e (loses (connected w a cw ca e) r)
  ]
    where
      loses :
          (w ≡ a) ⊎ (beats a w ≡ true) → (w ≡ b) ⊎ (beats w b ≡ true) → (a ≡ b) ⊎ (beats a b ≡ true)
      loses (inl p) q = ground arith
      loses (inr p) (inl q) = ground arith
      loses (inr p) (inr q) = inr (beats_trans a w b p q)

  held_after :
      (a : A) (name : String) (claims : List (A × String)) (s : Contest A)
      → Settled claims s
      → (other : String) (h : A) → lookup other (claim beats a name s).holders ≡ some h
      → Elem (h, other) ((a, name) ∷ claims)
  held_after a name claims s v other h e =
      ground (arith, lookup-claim beats a name other s, eq_iff name other, v.held other h)

  best_self :
      (a : A) (name : String) (claims : List (A × String)) (s : Contest A)
      → IsClaimant a
      → Settled claims s
      → (h : A) × (lookup name (claim beats a name s).holders ≡ some h)
        × ((h ≡ a) ⊎ (beats h a ≡ true))
  best_self a name claims s c v = (
    better beats (lookup name s.holders) a,
    rw lookup-claim (rw eq_refl),
    better_best (lookup name s.holders) a (λ h e. v.claimant h name (v.held name h e)) c _ refl,
  )

  best_other :
      (a : A) (name : String) (claims : List (A × String)) (s : Contest A)
      → IsClaimant a
      → Settled claims s
      → (b : A) (other : String) → Elem (b, other) claims
      → (h : A) × (lookup other (claim beats a name s).holders ≡ some h)
        × ((h ≡ b) ⊎ (beats h b ≡ true))
  best_other a name claims s c v b other m =
      let (w, e, r) = v.best b other m in
      elim (Bool-cases (name == other)) [
        | inl p ↦ (
          better beats (some w) a,
          rw lookup-claim (rw p (rw e)),
          better_keeps w a b (v.claimant w other (v.held other w e)) c r,
        )
        | inr p ↦ (w, rw lookup-claim (rw p e), r)
      ]

  pub claim-Settled :
      (a : A) (name : String) (claims : List (A × String)) (s : Contest A)
      → IsClaimant a
      → Settled claims s
      → Settled ((a, name) ∷ claims) (claim beats a name s)
  claim-Settled a name claims s c v = record {
    held = held_after a name claims s v;
    claimant = λ b other m. elim m [
      | inl e ↦ subst IsClaimant (sym (ap (λ (p : A × String). p.0) e)) c
      | inr m ↦ v.claimant b other m
    ];
    best = λ b other m. elim m [
      | inl e ↦
          let eb = ap (λ (p : A × String). p.0) e in
          let en = ap (λ (p : A × String). p.1) e in rw (eb, en) (best_self a name claims s c v)
      | inr m ↦ best_other a name claims s c v b other m
    ];
  }

  pub claim_each-Settled :
      (a : A) (names : List String) (claims : List (A × String)) (s : Contest A)
      → IsClaimant a
      → Settled claims s
      → Settled (with_claims a names claims) (claim_each beats a names s)
  unfolding claim_each
  claim_each-Settled a [] claims s c v = v
  claim_each-Settled a (name ∷ names) claims s c v =
      claim_each-Settled a names ((a, name) ∷ claims) (claim beats a name s) c
        (claim-Settled a name claims s c v)

  pub no_claims-Settled : Settled [] no_claims
  unfolding lookup
  no_claims-Settled = record {
    held = λ name h e. cc;
    claimant = λ a name m. elim m [ ];
    best = λ a name m. elim m [ ];
  }

  -- Two orders of the same claims give every name to the same holder.
  module _ (irrefl : (a : A) → beats a a ≡ false) where
    one_best : (h k : A) → ((h ≡ k) ⊎ (beats h k ≡ true)) → ((k ≡ h) ⊎ (beats k h ≡ true)) → h ≡ k
    one_best h k (inl p) q = p
    one_best h k (inr p) (inl q) = sym q
    one_best h k (inr p) (inr q) = cc (beats_trans h k h p q, irrefl h)

    held_same :
        (cs ds : List (A × String)) (s t : Contest A)
        → Settled cs s
        → Settled ds t
        → ((c : A × String) → Elem c cs → Elem c ds)
        → ((c : A × String) → Elem c ds → Elem c cs)
        → (name : String) (h : A) → lookup name s.holders ≡ some h
        → lookup name t.holders ≡ some h
    held_same cs ds s t v w f g name h e =
        let (k, ek, r) = w.best h name (f (h, name) (v.held name h e)) in
        let (h', eh, q) = v.best k name (g (k, name) (w.held name k ek)) in
        let same = some_inj (sym eh ∙ e) in ek ∙ ap some (one_best k h r (rw same at q))

    pub Settled-unique :
        (cs ds : List (A × String)) (s t : Contest A)
        → Settled cs s
        → Settled ds t
        → ((c : A × String) → Elem c cs → Elem c ds)
        → ((c : A × String) → Elem c ds → Elem c cs)
        → (name : String) → lookup name s.holders ≡ lookup name t.holders
    Settled-unique cs ds s t v w f g name = elim (Option-cases (lookup name s.holders)) [
      | inr (h, e) ↦ e ∙ sym (held_same cs ds s t v w f g name h e)
      | inl e ↦ elim (Option-cases (lookup name t.holders)) [
        | inl d ↦ e ∙ sym d
        | inr (h, d) ↦ held_same ds cs t s w v g f name h d ∙ sym d
      ]
    ]
