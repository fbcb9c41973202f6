-- ===== src/Prelude/Uniqueness.antt =====
-- Lists in which no entry, or no image of an entry, stands twice.
use mathlib.Core.Path.{◌≡◌, refl, sym, ap, ◌∙◌, subst}
use mathlib.Core.Logic.{◌⊎◌, inl, inr}
use mathlib.Core.Bool.{Bool, not}
use mathlib.Core.List.{List, [], ◌∷◌, ◌++◌, map}
use aspenmesh_k3s_multiclust.Prelude.Tests.{Bool-cases}
use aspenmesh_k3s_multiclust.Prelude.Lists.{
  Elem, Never, Distinct, keep, Elem-append, Elem-map, map-Elem, Elem-keep,
}

module _ {ℓ} {A : Type ℓ} where
  pub Distinct-append :
      (xs ys : List A)
      → Distinct xs
      → Distinct ys
      → ((x : A) → Elem x xs → Elem x ys → Never {ℓ})
      → Distinct (xs ++ ys)
  Distinct-append [] ys dx dy h = dy
  Distinct-append (x ∷ xs) ys dx dy h =
      (λ m. apart (Elem-append x xs ys m), Distinct-append xs ys dx.1 dy (λ z m. h z (inr m)))
    where
      apart : Elem x xs ⊎ Elem x ys → Never {ℓ}
      apart (inl m) = dx.0 m
      apart (inr m) = h x (inl refl) m

module _ {ℓ κ} {A : Type ℓ} {B : Type κ} (f : A → B) where
  -- Entries with one image are one entry.
  pub Distinct-map-inj :
      (xs : List A) (c d : A) → Distinct (map f xs) → Elem c xs → Elem d xs → f c ≡ f d → c ≡ d
  Distinct-map-inj [] c d h mc md e = elim mc [ ]
  Distinct-map-inj (x ∷ xs) c d h (inl p) (inl q) e = p ∙ sym q
  Distinct-map-inj (x ∷ xs) c d h (inl p) (inr m) e =
      elim (h.0 (subst (λ b. Elem b (map f xs)) (sym e ∙ ap f p) (map-Elem f d xs m))) [ ]
  Distinct-map-inj (x ∷ xs) c d h (inr m) (inl q) e =
      elim (h.0 (subst (λ b. Elem b (map f xs)) (e ∙ ap f q) (map-Elem f c xs m))) [ ]
  Distinct-map-inj (x ∷ xs) c d h (inr m) (inr n) e = Distinct-map-inj xs c d h.1 m n e

  Distinct-map-keep :
      (p : A → Bool) (xs : List A) → Distinct (map f xs) → Distinct (map f (keep p xs))
  Distinct-map-keep p [] h = tt
  Distinct-map-keep p (x ∷ xs) h = elim (Bool-cases (p x)) [
    | inl e ↦ rw e (kept, Distinct-map-keep p xs h.1)
    | inr e ↦ rw e (Distinct-map-keep p xs h.1)
  ]
    where
      kept : Elem (f x) (map f (keep p xs)) → Never {κ}
      kept m =
          let (y, my, e) = Elem-map f (f x) (keep p xs) m in
          h.0 (subst (λ b. Elem b (map f xs)) (sym e) (map-Elem f y xs (Elem-keep p y xs my).0))

  pub map_append : (xs ys : List A) → map f (xs ++ ys) ≡ map f xs ++ map f ys
  map_append [] ys = refl
  map_append (x ∷ xs) ys = ap (◌∷◌ (f x)) (map_append xs ys)

  -- Splitting a list by a test keeps its images apart.
  pub Distinct-partition :
      (p : A → Bool) (xs : List A)
      → Distinct (map f xs)
      → Distinct (map f (keep p xs ++ keep (λ x. not (p x)) xs))
  Distinct-partition p xs h = rw (map_append (keep p xs) (keep (λ x. not (p x)) xs)) (
      Distinct-append _ _ (Distinct-map-keep p xs h) (Distinct-map-keep (λ x. not (p x)) xs h)
        apart)
    where
      apart :
          (b : B)
          → Elem b (map f (keep p xs))
          → Elem b (map f (keep (λ x. not (p x)) xs))
          → Never {κ}
      apart b m n =
          let (c, mc, ec) = Elem-map f b (keep p xs) m in
          let (d, md, ed) = Elem-map f b (keep (λ x. not (p x)) xs) n in
          let (c_in, pc) = Elem-keep p c xs mc in
          let (d_in, pd) = Elem-keep (λ x. not (p x)) d xs md in
          let same = Distinct-map-inj xs c d h c_in d_in (sym ec ∙ ed) in
          cc (pc, pd, same, ap not pc, ap p same)

module _ {ℓ κ μ} {A : Type ℓ} {B : Type κ} {C : Type μ} (g : B → C) (f : A → B) where
  -- Images that stay apart under one more function are apart.
  pub Distinct-map-through : (xs : List A) → Distinct (map (λ x. g (f x)) xs) → Distinct (map f xs)
  Distinct-map-through [] d = tt
  Distinct-map-through (x ∷ xs) d = (
    (λ m.
        let (y, my, e) = Elem-map f (f x) xs m in
        elim (d.0 (
          subst (λ c. Elem c (map (λ z. g (f z)) xs)) (sym (ap g e))
            (map-Elem (λ z. g (f z)) y xs my))) [ ]),
    Distinct-map-through xs d.1,
  )
