-- ===== src/Apis/Validation/Unique.antt =====
-- The loops that keep a set of the values seen: no value stands twice.
use aspenmesh_k3s_multiclust.Prelude.{
  String, ◌≡◌, ap, ◌∙◌, inl, inr, false, List, [], ◌∷◌, map, eq_iff, Elem, Elem-map, Distinct,
  Never,
}
use aspenmesh_k3s_multiclust.Apis.Validation.{has, has-cons}

-- The values are different from one another, and in no set of those seen.
pub record AreNew {ℓ} {A : Type ℓ} (f : A → String) (seen : List String) (xs : List A)
    : Type ℓ where
  pub apart : Distinct (map f xs)
  pub unseen : (x : A) → Elem x xs → has seen (f x) ≡ false

pub no_values-AreNew {ℓ} : {A : Type ℓ} (f : A → String) (seen : List String) → AreNew f seen []
no_values-AreNew f seen = record { apart = tt; unseen = λ x m. elim m [ ] }

pub AreNew-cons {ℓ} :
    {A : Type ℓ} (f : A → String) (seen : List String) (x : A) (xs : List A)
    → has seen (f x) ≡ false
    → AreNew f (f x ∷ seen) xs
    → AreNew f seen (x ∷ xs)
AreNew-cons f seen x xs h n = record {
  apart = ((λ m. let (y, my, e) = Elem-map f (f x) xs m in elim (new_at y my e) [ ]), n.apart);
  unseen = λ y m. elim m [
    | inl e ↦ ap (λ z. has seen (f z)) e ∙ h
    | inr k ↦ (has-cons (f x) (f y) seen (n.unseen y k)).1
  ];
}
  where
    new_at : (y : _) → Elem y xs → f x ≡ f y → Never {0}
    new_at y m e = cc ((has-cons (f x) (f y) seen (n.unseen y m)).0, (eq_iff (f x) (f y)).1 e)
