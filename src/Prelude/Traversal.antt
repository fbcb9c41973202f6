-- ===== src/Prelude/Traversal.antt =====
-- Traversals of the values of a map.
use Prim.Native.String.{String}
use mathlib.Core.Path.{◌≡◌, refl, ap, sym, ◌∙◌}
use mathlib.Core.Logic.{inl, inr}
use mathlib.Core.Bool.{true}
use mathlib.Core.Option.{Option, some}
use mathlib.Core.List.{[], ◌∷◌}
use text.Mathlib.Text.{◌==◌}
use aspenmesh_k3s_multiclust.Prelude.Tests.{
  Bool-cases, some_inj, ◌>>=◌, >>=-eq-some, is_some, is_some->>=,
}
use aspenmesh_k3s_multiclust.Prelude.Lists.{Elem, traverse}
use aspenmesh_k3s_multiclust.Prelude.Dict.{Dict, lookup}

module _ {ℓ κ} {V : Type ℓ} {W : Type κ} (f : V → Option W) where
  -- A step at the value of an entry.
  abbrev pub at_value : String × V → Option (String × W)
  at_value (k, v) = f v >>= λ w. some (k, w)

  -- What a traversal of the values yields under a key is from the value under the key.
  pub lookup-traverse :
      (m : Dict V) (n : Dict W) (k : String) (w : W)
      → traverse at_value m ≡ some n
      → lookup k n ≡ some w
      → (v : V) × (lookup k m ≡ some v) × (f v ≡ some w)
  unfolding lookup
  lookup-traverse [] n k w e h = cc (e, h, ap (lookup k) (some_inj e))
  lookup-traverse ((j, v) ∷ m) n k w e h =
      let (p, ep, rest) = >>=-eq-some (at_value (j, v)) _ e in
      let (x, ex, last) = >>=-eq-some (f v) _ ep in
      let (q, eq, whole) = >>=-eq-some (traverse at_value m) _ rest in
      let built : lookup k ((j, x) ∷ q) ≡ some w =
        (ap (λ l. lookup k l) (ap (λ y. y ∷ q) (some_inj last) ∙ some_inj whole) ∙ h) in
      elim (Bool-cases (j == k)) [
        | inl t ↦ (v, rw t, ex ∙ (rw t at built))
        | inr t ↦ let (u, eu, fu) = lookup-traverse m q k w eq (rw t at built) in (u, rw t eu, fu)
      ]

  pub traverse-lookup :
      (m : Dict V) (n : Dict W) (k : String) (v : V)
      → traverse at_value m ≡ some n
      → lookup k m ≡ some v
      → (w : W) × (lookup k n ≡ some w) × (f v ≡ some w)
  unfolding lookup
  traverse-lookup [] n k v e h = cc
  traverse-lookup ((j, u) ∷ m) n k v e h =
      let (p, ep, rest) = >>=-eq-some (at_value (j, u)) _ e in
      let (x, ex, last) = >>=-eq-some (f u) _ ep in
      let (q, eq, whole) = >>=-eq-some (traverse at_value m) _ rest in
      let built : (j, x) ∷ q ≡ n = (ap (λ y. y ∷ q) (some_inj last) ∙ some_inj whole) in
      elim (Bool-cases (j == k)) [
        | inl t ↦ (x, rw (← built) (rw t), ap f (sym (some_inj (rw t at h))) ∙ ex)
        | inr t ↦
            let (w, ew, fw) = traverse-lookup m q k v eq (rw t at h) in
            (w, rw (← built) (rw t ew), fw)
      ]

  pub traverse-is_some :
      (m : Dict V)
      → ((k : String) (v : V) → Elem (k, v) m → is_some (f v) ≡ true)
      → is_some (traverse at_value m) ≡ true
  traverse-is_some [] h = refl
  traverse-is_some ((j, v) ∷ m) h =
      is_some->>= (at_value (j, v)) _ (is_some->>= (f v) _ (h j v (inl refl)) (λ w. refl)) (λ y.
        is_some->>= (traverse at_value m) _ (traverse-is_some m (λ k u n. h k u (inr n)))
          (λ ys. refl))
