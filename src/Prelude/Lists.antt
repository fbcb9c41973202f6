-- ===== src/Prelude/Lists.antt =====
-- Lists: membership as data, predicates by recursion, and traversals that may fail.
use Prim.Native.Nat.{ℕ, suc}
use mathlib.Core.Path.{◌≡◌, refl, ap, sym, ◌∙◌, subst}
use mathlib.Core.Logic.{◌⊎◌, inl, inr}
use mathlib.Core.Bool.{Bool, true, false, not, ◌||◌, ◌&&◌}
use mathlib.Core.Option.{Option, some}
use mathlib.Core.List.{List, [], ◌∷◌, ◌++◌, map}
use native.Mathlib.Omega.{arith}
use aspenmesh_k3s_multiclust.Prelude.Tests.{◌>>=◌, >>=-eq-some, some_inj, if◌then◌else◌, Bool-cases}

-- The empty type, at every level.
pub data Never {ℓ} : Type ℓ where

module _ {ℓ} {A : Type ℓ} where
  abbrev pub length : List A → ℕ
  length [] = 0
  length (x ∷ xs) = suc (length xs)

  -- `x` stands in the list.
  abbrev pub Elem : A → List A → Type ℓ
  Elem x [] = Never
  Elem x (y ∷ ys) = (x ≡ y) ⊎ Elem x ys

  abbrev pub any : (A → Bool) → List A → Bool
  any p [] = false
  any p (x ∷ xs) = p x || any p xs

  abbrev pub all : (A → Bool) → List A → Bool
  all p [] = true
  all p (x ∷ xs) = p x && all p xs

  abbrev pub keep : (A → Bool) → List A → List A
  keep p [] = []
  keep p (x ∷ xs) = let rest = keep p xs in if p x then x ∷ rest else rest

  pub Elem-append_left : (x : A) (xs ys : List A) → Elem x xs → Elem x (xs ++ ys)
  Elem-append_left x [] ys h = elim h [ ]
  Elem-append_left x (z ∷ xs) ys (inl e) = inl e
  Elem-append_left x (z ∷ xs) ys (inr h) = inr (Elem-append_left x xs ys h)

  pub Elem-append_right : (x : A) (xs ys : List A) → Elem x ys → Elem x (xs ++ ys)
  Elem-append_right x [] ys h = h
  Elem-append_right x (z ∷ xs) ys h = inr (Elem-append_right x xs ys h)

  pub Elem-append : (x : A) (xs ys : List A) → Elem x (xs ++ ys) → Elem x xs ⊎ Elem x ys
  Elem-append x [] ys h = inr h
  Elem-append x (z ∷ xs) ys h = ground (arith, Elem-append x xs ys)

  pub Elem-keep :
      (p : A → Bool) (x : A) (xs : List A) → Elem x (keep p xs) → Elem x xs × (p x ≡ true)
  Elem-keep p x [] h = elim h [ ]
  Elem-keep p x (y ∷ ys) h = ground (arith, Elem-keep p x ys)

  pub keep-Elem : (p : A → Bool) (x : A) (xs : List A) → Elem x xs → p x ≡ true → Elem x (keep p xs)
  keep-Elem p x [] h e = elim h [ ]
  keep-Elem p x (y ∷ ys) h e = ground (arith, keep-Elem p x ys)

  pub all-keep : (p : A → Bool) (xs : List A) → all p (keep p xs) ≡ true
  all-keep p [] = refl
  all-keep p (x ∷ xs) = ground (arith, all-keep p xs)

  pub any-keep-not : (p : A → Bool) (xs : List A) → any p (keep (λ x. not (p x)) xs) ≡ false
  any-keep-not p [] = refl
  any-keep-not p (x ∷ xs) = ground (arith, any-keep-not p xs)

  pub keep-append : (p : A → Bool) (xs ys : List A) → keep p (xs ++ ys) ≡ keep p xs ++ keep p ys
  keep-append p [] ys = refl
  keep-append p (x ∷ xs) ys = ground (arith, keep-append p xs ys)

  -- A test holds of some entry exactly when one can be named.
  pub any-Elem : (p : A → Bool) (xs : List A) → any p xs ≡ true → (x : A) × Elem x xs × (p x ≡ true)
  any-Elem p [] h = cc
  any-Elem p (x ∷ xs) h = elim (Bool-cases (p x)) [
    | inl e ↦ (x, inl refl, e)
    | inr e ↦ let (y, m, q) = any-Elem p xs (rw e at h) in (y, inr m, q)
  ]

  pub Elem-any : (p : A → Bool) (x : A) (xs : List A) → Elem x xs → p x ≡ true → any p xs ≡ true
  Elem-any p x [] m h = elim m [ ]
  Elem-any p x (y ∷ ys) (inl e) h = ground arith
  Elem-any p x (y ∷ ys) (inr m) h = ground (arith, Elem-any p x ys m h)

  -- No entry stands twice.
  abbrev pub Distinct : List A → Type ℓ
  Distinct [] = Unit
  Distinct (x ∷ xs) = (Elem x xs → Never {ℓ}) × Distinct xs

module _ {ℓ κ} {A : Type ℓ} {B : Type κ} where
  pub Elem-map :
      (f : A → B) (y : B) (xs : List A) → Elem y (map f xs) → (x : A) × Elem x xs × (y ≡ f x)
  Elem-map f y [] h = elim h [ ]
  Elem-map f y (x ∷ xs) (inl e) = (x, inl refl, e)
  Elem-map f y (x ∷ xs) (inr h) = let (z, m, e) = Elem-map f y xs h in (z, inr m, e)

  pub map-Elem : (f : A → B) (x : A) (xs : List A) → Elem x xs → Elem (f x) (map f xs)
  map-Elem f x [] h = elim h [ ]
  map-Elem f x (y ∷ xs) (inl e) = inl (ap f e)
  map-Elem f x (y ∷ xs) (inr h) = inr (map-Elem f x xs h)

  -- Runs a step that may fail on every entry; fails when one of them does.
  abbrev pub traverse : (A → Option B) → List A → Option (List B)
  traverse f [] = some []
  traverse f (x ∷ xs) = f x >>= λ y. traverse f xs >>= λ ys. some (y ∷ ys)

  -- A traversal succeeds if the step does so at every entry.
  pub traverse-some :
      (f : A → Option B) (xs : List A)
      → ((x : A) → Elem x xs → (y : B) × (f x ≡ some y))
      → (ys : List B) × (traverse f xs ≡ some ys)
  traverse-some f [] h = ([], refl)
  traverse-some f (x ∷ xs) h =
      let (y, e) = h x (inl refl) in
      let (ys, es) = traverse-some f xs (λ z m. h z (inr m)) in (y ∷ ys, rw e (rw es refl))

  -- The results are those of the entries.
  pub traverse-Elem :
      (f : A → Option B) (xs : List A) (ys : List B) (y : B)
      → traverse f xs ≡ some ys
      → Elem y ys
      → (x : A) × Elem x xs × (f x ≡ some y)
  traverse-Elem f [] ys y e m = absurd (ground arith)
  traverse-Elem f (x ∷ xs) ys y e m =
      let (z, ez, rest) = >>=-eq-some (f x) _ e in
      let (zs, ezs, last) = >>=-eq-some (traverse f xs) _ rest in
      split z zs ez (traverse-Elem f xs zs y ezs) (subst (Elem y) (sym (some_inj last)) m)
    where
      split :
          (z : B) (zs : List B)
          → f x ≡ some z
          → (Elem y zs → (v : A) × Elem v xs × (f v ≡ some y))
          → Elem y (z ∷ zs)
          → (v : A) × Elem v (x ∷ xs) × (f v ≡ some y)
      split z zs ez rest (inl w) = (x, inl refl, ez ∙ ap some (sym w))
      split z zs ez rest (inr w) = let (v, mv, ev) = rest w in (v, inr mv, ev)

  pub Elem-traverse :
      (f : A → Option B) (xs : List A) (ys : List B) (x : A) (y : B)
      → traverse f xs ≡ some ys
      → Elem x xs
      → f x ≡ some y
      → Elem y ys
  Elem-traverse f [] ys x y e m h = elim m [ ]
  Elem-traverse f (z ∷ xs) ys x y e m h =
      let (w, ew, rest) = >>=-eq-some (f z) _ e in
      let (ws, ews, last) = >>=-eq-some (traverse f xs) _ rest in
      subst (Elem y) (some_inj last) (elim m [
        | inl p ↦ inl (some_inj (sym h ∙ ap f p ∙ ew))
        | inr p ↦ inr (Elem-traverse f xs ws x y ews p h)
      ])

pub append-empty {ℓ} : {A : Type ℓ} (xs ys : List A) → xs ++ ys ≡ [] → (xs ≡ []) × (ys ≡ [])
append-empty [] ys h = (refl, h)
append-empty (x ∷ xs) ys h = cc

pub all-Elem {ℓ} :
    {A : Type ℓ} (p : A → Bool) (xs : List A) (x : A) → all p xs ≡ true → Elem x xs → p x ≡ true
all-Elem p [] x h m = elim m [ ]
all-Elem p (y ∷ ys) x h (inl e) = rw e (ground arith)
all-Elem p (y ∷ ys) x h (inr m) = all-Elem p ys x (ground arith) m

pub Elem-all {ℓ} :
    {A : Type ℓ} (p : A → Bool) (xs : List A) → ((x : A) → Elem x xs → p x ≡ true) → all p xs ≡ true
Elem-all p [] h = refl
Elem-all p (y ∷ ys) h = rw (h y (inl refl)) (Elem-all p ys (λ x m. h x (inr m)))
