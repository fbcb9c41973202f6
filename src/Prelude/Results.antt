-- ===== src/Prelude/Results.antt =====
-- A value and a nil error, or the text of an error.
use Prim.Native.String.{String}
use mathlib.Core.Path.{◌≡◌, refl, sym, ap, ◌∙◌, subst}
use mathlib.Core.Logic.{inl, inr}
use mathlib.Core.List.{List, [], ◌∷◌}
use aspenmesh_k3s_multiclust.Prelude.Lists.{Elem}

pub data Result {ℓ} (A : Type ℓ) : Type ℓ where
  ok : A → Result A
  err : String → Result A

abbrev pub map_result {ℓ κ} : {A : Type ℓ} {B : Type κ} → (A → B) → Result A → Result B
map_result f (ok a) = ok (f a)
map_result f (err e) = err e

-- The loop that parses every piece and stops at the first error.
abbrev pub parse_each {ℓ κ} : {A : Type ℓ} {B : Type κ} → (A → Result B) → List A → Result (List B)
parse_each parse [] = ok []
parse_each parse (x ∷ xs) =
    let rest = parse_each parse xs in
    elim (parse x) [ ok y ↦ map_result (◌∷◌ y) rest | err e ↦ err e ]

pub parse_each-ok {ℓ κ} :
    {A : Type ℓ} {B : Type κ} (parse : A → Result B) (x : A) (xs : List A) (y : B) (ys : List B)
    → parse x ≡ ok y
    → parse_each parse xs ≡ ok ys
    → parse_each parse (x ∷ xs) ≡ ok (y ∷ ys)
parse_each-ok parse x xs y ys e es =
    λ i. elim (e i) [ ok z ↦ map_result (◌∷◌ z) (es i) | err m ↦ err m ]

ok_inj {ℓ} : {A : Type ℓ} {x y : A} → ok x ≡ ok y → x ≡ y
ok_inj h = cc

-- The first piece and the others are parsed.
parse_each-cons {ℓ κ} :
    {A : Type ℓ} {B : Type κ} (parse : A → Result B) (x : A) (xs : List A) (ys : List B)
    → parse_each parse (x ∷ xs) ≡ ok ys
    → (z : B) × (zs : List B) × (parse x ≡ ok z) × (parse_each parse xs ≡ ok zs) × (z ∷ zs ≡ ys)
parse_each-cons {A = A} {B = B} parse x xs ys h =
    by_results (parse x) (parse_each parse xs) refl refl h
  where
    by_results :
        (o : Result B) (rest : Result (List B))
        → parse x ≡ o
        → parse_each parse xs ≡ rest
        → elim o [ ok z ↦ map_result (◌∷◌ z) rest | err e ↦ err e ] ≡ ok ys
        → (z : B) × (zs : List B) × (parse x ≡ ok z) × (parse_each parse xs ≡ ok zs) × (z ∷ zs ≡ ys)
    by_results (err e) rest first later k = cc
    by_results (ok z) (err e) first later k = cc
    by_results (ok z) (ok zs) first later k = (z, zs, first, later, ok_inj k)

-- Every value is that of a piece.
pub parse_each-Elem {ℓ κ} :
    {A : Type ℓ} {B : Type κ} (parse : A → Result B) (xs : List A) (ys : List B) (y : B)
    → parse_each parse xs ≡ ok ys
    → Elem y ys
    → (x : A) × (parse x ≡ ok y)
parse_each-Elem parse [] ys y h m = elim (subst (Elem y) (sym (ok_inj h)) m) [ ]
parse_each-Elem parse (x ∷ xs) ys y h m =
    let (z, zs, first, later, same) = parse_each-cons parse x xs ys h in
    elim (subst (Elem y) (sym same) m) [
      | inl e ↦ (x, first ∙ ap ok (sym e))
      | inr n ↦ parse_each-Elem parse xs zs y later n
    ]
