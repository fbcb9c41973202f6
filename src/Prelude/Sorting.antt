-- ===== src/Prelude/Sorting.antt =====
-- Go's sort.Strings, as an insertion sort: what it returns is fixed by the order of the strings.
use Prim.Native.String.{String}
use mathlib.Core.List.{List, [], ◌∷◌}
use mathlib.Core.Path.{◌≡◌, refl, ap, sym, ◌∙◌}
use mathlib.Core.Logic.{inl, inr}
use mathlib.Core.Option.{Option, none, some}
use native.Mathlib.Omega.{arith}
use aspenmesh_k3s_multiclust.Prelude.Tests.{if◌then◌else◌}
use aspenmesh_k3s_multiclust.Prelude.Lists.{Elem}
use aspenmesh_k3s_multiclust.Prelude.Texts.{text_lt}
use aspenmesh_k3s_multiclust.Prelude.Dict.{Dict, lookup, keys, lookup-keys}

insert_sorted : String → List String → List String
insert_sorted x [] = x ∷ []
insert_sorted x (y ∷ ys) = if text_lt y x then y ∷ insert_sorted x ys else x ∷ y ∷ ys

unfoldable pub sort_strings : List String → List String
unfolding insert_sorted
sort_strings [] = []
sort_strings (x ∷ xs) = insert_sorted x (sort_strings xs)

Elem-insert_sorted :
    (a x : String) (xs : List String) → Elem a (insert_sorted x xs) → Elem a (x ∷ xs)
unfolding insert_sorted
Elem-insert_sorted a x [] h = h
Elem-insert_sorted a x (y ∷ ys) h = ground (arith, Elem-insert_sorted a x ys)

insert_sorted-Elem :
    (a x : String) (xs : List String) → Elem a (x ∷ xs) → Elem a (insert_sorted x xs)
unfolding insert_sorted
insert_sorted-Elem a x [] h = h
insert_sorted-Elem a x (y ∷ ys) h = ground (arith, insert_sorted-Elem a x ys)

pub Elem-sort_strings : (a : String) (xs : List String) → Elem a (sort_strings xs) → Elem a xs
unfolding sort_strings
Elem-sort_strings a [] h = h
Elem-sort_strings a (x ∷ xs) h =
    ground (arith, Elem-insert_sorted a x (sort_strings xs), Elem-sort_strings a xs)

pub sort_strings-Elem : (a : String) (xs : List String) → Elem a xs → Elem a (sort_strings xs)
unfolding sort_strings
sort_strings-Elem a [] h = h
sort_strings-Elem a (x ∷ xs) h =
    ground (arith, insert_sorted-Elem a x (sort_strings xs), sort_strings-Elem a xs)

module _ {ℓ} {V : Type ℓ} where
  -- The values at some keys; a key of the map always has one.
  pick : Dict V → List String → List V
  pick m [] = []
  pick m (k ∷ ks) = elim (lookup k m) [ none ↦ pick m ks | some v ↦ v ∷ pick m ks ]

  -- for _, key := range getSorted…Keys(m) { v := m[key] … }
  unfoldable pub sorted_values : Dict V → List V
  unfolding pick sort_strings
  sorted_values m = pick m (sort_strings (keys m))

  pick-Elem :
      (m : Dict V) (v : V) (ks : List String)
      → Elem v (pick m ks)
      → (k : String) × (lookup k m ≡ some v)
  unfolding pick
  pick-Elem m v [] h = elim h [ ]
  pick-Elem m v (k ∷ ks) h = at_key (lookup k m) refl (pick-Elem m v ks) h
    where
      at_key :
          (o : Option V)
          → lookup k m ≡ o
          → (Elem v (pick m ks) → (j : String) × (lookup j m ≡ some v))
          → Elem v (elim o [ none ↦ pick m ks | some w ↦ w ∷ pick m ks ])
          → (j : String) × (lookup j m ≡ some v)
      at_key none e later h = later h
      at_key (some w) e later (inl p) = (k, e ∙ ap some (sym p))
      at_key (some w) e later (inr p) = later p

  Elem-pick :
      (m : Dict V) (k : String) (v : V) (ks : List String)
      → lookup k m ≡ some v
      → Elem k ks
      → Elem v (pick m ks)
  unfolding pick
  Elem-pick m k v [] e h = elim h [ ]
  Elem-pick m k v (j ∷ ks) e h = ground (arith, Elem-pick m k v ks e)

  -- The loop visits every entry of the map, and nothing else.
  pub sorted_values-Elem :
      (m : Dict V) (v : V) → Elem v (sorted_values m) → (k : String) × (lookup k m ≡ some v)
  unfolding sorted_values
  sorted_values-Elem m v h = pick-Elem m v (sort_strings (keys m)) h

  pub Elem-sorted_values :
      (m : Dict V) (k : String) (v : V) → lookup k m ≡ some v → Elem v (sorted_values m)
  unfolding sorted_values
  Elem-sorted_values m k v e =
      Elem-pick m k v (sort_strings (keys m)) e (sort_strings-Elem k (keys m) (lookup-keys k v m e))
