-- ===== src/Prelude/Dict.antt =====
-- Go's `map[string]V`: an association list with one entry for each key. Go leaves the order in
-- which `range` visits a map open: here it is that of the list, and no law depends on it.
use Prim.Native.String.{String}
use mathlib.Core.Path.{◌≡◌, refl, ap, sym, ◌∙◌}
use mathlib.Core.Logic.{inl, inr, ◌⊎◌}
use mathlib.Core.Bool.{Bool, true, false, ◌&&◌}
use mathlib.Core.Option.{Option, none, some}
use mathlib.Core.List.{List, [], ◌∷◌}
use native.Mathlib.Omega.{arith}
use text.Mathlib.Text.{◌==◌}
use text.Mathlib.TextEquality.{eq_iff}
use text.Mathlib.TextPositions.{eq_refl}
use aspenmesh_k3s_multiclust.Prelude.Tests.{if◌then◌else◌, eqb, Bool-cases, some_inj}
use aspenmesh_k3s_multiclust.Prelude.Lists.{Elem, length, all}

abbrev pub Dict {ℓ} : Type ℓ → Type ℓ
Dict V = List (String × V)

module _ {ℓ} {V : Type ℓ} where
  -- m[k]
  unfoldable pub lookup : String → Dict V → Option V
  lookup k [] = none
  lookup k ((j, v) ∷ m) = if j == k then some v else lookup k m

  -- m[k] = v
  unfoldable pub insert : String → V → Dict V → Dict V
  insert k v [] = (k, v) ∷ []
  insert k v ((j, w) ∷ m) = if j == k then (j, v) ∷ m else (j, w) ∷ insert k v m

  -- delete(m, k)
  unfoldable pub remove : String → Dict V → Dict V
  remove k [] = []
  remove k ((j, w) ∷ m) = let rest = remove k m in if j == k then rest else (j, w) ∷ rest

  abbrev pub keys : Dict V → List String
  keys [] = []
  keys ((k, v) ∷ m) = k ∷ keys m

  abbrev pub values : Dict V → List V
  values [] = []
  values ((k, v) ∷ m) = v ∷ values m

  -- What is found after a write is what was written, under the same key.
  pub lookup-insert :
      (key other : String) (x : V) (m : Dict V)
      → lookup other (insert key x m) ≡ (if key == other then some x else lookup other m)
  unfolding lookup insert
  lookup-insert key other x [] = refl
  lookup-insert key other x ((a, y) ∷ rest) =
      let found = lookup-insert key other x rest in
      ground (arith, found, eq_iff a other, eq_iff a key, eq_iff key other)

  pub lookup-remove :
      (k j : String) (m : Dict V) → lookup j (remove k m) ≡ (if k == j then none else lookup j m)
  unfolding lookup remove
  lookup-remove k j [] = ground arith
  lookup-remove k j ((i, w) ∷ m) =
      ground (arith, eq_iff k j, eq_iff i k, eq_iff i j, lookup-remove k j m)

  -- What is found after a removal was there before, under another key.
  pub some_of_remove :
      (k j : String) (v : V) (m : Dict V)
      → lookup j (remove k m) ≡ some v
      → ((k == j) ≡ false) × (lookup j m ≡ some v)
  some_of_remove k j v m h = by_test (Bool-cases (k == j))
    where
      by_test : ((k == j) ≡ true) ⊎ ((k == j) ≡ false) → ((k == j) ≡ false) × (lookup j m ≡ some v)
      by_test (inl e) =
          cc (sym (lookup-remove k j m) ∙ h, ap (λ b. if b then none else lookup j m) e)
      by_test (inr e) =
          (e, sym (lookup-remove k j m ∙ ap (λ b. if b then none else lookup j m) e) ∙ h)

  pub lookup-remove_ne :
      (k j : String) (m : Dict V) → (k == j) ≡ false → lookup j (remove k m) ≡ lookup j m
  lookup-remove_ne k j m h = rw lookup-remove (rw h)

  pub lookup-insert_ne :
      (k j : String) (v : V) (m : Dict V) → (k == j) ≡ false → lookup j (insert k v m) ≡ lookup j m
  lookup-insert_ne k j v m h = rw lookup-insert (rw h)

  pub lookup-insert_self : (k : String) (v : V) (m : Dict V) → lookup k (insert k v m) ≡ some v
  lookup-insert_self k v m = rw lookup-insert (rw eq_refl)

  pub lookup-keys : (k : String) (v : V) (m : Dict V) → lookup k m ≡ some v → Elem k (keys m)
  unfolding lookup
  lookup-keys k v [] h = cc
  lookup-keys k v ((j, w) ∷ m) h = elim (Bool-cases (j == k)) [
    | inl e ↦ inl (sym ((eq_iff j k).0 e))
    | inr e ↦ inr (lookup-keys k v m (rw e at h))
  ]

  pub keys-lookup : (k : String) (m : Dict V) → Elem k (keys m) → (v : V) × (lookup k m ≡ some v)
  unfolding lookup
  keys-lookup k [] h = elim h [ ]
  keys-lookup k ((j, w) ∷ m) h = elim (Bool-cases (j == k)) [
    | inl e ↦ (w, rw e)
    | inr e ↦ rw e (keys-lookup k m (past e h))
  ]
    where
      past : (j == k) ≡ false → Elem k (j ∷ keys m) → Elem k (keys m)
      past e (inl p) = cc ((eq_iff j k).1 (sym p))
      past e (inr p) = p

  pub lookup-values : (k : String) (v : V) (m : Dict V) → lookup k m ≡ some v → Elem v (values m)
  unfolding lookup
  lookup-values k v [] h = cc
  lookup-values k v ((j, w) ∷ m) h = elim (Bool-cases (j == k)) [
    | inl e ↦ inl (some_inj (sym h ∙ rw e))
    | inr e ↦ inr (lookup-values k v m (rw e at h))
  ]

  -- An entry after a write is the one written, or was there before.
  pub Elem-insert :
      (p : String × V) (k : String) (v : V) (m : Dict V)
      → Elem p (insert k v m)
      → (p ≡ (k, v)) ⊎ Elem p m
  unfolding insert
  Elem-insert p k v [] (inl e) = inl e
  Elem-insert p k v [] (inr h) = inr h
  Elem-insert p k v ((j, w) ∷ m) h = split (Bool-cases (j == k)) (Elem-insert p k v m)
    where
      cons :
          (Elem p (insert k v m) → (p ≡ (k, v)) ⊎ Elem p m)
          → Elem p ((j, w) ∷ insert k v m)
          → (p ≡ (k, v)) ⊎ Elem p ((j, w) ∷ m)
      cons rec (inl e) = inr (inl e)
      cons rec (inr h) = elim (rec h) [ inl e ↦ inl e | inr n ↦ inr (inr n) ]

      here : (j == k) ≡ true → Elem p ((j, v) ∷ m) → (p ≡ (k, v)) ⊎ Elem p ((j, w) ∷ m)
      here t (inl e) = inl (e ∙ ap (λ (i : String). (i, v)) ((eq_iff j k).0 t))
      here t (inr h) = inr (inr h)

      split :
          ((j == k) ≡ true) ⊎ ((j == k) ≡ false)
          → (Elem p (insert k v m) → (p ≡ (k, v)) ⊎ Elem p m)
          → (p ≡ (k, v)) ⊎ Elem p ((j, w) ∷ m)
      split (inl t) rec = here t (rw t at h)
      split (inr t) rec = cons rec (rw t at h)

  -- A value after a write is the one written, or was there before.
  pub values-insert :
      (u : V) (k : String) (v : V) (m : Dict V)
      → Elem u (values (insert k v m))
      → (u ≡ v) ⊎ Elem u (values m)
  unfolding insert
  values-insert u k v [] (inl e) = inl e
  values-insert u k v [] (inr h) = inr h
  values-insert u k v ((j, w) ∷ m) h = split (Bool-cases (j == k)) (values-insert u k v m)
    where
      here : Elem u (v ∷ values m) → (u ≡ v) ⊎ Elem u (w ∷ values m)
      here (inl e) = inl e
      here (inr n) = inr (inr n)

      cons :
          (Elem u (values (insert k v m)) → (u ≡ v) ⊎ Elem u (values m))
          → Elem u (w ∷ values (insert k v m))
          → (u ≡ v) ⊎ Elem u (w ∷ values m)
      cons rec (inl e) = inr (inl e)
      cons rec (inr n) = elim (rec n) [ inl e ↦ inl e | inr o ↦ inr (inr o) ]

      split :
          ((j == k) ≡ true) ⊎ ((j == k) ≡ false)
          → (Elem u (values (insert k v m)) → (u ≡ v) ⊎ Elem u (values m))
          → (u ≡ v) ⊎ Elem u (w ∷ values m)
      split (inl t) rec = here (rw t at h)
      split (inr t) rec = cons rec (rw t at h)

  pub lookup-Elem : (k : String) (v : V) (m : Dict V) → lookup k m ≡ some v → Elem (k, v) m
  unfolding lookup
  lookup-Elem k v [] h = cc
  lookup-Elem k v ((j, w) ∷ m) h = elim (Bool-cases (j == k)) [
    | inl e ↦
        let same = some_inj (sym (ap (λ b. if b then some w else lookup k m) e) ∙ h) in
        inl (λ i. (sym ((eq_iff j k).0 e) i, sym same i))
    | inr e ↦ inr (lookup-Elem k v m (rw e at h))
  ]

  -- The entry's key has an equal value in the map.
  abbrev pub agrees : (V → V → Bool) → Dict V → String × V → Bool
  agrees eq n (k, v) = elim (lookup k n) [ none ↦ false | some w ↦ eq v w ]

  -- reflect.DeepEqual of two maps
  unfoldable pub deep_equal : (V → V → Bool) → Dict V → Dict V → Bool
  deep_equal eq m n = eqb (length m) (length n) && all (agrees eq n) m

  agrees-some :
      (eq : V → V → Bool) (n : Dict V) (k : String) (v : V)
      → agrees eq n (k, v) ≡ true
      → (w : V) × (lookup k n ≡ some w) × (eq v w ≡ true)
  agrees-some eq n k v h = at_key (lookup k n) refl h
    where
      at_key :
          (o : Option V)
          → lookup k n ≡ o
          → elim o [ none ↦ false | some w ↦ eq v w ] ≡ true
          → (w : V) × (lookup k n ≡ some w) × (eq v w ≡ true)
      at_key none e h = cc
      at_key (some w) e h = (w, e, h)

  all-lookup :
      (eq : V → V → Bool) (n m : Dict V) (k : String) (v : V)
      → all (agrees eq n) m ≡ true
      → lookup k m ≡ some v
      → agrees eq n (k, v) ≡ true
  unfolding lookup
  all-lookup eq n [] k v h e = cc
  all-lookup eq n ((j, w) ∷ m) k v h e = elim (Bool-cases (j == k)) [
    | inl t ↦
        let same = some_inj (sym (ap (λ b. if b then some w else lookup k m) t) ∙ e) in
        rw (← (eq_iff j k).0 t, ← same) (ground arith)
    | inr t ↦ all-lookup eq n m k v (ground arith) (rw t at e)
  ]

  -- What one of two equal maps holds, the other holds too.
  pub deep_equal-lookup :
      (eq : V → V → Bool) (m n : Dict V) (k : String) (v : V)
      → deep_equal eq m n ≡ true
      → lookup k m ≡ some v
      → (w : V) × (lookup k n ≡ some w) × (eq v w ≡ true)
  unfolding deep_equal
  deep_equal-lookup eq m n k v h e = agrees-some eq n k v (all-lookup eq n m k v (ground arith) e)

  module _ (eq : V → V → Bool)
      (eq_trans : (u v w : V) → eq u v ≡ true → eq v w ≡ true → eq u w ≡ true) where
    agrees_trans :
        (n o : Dict V) (k : String) (v : V)
        → all (agrees eq o) n ≡ true
        → agrees eq n (k, v) ≡ true
        → agrees eq o (k, v) ≡ true
    agrees_trans n o k v h a =
        let (w, ew, vw) = agrees-some eq n k v a in
        let (x, ex, wx) = agrees-some eq o k w (all-lookup eq o n k w h ew) in
        rw (ex, agrees) (eq_trans v w x vw wx)

    all-agrees_trans :
        (m n o : Dict V)
        → all (agrees eq n) m ≡ true
        → all (agrees eq o) n ≡ true
        → all (agrees eq o) m ≡ true
    all-agrees_trans [] n o h k = refl
    all-agrees_trans ((j, v) ∷ m) n o h k =
        ground (arith, agrees_trans n o j v k, all-agrees_trans m n o)

    pub deep_equal_trans :
        (m n o : Dict V)
        → deep_equal eq m n ≡ true
        → deep_equal eq n o ≡ true
        → deep_equal eq m o ≡ true
    unfolding deep_equal
    deep_equal_trans m n o h k = ground (arith, all-agrees_trans m n o)
