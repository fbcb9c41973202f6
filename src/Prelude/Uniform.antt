-- ===== src/Prelude/Uniform.antt =====
-- Maps in which every key has one entry, and what a loop that rewrites values leaves.
use Prim.Native.String.{String}
use mathlib.Core.Path.{◌≡◌, ap, sym, ◌∙◌, subst}
use mathlib.Core.Logic.{inl, inr, ◌⊎◌}
use mathlib.Core.Option.{none, some}
use mathlib.Core.List.{List, [], ◌∷◌}
use native.Mathlib.Omega.{arith}
use text.Mathlib.Text.{◌==◌}
use text.Mathlib.TextEquality.{eq_iff}
use text.Mathlib.TextPositions.{eq_refl}
use aspenmesh_k3s_multiclust.Prelude.Tests.{Bool-cases, some_inj}
use aspenmesh_k3s_multiclust.Prelude.Lists.{Elem, Distinct}
use aspenmesh_k3s_multiclust.Prelude.Dict.{
  Dict, lookup, insert, remove, keys, values, lookup-insert,
}

module _ {ℓ} {V : Type ℓ} where
  Elem-keys : (k : String) (v : V) (m : Dict V) → Elem (k, v) m → Elem k (keys m)
  Elem-keys k v [] h = elim h [ ]
  Elem-keys k v ((j, w) ∷ m) (inl e) = inl (λ i. (e i).0)
  Elem-keys k v ((j, w) ∷ m) (inr h) = inr (Elem-keys k v m h)

  -- An entry of such a map is the one that is found.
  pub Elem-lookup :
      (k : String) (v : V) (m : Dict V) → Distinct (keys m) → Elem (k, v) m → lookup k m ≡ some v
  unfolding lookup
  Elem-lookup k v [] d h = elim h [ ]
  Elem-lookup k v ((j, w) ∷ m) d (inl e) =
      rw ((eq_iff j k).1 (λ i. (sym e i).0)) (λ i. some (sym e i).1)
  Elem-lookup k v ((j, w) ∷ m) d (inr h) = elim (Bool-cases (j == k)) [
    | inl t ↦
        elim (d.0 (subst (λ x. Elem x (keys m)) (sym ((eq_iff j k).0 t)) (Elem-keys k v m h))) [ ]
    | inr t ↦ rw t (Elem-lookup k v m d.1 h)
  ]

  values-Elem : (v : V) (m : Dict V) → Elem v (values m) → (k : String) × Elem (k, v) m
  values-Elem v [] h = elim h [ ]
  values-Elem v ((j, w) ∷ m) (inl e) = (j, inl (ap (λ (x : V). (j, x)) e))
  values-Elem v ((j, w) ∷ m) (inr h) = let (k, e) = values-Elem v m h in (k, inr e)

  -- A value of such a map is found under some key.
  pub values-lookup :
      (v : V) (m : Dict V)
      → Distinct (keys m)
      → Elem v (values m)
      → (k : String) × (lookup k m ≡ some v)
  values-lookup v m d h = let (k, e) = values-Elem v m h in (k, Elem-lookup k v m d e)

  keys-insert :
      (x k : String) (v : V) (m : Dict V) → Elem x (keys (insert k v m)) → (x ≡ k) ⊎ Elem x (keys m)
  unfolding insert
  keys-insert x k v [] (inl e) = inl e
  keys-insert x k v [] (inr h) = elim h [ ]
  keys-insert x k v ((j, w) ∷ m) h = ground (arith, keys-insert x k v m)

  pub insert-Distinct :
      (k : String) (v : V) (m : Dict V) → Distinct (keys m) → Distinct (keys (insert k v m))
  unfolding insert
  insert-Distinct k v [] d = (λ h. h, tt)
  insert-Distinct k v ((j, w) ∷ m) d = elim (Bool-cases (j == k)) [
    | inl t ↦ rw t d
    | inr t ↦ rw t (
      (λ h. elim (keys-insert j k v m h) [ inl e ↦ cc ((eq_iff j k).1 e, t) | inr n ↦ d.0 n ]),
      insert-Distinct k v m d.1,
    )
  ]

  keys-remove : (x k : String) (m : Dict V) → Elem x (keys (remove k m)) → Elem x (keys m)
  unfolding remove
  keys-remove x k [] h = h
  keys-remove x k ((j, w) ∷ m) h = ground (arith, keys-remove x k m)

  pub remove-Distinct : (k : String) (m : Dict V) → Distinct (keys m) → Distinct (keys (remove k m))
  unfolding remove
  remove-Distinct k [] d = tt
  remove-Distinct k ((j, w) ∷ m) d = elim (Bool-cases (j == k)) [
    | inl t ↦ rw t (remove-Distinct k m d.1)
    | inr t ↦ rw t ((λ h. d.0 (keys-remove j k m h)), remove-Distinct k m d.1)
  ]

  -- A loop sets some values to what `f` yields of the key and the value at the start.
  module _ (start : Dict V) (f : String → V → V) where
    pub record Rewriting (written : List (String × V)) (m : Dict V) : Type ℓ where
      pub kept :
          (k : String) (v : V)
          → lookup k start ≡ some v
          → (lookup k m ≡ some v) ⊎ (lookup k m ≡ some (f k v))
      pub missing : (k : String) → lookup k start ≡ none → lookup k m ≡ none
      pub source : (k : String) (v : V) → Elem (k, v) written → lookup k start ≡ some v
      pub done : (k : String) (v : V) → Elem (k, v) written → lookup k m ≡ some (f k v)
      pub unique : Distinct (keys m)

    pub Rewriting-start : Distinct (keys start) → Rewriting [] start
    Rewriting-start d = record {
      kept = λ k v e. inl e;
      missing = λ k e. e;
      source = λ k v h. elim h [ ];
      done = λ k v h. elim h [ ];
      unique = d;
    }

    source_after :
        (k : String) (v : V) (written : List (String × V)) (m : Dict V)
        → lookup k start ≡ some v
        → Rewriting written m
        → (j : String) (w : V) → Elem (j, w) ((k, v) ∷ written)
        → lookup j start ≡ some w
    source_after k v written m e r j w (inl p) =
        subst (λ (x : String × V). lookup x.0 start ≡ some x.1) (sym p) e
    source_after k v written m e r j w (inr n) = r.source j w n

    -- The value is left when `f` does.
    pub Rewriting-skip :
        (k : String) (v : V) (written : List (String × V)) (m : Dict V)
        → lookup k start ≡ some v
        → f k v ≡ v
        → Rewriting written m
        → Rewriting ((k, v) ∷ written) m
    Rewriting-skip k v written m e same r = record {
      kept = r.kept;
      missing = r.missing;
      source = source_after k v written m e r;
      done = λ j w h. elim h [
        | inl p ↦ subst (λ (x : String × V). lookup x.0 m ≡ some (f x.0 x.1)) (sym p) here
        | inr n ↦ r.done j w n
      ];
      unique = r.unique;
    }
      where
        here : lookup k m ≡ some (f k v)
        here = elim (r.kept k v e) [ inl q ↦ q ∙ ap some (sym same) | inr q ↦ q ]

    -- What is found after the write under a key that was there.
    written_at :
        (k j : String) (v w : V) (m : Dict V)
        → lookup k start ≡ some v
        → lookup j start ≡ some w
        → (lookup j (insert k (f k v) m) ≡ some (f j w))
          ⊎ (lookup j (insert k (f k v) m) ≡ lookup j m)
    written_at k j v w m e ej = elim (Bool-cases (k == j)) [
      | inl t ↦
          let same_key = (eq_iff k j).0 t in
          let same = some_inj (sym e ∙ ap (λ x. lookup x start) same_key ∙ ej) in
          inl (lookup-insert k j (f k v) m ∙ rw t (λ i. some (f (same_key i) (same i))))
      | inr t ↦ inr (rw (lookup-insert k j (f k v) m, t))
    ]

    pub Rewriting-write :
        (k : String) (v : V) (written : List (String × V)) (m : Dict V)
        → lookup k start ≡ some v
        → Rewriting written m
        → Rewriting ((k, v) ∷ written) (insert k (f k v) m)
    Rewriting-write k v written m e r = record {
      kept = λ j w ej. elim (written_at k j v w m e ej) [
        | inl p ↦ inr p
        | inr p ↦ rw p (r.kept j w ej)
      ];
      missing = λ j ej. elim (Bool-cases (k == j)) [
        | inl t ↦ cc (ap (λ x. lookup x start) ((eq_iff k j).0 t), e, ej)
        | inr t ↦ rw (lookup-insert k j (f k v) m, t) (r.missing j ej)
      ];
      source = source_after k v written m e r;
      done = λ j w h. elim h [
        | inl p ↦
            subst (λ (x : String × V). lookup x.0 (insert k (f k v) m) ≡ some (f x.0 x.1)) (sym p)
              (rw (lookup-insert k k (f k v) m, eq_refl k))
        | inr n ↦ elim (written_at k j v w m e (r.source j w n)) [
          | inl p ↦ p
          | inr p ↦ rw p (r.done j w n)
        ]
      ];
      unique = insert-Distinct k (f k v) m r.unique;
    }
