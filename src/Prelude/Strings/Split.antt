-- ===== src/Prelude/Strings/Split.antt =====
-- strings.Split undoes strings.Join when no piece holds the separator.
use Prim.Native.Nat.{ℕ}
use Prim.Native.Char.{Char, code}
use Prim.Native.String.{String, [], ◌∷◌, ◌++◌}
use Prim.Native.String.append
use mathlib.Core.Path.{◌≡◌, refl, ap, ◌∙◌}
use mathlib.Core.Bool.{Bool, true, false}
use mathlib.Core.List.{List}
use native.Mathlib.Omega.{arith}
use aspenmesh_k3s_multiclust.Prelude.Tests.{eqb, if◌then◌else◌}
use aspenmesh_k3s_multiclust.Prelude.Lists.{all}
use aspenmesh_k3s_multiclust.Prelude.Strings.{split, join, cons_first}

-- No character of the text is the one with the number.
unfoldable pub is_free : ℕ → String → Bool
is_free sep [] = true
is_free sep (c ∷ s) = let rest = is_free sep s in if eqb (code c) sep then false else rest

module _ (sep : ℕ) where
  tail_free : (c : Char) (s : String) → is_free sep (c ∷ s) ≡ true → is_free sep s ≡ true
  unfolding is_free
  tail_free c s h = ground arith

  head_free : (c : Char) (s : String) → is_free sep (c ∷ s) ≡ true → eqb (code c) sep ≡ false
  unfolding is_free
  head_free c s h = ground arith

  split-free : (s : String) → is_free sep s ≡ true → split sep s ≡ List.◌∷◌ s List.[]
  unfolding split
  split-free [] h = refl
  split-free (c ∷ s) h = rw (head_free c s h) (ap (cons_first c) (split-free s (tail_free c s h)))

  split-sep :
      (d : Char) (t : String)
      → eqb (code d) sep ≡ true
      → split sep (d ∷ t) ≡ List.◌∷◌ [] (split sep t)
  unfolding split
  split-sep d t e = rw e

  split-cons :
      (c : Char) (s : String)
      → eqb (code c) sep ≡ false
      → split sep (c ∷ s) ≡ cons_first c (split sep s)
  unfolding split
  split-cons c s e = rw e

  split-append :
      (s : String) (d : Char) (t : String)
      → is_free sep s ≡ true
      → eqb (code d) sep ≡ true
      → split sep (s ++ d ∷ t) ≡ List.◌∷◌ s (split sep t)
  split-append [] d t h e = ap (split sep) (append.nil (d ∷ t)) ∙ split-sep d t e
  split-append (c ∷ s) d t h e =
      ap (split sep) (append.cons c s (d ∷ t))
      ∙ split-cons c (s ++ d ∷ t) (head_free c s h)
      ∙ ap (cons_first c) (split-append s d t (tail_free c s h) e)

  pub is_free-append :
      (s t : String) → is_free sep s ≡ true → is_free sep t ≡ true → is_free sep (s ++ t) ≡ true
  unfolding is_free
  is_free-append [] t hs ht = ap (is_free sep) (append.nil t) ∙ ht
  is_free-append (c ∷ s) t hs ht =
      ap (is_free sep) (append.cons c s t)
      ∙ rw (head_free c s hs) (is_free-append s t (tail_free c s hs) ht)

  pub split-join :
      (d : Char) (s : String) (ss : List String)
      → eqb (code d) sep ≡ true
      → is_free sep s ≡ true
      → all (is_free sep) ss ≡ true
      → split sep (join (d ∷ []) (List.◌∷◌ s ss)) ≡ List.◌∷◌ s ss
  unfolding join
  split-join d s List.[] e h hs = split-free s h
  split-join d s (List.◌∷◌ t ts) e h hs =
      ap (λ x. split sep (s ++ x))
        (append.cons d [] (join (d ∷ []) (List.◌∷◌ t ts)) ∙ ap (◌∷◌ d) (append.nil _))
      ∙ split-append s d _ h e
      ∙ ap (List.◌∷◌ s) (split-join d t ts e (ground arith) (ground arith))
