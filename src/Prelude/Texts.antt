-- ===== src/Prelude/Texts.antt =====
-- The order of Go's `<` on strings, by bytes: that of the code points.
use Prim.Native.Nat.{ℕ, Ordering, compare as compare_ℕ}
use Prim.Native.Char.{code}
use Prim.Native.String.{String, [], ◌∷◌, ◌++◌, compare, then}
use mathlib.Core.List.{List}
use Prim.Native.String.compare
use mathlib.Core.Path.{◌≡◌, refl, sym, ap, ◌∙◌}
use mathlib.Core.Logic.{◌⊎◌, inl, inr}
use mathlib.Core.Bool.{Bool, true, false}
use native.Mathlib.Omega.{arith}
use text.Mathlib.Text.{is_lt}
use text.Mathlib.TextEquality.{path_by_compare}
use text.Mathlib.TextPositions.{compare_refl}

-- `s < t`.
abbrev pub text_lt : String → String → Bool
text_lt s t = is_lt (compare s t)

then_trans :
    (c d e : ℕ) (o p q : Ordering)
    → (o ≡ Ordering.lt → p ≡ Ordering.lt → q ≡ Ordering.lt)
    → then (compare_ℕ c d) o ≡ Ordering.lt
    → then (compare_ℕ d e) p ≡ Ordering.lt
    → then (compare_ℕ c e) q ≡ Ordering.lt
then_trans c d e o p q f h k = ground arith

compare_trans :
    (s t u : String)
    → compare s t ≡ Ordering.lt
    → compare t u ≡ Ordering.lt
    → compare s u ≡ Ordering.lt
compare_trans [] [] u p q = cc (compare.nil-nil)
compare_trans [] (d ∷ t) [] p q = cc (compare.cons-nil d t)
compare_trans [] (d ∷ t) (e ∷ u) p q = compare.nil-cons e u
compare_trans (c ∷ s) [] u p q = cc (compare.cons-nil c s)
compare_trans (c ∷ s) (d ∷ t) [] p q = cc (compare.cons-nil d t)
compare_trans (c ∷ s) (d ∷ t) (e ∷ u) p q =
    compare.cons-cons c e s u
    ∙ then_trans (code c) (code d) (code e) _ _ _ (compare_trans s t u)
        (sym (compare.cons-cons c d s t) ∙ p) (sym (compare.cons-cons d e t u) ∙ q)

then_swap :
    (c d : ℕ) (o o' : Ordering)
    → (o ≡ Ordering.gt → o' ≡ Ordering.lt)
    → then (compare_ℕ c d) o ≡ Ordering.gt
    → then (compare_ℕ d c) o' ≡ Ordering.lt
then_swap c d o o' f h = ground arith

compare_swap : (s t : String) → compare s t ≡ Ordering.gt → compare t s ≡ Ordering.lt
compare_swap [] [] h = cc (compare.nil-nil)
compare_swap [] (d ∷ t) h = cc (compare.nil-cons d t)
compare_swap (c ∷ s) [] h = compare.nil-cons c s
compare_swap (c ∷ s) (d ∷ t) h =
    compare.cons-cons d c t s
    ∙ then_swap (code c) (code d) _ _ (compare_swap s t) (sym (compare.cons-cons c d s t) ∙ h)

is_lt-lt : (o : Ordering) → is_lt o ≡ true → o ≡ Ordering.lt
is_lt-lt Ordering.lt h = refl
is_lt-lt Ordering.eq h = cc
is_lt-lt Ordering.gt h = cc

lt-is_lt : (o : Ordering) → o ≡ Ordering.lt → is_lt o ≡ true
lt-is_lt o h = rw h

pub text_lt_trans : (s t u : String) → text_lt s t ≡ true → text_lt t u ≡ true → text_lt s u ≡ true
text_lt_trans s t u p q = lt-is_lt _ (compare_trans s t u (is_lt-lt _ p) (is_lt-lt _ q))

pub text_lt_irrefl : (s : String) → text_lt s s ≡ false
text_lt_irrefl s = rw (compare_refl s)

-- Of two texts that are not equal one is the smaller.
pub text_lt_connected : (s t : String) → text_lt s t ≡ false → (s ≡ t) ⊎ (text_lt t s ≡ true)
text_lt_connected s t h = connected (compare s t) refl
  where
    connected : (o : Ordering) → compare s t ≡ o → (s ≡ t) ⊎ (text_lt t s ≡ true)
    connected Ordering.lt e = cc (ap is_lt e)
    connected Ordering.eq e = inl (path_by_compare s t e)
    connected Ordering.gt e = inr (lt-is_lt _ (compare_swap s t e))

-- fmt.Sprintf of texts: the pieces one after the other.
abbrev pub concat : List String → String
concat List.[] = ""
concat (List.◌∷◌ s ss) = s ++ concat ss
