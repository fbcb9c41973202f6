-- ===== src/Prelude/Decimal.antt =====
-- Numbers in base 10, as strconv reads them and fmt prints them.
use Prim.Native.Nat.{ℕ, zero, suc, ◌+◌, ◌-◌, ◌*◌, ◌/◌, ◌%◌, ◌^◌, ◌≤◌, ◌<◌}
use Prim.Native.Char.{Char, code}
use Prim.Native.String.{String, [], ◌∷◌, ◌++◌}
use mathlib.Core.Path.{◌≡◌, refl, sym, ap, ◌∙◌}
use mathlib.Core.Bool.{Bool, true, false, ◌&&◌}
use mathlib.Core.Logic.{◌⊎◌, inl, inr}
use mathlib.Core.Option.{Option, none, some}
use native.Mathlib.Omega.{arith}
use native.Mathlib.Nat.{two-pow-succ}
use aspenmesh_k3s_multiclust.Prelude.Tests.{ltb, leb, eqb, if◌then◌else◌, Bool-cases}
use aspenmesh_k3s_multiclust.Prelude.Integers.{ℤ, pos, negsuc}
use aspenmesh_k3s_multiclust.Prelude.Strings.Split.{is_free}

-- The value of a digit.
abbrev pub digit_value : Char → Option ℕ
digit_value c = if leb 48 (code c) && leb (code c) 57 then some (code c - 48) else none

unfoldable pub parse_digits : (value : ℕ) → String → Option ℕ
parse_digits value [] = some value
parse_digits value (c ∷ s) = elim (digit_value c) [
  | none ↦ none
  | some d ↦ parse_digits (10 * value + d) s
]

-- At least one digit, and nothing else.
unfoldable pub parse_natural : String → Option ℕ
unfolding parse_digits
parse_natural [] = none
parse_natural (c ∷ s) = parse_digits 0 (c ∷ s)

abbrev negated : ℕ → ℤ
negated zero = pos 0
negated (suc n) = negsuc n

-- Within the range of a signed integer of `suc bits` bits.
abbrev in_range : (bits : ℕ) → (negative : Bool) → Option ℕ → Option ℤ
in_range bits negative none = none
in_range bits true (some n) = if leb n (2 ^ bits) then some (negated n) else none
in_range bits false (some n) = if ltb n (2 ^ bits) then some (pos n) else none

-- strconv.ParseInt in base 10 for `suc bits` bits; `none` is an error of the syntax or the range.
unfoldable pub parse_int : (bits : ℕ) → String → Option ℤ
unfolding parse_natural
parse_int bits [] = none
parse_int bits (c ∷ s) =
    let unsigned = in_range bits false (parse_natural (c ∷ s)) in
    let minus = in_range bits true (parse_natural s) in
    let plus = in_range bits false (parse_natural s) in
    if eqb (code c) b'-' then minus else (if eqb (code c) b'+' then plus else unsigned)

-- The int64 that is nearest to a number out of its range.
abbrev limit : (negative : Bool) → ℤ
limit true = negsuc (2 ^ 63 - 1)
limit false = pos (2 ^ 63 - 1)

-- The value next to an error: the nearest int64 when the digits exceed the range before a character
-- that is no digit, and 0 otherwise.
unfoldable pub value_of_error : (negative : Bool) → (value : ℕ) → String → ℤ
value_of_error negative value [] = limit negative
value_of_error negative value (c ∷ s) = elim (digit_value c) [
  | none ↦ pos 0
  | some d ↦
      let rest = value_of_error negative (10 * value + d) s in
      if ltb (10 * value + d) (2 ^ 64) then rest else limit negative
]

abbrev error_value : (negative : Bool) → String → ℤ
error_value negative [] = pos 0
error_value negative (c ∷ s) = value_of_error negative 0 (c ∷ s)

abbrev signed_error_value : String → ℤ
signed_error_value [] = pos 0
signed_error_value (c ∷ s) =
    if eqb (code c) b'-'
    then error_value true s
    else (if eqb (code c) b'+' then error_value false s else error_value false (c ∷ s))

-- strconv.Atoi for an int of 64 bits, its error ignored.
unfoldable pub atoi : String → ℤ
unfolding parse_int value_of_error
atoi s = elim (parse_int 63 s) [ some n ↦ n | none ↦ signed_error_value s ]

-- strconv.ParseUint in base 10 for `bits` bits.
unfoldable pub parse_uint : (bits : ℕ) → String → Option ℕ
unfolding parse_natural
parse_uint bits s = elim (parse_natural s) [
  | none ↦ none
  | some n ↦ if ltb n (2 ^ bits) then some n else none
]

abbrev digit : ℕ → Char
digit zero = "0"
digit (suc zero) = "1"
digit (suc (suc zero)) = "2"
digit (suc (suc (suc zero))) = "3"
digit (suc (suc (suc (suc zero)))) = "4"
digit (suc (suc (suc (suc (suc zero))))) = "5"
digit (suc (suc (suc (suc (suc (suc zero)))))) = "6"
digit (suc (suc (suc (suc (suc (suc (suc zero))))))) = "7"
digit (suc (suc (suc (suc (suc (suc (suc (suc zero)))))))) = "8"
digit (suc (suc (suc (suc (suc (suc (suc (suc (suc n))))))))) = "9"

-- The digits of the number before those of `tail`, with fuel.
unfoldable pub show_before : (fuel : ℕ) → ℕ → String → String
show_before zero n tail = tail
show_before (suc k) n tail =
    let rest = show_before k (n / 10) (digit (n % 10) ∷ tail) in
    if ltb n 10 then digit n ∷ tail else rest

unfoldable pub show_natural : ℕ → String
unfolding show_before
show_natural n = show_before (suc n) n ""

-- fmt's %d
unfoldable pub show_int : ℤ → String
unfolding show_natural
show_int (pos n) = show_natural n
show_int (negsuc n) = "-" ++ show_natural (suc n)

digit_value-digit : (d : ℕ) → d < 10 → digit_value (digit d) ≡ some d
digit_value-digit zero h = refl
digit_value-digit (suc zero) h = refl
digit_value-digit (suc (suc zero)) h = refl
digit_value-digit (suc (suc (suc zero))) h = refl
digit_value-digit (suc (suc (suc (suc zero)))) h = refl
digit_value-digit (suc (suc (suc (suc (suc zero))))) h = refl
digit_value-digit (suc (suc (suc (suc (suc (suc zero)))))) h = refl
digit_value-digit (suc (suc (suc (suc (suc (suc (suc zero))))))) h = refl
digit_value-digit (suc (suc (suc (suc (suc (suc (suc (suc zero)))))))) h = refl
digit_value-digit (suc (suc (suc (suc (suc (suc (suc (suc (suc zero))))))))) h = refl
digit_value-digit (suc (suc (suc (suc (suc (suc (suc (suc (suc (suc n)))))))))) h =
    absurd (omega arith)

parse_digits-digit :
    (value d : ℕ) (s : String)
    → d < 10
    → parse_digits value (digit d ∷ s) ≡ parse_digits (10 * value + d) s
unfolding parse_digits
parse_digits-digit value d s h =
    ap (λ (o : Option ℕ). elim o [ none ↦ none | some e ↦ parse_digits (10 * value + e) s ])
      (digit_value-digit d h)

-- The digits that are printed are read again.
pub parse_digits-show_before :
    (k n : ℕ) (s : String) → n < k → parse_digits 0 (show_before k n s) ≡ parse_digits n s
unfolding show_before
parse_digits-show_before zero n s h = absurd (omega arith)
parse_digits-show_before (suc k) n s h = elim (Bool-cases (ltb n 10)) [
  | inl e ↦
      rw e (parse_digits-digit 0 n s (ground arith) ∙ ap (λ m. parse_digits m s) (omega arith))
  | inr e ↦ rw e (
      parse_digits-show_before k (n / 10) (digit (n % 10) ∷ s) (ground arith)
      ∙ parse_digits-digit (n / 10) (n % 10) s (omega arith)
      ∙ ap (λ m. parse_digits m s) (omega arith))
]

-- A printed number is a digit and more.
show_before-digit :
    (k n : ℕ) (s : String)
    → n < k
    → (c : Char) × (t : String) × (d : ℕ) × (show_before k n s ≡ c ∷ t) × (digit_value c ≡ some d)
unfolding show_before
show_before-digit zero n s h = absurd (omega arith)
show_before-digit (suc k) n s h = elim (Bool-cases (ltb n 10)) [
  | inl e ↦ (digit n, s, n, rw e, digit_value-digit n (ground arith))
  | inr e ↦
      let (c, t, d, same, digits) =
        show_before-digit k (n / 10) (digit (n % 10) ∷ s) (ground arith) in
      (c, t, d, rw e same, digits)
]

parse_natural-cons : (c : Char) (s : String) → parse_natural (c ∷ s) ≡ parse_digits 0 (c ∷ s)
unfolding parse_natural
parse_natural-cons c s = refl

parse_digits-nil : (n : ℕ) → parse_digits n "" ≡ some n
unfolding parse_digits
parse_digits-nil n = refl

pub parse_natural-show_natural : (n : ℕ) → parse_natural (show_natural n) ≡ some n
unfolding show_natural
parse_natural-show_natural n =
    let (c, t, d, same, digits) = show_before-digit (suc n) n "" (omega arith) in
    ap parse_natural same
    ∙ parse_natural-cons c t
    ∙ ap (parse_digits 0) (sym same)
    ∙ parse_digits-show_before (suc n) n "" (omega arith)
    ∙ parse_digits-nil n

lt-ltb : (m n : ℕ) → m < n → ltb m n ≡ true
lt-ltb m n h = ground arith

le-ltb : (m n : ℕ) → n ≤ m → ltb m n ≡ false
le-ltb m n h = ground arith

not_sign :
    (c : Char) (d : ℕ)
    → digit_value c ≡ some d
    → (eqb (code c) b'-' ≡ false) × (eqb (code c) b'+' ≡ false)
not_sign c d h = (ground arith, ground arith)

parse_int-unsigned :
    (bits : ℕ) (c : Char) (s : String) (d n : ℕ)
    → digit_value c ≡ some d
    → parse_natural (c ∷ s) ≡ some n
    → n < 2 ^ bits
    → parse_int bits (c ∷ s) ≡ some (pos n)
unfolding parse_int
parse_int-unsigned bits c s d n digits read h =
    let (minus, plus) = not_sign c d digits in
    rw (minus, plus, read) (ap (λ b. if b then some (pos n) else none) (lt-ltb n (2 ^ bits) h))

-- A number within the range is read as it is printed.
pub parse_int-show_natural :
    (bits n : ℕ) → n < 2 ^ bits → parse_int bits (show_natural n) ≡ some (pos n)
unfolding show_natural
parse_int-show_natural bits n h =
    let (c, t, d, same, digits) = show_before-digit (suc n) n "" (omega arith) in
    let read : parse_natural (c ∷ t) ≡ some n =
      (ap parse_natural (sym same) ∙ parse_natural-show_natural n) in
    ap (parse_int bits) same ∙ parse_int-unsigned bits c t d n digits read h

pub atoi-show_natural : (n : ℕ) → n < 2 ^ 63 → atoi (show_natural n) ≡ pos n
unfolding atoi
atoi-show_natural n h =
    ap (λ (o : Option ℤ). elim o [ some m ↦ m | none ↦ signed_error_value (show_natural n) ])
      (parse_int-show_natural 63 n h)

pow-positive : (bits : ℕ) → 0 < 2 ^ bits
pow-positive zero = ground arith
pow-positive (suc bits) =
    let rest = pow-positive bits in let twice = two-pow-succ bits in omega arith

in_range-pos :
    (bits : ℕ) (negative : Bool) (o : Option ℕ) (n : ℕ)
    → in_range bits negative o ≡ some (pos n)
    → n < 2 ^ bits
in_range-pos bits negative none n h = cc
in_range-pos bits false (some m) n h = ground arith
in_range-pos bits true (some zero) n h = let some_power = pow-positive bits in ground arith
in_range-pos bits true (some (suc m)) n h = ground arith

-- A number that is read is within the range.
pub parse_int-pos : (bits n : ℕ) (s : String) → parse_int bits s ≡ some (pos n) → n < 2 ^ bits
unfolding parse_int
parse_int-pos bits n [] h = cc
parse_int-pos bits n (c ∷ s) h = elim (Bool-cases (eqb (code c) b'-')) [
  | inl e ↦ in_range-pos bits true _ n (rw e at h)
  | inr e ↦ elim (Bool-cases (eqb (code c) b'+')) [
    | inl p ↦ in_range-pos bits false _ n (rw (e, p) at h)
    | inr p ↦ in_range-pos bits false _ n (rw (e, p) at h)
  ]
]

-- A number that is out of the range is not read.
pub parse_int-too_large : (bits n : ℕ) → 2 ^ bits ≤ n → parse_int bits (show_natural n) ≡ none
unfolding show_natural parse_int
parse_int-too_large bits n h =
    let (c, t, d, same, digits) = show_before-digit (suc n) n "" (omega arith) in
    let (minus, plus) = not_sign c d digits in
    let read : parse_natural (c ∷ t) ≡ some n =
      (ap parse_natural (sym same) ∙ parse_natural-show_natural n) in
    ap (parse_int bits) same
    ∙ rw (minus, plus, read) (ap (λ b. if b then some (pos n) else none) (le-ltb n (2 ^ bits) h))

-- The number of a character that is no digit.
abbrev pub IsNoDigit : ℕ → Type 0
IsNoDigit sep = (sep < 48) ⊎ (57 < sep)

digit_is_free :
    (c : Char) (d sep : ℕ) → digit_value c ≡ some d → IsNoDigit sep → eqb (code c) sep ≡ false
digit_is_free c d sep h (inl small) = ground arith
digit_is_free c d sep h (inr large) = ground arith

is_free-nil : (sep : ℕ) → is_free sep "" ≡ true
unfolding is_free
is_free-nil sep = refl

is_free-cons :
    (sep : ℕ) (c : Char) (s : String)
    → eqb (code c) sep ≡ false
    → is_free sep s ≡ true
    → is_free sep (c ∷ s) ≡ true
unfolding is_free
is_free-cons sep c s e h = ground arith

show_before-free :
    (sep k n : ℕ) (s : String)
    → IsNoDigit sep
    → n < k
    → is_free sep s ≡ true
    → is_free sep (show_before k n s) ≡ true
unfolding show_before
show_before-free sep zero n s small h free = absurd (omega arith)
show_before-free sep (suc k) n s small h free = elim (Bool-cases (ltb n 10)) [
  | inl e ↦ rw e (is_free-digit n s (ground arith) free)
  | inr e ↦ rw e (
      show_before-free sep k (n / 10) (digit (n % 10) ∷ s) small (ground arith)
        (is_free-digit (n % 10) s (omega arith) free))
]
  where
    is_free-digit :
        (d : ℕ) (t : String) → d < 10 → is_free sep t ≡ true → is_free sep (digit d ∷ t) ≡ true
    is_free-digit d t small_digit f =
        is_free-cons sep (digit d) t
          (digit_is_free (digit d) d sep (digit_value-digit d small_digit) small) f

-- No printed number holds a character before the digits.
pub show_natural-free : (sep n : ℕ) → IsNoDigit sep → is_free sep (show_natural n) ≡ true
unfolding show_natural
show_natural-free sep n small =
    show_before-free sep (suc n) n "" small (omega arith) (is_free-nil sep)
