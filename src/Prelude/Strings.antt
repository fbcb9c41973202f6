-- ===== src/Prelude/Strings.antt =====
-- The functions of Go's package strings that the program uses.
pub mod Split
use Prim.Native.Nat.{ℕ, zero, suc}
use Prim.Native.Char.{Char, code}
use Prim.Native.String.{String, [], ◌∷◌, ◌++◌}
use mathlib.Core.Bool.{Bool, true, false, ◌||◌, ◌&&◌, not}
use mathlib.Core.List.{List}
use text.Mathlib.Text.{◌==◌, starts_with}
use aspenmesh_k3s_multiclust.Prelude.Tests.{leb, eqb, if◌then◌else◌}

-- unicode.IsSpace
abbrev is_space : Char → Bool
is_space c =
    leb 9 (code c) && leb (code c) 13
    || eqb (code c) 32
    || eqb (code c) 133
    || eqb (code c) 160
    || eqb (code c) 5760
    || leb 8192 (code c) && leb (code c) 8202
    || eqb (code c) 8232
    || eqb (code c) 8233
    || eqb (code c) 8239
    || eqb (code c) 8287
    || eqb (code c) 12288

unfoldable pub trim_left : String → String
trim_left [] = []
trim_left (c ∷ s) = let rest = trim_left s in if is_space c then rest else c ∷ s

unfoldable pub trim_right : String → String
trim_right [] = []
trim_right (c ∷ s) = let rest = trim_right s in if is_space c && rest == "" then [] else c ∷ rest

-- strings.TrimSpace
unfoldable pub trim_space : String → String
unfolding trim_left trim_right
trim_space s = trim_right (trim_left s)

-- strings.HasSuffix
unfoldable pub has_suffix : String → String → Bool
has_suffix [] t = t == ""
has_suffix (c ∷ s) t = let rest = has_suffix s t in if c ∷ s == t then true else rest

-- strings.Contains
unfoldable pub contains : String → String → Bool
contains [] t = t == ""
contains (c ∷ s) t = let rest = contains s t in if starts_with (c ∷ s) t then true else rest

abbrev pub cons_first : Char → List String → List String
cons_first c List.[] = List.◌∷◌ (c ∷ []) List.[]
cons_first c (List.◌∷◌ t ts) = List.◌∷◌ (c ∷ t) ts

-- strings.Split at one character, given by its number.
unfoldable pub split : ℕ → String → List String
split sep [] = List.◌∷◌ [] List.[]
split sep (c ∷ s) =
    let rest = split sep s in if eqb (code c) sep then List.◌∷◌ [] rest else cons_first c rest

-- strings.SplitN with `suc n` pieces at most.
unfoldable pub split_n : ℕ → String → (n : ℕ) → List String
split_n sep [] n = List.◌∷◌ [] List.[]
split_n sep (c ∷ s) zero = List.◌∷◌ (c ∷ s) List.[]
split_n sep (c ∷ s) (suc n) =
    let here = split_n sep s n in
    let rest = split_n sep s (suc n) in
    if eqb (code c) sep then List.◌∷◌ [] here else cons_first c rest

-- strings.Join
unfoldable pub join : (sep : String) → List String → String
join sep List.[] = ""
join sep (List.◌∷◌ s List.[]) = s
join sep (List.◌∷◌ s (List.◌∷◌ t ts)) = s ++ sep ++ join sep (List.◌∷◌ t ts)

-- strings.TrimPrefix with one character.
abbrev pub trim_prefix : ℕ → String → String
trim_prefix prefix [] = []
trim_prefix prefix (c ∷ s) = if eqb (code c) prefix then s else c ∷ s

-- strings.Replace of one character by another, at every place.
unfoldable pub replace_each : (old : ℕ) → (new : Char) → String → String
replace_each old new [] = []
replace_each old new (c ∷ s) =
    let rest = replace_each old new s in if eqb (code c) old then new ∷ rest else c ∷ rest

-- strings.Fields: the pieces between spaces, none of them empty.
abbrev drop_empty : List String → List String
drop_empty List.[] = List.[]
drop_empty (List.◌∷◌ s ss) = let rest = drop_empty ss in if s == "" then rest else List.◌∷◌ s rest

split_spaces : String → List String
split_spaces [] = List.◌∷◌ [] List.[]
split_spaces (c ∷ s) =
    let rest = split_spaces s in if is_space c then List.◌∷◌ [] rest else cons_first c rest

unfoldable pub fields : String → List String
unfolding split_spaces
fields s = drop_empty (split_spaces s)
