-- ===== src/Configs/ParsingHelpers.antt =====
-- internal/configs/parsing_helpers.go: the parsers of annotations and fields.
pub mod Ports
use aspenmesh_k3s_multiclust.Prelude.{
  ℕ, String, Bool, true, false, ◌&&◌, ◌||◌, not, Option, none, some, List, [], ◌∷◌, ◌==◌, any, eqb,
  if◌then◌else◌,
}
use aspenmesh_k3s_multiclust.Prelude.Texts.{concat}
use aspenmesh_k3s_multiclust.Prelude.Dict.{Dict, lookup, insert}
use aspenmesh_k3s_multiclust.Prelude.Results.{Result, ok, err, parse_each}
use aspenmesh_k3s_multiclust.Prelude.Integers.{ℤ, pos, ltb_int}
use aspenmesh_k3s_multiclust.Prelude.Decimal.{parse_int, parse_uint}
use aspenmesh_k3s_multiclust.Prelude.Strings.{trim_space, has_suffix, split, split_n}
use text.Mathlib.Text.{starts_with}

-- The units that timeRegexp captures; one that does not take part is empty.
pub record TimeUnits : Type 0 where
  pub years : String
  pub months : String
  pub weeks : String
  pub days : String
  pub hours : String
  pub mins : String
  pub secs : String
  pub millis : String

-- What the regular expressions find, the errors of strconv for a text, and fmt's forms of values.
pub record ParsingLibrary : Type 0 where
  pub find_time : String → Option TimeUnits
  pub matches_offset : String → Bool
  pub matches_size : String → Bool
  pub matches_proxy_buffers : String → Bool
  pub matches_high_low : String → Bool
  pub matches_low_high : String → Bool
  pub number_error : String → String
  pub bool_error : String → String
  pub quote : String → String
  pub quote_int : ℤ → String
  pub show_list : List String → String

-- The object that the messages name.
pub record ApiObject : Type 0 where
  pub kind : String
  pub namespace : String
  pub name : String

-- strconv.ParseBool
unfoldable pub parse_bool : String → Option Bool
parse_bool s =
    if any (λ t. t == s) ("1" ∷ "t" ∷ "T" ∷ "TRUE" ∷ "true" ∷ "True" ∷ [])
    then some true
    else (if any (λ t. t == s) ("0" ∷ "f" ∷ "F" ∷ "FALSE" ∷ "false" ∷ "False" ∷ [])
        then some false
        else none)

-- The value, whether the key is there, and the error.
abbrev Found : Type 0 → Type 0
Found A = A × Bool × Option String

module _ (lib : ParsingLibrary) where
  abbrev ignoring : (what : String) → String → ApiObject → (cause : String) → String
  ignoring what key context cause = concat (
      context.kind ∷ " " ∷ context.namespace ∷ "/" ∷ context.name ∷ " '" ∷ key
      ∷ "' contains invalid " ∷ what ∷ ": " ∷ cause ∷ ", ignoring" ∷ [])

  abbrev found_as :
      {A : Type 0}
      → (zero_value : A) → (what : String) → String
      → ApiObject
      → (cause : String) → Option A
      → Found A
  found_as zero_value what key context cause none =
      (zero_value, true, some (ignoring what key context cause))
  found_as zero_value what key context cause (some a) = (a, true, none)

  unfoldable pub get_map_key_as_bool : Dict String → String → ApiObject → Found Bool
  unfolding parse_bool
  get_map_key_as_bool m key context = elim (lookup key m) [
    | none ↦ (false, false, none)
    | some str ↦ found_as false "bool" key context (lib.bool_error str) (parse_bool str)
  ]

  -- ParseInt and ParseInt64 alike: the Go type int has 64 bits.
  unfoldable pub get_map_key_as_int : Dict String → String → ApiObject → Found ℤ
  get_map_key_as_int m key context = elim (lookup key m) [
    | none ↦ (pos 0, false, none)
    | some str ↦ found_as (pos 0) "integer" key context (lib.number_error str) (parse_int 63 str)
  ]

  abbrev checked_uint : String → ApiObject → (non_zero : Bool) → Found ℕ → Found ℕ
  checked_uint key context non_zero (n, exists, some e) = (n, exists, some e)
  checked_uint key context non_zero (n, exists, none) =
      if non_zero && eqb n 0
      then (
        0,
        exists,
        some (
            concat (
              context.kind ∷ " " ∷ context.namespace ∷ "/" ∷ context.name ∷ " '" ∷ key
              ∷ "' must be greater than 0, ignoring" ∷ [])),
      )
      else (n, exists, none)

  unfoldable pub get_map_key_as_uint64 :
      Dict String → String → ApiObject → (non_zero : Bool) → Found ℕ
  get_map_key_as_uint64 m key context non_zero = elim (lookup key m) [
    | none ↦ (0, false, none)
    | some str ↦
        checked_uint key context non_zero
          (found_as 0 "uint64" key context (lib.number_error str) (parse_uint 64 str))
  ]

  -- On a delimiter of one character.
  unfoldable pub get_map_key_as_string_slice :
      Dict String → String → (delimiter : ℕ) → Option (List String) × Bool
  get_map_key_as_string_slice m key delimiter = elim (lookup key m) [
    | none ↦ (none, false)
    | some str ↦ (some (split delimiter str), true)
  ]

  abbrev invalid_method : String → Result String
  invalid_method method = err (concat ("Invalid load balancing method: " ∷ lib.quote method ∷ []))

  -- The words of the method: `hash`, a key, and perhaps `consistent`.
  abbrev pub are_hash_words : List String → Bool
  are_hash_words (a ∷ b ∷ []) = a == "hash"
  are_hash_words (a ∷ b ∷ c ∷ []) = a == "hash" && c == "consistent"
  are_hash_words [] = false
  are_hash_words (a ∷ []) = false
  are_hash_words (a ∷ b ∷ c ∷ d ∷ words) = false

  unfoldable pub validate_hash_lb_method : String → Result String
  validate_hash_lb_method method =
      if are_hash_words (split b' ' method) then ok method else invalid_method method

  abbrev nginx_lb_valid_input : List String
  nginx_lb_valid_input =
      "least_conn" ∷ "ip_hash" ∷ "random" ∷ "random two" ∷ "random two least_conn" ∷ []

  abbrev nginx_plus_lb_valid_input : List String
  nginx_plus_lb_valid_input =
      "least_conn" ∷ "ip_hash" ∷ "random" ∷ "random two" ∷ "random two least_conn"
      ∷ "random two least_time=header" ∷ "random two least_time=last_byte" ∷ "least_time header"
      ∷ "least_time last_byte" ∷ "least_time header inflight" ∷ "least_time last_byte inflight" ∷ []

  -- The body of ParseLBMethod and of ParseLBMethodForPlus, on the trimmed method.
  unfoldable pub match_lb_method : List String → String → Result String
  unfolding validate_hash_lb_method
  match_lb_method valid_input method =
      if method == "round_robin"
      then ok ""
      else (if starts_with method "hash"
          then validate_hash_lb_method method
          else (if any (λ m. m == method) valid_input then ok method else invalid_method method))

  unfoldable pub parse_lb_method : String → Result String
  unfolding match_lb_method
  parse_lb_method method = match_lb_method nginx_lb_valid_input (trim_space method)

  unfoldable pub parse_lb_method_for_plus : String → Result String
  unfolding match_lb_method
  parse_lb_method_for_plus method = match_lb_method nginx_plus_lb_valid_input (trim_space method)

  abbrev with_unit : String → String
  with_unit secs =
      if not (secs == "") && not (has_suffix secs "s") then concat (secs ∷ "s" ∷ []) else secs

  abbrev show_time : TimeUnits → String
  show_time u =
      concat (
        u.years ∷ u.months ∷ u.weeks ∷ u.days ∷ u.hours ∷ u.mins ∷ with_unit u.secs ∷ u.millis ∷ [])

  unfoldable pub parse_time : String → Result String
  parse_time s =
      if s == "" || trim_space s == "" then err "invalid time string" else elim (lib.find_time s) [
        | none ↦ err "invalid time string"
        | some units ↦ ok (show_time units)
      ]

  unfoldable pub parse_offset : String → Result String
  parse_offset s =
      if lib.matches_offset (trim_space s) then ok (trim_space s) else err "Invalid offset string"

  unfoldable pub parse_size : String → Result String
  parse_size s =
      if lib.matches_size (trim_space s) then ok (trim_space s) else err "Invalid size string"

  unfoldable pub parse_proxy_buffers_spec : String → Result String
  parse_proxy_buffers_spec s =
      if lib.matches_proxy_buffers (trim_space s)
      then ok (trim_space s)
      else err "Invalid proxy buffers string"

  abbrev pub checked_port : (value : String) → Option ℤ → Result ℤ
  checked_port value none =
      err (concat ("Unable to parse port as integer: " ∷ lib.number_error value ∷ []))
  checked_port value (some port) =
      if ltb_int (pos 0) port
      then ok port
      else err (concat ("Port number should be greater than zero: " ∷ lib.quote_int port ∷ []))

  -- strconv.ParseInt with a size of 16 bits
  unfoldable pub parse_port : String → Result ℤ
  parse_port value = checked_port value (parse_int 15 value)

  unfoldable pub parse_port_list : String → Result (List ℤ)
  unfolding parse_port
  parse_port_list s = parse_each parse_port (split b',' s)

  -- A set, as a map to true.
  abbrev services_of : List String → Dict Bool → Dict Bool
  services_of [] services = services
  services_of (part ∷ parts) services = services_of parts (insert part true services)

  unfoldable pub parse_service_list : String → Dict Bool
  parse_service_list s = services_of (split b',' s) []

  abbrev invalid_rewrite : String → Result (String × String)
  invalid_rewrite text = err (concat ("Invalid rewrite format: " ∷ text ∷ []))

  abbrev invalid_sticky : String → Result (String × String)
  invalid_sticky text = err (concat ("Invalid sticky-cookie service format: " ∷ text ∷ []))

  abbrev sticky_of : (service : String) → (parts : List String) → Result (String × String)
  sticky_of service (name ∷ cookie ∷ []) = elim (split b'=' name) [
    | key ∷ value ∷ [] ↦ ok (value, cookie)
    | words ↦ invalid_sticky (lib.show_list words)
  ]
  sticky_of service [] = invalid_sticky service
  sticky_of service (a ∷ []) = invalid_sticky service
  sticky_of service (a ∷ b ∷ c ∷ parts) = invalid_sticky service

  unfoldable pub parse_sticky_service : String → Result (String × String)
  parse_sticky_service service = sticky_of service (split_n b' ' service 1)

  abbrev rewrite_path : (service_name : String) → (parts : List String) → Result (String × String)
  rewrite_path service_name (key ∷ path ∷ []) = ok (service_name, path)
  rewrite_path service_name [] = invalid_rewrite (lib.show_list [])
  rewrite_path service_name (a ∷ []) = invalid_rewrite (lib.show_list (a ∷ []))
  rewrite_path service_name (a ∷ b ∷ c ∷ parts) =
      invalid_rewrite (lib.show_list (a ∷ b ∷ c ∷ parts))

  abbrev rewrite_of : (service : String) → (parts : List String) → Result (String × String)
  rewrite_of service (name ∷ rewrite ∷ []) = elim (split b'=' name) [
    | key ∷ value ∷ [] ↦ rewrite_path value (split b'=' rewrite)
    | words ↦ invalid_rewrite (lib.show_list words)
  ]
  rewrite_of service [] = invalid_rewrite service
  rewrite_of service (a ∷ []) = invalid_rewrite service
  rewrite_of service (a ∷ b ∷ c ∷ parts) = invalid_rewrite service

  unfoldable pub parse_rewrites : String → Result (String × String)
  parse_rewrites service = rewrite_of service (split_n b' ' (trim_space service) 1)

  -- The map of the pairs, a later one in place of an earlier one with its key.
  abbrev dict_of : List (String × String) → Dict String → Dict String
  dict_of [] m = m
  dict_of ((key, value) ∷ pairs) m = dict_of pairs (insert key value m)

  abbrev dict_result : Result (List (String × String)) → Result (Dict String)
  dict_result (ok pairs) = ok (dict_of pairs [])
  dict_result (err e) = err e

  unfoldable pub parse_rewrite_list : String → Result (Dict String)
  unfolding parse_rewrites
  parse_rewrite_list s = dict_result (parse_each parse_rewrites (split b';' s))

  unfoldable pub parse_sticky_service_list : String → Result (Dict String)
  unfolding parse_sticky_service
  parse_sticky_service_list s = dict_result (parse_each parse_sticky_service (split b';' s))

  unfoldable pub verify_app_protect_thresholds : String → Bool
  verify_app_protect_thresholds value = lib.matches_high_low value || lib.matches_low_high value
