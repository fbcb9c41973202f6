-- ===== src/Apis/Validation/Upstreams.antt =====
-- virtualserver.go: the checks of upstreams and what belongs to them.
use aspenmesh_k3s_multiclust.Prelude.{
  ℕ, suc, String, Bool, true, false, not, ◌&&◌, ◌||◌, Option, none, some, List, [], ◌∷◌, ◌++◌, ◌==◌,
  eqb, if◌then◌else◌, is_some,
}
use aspenmesh_k3s_multiclust.Prelude.Texts.{concat}
use aspenmesh_k3s_multiclust.Prelude.Dict.{Dict}
use aspenmesh_k3s_multiclust.Prelude.Results.{Result, ok, err}
use aspenmesh_k3s_multiclust.Prelude.Integers.{ℤ, pos, ltb_int}
use aspenmesh_k3s_multiclust.Prelude.Decimal.{parse_int, show_int}
use aspenmesh_k3s_multiclust.Prelude.Strings.{split, contains, fields, trim_prefix}
use text.Mathlib.Text.{starts_with}
use aspenmesh_k3s_multiclust.K8s.FieldErrors.{
  FieldPath, child, index, FieldError, required, duplicate, invalid, invalid_number, forbidden,
}
use aspenmesh_k3s_multiclust.Configs.ParsingHelpers.{parse_lb_method, parse_lb_method_for_plus}
use aspenmesh_k3s_multiclust.Apis.Types.{
  Upstream, UpstreamBuffers, UpstreamQueue, HealthCheck, Header, SessionCookie,
}
use aspenmesh_k3s_multiclust.Apis.Validation.{
  ValidationLibrary, invalid_each, invalid_number_each, if_given, each_at, error_of, has,
}
use aspenmesh_k3s_multiclust.Apis.Validation.Names.{
  validate_positive_int_or_zero, validate_positive_int_or_zero_from_pointer, validate_upstream_name,
  validate_service_name, validate_time, validate_offset, validate_size, validate_path,
}
use aspenmesh_k3s_multiclust.Apis.Validation.Variables.{is_cookie_name}

abbrev valid_next_upstream_params : List String
valid_next_upstream_params =
    "error" ∷ "timeout" ∷ "invalid_header" ∷ "http_500" ∷ "http_502" ∷ "http_503" ∷ "http_504"
    ∷ "http_403" ∷ "http_404" ∷ "http_429" ∷ "non_idempotent" ∷ "off" ∷ "" ∷ []

abbrev next_upstream_from : FieldPath → (seen : List String) → List String → List FieldError
next_upstream_from path seen [] = []
next_upstream_from path seen (para ∷ params) =
    let again = next_upstream_from path seen params in
    let first = next_upstream_from path (para ∷ seen) params in
    (if has valid_next_upstream_params para
      then []
      else invalid path para "not a valid parameter" ∷ [])
    ++ (if has seen para
        then invalid path para "can not have duplicate parameters" ∷ again
        else first)

unfoldable pub validate_next_upstream : String → FieldPath → List FieldError
validate_next_upstream next_upstream path =
    if next_upstream == "" then [] else next_upstream_from path [] (fields next_upstream)

abbrev validate_int_from_string : String → Result ℤ
validate_int_from_string number = elim (parse_int 63 number) [
  | none ↦ err (concat (number ∷ " must be a valid integer" ∷ []))
  | some n ↦ ok n
]

unfoldable pub reject_plus_resources_in_oss : Upstream → FieldPath → Bool → List FieldError
reject_plus_resources_in_oss u path true = []
reject_plus_resources_in_oss u path false =
    (if is_some u.health_check
      then forbidden (child path "healthCheck")
          "active health checks are only supported in NGINX Plus"
        ∷ []
      else [])
    ++ (if u.slow_start == ""
        then []
        else forbidden (child path "slow-start") "slow start is only supported in NGINX Plus" ∷ [])
    ++ (if is_some u.session_cookie
        then forbidden (child path "sessionCookie")
            "sticky cookies are only supported in NGINX Plus"
          ∷ []
        else [])
    ++ (if is_some u.queue
        then forbidden (child path "queue") "queue is only supported in NGINX Plus" ∷ []
        else [])

module _ (lib : ValidationLibrary) where
  unfoldable pub validate_buffer : Option UpstreamBuffers → FieldPath → List FieldError
  unfolding validate_size
  validate_buffer buff path =
      if_given
        (λ b.
          (if ltb_int (pos 0) b.number
            then []
            else invalid_number (child path "number") b.number "must be positive" ∷ [])
          ++ (if b.size == ""
              then required (child path "size") "cannot be empty" ∷ []
              else validate_size lib b.size (child path "size")))
        buff

  unfoldable pub validate_upstream_lb_method : String → FieldPath → Bool → List FieldError
  unfolding parse_lb_method parse_lb_method_for_plus
  validate_upstream_lb_method method path is_plus =
      if method == ""
      then []
      else error_of (invalid path method) (
          if is_plus
          then parse_lb_method_for_plus lib.parsing method
          else parse_lb_method lib.parsing method)

  -- The message, or none.
  unfoldable pub validate_status_code : String → Option String
  validate_status_code status = elim (validate_int_from_string status) [
    | err e ↦ some e
    | ok code ↦
        if ltb_int code (pos 100) || ltb_int (pos 999) code
        then some (lib.inclusive_range_error (pos 100) (pos 999))
        else none
  ]

  abbrev first_message : Option String → Option String → Option String
  first_message (some msg) later = some msg
  first_message none later = later

  abbrev limits_message : ℤ → ℤ → Option String
  limits_message min max =
      if ltb_int min max
      then none
      else some (concat ("range limits must be " ∷ show_int min ∷ " < " ∷ show_int max ∷ []))

  abbrev range_message : String → String → Option String
  range_message low high = elim (validate_int_from_string low) [
    | err e ↦ some e
    | ok min ↦ elim (validate_int_from_string high) [
      | err e ↦ some e
      | ok max ↦
          first_message (validate_status_code low)
            (first_message (validate_status_code high) (limits_message min max))
    ]
  ]

  abbrev range_of : List String → Option String
  range_of (low ∷ high ∷ []) = range_message low high
  range_of [] = some "ranges must only have 2 numbers"
  range_of (a ∷ []) = some "ranges must only have 2 numbers"
  range_of (a ∷ b ∷ c ∷ parts) = some "ranges must only have 2 numbers"

  unfoldable pub validate_status_code_range : String → Option String
  unfolding validate_status_code
  validate_status_code_range range = range_of (split b'-' range)

  abbrev message_errors : FieldPath → String → Option String → List FieldError
  message_errors path s none = []
  message_errors path s (some msg) = invalid path s msg ∷ []

  -- The loop over the statuses, from the index on.
  unfoldable pub validate_statuses : String → FieldPath → ℕ → List String → List FieldError
  unfolding validate_status_code validate_status_code_range
  validate_statuses s path i [] = []
  validate_statuses s path i (value ∷ statuses) =
      (if value == "!"
        then (if eqb i 0
            then []
            else invalid path s "`!` can only appear once at the beginning" ∷ [])
        else message_errors path s (
            if contains value "-"
            then validate_status_code_range value
            else validate_status_code value))
      ++ validate_statuses s path (suc i) statuses

  unfoldable pub validate_status_match : String → FieldPath → List FieldError
  unfolding validate_statuses
  validate_status_match s path =
      if s == ""
      then []
      else (if starts_with s "!" && not (starts_with s "! ")
          then invalid path s "must have an space character after the `!`" ∷ []
          else [])
        ++ validate_statuses s path 0 (split b' ' s)

  abbrev header_value_errors : Header → FieldPath → List FieldError
  header_value_errors h path =
      if lib.matches_header_value h.value
      then []
      else invalid (child path "value") h.value (
          lib.regex_error
            "a valid header must have all '\"' escaped and must not contain any '$' or end with an unescaped '\\'"
            "([^\"$\\\\]|\\\\[^$])*" ("my.service" ∷ "foo" ∷ []))
        ∷ []

  -- The checks of a name that headers share.
  abbrev pub header_name_errors : Header → FieldPath → List FieldError
  header_name_errors h path =
      (if h.name == "" then required (child path "name") "" ∷ [] else [])
      ++ invalid_each (child path "name") h.name (lib.is_http_header_name h.name)

  unfoldable pub validate_header : Header → FieldPath → List FieldError
  validate_header h path = header_name_errors h path ++ header_value_errors h path

  unfoldable pub validate_upstream_health_check : Option HealthCheck → FieldPath → List FieldError
  unfolding validate_path validate_time validate_positive_int_or_zero validate_status_match
      validate_header
  validate_upstream_health_check hc path =
      if_given
        (λ h.
          (if h.path == "" then [] else validate_path lib h.path (child path "path"))
          ++ validate_time lib h.interval (child path "interval")
          ++ validate_time lib h.jitter (child path "jitter")
          ++ validate_positive_int_or_zero h.fails (child path "fails")
          ++ validate_positive_int_or_zero h.passes (child path "passes")
          ++ validate_time lib h.connect_timeout (child path "connect-timeout")
          ++ validate_time lib h.read_timeout (child path "read-timeout")
          ++ validate_time lib h.send_timeout (child path "send-timeout")
          ++ validate_status_match h.status_match (child path "statusMatch")
          ++ each_at validate_header (child path "headers") 0 h.headers
          ++ (if ltb_int (pos 0) h.port
              then invalid_number_each (child path "port") h.port (lib.is_valid_port_num h.port)
              else []))
        hc

  unfoldable pub validate_session_cookie : Option SessionCookie → FieldPath → List FieldError
  unfolding validate_path validate_time is_cookie_name
  validate_session_cookie sc path =
      if_given
        (λ c.
          (if c.name == ""
            then required (child path "name") "" ∷ []
            else invalid_each (child path "name") c.name (is_cookie_name lib c.name))
          ++ (if c.path == "" then [] else validate_path lib c.path (child path "path"))
          ++ (if c.expires == "max" then [] else validate_time lib c.expires (child path "expires"))
          ++ (if c.domain == ""
              then []
              else invalid_each (child path "domain") c.domain
                  (lib.is_dns1123_subdomain (trim_prefix b'.' c.domain))))
        sc

  unfoldable pub validate_queue : Option UpstreamQueue → FieldPath → List FieldError
  unfolding validate_time
  validate_queue queue path =
      if_given
        (λ q.
          validate_time lib q.timeout (child path "timeout")
          ++ (if ltb_int (pos 0) q.size
              then []
              else required (child path "size") "must be positive" ∷ []))
        queue

  unfoldable pub validate_labels : Dict String → FieldPath → List FieldError
  validate_labels [] path = []
  validate_labels ((name, value) ∷ labels) path =
      invalid_each path name (lib.is_qualified_name name)
      ++ invalid_each path value (lib.is_valid_label_value value)
      ++ validate_labels labels path

  -- The checks of an upstream that follow the check of its name.
  unfoldable pub upstream_errors : (is_plus : Bool) → Upstream → FieldPath → List FieldError
  unfolding validate_labels validate_service_name validate_time validate_next_upstream
      validate_positive_int_or_zero_from_pointer validate_upstream_lb_method validate_offset
      validate_upstream_health_check validate_buffer validate_size validate_queue
      validate_session_cookie reject_plus_resources_in_oss
  upstream_errors is_plus u path =
      (if u.use_cluster_ip && is_some u.subselector
        then forbidden (child path "subselector") "subselector can't be used with use-cluster-ip"
          ∷ []
        else if_given (λ labels. validate_labels labels (child path "subselector")) u.subselector)
      ++ validate_service_name lib u.service (child path "service")
      ++ validate_time lib u.proxy_connect_timeout (child path "connect-timeout")
      ++ validate_time lib u.proxy_read_timeout (child path "read-timeout")
      ++ validate_time lib u.proxy_send_timeout (child path "send-timeout")
      ++ validate_next_upstream u.proxy_next_upstream (child path "next-upstream")
      ++ validate_time lib u.proxy_next_upstream_timeout (child path "next-upstream-timeout")
      ++ validate_positive_int_or_zero_from_pointer (some u.proxy_next_upstream_tries)
          (child path "next-upstream-tries")
      ++ validate_upstream_lb_method u.lb_method (child path "lb-method") is_plus
      ++ validate_time lib u.fail_timeout (child path "fail-timeout")
      ++ validate_positive_int_or_zero_from_pointer u.max_fails (child path "max-fails")
      ++ validate_positive_int_or_zero_from_pointer u.keepalive (child path "keepalive")
      ++ validate_positive_int_or_zero_from_pointer u.max_conns (child path "max-conns")
      ++ validate_offset lib u.client_max_body_size (child path "client-max-body-size")
      ++ validate_upstream_health_check u.health_check (child path "healthCheck")
      ++ validate_time lib u.slow_start (child path "slow-start")
      ++ validate_buffer u.proxy_buffers (child path "buffers")
      ++ validate_size lib u.proxy_buffer_size (child path "buffer-size")
      ++ validate_queue u.queue (child path "queue")
      ++ validate_session_cookie u.session_cookie (child path "sessionCookie")
      ++ invalid_number_each (child path "port") (pos u.port) (lib.is_valid_port_num (pos u.port))
      ++ reject_plus_resources_in_oss u path is_plus

  -- The error of a name, when it is not valid or is in the set, and the set with it otherwise.
  abbrev pub checked_name :
      (name_errors : List FieldError)
      → String
      → FieldPath
      → List String
      → List FieldError × List String
  checked_name (e ∷ es) name path names = (e ∷ es, names)
  checked_name [] name path names =
      if has names name
      then (duplicate (child path "name") name ∷ [], names)
      else ([], name ∷ names)

  -- The loop, from the index on; `names` is the set upstreamNames.
  unfoldable pub validate_upstreams_from :
      (is_plus : Bool)
      → FieldPath
      → ℕ
      → (names : List String) → List Upstream
      → List FieldError × List String
  unfolding validate_upstream_name upstream_errors
  validate_upstreams_from is_plus path i names [] = ([], names)
  validate_upstreams_from is_plus path i names (u ∷ us) =
      let here = index path i in
      let (errors, next) =
        checked_name (validate_upstream_name lib u.name (child here "name")) u.name here names in
      let (later, all_names) = validate_upstreams_from is_plus path (suc i) next us in
      (errors ++ upstream_errors is_plus u here ++ later, all_names)

  unfoldable pub validate_upstreams :
      (is_plus : Bool) → List Upstream → FieldPath → List FieldError × List String
  unfolding validate_upstreams_from
  validate_upstreams is_plus upstreams path = validate_upstreams_from is_plus path 0 [] upstreams
