-- ===== src/Apis/Validation/Actions.antt =====
-- virtualserver.go: the checks of actions.
use aspenmesh_k3s_multiclust.Prelude.{
  ℕ, suc, String, Bool, true, false, not, ◌&&◌, ◌||◌, Option, none, some, List, [], ◌∷◌, ◌++◌, ◌==◌,
  ◌+◌, eqb, if◌then◌else◌,
}
use aspenmesh_k3s_multiclust.Prelude.Integers.{ℤ, pos, ltb_int, eqb_int}
use aspenmesh_k3s_multiclust.Prelude.Strings.{contains, join}
use aspenmesh_k3s_multiclust.Prelude.Texts.{concat}
use Prim.Native.Char.{code}
use Prim.Native.String
use text.Mathlib.Text.{starts_with}
use aspenmesh_k3s_multiclust.K8s.FieldErrors.{
  FieldPath, child, FieldError, required, invalid, invalid_number, not_found,
}
use aspenmesh_k3s_multiclust.Apis.Types.{
  Header, Action, ActionRedirect, ActionReturn, ActionProxy, ProxyRequestHeaders,
  ProxyResponseHeaders, AddHeader,
}
use aspenmesh_k3s_multiclust.Apis.Validation.{
  ValidationLibrary, invalid_each, if_given, each_at, has,
}
use aspenmesh_k3s_multiclust.Apis.Validation.Names.{
  validate_redirect_status_code, validate_upstream_name, validate_path,
}
use aspenmesh_k3s_multiclust.Apis.Validation.Variables.{
  unescaped, validate_string_with_variables, validate_escaped_string_with_variables,
}
use aspenmesh_k3s_multiclust.Apis.Validation.Upstreams.{header_name_errors}

abbrev pub one_if : Bool → ℕ
one_if true = 1
one_if false = 0

abbrev pub given {ℓ} : {A : Type ℓ} → Option A → ℕ
given none = 0
given (some a) = 1

unfoldable pub count_actions : Action → ℕ
count_actions action =
    one_if (not (action.pass == ""))
    + given action.redirect
    + given action.return
    + given action.proxy

abbrev return_body_variables : List String
return_body_variables =
    "request_uri" ∷ "request_method" ∷ "request_body" ∷ "scheme" ∷ "args" ∷ "host" ∷ "request_time"
    ∷ "request_length" ∷ "nginx_version" ∷ "pid" ∷ "connection" ∷ "remote_addr" ∷ "remote_port"
    ∷ "time_iso8601" ∷ "time_local" ∷ "server_addr" ∷ "server_port" ∷ "server_name"
    ∷ "server_protocol" ∷ "connections_active" ∷ "connections_reading" ∷ "connections_writing"
    ∷ "connections_waiting" ∷ []

abbrev return_body_special_variables : List String
return_body_special_variables = "arg_" ∷ "http_" ∷ "cookie_" ∷ []

abbrev valid_redirect_variable_names : List String
valid_redirect_variable_names = "scheme" ∷ "http_x_forwarded_proto" ∷ "request_uri" ∷ "host" ∷ []

abbrev action_proxy_header_variables : List String
action_proxy_header_variables =
    "request_uri" ∷ "request_method" ∷ "request_body" ∷ "scheme" ∷ "args" ∷ "host" ∷ "request_time"
    ∷ "request_length" ∷ "nginx_version" ∷ "pid" ∷ "connection" ∷ "remote_addr" ∷ "remote_port"
    ∷ "time_iso8601" ∷ "time_local" ∷ "server_addr" ∷ "server_port" ∷ "server_name"
    ∷ "server_protocol" ∷ "connections_active" ∷ "connections_reading" ∷ "connections_writing"
    ∷ "connections_waiting" ∷ "ssl_cipher" ∷ "ssl_ciphers" ∷ "ssl_client_cert"
    ∷ "ssl_client_escaped_cert" ∷ "ssl_client_fingerprint" ∷ "ssl_client_i_dn"
    ∷ "ssl_client_i_dn_legacy" ∷ "ssl_client_raw_cert" ∷ "ssl_client_s_dn"
    ∷ "ssl_client_s_dn_legacy" ∷ "ssl_client_serial" ∷ "ssl_client_v_end" ∷ "ssl_client_v_remain"
    ∷ "ssl_client_v_start" ∷ "ssl_client_verify" ∷ "ssl_curves" ∷ "ssl_early_data" ∷ "ssl_protocol"
    ∷ "ssl_server_name" ∷ "ssl_session_id" ∷ "ssl_session_reused" ∷ []

abbrev action_proxy_header_special_variables : List String
action_proxy_header_special_variables =
    "arg_" ∷ "http_" ∷ "cookie_" ∷ "jwt_claim_" ∷ "jwt_header_" ∷ []

abbrev valid_ignore_headers : List String
valid_ignore_headers =
    "X-Accel-Redirect" ∷ "X-Accel-Expires" ∷ "X-Accel-Limit-Rate" ∷ "X-Accel-Buffering"
    ∷ "X-Accel-Charset" ∷ "Expires" ∷ "Cache-Control" ∷ "Set-Cookie" ∷ "Vary" ∷ []

unfoldable pub validate_ignore_headers : List String → FieldPath → List FieldError
validate_ignore_headers headers path =
    each_at
      (λ h here.
        if has valid_ignore_headers h
        then []
        else invalid here h (
            concat (
              "not a valid ignore header name. Accepted headers are : "
              ∷ join ", " valid_ignore_headers
              ∷ []))
          ∷ [])
      path 0 headers

-- strconv.Atoi of one byte fails unless it is a digit.
abbrev is_digit : ℕ → Bool
is_digit c =
    aspenmesh_k3s_multiclust.Prelude.leb b'0' c && aspenmesh_k3s_multiclust.Prelude.leb c b'9'

abbrev starts_with_digit : String → Bool
starts_with_digit Prim.Native.String.[] = true
starts_with_digit (Prim.Native.String.◌∷◌ c s) = is_digit (code c)

-- Every `$` that is not the last character comes before a digit.
unfoldable pub has_numbered_variables : String → Bool
has_numbered_variables Prim.Native.String.[] = true
has_numbered_variables (Prim.Native.String.◌∷◌ c s) =
    let rest = has_numbered_variables s in
    if eqb (code c) b'$' && not (starts_with_digit s) then false else rest

unfoldable pub validate_string_no_variables : String → FieldPath → List FieldError
unfolding has_numbered_variables
validate_string_no_variables s path =
    if has_numbered_variables s
    then []
    else invalid path s "`$` character can be only followed by a number" ∷ []

unfoldable pub validate_action_return_code : ℤ → FieldPath → List FieldError
validate_action_return_code code path =
    if not (ltb_int code (pos 200)) && not (ltb_int (pos 299) code)
      || not (ltb_int code (pos 400)) && not (ltb_int (pos 599) code)
    then []
    else invalid_number path code
        "must be a valid status code either 2XX, 4XX or 5XX, for example, 200 or 402."
      ∷ []

module _ (lib : ValidationLibrary) where
  unfoldable pub validate_referenced_upstream :
      String → FieldPath → (names : List String) → List FieldError
  unfolding validate_upstream_name
  validate_referenced_upstream name path names = elim (validate_upstream_name lib name path) [
    | e ∷ es ↦ e ∷ es
    | [] ↦ if has names name then [] else not_found path name ∷ []
  ]

  unfoldable pub validate_redirect_url :
      Bool → String → FieldPath → (valid_vars : List String) → List FieldError
  unfolding validate_string_with_variables
  validate_redirect_url is_plus url path valid_vars =
      if url == ""
      then required path "must specify a url" ∷ []
      else (if not (contains url "://")
          then invalid path url
              "must contain the protocol with '://', for example http://, https:// or ${scheme}://"
            ∷ []
          else elim (unescaped lib url path (
              "http://www.nginx.com" ∷ "${scheme}://${host}/green/" ∷ "\\\"http://www.nginx.com\\\""
              ∷ [])) [
                | e ∷ es ↦ e ∷ es
                | [] ↦ validate_string_with_variables lib is_plus url path [] valid_vars
              ])

  unfoldable pub validate_action_redirect :
      Bool → ActionRedirect → FieldPath → (valid_vars : List String) → List FieldError
  unfolding validate_redirect_url validate_redirect_status_code
  validate_action_redirect is_plus redirect path valid_vars =
      validate_redirect_url is_plus redirect.url (child path "url") valid_vars
      ++ (if eqb_int redirect.code (pos 0)
          then []
          else validate_redirect_status_code redirect.code (child path "code"))

  unfoldable pub validate_action_return_type : String → FieldPath → List FieldError
  validate_action_return_type return_type path =
      if lib.matches_return_type return_type
      then []
      else invalid path return_type (
          lib.regex_error
            "must have all '\"' (double quotes), '{', '}' or ';' escaped and must not end with an unescaped '\\' (backslash)"
            "([^;\\{\\}\"\\\\]|\\\\.)*" ("type/subtype" ∷ "application/json" ∷ []))
        ∷ []

  unfoldable pub validate_action_return :
      Bool → ActionReturn → FieldPath → (special_vars valid_vars : List String) → List FieldError
  unfolding validate_escaped_string_with_variables validate_action_return_type
      validate_action_return_code
  validate_action_return is_plus r path special_vars valid_vars =
      if r.body == ""
      then required (child path "body") "" ∷ []
      else validate_escaped_string_with_variables lib is_plus r.body (child path "body")
          special_vars valid_vars
        ++ (if r.return_type == ""
            then []
            else validate_action_return_type r.return_type (child path "type"))
        ++ (if eqb_int r.code (pos 0)
            then []
            else validate_action_return_code r.code (child path "code"))

  unfoldable pub validate_action_proxy_header : Bool → Header → FieldPath → List FieldError
  unfolding validate_escaped_string_with_variables
  validate_action_proxy_header is_plus h path =
      header_name_errors lib h path
      ++ validate_escaped_string_with_variables lib is_plus h.value (child path "value")
          action_proxy_header_special_variables action_proxy_header_variables

  unfoldable pub validate_action_proxy_request_headers :
      Bool → Option ProxyRequestHeaders → FieldPath → List FieldError
  unfolding validate_action_proxy_header
  validate_action_proxy_request_headers is_plus headers path =
      if_given (λ h. each_at (validate_action_proxy_header is_plus) path 0 h.set) headers

  abbrev header_names : FieldPath → List String → List FieldError
  header_names path names =
      each_at (λ h here. invalid_each here h (lib.is_http_header_name h)) path 0 names

  unfoldable pub validate_action_proxy_response_headers :
      Bool → Option ProxyResponseHeaders → FieldPath → List FieldError
  unfolding validate_action_proxy_header validate_ignore_headers
  validate_action_proxy_response_headers is_plus headers path =
      if_given
        (λ h.
          header_names (child path "hide") h.hide
          ++ header_names (child path "pass") h.pass
          ++ each_at (λ (a : AddHeader). validate_action_proxy_header is_plus a.header)
              (child path "add") 0 h.add
          ++ validate_ignore_headers h.ignore (child path "ignore"))
        headers

  unfoldable pub validate_action_proxy_rewrite_path : String → FieldPath → List FieldError
  unfolding validate_string_no_variables validate_path
  validate_action_proxy_rewrite_path rewrite_path path =
      if rewrite_path == ""
      then []
      else validate_string_no_variables rewrite_path path ++ validate_path lib rewrite_path path

  unfoldable pub validate_action_proxy_rewrite_path_for_regexp :
      String → FieldPath → List FieldError
  unfolding validate_string_no_variables
  validate_action_proxy_rewrite_path_for_regexp rewrite_path path =
      if rewrite_path == ""
      then []
      else validate_string_no_variables rewrite_path path
        ++ unescaped lib rewrite_path path ("/rewrite$1" ∷ "/images" ∷ [])

  unfoldable pub validate_action_proxy :
      Bool
      → ActionProxy
      → FieldPath
      → (names : List String) → (route_path : String) → (internal : Bool) → List FieldError
  unfolding validate_referenced_upstream validate_action_proxy_request_headers
      validate_action_proxy_response_headers validate_action_proxy_rewrite_path
      validate_action_proxy_rewrite_path_for_regexp
  validate_action_proxy is_plus p path names route_path internal =
      validate_referenced_upstream p.upstream (child path "upstream") names
      ++ validate_action_proxy_request_headers is_plus p.request_headers
          (child path "requestHeaders")
      ++ validate_action_proxy_response_headers is_plus p.response_headers
          (child path "responseHeaders")
      ++ (if starts_with route_path "~" || internal
          then validate_action_proxy_rewrite_path_for_regexp p.rewrite_path
              (child path "rewritePath")
          else validate_action_proxy_rewrite_path p.rewrite_path (child path "rewritePath"))

  unfoldable pub validate_action :
      Bool
      → Action
      → FieldPath
      → (names : List String) → (route_path : String) → (internal : Bool) → List FieldError
  unfolding count_actions validate_referenced_upstream validate_action_redirect
      validate_action_return validate_action_proxy
  validate_action is_plus action path names route_path internal =
      if not (eqb (count_actions action) 1)
      then required path
          "action must specify exactly one of `pass`, `redirect`, `return` or `proxy`"
        ∷ []
      else (if action.pass == ""
          then []
          else validate_referenced_upstream action.pass (child path "pass") names)
        ++ if_given
            (λ r.
              validate_action_redirect is_plus r (child path "redirect")
                valid_redirect_variable_names)
            action.redirect
        ++ if_given
            (λ r.
              validate_action_return is_plus r (child path "return") return_body_special_variables
                return_body_variables)
            action.return
        ++ if_given
            (λ p. validate_action_proxy is_plus p (child path "proxy") names route_path internal)
            action.proxy
