-- ===== src/Apis/Types.antt =====
-- pkg/apis/configuration/v1/types.go and v1alpha1/types.go: the specs of the custom resources, with
-- the fields that the validation reads. A pointer that may be nil is an option; the Go type int is ℤ,
-- and uint16 is ℕ.
pub mod Listeners
use aspenmesh_k3s_multiclust.Prelude.{ℕ, String, Bool, Option, List}
use aspenmesh_k3s_multiclust.Prelude.Dict.{Dict}
use aspenmesh_k3s_multiclust.Prelude.Integers.{ℤ}

pub record PolicyReference : Type 0 where
  pub name : String
  pub namespace : String

pub record UpstreamBuffers : Type 0 where
  pub number : ℤ
  pub size : String

pub record Header : Type 0 where
  pub name : String
  pub value : String

pub record HealthCheck : Type 0 where
  pub path : String
  pub interval : String
  pub jitter : String
  pub fails : ℤ
  pub passes : ℤ
  pub port : ℤ
  pub connect_timeout : String
  pub read_timeout : String
  pub send_timeout : String
  pub headers : List Header
  pub status_match : String

pub record SessionCookie : Type 0 where
  pub name : String
  pub path : String
  pub expires : String
  pub domain : String

pub record UpstreamQueue : Type 0 where
  pub size : ℤ
  pub timeout : String

pub record Upstream : Type 0 where
  pub name : String
  pub service : String
  pub subselector : Option (Dict String)
  pub port : ℕ
  pub lb_method : String
  pub fail_timeout : String
  pub max_fails : Option ℤ
  pub max_conns : Option ℤ
  pub keepalive : Option ℤ
  pub proxy_connect_timeout : String
  pub proxy_read_timeout : String
  pub proxy_send_timeout : String
  pub proxy_next_upstream : String
  pub proxy_next_upstream_timeout : String
  pub proxy_next_upstream_tries : ℤ
  pub proxy_buffers : Option UpstreamBuffers
  pub proxy_buffer_size : String
  pub client_max_body_size : String
  pub health_check : Option HealthCheck
  pub slow_start : String
  pub queue : Option UpstreamQueue
  pub session_cookie : Option SessionCookie
  pub use_cluster_ip : Bool

pub record ActionRedirect : Type 0 where
  pub url : String
  pub code : ℤ

pub record ActionReturn : Type 0 where
  pub code : ℤ
  pub return_type : String
  pub body : String

-- The headers to set; whether the others pass is not validated.
pub record ProxyRequestHeaders : Type 0 where
  pub set : List Header

pub record AddHeader : Type 0 where
  pub header : Header
  pub always : Bool

pub record ProxyResponseHeaders : Type 0 where
  pub hide : List String
  pub pass : List String
  pub ignore : List String
  pub add : List AddHeader

pub record ActionProxy : Type 0 where
  pub upstream : String
  pub rewrite_path : String
  pub request_headers : Option ProxyRequestHeaders
  pub response_headers : Option ProxyResponseHeaders

pub record Action : Type 0 where
  pub pass : String
  pub redirect : Option ActionRedirect
  pub return : Option ActionReturn
  pub proxy : Option ActionProxy

pub record Split : Type 0 where
  pub weight : ℤ
  pub action : Option Action

pub record Condition : Type 0 where
  pub header : String
  pub cookie : String
  pub argument : String
  pub variable : String
  pub value : String

pub record Match : Type 0 where
  pub conditions : List Condition
  pub action : Option Action
  pub splits : List Split

pub record ErrorPageReturn : Type 0 where
  pub action_return : ActionReturn
  pub headers : List Header

pub record ErrorPageRedirect : Type 0 where
  pub action_redirect : ActionRedirect

pub record ErrorPage : Type 0 where
  pub codes : List ℤ
  pub return : Option ErrorPageReturn
  pub redirect : Option ErrorPageRedirect

pub record Route : Type 0 where
  pub path : String
  pub policies : List PolicyReference
  pub route : String
  pub action : Option Action
  pub splits : List Split
  pub matches : List Match
  pub error_pages : List ErrorPage

pub record TlsRedirect : Type 0 where
  pub code : Option ℤ
  pub based_on : String

pub record Tls : Type 0 where
  pub secret : String
  pub redirect : Option TlsRedirect

pub record VirtualServerSpec : Type 0 where
  pub host : String
  pub tls : Option Tls
  pub policies : List PolicyReference
  pub upstreams : List Upstream
  pub routes : List Route

pub record VirtualServerRouteSpec : Type 0 where
  pub host : String
  pub upstreams : List Upstream
  pub subroutes : List Route
