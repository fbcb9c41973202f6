-- ===== src/K8s/Objects.antt =====
-- The Kubernetes objects that the controller reads, as far as internal/k8s/configuration.go,
-- utils.go, validation.go and reference_checkers.go look at them. The types of the custom
-- resources are those of pkg/apis/configuration/v1/types.go and v1alpha1/types.go; those of the
-- Kubernetes API are not part of the repository, and are taken with the fields that are read.
use aspenmesh_k3s_multiclust.Prelude.{
  ℕ, String, Bool, true, false, ◌&&◌, Option, none, some, List, [], ◌∷◌, ◌==◌, eqb,
}
use aspenmesh_k3s_multiclust.Prelude.Texts.{concat}
use aspenmesh_k3s_multiclust.Prelude.Dict.{Dict, lookup, deep_equal}

-- A creation timestamp is an instant, and only compared; `none` is a nil map of annotations.
pub record ObjectMeta : Type 0 where
  pub namespace : String
  pub name : String
  pub uid : String
  pub generation : ℕ
  pub creation_timestamp : ℕ
  pub annotations : Option (Dict String)

pub record HttpPath : Type 0 where
  pub path : String
  pub service_name : String

-- `http` is nil in a rule with no paths section.
pub record Rule : Type 0 where
  pub host : String
  pub http : Option (List HttpPath)

pub record Ingress : Type 0 where
  pub meta : ObjectMeta
  pub backend : Option String
  pub tls_secrets : List String
  pub rules : List Rule

pub record PolicyReference : Type 0 where
  pub name : String
  pub namespace : String

pub record Upstream : Type 0 where
  pub service : String
  pub use_cluster_ip : Bool

pub record Route : Type 0 where
  pub path : String
  pub route : String
  pub policies : List PolicyReference

pub record VirtualServer : Type 0 where
  pub meta : ObjectMeta
  pub host : String
  pub tls_secret : Option String
  pub policies : List PolicyReference
  pub upstreams : List Upstream
  pub routes : List Route

pub record VirtualServerRoute : Type 0 where
  pub meta : ObjectMeta
  pub host : String
  pub upstreams : List Upstream
  pub subroutes : List Route

pub record TransportServer : Type 0 where
  pub meta : ObjectMeta
  pub listener_name : String
  pub listener_protocol : String
  pub host : String
  pub upstream_services : List String

pub record Listener : Type 0 where
  pub name : String
  pub port : ℕ
  pub protocol : String

pub record GlobalConfiguration : Type 0 where
  pub listeners : List Listener

-- The constants of v1alpha1/types.go.
abbrev pub tls_passthrough_listener_name : String
tls_passthrough_listener_name = "tls-passthrough"

abbrev pub tls_passthrough_listener_protocol : String
tls_passthrough_listener_protocol = "TLS_PASSTHROUGH"

-- m[k] on a map that may be nil
unfoldable pub annotation : ObjectMeta → String → Option String
annotation meta key = elim meta.annotations [ none ↦ none | some m ↦ lookup key m ]

text_or_empty : Option String → String
text_or_empty none = ""
text_or_empty (some s) = s

abbrev pub mergeable_ingress_type : String
mergeable_ingress_type = "nginx.org/mergeable-ingress-type"

unfoldable pub is_minion : Ingress → Bool
unfolding annotation text_or_empty
is_minion ing = text_or_empty (annotation ing.meta mergeable_ingress_type) == "minion"

unfoldable pub is_master : Ingress → Bool
unfolding annotation text_or_empty
is_master ing = text_or_empty (annotation ing.meta mergeable_ingress_type) == "master"

unfoldable pub get_resource_key : ObjectMeta → String
get_resource_key meta = concat (meta.namespace ∷ "/" ∷ meta.name ∷ [])

unfoldable pub get_resource_key_with_kind : String → ObjectMeta → String
get_resource_key_with_kind kind meta = concat (kind ∷ "/" ∷ meta.namespace ∷ "/" ∷ meta.name ∷ [])

unfoldable pub compare_object_metas : ObjectMeta → ObjectMeta → Bool
compare_object_metas meta1 meta2 =
    meta1.namespace == meta2.namespace
    && meta1.name == meta2.name
    && eqb meta1.generation meta2.generation

-- reflect.DeepEqual of two maps of annotations: a nil map is not equal to an empty one.
unfoldable pub same_annotations : Option (Dict String) → Option (Dict String) → Bool
same_annotations none none = true
same_annotations none (some n) = false
same_annotations (some m) none = false
same_annotations (some m) (some n) = deep_equal ◌==◌ m n

unfoldable pub compare_object_metas_with_annotations : ObjectMeta → ObjectMeta → Bool
unfolding compare_object_metas same_annotations
compare_object_metas_with_annotations meta1 meta2 =
    compare_object_metas meta1 meta2 && same_annotations meta1.annotations meta2.annotations
