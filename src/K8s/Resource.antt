-- ===== src/K8s/Resource.antt =====
-- internal/k8s/configuration.go: the resources (an Ingress with its minions, a VirtualServer with
-- its routes, a TransportServer), which of two wins, and when two are equal.
pub mod Order
pub mod Keys
pub mod Equality
use aspenmesh_k3s_multiclust.Prelude.{
  ℕ, String, Bool, true, false, ◌&&◌, Option, none, some, List, [], ◌∷◌, ◌++◌, eqb, ltb, bool_eq,
  if◌then◌else◌,
}
use aspenmesh_k3s_multiclust.Prelude.Texts.{concat, text_lt}
use aspenmesh_k3s_multiclust.Prelude.Dict.{Dict, deep_equal}
use aspenmesh_k3s_multiclust.K8s.Objects.{
  ObjectMeta, Ingress, VirtualServer, VirtualServerRoute, TransportServer, get_resource_key,
  compare_object_metas, compare_object_metas_with_annotations,
}

pub record MinionConfiguration : Type 0 where
  pub ingress : Ingress
  pub valid_paths : Dict Bool

pub record IngressConfiguration : Type 0 where
  pub ingress : Ingress
  pub is_master : Bool
  pub minions : List MinionConfiguration
  pub valid_hosts : Dict Bool
  pub warnings : List String
  pub child_warnings : Dict (List String)

pub record VirtualServerConfiguration : Type 0 where
  pub virtual_server : VirtualServer
  pub virtual_server_routes : List VirtualServerRoute
  pub warnings : List String

pub record TransportServerConfiguration : Type 0 where
  pub listener_port : ℕ
  pub transport_server : TransportServer
  pub warnings : List String

-- The interface Resource, by its implementations.
pub data Resource : Type 0 where
  ingress_conf : IngressConfiguration → Resource
  virtual_server_conf : VirtualServerConfiguration → Resource
  transport_server_conf : TransportServerConfiguration → Resource

abbrev pub ingress_kind : String
ingress_kind = "Ingress"

abbrev pub virtual_server_kind : String
virtual_server_kind = "VirtualServer"

abbrev pub virtual_server_route_kind : String
virtual_server_route_kind = "VirtualServerRoute"

abbrev pub transport_server_kind : String
transport_server_kind = "TransportServer"

unfoldable pub choose_object_meta_winner : ObjectMeta → ObjectMeta → Bool
choose_object_meta_winner meta1 meta2 =
    if eqb meta1.creation_timestamp meta2.creation_timestamp
    then text_lt meta2.uid meta1.uid
    else ltb meta1.creation_timestamp meta2.creation_timestamp

abbrev pub new_regular_ingress_configuration : Ingress → IngressConfiguration
new_regular_ingress_configuration ing = record {
  ingress = ing;
  is_master = false;
  minions = [];
  valid_hosts = [];
  warnings = [];
  child_warnings = [];
}

abbrev pub new_master_ingress_configuration :
    Ingress → List MinionConfiguration → Dict (List String) → IngressConfiguration
new_master_ingress_configuration ing minions child_warnings = record {
  ingress = ing;
  is_master = true;
  minions = minions;
  valid_hosts = [];
  warnings = [];
  child_warnings = child_warnings;
}

abbrev pub new_minion_configuration : Ingress → MinionConfiguration
new_minion_configuration ing = record { ingress = ing; valid_paths = [] }

abbrev pub new_virtual_server_configuration :
    VirtualServer → List VirtualServerRoute → List String → VirtualServerConfiguration
new_virtual_server_configuration vs vsrs warnings = record {
  virtual_server = vs;
  virtual_server_routes = vsrs;
  warnings = warnings;
}

-- The port is zero until a listener is found.
abbrev pub new_transport_server_configuration : TransportServer → TransportServerConfiguration
new_transport_server_configuration ts = record {
  listener_port = 0;
  transport_server = ts;
  warnings = [];
}

abbrev pub get_object_meta : Resource → ObjectMeta
get_object_meta (ingress_conf ic) = ic.ingress.meta
get_object_meta (virtual_server_conf vsc) = vsc.virtual_server.meta
get_object_meta (transport_server_conf tsc) = tsc.transport_server.meta

unfoldable pub get_key_with_kind : Resource → String
get_key_with_kind (ingress_conf ic) =
    concat (ingress_kind ∷ "/" ∷ get_resource_key ic.ingress.meta ∷ [])
get_key_with_kind (virtual_server_conf vsc) =
    concat (virtual_server_kind ∷ "/" ∷ get_resource_key vsc.virtual_server.meta ∷ [])
get_key_with_kind (transport_server_conf tsc) =
    concat (transport_server_kind ∷ "/" ∷ get_resource_key tsc.transport_server.meta ∷ [])

unfoldable pub wins : Resource → Resource → Bool
wins r s = choose_object_meta_winner (get_object_meta r) (get_object_meta s)

unfoldable pub add_warning : String → Resource → Resource
add_warning w (ingress_conf ic) = ingress_conf (record ic { warnings = ic.warnings ++ w ∷ [] })
add_warning w (virtual_server_conf vsc) =
    virtual_server_conf (record vsc { warnings = vsc.warnings ++ w ∷ [] })
add_warning w (transport_server_conf tsc) =
    transport_server_conf (record tsc { warnings = tsc.warnings ++ w ∷ [] })

-- The two lengths are equal, and so are the entries at each index.
unfoldable pub pointwise {ℓ} : {A : Type ℓ} → (A → A → Bool) → List A → List A → Bool
pointwise eq [] [] = true
pointwise eq [] (y ∷ ys) = false
pointwise eq (x ∷ xs) [] = false
pointwise eq (x ∷ xs) (y ∷ ys) = eq x y && pointwise eq xs ys

unfoldable pub same_minion : MinionConfiguration → MinionConfiguration → Bool
same_minion m n = compare_object_metas_with_annotations m.ingress.meta n.ingress.meta

unfoldable pub same_route : VirtualServerRoute → VirtualServerRoute → Bool
same_route v w = compare_object_metas v.meta w.meta

unfoldable pub ingress_is_equal : IngressConfiguration → IngressConfiguration → Bool
unfolding pointwise same_minion
ingress_is_equal ic jc =
    compare_object_metas_with_annotations ic.ingress.meta jc.ingress.meta
    && deep_equal bool_eq ic.valid_hosts jc.valid_hosts
    && bool_eq ic.is_master jc.is_master
    && pointwise same_minion ic.minions jc.minions

unfoldable pub virtual_server_is_equal :
    VirtualServerConfiguration → VirtualServerConfiguration → Bool
unfolding pointwise same_route
virtual_server_is_equal vsc wsc =
    compare_object_metas vsc.virtual_server.meta wsc.virtual_server.meta
    && pointwise same_route vsc.virtual_server_routes wsc.virtual_server_routes

unfoldable pub transport_server_is_equal :
    TransportServerConfiguration → TransportServerConfiguration → Bool
transport_server_is_equal tsc usc =
    compare_object_metas tsc.transport_server.meta usc.transport_server.meta
    && eqb tsc.listener_port usc.listener_port

unfoldable pub is_equal : Resource → Resource → Bool
unfolding ingress_is_equal virtual_server_is_equal transport_server_is_equal
is_equal (ingress_conf ic) (ingress_conf jc) = ingress_is_equal ic jc
is_equal (virtual_server_conf vsc) (virtual_server_conf wsc) = virtual_server_is_equal vsc wsc
is_equal (transport_server_conf tsc) (transport_server_conf usc) = transport_server_is_equal tsc usc
is_equal _ _ = false
