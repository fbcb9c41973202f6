-- ===== src/K8s/Resource/Equality.antt =====
-- IsEqual is transitive, and equal Ingresses agree on their valid hosts.
use aspenmesh_k3s_multiclust.Prelude.{
  String, ◌≡◌, ◌∙◌, Bool, true, Option, none, some, List, [], ◌∷◌, ◌==◌, eq_iff, arith, bool_eq,
}
use aspenmesh_k3s_multiclust.Prelude.Dict.{Dict, deep_equal_trans}
use aspenmesh_k3s_multiclust.K8s.Objects.{
  ObjectMeta, VirtualServerRoute, compare_object_metas, compare_object_metas_with_annotations,
  same_annotations,
}
use aspenmesh_k3s_multiclust.K8s.Resource.{
  Resource, MinionConfiguration, ingress_conf, virtual_server_conf, transport_server_conf,
  ingress_is_equal, virtual_server_is_equal, transport_server_is_equal, is_equal, pointwise,
  same_minion, same_route,
}

text_eq_trans : (s t u : String) → (s == t) ≡ true → (t == u) ≡ true → (s == u) ≡ true
text_eq_trans s t u h k = (eq_iff s u).1 ((eq_iff s t).0 h ∙ (eq_iff t u).0 k)

bool_eq_trans : (a b c : Bool) → bool_eq a b ≡ true → bool_eq b c ≡ true → bool_eq a c ≡ true
bool_eq_trans a b c h k = ground arith

compare_object_metas_trans :
    (m n o : ObjectMeta)
    → compare_object_metas m n ≡ true
    → compare_object_metas n o ≡ true
    → compare_object_metas m o ≡ true
unfolding compare_object_metas
compare_object_metas_trans m n o h k =
    ground
      (arith, text_eq_trans m.namespace n.namespace o.namespace, text_eq_trans m.name n.name o.name)

same_annotations_trans :
    (m n o : Option (Dict String))
    → same_annotations m n ≡ true
    → same_annotations n o ≡ true
    → same_annotations m o ≡ true
unfolding same_annotations
same_annotations_trans none none o h k = k
same_annotations_trans none (some n) o h k = cc
same_annotations_trans (some m) none o h k = cc
same_annotations_trans (some m) (some n) none h k = cc
same_annotations_trans (some m) (some n) (some o) h k =
    deep_equal_trans ◌==◌ text_eq_trans m n o h k

metas_with_annotations_trans :
    (m n o : ObjectMeta)
    → compare_object_metas_with_annotations m n ≡ true
    → compare_object_metas_with_annotations n o ≡ true
    → compare_object_metas_with_annotations m o ≡ true
unfolding compare_object_metas_with_annotations
metas_with_annotations_trans m n o h k = ground (
  arith,
  compare_object_metas_trans m n o,
  same_annotations_trans m.annotations n.annotations o.annotations,
)

pointwise_trans {ℓ} :
    {A : Type ℓ} (eq : A → A → Bool)
    → ((x y z : A) → eq x y ≡ true → eq y z ≡ true → eq x z ≡ true)
    → (xs ys zs : List A) → pointwise eq xs ys ≡ true
    → pointwise eq ys zs ≡ true
    → pointwise eq xs zs ≡ true
unfolding pointwise
pointwise_trans eq t [] [] zs h k = k
pointwise_trans eq t [] (y ∷ ys) zs h k = cc
pointwise_trans eq t (x ∷ xs) [] zs h k = cc
pointwise_trans eq t (x ∷ xs) (y ∷ ys) [] h k = cc
pointwise_trans eq t (x ∷ xs) (y ∷ ys) (z ∷ zs) h k =
    ground (arith, t x y z, pointwise_trans eq t xs ys zs)

same_minion_trans :
    (m n o : MinionConfiguration)
    → same_minion m n ≡ true
    → same_minion n o ≡ true
    → same_minion m o ≡ true
unfolding same_minion
same_minion_trans m n o = metas_with_annotations_trans m.ingress.meta n.ingress.meta o.ingress.meta

same_route_trans :
    (m n o : VirtualServerRoute)
    → same_route m n ≡ true
    → same_route n o ≡ true
    → same_route m o ≡ true
unfolding same_route
same_route_trans m n o = compare_object_metas_trans m.meta n.meta o.meta

pub is_equal_trans :
    (q r s : Resource) → is_equal q r ≡ true → is_equal r s ≡ true → is_equal q s ≡ true
unfolding is_equal ingress_is_equal virtual_server_is_equal transport_server_is_equal
is_equal_trans (ingress_conf a) (ingress_conf b) (ingress_conf c) h k = ground (
  arith,
  metas_with_annotations_trans a.ingress.meta b.ingress.meta c.ingress.meta,
  deep_equal_trans bool_eq bool_eq_trans a.valid_hosts b.valid_hosts c.valid_hosts,
  pointwise_trans same_minion same_minion_trans a.minions b.minions c.minions,
  bool_eq_trans a.is_master b.is_master c.is_master,
)
is_equal_trans (virtual_server_conf a) (virtual_server_conf b) (virtual_server_conf c) h k =
    ground (
      arith,
      compare_object_metas_trans a.virtual_server.meta b.virtual_server.meta c.virtual_server.meta,
      pointwise_trans same_route same_route_trans a.virtual_server_routes b.virtual_server_routes
          c.virtual_server_routes,
    )
is_equal_trans (transport_server_conf a) (transport_server_conf b) (transport_server_conf c) h k =
    ground (
      arith,
      compare_object_metas_trans a.transport_server.meta b.transport_server.meta
          c.transport_server.meta,
    )
is_equal_trans _ _ _ h k = cc
