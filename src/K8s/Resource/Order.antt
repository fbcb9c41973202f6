-- ===== src/K8s/Resource/Order.antt =====
-- "Wins" orders the resources, and equal resources have the same key.
use aspenmesh_k3s_multiclust.Prelude.{◌≡◌, ◌⊎◌, true, false, arith, eq_iff}
use aspenmesh_k3s_multiclust.Prelude.Texts.{text_lt_trans, text_lt_irrefl, text_lt_connected}
use aspenmesh_k3s_multiclust.K8s.Objects.{
  ObjectMeta, compare_object_metas, compare_object_metas_with_annotations, get_resource_key,
}
use aspenmesh_k3s_multiclust.K8s.Resource.{
  Resource, ingress_conf, virtual_server_conf, transport_server_conf, choose_object_meta_winner,
  ingress_is_equal, virtual_server_is_equal, transport_server_is_equal, is_equal, get_key_with_kind,
}

pub choose_object_meta_winner_irrefl : (m : ObjectMeta) → choose_object_meta_winner m m ≡ false
unfolding choose_object_meta_winner
choose_object_meta_winner_irrefl m = ground (arith, text_lt_irrefl m.uid)

pub choose_object_meta_winner_trans :
    (m n o : ObjectMeta)
    → choose_object_meta_winner m n ≡ true
    → choose_object_meta_winner n o ≡ true
    → choose_object_meta_winner m o ≡ true
unfolding choose_object_meta_winner
choose_object_meta_winner_trans m n o h k = ground (arith, text_lt_trans o.uid n.uid m.uid)

-- Of two objects with different UIDs one wins.
pub choose_object_meta_winner_connected :
    (m n : ObjectMeta)
    → choose_object_meta_winner m n ≡ false
    → (m.uid ≡ n.uid) ⊎ (choose_object_meta_winner n m ≡ true)
unfolding choose_object_meta_winner
choose_object_meta_winner_connected m n h = ground (arith, text_lt_connected n.uid m.uid)

compare_object_metas-key :
    (m n : ObjectMeta) → compare_object_metas m n ≡ true → get_resource_key m ≡ get_resource_key n
unfolding compare_object_metas get_resource_key
compare_object_metas-key m n h =
    ground (arith, eq_iff m.namespace n.namespace, eq_iff m.name n.name)

-- Resources that IsEqual takes for equal have the same kind, namespace and name.
pub is_equal-key :
    (r s : Resource) → is_equal r s ≡ true → get_key_with_kind r ≡ get_key_with_kind s
unfolding is_equal get_key_with_kind ingress_is_equal virtual_server_is_equal
    transport_server_is_equal compare_object_metas_with_annotations
is_equal-key (ingress_conf ic) (ingress_conf jc) h =
    ground (arith, compare_object_metas-key ic.ingress.meta jc.ingress.meta)
is_equal-key (virtual_server_conf v) (virtual_server_conf w) h =
    ground (arith, compare_object_metas-key v.virtual_server.meta w.virtual_server.meta)
is_equal-key (transport_server_conf t) (transport_server_conf u) h =
    ground (arith, compare_object_metas-key t.transport_server.meta u.transport_server.meta)
is_equal-key _ _ h = cc
