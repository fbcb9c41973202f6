-- ===== src/K8s/Operations/Requests.antt =====
-- The operations of the Configuration as requests, as the sync functions of
-- internal/k8s/controller.go make them one at a time.
use aspenmesh_k3s_multiclust.Prelude.{String, Bool, true, false, Option, some, ◌>>=◌}
use aspenmesh_k3s_multiclust.K8s.Objects.{
  Ingress, VirtualServer, VirtualServerRoute, TransportServer, GlobalConfiguration,
}
use aspenmesh_k3s_multiclust.K8s.State.{Configuration, Settings}
use aspenmesh_k3s_multiclust.K8s.Rebuild.{Outcome}
use aspenmesh_k3s_multiclust.K8s.Operations.{
  add_or_update_ingress, delete_ingress, add_or_update_virtual_server, delete_virtual_server,
  add_or_update_virtual_server_route, delete_virtual_server_route,
  add_or_update_global_configuration, delete_global_configuration, add_or_update_transport_server,
  delete_transport_server,
}

pub data Request : Type 0 where
  put_ingress : Ingress → Request
  drop_ingress : String → Request
  put_virtual_server : VirtualServer → Request
  drop_virtual_server : String → Request
  put_virtual_server_route : VirtualServerRoute → Request
  drop_virtual_server_route : String → Request
  put_global_configuration : GlobalConfiguration → Request
  drop_global_configuration : Request
  put_transport_server : TransportServer → Request
  drop_transport_server : String → Request

-- The requests that rebuild the hosts, and no listeners.
abbrev pub is_host_request : Request → Bool
is_host_request (put_global_configuration gc) = false
is_host_request drop_global_configuration = false
is_host_request (put_transport_server ts) = false
is_host_request (drop_transport_server key) = false
is_host_request _ = true

unfoldable pub handle : Settings → Request → Configuration → Option Outcome
handle env (put_ingress ing) c = add_or_update_ingress env ing c
handle env (drop_ingress key) c = delete_ingress env key c
handle env (put_virtual_server vs) c = add_or_update_virtual_server env vs c
handle env (drop_virtual_server key) c = delete_virtual_server env key c
handle env (put_virtual_server_route vsr) c = add_or_update_virtual_server_route env vsr c
handle env (drop_virtual_server_route key) c = delete_virtual_server_route env key c
handle env (put_global_configuration gc) c =
    add_or_update_global_configuration env gc c >>= λ (out, err). some out
handle env drop_global_configuration c = delete_global_configuration env c
handle env (put_transport_server ts) c = add_or_update_transport_server env ts c
handle env (drop_transport_server key) c = delete_transport_server env key c
