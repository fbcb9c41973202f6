-- ===== src/K8s/Operations/Reachable.antt =====
-- The states that the requests lead to from NewConfiguration, with what is deployed once the changes
-- of every request have been applied.
use aspenmesh_k3s_multiclust.Prelude.{
  String, ◌≡◌, ◌≢◌, refl, sym, ap, ◌∙◌, subst, Bool, true, false, Option, none, some, [], ◌>>=◌,
  >>=-eq-some, some_inj, is_some, if◌then◌else◌,
}
use aspenmesh_k3s_multiclust.Prelude.Dict.{lookup}
use aspenmesh_k3s_multiclust.K8s.State.{Configuration, Settings, new_configuration}
use aspenmesh_k3s_multiclust.K8s.Hosts.Stored.{IsStored}
use aspenmesh_k3s_multiclust.K8s.Hosts.Coherence.{ServesHost}
use aspenmesh_k3s_multiclust.K8s.Changes.Deploy.{Deployed, apply_changes}
use aspenmesh_k3s_multiclust.K8s.Changes.Refine.{Represents, Assignment}
use aspenmesh_k3s_multiclust.K8s.Rebuild.{Outcome, rebuild_hosts}
use aspenmesh_k3s_multiclust.K8s.Rebuild.Effect.{
  state_of, changes_of, Reaches, rebuild_hosts-Reaches,
}
use aspenmesh_k3s_multiclust.K8s.Operations.{
  report_route_error, add_or_update_ingress, delete_ingress, add_or_update_virtual_server,
  delete_virtual_server, add_or_update_virtual_server_route, delete_virtual_server_route,
}
use aspenmesh_k3s_multiclust.K8s.Operations.Errors.{report_error-state, report_error-apply_changes}
use aspenmesh_k3s_multiclust.K8s.Operations.Stores.{
  ingress-IsStored, remove_ingress-IsStored, virtual_server-IsStored,
  remove_virtual_server-IsStored,
}
use aspenmesh_k3s_multiclust.K8s.Operations.Requests.{
  Request, put_ingress, drop_ingress, put_virtual_server, drop_virtual_server,
  put_virtual_server_route, drop_virtual_server_route, put_global_configuration,
  drop_global_configuration, put_transport_server, drop_transport_server, is_host_request, handle,
}
use aspenmesh_k3s_multiclust.K8s.Operations.Total.{same_objects, handle-IsSafe}

-- The steps of the controller, each one request; the requests about hosts are those modelled here.
pub data Reachable (env : Settings) : Configuration → Deployed → Type 0 where
  start : Reachable env new_configuration (λ key. none)
  after :
      (c : Configuration) (d : Deployed) (q : Request) (out : Outcome)
      → Reachable env c d
      → is_host_request q ≡ true
      → handle env q c ≡ some out
      → Reachable env (state_of out) (apply_changes (changes_of out) d)

-- The objects are stored under their keys, the hosts are an assignment, and it is what is deployed.
pub record IsCoherent (c : Configuration) (d : Deployed) : Type 0 where
  pub stored : IsStored c
  pub assigned : Assignment ServesHost c.hosts
  pub deployed : Represents d c.hosts

module _ (d : Deployed) where
  -- Whenever the step gives a result, it reaches what is deployed.
  abbrev IsReaching : Option Outcome → Type 0
  IsReaching o = (out : Outcome) → o ≡ some out → Reaches d out

  IsReaching-step :
      (o : Option Outcome) (f : Outcome → Outcome)
      → ((out : Outcome) → state_of (f out) ≡ state_of out)
      → ((out : Outcome) → apply_changes (changes_of (f out)) d ≡ apply_changes (changes_of out) d)
      → IsReaching o
      → IsReaching (o >>= λ out. some (f out))
  IsReaching-step o f same effect h out e =
      let (before, eb, last) = >>=-eq-some o _ e in
      let (assigned, deployed) = h before eb in
      let es = ap state_of (sym (some_inj last)) ∙ same before in
      let ec = ap (λ x. apply_changes (changes_of x) d) (sym (some_inj last)) ∙ effect before in
      (rw es assigned, rw (es, ec) deployed)

  IsReaching-case :
      (b : Bool) (x y : Option Outcome)
      → IsReaching x
      → IsReaching y
      → IsReaching (if b then x else y)
  IsReaching-case true x y h k = h
  IsReaching-case false x y h k = k

  module _ (env : Settings) (c : Configuration) (ok : IsCoherent c d) where
    unchanged : IsReaching (some (c, [], []))
    unfolding apply_changes
    unchanged out e =
        rw (ap state_of (sym (some_inj e)), ap changes_of (sym (some_inj e)))
          (ok.assigned, ok.deployed)

    -- Hosts are rebuilt over other objects.
    rebuilt_over :
        (next : Configuration)
        → next.hosts ≡ c.hosts
        → IsStored next
        → IsReaching (rebuild_hosts env next)
    rebuilt_over next same st out e =
        rebuild_hosts-Reaches env next d out st
          (subst (Assignment ServesHost) (sym same) ok.assigned)
          (subst (Represents d) (sym same) ok.deployed) e

    route_error_state :
        (vsr : _) (err : Option String) (out : Outcome)
        → state_of (report_route_error env vsr err out) ≡ state_of out
    route_error_state vsr none out = refl
    route_error_state vsr (some e) out = refl

    route_error_effect :
        (vsr : _) (err : Option String) (out : Outcome)
        → apply_changes (changes_of (report_route_error env vsr err out)) d
          ≡ apply_changes (changes_of out) d
    route_error_effect vsr none out = refl
    route_error_effect vsr (some e) out = refl

    handle-Reaches : (q : Request) → is_host_request q ≡ true → IsReaching (handle env q c)
    unfolding handle add_or_update_ingress delete_ingress add_or_update_virtual_server
        delete_virtual_server add_or_update_virtual_server_route delete_virtual_server_route
    handle-Reaches (put_ingress ing) h =
        IsReaching-step _ _ (report_error-state _ _ _ _)
          (λ out. report_error-apply_changes _ _ _ _ out d)
          (rebuilt_over _ refl (ingress-IsStored env c ok.stored ing _))
    handle-Reaches (drop_ingress key) h =
        IsReaching-case (is_some (lookup key c.ingresses)) _ _
          (rebuilt_over _ refl (remove_ingress-IsStored env c ok.stored key)) unchanged
    handle-Reaches (put_virtual_server vs) h =
        IsReaching-step _ _ (report_error-state _ _ _ _)
          (λ out. report_error-apply_changes _ _ _ _ out d)
          (rebuilt_over _ refl (virtual_server-IsStored env c ok.stored vs _ _))
    handle-Reaches (drop_virtual_server key) h =
        IsReaching-case (is_some (lookup key c.virtual_servers)) _ _
          (rebuilt_over _ refl (remove_virtual_server-IsStored env c ok.stored key)) unchanged
    handle-Reaches (put_virtual_server_route vsr) h =
        IsReaching-step _ _ (route_error_state vsr _) (route_error_effect vsr _)
          (rebuilt_over _ refl (same_objects c _ refl refl refl ok.stored))
    handle-Reaches (drop_virtual_server_route key) h =
        IsReaching-case (is_some (lookup key c.virtual_server_routes)) _ _
          (rebuilt_over _ refl (same_objects c _ refl refl refl ok.stored)) unchanged
    handle-Reaches (put_global_configuration gc) h = cc
    handle-Reaches drop_global_configuration h = cc
    handle-Reaches (put_transport_server ts) h = cc
    handle-Reaches (drop_transport_server key) h = cc

none-some {ℓ} : {A : Type ℓ} (o : Option A) (a : A) → o ≡ none → o ≢ some a
none-some o a h e = cc

pub new_configuration-IsCoherent : IsCoherent new_configuration (λ key. none)
unfolding lookup
new_configuration-IsCoherent = record {
  stored = record {
    ingress_key = λ k i e. cc;
    ingress_readable = λ k i e. absurd (none-some _ i refl e);
    virtual_server_key = λ k v e. cc;
    transport_server_key = λ k t e. cc;
  };
  assigned = record {
    one = λ name other r s er es k. cc;
    serves = λ name r e. absurd (none-some _ r refl e);
    holds = λ name other r e sv. absurd (none-some _ r refl e);
  };
  deployed = record { present = λ name r e. absurd (none-some _ r refl e); absent = λ k h. refl };
}

-- In every state that requests about Ingresses, VirtualServers and VirtualServerRoutes lead to from
-- NewConfiguration, each object is stored under its own key and each Ingress can be read; the hosts
-- are an assignment in which a key stands for one resource, and a resource holds exactly the hosts
-- that it takes for its own; and what is deployed once the changes of every request have been
-- applied is that assignment: every holder, up to IsEqual, and nothing else.
pub Reachable-IsCoherent :
    (env : Settings) (c : Configuration) (d : Deployed) → Reachable env c d → IsCoherent c d
Reachable-IsCoherent env _ _ start = new_configuration-IsCoherent
Reachable-IsCoherent env _ _ (after c d q out before host e) =
    let ok = Reachable-IsCoherent env c d before in
    let (next, en, st) = handle-IsSafe env q c ok.stored in
    let (assigned, deployed) = handle-Reaches d env c ok q host out e in
    record {
      stored = subst (λ o. IsStored (state_of o)) (some_inj (sym en ∙ e)) st;
      assigned = assigned;
      deployed = deployed;
    }
