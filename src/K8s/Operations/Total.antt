-- ===== src/K8s/Operations/Total.antt =====
-- No operation panics on stored objects, and what it leaves is stored objects again.
use aspenmesh_k3s_multiclust.Prelude.{
  String, ◌≡◌, refl, sym, ap, ◌∙◌, subst, Bool, true, false, Option, none, some, [], ◌>>=◌,
  of_is_some, is_some, if◌then◌else◌,
}
use aspenmesh_k3s_multiclust.Prelude.Dict.{lookup}
use aspenmesh_k3s_multiclust.K8s.Objects.{GlobalConfiguration}
use aspenmesh_k3s_multiclust.K8s.State.{Configuration, Settings, ingress}
use aspenmesh_k3s_multiclust.K8s.Hosts.Stored.{IsStored}
use aspenmesh_k3s_multiclust.K8s.Changes.Create.{create_resource_changes-Created}
use aspenmesh_k3s_multiclust.K8s.Rebuild.{Outcome, rebuild_hosts}
use aspenmesh_k3s_multiclust.K8s.Rebuild.Total.{rebuild_hosts-is_some}
use aspenmesh_k3s_multiclust.K8s.Rebuild.Effect.{state_of, rebuilt}
use aspenmesh_k3s_multiclust.K8s.Listeners.{
  rebuild_listeners, build_listeners_and_ts_configurations, as_resources,
}
use aspenmesh_k3s_multiclust.K8s.Operations.{
  report_route_error, rebuild_listeners_and_hosts, add_or_update_ingress, delete_ingress,
  add_or_update_virtual_server, delete_virtual_server, add_or_update_virtual_server_route,
  delete_virtual_server_route, add_or_update_global_configuration, delete_global_configuration,
  add_or_update_transport_server, delete_transport_server,
}
use aspenmesh_k3s_multiclust.K8s.Operations.Errors.{report_error-state}
use aspenmesh_k3s_multiclust.K8s.Operations.Stores.{
  ingress-IsStored, remove_ingress-IsStored, virtual_server-IsStored,
  remove_virtual_server-IsStored, transport_server-IsStored, remove_transport_server-IsStored,
}
use aspenmesh_k3s_multiclust.K8s.Operations.Requests.{
  Request, put_ingress, drop_ingress, put_virtual_server, drop_virtual_server,
  put_virtual_server_route, drop_virtual_server_route, put_global_configuration,
  drop_global_configuration, put_transport_server, drop_transport_server, handle,
}

-- The step gives a result, and leaves stored objects.
abbrev pub IsSafe : Option Outcome → Type 0
IsSafe o = (out : Outcome) × (o ≡ some out) × IsStored (state_of out)

pub same_objects :
    (c d : Configuration)
    → c.ingresses ≡ d.ingresses
    → c.virtual_servers ≡ d.virtual_servers
    → c.transport_servers ≡ d.transport_servers
    → IsStored c
    → IsStored d
same_objects c d ei ev et st = record {
  ingress_key = λ k i e. st.ingress_key k i (ap (lookup k) ei ∙ e);
  ingress_readable = λ k i e. st.ingress_readable k i (ap (lookup k) ei ∙ e);
  virtual_server_key = λ k v e. st.virtual_server_key k v (ap (lookup k) ev ∙ e);
  transport_server_key = λ k t e. st.transport_server_key k t (ap (lookup k) et ∙ e);
}

rebuild_hosts-IsSafe :
    (env : Settings) (c : Configuration) → IsStored c → IsSafe (rebuild_hosts env c)
rebuild_hosts-IsSafe env c st =
    let (out, e) = of_is_some (rebuild_hosts env c) (rebuild_hosts-is_some env c st) in
    let (hosts, resources, problems, deletes, updates, eb, created, es, ec) = rebuilt env c out e in
    (
      out,
      e,
      same_objects c (state_of out) (ap (λ (x : Configuration). x.ingresses) (sym es))
          (ap (λ (x : Configuration). x.virtual_servers) (sym es))
          (ap (λ (x : Configuration). x.transport_servers) (sym es)) st,
    )

next_step {ℓ} :
    {A : Type ℓ} (o : Option A) (f : A → Option Outcome) (a : A)
    → o ≡ some a
    → IsSafe (f a)
    → IsSafe (o >>= f)
next_step o f a e h = subst (λ x. IsSafe (x >>= f)) (sym e) h

rebuild_listeners-IsSafe : (c : Configuration) → IsStored c → IsSafe (rebuild_listeners c)
unfolding rebuild_listeners
rebuild_listeners-IsSafe c st =
    let (listeners, configs) = build_listeners_and_ts_configurations c in
    let (deletes, updates, ec, created) =
      create_resource_changes-Created (as_resources c.listeners) (as_resources listeners) in
    next_step _ _ _ ec (_, refl, same_objects c _ refl refl refl st)

after_step :
    (o : Option Outcome) (f : Outcome → Outcome)
    → ((out : Outcome) → state_of (f out) ≡ state_of out)
    → IsSafe o
    → IsSafe (o >>= λ out. some (f out))
after_step o f same (out, e, st) = (f out, rw e, subst IsStored (sym (same out)) st)

in_case : (b : Bool) (x y : Option Outcome) → IsSafe x → IsSafe y → IsSafe (if b then x else y)
in_case true x y h k = h
in_case false x y h k = k

module _ (env : Settings) (c : Configuration) (st : IsStored c) where
  nothing_done : IsSafe (some (c, [], []))
  nothing_done = ((c, [], []), refl, st)

  listeners_and_hosts-IsSafe : IsSafe (rebuild_listeners_and_hosts env c)
  unfolding rebuild_listeners_and_hosts
  listeners_and_hosts-IsSafe =
      let (out, e, st1) = rebuild_listeners-IsSafe c st in
      next_step _ _ out e (
        in_case env.is_tls_passthrough_enabled _ _
          (let (more, em, st2) = rebuild_hosts-IsSafe env (state_of out) st1 in
            next_step _ _ more em (_, refl, st2))
          (out, refl, st1))

report_route_error-state :
    (env : Settings) (vsr : _) (err : Option String) (out : Outcome)
    → state_of (report_route_error env vsr err out) ≡ state_of out
report_route_error-state env vsr none out = refl
report_route_error-state env vsr (some e) out = refl

-- From any state with stored objects, each of the ten operations returns a result, and its state has
-- stored objects again.
pub handle-IsSafe :
    (env : Settings) (q : Request) (c : Configuration) → IsStored c → IsSafe (handle env q c)
unfolding handle add_or_update_ingress delete_ingress add_or_update_virtual_server
    delete_virtual_server add_or_update_virtual_server_route delete_virtual_server_route
    add_or_update_global_configuration delete_global_configuration add_or_update_transport_server
    delete_transport_server
handle-IsSafe env (put_ingress ing) c st = after_step _ _ (report_error-state _ _ _ _) (
    rebuild_hosts-IsSafe env _
      (ingress-IsStored env c st ing (env.has_correct_ingress_class (ingress ing))))
handle-IsSafe env (drop_ingress key) c st =
    in_case (is_some (lookup key c.ingresses)) _ _
      (rebuild_hosts-IsSafe env _ (remove_ingress-IsStored env c st key)) (nothing_done env c st)
handle-IsSafe env (put_virtual_server vs) c st =
    after_step _ _ (report_error-state _ _ _ _)
      (rebuild_hosts-IsSafe env _ (virtual_server-IsStored env c st vs _ _))
handle-IsSafe env (drop_virtual_server key) c st =
    in_case (is_some (lookup key c.virtual_servers)) _ _
      (rebuild_hosts-IsSafe env _ (remove_virtual_server-IsStored env c st key))
      (nothing_done env c st)
handle-IsSafe env (put_virtual_server_route vsr) c st =
    after_step _ _ (report_route_error-state env vsr _)
      (rebuild_hosts-IsSafe env _ (same_objects c _ refl refl refl st))
handle-IsSafe env (drop_virtual_server_route key) c st =
    in_case (is_some (lookup key c.virtual_server_routes)) _ _
      (rebuild_hosts-IsSafe env _ (same_objects c _ refl refl refl st)) (nothing_done env c st)
handle-IsSafe env (put_global_configuration gc) c st =
    let gc_or_nil : Option GlobalConfiguration = elim (env.validate_global_configuration gc) [
      | none ↦ some gc
      | some e ↦ none
    ] in
    let (out, e, st1) =
      rebuild_listeners-IsSafe (record c { global_configuration = gc_or_nil })
        (same_objects c _ refl refl refl st) in
    next_step _ (λ x. some x.0) (out, env.validate_global_configuration gc)
      (ap (λ o. o >>= λ x. some (x, env.validate_global_configuration gc)) e) (out, refl, st1)
handle-IsSafe env drop_global_configuration c st =
    rebuild_listeners-IsSafe _ (same_objects c _ refl refl refl st)
handle-IsSafe env (put_transport_server ts) c st =
    after_step _ _ (report_error-state _ _ _ _)
      (listeners_and_hosts-IsSafe env _ (transport_server-IsStored env c st ts _ _))
handle-IsSafe env (drop_transport_server key) c st =
    in_case (is_some (lookup key c.transport_servers)) _ _
      (listeners_and_hosts-IsSafe env _ (remove_transport_server-IsStored env c st key))
      (nothing_done env c st)
