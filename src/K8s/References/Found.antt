-- ===== src/K8s/References/Found.antt =====
-- What the queries find: every holder that references the resource, and nothing else.
use aspenmesh_k3s_multiclust.Prelude.{
  String, ◌≡◌, ◌↔◌, sym, subst, ◌⊎◌, inl, inr, Bool, true, false, some, List, ◌++◌, map, Elem,
  Elem-append, Elem-append_left, Elem-append_right, Elem-keep, keep-Elem, keep, Elem-map, map-Elem,
  any-Elem, Elem-any, Bool-cases, refl, ◌||◌,
}
use aspenmesh_k3s_multiclust.Prelude.Dict.{lookup}
use aspenmesh_k3s_multiclust.Prelude.Sorting.{sorted_values, sorted_values-Elem, Elem-sorted_values}
use aspenmesh_k3s_multiclust.K8s.Objects.{VirtualServerRoute}
use aspenmesh_k3s_multiclust.K8s.Resource.{
  MinionConfiguration, IngressConfiguration, VirtualServerConfiguration,
  TransportServerConfiguration, Resource, ingress_conf, virtual_server_conf, transport_server_conf,
}
use aspenmesh_k3s_multiclust.K8s.State.{Configuration}
use aspenmesh_k3s_multiclust.K8s.References.{
  ResourceReferenceChecker, is_referenced_by, find_resources_for_resource_reference,
}

-- The resource holds a host or a listener.
abbrev pub IsActive : Configuration → Resource → Type 0
IsActive c r =
    ((host : String) × (lookup host c.hosts ≡ some r))
    ⊎ ((listener : String) × (tsc : TransportServerConfiguration) × (lookup listener c.listeners
          ≡ some tsc)
        × (r ≡ transport_server_conf tsc))

module _ (checker : ResourceReferenceChecker) (namespace name : String) where
  -- The object of a resource references the named one, or that of one of its parts does.
  pub data References : Resource → Type 0 where
    by_ingress :
        (ic : IngressConfiguration)
        → checker.is_referenced_by_ingress namespace name ic.ingress ≡ true
        → References (ingress_conf ic)
    by_minion :
        (ic : IngressConfiguration) (m : MinionConfiguration)
        → Elem m ic.minions
        → checker.is_referenced_by_minion namespace name m.ingress ≡ true
        → References (ingress_conf ic)
    by_virtual_server :
        (vsc : VirtualServerConfiguration)
        → checker.is_referenced_by_virtual_server namespace name vsc.virtual_server ≡ true
        → References (virtual_server_conf vsc)
    by_route :
        (vsc : VirtualServerConfiguration) (vsr : VirtualServerRoute)
        → Elem vsr vsc.virtual_server_routes
        → checker.is_referenced_by_virtual_server_route namespace name vsr ≡ true
        → References (virtual_server_conf vsc)
    by_transport_server :
        (tsc : TransportServerConfiguration)
        → checker.is_referenced_by_transport_server namespace name tsc.transport_server ≡ true
        → References (transport_server_conf tsc)

  is_referenced_by-References :
      (r : Resource) → is_referenced_by checker namespace name r ≡ true → References r
  unfolding is_referenced_by
  is_referenced_by-References (ingress_conf ic) h =
      elim (Bool-cases (checker.is_referenced_by_ingress namespace name ic.ingress)) [
        | inl e ↦ by_ingress ic e
        | inr e ↦ let (m, k, t) = any-Elem _ ic.minions (rw e at h) in by_minion ic m k t
      ]
  is_referenced_by-References (virtual_server_conf vsc) h =
      elim (Bool-cases
        (checker.is_referenced_by_virtual_server namespace name vsc.virtual_server)) [
          | inl e ↦ by_virtual_server vsc e
          | inr e ↦
              let (vsr, k, t) = any-Elem _ vsc.virtual_server_routes (rw e at h) in
              by_route vsc vsr k t
        ]
  is_referenced_by-References (transport_server_conf tsc) h = by_transport_server tsc h

  either_true : (b c : Bool) → c ≡ true → (b || c) ≡ true
  either_true true c h = refl
  either_true false c h = h

  References-is_referenced_by :
      (r : Resource) → References r → is_referenced_by checker namespace name r ≡ true
  unfolding is_referenced_by
  References-is_referenced_by _ (by_ingress ic h) = rw h refl
  References-is_referenced_by _ (by_minion ic m k h) = either_true _ _ (
      Elem-any
        (λ (n : MinionConfiguration). checker.is_referenced_by_minion namespace name n.ingress) m
        ic.minions k h)
  References-is_referenced_by _ (by_virtual_server vsc h) = rw h refl
  References-is_referenced_by _ (by_route vsc vsr k h) = either_true _ _ (
      Elem-any (checker.is_referenced_by_virtual_server_route namespace name) vsr
        vsc.virtual_server_routes k h)
  References-is_referenced_by _ (by_transport_server tsc h) = h

-- For every checker, a resource is found exactly when it holds a host or a listener, and the checker
-- says that its Ingress or one of its minions, its VirtualServer or one of its VirtualServerRoutes,
-- or its TransportServer references the named object.
pub find_resources_for_resource_reference_lem :
    (checker : ResourceReferenceChecker) (namespace name : String) (c : Configuration)
    (r : Resource)
    → Elem r (find_resources_for_resource_reference checker namespace name c)
      ↔ (IsActive c r × References checker namespace name r)
unfolding find_resources_for_resource_reference
find_resources_for_resource_reference_lem checker namespace name c r = (
  λ m. elim (Elem-append r (keep test (sorted_values c.hosts)) (keep test listening) m) [
    | inl n ↦
        let (k, t) = Elem-keep test r (sorted_values c.hosts) n in
        (
          inl (sorted_values-Elem c.hosts r k),
          is_referenced_by-References checker namespace name r t,
        )
    | inr n ↦
        let (k, t) = Elem-keep test r listening n in
        let (tsc, mt, e) = Elem-map transport_server_conf r (sorted_values c.listeners) k in
        let (listener, en) = sorted_values-Elem c.listeners tsc mt in
        (inr (listener, tsc, en, e), is_referenced_by-References checker namespace name r t)
  ],
  λ found. back found.0 (References-is_referenced_by checker namespace name r found.1),
)
  where
    test : Resource → Bool
    test = is_referenced_by checker namespace name

    listening : List Resource
    listening = map transport_server_conf (sorted_values c.listeners)

    back :
        IsActive c r
        → test r ≡ true
        → Elem r (keep test (sorted_values c.hosts) ++ keep test listening)
    back (inl (host, e)) t =
        Elem-append_left r (keep test (sorted_values c.hosts)) (keep test listening)
          (keep-Elem test r (sorted_values c.hosts) (Elem-sorted_values c.hosts host r e) t)
    back (inr (name, tsc, e, p)) t =
        Elem-append_right r (keep test (sorted_values c.hosts)) (keep test listening) (
          keep-Elem test r listening
            (subst (λ x. Elem x listening) (sym p)
              (map-Elem transport_server_conf tsc (sorted_values c.listeners)
                (Elem-sorted_values c.listeners name tsc e)))
            t)
