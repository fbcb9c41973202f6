-- ===== src/K8s/Hosts/Source.antt =====
-- Which stored object a resource comes from, and that a key names one resource.
use aspenmesh_k3s_multiclust.Prelude.{
  String, ◌≡◌, refl, sym, ap, ◌∙◌, subst, ◌⊎◌, inl, inr, true, false, not, some, List, [], ◌∷◌,
  ◌++◌, map, >>=-eq-some, some_inj, Elem, Elem-append, Elem-map, Elem-keep, keep, Bool-cases,
}
use aspenmesh_k3s_multiclust.Prelude.Dict.{lookup}
use aspenmesh_k3s_multiclust.Prelude.Sorting.{sorted_values, sorted_values-Elem}
use aspenmesh_k3s_multiclust.K8s.Objects.{
  Ingress, VirtualServer, TransportServer, is_minion, get_resource_key,
}
use aspenmesh_k3s_multiclust.K8s.Resource.{
  IngressConfiguration, Resource, ingress_conf, transport_server_conf, get_key_with_kind,
  get_object_meta, new_transport_server_configuration,
}
use aspenmesh_k3s_multiclust.K8s.Resource.Keys.{a_virtual_server, kind_of, get_key_with_kind_inj}
use aspenmesh_k3s_multiclust.K8s.State.{Configuration, Settings}
use aspenmesh_k3s_multiclust.K8s.Hosts.{
  ingress_configuration, ingress_resources, virtual_server_resource, is_skipped,
  transport_server_resources, new_resources,
}
use aspenmesh_k3s_multiclust.K8s.Hosts.Stored.{IsStored, ingress_configuration-ingress}

-- Where a resource comes from.
pub data Source (env : Settings) (c : Configuration) (r : Resource) : Type 0 where
  from_ingress :
      (k : String) (ing : Ingress) (ic : IngressConfiguration)
      → lookup k c.ingresses ≡ some ing
      → ingress_configuration c ing ≡ some ic
      → r ≡ ingress_conf ic
      → Source env c r
  from_virtual_server :
      (k : String) (vs : VirtualServer)
      → lookup k c.virtual_servers ≡ some vs
      → r ≡ virtual_server_resource env c vs
      → Source env c r
  from_transport_server :
      (k : String) (ts : TransportServer)
      → lookup k c.transport_servers ≡ some ts
      → r ≡ transport_server_conf (new_transport_server_configuration ts)
      → Source env c r

abbrev FromIngress : Configuration → List Ingress → Resource → Type 0
FromIngress c ings r =
    (ing : Ingress) × (ic : IngressConfiguration) × Elem ing ings
    × (ingress_configuration c ing ≡ some ic)
    × (r ≡ ingress_conf ic)

later_ingress :
    (c : Configuration) (ing : Ingress) (ings : List Ingress) (r : Resource)
    → FromIngress c ings r
    → FromIngress c (ing ∷ ings) r
later_ingress c ing ings r (i, ic, m, e, p) = (i, ic, inr m, e, p)

ingress_resources-Elem :
    (c : Configuration) (ings : List Ingress) (rs : List Resource) (r : Resource)
    → ingress_resources c ings ≡ some rs
    → Elem r rs
    → FromIngress c ings r
unfolding ingress_resources
ingress_resources-Elem c [] rs r e m = elim (subst (Elem r) (sym (some_inj e)) m) [ ]
ingress_resources-Elem c (ing ∷ ings) rs r e m =
    split (Bool-cases (is_minion ing)) (λ rs e m. ingress_resources-Elem c ings rs r e m)
  where
    pick :
        (ic : IngressConfiguration) (qs : List Resource)
        → ingress_configuration c ing ≡ some ic
        → (Elem r qs → FromIngress c ings r)
        → Elem r (ingress_conf ic ∷ qs)
        → FromIngress c (ing ∷ ings) r
    pick ic qs ei rec (inl p) = (ing, ic, inl refl, ei, p)
    pick ic qs ei rec (inr n) = later_ingress c ing ings r (rec n)

    split :
        (is_minion ing ≡ true) ⊎ (is_minion ing ≡ false)
        → ((rs : List Resource)
            → ingress_resources c ings ≡ some rs
            → Elem r rs
            → FromIngress c ings r)
        → FromIngress c (ing ∷ ings) r
    split (inl t) rec = later_ingress c ing ings r (rec rs (rw t at e) m)
    split (inr t) rec =
        let (ic, ei, rest) = >>=-eq-some (ingress_configuration c ing) _ (rw t at e) in
        let (qs, eq, last) = >>=-eq-some (ingress_resources c ings) _ rest in
        pick ic qs ei (rec qs eq) (subst (Elem r) (sym (some_inj last)) m)

transport_server_resources-Elem :
    (env : Settings) (c : Configuration) (r : Resource)
    → Elem r (transport_server_resources env c)
    → Source env c r
unfolding transport_server_resources
transport_server_resources-Elem env c r m = by_flag (Bool-cases env.is_tls_passthrough_enabled) m
  where
    kept : List TransportServer
    kept = keep (λ ts. not (is_skipped env ts)) (sorted_values c.transport_servers)

    by_flag :
        (env.is_tls_passthrough_enabled ≡ true) ⊎ (env.is_tls_passthrough_enabled ≡ false)
        → Elem r (transport_server_resources env c)
        → Source env c r
    by_flag (inr off) m = let m' : Elem r [] = (rw off at m) in elim m' [ ]
    by_flag (inl on) m =
        let m' : Elem r
            (map (λ ts. transport_server_conf (new_transport_server_configuration ts)) kept) =
          (rw on at m) in
        let (ts, mts, e) =
          Elem-map (λ ts. transport_server_conf (new_transport_server_configuration ts)) r kept
            m' in
        let (k, ek) =
          sorted_values-Elem c.transport_servers ts
            (Elem-keep (λ ts. not (is_skipped env ts)) ts (sorted_values c.transport_servers)
              mts).0 in
        from_transport_server k ts ek e

-- Every resource comes from a stored object.
pub new_resources-Source :
    (env : Settings) (c : Configuration) (rs : List Resource) (r : Resource)
    → new_resources env c ≡ some rs
    → Elem r rs
    → Source env c r
unfolding new_resources
new_resources-Source env c rs r e m =
    let (qs, eq, last) = >>=-eq-some (ingress_resources c (sorted_values c.ingresses)) _ e in
    elim (Elem-append r (qs ++ vss) (transport_server_resources env c)
      (subst (Elem r) (sym (some_inj last)) m)) [
        | inr n ↦ transport_server_resources-Elem env c r n
        | inl n ↦ elim (Elem-append r qs vss n) [
          | inl o ↦
              let (ing, ic, mi, ei, p) =
                ingress_resources-Elem c (sorted_values c.ingresses) qs r eq o in
              let (k, ek) = sorted_values-Elem c.ingresses ing mi in from_ingress k ing ic ek ei p
          | inr o ↦
              let (vs, mv, p) =
                Elem-map (virtual_server_resource env c) r (sorted_values c.virtual_servers) o in
              let (k, ek) = sorted_values-Elem c.virtual_servers vs mv in
              from_virtual_server k vs ek p
        ]
      ]
  where
    vss : List Resource
    vss = map (virtual_server_resource env c) (sorted_values c.virtual_servers)

ingress_one :
    (c : Configuration) (st : IsStored c) (k l : String) (ing jng : Ingress)
    (ic jc : IngressConfiguration)
    → lookup k c.ingresses ≡ some ing
    → lookup l c.ingresses ≡ some jng
    → ingress_configuration c ing ≡ some ic
    → ingress_configuration c jng ≡ some jc
    → get_resource_key ic.ingress.meta ≡ get_resource_key jc.ingress.meta
    → ic ≡ jc
ingress_one c st k l ing jng ic jc ek el ei ej same =
    let pi = (ingress_configuration-ingress c ing ic ei).0 in
    let pj = (ingress_configuration-ingress c jng jc ej).0 in
    let keys =
      sym (st.ingress_key k ing ek)
      ∙ ap (λ (i : Ingress). get_resource_key i.meta) (sym pi)
      ∙ same
      ∙ ap (λ (i : Ingress). get_resource_key i.meta) pj
      ∙ st.ingress_key l jng el in
    let one = some_inj (sym ek ∙ ap (λ j. lookup j c.ingresses) keys ∙ el) in
    some_inj (sym ei ∙ ap (ingress_configuration c) one ∙ ej)

pub virtual_server_resource-kind :
    (env : Settings) (c : Configuration) (vs : VirtualServer)
    → kind_of (virtual_server_resource env c vs) ≡ a_virtual_server
unfolding virtual_server_resource
virtual_server_resource-kind env c vs = refl

-- The namespace/name of the object of a resource.
abbrev pub own_key : Resource → String
own_key r = get_resource_key (get_object_meta r)

virtual_server_own_key :
    (env : Settings) (c : Configuration) (vs : VirtualServer)
    → own_key (virtual_server_resource env c vs) ≡ get_resource_key vs.meta
unfolding virtual_server_resource
virtual_server_own_key env c vs = refl

-- Two resources with one key are one resource.
pub Source-one :
    (env : Settings) (c : Configuration) (r s : Resource)
    → IsStored c
    → Source env c r
    → Source env c s
    → get_key_with_kind r ≡ get_key_with_kind s
    → r ≡ s
Source-one env c r s st a b e = both a b (get_key_with_kind_inj r s e)
  where
    both :
        Source env c r → Source env c s → (kind_of r ≡ kind_of s) × (own_key r ≡ own_key s) → r ≡ s
    both (from_ingress k ing ic ek ei p) (from_ingress l jng jc el ej q) (kinds, same) =
        p
        ∙ ap ingress_conf (
            ingress_one c st k l ing jng ic jc ek el ei ej
              (sym (ap own_key p) ∙ same ∙ ap own_key q))
        ∙ sym q
    both (from_virtual_server k vs ek p) (from_virtual_server l ws el q) (kinds, same) =
        let keys =
          sym (st.virtual_server_key k vs ek)
          ∙ sym (virtual_server_own_key env c vs)
          ∙ sym (ap own_key p)
          ∙ same
          ∙ ap own_key q
          ∙ virtual_server_own_key env c ws
          ∙ st.virtual_server_key l ws el in
        let one = some_inj (sym ek ∙ ap (λ j. lookup j c.virtual_servers) keys ∙ el) in
        p ∙ ap (virtual_server_resource env c) one ∙ sym q
    both (from_transport_server k ts ek p) (from_transport_server l us el q) (kinds, same) =
        let keys =
          sym (st.transport_server_key k ts ek)
          ∙ sym (ap own_key p)
          ∙ same
          ∙ ap own_key q
          ∙ st.transport_server_key l us el in
        let one = some_inj (sym ek ∙ ap (λ j. lookup j c.transport_servers) keys ∙ el) in
        p ∙ ap (λ t. transport_server_conf (new_transport_server_configuration t)) one ∙ sym q
    both (from_ingress k ing ic ek ei p) (from_virtual_server l ws el q) (kinds, same) =
        cc (ap kind_of p, ap kind_of q, kinds, virtual_server_resource-kind env c ws)
    both (from_ingress k ing ic ek ei p) (from_transport_server l us el q) (kinds, same) =
        cc (ap kind_of p, ap kind_of q, kinds)
    both (from_virtual_server k vs ek p) (from_ingress l jng jc el ej q) (kinds, same) =
        cc (ap kind_of p, ap kind_of q, kinds, virtual_server_resource-kind env c vs)
    both (from_virtual_server k vs ek p) (from_transport_server l us el q) (kinds, same) =
        cc (ap kind_of p, ap kind_of q, kinds, virtual_server_resource-kind env c vs)
    both (from_transport_server k ts ek p) (from_ingress l jng jc el ej q) (kinds, same) =
        cc (ap kind_of p, ap kind_of q, kinds)
    both (from_transport_server k ts ek p) (from_virtual_server l ws el q) (kinds, same) =
        cc (ap kind_of p, ap kind_of q, kinds, virtual_server_resource-kind env c ws)
