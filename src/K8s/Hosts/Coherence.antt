-- ===== src/K8s/Hosts/Coherence.antt =====
-- buildHostsAndResources: it does not panic, and what it builds is an assignment of hosts.
use aspenmesh_k3s_multiclust.Prelude.{
  String, ◌≡◌, refl, sym, ap, ◌∙◌, inl, inr, Bool, true, none, some, List, [], ◌∷◌, some_inj, arith,
  bool_eq, Elem, traverse, is_some, is_some->>=,
}
use aspenmesh_k3s_multiclust.Prelude.Dict.{Dict, lookup, deep_equal-lookup}
use aspenmesh_k3s_multiclust.Prelude.Traversal.{at_value, lookup-traverse, traverse-lookup}
use aspenmesh_k3s_multiclust.K8s.Resource.{
  IngressConfiguration, Resource, ingress_conf, virtual_server_conf, transport_server_conf,
  get_key_with_kind, is_equal, ingress_is_equal,
}
use aspenmesh_k3s_multiclust.K8s.Resource.Keys.{kind_of}
use aspenmesh_k3s_multiclust.K8s.State.{Configuration, Settings}
use aspenmesh_k3s_multiclust.K8s.Changes.Refine.{Assignment}
use aspenmesh_k3s_multiclust.K8s.Hosts.{new_resources, claimed_hosts, finish, by_key}
use aspenmesh_k3s_multiclust.K8s.Hosts.Stored.{IsStored, ingress_configuration-ingress}
use aspenmesh_k3s_multiclust.K8s.Hosts.Source.{
  Source, from_ingress, from_virtual_server, from_transport_server, new_resources-Source,
  Source-one, virtual_server_resource-kind,
}
use aspenmesh_k3s_multiclust.K8s.Hosts.Claims.{settled, entry-Elem, holder-Elem, claimed-holder}
use aspenmesh_k3s_multiclust.K8s.Hosts.Finish.{
  Finished, an_ingress, a_virtual_server, a_transport_server, finish-Finished, finish-some,
  Finished-key, mark_valid_hosts-true, mark_valid_hosts-held,
}

-- The host that a resource takes for its own: one marked valid, or that of the spec.
abbrev pub ServesHost : Resource → String → Type 0
ServesHost (ingress_conf ic) host = lookup host ic.valid_hosts ≡ some true
ServesHost (virtual_server_conf vsc) host = vsc.virtual_server.host ≡ host
ServesHost (transport_server_conf tsc) host = tsc.transport_server.host ≡ host

abbrev valid_hosts_of : Resource → Dict Bool
valid_hosts_of (ingress_conf ic) = ic.valid_hosts
valid_hosts_of (virtual_server_conf vsc) = []
valid_hosts_of (transport_server_conf tsc) = []

valid_hosts_equal :
    (ic jc : IngressConfiguration) (host : String)
    → ingress_is_equal ic jc ≡ true
    → lookup host ic.valid_hosts ≡ some true
    → lookup host jc.valid_hosts ≡ some true
unfolding ingress_is_equal
valid_hosts_equal ic jc host h e =
    let (w, ew, same) =
      deep_equal-lookup bool_eq ic.valid_hosts jc.valid_hosts host true (ground arith) e in
    ew ∙ ap some same

-- Equal resources that share a host serve the same hosts.
pub ServesHost-equal :
    (r s : Resource) (name other : String)
    → is_equal r s ≡ true
    → ServesHost r name
    → ServesHost s name
    → ServesHost r other
    → ServesHost s other
unfolding is_equal
ServesHost-equal (ingress_conf ic) (ingress_conf jc) name other h a b c =
    valid_hosts_equal ic jc other h c
ServesHost-equal (virtual_server_conf v) (virtual_server_conf w) name other h a b c = b ∙ sym a ∙ c
ServesHost-equal (transport_server_conf t) (transport_server_conf u) name other h a b c =
    b ∙ sym a ∙ c
ServesHost-equal _ _ name other h a b c = cc

empty_lookup : (host : String) → lookup {V = Bool} host [] ≡ none
unfolding lookup
empty_lookup host = refl

-- The resource of an Ingress has no marks before the contest.
unmarked :
    (env : Settings) (c : Configuration) (ic : IngressConfiguration)
    → Source env c (ingress_conf ic)
    → ic.valid_hosts ≡ []
unmarked env c ic (from_ingress k ing jc ek ei p) =
    ap valid_hosts_of p ∙ (ingress_configuration-ingress c ing jc ei).1
unmarked env c ic (from_virtual_server k vs ek p) =
    cc (ap kind_of p, virtual_server_resource-kind env c vs)
unmarked env c ic (from_transport_server k ts ek p) = cc (ap kind_of p)

module _ (env : Settings) (c : Configuration) (st : IsStored c) (rs : List Resource)
    (found : new_resources env c ≡ some rs) where
  pub finish_holder :
      (host : String) (r : Resource)
      → Elem (host, r) (settled rs).holders
      → is_some (finish (settled rs) r) ≡ true
  finish_holder host r m =
      let (mr, mh) = entry-Elem rs host r m in
      finish-some (settled rs) r (λ h n. claimed-holder rs r h mr n)

  pub by_key-some :
      (qs : List Resource) (m : Dict Resource)
      → ((r : Resource) → Elem r qs → Elem r rs)
      → is_some (by_key (settled rs) qs m) ≡ true
  unfolding by_key
  by_key-some [] m h = refl
  by_key-some (r ∷ qs) m h =
      is_some->>= (finish (settled rs) r) _
        (finish-some (settled rs) r (λ host n. claimed-holder rs r host (h r (inl refl)) n))
        (λ done. by_key-some qs _ (λ q n. h q (inr n)))

  -- The holder of a host, finished, is about the resource that won it, and so is its key.
  module _ (hosts : Dict Resource)
      (built : traverse (at_value (finish (settled rs))) (settled rs).holders ≡ some hosts) where
    holder_of :
        (host : String) (done : Resource)
        → lookup host hosts ≡ some done
        → (r : Resource) × (lookup host (settled rs).holders ≡ some r)
          × (finish (settled rs) r ≡ some done)
          × Elem r rs
          × Elem host (claimed_hosts r)
    holder_of host done e =
        let (r, er, fr) =
          lookup-traverse (finish (settled rs)) (settled rs).holders hosts host done built e in
        let (mr, mh) = holder-Elem rs host r er in (r, er, fr, mr, mh)

    one_resource :
        (name other : String) (d e : Resource)
        → lookup name hosts ≡ some d
        → lookup other hosts ≡ some e
        → get_key_with_kind d ≡ get_key_with_kind e
        → d ≡ e
    one_resource name other d e ed ee same =
        let (r, er, fr, mr, mh) = holder_of name d ed in
        let (s, es, fs, ms, mo) = holder_of other e ee in
        let keys =
          sym (Finished-key (finish-Finished (settled rs) r d fr))
          ∙ same
          ∙ Finished-key (finish-Finished (settled rs) s e fs) in
        let one =
          Source-one env c r s st (new_resources-Source env c rs r found mr)
            (new_resources-Source env c rs s found ms) keys in
        some_inj (sym fr ∙ ap (finish (settled rs)) one ∙ fs)

    serves_held :
        (host : String) (r done : Resource)
        → lookup host (settled rs).holders ≡ some r
        → Elem host (claimed_hosts r)
        → Finished (settled rs) r done
        → ServesHost done host
    unfolding claimed_hosts
    serves_held host r done er mh (an_ingress ic ws valid marked) =
        mark_valid_hosts-held (settled rs).holders (get_key_with_kind (ingress_conf ic))
          ic.ingress.rules ic.valid_hosts valid host (ingress_conf ic) marked er refl (inr mh)
    serves_held host r done er (inl e) (a_virtual_server vsc ws) = sym e
    serves_held host r done er (inr m) (a_virtual_server vsc ws) = elim m [ ]
    serves_held host r done er (inl e) (a_transport_server tsc ws) = sym e
    serves_held host r done er (inr m) (a_transport_server tsc ws) = elim m [ ]

    -- A raw holder is found under the same name, finished.
    finished_holder :
        (host : String) (r : Resource)
        → lookup host (settled rs).holders ≡ some r
        → (done : Resource) × (lookup host hosts ≡ some done)
          × (get_key_with_kind done ≡ get_key_with_kind r)
    finished_holder host r e =
        let (done, ed, fd) =
          traverse-lookup (finish (settled rs)) (settled rs).holders hosts host r built e in
        (done, ed, Finished-key (finish-Finished (settled rs) r done fd))

    raw_holder :
        (name other : String) (r done : Resource)
        → lookup name (settled rs).holders ≡ some r
        → Elem name (claimed_hosts r)
        → Source env c r
        → Finished (settled rs) r done
        → ServesHost done other
        → (q : Resource) × (lookup other (settled rs).holders ≡ some q)
          × (get_key_with_kind q ≡ get_key_with_kind r)
    unfolding claimed_hosts
    raw_holder name other r done er mh src (an_ingress ic ws valid marked) sv =
        elim (mark_valid_hosts-true (settled rs).holders (get_key_with_kind (ingress_conf ic))
          ic.ingress.rules ic.valid_hosts valid other marked sv) [
            | inr held ↦ held
            | inl before ↦ cc (before, unmarked env c ic src, empty_lookup other)
          ]
    raw_holder name other r done er (inl e) src (a_virtual_server vsc ws) sv =
        (r, ap (λ h. lookup h (settled rs).holders) (sym (e ∙ sv)) ∙ er, refl)
    raw_holder name other r done er (inr m) src (a_virtual_server vsc ws) sv = elim m [ ]
    raw_holder name other r done er (inl e) src (a_transport_server tsc ws) sv =
        (r, ap (λ h. lookup h (settled rs).holders) (sym (e ∙ sv)) ∙ er, refl)
    raw_holder name other r done er (inr m) src (a_transport_server tsc ws) sv = elim m [ ]

    holds_served :
        (name other : String) (done : Resource)
        → lookup name hosts ≡ some done
        → ServesHost done other
        → (s : Resource) × (lookup other hosts ≡ some s)
          × (get_key_with_kind s ≡ get_key_with_kind done)
    holds_served name other done e sv =
        let (r, er, fr, mr, mh) = holder_of name done e in
        let fin = finish-Finished (settled rs) r done fr in
        let (q, eq, kq) =
          raw_holder name other r done er mh (new_resources-Source env c rs r found mr) fin sv in
        let (s, es, ks) = finished_holder other q eq in (s, es, ks ∙ kq ∙ sym (Finished-key fin))

    pub hosts-Assignment : Assignment ServesHost hosts
    hosts-Assignment = record {
      one = one_resource;
      serves = λ name done e.
          let (r, er, fr, mr, mh) = holder_of name done e in
          serves_held name r done er mh (finish-Finished (settled rs) r done fr);
      holds = holds_served;
    }
