-- ===== src/K8s/Hosts/Priority.antt =====
-- buildHostsAndResources: the oldest of the resources that ask for a host holds it.
use aspenmesh_k3s_multiclust.Prelude.{
  String, ◌≡◌, refl, sym, ap, ◌∙◌, subst, ◌⊎◌, inl, inr, true, some, List, [], some_inj, Elem,
  of_is_some,
}
use aspenmesh_k3s_multiclust.Prelude.Dict.{Dict, lookup, lookup-values}
use aspenmesh_k3s_multiclust.Prelude.Traversal.{traverse-lookup}
use aspenmesh_k3s_multiclust.K8s.Resource.{Resource, get_key_with_kind, get_object_meta, wins}
use aspenmesh_k3s_multiclust.K8s.State.{Configuration, Settings}
use aspenmesh_k3s_multiclust.K8s.Contest.{Contest}
use aspenmesh_k3s_multiclust.K8s.Hosts.{
  new_resources, claimed_hosts, finish, by_key, build_hosts_and_resources,
}
use aspenmesh_k3s_multiclust.K8s.Hosts.Stored.{IsStored}
use aspenmesh_k3s_multiclust.K8s.Hosts.Source.{new_resources-Source, Source-one}
use aspenmesh_k3s_multiclust.K8s.Hosts.Claims.{settled, claimed-holder, holder-Elem}
use aspenmesh_k3s_multiclust.K8s.Hosts.Finish.{
  Finished, an_ingress, a_virtual_server, a_transport_server, finish-Finished, finish-some,
  Finished-claimed_hosts,
}
use aspenmesh_k3s_multiclust.K8s.Hosts.Built.{built, by_key-held, by_key-values}
use aspenmesh_k3s_multiclust.K8s.Hosts.Oldest.{uid_of, HasUniqueUids, holder_wins}

Finished-meta :
    {s : Contest Resource} {r done : Resource}
    → Finished s r done
    → get_object_meta done ≡ get_object_meta r
Finished-meta (an_ingress ic ws valid e) = refl
Finished-meta (a_virtual_server vsc ws) = refl
Finished-meta (a_transport_server tsc ws) = refl

-- No two resources have one UID.
abbrev pub OneForEachUid : Dict Resource → Type 0
OneForEachUid resources =
    (k l : String) (r s : Resource)
    → lookup k resources ≡ some r
    → lookup l resources ≡ some s
    → uid_of r ≡ uid_of s
    → k ≡ l

module _ (env : Settings) (c : Configuration) (resources : Dict Resource) (rs : List Resource)
    (st : IsStored c) (found : new_resources env c ≡ some rs)
    (entered : by_key (settled rs) rs [] ≡ some resources) (unique : OneForEachUid resources) where
  -- A resource of the list is found under its key, finished.
  entered-found :
      (r : Resource)
      → Elem r rs
      → (done : Resource) × (finish (settled rs) r ≡ some done)
        × (lookup (get_key_with_kind r) resources ≡ some done)
  entered-found r m =
      let (done, fr) =
        of_is_some (finish (settled rs) r)
          (finish-some (settled rs) r (λ h n. claimed-holder rs r h m n)) in
      (
        done,
        fr,
        by_key-held (settled rs) r done rs [] resources fr
            (λ q mq k.
              Source-one env c q r st (new_resources-Source env c rs q found mq)
                (new_resources-Source env c rs r found m) k)
            entered (inr m),
      )

  rs-HasUniqueUids : HasUniqueUids rs
  rs-HasUniqueUids r s mr ms same =
      let (done_r, fr, er) = entered-found r mr in
      let (done_s, fs, es) = entered-found s ms in
      let uid_r = ap (λ m. m.uid) (Finished-meta (finish-Finished (settled rs) r done_r fr)) in
      let uid_s = ap (λ m. m.uid) (Finished-meta (finish-Finished (settled rs) s done_s fs)) in
      Source-one env c r s st (new_resources-Source env c rs r found mr)
        (new_resources-Source env c rs s found ms)
        (unique (get_key_with_kind r) (get_key_with_kind s) done_r done_s er es
          (uid_r ∙ same ∙ sym uid_s))

  oldest_of :
      (hosts : Dict Resource) (r q : Resource) (host : String)
      → ((v w : Resource)
          → lookup host (settled rs).holders ≡ some v
          → finish (settled rs) v ≡ some w
          → lookup host hosts ≡ some w)
      → Elem q rs
      → finish (settled rs) q ≡ some r
      → Elem host (claimed_hosts r)
      → (h : Resource) × (lookup host hosts ≡ some h) × ((h ≡ r) ⊎ (wins h r ≡ true))
  unfolding wins
  oldest_of hosts r q host assigned mq fq asked =
      let fin_q = finish-Finished (settled rs) q r fq in
      let (v, ev, best) =
        holder_wins rs rs-HasUniqueUids q host mq
          (subst (Elem host) (Finished-claimed_hosts fin_q) asked) in
      let (w, fw, ew) = entered-found v (holder-Elem rs host v ev).0 in
      let fin_v = finish-Finished (settled rs) v w fw in
      (
        w,
        assigned v w ev fw,
        elim best [
          | inl e ↦ inl (some_inj (sym fw ∙ ap (finish (settled rs)) e ∙ fq))
          | inr e ↦ inr (rw (Finished-meta fin_v, Finished-meta fin_q) e)
        ],
      )

-- When objects are stored under their keys and no UID occurs twice among the resources, every host
-- that a resource asks for is assigned, to the resource itself or to one that wins against it.
pub build_hosts_and_resources-oldest :
    (env : Settings) (c : Configuration) (hosts resources : Dict Resource) (k : String)
    (r : Resource) (host : String)
    → IsStored c
    → build_hosts_and_resources env c ≡ some (hosts, resources)
    → OneForEachUid resources
    → lookup k resources ≡ some r
    → Elem host (claimed_hosts r)
    → (h : Resource) × (lookup host hosts ≡ some h) × ((h ≡ r) ⊎ (wins h r ≡ true))
build_hosts_and_resources-oldest env c hosts resources k r host st e unique er asked =
    let (rs, found, eh, en) = built env c hosts resources e in
    elim (by_key-values (settled rs) r rs [] resources en (lookup-values k r resources er)) [
      | inl n ↦ elim n [ ]
      | inr (q, mq, fq) ↦
          oldest_of env c resources rs st found en unique hosts r q host
            (λ v w ev fw.
              let (x, ex, fx) =
                traverse-lookup (finish (settled rs)) (settled rs).holders hosts host v eh ev in
              ex ∙ sym fx ∙ fw)
            mq fq asked
    ]
