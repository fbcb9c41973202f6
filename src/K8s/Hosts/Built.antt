-- ===== src/K8s/Hosts/Built.antt =====
-- buildHostsAndResources: its two results are of one piece. It does not panic, its hosts are an
-- assignment of hosts, and the holder of a host is what its key finds among the resources.
use aspenmesh_k3s_multiclust.Prelude.{
  String, ◌≡◌, ◌≢◌, refl, sym, ap, ◌∙◌, subst, ◌⊎◌, inl, inr, true, false, some, List, [], ◌∷◌,
  ◌==◌, >>=-eq-some, some_inj, eq_iff, Elem, traverse, is_some, is_some->>=, Bool-cases,
}
use aspenmesh_k3s_multiclust.Prelude.Dict.{
  Dict, lookup, insert, lookup-insert, values, values-insert,
}
use aspenmesh_k3s_multiclust.Prelude.Traversal.{
  at_value, lookup-traverse, traverse-lookup, traverse-is_some,
}
use aspenmesh_k3s_multiclust.K8s.Resource.{Resource, get_key_with_kind}
use aspenmesh_k3s_multiclust.K8s.State.{Configuration, Settings}
use aspenmesh_k3s_multiclust.K8s.Contest.{Contest}
use aspenmesh_k3s_multiclust.K8s.Changes.Refine.{Assignment}
use aspenmesh_k3s_multiclust.K8s.Hosts.{
  new_resources, finish, by_key, claimed_hosts, build_hosts_and_resources,
}
use aspenmesh_k3s_multiclust.K8s.Hosts.Stored.{IsStored, new_resources-some}
use aspenmesh_k3s_multiclust.K8s.Hosts.Source.{new_resources-Source, Source-one}
use aspenmesh_k3s_multiclust.K8s.Hosts.Claims.{settled, holder-Elem, claimed-holder}
use aspenmesh_k3s_multiclust.K8s.Hosts.Finish.{
  finish-Finished, Finished-key, Finished-claimed_hosts,
}
use aspenmesh_k3s_multiclust.K8s.Hosts.Coherence.{
  ServesHost, finish_holder, by_key-some, hosts-Assignment,
}

module _ (s : Contest Resource) where
  -- A resource whose key is its own among those entered is found under it, finished.
  pub by_key-held :
      (r done : Resource) (qs : List Resource) (m n : Dict Resource)
      → finish s r ≡ some done
      → ((q : Resource) → Elem q qs → get_key_with_kind q ≡ get_key_with_kind r → q ≡ r)
      → by_key s qs m ≡ some n
      → (lookup (get_key_with_kind r) m ≡ some done) ⊎ Elem r qs
      → lookup (get_key_with_kind r) n ≡ some done
  unfolding by_key
  by_key-held r done [] m n fr own e (inl h) =
      ap (lookup (get_key_with_kind r)) (sym (some_inj e)) ∙ h
  by_key-held r done [] m n fr own e (inr h) = elim h [ ]
  by_key-held r done (q ∷ qs) m n fr own e h =
      let (dq, fq, rest) = >>=-eq-some (finish s q) _ e in
      by_key-held r done qs _ n fr (λ p mp. own p (inr mp)) rest
        (after dq fq (Bool-cases (get_key_with_kind q == get_key_with_kind r)) h)
    where
      after :
          (dq : Resource)
          → finish s q ≡ some dq
          → ((get_key_with_kind q == get_key_with_kind r) ≡ true)
            ⊎ ((get_key_with_kind q == get_key_with_kind r) ≡ false)
          → (lookup (get_key_with_kind r) m ≡ some done) ⊎ Elem r (q ∷ qs)
          → (lookup (get_key_with_kind r) (insert (get_key_with_kind q) dq m) ≡ some done)
            ⊎ Elem r qs
      after dq fq (inl t) h =
          let same = own q (inl refl) ((eq_iff _ _).0 t) in
          inl (rw lookup-insert (rw t (sym fq ∙ ap (finish s) same ∙ fr)))
      after dq fq (inr t) (inl h) = inl (rw lookup-insert (rw t h))
      after dq fq (inr t) (inr (inl p)) =
          cc (
            t,
            (eq_iff (get_key_with_kind q) (get_key_with_kind r)).1 (ap get_key_with_kind (sym p)),
          )
      after dq fq (inr t) (inr (inr mr)) = inr mr

  -- What is found under a key was there before, or is one of those entered, finished.
  by_key-from :
      (k : String) (done : Resource) (qs : List Resource) (m n : Dict Resource)
      → by_key s qs m ≡ some n
      → lookup k n ≡ some done
      → (lookup k m ≡ some done)
        ⊎ ((q : Resource) × (finish s q ≡ some done) × (get_key_with_kind q ≡ k))
  unfolding by_key
  by_key-from k done [] m n e h = inl (ap (lookup k) (some_inj e) ∙ h)
  by_key-from k done (q ∷ qs) m n e h =
      let (dq, fq, rest) = >>=-eq-some (finish s q) _ e in
      elim (by_key-from k done qs _ n rest h) [
        | inr found ↦ inr found
        | inl before ↦ elim (Bool-cases (get_key_with_kind q == k)) [
          | inl t ↦
              let written : some dq ≡ some done = (sym (rw lookup-insert (rw t)) ∙ before) in
              inr (q, fq ∙ written, (eq_iff (get_key_with_kind q) k).0 t)
          | inr t ↦ inl (sym (rw lookup-insert (rw t)) ∙ before)
        ]
      ]

  -- Every resource entered is one of the list, finished.
  pub by_key-values :
      (done : Resource) (qs : List Resource) (m n : Dict Resource)
      → by_key s qs m ≡ some n
      → Elem done (values n)
      → Elem done (values m) ⊎ ((q : Resource) × Elem q qs × (finish s q ≡ some done))
  unfolding by_key
  by_key-values done [] m n e h = inl (subst (λ d. Elem done (values d)) (sym (some_inj e)) h)
  by_key-values done (q ∷ qs) m n e h =
      let (dq, fq, rest) = >>=-eq-some (finish s q) _ e in
      elim (by_key-values done qs _ n rest h) [
        | inr (p, mp, fp) ↦ inr (p, inr mp, fp)
        | inl before ↦ elim (values-insert done (get_key_with_kind q) dq m before) [
          | inl same ↦ inr (q, inl refl, fq ∙ ap some (sym same))
          | inr old ↦ inl old
        ]
      ]

abbrev pub Built : Settings → Configuration → Dict Resource → Dict Resource → Type 0
Built env c hosts resources =
    (rs : List Resource) × (new_resources env c ≡ some rs)
    × (traverse (at_value (finish (settled rs))) (settled rs).holders ≡ some hosts)
    × (by_key (settled rs) rs [] ≡ some resources)

pub built :
    (env : Settings) (c : Configuration) (hosts resources : Dict Resource)
    → build_hosts_and_resources env c ≡ some (hosts, resources)
    → Built env c hosts resources
unfolding build_hosts_and_resources
built env c hosts resources e =
    let (rs, er, rest) = >>=-eq-some (new_resources env c) _ e in
    let (hs, eh, more) =
      >>=-eq-some (traverse (at_value (finish (settled rs))) (settled rs).holders) _ rest in
    let (ns, en, last) = >>=-eq-some (by_key (settled rs) rs []) _ more in
    (
      rs,
      er,
      eh ∙ ap some (ap (λ (p : Dict Resource × Dict Resource). p.0) (some_inj last)),
      en ∙ ap some (ap (λ (p : Dict Resource × Dict Resource). p.1) (some_inj last)),
    )

-- Stored objects are assigned their hosts without a panic.
pub build_hosts_and_resources-is_some :
    (env : Settings) (c : Configuration)
    → IsStored c
    → is_some (build_hosts_and_resources env c) ≡ true
unfolding build_hosts_and_resources
build_hosts_and_resources-is_some env c st =
    let (rs, er) = new_resources-some env c st in
    rw er (
      is_some->>= (traverse (at_value (finish (settled rs))) (settled rs).holders) _
        (traverse-is_some (finish (settled rs)) (settled rs).holders (finish_holder env c st rs er))
        (λ hosts.
          is_some->>= (by_key (settled rs) rs []) _ (by_key-some env c st rs er rs [] (λ r m. m))
            (λ resources. refl)))

-- With stored objects, in the hosts that buildHostsAndResources and updateActiveHostsForIngresses
-- yield a key stands for one resource, every host is one that its holder takes for its own (marked
-- valid, or that of the spec), and every host that a holder takes for its own is assigned to its
-- key.
pub build_hosts_and_resources-Assignment :
    (env : Settings) (c : Configuration) (hosts resources : Dict Resource)
    → IsStored c
    → build_hosts_and_resources env c ≡ some (hosts, resources)
    → Assignment ServesHost hosts
build_hosts_and_resources-Assignment env c hosts resources st e =
    let (rs, er, eh, en) = built env c hosts resources e in hosts-Assignment env c st rs er hosts eh

-- With stored objects, the holder of a host is the very object that its key finds among the
-- resources.
pub holder_in_resources :
    (env : Settings) (c : Configuration) (hosts resources : Dict Resource) (host : String)
    (r : Resource)
    → IsStored c
    → build_hosts_and_resources env c ≡ some (hosts, resources)
    → lookup host hosts ≡ some r
    → lookup (get_key_with_kind r) resources ≡ some r
holder_in_resources env c hosts resources host r st e h =
    let (rs, er, eh, en) = built env c hosts resources e in
    let s = settled rs in
    let (q, eq, fq) = lookup-traverse (finish s) s.holders hosts host r eh h in
    let (mq, mh) = holder-Elem rs host q eq in
    let src = λ (p : Resource) (m : Elem p rs). new_resources-Source env c rs p er m in
    ap (λ k. lookup k resources) (Finished-key (finish-Finished s q r fq))
    ∙ by_key-held s q r rs [] resources fq
        (λ p mp k. Source-one env c p q st (src p mp) (src q mq) k) en (inr mq)

nothing : (k : String) (r : Resource) → lookup k [] ≢ some r
unfolding lookup
nothing k r e = cc

-- A resource is found under its own key.
pub resources_key :
    (env : Settings) (c : Configuration) (hosts resources : Dict Resource) (k : String)
    (r : Resource)
    → build_hosts_and_resources env c ≡ some (hosts, resources)
    → lookup k resources ≡ some r
    → get_key_with_kind r ≡ k
resources_key env c hosts resources k r e h =
    let (rs, er, eh, en) = built env c hosts resources e in
    elim (by_key-from (settled rs) k r rs [] resources en h) [
      | inr (q, fq, kq) ↦ Finished-key (finish-Finished (settled rs) q r fq) ∙ kq
      | inl none_before ↦ absurd (nothing k r none_before)
    ]

-- Every host that a resource asks for is assigned.
pub asked_host-assigned :
    (env : Settings) (c : Configuration) (hosts resources : Dict Resource) (r : Resource)
    (host : String)
    → build_hosts_and_resources env c ≡ some (hosts, resources)
    → Elem r (values resources)
    → Elem host (claimed_hosts r)
    → (h : Resource) × (lookup host hosts ≡ some h)
asked_host-assigned env c hosts resources r host e m asked =
    let (rs, er, eh, en) = built env c hosts resources e in
    let s = settled rs in
    elim (by_key-values s r rs [] resources en m) [
      | inl none_before ↦ elim none_before [ ]
      | inr (q, mq, fq) ↦
          let same = Finished-claimed_hosts (finish-Finished s q r fq) in
          let (w, ew) = claimed-holder rs q host mq (subst (Elem host) same asked) in
          let (h, eh', fh) = traverse-lookup (finish s) s.holders hosts host w eh ew in (h, eh')
    ]
