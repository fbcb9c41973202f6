-- ===== src/K8s/Hosts/Finish.antt =====
-- What the objects have become when warnings and valid hosts are written into them.
use aspenmesh_k3s_multiclust.Prelude.{
  String, ◌≡◌, refl, sym, ap, ◌∙◌, subst, ◌⊎◌, inl, inr, Bool, true, false, some, List, [], ◌∷◌,
  map, ◌==◌, >>=-eq-some, some_inj, eq_iff, eq_refl, Elem, Bool-cases, is_some, is_some->>=,
  if◌then◌else◌,
}
use aspenmesh_k3s_multiclust.Prelude.Dict.{Dict, lookup, insert, lookup-insert}
use aspenmesh_k3s_multiclust.K8s.Objects.{Rule}
use aspenmesh_k3s_multiclust.K8s.Resource.{
  IngressConfiguration, VirtualServerConfiguration, TransportServerConfiguration, Resource,
  ingress_conf, virtual_server_conf, transport_server_conf, get_key_with_kind, add_warning,
}
use aspenmesh_k3s_multiclust.K8s.Contest.{Event, took, ousted, refused, Contest}
use aspenmesh_k3s_multiclust.K8s.Hosts.{
  add_host_warnings, mark_valid_hosts, update_active_hosts, finish, claimed_hosts,
}

module _ (hosts : Dict Resource) (key : String) where
  -- Every host of the rules has a holder: the marks are made without a panic.
  pub mark_valid_hosts-some :
      (rules : List Rule) (valid : Dict Bool)
      → ((host : String)
          → Elem host (map (λ (r : Rule). r.host) rules)
          → (h : Resource) × (lookup host hosts ≡ some h))
      → is_some (mark_valid_hosts hosts key rules valid) ≡ true
  unfolding mark_valid_hosts
  mark_valid_hosts-some [] valid h = refl
  mark_valid_hosts-some (rule ∷ rules) valid h =
      let (res, e) = h rule.host (inl refl) in
      rw e (mark_valid_hosts-some rules _ (λ host m. h host (inr m)))

  -- A host is marked valid only if its holder has the key.
  pub mark_valid_hosts-true :
      (rules : List Rule) (valid marked : Dict Bool) (host : String)
      → mark_valid_hosts hosts key rules valid ≡ some marked
      → lookup host marked ≡ some true
      → (lookup host valid ≡ some true)
        ⊎ ((res : Resource) × (lookup host hosts ≡ some res) × (get_key_with_kind res ≡ key))
  unfolding mark_valid_hosts
  mark_valid_hosts-true [] valid marked host e t = inl (ap (lookup host) (some_inj e) ∙ t)
  mark_valid_hosts-true (rule ∷ rules) valid marked host e t =
      let (res, er, rest) = >>=-eq-some (lookup rule.host hosts) _ e in
      elim (mark_valid_hosts-true rules _ marked host rest t) [
        | inr found ↦ inr found
        | inl before ↦ elim (Bool-cases (rule.host == host)) [
          | inr ne ↦ inl (sym (rw lookup-insert (rw ne)) ∙ before)
          | inl same ↦
              let is_host = (eq_iff rule.host host).0 same in
              let test : some (get_key_with_kind res == key) ≡ some true =
                (sym (rw lookup-insert (rw same)) ∙ before) in
              inr (
                res,
                ap (λ h. lookup h hosts) (sym is_host) ∙ er,
                (eq_iff (get_key_with_kind res) key).0 (some_inj test),
              )
        ]
      ]

  -- A host whose holder has the key is marked valid, once it is marked at all.
  pub mark_valid_hosts-held :
      (rules : List Rule) (valid marked : Dict Bool) (host : String) (res : Resource)
      → mark_valid_hosts hosts key rules valid ≡ some marked
      → lookup host hosts ≡ some res
      → get_key_with_kind res ≡ key
      → (lookup host valid ≡ some true) ⊎ Elem host (map (λ (r : Rule). r.host) rules)
      → lookup host marked ≡ some true
  unfolding mark_valid_hosts
  mark_valid_hosts-held [] valid marked host res e eh k (inl t) =
      ap (lookup host) (sym (some_inj e)) ∙ t
  mark_valid_hosts-held [] valid marked host res e eh k (inr m) = elim m [ ]
  mark_valid_hosts-held (rule ∷ rules) valid marked host res e eh k t =
      let (q, eq, rest) = >>=-eq-some (lookup rule.host hosts) _ e in
      mark_valid_hosts-held rules _ marked host res rest eh k
        (after q eq (Bool-cases (rule.host == host)) t)
    where
      after :
          (q : Resource)
          → lookup rule.host hosts ≡ some q
          → ((rule.host == host) ≡ true) ⊎ ((rule.host == host) ≡ false)
          → (lookup host valid ≡ some true) ⊎ Elem host (map (λ (r : Rule). r.host) (rule ∷ rules))
          → (lookup host (insert rule.host (get_key_with_kind q == key) valid) ≡ some true)
            ⊎ Elem host (map (λ (r : Rule). r.host) rules)
      after q eq (inl same) t =
          let is_host = (eq_iff rule.host host).0 same in
          let is_res = some_inj (sym eq ∙ ap (λ h. lookup h hosts) is_host ∙ eh) in
          inl (
            rw lookup-insert (
              rw same
                (ap some ((eq_iff (get_key_with_kind q) key).1 (ap get_key_with_kind is_res ∙ k)))))
      after q eq (inr ne) (inl t) = inl (rw lookup-insert (rw ne t))
      after q eq (inr ne) (inr (inl p)) = cc (ne, p, eq_refl host)
      after q eq (inr ne) (inr (inr m)) = inr m

-- The resource with other warnings.
abbrev with_warnings : List String → Resource → Resource
with_warnings ws (ingress_conf ic) = ingress_conf (record ic { warnings = ws })
with_warnings ws (virtual_server_conf vsc) = virtual_server_conf (record vsc { warnings = ws })
with_warnings ws (transport_server_conf tsc) = transport_server_conf (record tsc { warnings = ws })

own_warnings : (r : Resource) → (ws : List String) × (r ≡ with_warnings ws r)
own_warnings (ingress_conf ic) = (ic.warnings, refl)
own_warnings (virtual_server_conf vsc) = (vsc.warnings, refl)
own_warnings (transport_server_conf tsc) = (tsc.warnings, refl)

with_warnings-add_warning :
    (ws : List String) (w : String) (r : Resource)
    → with_warnings ws (add_warning w r) ≡ with_warnings ws r
unfolding add_warning
with_warnings-add_warning ws w (ingress_conf ic) = refl
with_warnings-add_warning ws w (virtual_server_conf vsc) = refl
with_warnings-add_warning ws w (transport_server_conf tsc) = refl

with_warnings-if :
    (ws : List String) (b : Bool) (w : String) (r : Resource)
    → with_warnings ws (if b then add_warning w r else r) ≡ with_warnings ws r
with_warnings-if ws true w r = with_warnings-add_warning ws w r
with_warnings-if ws false w r = refl

-- Warnings change nothing else.
add_host_warnings-with_warnings :
    (key : String) (events : List (Event Resource)) (r : Resource)
    → (ws : List String) × (add_host_warnings key events r ≡ with_warnings ws r)
unfolding add_host_warnings
add_host_warnings-with_warnings key [] r = own_warnings r
add_host_warnings-with_warnings key (took q host ∷ events) r =
    add_host_warnings-with_warnings key events r
add_host_warnings-with_warnings key (ousted q host ∷ events) r =
    let (ws, e) = add_host_warnings-with_warnings key events _ in
    (ws, e ∙ with_warnings-if ws (get_key_with_kind q == key) _ r)
add_host_warnings-with_warnings key (refused q host ∷ events) r =
    let (ws, e) = add_host_warnings-with_warnings key events _ in
    (ws, e ∙ with_warnings-if ws (get_key_with_kind q == key) _ r)

-- What an object of each kind has become.
pub data Finished (s : Contest Resource) : Resource → Resource → Type 0 where
  an_ingress :
      (ic : IngressConfiguration) (ws : List String) (valid : Dict Bool)
      → mark_valid_hosts s.holders
          (get_key_with_kind (ingress_conf ic))
          ic.ingress.rules
          ic.valid_hosts
        ≡ some valid
      → Finished s
          (ingress_conf ic)
          (ingress_conf (record ic { warnings = ws; valid_hosts = valid }))
  a_virtual_server :
      (vsc : VirtualServerConfiguration) (ws : List String)
      → Finished s (virtual_server_conf vsc) (virtual_server_conf (record vsc { warnings = ws }))
  a_transport_server :
      (tsc : TransportServerConfiguration) (ws : List String)
      → Finished s
          (transport_server_conf tsc)
          (transport_server_conf (record tsc { warnings = ws }))

pub finish-Finished :
    (s : Contest Resource) (r done : Resource) → finish s r ≡ some done → Finished s r done
unfolding finish get_key_with_kind
finish-Finished s (ingress_conf ic) done e =
    let (ws, ew) =
      add_host_warnings-with_warnings (get_key_with_kind (ingress_conf ic)) s.events
        (ingress_conf ic) in
    let (valid, ev, last) = >>=-eq-some _ _ (ap (update_active_hosts s.holders) (sym ew) ∙ e) in
    subst (Finished s (ingress_conf ic)) (some_inj last) (an_ingress ic ws valid ev)
finish-Finished s (virtual_server_conf vsc) done e =
    let (ws, ew) =
      add_host_warnings-with_warnings (get_key_with_kind (virtual_server_conf vsc)) s.events
        (virtual_server_conf vsc) in
    subst (Finished s (virtual_server_conf vsc))
      (some_inj (ap (update_active_hosts s.holders) (sym ew) ∙ e)) (a_virtual_server vsc ws)
finish-Finished s (transport_server_conf tsc) done e =
    let (ws, ew) =
      add_host_warnings-with_warnings (get_key_with_kind (transport_server_conf tsc)) s.events
        (transport_server_conf tsc) in
    subst (Finished s (transport_server_conf tsc))
      (some_inj (ap (update_active_hosts s.holders) (sym ew) ∙ e)) (a_transport_server tsc ws)

-- An object can be finished when every host of an Ingress has a holder.
pub finish-some :
    (s : Contest Resource) (r : Resource)
    → ((host : String)
        → Elem host (claimed_hosts r)
        → (h : Resource) × (lookup host s.holders ≡ some h))
    → is_some (finish s r) ≡ true
unfolding finish claimed_hosts
finish-some s (ingress_conf ic) h =
    let (ws, ew) =
      add_host_warnings-with_warnings (get_key_with_kind (ingress_conf ic)) s.events
        (ingress_conf ic) in
    rw ew (
      is_some->>= _ _ (mark_valid_hosts-some s.holders _ ic.ingress.rules ic.valid_hosts h)
        (λ valid. refl))
finish-some s (virtual_server_conf vsc) h =
    let (ws, ew) =
      add_host_warnings-with_warnings (get_key_with_kind (virtual_server_conf vsc)) s.events
        (virtual_server_conf vsc) in
    rw ew
finish-some s (transport_server_conf tsc) h =
    let (ws, ew) =
      add_host_warnings-with_warnings (get_key_with_kind (transport_server_conf tsc)) s.events
        (transport_server_conf tsc) in
    rw ew

pub Finished-key :
    {s : Contest Resource} {r done : Resource}
    → Finished s r done
    → get_key_with_kind done ≡ get_key_with_kind r
unfolding get_key_with_kind
Finished-key (an_ingress ic ws valid e) = refl
Finished-key (a_virtual_server vsc ws) = refl
Finished-key (a_transport_server tsc ws) = refl

-- What is written leaves the hosts that a resource asks for.
pub Finished-claimed_hosts :
    {s : Contest Resource} {r done : Resource}
    → Finished s r done
    → claimed_hosts done ≡ claimed_hosts r
unfolding claimed_hosts
Finished-claimed_hosts (an_ingress ic ws valid e) = refl
Finished-claimed_hosts (a_virtual_server vsc ws) = refl
Finished-claimed_hosts (a_transport_server tsc ws) = refl
