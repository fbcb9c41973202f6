-- ===== src/K8s/Listeners/Priority.antt =====
-- buildListenersAndTSConfigurations: the oldest of the TransportServers that ask for a listener holds
-- it.
use aspenmesh_k3s_multiclust.Prelude.{
  String, ◌≡◌, refl, sym, ap, ◌∙◌, subst, ◌⊎◌, inl, inr, true, false, not, Option, none, some, List,
  [], ◌∷◌, ◌==◌, Elem, keep, keep-Elem, Elem-keep, Option-cases, Bool-cases, some_inj,
}
use aspenmesh_k3s_multiclust.Prelude.Dict.{Dict, lookup, values, lookup-values}
use aspenmesh_k3s_multiclust.K8s.Objects.{
  TransportServer, Listener, GlobalConfiguration, tls_passthrough_listener_protocol,
}
use aspenmesh_k3s_multiclust.K8s.Resource.{
  TransportServerConfiguration, new_transport_server_configuration,
}
use aspenmesh_k3s_multiclust.K8s.Resource.Order.{
  choose_object_meta_winner_trans, choose_object_meta_winner_connected,
}
use aspenmesh_k3s_multiclust.K8s.State.{Configuration}
use aspenmesh_k3s_multiclust.K8s.Contest.{Contest, no_claims}
use aspenmesh_k3s_multiclust.K8s.Contest.Winner.{Settled, claim-Settled, no_claims-Settled}
use aspenmesh_k3s_multiclust.K8s.Listeners.{
  listener_of, transport_server_configuration, listener_wins, listening, claim_found,
  claim_listeners, finish_listener, map_values, build_listeners_and_ts_configurations, with_port,
}

-- The TransportServers of the list have different UIDs.
abbrev pub HaveUniqueUids : List TransportServer → Type 0
HaveUniqueUids tss =
    (ts us : TransportServer) → Elem ts tss → Elem us tss → ts.meta.uid ≡ us.meta.uid → ts ≡ us

lookup-map_values {ℓ κ} :
    {V : Type ℓ} {W : Type κ} (f : V → W) (k : String) (v : V) (m : Dict V)
    → lookup k m ≡ some v
    → lookup k (map_values f m) ≡ some (f v)
unfolding lookup
lookup-map_values f k v [] e = cc
lookup-map_values f k v ((j, w) ∷ m) e = elim (Bool-cases (j == k)) [
  | inl t ↦ rw t (ap some (ap f (some_inj (rw t at e))))
  | inr t ↦ rw t (lookup-map_values f k v m (rw t at e))
]

abbrev Claims : Type 0
Claims = List (TransportServerConfiguration × String)

abbrev with_claim : Option GlobalConfiguration → TransportServer → Option Listener → Claims → Claims
with_claim gc ts none claims = claims
with_claim gc ts (some l) claims = (transport_server_configuration gc ts, l.name) ∷ claims

-- The claims that the TransportServers make on listeners, the last one first.
unfoldable claims_of : Option GlobalConfiguration → List TransportServer → Claims → Claims
claims_of gc [] claims = claims
claims_of gc (ts ∷ tss) claims = claims_of gc tss (with_claim gc ts (listener_of gc ts) claims)

with_claim-old :
    (gc : Option GlobalConfiguration) (ts : TransportServer) (o : Option Listener) (claims : Claims)
    (p : TransportServerConfiguration × String)
    → Elem p claims
    → Elem p (with_claim gc ts o claims)
with_claim-old gc ts none claims p m = m
with_claim-old gc ts (some l) claims p m = inr m

claims_of-old :
    (gc : Option GlobalConfiguration) (tss : List TransportServer) (claims : Claims)
    (p : TransportServerConfiguration × String)
    → Elem p claims
    → Elem p (claims_of gc tss claims)
unfolding claims_of
claims_of-old gc [] claims p m = m
claims_of-old gc (ts ∷ tss) claims p m =
    claims_of-old gc tss _ p (with_claim-old gc ts (listener_of gc ts) claims p m)

claims_of-new :
    (gc : Option GlobalConfiguration) (tss : List TransportServer) (claims : Claims)
    (ts : TransportServer) (l : Listener)
    → Elem ts tss
    → listener_of gc ts ≡ some l
    → Elem (transport_server_configuration gc ts, l.name) (claims_of gc tss claims)
unfolding claims_of
claims_of-new gc [] claims ts l m e = elim m [ ]
claims_of-new gc (us ∷ tss) claims ts l (inl p) e =
    subst
      (λ x.
        Elem (transport_server_configuration gc ts, l.name)
          (claims_of gc tss (with_claim gc x (listener_of gc x) claims)))
      p
      (claims_of-old gc tss (with_claim gc ts (listener_of gc ts) claims) _ (
        subst (λ o. Elem (transport_server_configuration gc ts, l.name) (with_claim gc ts o claims))
          (sym e) (inl refl)))
claims_of-new gc (us ∷ tss) claims ts l (inr m) e = claims_of-new gc tss _ ts l m e

listener_wins_trans :
    (a b c : TransportServerConfiguration)
    → listener_wins a b ≡ true
    → listener_wins b c ≡ true
    → listener_wins a c ≡ true
listener_wins_trans a b c h k =
    choose_object_meta_winner_trans a.transport_server.meta b.transport_server.meta
      c.transport_server.meta h k

configuration-transport_server :
    (gc : Option GlobalConfiguration) (ts : TransportServer)
    → (transport_server_configuration gc ts).transport_server ≡ ts
unfolding transport_server_configuration
configuration-transport_server gc ts = elim (Option-cases (listener_of gc ts)) [
  | inl e ↦ rw e
  | inr (l, e) ↦ rw e
]

module _ (gc : Option GlobalConfiguration) (tss : List TransportServer)
    (unique : HaveUniqueUids tss) where
  -- The configurations of the TransportServers of the list.
  abbrev IsClaimant : TransportServerConfiguration → Type 0
  IsClaimant a = (ts : TransportServer) × Elem ts tss × (a ≡ transport_server_configuration gc ts)

  claimant_meta :
      (a : TransportServerConfiguration) (ts : TransportServer)
      → a ≡ transport_server_configuration gc ts
      → a.transport_server ≡ ts
  claimant_meta a ts e =
      ap (λ (x : TransportServerConfiguration). x.transport_server) e
      ∙ configuration-transport_server gc ts

  listener_wins_connected :
      (a b : TransportServerConfiguration)
      → IsClaimant a
      → IsClaimant b
      → listener_wins a b ≡ false
      → (a ≡ b) ⊎ (listener_wins b a ≡ true)
  listener_wins_connected a b (ts, mt, ea) (us, mu, eb) h =
      elim (choose_object_meta_winner_connected a.transport_server.meta b.transport_server.meta h) [
        | inl e ↦
            let same = unique ts us mt mu (
              ap (λ (x : TransportServer). x.meta.uid) (sym (claimant_meta a ts ea))
              ∙ e
              ∙ ap (λ (x : TransportServer). x.meta.uid) (claimant_meta b us eb)) in
            inl (ea ∙ ap (transport_server_configuration gc) same ∙ sym eb)
        | inr e ↦ inr e
      ]

  abbrev IsSettled :
      List (TransportServerConfiguration × String) → Contest TransportServerConfiguration → Type 0
  IsSettled = Settled listener_wins IsClaimant listener_wins_trans listener_wins_connected

  claim_found-Settled :
      (ts : TransportServer) (o : Option Listener) (claims : Claims)
      (s : Contest TransportServerConfiguration)
      → Elem ts tss
      → IsSettled claims s
      → IsSettled (with_claim gc ts o claims) (claim_found gc ts o s)
  claim_found-Settled ts none claims s m v = v
  claim_found-Settled ts (some l) claims s m v =
      claim-Settled listener_wins IsClaimant listener_wins_trans listener_wins_connected
        (transport_server_configuration gc ts) l.name claims s (ts, m, refl) v

  claim_listeners-Settled :
      (qs : List TransportServer) (claims : Claims) (s : Contest TransportServerConfiguration)
      → ((ts : TransportServer) → Elem ts qs → Elem ts tss)
      → IsSettled claims s
      → IsSettled (claims_of gc qs claims) (claim_listeners gc qs s)
  unfolding claim_listeners claims_of
  claim_listeners-Settled [] claims s h v = v
  claim_listeners-Settled (ts ∷ qs) claims s h v =
      claim_listeners-Settled qs _ _ (λ us m. h us (inr m))
        (claim_found-Settled ts (listener_of gc ts) claims s (h ts (inl refl)) v)

  holder_wins :
      (ts : TransportServer) (l : Listener)
      → Elem ts tss
      → listener_of gc ts ≡ some l
      → (h : TransportServerConfiguration) × (lookup l.name
            (claim_listeners gc tss no_claims).holders
          ≡ some h)
        × ((h ≡ transport_server_configuration gc ts)
            ⊎ (listener_wins h (transport_server_configuration gc ts) ≡ true))
  holder_wins ts l m e =
      (claim_listeners-Settled tss [] no_claims (λ us n. n)
          (no_claims-Settled listener_wins IsClaimant listener_wins_trans
            listener_wins_connected)).best
        (transport_server_configuration gc ts) l.name (claims_of-new gc tss [] ts l m e)

-- When no two TransportServers have one UID, every listener that one of them asks for, not being for
-- TLS Passthrough, and finds in the GlobalConfiguration has a holder: the TransportServer itself,
-- with the port of the listener, or one that wins against it.
pub build_listeners-oldest :
    (c : Configuration) (k : String) (ts : TransportServer) (l : Listener)
    → HaveUniqueUids (values c.transport_servers)
    → lookup k c.transport_servers ≡ some ts
    → (ts.listener_protocol == tls_passthrough_listener_protocol) ≡ false
    → listener_of c.global_configuration ts ≡ some l
    → (h : TransportServerConfiguration) × (lookup l.name
          (build_listeners_and_ts_configurations c).0
        ≡ some h)
      × (((h.transport_server ≡ ts) × (h.listener_port ≡ l.port))
          ⊎ (listener_wins h (new_transport_server_configuration ts) ≡ true))
unfolding build_listeners_and_ts_configurations listening finish_listener
    transport_server_configuration
build_listeners-oldest c k ts l unique e np el =
    let tss = values c.transport_servers in
    let wanted =
      λ (us : TransportServer). not (us.listener_protocol == tls_passthrough_listener_protocol) in
    let kept = keep-Elem wanted ts tss (lookup-values k ts c.transport_servers e) (rw np) in
    let distinct : HaveUniqueUids (keep wanted tss) =
      λ us vs mu mv. unique us vs (Elem-keep wanted us tss mu).0 (Elem-keep wanted vs tss mv).0 in
    let (h, eh, best) =
      holder_wins c.global_configuration (keep wanted tss) distinct ts l kept el in
    (
      _,
      lookup-map_values
          (finish_listener
            (claim_listeners c.global_configuration (keep wanted tss) no_claims).events)
          l.name h _ eh,
      elim best [
        | inl p ↦
            let same = p ∙ ap (λ o. with_port o (new_transport_server_configuration ts)) el in
            inl (
              ap (λ (x : TransportServerConfiguration). x.transport_server) same,
              ap (λ (x : TransportServerConfiguration). x.listener_port) same,
            )
        | inr w ↦ inr (
            ap (λ (us : TransportServer). listener_wins h (new_transport_server_configuration us))
              (sym (configuration-transport_server c.global_configuration ts))
            ∙ w)
      ],
    )
