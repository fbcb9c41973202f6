-- ===== src/Apis/Validation/Listeners/Accepted.antt =====
-- What a GlobalConfiguration with no validation errors holds.
use aspenmesh_k3s_multiclust.Prelude.{
  ℕ, suc, ◌<◌, String, ◌≡◌, ◌≢◌, refl, sym, subst, ◌⊎◌, inl, inr, true, false, List, [], ◌∷◌, map,
  ◌==◌, eq_iff, any, Elem, append-empty, Distinct, Bool-cases,
}
use aspenmesh_k3s_multiclust.Prelude.Uniqueness.{Distinct-map-through}
use aspenmesh_k3s_multiclust.Prelude.Integers.{ℤ, pos, eqb_int}
use aspenmesh_k3s_multiclust.K8s.FieldErrors.{FieldPath, child, index, FieldError}
use aspenmesh_k3s_multiclust.K8s.Objects.{tls_passthrough_listener_name}
use aspenmesh_k3s_multiclust.Apis.Types.Listeners.{Listener}
use aspenmesh_k3s_multiclust.Apis.Validation.{ValidationLibrary, invalid_number_each, has}
use aspenmesh_k3s_multiclust.Apis.Validation.Unique.{AreNew, no_values-AreNew, AreNew-cons}
use aspenmesh_k3s_multiclust.Apis.Validation.Listeners.{
  generate_port_protocol_key, validate_listener_protocol,
  validate_global_configuration_listener_name, validate_listener_port, validate_listener,
  checked_listener, validate_listeners_from, validate_listeners, validate_global_configuration,
}

invalid_number_each-empty :
    (path : FieldPath) (n : ℤ) (msgs : List String)
    → invalid_number_each path n msgs ≡ []
    → msgs ≡ []
invalid_number_each-empty path n [] h = refl
invalid_number_each-empty path n (m ∷ msgs) h = cc

module _ (lib : ValidationLibrary) (forbidden_ports : List ℤ) where
  -- A listener that is right by itself.
  pub record IsRight (l : Listener) : Type 0 where
    pub not_built_in : (l.name == tls_passthrough_listener_name) ≡ false
    pub allowed : any (eqb_int l.port) forbidden_ports ≡ false
    pub port_number : lib.is_valid_port_num l.port ≡ []
    pub protocol : has ("TCP" ∷ "UDP" ∷ []) l.protocol ≡ true

  name_errors :
      (name : String) (path : FieldPath)
      → validate_global_configuration_listener_name lib name path ≡ []
      → (name == tls_passthrough_listener_name) ≡ false
  unfolding validate_global_configuration_listener_name
  name_errors name path h = elim (Bool-cases (name == tls_passthrough_listener_name)) [
    | inl e ↦ cc (rw e at h)
    | inr e ↦ e
  ]

  port_errors :
      (port : ℤ) (path : FieldPath)
      → validate_listener_port lib forbidden_ports port path ≡ []
      → (any (eqb_int port) forbidden_ports ≡ false) × (lib.is_valid_port_num port ≡ [])
  unfolding validate_listener_port
  port_errors port path h = elim (Bool-cases (any (eqb_int port) forbidden_ports)) [
    | inl e ↦ cc (rw e at h)
    | inr e ↦ (e, invalid_number_each-empty path port _ (rw e at h))
  ]

  protocol_errors :
      (protocol : String) (path : FieldPath)
      → validate_listener_protocol protocol path ≡ []
      → has ("TCP" ∷ "UDP" ∷ []) protocol ≡ true
  unfolding validate_listener_protocol
  protocol_errors protocol path h = elim (Bool-cases (protocol == "")) [
    | inl e ↦ cc (rw e at h)
    | inr e ↦ elim (Bool-cases (has ("TCP" ∷ "UDP" ∷ []) protocol)) [
      | inl t ↦ t
      | inr t ↦ cc (rw (e, t) at h)
    ]
  ]

  validate_listener-IsRight :
      (l : Listener) (path : FieldPath)
      → validate_listener lib forbidden_ports l path ≡ []
      → IsRight l
  unfolding validate_listener
  validate_listener-IsRight l path h =
      let (front, protocol) = append-empty _ _ h in
      let (name, port) = append-empty _ _ front in
      let (allowed, number) = port_errors l.port (child path "port") port in
      record {
        not_built_in = name_errors l.name (child path "name") name;
        allowed = allowed;
        port_number = number;
        protocol = protocol_errors l.protocol (child path "protocol") protocol;
      }

abbrev pub name_of : Listener → String
name_of l = l.name

abbrev pub port_and_protocol : Listener → ℤ × String
port_and_protocol l = (l.port, l.protocol)

abbrev key_of : Listener → String
key_of l = generate_port_protocol_key l.port l.protocol

module _ (lib : ValidationLibrary) where
  checked_listener-empty :
      (errors : List FieldError) (l : Listener) (path : FieldPath) (i : ℕ)
      (names keys : List String)
      → (checked_listener lib errors l path i names keys).0 ≡ []
      → (errors ≡ [])
        × (has names l.name ≡ false)
        × (has keys (key_of l) ≡ false)
        × ((checked_listener lib errors l path i names keys).1 ≡ l.name ∷ names)
        × ((checked_listener lib errors l path i names keys).2 ≡ key_of l ∷ keys)
  checked_listener-empty (e ∷ es) l path i names keys h = cc
  checked_listener-empty [] l path i names keys h = elim (Bool-cases (has names l.name)) [
    | inl e ↦ cc (rw e at h)
    | inr e ↦ elim (Bool-cases (has keys (key_of l))) [
      | inl t ↦ cc (rw (e, t) at h)
      | inr t ↦ (refl, e, t, rw (e, t), rw (e, t))
    ]
  ]

  module _ (forbidden_ports : List ℤ) (path : FieldPath) where
    validate_listeners_from-empty :
        (i : ℕ) (names keys : List String) (ls : List Listener)
        → validate_listeners_from lib forbidden_ports path i names keys ls ≡ []
        → ((l : Listener) → Elem l ls → IsRight lib forbidden_ports l)
          × AreNew name_of names ls
          × AreNew key_of keys ls
    unfolding validate_listeners_from
    validate_listeners_from-empty i names keys [] h =
        ((λ l m. elim m [ ]), no_values-AreNew name_of names, no_values-AreNew key_of keys)
    validate_listeners_from-empty i names keys (l ∷ ls) h =
        let own = validate_listener lib forbidden_ports l (index path i) in
        let (here, later) = append-empty (checked_listener lib own l path i names keys).0 _ h in
        let (none, name, key, next_names, next_keys) =
          checked_listener-empty own l path i names keys here in
        let (right, new_names, new_keys) = validate_listeners_from-empty (suc i) _ _ ls later in
        (
          (λ k m. elim m [
            | inl e ↦
                subst (IsRight lib forbidden_ports) (sym e)
                  (validate_listener-IsRight lib forbidden_ports l (index path i) none)
            | inr n ↦ right k n
          ]),
          AreNew-cons name_of names l ls name
              (subst (λ s. AreNew name_of s ls) next_names new_names),
          AreNew-cons key_of keys l ls key (subst (λ s. AreNew key_of s ls) next_keys new_keys),
        )

  -- A port that the Kubernetes library accepts is a number from 1 to 65535.
  abbrev pub ChecksPorts : Type 0
  ChecksPorts =
      (port : ℤ)
      → lib.is_valid_port_num port ≡ []
      → (n : ℕ) × (port ≡ pos n) × (0 < n) × (n < 65536)

  -- When the check of a port number by the Kubernetes library accepts the numbers from 1 to 65535
  -- only, and ValidateGlobalConfiguration yields no error: no listener has the name of the built-in
  -- one or a forbidden port, each has protocol TCP or UDP and such a port, and no two have one name,
  -- or one port with one protocol.
  pub validate_global_configuration-accepted :
      (forbidden_ports : List ℤ) (listeners : List Listener)
      → ChecksPorts
      → validate_global_configuration lib forbidden_ports listeners ≡ []
      → ((l : Listener)
          → Elem l listeners
          → (l.name ≢ tls_passthrough_listener_name)
            × (any (eqb_int l.port) forbidden_ports ≡ false)
            × ((l.protocol ≡ "TCP") ⊎ (l.protocol ≡ "UDP"))
            × ((n : ℕ) × (l.port ≡ pos n) × (0 < n) × (n < 65536)))
        × Distinct (map name_of listeners)
        × Distinct (map port_and_protocol listeners)
  unfolding validate_global_configuration validate_listeners
  validate_global_configuration-accepted forbidden_ports listeners ports h =
      let (right, names, keys) =
        validate_listeners_from-empty forbidden_ports _ 0 [] [] listeners h in
      (
        (λ l m.
            let r = right l m in
            (
              (λ e. cc ((eq_iff l.name tls_passthrough_listener_name).1 e, r.not_built_in)),
              r.allowed,
              tcp_or_udp l.protocol r.protocol,
              ports l.port r.port_number,
            )),
        names.apart,
        Distinct-map-through (λ (p : ℤ × String). generate_port_protocol_key p.0 p.1)
            port_and_protocol listeners keys.apart,
      )
    where
      tcp_or_udp :
          (protocol : String)
          → has ("TCP" ∷ "UDP" ∷ []) protocol ≡ true
          → (protocol ≡ "TCP") ⊎ (protocol ≡ "UDP")
      tcp_or_udp protocol e = elim (Bool-cases ("TCP" == protocol)) [
        | inl t ↦ inl (sym ((eq_iff "TCP" protocol).0 t))
        | inr t ↦ elim (Bool-cases ("UDP" == protocol)) [
          | inl u ↦ inr (sym ((eq_iff "UDP" protocol).0 u))
          | inr u ↦ cc (rw (t, u) at e)
        ]
      ]
