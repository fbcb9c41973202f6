-- ===== src/K8s/Operations/Stores.antt =====
-- Storing and dropping objects keeps every object under its own key, and every Ingress readable.
use aspenmesh_k3s_multiclust.Prelude.{
  String, ◌≡◌, refl, sym, ap, ◌∙◌, ◌⊎◌, inl, inr, Bool, true, false, Option, none, some, List, [],
  ◌∷◌, ◌==◌, eq_iff, Bool-cases, some_inj,
}
use aspenmesh_k3s_multiclust.Prelude.Dict.{Dict, lookup, remove, lookup-insert, some_of_remove}
use aspenmesh_k3s_multiclust.K8s.Objects.{Ingress, VirtualServer, TransportServer, get_resource_key}
use aspenmesh_k3s_multiclust.K8s.FieldErrors.{FieldError}
use aspenmesh_k3s_multiclust.K8s.State.{Configuration, Settings}
use aspenmesh_k3s_multiclust.K8s.Hosts.Stored.{IsStored}
use aspenmesh_k3s_multiclust.K8s.Validation.{validate_ingress}
use aspenmesh_k3s_multiclust.K8s.Validation.Accepted.{
  accepted-IsWellFormed, IsWellFormed-IsReadable,
}
use aspenmesh_k3s_multiclust.K8s.Operations.{store_object, to_aggregate}

module _ {ℓ} {V : Type ℓ} where
  -- What a map holds after an object was stored or dropped: that object, if it is valid, or an old one.
  pub store_object-lookup :
      (correct_class : Bool) (err : Option String) (key : String) (v : V) (m : Dict V) (k : String)
      (w : V)
      → lookup k (store_object correct_class err key v m) ≡ some w
      → ((key ≡ k) × (w ≡ v) × (err ≡ none)) ⊎ (lookup k m ≡ some w)
  unfolding store_object
  store_object-lookup false err key v m k w h = inr (some_of_remove key k w m h).1
  store_object-lookup true (some e) key v m k w h = inr (some_of_remove key k w m h).1
  store_object-lookup true none key v m k w h = elim (Bool-cases (key == k)) [
    | inl t ↦ inl ((eq_iff key k).0 t, sym (some_inj (sym (rw lookup-insert (rw t)) ∙ h)), refl)
    | inr t ↦ inr (sym (rw lookup-insert (rw t)) ∙ h)
  ]

pub no_error : (env : Settings) (es : List FieldError) → to_aggregate env es ≡ none → es ≡ []
no_error env [] h = refl
no_error env (e ∷ es) h = cc

module _ (env : Settings) (c : Configuration) (st : IsStored c) where
  pub ingress-IsStored :
      (ing : Ingress) (correct_class : Bool)
      → IsStored (record c {
        ingresses =
            store_object correct_class
              (to_aggregate env (validate_ingress env ing))
              (get_resource_key ing.meta)
              ing
              c.ingresses;
      })
  ingress-IsStored ing correct_class = record {
    ingress_key = λ k i e. elim (found k i e) [
      | inl (ek, same, ok) ↦ ap (λ (j : Ingress). get_resource_key j.meta) same ∙ ek
      | inr old ↦ st.ingress_key k i old
    ];
    ingress_readable = λ k i e. elim (found k i e) [
      | inl (ek, same, ok) ↦
          IsWellFormed-IsReadable i
            (accepted-IsWellFormed env i (ap (validate_ingress env) same ∙ no_error env _ ok))
      | inr old ↦ st.ingress_readable k i old
    ];
    virtual_server_key = st.virtual_server_key;
    transport_server_key = st.transport_server_key;
  }
    where
      found :
          (k : String) (i : Ingress)
          → lookup k (
              store_object correct_class
                (to_aggregate env (validate_ingress env ing))
                (get_resource_key ing.meta)
                ing
                c.ingresses)
            ≡ some i
          → ((get_resource_key ing.meta ≡ k)
              × (i ≡ ing)
              × (to_aggregate env (validate_ingress env ing) ≡ none))
            ⊎ (lookup k c.ingresses ≡ some i)
      found k i e =
          store_object-lookup correct_class (to_aggregate env (validate_ingress env ing))
            (get_resource_key ing.meta) ing c.ingresses k i e

  pub remove_ingress-IsStored :
      (key : String) → IsStored (record c { ingresses = remove key c.ingresses })
  remove_ingress-IsStored key = record {
    ingress_key = λ k i e. st.ingress_key k i (some_of_remove key k i c.ingresses e).1;
    ingress_readable = λ k i e. st.ingress_readable k i (some_of_remove key k i c.ingresses e).1;
    virtual_server_key = st.virtual_server_key;
    transport_server_key = st.transport_server_key;
  }

  pub virtual_server-IsStored :
      (vs : VirtualServer) (correct_class : Bool) (err : Option String)
      → IsStored (record c {
        virtual_servers =
            store_object correct_class err (get_resource_key vs.meta) vs c.virtual_servers;
      })
  virtual_server-IsStored vs correct_class err = record {
    ingress_key = st.ingress_key;
    ingress_readable = st.ingress_readable;
    virtual_server_key = λ k v e.
        elim (store_object-lookup correct_class err (get_resource_key vs.meta) vs c.virtual_servers
          k v e) [
            | inl (ek, same, ok) ↦ ap (λ (w : VirtualServer). get_resource_key w.meta) same ∙ ek
            | inr old ↦ st.virtual_server_key k v old
          ];
    transport_server_key = st.transport_server_key;
  }

  pub remove_virtual_server-IsStored :
      (key : String) → IsStored (record c { virtual_servers = remove key c.virtual_servers })
  remove_virtual_server-IsStored key = record {
    ingress_key = st.ingress_key;
    ingress_readable = st.ingress_readable;
    virtual_server_key =
        λ k v e. st.virtual_server_key k v (some_of_remove key k v c.virtual_servers e).1;
    transport_server_key = st.transport_server_key;
  }

  pub transport_server-IsStored :
      (ts : TransportServer) (correct_class : Bool) (err : Option String)
      → IsStored (record c {
        transport_servers =
            store_object correct_class err (get_resource_key ts.meta) ts c.transport_servers;
      })
  transport_server-IsStored ts correct_class err = record {
    ingress_key = st.ingress_key;
    ingress_readable = st.ingress_readable;
    virtual_server_key = st.virtual_server_key;
    transport_server_key = λ k v e.
        elim (store_object-lookup correct_class err (get_resource_key ts.meta) ts
          c.transport_servers k v e) [
            | inl (ek, same, ok) ↦ ap (λ (w : TransportServer). get_resource_key w.meta) same ∙ ek
            | inr old ↦ st.transport_server_key k v old
          ];
  }

  pub remove_transport_server-IsStored :
      (key : String) → IsStored (record c { transport_servers = remove key c.transport_servers })
  remove_transport_server-IsStored key = record {
    ingress_key = st.ingress_key;
    ingress_readable = st.ingress_readable;
    virtual_server_key = st.virtual_server_key;
    transport_server_key =
        λ k v e. st.transport_server_key k v (some_of_remove key k v c.transport_servers e).1;
  }
