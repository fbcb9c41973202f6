-- ===== src/K8s/Hosts/Stored.antt =====
-- Which objects the resources of a Configuration come from, and that a key names one of them.
use aspenmesh_k3s_multiclust.Prelude.{
  String, ◌≡◌, refl, ◌⊎◌, inl, inr, true, false, some, List, [], ◌∷◌, arith, Elem, is_some,
  of_is_some,
}
use aspenmesh_k3s_multiclust.Prelude.Dict.{lookup}
use aspenmesh_k3s_multiclust.Prelude.Sorting.{sorted_values, sorted_values-Elem}
use aspenmesh_k3s_multiclust.K8s.Objects.{
  Ingress, Rule, HttpPath, VirtualServer, TransportServer, is_minion, get_resource_key,
}
use aspenmesh_k3s_multiclust.K8s.Resource.{IngressConfiguration, Resource}
use aspenmesh_k3s_multiclust.K8s.State.{Configuration, Settings}
use aspenmesh_k3s_multiclust.K8s.Minions.{first_rule, select_minions, build_minion_configs}
use aspenmesh_k3s_multiclust.K8s.Hosts.{ingress_configuration, ingress_resources, new_resources}

-- An Ingress that the code can read: it has a rule, and the rule of a minion has paths.
abbrev pub IsReadable : Ingress → Type 0
IsReadable ing =
    (rule : Rule) × (first_rule ing ≡ some rule)
    × ((is_minion ing ≡ false) ⊎ ((paths : List HttpPath) × (rule.http ≡ some paths)))

-- Every object is stored under its own key, and every Ingress can be read.
pub record IsStored (c : Configuration) : Type 0 where
  pub ingress_key :
      (k : String) (ing : Ingress) → lookup k c.ingresses ≡ some ing → get_resource_key ing.meta ≡ k
  pub ingress_readable :
      (k : String) (ing : Ingress) → lookup k c.ingresses ≡ some ing → IsReadable ing
  pub virtual_server_key :
      (k : String) (vs : VirtualServer)
      → lookup k c.virtual_servers ≡ some vs
      → get_resource_key vs.meta ≡ k
  pub transport_server_key :
      (k : String) (ts : TransportServer)
      → lookup k c.transport_servers ≡ some ts
      → get_resource_key ts.meta ≡ k

select_minions-is_some :
    (host : String) (ing : Ingress) (ings : List Ingress)
    → IsReadable ing
    → is_some (select_minions host ings) ≡ true
    → is_some (select_minions host (ing ∷ ings)) ≡ true
unfolding select_minions
select_minions-is_some host ing ings r h = ground arith

-- The minions of a host are found without a panic if every Ingress can be read.
select_minions-some :
    (host : String) (ings : List Ingress)
    → ((ing : Ingress) → Elem ing ings → IsReadable ing)
    → is_some (select_minions host ings) ≡ true
unfolding select_minions
select_minions-some host [] h = refl
select_minions-some host (ing ∷ ings) h =
    select_minions-is_some host ing ings (h ing (inl refl))
      (select_minions-some host ings (λ i m. h i (inr m)))

sorted_ingress-IsReadable :
    (c : Configuration)
    → IsStored c
    → (ing : Ingress) → Elem ing (sorted_values c.ingresses)
    → IsReadable ing
sorted_ingress-IsReadable c st ing m =
    let (k, e) = sorted_values-Elem c.ingresses ing m in st.ingress_readable k ing e

build_minion_configs-some :
    (c : Configuration) (host : String) → IsStored c → is_some (build_minion_configs c host) ≡ true
unfolding build_minion_configs
build_minion_configs-some c host st =
    ground
      (arith, select_minions-some host (sorted_values c.ingresses) (sorted_ingress-IsReadable c st))

ingress_configuration-some :
    (c : Configuration) (ing : Ingress)
    → IsStored c
    → IsReadable ing
    → is_some (ingress_configuration c ing) ≡ true
unfolding ingress_configuration
ingress_configuration-some c ing st (rule, er, ok) =
    ground (arith, build_minion_configs-some c rule.host st)

ingress_resources-some :
    (c : Configuration) (ings : List Ingress)
    → IsStored c
    → ((ing : Ingress) → Elem ing ings → IsReadable ing)
    → is_some (ingress_resources c ings) ≡ true
unfolding ingress_resources
ingress_resources-some c [] st h = refl
ingress_resources-some c (ing ∷ ings) st h = ground (
  arith,
  ingress_configuration-some c ing st (h ing (inl refl)),
  ingress_resources-some c ings st (λ i m. h i (inr m)),
)

-- The resources are found without a panic.
pub new_resources-some :
    (env : Settings) (c : Configuration)
    → IsStored c
    → (rs : List Resource) × (new_resources env c ≡ some rs)
unfolding new_resources
new_resources-some env c st = of_is_some (new_resources env c) (
    ground (
      arith,
      ingress_resources-some c (sorted_values c.ingresses) st (sorted_ingress-IsReadable c st),
    ))

-- The resource of an Ingress is about the Ingress, and has no valid hosts yet.
pub ingress_configuration-ingress :
    (c : Configuration) (ing : Ingress) (ic : IngressConfiguration)
    → ingress_configuration c ing ≡ some ic
    → (ic.ingress ≡ ing) × (ic.valid_hosts ≡ [])
unfolding ingress_configuration
ingress_configuration-ingress c ing ic e = ground arith
