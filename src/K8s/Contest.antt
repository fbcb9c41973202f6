-- ===== src/K8s/Contest.antt =====
-- internal/k8s/configuration.go: the loop body that the host, listener and path assignments share.
-- A resource claims a name: it takes a free one, and takes a held one unless the holder wins.
pub mod Winner
pub mod Claimed
use aspenmesh_k3s_multiclust.Prelude.{
  String, Bool, true, Option, none, some, List, [], ◌∷◌, ◌++◌, if◌then◌else◌,
}
use aspenmesh_k3s_multiclust.Prelude.Dict.{Dict, lookup, insert}

-- What a claim makes known: who took a name, which holder lost it, which claimant was turned down.
pub data Event {ℓ} (A : Type ℓ) : Type ℓ where
  took : A → String → Event A
  ousted : A → String → Event A
  refused : A → String → Event A

pub record Contest {ℓ} (A : Type ℓ) : Type ℓ where
  pub holders : Dict A
  pub events : List (Event A)

abbrev pub no_claims {ℓ} : {A : Type ℓ} → Contest A
no_claims = record { holders = []; events = [] }

module _ {ℓ} {A : Type ℓ} (beats : A → A → Bool) where
  unfoldable pub claim : A → String → Contest A → Contest A
  claim a name s = elim (lookup name s.holders) [
    | none ↦ record { holders = insert name a s.holders; events = s.events ++ took a name ∷ [] }
    | some holder ↦
        if beats holder a then record s { events = s.events ++ refused a name ∷ [] } else (record {
          holders = insert name a s.holders;
          events = s.events ++ took a name ∷ ousted holder name ∷ [];
        })
  ]

  -- One resource claims several names, in order.
  unfoldable pub claim_each : A → List String → Contest A → Contest A
  claim_each a [] s = s
  claim_each a (name ∷ names) s = claim_each a names (claim a name s)

-- The claims that have been made, the last one first, after those of one more value.
abbrev pub with_claims {ℓ} : {A : Type ℓ} → A → List String → List (A × String) → List (A × String)
with_claims a [] claims = claims
with_claims a (name ∷ names) claims = with_claims a names ((a, name) ∷ claims)
