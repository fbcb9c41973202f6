-- ===== src/K8s/Minions.antt =====
-- internal/k8s/configuration.go, buildMinionConfigs: the minions of a master Ingress, and which of
-- them serves each path. A minion is known by the key of its Ingress.
use aspenmesh_k3s_multiclust.Prelude.{
  String, Bool, true, false, Option, none, some, List, [], ◌∷◌, ◌++◌, map, ◌==◌, ◌>>=◌,
  if◌then◌else◌,
}
use aspenmesh_k3s_multiclust.Prelude.Texts.{concat}
use aspenmesh_k3s_multiclust.Prelude.Dict.{Dict, lookup, insert}
use aspenmesh_k3s_multiclust.Prelude.Sorting.{sorted_values}
use aspenmesh_k3s_multiclust.K8s.Objects.{Ingress, Rule, HttpPath, is_minion, get_resource_key}
use aspenmesh_k3s_multiclust.K8s.Resource.{
  MinionConfiguration, choose_object_meta_winner, new_minion_configuration,
}
use aspenmesh_k3s_multiclust.K8s.Contest.{
  Event, took, ousted, refused, Contest, no_claims, claim_each,
}
use aspenmesh_k3s_multiclust.K8s.State.{Configuration}

-- ing.Spec.Rules[0], which panics when there is no rule.
unfoldable pub first_rule : Ingress → Option Rule
first_rule ing = elim ing.rules [ [] ↦ none | rule ∷ _ ↦ some rule ]

-- The minions of the host with their paths, in the order given; a rule without `http` panics.
unfoldable pub select_minions : String → List Ingress → Option (List (Ingress × List HttpPath))
unfolding first_rule
select_minions master_host [] = some []
select_minions master_host (ing ∷ ings) =
    let rest = select_minions master_host ings in
    if is_minion ing
    then (first_rule ing >>= λ rule.
        if master_host == rule.host
        then (rule.http >>= λ paths. rest >>= λ minions. some ((ing, paths) ∷ minions))
        else rest)
    else rest

abbrev pub minion_wins : Ingress → Ingress → Bool
minion_wins i j = choose_object_meta_winner i.meta j.meta

unfoldable pub claim_paths : List (Ingress × List HttpPath) → Contest Ingress → Contest Ingress
claim_paths [] s = s
claim_paths ((ing, paths) ∷ minions) s =
    claim_paths minions (claim_each minion_wins ing (map (λ (p : HttpPath). p.path) paths) s)

-- The writes to the map ValidPaths of one minion, in order.
unfoldable pub valid_paths_of : String → List (Event Ingress) → Dict Bool → Dict Bool
valid_paths_of key [] valid = valid
valid_paths_of key (took ing path ∷ events) valid =
    valid_paths_of key events
      (if get_resource_key ing.meta == key then insert path true valid else valid)
valid_paths_of key (ousted ing path ∷ events) valid =
    valid_paths_of key events
      (if get_resource_key ing.meta == key then insert path false valid else valid)
valid_paths_of key (refused ing path ∷ events) valid = valid_paths_of key events valid

append_at : String → String → Dict (List String) → Dict (List String)
append_at key warning warnings = elim (lookup key warnings) [
  | none ↦ insert key (warning ∷ []) warnings
  | some ws ↦ insert key (ws ++ warning ∷ []) warnings
]

abbrev path_warning : String → String
path_warning path = concat ("path " ∷ path ∷ " is taken by another resource" ∷ [])

unfoldable pub child_warnings_of : List (Event Ingress) → Dict (List String) → Dict (List String)
unfolding append_at
child_warnings_of [] warnings = warnings
child_warnings_of (took ing path ∷ events) warnings = child_warnings_of events warnings
child_warnings_of (ousted ing path ∷ events) warnings =
    child_warnings_of events (append_at (get_resource_key ing.meta) (path_warning path) warnings)
child_warnings_of (refused ing path ∷ events) warnings =
    child_warnings_of events (append_at (get_resource_key ing.meta) (path_warning path) warnings)

unfoldable pub minion_configuration :
    List (Event Ingress) → Ingress × List HttpPath → MinionConfiguration
minion_configuration events (ing, paths) = record (new_minion_configuration ing) {
  valid_paths = valid_paths_of (get_resource_key ing.meta) events [];
}

unfoldable pub build_minion_configs :
    Configuration → String → Option (List MinionConfiguration × Dict (List String))
build_minion_configs c master_host =
    select_minions master_host (sorted_values c.ingresses) >>= λ minions.
    let events = (claim_paths minions no_claims).events in
    some (map (minion_configuration events) minions, child_warnings_of events [])
