-- ===== src/K8s/Rebuild/Effect.antt =====
-- What rebuildHosts achieves: applying its changes to what is deployed gives the new assignment.
use aspenmesh_k3s_multiclust.Prelude.{
  of_is_some, ◌≡◌, refl, sym, ap, ◌∙◌, subst, ◌⊎◌, inl, inr, true, some, List, ◌∷◌, ◌++◌, map,
  >>=-eq-some, some_inj, Elem, Elem-append, Elem-append_right,
}
use aspenmesh_k3s_multiclust.Prelude.Dict.{Dict, lookup}
use aspenmesh_k3s_multiclust.K8s.Resource.{Resource}
use aspenmesh_k3s_multiclust.K8s.State.{
  ResourceChange, ConfigurationProblem, Configuration, Settings,
}
use aspenmesh_k3s_multiclust.K8s.Hosts.{build_hosts_and_resources}
use aspenmesh_k3s_multiclust.K8s.Hosts.Stored.{IsStored}
use aspenmesh_k3s_multiclust.K8s.Hosts.Coherence.{ServesHost, ServesHost-equal}
use aspenmesh_k3s_multiclust.K8s.Hosts.Built.{
  build_hosts_and_resources-Assignment, holder_in_resources, resources_key,
}
use aspenmesh_k3s_multiclust.K8s.Changes.{
  removed_names, updated_names, added_names, create_resource_changes, squash_resource_changes,
  key_of, is_delete,
}
use aspenmesh_k3s_multiclust.K8s.Changes.Create.{Created, create_resource_changes-Created}
use aspenmesh_k3s_multiclust.K8s.Changes.Squash.{IsLast, squash_resource_changes-IsLast}
use aspenmesh_k3s_multiclust.K8s.Changes.Deploy.{Deployed, apply_changes}
use aspenmesh_k3s_multiclust.K8s.Changes.Refine.{Represents, Assignment, changes-Represents}
use aspenmesh_k3s_multiclust.K8s.Rebuild.{Outcome, refresh, host_problems_of, rebuild_hosts}
use aspenmesh_k3s_multiclust.K8s.Rebuild.Total.{rebuild_hosts-is_some}
use aspenmesh_k3s_multiclust.K8s.Rebuild.Refresh.{
  IsSameEffect, apply_changes-map, refresh-IsSameEffect,
}

-- The parts of an outcome.
abbrev pub state_of : Outcome → Configuration
state_of (c, changes, problems) = c

abbrev pub changes_of : Outcome → List ResourceChange
changes_of (c, changes, problems) = changes

-- What is stored does not change, the hosts are those built, and the changes are squashed, refreshed.
abbrev Rebuilt : Settings → Configuration → Outcome → Type 0
Rebuilt env c out =
    (hosts : Dict Resource) × (resources : Dict Resource) × (problems : Dict ConfigurationProblem)
    × (deletes : List ResourceChange) × (updates : List ResourceChange) × (build_hosts_and_resources
          env c
        ≡ some (hosts, resources))
    × Created c.hosts hosts deletes updates
    × (state_of out ≡ record c { hosts = hosts; host_problems = problems })
    × (changes_of out ≡ map (refresh resources) (squash_resource_changes (deletes ++ updates)))

pub rebuilt :
    (env : Settings) (c : Configuration) (out : Outcome)
    → rebuild_hosts env c ≡ some out
    → Rebuilt env c out
unfolding rebuild_hosts
rebuilt env c out e =
    let ((hosts, resources), eb, rest) = >>=-eq-some (build_hosts_and_resources env c) _ e in
    let (deletes, updates, ec, created) = create_resource_changes-Created c.hosts hosts in
    let (changes, ech, more) =
      >>=-eq-some
        (create_resource_changes (removed_names c.hosts hosts) (updated_names c.hosts hosts)
          (added_names c.hosts hosts) c.hosts hosts)
        _ rest in
    let (problems, ep, last) = >>=-eq-some (host_problems_of c hosts resources) _ more in
    (
      hosts,
      resources,
      problems,
      deletes,
      updates,
      eb,
      created,
      ap state_of (sym (some_inj last)),
      ap changes_of (sym (some_inj last))
          ∙ ap (λ cs. map (refresh resources) (squash_resource_changes cs))
              (some_inj (sym ech ∙ ec)),
    )

IsLast-Elem : (d : ResourceChange) (cs : List ResourceChange) → IsLast d cs → Elem d cs
IsLast-Elem d cs (before, after, e, none_after) =
    subst (Elem d) (sym e) (Elem-append_right d before (d ∷ after) (inl refl))

module _ (env : Settings) (c : Configuration) (hosts resources : Dict Resource) (st : IsStored c)
    (built : build_hosts_and_resources env c ≡ some (hosts, resources))
    (deletes updates : List ResourceChange) (created : Created c.hosts hosts deletes updates) where
  same_effect :
      (change : ResourceChange)
      → Elem change (squash_resource_changes (deletes ++ updates))
      → IsSameEffect (refresh resources) change
  same_effect change m = refresh-IsSameEffect resources change (λ r e. (
    resources_key env c hosts resources (key_of change) r built e,
    by_part r e (
        Elem-append change deletes updates (
          IsLast-Elem change (deletes ++ updates)
            ((squash_resource_changes-IsLast (deletes ++ updates) change).0 m))),
  ))
    where
      by_part :
          (r : Resource)
          → lookup (key_of change) resources ≡ some r
          → Elem change deletes ⊎ Elem change updates
          → (is_delete change ≡ true) ⊎ (r ≡ change.resource)
      by_part r e (inl n) = let (host, o, eo, lost, ec) = created.lost change n in inl (rw ec)
      by_part r e (inr n) =
          let (host, o, eo, ec) = created.gained change n in
          inr (
            some_inj (
              sym e
              ∙ ap (λ (x : ResourceChange). lookup (key_of x) resources) ec
              ∙ holder_in_resources env c hosts resources host o st built eo)
            ∙ ap (λ (x : ResourceChange). x.resource) (sym ec))

  refreshed-Represents :
      (d : Deployed)
      → Assignment ServesHost c.hosts
      → Represents d c.hosts
      → Represents
          (apply_changes (map (refresh resources) (squash_resource_changes (deletes ++ updates))) d)
          hosts
  refreshed-Represents d old_ok deployed =
      subst (λ e. Represents e hosts)
        (sym (
          apply_changes-map (refresh resources) (squash_resource_changes (deletes ++ updates)) d
            same_effect))
        (changes-Represents ServesHost ServesHost-equal c.hosts hosts old_ok
          (build_hosts_and_resources-Assignment env c hosts resources st built) deletes updates
          created d deployed)

-- The state after: its hosts are an assignment, and the changes bring what is deployed to it.
abbrev pub Reaches : Deployed → Outcome → Type 0
Reaches d out =
    Assignment ServesHost (state_of out).hosts
    × Represents (apply_changes (changes_of out) d) (state_of out).hosts

-- Whatever rebuildHosts returns is the next assignment, and its changes lead there.
pub rebuild_hosts-Reaches :
    (env : Settings) (c : Configuration) (d : Deployed) (out : Outcome)
    → IsStored c
    → Assignment ServesHost c.hosts
    → Represents d c.hosts
    → rebuild_hosts env c ≡ some out
    → Reaches d out
rebuild_hosts-Reaches env c d out st old_ok deployed e =
    let (hosts, resources, problems, deletes, updates, eb, created, es, ec) = rebuilt env c out e in
    let eh = ap (λ (x : Configuration). x.hosts) es in
    (
      subst (Assignment ServesHost) (sym eh)
          (build_hosts_and_resources-Assignment env c hosts resources st eb),
      rw (ec, eh)
          (refreshed-Represents env c hosts resources st eb deletes updates created d old_ok
            deployed),
    )

-- With stored objects, hosts that are an assignment and a deployed configuration that represents
-- them, rebuildHosts returns, the new hosts are an assignment, and applying the returned changes to
-- what is deployed gives a configuration that represents the new hosts.
pub rebuild_hosts_lem :
    (env : Settings) (c : Configuration) (d : Deployed)
    → IsStored c
    → Assignment ServesHost c.hosts
    → Represents d c.hosts
    → (out : Outcome) × (rebuild_hosts env c ≡ some out) × Reaches d out
rebuild_hosts_lem env c d st old_ok deployed =
    let (out, e) = of_is_some (rebuild_hosts env c) (rebuild_hosts-is_some env c st) in
    (out, e, rebuild_hosts-Reaches env c d out st old_ok deployed e)
