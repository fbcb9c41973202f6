-- ===== src/K8s/Operations/Outcomes.antt =====
-- What becomes of an object that is added or updated: it is stored if it is of the right class and
-- valid, and the error of one that is not valid is reported.
use aspenmesh_k3s_multiclust.Prelude.{
  String, ◌≡◌, refl, ap, ◌∙◌, subst, ◌⊎◌, inl, inr, Bool, true, false, Option, none, some, List, [],
  ◌∷◌, ◌==◌, >>=-eq-some, eq_iff, some_inj, Elem, Elem-append_right, Bool-cases, eq_refl,
}
use aspenmesh_k3s_multiclust.Prelude.Dict.{Dict, lookup, remove, lookup-insert_self, lookup-remove}
use aspenmesh_k3s_multiclust.K8s.Objects.{Ingress, get_resource_key, get_resource_key_with_kind}
use aspenmesh_k3s_multiclust.K8s.Resource.{ingress_kind}
use aspenmesh_k3s_multiclust.K8s.State.{
  Object, ingress, ResourceChange, ConfigurationProblem, Configuration, Settings,
}
use aspenmesh_k3s_multiclust.K8s.Changes.{key_of}
use aspenmesh_k3s_multiclust.K8s.Validation.{validate_ingress}
use aspenmesh_k3s_multiclust.K8s.Rebuild.{Outcome, rebuild_hosts}
use aspenmesh_k3s_multiclust.K8s.Rebuild.Effect.{state_of, changes_of, rebuilt}
use aspenmesh_k3s_multiclust.K8s.Operations.{
  attach_error, rejection, reported, report_error, store_object, error_in_class, to_aggregate,
  add_or_update_ingress,
}
use aspenmesh_k3s_multiclust.K8s.Operations.Stores.{no_error}
use aspenmesh_k3s_multiclust.K8s.Hosts.Stored.{IsStored}
use aspenmesh_k3s_multiclust.K8s.Operations.Requests.{put_ingress, handle}
use aspenmesh_k3s_multiclust.K8s.Operations.Total.{handle-IsSafe}
use aspenmesh_k3s_multiclust.K8s.Operations.Errors.{report_error-state}

abbrev pub problems_of : Outcome → List ConfigurationProblem
problems_of (c, changes, problems) = problems

attach_error-Elem :
    (key err : String) (cs ds : List ResourceChange)
    → attach_error key err cs ≡ some ds
    → (c : ResourceChange) × Elem c ds × (key_of c ≡ key) × (c.error ≡ err)
unfolding attach_error
attach_error-Elem key err [] ds e = cc
attach_error-Elem key err (c ∷ cs) ds e = elim (Bool-cases (key_of c == key)) [
  | inl t ↦ (
    record c { error = err },
    subst (Elem (record c { error = err })) (some_inj (rw t at e)) (inl refl),
    (eq_iff (key_of c) key).0 t,
    refl,
  )
  | inr t ↦
      let (rest, er, last) = >>=-eq-some (attach_error key err cs) _ (rw t at e) in
      let (d, m, k, f) = attach_error-Elem key err cs rest er in
      (d, subst (Elem d) (some_inj last) (inr m), k, f)
]

-- The error goes with a change of the resource, or with a problem of the object.
abbrev pub IsReported : String → String → ConfigurationProblem → Outcome → Type 0
IsReported key err problem out =
    ((c : ResourceChange) × Elem c (changes_of out) × (key_of c ≡ key) × (c.error ≡ err))
    ⊎ Elem problem (problems_of out)

report_error-IsReported :
    (key : String) (object : Object) (err : String) (message : String → String) (out : Outcome)
    → IsReported key err
        (rejection object (message err))
        (report_error key object (some err) message out)
unfolding report_error
report_error-IsReported key object err message (c, changes, problems) =
    by_change (attach_error key err changes) refl
  where
    problem : ConfigurationProblem
    problem = rejection object (message err)

    by_change :
        (o : Option (List ResourceChange))
        → attach_error key err changes ≡ o
        → IsReported key err problem (reported (c, changes, problems) problem o)
    by_change none e = inr (Elem-append_right problem problems (problem ∷ []) (inl refl))
    by_change (some ds) e = inl (attach_error-Elem key err changes ds e)

-- What an Ingress has become: stored, of no concern, or dropped with its error reported.
abbrev pub IsHandled : Settings → Ingress → Outcome → Type 0
IsHandled env ing out =
    ((env.has_correct_ingress_class (ingress ing) ≡ true)
      × (validate_ingress env ing ≡ [])
      × (lookup (get_resource_key ing.meta) (state_of out).ingresses ≡ some ing))
    ⊎ ((env.has_correct_ingress_class (ingress ing) ≡ false)
        × (lookup (get_resource_key ing.meta) (state_of out).ingresses ≡ none))
    ⊎ ((err : String) × (env.has_correct_ingress_class (ingress ing) ≡ true)
        × (to_aggregate env (validate_ingress env ing) ≡ some err)
        × (lookup (get_resource_key ing.meta) (state_of out).ingresses ≡ none)
        × IsReported (get_resource_key_with_kind ingress_kind ing.meta) err
            (rejection (ingress ing) err) out)

removed {ℓ} : {V : Type ℓ} (key : String) (m : Dict V) → lookup key (remove key m) ≡ none
removed key m = rw lookup-remove (rw eq_refl)

module _ (env : Settings) (ing : Ingress) (c : Configuration) where
  abbrev report : Option String → Outcome → Outcome
  report o before =
      report_error (get_resource_key_with_kind ingress_kind ing.meta) (ingress ing) o (λ e. e)
        before

  stored_after :
      (o : Option String) (before : Outcome) (found : Option Ingress) (ings : Dict Ingress)
      → (state_of before).ingresses ≡ ings
      → lookup (get_resource_key ing.meta) ings ≡ found
      → lookup (get_resource_key ing.meta) (state_of (report o before)).ingresses ≡ found
  stored_after o before found ings es e =
      ap (λ (x : Configuration). lookup (get_resource_key ing.meta) x.ingresses)
        (report_error-state (get_resource_key_with_kind ingress_kind ing.meta) (ingress ing) o
          (λ e. e) before)
      ∙ ap (lookup (get_resource_key ing.meta)) es
      ∙ e

  -- The outcome of the operation, by the class and the error.
  handled :
      (correct_class : Bool) (o : Option String) (before : Outcome)
      → env.has_correct_ingress_class (ingress ing) ≡ correct_class
      → to_aggregate env (validate_ingress env ing) ≡ o
      → (state_of before).ingresses
        ≡ store_object correct_class o (get_resource_key ing.meta) ing c.ingresses
      → IsHandled env ing (report (error_in_class correct_class o) before)
  unfolding store_object
  handled false o before ec eo es = inr (
      inl
        (ec, stored_after none before none _ es (removed (get_resource_key ing.meta) c.ingresses)))
  handled true none before ec eo es = inl (
    ec,
    no_error env (validate_ingress env ing) eo,
    stored_after none before (some ing) _ es
        (lookup-insert_self (get_resource_key ing.meta) ing c.ingresses),
  )
  handled true (some err) before ec eo es = inr (
      inr (
        err,
        ec,
        eo,
        stored_after (some err) before none _ es (removed (get_resource_key ing.meta) c.ingresses),
        report_error-IsReported (get_resource_key_with_kind ingress_kind ing.meta) (ingress ing) err
            (λ e. e) before,
      ))

  -- Whatever the operation returns, the Ingress is handled.
  pub add_or_update_ingress-IsHandled :
      (out : Outcome) → add_or_update_ingress env ing c ≡ some out → IsHandled env ing out
  unfolding add_or_update_ingress
  add_or_update_ingress-IsHandled out e =
      let correct_class = env.has_correct_ingress_class (ingress ing) in
      let o = to_aggregate env (validate_ingress env ing) in
      let next = record c {
        ingresses = store_object correct_class o (get_resource_key ing.meta) ing c.ingresses;
      } in
      let (before, eb, last) = >>=-eq-some (rebuild_hosts env next) _ e in
      let (hosts, resources, problems, deletes, updates, eh, created, es, ec) =
        rebuilt env next before eb in
      subst (IsHandled env ing) (some_inj last)
        (handled correct_class o before refl refl (ap (λ (x : Configuration). x.ingresses) es))

-- With stored objects, AddOrUpdateIngress returns, and the Ingress is then of the right class, valid
-- and stored; or of another class and not stored; or of the right class, not valid and not stored,
-- and its error is in a change of the resource or in a problem of the Ingress.
pub add_or_update_ingress_lem :
    (env : Settings) (ing : Ingress) (c : Configuration)
    → IsStored c
    → (out : Outcome) × (add_or_update_ingress env ing c ≡ some out) × IsHandled env ing out
unfolding handle
add_or_update_ingress_lem env ing c st =
    let (out, e, st1) = handle-IsSafe env (put_ingress ing) c st in
    (out, e, add_or_update_ingress-IsHandled env ing c out e)
