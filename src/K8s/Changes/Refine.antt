-- ===== src/K8s/Changes/Refine.antt =====
-- The changes between two assignments of names bring the deployed configuration from the one to the
-- other: nothing that is needed is missing or stale, and nothing that is not is left.
use aspenmesh_k3s_multiclust.Prelude.{
  String, ◌≡◌, ◌≢◌, refl, sym, ap, ◌∙◌, subst, ◌⊎◌, inl, inr, true, none, some, List, [], ◌++◌,
  Elem, Bool-cases, Option-cases, some_inj,
}
use aspenmesh_k3s_multiclust.Prelude.Dict.{Dict, lookup}
use aspenmesh_k3s_multiclust.K8s.Resource.{Resource, get_key_with_kind, is_equal}
use aspenmesh_k3s_multiclust.K8s.Resource.Order.{is_equal-key}
use aspenmesh_k3s_multiclust.K8s.Resource.Equality.{is_equal_trans}
use aspenmesh_k3s_multiclust.K8s.State.{ResourceChange}
use aspenmesh_k3s_multiclust.K8s.Changes.{key_of, delete_of, update_of, squash_resource_changes}
use aspenmesh_k3s_multiclust.K8s.Changes.Groups.{with_key}
use aspenmesh_k3s_multiclust.K8s.Changes.Squash.{squash_resource_changes-Distinct, list_cases}
use aspenmesh_k3s_multiclust.K8s.Changes.Final.{final_update, final_delete, final_none, has_key}
use aspenmesh_k3s_multiclust.K8s.Changes.Create.{HasLost, Created}
use aspenmesh_k3s_multiclust.K8s.Changes.Deploy.{
  Deployed, outcome, apply_changes, apply_changes-absent, apply_changes-present,
}

-- What is deployed for a resource is the resource, or equal to it.
abbrev pub UpToDate : Resource → Resource → Type 0
UpToDate q r = (q ≡ r) ⊎ (is_equal q r ≡ true)

-- Every holder of a name is deployed under its key, up to date, and nothing else is deployed.
pub record Represents (d : Deployed) (m : Dict Resource) : Type 0 where
  pub present :
      (name : String) (r : Resource)
      → lookup name m ≡ some r
      → (q : Resource) × (d (get_key_with_kind r) ≡ some q) × UpToDate q r
  pub absent :
      (k : String)
      → ((name : String) (r : Resource) → lookup name m ≡ some r → get_key_with_kind r ≢ k)
      → d k ≡ none

-- `Serves r name` says that the resource itself takes the name for its own.
module _ (Serves : Resource → String → Type 0) where
  -- An assignment in which a key stands for one resource, which serves the names that it holds.
  pub record Assignment (m : Dict Resource) : Type 0 where
    pub one :
        (name other : String) (r s : Resource)
        → lookup name m ≡ some r
        → lookup other m ≡ some s
        → get_key_with_kind r ≡ get_key_with_kind s
        → r ≡ s
    pub serves : (name : String) (r : Resource) → lookup name m ≡ some r → Serves r name
    pub holds :
        (name other : String) (r : Resource)
        → lookup name m ≡ some r
        → Serves r other
        → (s : Resource) × (lookup other m ≡ some s) × (get_key_with_kind s ≡ get_key_with_kind r)

  module _
      (Serves-equal : (r s : Resource) (name other : String)
        → is_equal r s ≡ true
        → Serves r name
        → Serves s name
        → Serves r other
        → Serves s other)
      (old new : Dict Resource) (old_ok : Assignment old) (new_ok : Assignment new)
      (deletes updates : List ResourceChange) (created : Created old new deletes updates)
      (d : Deployed) (deployed : Represents d old) where
    abbrev after : Deployed
    after = apply_changes (squash_resource_changes (deletes ++ updates)) d

    -- A resource that keeps a name and is equal to what it was loses no other name.
    keeps_all :
        (name : String) (o r : Resource)
        → lookup name old ≡ some o
        → lookup name new ≡ some r
        → is_equal o r ≡ true
        → (c : ResourceChange) → Elem c deletes
        → key_of c ≢ get_key_with_kind r
    keeps_all name o r eo er same c m k =
        let (other, p, ep, lost, ec) = created.lost c m in
        let is_o =
          old_ok.one other name p o ep eo (sym (ap key_of ec) ∙ k ∙ sym (is_equal-key o r same)) in
        let served =
          Serves-equal o r name other same (old_ok.serves name o eo) (new_ok.serves name r er)
            (subst (λ q. Serves q other) is_o (old_ok.serves other p ep)) in
        let (s, es, ks) = new_ok.holds name other r er served in
        elim lost [
          | inl gone ↦ cc (gone, es)
          | inr (n, en, ne, differ) ↦
              differ
                (sym (ap key_of ec) ∙ k ∙ sym ks ∙ ap get_key_with_kind (some_inj (sym es ∙ en)))
        ]

    unchanged :
        (name : String) (r : Resource)
        → lookup name new ≡ some r
        → with_key (get_key_with_kind r) updates ≡ []
        → (o : Resource) × (lookup name old ≡ some o) × (is_equal o r ≡ true)
    unchanged name r e none_updated = elim (Option-cases (lookup name old)) [
      | inl fresh ↦ absurd (
          has_key (get_key_with_kind r) (update_of r) updates (created.updated name r e (inl fresh))
            refl none_updated)
      | inr (o, eo) ↦ elim (Bool-cases (is_equal o r)) [
        | inl same ↦ (o, eo, same)
        | inr ne ↦ absurd (
            has_key (get_key_with_kind r) (update_of r) updates
              (created.updated name r e (inr (o, eo, ne))) refl none_updated)
      ]
    ]

    untouched :
        (k : String)
        → with_key k updates ≡ []
        → ((c : ResourceChange) → Elem c deletes → key_of c ≢ k)
        → after k ≡ d k
    untouched k none_updated none_deleted = elim (list_cases (with_key k deletes)) [
      | inl no_delete ↦
          apply_changes-absent (squash_resource_changes (deletes ++ updates)) d k
            (final_none k deletes updates none_updated no_delete)
      | inr some_delete ↦
          let (c, ms, mc, kc) = final_delete k deletes updates none_updated some_delete in
          absurd (none_deleted c mc kc)
    ]

    after-present :
        (name : String) (r : Resource)
        → lookup name new ≡ some r
        → (with_key (get_key_with_kind r) updates ≡ [])
          ⊎ (with_key (get_key_with_kind r) updates ≢ [])
        → (q : Resource) × (after (get_key_with_kind r) ≡ some q) × UpToDate q r
    after-present name r e (inl none_updated) =
        let (o, eo, same) = unchanged name r e none_updated in
        let (q, eq, fresh) = deployed.present name o eo in
        (
          q,
          untouched (get_key_with_kind r) none_updated (keeps_all name o r eo e same)
              ∙ ap d (sym (is_equal-key o r same))
              ∙ eq,
          elim fresh [
            | inl p ↦ inr (ap (λ x. is_equal x r) p ∙ same)
            | inr p ↦ inr (is_equal_trans q o r p same)
          ],
        )
    after-present name r e (inr some_update) =
        let (c, ms, mc, kc) = final_update (get_key_with_kind r) deletes updates some_update in
        let (other, p, ep, ec) = created.gained c mc in
        let is_r = new_ok.one other name p r ep e (sym (ap key_of ec) ∙ kc) in
        (
          r,
          ap after (sym kc)
              ∙ apply_changes-present (squash_resource_changes (deletes ++ updates)) d c
                  (squash_resource_changes-Distinct (deletes ++ updates)) ms
              ∙ ap outcome (ec ∙ ap update_of is_r),
          inl refl,
        )

    -- Nobody with the key holds a name now.
    module _ (k : String)
        (gone : (name : String) (r : Resource)
          → lookup name new ≡ some r
          → get_key_with_kind r ≢ k) where
      none_updates : with_key k updates ≡ []
      none_updates = elim (list_cases (with_key k updates)) [
        | inl empty ↦ empty
        | inr some_update ↦
            let (c, ms, mc, kc) = final_update k deletes updates some_update in
            let (name, r, e, ec) = created.gained c mc in
            absurd (gone name r e (sym (ap key_of ec) ∙ kc))
      ]

      loses :
          (name : String) (o : Resource)
          → lookup name old ≡ some o
          → get_key_with_kind o ≡ k
          → HasLost old new name o
      loses name o e ko = elim (Option-cases (lookup name new)) [
        | inl empty ↦ inl empty
        | inr (n, en) ↦
            let differ =
              λ (p : get_key_with_kind o ≡ get_key_with_kind n). gone name n en (sym p ∙ ko) in
            elim (Bool-cases (is_equal o n)) [
              | inl same ↦ absurd (differ (is_equal-key o n same))
              | inr ne ↦ inr (n, en, ne, differ)
            ]
      ]

      after-absent : after k ≡ none
      after-absent = elim (list_cases (with_key k deletes)) [
        | inr some_delete ↦
            let (c, ms, mc, kc) = final_delete k deletes updates none_updates some_delete in
            let (name, o, e, lost, ec) = created.lost c mc in
            ap after (sym kc)
            ∙ apply_changes-present (squash_resource_changes (deletes ++ updates)) d c
                (squash_resource_changes-Distinct (deletes ++ updates)) ms
            ∙ ap outcome ec
        | inl no_delete ↦
            apply_changes-absent (squash_resource_changes (deletes ++ updates)) d k
              (final_none k deletes updates none_updates no_delete)
            ∙ deployed.absent k (λ name o e ko.
              has_key k (delete_of o) deletes (created.deleted name o e (loses name o e ko)) ko
                no_delete)
      ]

    pub changes-Represents : Represents after new
    changes-Represents = record {
      present =
          λ name r e. after-present name r e (list_cases (with_key (get_key_with_kind r) updates));
      absent = after-absent;
    }
