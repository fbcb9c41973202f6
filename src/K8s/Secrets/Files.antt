-- ===== src/K8s/Secrets/Files.antt =====
-- The secrets on the file system are those whose reference has a path, and they are valid.
use aspenmesh_k3s_multiclust.Prelude.{
  String, ◌≡◌, refl, sym, ap, ◌∙◌, subst, ◌⊎◌, inl, inr, Bool, true, false, Option, none, some,
  List, [], ◌∷◌, ◌++◌, ◌==◌, eq_iff, eq_refl, arith, Bool-cases, if◌then◌else◌,
}
use aspenmesh_k3s_multiclust.Prelude.Dict.{
  lookup, insert, remove, lookup-insert_ne, lookup-insert_self, lookup-remove, lookup-remove_ne,
}
use aspenmesh_k3s_multiclust.K8s.Objects.{get_resource_key}
use aspenmesh_k3s_multiclust.K8s.Secrets.{
  Secret, SecretReference, FileCall, write_file, delete_file, LocalSecretStore, SecretSettings,
  validate_secret, reference_for, path_before, updated_reference, add_or_update_secret,
  delete_secret, without,
}

module _ (env : SecretSettings) where
  -- The secret that is on the file of the key after the calls, the last one first: a write whose
  -- returned path is empty makes no file.
  abbrev pub on_file : String → List FileCall → Option Secret
  on_file key [] = none
  on_file key (write_file secret ∷ calls) =
      let rest = on_file key calls in
      if env.file_path secret == ""
      then rest
      else (if get_resource_key secret.meta == key then some secret else rest)
  on_file key (delete_file k ∷ calls) =
      let rest = on_file key calls in if k == key then none else rest

  -- The reference is on no file, or its secret, which is valid, is on the file at its path.
  abbrev pub FileOf : String → List FileCall → SecretReference → Secret → Type 0
  FileOf key calls ref secret =
      ((ref.path ≡ "") × (on_file key calls ≡ none))
      ⊎ (((ref.path == "") ≡ false)
          × (ref.path ≡ env.file_path secret)
          × (ref.error ≡ none)
          × (on_file key calls ≡ some secret))

  abbrev pub HoldsAt : String → List FileCall → Option SecretReference → Type 0
  HoldsAt key calls none = on_file key calls ≡ none
  HoldsAt key calls (some ref) =
      (secret : Secret) × (ref.secret ≡ some secret)
      × (get_resource_key secret.meta ≡ key)
      × (ref.error ≡ validate_secret env secret)
      × FileOf key calls ref secret

  -- Every reference is about the secret of its key, holds the outcome of its validation, and is on
  -- the file system exactly when it has a path, which only a valid secret has.
  abbrev pub IsConsistent : LocalSecretStore → Type 0
  IsConsistent s = (key : String) → HoldsAt key s.calls (lookup key s.secrets)

  -- The secret that is stored under the key makes a file exactly when the new one does.
  abbrev pub KeepsKind : Secret → Option SecretReference → Type 0
  KeepsKind secret none = Unit
  KeepsKind secret (some ref) =
      (old : Secret)
      → ref.secret ≡ some old
      → (env.file_path old == "") ≡ (env.file_path secret == "")

  reference_for-HoldsAt :
      (secret : Secret) (had_no_path : Bool) (error : Option String) (calls : List FileCall)
      → error ≡ validate_secret env secret
      → ((had_no_path ≡ true) × (on_file (get_resource_key secret.meta) calls ≡ none))
        ⊎ ((had_no_path ≡ false) × ((env.file_path secret == "") ≡ false))
      → HoldsAt
          (get_resource_key secret.meta)
          ((reference_for env secret had_no_path error).1 ++ calls)
          (some (reference_for env secret had_no_path error).0)
  reference_for-HoldsAt secret true error calls e (inl (t, h)) =
      (secret, refl, refl, e, inl (refl, h))
  reference_for-HoldsAt secret true error calls e (inr (t, h)) = cc
  reference_for-HoldsAt secret false error calls e (inl (t, h)) = cc
  reference_for-HoldsAt secret false none calls e (inr (t, h)) =
      (secret, refl, refl, e, inr (h, refl, refl, rw (h, eq_refl)))
  reference_for-HoldsAt secret false (some err) calls e (inr (t, h)) =
      (secret, refl, refl, e, inl (refl, rw eq_refl))

  -- The calls for one key leave the files of the others.
  pub reference_for-other :
      (secret : Secret) (had_no_path : Bool) (error : Option String) (calls : List FileCall)
      (key : String)
      → (get_resource_key secret.meta == key) ≡ false
      → on_file key ((reference_for env secret had_no_path error).1 ++ calls) ≡ on_file key calls
  reference_for-other secret true error calls key h = refl
  reference_for-other secret false none calls key h = ground arith
  reference_for-other secret false (some err) calls key h = rw h

  pub same_calls :
      (key : String) (calls more : List FileCall) (o : Option SecretReference)
      → on_file key more ≡ on_file key calls
      → HoldsAt key calls o
      → HoldsAt key more o
  same_calls key calls more none e h = e ∙ h
  same_calls key calls more (some ref) e (secret, es, ek, ev, inl (p, f)) =
      (secret, es, ek, ev, inl (p, e ∙ f))
  same_calls key calls more (some ref) e (secret, es, ek, ev, inr (p, q, r, f)) =
      (secret, es, ek, ev, inr (p, q, r, e ∙ f))

  -- What an update finds: no file of the key, or a file that the new secret will have as well.
  before_update :
      (secret : Secret) (calls : List FileCall) (o : Option SecretReference)
      → HoldsAt (get_resource_key secret.meta) calls o
      → KeepsKind secret o
      → ((path_before env o == "") ≡ true × (on_file (get_resource_key secret.meta) calls ≡ none))
        ⊎ (((path_before env o == "") ≡ false) × ((env.file_path secret == "") ≡ false))
  before_update secret calls none h k = inl (eq_refl "", h)
  before_update secret calls (some ref) (old, eo, ek, ev, inl (p, f)) k =
      inl ((eq_iff ref.path "").1 p, f)
  before_update secret calls (some ref) (old, eo, ek, ev, inr (p, q, r, f)) k =
      inr (p, sym (k old eo) ∙ ap (λ w. w == "") (sym q) ∙ p)

  -- A store whose references agree with the validation of their secrets and with the files stays so
  -- when a secret is added or updated, if the new secret makes a file exactly when the one that it
  -- replaces does.
  pub add_or_update_secret-IsConsistent :
      (secret : Secret) (s : LocalSecretStore)
      → IsConsistent s
      → KeepsKind secret (lookup (get_resource_key secret.meta) s.secrets)
      → IsConsistent (add_or_update_secret env secret s)
  unfolding add_or_update_secret updated_reference
  add_or_update_secret-IsConsistent secret s ok k key =
      elim (Bool-cases (get_resource_key secret.meta == key)) [
        | inl t ↦
            subst (λ x. HoldsAt x (made.1 ++ s.calls) (lookup x (insert own made.0 s.secrets)))
              ((eq_iff own key).0 t)
              (subst (HoldsAt own (made.1 ++ s.calls))
                (sym (lookup-insert_self own made.0 s.secrets))
                (reference_for-HoldsAt secret (path == "") (validate_secret env secret) s.calls refl
                  (before_update secret s.calls (lookup own s.secrets) (ok own) k)))
        | inr t ↦
            subst (HoldsAt key (made.1 ++ s.calls))
              (sym (lookup-insert_ne own key made.0 s.secrets t))
              (same_calls key s.calls (made.1 ++ s.calls) (lookup key s.secrets)
                (reference_for-other secret (path == "") (validate_secret env secret) s.calls key t)
                (ok key))
      ]
    where
      own : String
      own = get_resource_key secret.meta

      path : String
      path = path_before env (lookup own s.secrets)

      made : SecretReference × List FileCall
      made = reference_for env secret (path == "") (validate_secret env secret)

  -- Without a reference there is no file, whatever the reference was.
  without-file :
      (key : String) (ref : SecretReference) (calls : List FileCall)
      → HoldsAt key calls (some ref)
      → on_file key (if ref.path == "" then calls else delete_file key ∷ calls) ≡ none
  without-file key ref calls (secret, es, ek, ev, inl (p, f)) = rw ((eq_iff ref.path "").1 p, f)
  without-file key ref calls (secret, es, ek, ev, inr (p, q, r, f)) = rw (p, eq_refl)

  without-IsConsistent :
      (key : String) (o : Option SecretReference) (s : LocalSecretStore)
      → lookup key s.secrets ≡ o
      → IsConsistent s
      → IsConsistent (without env key o s)
  without-IsConsistent key none s e ok j = ok j
  without-IsConsistent key (some ref) s e ok j = elim (Bool-cases (key == j)) [
    | inl t ↦
        let gone : lookup j (remove key s.secrets) ≡ none = (rw lookup-remove (rw t)) in
        subst (HoldsAt j calls) (sym gone) (
          subst (λ x. on_file x calls ≡ none) ((eq_iff key j).0 t)
            (without-file key ref s.calls (subst (HoldsAt key s.calls) e (ok key))))
    | inr t ↦ subst (HoldsAt j calls) (sym (lookup-remove_ne key j s.secrets t)) (
        same_calls j s.calls calls (lookup j s.secrets) (other t (Bool-cases (ref.path == "")))
          (ok j))
  ]
    where
      calls : List FileCall
      calls = if ref.path == "" then s.calls else delete_file key ∷ s.calls

      other :
          (key == j) ≡ false
          → ((ref.path == "") ≡ true) ⊎ ((ref.path == "") ≡ false)
          → on_file j calls ≡ on_file j s.calls
      other t (inl p) = rw p
      other t (inr p) = rw (p, t)

  abbrev after_delete : Bool → List FileCall → String → List FileCall
  after_delete had_no_path calls key = if had_no_path then calls else delete_file key ∷ calls

  after_delete-other :
      (had_no_path : Bool) (calls : List FileCall) (key other : String)
      → (key == other) ≡ false
      → on_file other (after_delete had_no_path calls key) ≡ on_file other calls
  after_delete-other true calls key other h = refl
  after_delete-other false calls key other h = rw h

  -- What is stored under the other keys, and their files.
  abbrev pub KeepsOthers : String → (before after : LocalSecretStore) → Type 0
  KeepsOthers key before after =
      (other : String)
      → (key == other) ≡ false
      → (lookup other after.secrets ≡ lookup other before.secrets)
        × (on_file other after.calls ≡ on_file other before.calls)

  without-KeepsOthers :
      (key : String) (o : Option SecretReference) (s : LocalSecretStore)
      → KeepsOthers key s (without env key o s)
  without-KeepsOthers key none s other h = (refl, refl)
  without-KeepsOthers key (some ref) s other h = (
    lookup-remove_ne key other s.secrets h,
    after_delete-other (ref.path == "") s.calls key other h,
  )

  without-gone :
      (key : String) (o : Option SecretReference) (s : LocalSecretStore)
      → lookup key s.secrets ≡ o
      → lookup key (without env key o s).secrets ≡ none
  without-gone key none s e = e
  without-gone key (some ref) s e = rw lookup-remove (rw eq_refl)

  -- When a secret is deleted from a consistent store, the store stays consistent, nothing is stored
  -- under its key and no file of it is left, and what is stored under the other keys, and their
  -- files, are as before.
  pub delete_secret_lem :
      (key : String) (s : LocalSecretStore)
      → IsConsistent s
      → IsConsistent (delete_secret env key s)
        × (lookup key (delete_secret env key s).secrets ≡ none)
        × (on_file key (delete_secret env key s).calls ≡ none)
        × KeepsOthers key s (delete_secret env key s)
  unfolding delete_secret
  delete_secret_lem key s ok =
      let stored = lookup key s.secrets in
      let kept = without-IsConsistent key stored s refl ok in
      let gone = without-gone key stored s refl in
      (
        kept,
        gone,
        subst (HoldsAt key (without env key stored s).calls) gone (kept key),
        without-KeepsOthers key stored s,
      )
