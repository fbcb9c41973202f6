-- ===== src/K8s/Secrets/Fetched.antt =====
-- What GetSecret returns, and that it writes the file of a valid secret that is on none.
use aspenmesh_k3s_multiclust.Prelude.{String, ◌≡◌, ◌⊎◌, none, some}
use aspenmesh_k3s_multiclust.Prelude.Dict.{lookup}
use aspenmesh_k3s_multiclust.K8s.Secrets.{
  Secret, SecretReference, LocalSecretStore, SecretSettings, validate_secret,
}
use aspenmesh_k3s_multiclust.K8s.Secrets.Files.{IsConsistent}

module _ (env : SecretSettings) where
  -- What is returned: a reference that is stored, consistent with the files.
  abbrev pub IsFetched : String → LocalSecretStore × SecretReference → Type 0
  IsFetched key (s, ref) =
      IsConsistent env s
      × ((lookup key s.secrets ≡ none) ⊎ (lookup key s.secrets ≡ some ref))
      × (((err : String) × (ref.error ≡ some err))
          ⊎ ((secret : Secret) × (ref.secret ≡ some secret)
              × (ref.path ≡ env.file_path secret)
              × (validate_secret env secret ≡ none)))
