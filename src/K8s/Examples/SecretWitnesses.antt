-- ===== src/K8s/Examples/SecretWitnesses.antt =====
-- The theorems about the store of secrets, at one secret.
use aspenmesh_k3s_multiclust.Prelude.{◌≡◌, refl, true, none, [], ◌∷◌}
use aspenmesh_k3s_multiclust.Prelude.Dict.{lookup}
use aspenmesh_k3s_multiclust.K8s.Objects.{get_resource_key}
use aspenmesh_k3s_multiclust.K8s.Secrets.{
  Secret, LocalSecretStore, SecretSettings, new_local_secret_store, secret_type_jwk,
  add_or_update_secret, delete_secret,
}
use aspenmesh_k3s_multiclust.K8s.Secrets.Files.{
  IsConsistent, KeepsKind, add_or_update_secret-IsConsistent, delete_secret_lem, KeepsOthers,
  on_file,
}
use aspenmesh_k3s_multiclust.K8s.Examples.{meta}

abbrev secret_settings : SecretSettings
secret_settings = record {
  file_path = λ secret. "/etc/nginx/secrets/default-cafe-secret";
  check_key_pair = λ cert key. none;
  decode_block_type = λ block. none;
  check_certificate = λ block. none;
  is_client_secret_value = λ value. true;
}

abbrev cafe_secret : Secret
cafe_secret = record {
  meta = meta "cafe-secret" "4" 40;
  secret_type = secret_type_jwk;
  data_fields = ("jwk", "key") ∷ [];
}

empty-IsConsistent : IsConsistent secret_settings new_local_secret_store
unfolding lookup
empty-IsConsistent key = refl

abbrev one_secret : LocalSecretStore
one_secret = add_or_update_secret secret_settings cafe_secret new_local_secret_store

empty-KeepsKind :
    KeepsKind secret_settings cafe_secret (lookup (get_resource_key cafe_secret.meta) [])
unfolding lookup
empty-KeepsKind = tt

add_or_update_secret-IsConsistent_example : IsConsistent secret_settings one_secret
add_or_update_secret-IsConsistent_example =
    add_or_update_secret-IsConsistent secret_settings cafe_secret new_local_secret_store
      empty-IsConsistent empty-KeepsKind

one_secret-IsConsistent : IsConsistent secret_settings one_secret
one_secret-IsConsistent =
    add_or_update_secret-IsConsistent secret_settings cafe_secret new_local_secret_store
      empty-IsConsistent empty-KeepsKind

abbrev no_secret : LocalSecretStore
no_secret = delete_secret secret_settings "default/cafe-secret" one_secret

delete_secret_lem_example :
    IsConsistent secret_settings no_secret
    × (lookup "default/cafe-secret" no_secret.secrets ≡ none)
    × (on_file secret_settings "default/cafe-secret" no_secret.calls ≡ none)
    × KeepsOthers secret_settings "default/cafe-secret" one_secret no_secret
delete_secret_lem_example =
    delete_secret_lem secret_settings "default/cafe-secret" one_secret one_secret-IsConsistent
