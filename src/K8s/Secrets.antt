-- ===== src/K8s/Secrets.antt =====
-- internal/k8s/secrets/store.go and validation.go: the secrets that are kept, and those that are on
-- the file system. A reference is shared with whoever got it from the store; here its fields are read
-- from the store.
pub mod Files
pub mod Fetched
use aspenmesh_k3s_multiclust.Prelude.{
  String, Bool, true, false, not, ◌&&◌, ◌||◌, Option, none, some, List, [], ◌∷◌, ◌++◌, ◌==◌,
  if◌then◌else◌, is_some,
}
use aspenmesh_k3s_multiclust.Prelude.Texts.{concat}
use aspenmesh_k3s_multiclust.Prelude.Dict.{Dict, lookup, insert, remove}
use aspenmesh_k3s_multiclust.K8s.Objects.{ObjectMeta, get_resource_key}

-- The data fields hold bytes, which are taken as text.
pub record Secret : Type 0 where
  pub meta : ObjectMeta
  pub secret_type : String
  pub data_fields : Dict String

-- `error` is nil, or the text of an error; the path is empty when the secret is on no file.
pub record SecretReference : Type 0 where
  pub secret : Option Secret
  pub path : String
  pub error : Option String

-- The calls of the interface SecretFileManager.
pub data FileCall : Type 0 where
  write_file : Secret → FileCall
  delete_file : String → FileCall

-- The map of the store, and the calls made so far, the last one first.
pub record LocalSecretStore : Type 0 where
  pub secrets : Dict SecretReference
  pub calls : List FileCall

abbrev pub new_local_secret_store : LocalSecretStore
new_local_secret_store = record { secrets = []; calls = [] }

-- The code outside of the package: what AddOrUpdateSecret of the manager returns, the parsers of the
-- Go library that check certificates (nil, or the text of an error), and the regular expression.
pub record SecretSettings : Type 0 where
  pub file_path : Secret → String
  pub check_key_pair : Option String → Option String → Option String
  pub decode_block_type : String → Option String
  pub check_certificate : String → Option String
  pub is_client_secret_value : String → Bool

abbrev pub secret_type_tls : String
secret_type_tls = "kubernetes.io/tls"

abbrev pub secret_type_ca : String
secret_type_ca = "nginx.org/ca"

abbrev pub secret_type_jwk : String
secret_type_jwk = "nginx.org/jwk"

abbrev pub secret_type_oidc : String
secret_type_oidc = "nginx.org/oidc"

abbrev pub ca_key : String
ca_key = "ca.crt"

abbrev pub jwt_key_key : String
jwt_key_key = "jwk"

abbrev pub client_secret_key : String
client_secret_key = "client-secret"

-- The rest of a message that starts with the text.
abbrev with_cause : String → Option String → Option String
with_cause text none = none
with_cause text (some cause) = some (concat (text ∷ cause ∷ []))

unfoldable pub is_supported_secret_type : String → Bool
is_supported_secret_type t =
    t == secret_type_tls || t == secret_type_ca || t == secret_type_jwk || t == secret_type_oidc

module _ (env : SecretSettings) where
  unfoldable pub validate_tls_secret : Secret → Option String
  validate_tls_secret secret =
      if secret.secret_type == secret_type_tls
      then with_cause "Failed to validate TLS cert and key: " (
          env.check_key_pair (lookup "tls.crt" secret.data_fields)
            (lookup "tls.key" secret.data_fields))
      else some (concat ("TLS Secret must be of the type " ∷ secret_type_tls ∷ []))

  unfoldable pub validate_jwk_secret : Secret → Option String
  validate_jwk_secret secret =
      if secret.secret_type == secret_type_jwk
      then (if is_some (lookup jwt_key_key secret.data_fields)
          then none
          else some (concat ("JWK secret must have the data field " ∷ jwt_key_key ∷ [])))
      else some (concat ("JWK secret must be of the type " ∷ secret_type_jwk ∷ []))

  -- The checks of the block that a certificate authority holds.
  check_ca_block : String → Option String
  check_ca_block block = elim (env.decode_block_type block) [
    | none ↦
        some (concat ("The data field " ∷ ca_key ∷ " must hold a valid CERTIFICATE PEM block" ∷ []))
    | some block_type ↦
        if block_type == "CERTIFICATE"
        then with_cause "Failed to validate certificate: " (env.check_certificate block)
        else some (
            concat (
              "The data field " ∷ ca_key ∷ " must hold a valid CERTIFICATE PEM block, but got '"
              ∷ block_type ∷ "'" ∷ []))
  ]

  unfoldable pub validate_ca_secret : Secret → Option String
  unfolding check_ca_block
  validate_ca_secret secret =
      if secret.secret_type == secret_type_ca
      then elim (lookup ca_key secret.data_fields) [
        | none ↦ some (concat ("CA secret must have the data field " ∷ ca_key ∷ []))
        | some block ↦ check_ca_block block
      ]
      else some (concat ("CA secret must be of the type " ∷ secret_type_ca ∷ []))

  abbrev client_secret_message : String
  client_secret_message =
      "It must contain valid ASCII characters, must have all '\"' escaped and must not contain any '$' or whitespaces ('\\n', '\\t' etc.) or end with an unescaped '\\'"

  unfoldable pub validate_oidc_secret : Secret → Option String
  validate_oidc_secret secret =
      if secret.secret_type == secret_type_oidc
      then elim (lookup client_secret_key secret.data_fields) [
        | none ↦ some (concat ("OIDC secret must have the data field " ∷ client_secret_key ∷ []))
        | some value ↦
            if env.is_client_secret_value value
            then none
            else some (concat ("OIDC client secret is invalid: " ∷ client_secret_message ∷ []))
      ]
      else some (concat ("OIDC secret must be of the type " ∷ secret_type_oidc ∷ []))

  unfoldable pub validate_secret : Secret → Option String
  unfolding validate_tls_secret validate_jwk_secret validate_ca_secret validate_oidc_secret
  validate_secret secret =
      if secret.secret_type == secret_type_tls
      then validate_tls_secret secret
      else (if secret.secret_type == secret_type_jwk
          then validate_jwk_secret secret
          else (if secret.secret_type == secret_type_ca
              then validate_ca_secret secret
              else (if secret.secret_type == secret_type_oidc
                  then validate_oidc_secret secret
                  else some
                      (concat ("Secret is of the unsupported type " ∷ secret.secret_type ∷ [])))))

  abbrev pub path_before : Option SecretReference → String
  path_before none = ""
  path_before (some ref) = ref.path

  -- The reference after an update, and the call that the update makes, by whether it had a path and
  -- by the error of its validation.
  abbrev pub reference_for :
      Secret → (had_no_path : Bool) → (error : Option String) → SecretReference × List FileCall
  reference_for secret true error = (record { secret = some secret; path = ""; error = error }, [])
  reference_for secret false none = (
    record { secret = some secret; path = env.file_path secret; error = none },
    write_file secret ∷ [],
  )
  reference_for secret false (some e) = (
    record { secret = some secret; path = ""; error = some e },
    delete_file (get_resource_key secret.meta) ∷ [],
  )

  unfoldable pub updated_reference : Secret → String → SecretReference × List FileCall
  unfolding validate_secret
  updated_reference secret path = reference_for secret (path == "") (validate_secret secret)

  unfoldable pub add_or_update_secret : Secret → LocalSecretStore → LocalSecretStore
  unfolding updated_reference
  add_or_update_secret secret s =
      let key = get_resource_key secret.meta in
      let (ref, calls) = updated_reference secret (path_before (lookup key s.secrets)) in
      record { secrets = insert key ref s.secrets; calls = calls ++ s.calls }

  abbrev pub without :
      (key : String) → (stored : Option SecretReference) → LocalSecretStore → LocalSecretStore
  without key none s = s
  without key (some ref) s = record {
    secrets = remove key s.secrets;
    calls = if ref.path == "" then s.calls else delete_file key ∷ s.calls;
  }

  unfoldable pub delete_secret : String → LocalSecretStore → LocalSecretStore
  delete_secret key s = without key (lookup key s.secrets) s

  -- The secret is written when it is valid and on no file.
  abbrev pub is_to_write : SecretReference → Bool
  is_to_write ref = not (is_some ref.error) && ref.path == ""

  -- The path of the reference once its secret is written; a reference that is stored has a secret.
  abbrev pub with_file : Option Secret → SecretReference → SecretReference
  with_file none ref = ref
  with_file (some secret) ref = record ref { path = env.file_path secret }

  abbrev pub write_of : Option Secret → List FileCall
  write_of none = []
  write_of (some secret) = write_file secret ∷ []

  abbrev not_found : SecretReference
  not_found = record {
    secret = none;
    path = "";
    error = some "secret doesn't exist or of an unsupported type";
  }

  abbrev pub fetched :
      (key : String)
      → (stored : Option SecretReference) → LocalSecretStore
      → LocalSecretStore × SecretReference
  fetched key none s = (s, not_found)
  fetched key (some ref) s =
      if is_to_write ref
      then (
        record {
          secrets = insert key (with_file ref.secret ref) s.secrets;
          calls = write_of ref.secret ++ s.calls;
        },
        with_file ref.secret ref,
      )
      else (s, ref)

  unfoldable pub get_secret : String → LocalSecretStore → LocalSecretStore × SecretReference
  get_secret key s = fetched key (lookup key s.secrets) s
