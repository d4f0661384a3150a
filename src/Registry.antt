-- ===== src/Registry.antt =====
-- internal/controller/registry.go: finding the provider secret of a location.
pub mod Aws
pub mod KeyValue
pub mod Azure
pub mod Cleanup
pub mod Secrets
use oadp_operator.Prelude.{
  String, Bool, true, false, ◌||◌, not, List, [], ◌∷◌, map, Option, none, some, Dict, lookup, find,
  index, ◌==◌, if◌then◌else◌,
}
use oadp_operator.Prelude.Text.{contains_text, replace_crlf}
use oadp_operator.Api.{Credential, CloudStorageLocation, DataProtectionApplication, Secret}
use oadp_operator.Cluster.{
  Client, M, Error, message, about, ◌>>=◌, ◌>>◌, pure, raise, call, attempt, Attempt, success,
  failure, error_of,
}
use oadp_operator.Credentials.{fields_of, secret_name_key_of}

-- replaceCarriageReturn
unfoldable pub replace_carriage_return : Dict → Dict
replace_carriage_return content = map (λ e. (e.0, clean e.1)) content
  where
    clean : String → String
    clean v = if contains_text v "\r\n" then replace_crlf v else v

-- A secret's name and key, and the error of the lookup.
abbrev pub NameKeyError : Type 0
NameKeyError = String × String × Option Error

module _ (c : Client) (dpa : DataProtectionApplication) where
  -- getProviderSecret: the result of the patch is taken over, its error is dropped.
  unfoldable pub get_provider_secret : String → M c.World Secret
  unfolding replace_carriage_return
  get_provider_secret name = do
    secret ← call (c.get_secret dpa.namespace name)
    let cleaned = record secret { content = replace_carriage_return secret.content }
    patched ← attempt (c.patch_secret secret cleaned)
    pure (elim patched [ success s ↦ s | failure e ↦ cleaned ])

  unfoldable pub verify_secret_content : String → String → M c.World (Unit {0})
  verify_secret_content name key = do
    secret ← get_provider_secret name
    elim (lookup key secret.content) [
      | none ↦ raise (about "secret name %s is missing data for key %s" (name ∷ key ∷ []))
      | some value ↦
          if value == ""
          then raise (about "secret name %s is missing data for key %s" (name ∷ key ∷ []))
          else pure tt
    ]

  unfoldable pub get_secret_name_and_key_from_cloud_storage :
      CloudStorageLocation → M c.World NameKeyError
  get_secret_name_and_key_from_cloud_storage location = elim location.credential [
    | none ↦ pure ("", "", none)
    | some credential ↦
        if credential.key == ""
        then pure ("", "", some (message "Secret key specified in CloudStorage cannot be empty"))
        else if credential.name == ""
        then pure ("", "", some (message "Secret name specified in CloudStorage cannot be empty"))
        else do
          failed ← error_of (verify_secret_content credential.name credential.key)
          pure (credential.name, credential.key, failed)
  ]

  -- The last lines of getSecretNameAndKey.
  verified : String → String → M c.World NameKeyError
  verified name key = do
    failed ← error_of (verify_secret_content name key)
    pure (name, key, failed)

  -- The part of getSecretNameAndKey that looks at the credential.
  name_key_from_credential : Option Credential → String → M c.World NameKeyError
  unfolding verified
  name_key_from_credential credential plugin = elim credential [
    | none ↦ verified (fields_of plugin).secret_name (fields_of plugin).plugin_secret_key
    | some r ↦
        if r.name == ""
        then pure ("", "", some (message "secret name specified for location cannot be empty"))
        else if r.key == ""
        then pure ("", "", some (message "secret key specified for location cannot be empty"))
        else verified r.name r.key
  ]

  unfoldable pub get_secret_name_and_key :
      Option Dict → Option Credential → String → M c.World NameKeyError
  unfolding name_key_from_credential
  get_secret_name_and_key config credential plugin = elim (find "credentialsFile" config) [
    | none ↦ name_key_from_credential credential plugin
    | some text ↦ elim (secret_name_key_of text) [
      | none ↦ name_key_from_credential credential plugin
      | some (name, key) ↦ pure (name, key, none)
    ]
  ]
