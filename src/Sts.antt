-- ===== src/Sts.antt =====
-- The token service flow: pkg/credentials/stsflow/stsflow.go. The kubeconfig is that of the process.
pub mod Waiting
pub mod Kept
use oadp_operator.Prelude.{
  ◌≡◌, ℕ, zero, suc, String, Bool, true, false, ◌&&◌, ◌||◌, not, ◌==◌, ◌!=◌, List, [], ◌∷◌, Option,
  none, some, Dict, lookup, insert, if◌then◌else◌,
}
use oadp_operator.Prelude.Text.{append}
use oadp_operator.Api.{ObjectMeta}
use oadp_operator.Common.{or_empty}
use oadp_operator.Cluster.{
  Attempt, success, failure, attempt, call, tried, returned, failed, M, ◌>>=◌, ◌>>◌, pure, raise,
  raise_if, api, about, message, ApiError,
}
use oadp_operator.Process.{
  SecretObject, ServiceAccount, Services, Process, on_cluster, change, is_not_found,
  is_already_exists,
}

abbrev pub web_identity_token_path : String
web_identity_token_path = "/var/run/secrets/openshift/serviceaccount/token"

abbrev pub aws_secret_name : String
aws_secret_name = "cloud-credentials"

abbrev pub azure_secret_name : String
azure_secret_name = "cloud-credentials-azure"

abbrev pub gcp_secret_name : String
gcp_secret_name = "cloud-credentials-gcp"

abbrev pub gcp_secret_json_key : String
gcp_secret_json_key = "service_account.json"

abbrev pub is_given : String → Bool
is_given text = text != ""

abbrev join : List String → String
join [] = ""
join (s ∷ ss) = append s (join ss)

unfoldable pub aws_secret_data : String → Dict
aws_secret_data role_arn =
    (
      "credentials",
      join (
          "[default]\nsts_regional_endpoints = regional\nrole_arn = " ∷ role_arn
          ∷ "\nweb_identity_token_file = " ∷ web_identity_token_path ∷ []),
    )
    ∷ []

unfoldable pub gcp_audience : String → String → String → String
gcp_audience project_number pool_id provider_id = join (
    "//iam.googleapis.com/projects/" ∷ project_number ∷ "/locations/global/workloadIdentityPools/"
    ∷ pool_id ∷ "/providers/" ∷ provider_id ∷ [])

unfoldable pub gcp_secret_data : String → String → String → String → Dict
unfolding gcp_audience
gcp_secret_data service_account_email project_number pool_id provider_id =
    (
      gcp_secret_json_key,
      join (
          "{\n\t\"type\": \"external_account\",\n\t\"audience\": \""
          ∷ gcp_audience project_number pool_id provider_id
          ∷ "\",\n\t\"subject_token_type\": \"urn:ietf:params:oauth:token-type:jwt\",\n\t\"token_url\": \"https://sts.googleapis.com/v1/token\",\n\t\"service_account_impersonation_url\": \"https://iamcredentials.googleapis.com/v1/projects/-/serviceAccounts/"
          ∷ service_account_email
          ∷ ":generateAccessToken\",\n\t\"credential_source\": {\n\t\t\"file\": \""
          ∷ web_identity_token_path
          ∷ "\",\n\t\t\"format\": {\n\t\t\t\"type\": \"text\"\n\t\t}\n\t}\n}"
          ∷ []),
    )
    ∷ []

unfoldable pub azure_secret_data : String → String → String → Dict
azure_secret_data client_id tenant_id subscription_id =
    (
      "azurekey",
      join (
          "\nAZURE_SUBSCRIPTION_ID=" ∷ subscription_id ∷ "\nAZURE_TENANT_ID=" ∷ tenant_id
          ∷ "\nAZURE_CLIENT_ID=" ∷ client_id ∷ "\nAZURE_CLOUD_NAME=AzurePublicCloud\n" ∷ []),
    )
    ∷ []

abbrev pub secret_type_label : String
secret_type_label = "oadp.openshift.io/secret-type"

unfoldable pub new_sts_secret : String → Dict → String → SecretObject
new_sts_secret name entries namespace = record {
  meta = record {
    name = name;
    namespace = namespace;
    labels = some ((secret_type_label, "sts-credentials") ∷ []);
    owner = none;
  };
  content = [];
  string_data = some entries;
}

-- `for key, value := range entries { data[key] = value }`
unfoldable pub put_all : Dict → Dict → Dict
put_all [] old = old
put_all ((k, v) ∷ rest) old = put_all rest (insert k v old)

-- The secret that is there already, with the new entries and the label.
unfoldable pub refresh : Dict → SecretObject → SecretObject
unfolding put_all
refresh entries from_cluster = record from_cluster {
  meta = record from_cluster.meta {
    labels = some (insert secret_type_label "sts-credentials" (or_empty from_cluster.meta.labels));
  };
  string_data = some (put_all entries (or_empty from_cluster.string_data));
}

module _ (c : Services) where
  -- The loop of WaitForSecret, on the ticks that are received before the timeout.
  unfoldable pub poll_secret : ℕ → String → String → M (Process c.World) SecretObject
  poll_secret zero namespace name =
      change c.elapse >> raise (about "timed out waiting for secret" (name ∷ namespace ∷ []))
  poll_secret (suc ticks) namespace name =
      change c.elapse >> attempt (on_cluster (c.read_secret namespace name)) >>= λ r. elim r [
        | success secret ↦ pure secret
        | failure e ↦ if is_not_found e then poll_secret ticks namespace name else raise (api e)
      ]

  -- A timer of 10 minutes, and a ticker of 10 seconds.
  abbrev pub secret_ticks : c.World → ℕ
  secret_ticks w = c.ticks_received 10000000000 600000000000 w

  unfoldable pub wait_for_secret : String → String → M (Process c.World) SecretObject
  unfolding poll_secret
  wait_for_secret namespace name s = poll_secret (secret_ticks s.world.cluster) namespace name s

  -- What follows the call that creates the secret.
  unfoldable pub store_after :
      SecretObject → Dict → Attempt (Unit {0}) → M (Process c.World) (Unit {0})
  unfolding refresh
  store_after secret entries (success u) = pure tt
  store_after secret entries (failure e) =
      if is_already_exists e
      then (call (on_cluster (c.get_secret secret.meta.namespace secret.meta.name)) >>= λ old.
          call (on_cluster (c.patch_secret (refresh entries old) old)))
      else raise (api e)

  unfoldable pub create_or_update_sts_secret_with_clients_and_wait :
      String → Dict → String → Bool → M (Process c.World) (Unit {0})
  unfolding new_sts_secret store_after wait_for_secret
  create_or_update_sts_secret_with_clients_and_wait name entries namespace waits = do
    let secret = new_sts_secret name entries namespace
    r ← attempt (on_cluster (c.create_secret secret))
    store_after secret entries r
    if waits then wait_for_secret namespace name >> pure tt else pure tt

  unfoldable pub create_or_update_sts_secret_with_clients :
      String → Dict → String → M (Process c.World) (Unit {0})
  unfolding create_or_update_sts_secret_with_clients_and_wait
  create_or_update_sts_secret_with_clients name entries namespace =
      create_or_update_sts_secret_with_clients_and_wait name entries namespace true

  unfoldable pub create_or_update_sts_secret :
      String → Dict → String → M (Process c.World) (Unit {0})
  unfolding create_or_update_sts_secret_with_clients
  create_or_update_sts_secret name entries namespace = do
    call (on_cluster c.new_client)
    call (on_cluster c.new_clientset)
    create_or_update_sts_secret_with_clients name entries namespace

  -- The annotations are made where they are nil; no annotation is put.
  unfoldable pub annotated : ServiceAccount → ServiceAccount
  annotated account = record account { annotations = some (or_empty account.annotations) }

  unfoldable pub annotate_velero_service_account_for_azure_with_client :
      String → String → M (Process c.World) (Unit {0})
  unfolding annotated
  annotate_velero_service_account_for_azure_with_client client_id namespace =
      if client_id == ""
      then raise (message "clientID cannot be empty")
      else attempt (on_cluster (c.get_service_account namespace "velero")) >>= λ r. elim r [
        | success account ↦ call (on_cluster (c.patch_service_account (annotated account) account))
        | failure e ↦ if is_not_found e then pure tt else raise (api e)
      ]

  unfoldable pub create_or_update_sts_azure_secret_with_clients :
      String → String → String → String → M (Process c.World) (Unit {0})
  unfolding azure_secret_data create_or_update_sts_secret_with_clients
      annotate_velero_service_account_for_azure_with_client
  create_or_update_sts_azure_secret_with_clients client_id tenant_id subscription_id namespace = do
    create_or_update_sts_secret_with_clients azure_secret_name
        (azure_secret_data client_id tenant_id subscription_id) namespace
    tried (annotate_velero_service_account_for_azure_with_client client_id namespace)
    pure tt

  unfoldable pub create_or_update_sts_azure_secret :
      String → String → String → String → M (Process c.World) (Unit {0})
  unfolding create_or_update_sts_azure_secret_with_clients
  create_or_update_sts_azure_secret client_id tenant_id subscription_id namespace = do
    call (on_cluster c.new_client)
    call (on_cluster c.new_clientset)
    create_or_update_sts_azure_secret_with_clients client_id tenant_id subscription_id namespace

  abbrev pub has_aws_creds : Bool
  has_aws_creds = is_given (c.get_env "ROLEARN")

  abbrev pub has_gcp_creds : Bool
  has_gcp_creds =
      is_given (c.get_env "SERVICE_ACCOUNT_EMAIL")
      && is_given (c.get_env "PROJECT_NUMBER")
      && is_given (c.get_env "POOL_ID")
      && is_given (c.get_env "PROVIDER_ID")

  abbrev pub has_azure_creds : Bool
  has_azure_creds =
      is_given (c.get_env "CLIENTID")
      && is_given (c.get_env "TENANTID")
      && is_given (c.get_env "SUBSCRIPTIONID")

  unfoldable pub sts_standardized_flow : M (Process c.World) String
  unfolding aws_secret_data gcp_secret_data create_or_update_sts_secret
      create_or_update_sts_azure_secret
  sts_standardized_flow =
      let namespace = c.get_env "WATCH_NAMESPACE" in
      if has_aws_creds
      then create_or_update_sts_secret aws_secret_name (aws_secret_data (c.get_env "ROLEARN"))
          namespace
        >> pure aws_secret_name
      else if has_gcp_creds
      then create_or_update_sts_secret gcp_secret_name
          (gcp_secret_data (c.get_env "SERVICE_ACCOUNT_EMAIL") (c.get_env "PROJECT_NUMBER")
            (c.get_env "POOL_ID") (c.get_env "PROVIDER_ID"))
          namespace
        >> pure gcp_secret_name
      else if has_azure_creds
      then create_or_update_sts_azure_secret (c.get_env "CLIENTID") (c.get_env "TENANTID")
          (c.get_env "SUBSCRIPTIONID") namespace
        >> pure azure_secret_name
      else pure ""

  unfoldable pub get_gcp_credentials_from_secret : String → M (Process c.World) String
  unfolding wait_for_secret
  get_gcp_credentials_from_secret namespace =
      tried (wait_for_secret namespace gcp_secret_name) >>= λ r. elim r [
        | failed e ↦ raise (message "error waiting for GCP credentials Secret")
        | returned secret ↦ elim (lookup gcp_secret_json_key secret.content) [
          | none ↦ raise (message "cloud-credentials Secret does not contain field")
          | some text ↦ pure text
        ]
      ]
