-- ===== src/Sts/Kept.antt =====
-- What the calls that neither create nor delete a bucket nor update a CloudStorage leave as it is:
-- the token service flow.
use oadp_operator.Prelude.{ℕ, zero, suc, String, Bool, true, Dict}
use oadp_operator.Cluster.{Attempt, success, failure, call, M, ◌>>=◌}
use oadp_operator.Cluster.Holds.{after, Keeps, Holds-bind}
use oadp_operator.Process.{
  SecretObject, ServiceAccount, StorageObject, Session, Services, Process, on_cluster,
}
use oadp_operator.Process.Keeps.{
  Here, Keeps-call, Keeps-attempt, Keeps-change, Keeps-tried, Keeps-pure, Keeps-raise, Keeps-if,
  Keeps-replied,
}
use oadp_operator.Sts

-- How every such call relates the world before and after.
pub record Quiet (c : Services) (R : c.World → c.World → Type 0) : Type 0 where
  pub new_client : (w : c.World) → R w (after (c.new_client w))
  pub new_clientset : (w : c.World) → R w (after (c.new_clientset w))
  pub get_secret :
      (namespace name : String) (w : c.World) → R w (after (c.get_secret namespace name w))
  pub create_secret : (secret : SecretObject) (w : c.World) → R w (after (c.create_secret secret w))
  pub patch_secret : (new old : SecretObject) (w : c.World) → R w (after (c.patch_secret new old w))
  pub read_secret :
      (namespace name : String) (w : c.World) → R w (after (c.read_secret namespace name w))
  pub get_account :
      (namespace name : String) (w : c.World) → R w (after (c.get_service_account namespace name w))
  pub patch_account :
      (new old : ServiceAccount) (w : c.World) → R w (after (c.patch_service_account new old w))
  pub elapse : (w : c.World) → R w (c.elapse w)
  pub make_temp_dir : (prefix : String) (w : c.World) → R w (after (c.make_temp_dir prefix w))
  pub create_temp : (dir prefix : String) (w : c.World) → R w (after (c.create_temp dir prefix w))
  pub write_file : (file text : String) (w : c.World) → R w (after (c.write_file file text w))
  pub new_session : (o : Session) (w : c.World) → R w (c.new_session o w).1
  pub head_bucket : (o : Session) (b : String) (w : c.World) → R w (c.head_bucket o b w).1
  pub delete_tags : (o : Session) (b : String) (w : c.World) → R w (c.delete_bucket_tagging o b w).1
  pub put_tags :
      (o : Session) (b : String) (t : Dict) (w : c.World) → R w (c.put_bucket_tagging o b t w).1
  pub update_status :
      (x : StorageObject) (w : c.World) → R w (after (c.update_cloud_storage_status x w))
  pub record_event : (name reason : String) (w : c.World) → R w (c.record_event name reason w)

module _ (c : Services) (R : c.World → c.World → Type 0) (q : Quiet c R) (P : c.World → Type 0)
    (stable : (w v : c.World) → R w v → P w → P v) where
  abbrev Kept : {A : Type 0} → M (Process c.World) A → Type 0
  Kept m = Keeps (Here P) m

  poll_secret-Kept : (n : ℕ) (namespace name : String) → Kept (Sts.poll_secret c n namespace name)
  unfolding Sts.poll_secret
  poll_secret-Kept zero namespace name =
      Holds-bind _ _ (Keeps-change P c.elapse (λ w. stable w (c.elapse w) (q.elapse w)))
        (λ u. Keeps-raise P _)
  poll_secret-Kept (suc n) namespace name =
      Holds-bind _ _
        (Holds-bind _ _ (Keeps-change P c.elapse (λ w. stable w (c.elapse w) (q.elapse w))) (λ u.
          Keeps-attempt P (c.read_secret namespace name)
            (λ w. stable w _ (q.read_secret namespace name w))))
        (λ r.
          Keeps-replied P r _ _ (λ x. Keeps-pure P x)
            (λ e. Keeps-if P _ _ _ (poll_secret-Kept n namespace name) (Keeps-raise P _)))

  wait_for_secret-Kept : (namespace name : String) → Kept (Sts.wait_for_secret c namespace name)
  unfolding Sts.wait_for_secret
  wait_for_secret-Kept namespace name = record {
    at = λ s. (poll_secret-Kept (Sts.secret_ticks c s.world.cluster) namespace name).at s;
  }

  store_after-Kept :
      (x : SecretObject) (entries : Dict) (r : Attempt (Unit {0}))
      → Kept (Sts.store_after c x entries r)
  unfolding Sts.store_after
  store_after-Kept x entries (success u) = Keeps-pure P tt
  store_after-Kept x entries (failure e) =
      Keeps-if P _ _ _
        (Holds-bind _ _
          (Keeps-call P _ (λ w. stable w _ (q.get_secret x.meta.namespace x.meta.name w)))
          (λ old. Keeps-call P _ (λ w. stable w _ (q.patch_secret _ old w))))
        (Keeps-raise P _)

  store_and_wait-Kept :
      (name : String) (entries : Dict) (namespace : String) (waits : Bool)
      → Kept (Sts.create_or_update_sts_secret_with_clients_and_wait c name entries namespace waits)
  unfolding Sts.create_or_update_sts_secret_with_clients_and_wait
  store_and_wait-Kept name entries namespace waits =
      Holds-bind _ _ (Keeps-attempt P _ (λ w. stable w _ (q.create_secret _ w))) (λ r.
        Holds-bind _ _ (store_after-Kept (Sts.new_sts_secret name entries namespace) entries r)
          (λ u.
            Keeps-if P _ _ _
              (Holds-bind _ _ (wait_for_secret-Kept namespace name) (λ x. Keeps-pure P tt))
              (Keeps-pure P tt)))

  with_clients-Kept :
      {A : Type 0} (m : M (Process c.World) A)
      → Kept m
      → Kept (call (on_cluster c.new_client) >>= λ u. call (on_cluster c.new_clientset) >>= λ v. m)
  with_clients-Kept m k =
      Holds-bind _ _ (Keeps-call P _ (λ w. stable w _ (q.new_client w)))
        (λ u. Holds-bind _ _ (Keeps-call P _ (λ w. stable w _ (q.new_clientset w))) (λ v. k))

  store_secret-Kept :
      (name : String) (entries : Dict) (namespace : String)
      → Kept (Sts.create_or_update_sts_secret c name entries namespace)
  unfolding Sts.create_or_update_sts_secret Sts.create_or_update_sts_secret_with_clients
  store_secret-Kept name entries namespace =
      with_clients-Kept _ (store_and_wait-Kept name entries namespace true)

  annotate-Kept :
      (id namespace : String)
      → Kept (Sts.annotate_velero_service_account_for_azure_with_client c id namespace)
  unfolding Sts.annotate_velero_service_account_for_azure_with_client
  annotate-Kept id namespace = Keeps-if P _ _ _ (Keeps-raise P _) (
      Holds-bind _ _ (Keeps-attempt P _ (λ w. stable w _ (q.get_account namespace "velero" w)))
        (λ r.
          Keeps-replied P r _ _ (λ x. Keeps-call P _ (λ w. stable w _ (q.patch_account _ x w)))
            (λ e. Keeps-if P _ _ _ (Keeps-pure P tt) (Keeps-raise P _))))

  store_azure-Kept :
      (id tenant subscription namespace : String)
      → Kept (Sts.create_or_update_sts_azure_secret c id tenant subscription namespace)
  unfolding Sts.create_or_update_sts_azure_secret Sts.create_or_update_sts_azure_secret_with_clients
      Sts.create_or_update_sts_secret_with_clients
  store_azure-Kept id tenant subscription namespace = with_clients-Kept _ (
      Holds-bind _ _ (store_and_wait-Kept _ _ namespace true)
        (λ u. Holds-bind _ _ (Keeps-tried P _ (annotate-Kept id namespace)) (λ v. Keeps-pure P tt)))

  pub sts_standardized_flow-Kept : Kept (Sts.sts_standardized_flow c)
  unfolding Sts.sts_standardized_flow
  sts_standardized_flow-Kept =
      Keeps-if P (Sts.has_aws_creds c) _ _
        (Holds-bind _ _
          (store_secret-Kept Sts.aws_secret_name (Sts.aws_secret_data (c.get_env "ROLEARN"))
            (c.get_env "WATCH_NAMESPACE"))
          (λ u. Keeps-pure P Sts.aws_secret_name))
        (Keeps-if P (Sts.has_gcp_creds c) _ _
          (Holds-bind _ _
            (store_secret-Kept Sts.gcp_secret_name
              (Sts.gcp_secret_data (c.get_env "SERVICE_ACCOUNT_EMAIL") (c.get_env "PROJECT_NUMBER")
                (c.get_env "POOL_ID") (c.get_env "PROVIDER_ID"))
              (c.get_env "WATCH_NAMESPACE"))
            (λ u. Keeps-pure P Sts.gcp_secret_name))
          (Keeps-if P (Sts.has_azure_creds c) _ _
            (Holds-bind _ _
              (store_azure-Kept (c.get_env "CLIENTID") (c.get_env "TENANTID")
                (c.get_env "SUBSCRIPTIONID") (c.get_env "WATCH_NAMESPACE"))
              (λ u. Keeps-pure P Sts.azure_secret_name))
            (Keeps-pure P "")))
