-- ===== src/Lib.antt =====
-- The OADP operator reconciles a DataProtectionApplication (DPA): it validates the resource,
-- creates Velero's backup and snapshot locations from it, labels and patches the secrets with the
-- credentials, makes the config maps and the deployments that the resource asks for, and removes
-- what it no longer asks for. Two further controllers make buckets for CloudStorages and try a
-- backup location for DataProtectionTests. This library models the validation, the reconciliation
-- of the locations and of the config maps, the parsers of secrets, the two further controllers with
-- the clients of the clouds, the token service flow, and the non-admin controller's deployment.
--
-- The parts, and how they correspond to the code:
--   * Api: the fields of the custom resources (api/v1alpha1/dataprotectionapplication_types.go,
--     cloudstorage_types.go) that the modelled code reads. A pointer, and a map or slice that is
--     compared with nil, is an Option. Api.Correct is AutoCorrect, with RemoveDuplicateValues of
--     pkg/common/common.go.
--   * Cluster: the record Client holds every call that leaves the repository: the API server,
--     controller-runtime's CreateOrPatch and SetControllerReference, the AWS SDK, quantities and
--     URLs. A reconciler is a function of the state (the world behind the client and the variable
--     wasRestic) to done, fail or panic. Cluster.Yields and Cluster.Moves are the proof rules: what
--     holds of a returned value, and how the world has moved when a step returns.
--   * Credentials: the table of plugins of pkg/credentials/credentials.go.
--   * Registry: internal/controller/registry.go, the lookup of a provider secret, the parsers of AWS
--     and Azure secrets, the registry secrets (Registry.Secrets) and the removal of the objects of
--     the old image registries (Registry.Cleanup).
--   * Bsl: internal/controller/bsl.go, with UpdateBackupStorageLocation of pkg/common/common.go and
--     pkg/storage/aws/s3.go. Bsl.Validate is ValidateBackupStorageLocations, Bsl.Labels is
--     UpdateCredentialsSecretLabels, Bsl.Patch is patchSecretsForBSL, Bsl.Reconcile is
--     ReconcileBackupStorageLocations.
--   * Vsl: internal/controller/vsl.go. Vsl.Validate is ValidateVolumeSnapshotLocations, Vsl.Labels is
--     LabelVSLSecrets, Vsl.Reconcile is ReconcileVolumeSnapshotLocations.
--   * Validator: internal/controller/validator.go, with noDefaultCredentials and the resource
--     requirements of internal/controller/velero.go. Validator.Cr is ValidateDataProtectionCR and
--     uses Bsl.Validate, Vsl.Validate and the other modules of Validator.
--   * Batch: ReconcileBatch of internal/controller/dataprotectionapplication_controller.go, which
--     runs the steps.
--   * Common: the merging of maps and of environment variables of pkg/common/common.go.
--   * ConfigMaps: the config maps of internal/controller/nodeagent.go, repository_maintenance.go and
--     backup_repository.go, three reconciliations of one shape; what differs is a Kind.
--   * NonAdmins: internal/controller/nonadmin_controller.go, what buildNonAdminDeployment makes of a
--     deployment and of the three package variables. NonAdmins.Again has the lemmas on entries and
--     containers that are put twice.
--   * Process: the record Services holds every call of the process itself: the API server as these
--     controllers use it, the environment, the files, the clock and the AWS SDK. The state Process
--     adds the cache of credential files of pkg/bucket/client.go.
--   * Sts: pkg/credentials/stsflow/stsflow.go, from the environment to the secret.
--   * Buckets: pkg/bucket/client.go and pkg/bucket/aws.go.
--   * CloudStorages: internal/controller/cloudstorage_controller.go; it uses Sts and Buckets.
--   * Dpt: the DataProtectionTest. Dpt.Controller is Reconcile of
--     internal/controller/dataprotectiontest_controller.go, with the types of
--     api/v1alpha1/dataprotectiontest_types.go; Dpt.Vendor, Dpt.Providers, Dpt.Upload and
--     Dpt.Snapshots are the steps it runs, over pkg/cloudprovider; Dpt.Size is pkg/utils/parse.go and
--     Dpt.Keys is pkg/utils/credentials.go.
--   * Cluster.Holds and Cluster.Keeps, with Process.Keeps, are the rules for conditions before and
--     after a step, and for what every step keeps of the world.
--   * Examples: clusters in memory, on which the theorems are applied.
--
-- Conventions. The reconciler's NamespacedName is the DPA's own name and namespace. Durations are
-- integers of nanoseconds. A map is an association list; a theorem about every list covers every
-- order in which Go may range over a map. Texts are sequences of code points; the separators and
-- patterns of the code are ASCII. An error keeps its message, without the values that are formatted
-- into most of them. Logging is left out. The regular expressions are the functions that they
-- denote, and that they compile is not modelled.
-- The loops are structural recursions, with these exceptions. The digits of a number take one round
-- more than the number, which is enough. The wait for a secret is a recursion on the number of ticks
-- that `select` receives before the timeout. The runtime gives this number for the ticker's interval
-- and the timer's duration: ticks are dropped during a slow request, so that it is no constant. The
-- goroutines of the snapshot tests are a pool, and a schedule says which one goes on next; each step
-- takes one from the work that is left, so that as many steps as there is work are enough.
--
-- Not modelled: the aliasing of maps. UpdateBackupStorageLocation and the block for a shared config
-- write into the map of the DPA in memory; the keys that they write are read nowhere else in the
-- modelled code. The Velero deployment, the node agent's daemon set, the conditions and event
-- filters of the DPA's controller, the rest of pkg/common, leader election and the metrics service
-- are not modelled, nor is when the non-admin deployment is made and deleted. Floating-point
-- numbers, HTTP, JSON, files and the SDKs are parameters. The manifests, the generated code and the
-- program's entry hold no logic of their own.
mod Prelude
pub mod Api
pub mod Cluster
pub mod Credentials
pub mod Registry
pub mod Bsl
pub mod Vsl
pub mod Validator
pub mod Batch
pub mod Common
pub mod Process
pub mod Sts
pub mod Buckets
pub mod CloudStorages
pub mod Dpt
pub mod ConfigMaps
pub mod NonAdmins
mod Examples
