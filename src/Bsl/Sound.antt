-- ===== src/Bsl/Sound.antt =====
-- What a location satisfies once ValidateBackupStorageLocations has accepted it.
use oadp_operator.Prelude.{
  ◌≡◌, ◌≢◌, ◌⊎◌, inl, inr, refl, String, Bool, false, ◌&&◌, Option, none, some, index, arith,
  eq_iff, ◌==◌, ne_of_test, ne_of_not, either_test,
}
use oadp_operator.Api.{BslSpec, DataProtectionApplication, ObjectStorage}
use oadp_operator.Api.Methods.{backup_images}
use oadp_operator.Cluster.{Client, message}
use oadp_operator.Cluster.Yields.{
  Yields, Yields-bind, Yields-skip, Yields-pure, Yields-raise, Yields-raise_if, Yields-if,
  Yields-any, Yields-mono,
}
use oadp_operator.Bsl.Validate.{
  storage_with_bucket, check_region, validate_aws_backup_storage_location,
  validate_azure_backup_storage_location, validate_gcp_backup_storage_location,
  validate_by_provider,
}

-- A storage with a bucket, and with a prefix if images are backed up.
abbrev pub HasStorage : Bool → Option ObjectStorage → Type 0
HasStorage images storage =
    (o : ObjectStorage) × (storage ≡ some o)
    × (o.bucket ≢ "")
    × ((o.prefix ≢ "") ⊎ (images ≡ false))

-- The provider is one of three, each with what it needs.
pub data IsAccepted (images : Bool) (spec : BslSpec) : Type 0 where
  aws :
      (spec.provider ≡ "aws") ⊎ (spec.provider ≡ "velero.io/aws")
      → HasStorage images spec.object_storage
      → (index "region" spec.config ≢ "") ⊎ (index "s3ForcePathStyle" spec.config ≢ "true")
      → IsAccepted images spec
  azure :
      (spec.provider ≡ "azure") ⊎ (spec.provider ≡ "velero.io/azure")
      → HasStorage images spec.object_storage
      → index "resourceGroup" spec.config ≢ ""
      → index "storageAccount" spec.config ≢ ""
      → IsAccepted images spec
  gcp :
      (spec.provider ≡ "gcp") ⊎ (spec.provider ≡ "velero.io/gcp")
      → HasStorage images spec.object_storage
      → IsAccepted images spec

storage_with_bucket-some :
    {W : Type 0} (storage : Option ObjectStorage) (no_storage no_bucket : String)
    → Yields
        (λ o. (storage ≡ some o) × (o.bucket ≢ ""))
        (storage_with_bucket {W = W} storage no_storage no_bucket)
unfolding storage_with_bucket
storage_with_bucket-some none a b = Yields-raise (message a)
storage_with_bucket-some (some o) a b =
    Yields-bind _ _ (Yields-raise_if _ _) (λ _ e. Yields-pure o (refl, ne_of_test _ _ e))

prefix_needed :
    (o : ObjectStorage) (images : Bool)
    → (o.prefix == "" && images) ≡ false
    → (o.prefix ≢ "") ⊎ (images ≡ false)
prefix_needed o images h = ground (arith, eq_iff o.prefix "")

module _ (c : Client) (dpa : DataProtectionApplication) (spec : BslSpec) where
  abbrev RegionGiven : Type 0
  RegionGiven = (index "region" spec.config ≢ "") ⊎ (index "s3ForcePathStyle" spec.config ≢ "true")

  abbrev StorageGiven : Type 0
  StorageGiven = HasStorage (backup_images dpa) spec.object_storage

  check_region-region :
      (bucket : String) → Yields (λ _. RegionGiven) (check_region c dpa spec bucket)
  unfolding check_region
  check_region-region bucket =
      Yields-if _ _ _ (λ e. Yields-pure tt (inl (ne_of_not _ _ e)))
        (λ _.
          Yields-if _ _ _ (λ _. Yields-raise _)
            (λ e. Yields-mono _ (Yields-any _) (λ _ _. inr (ne_of_test _ _ e))))

  validate_gcp-storage :
      Yields (λ _. StorageGiven) (validate_gcp_backup_storage_location c dpa spec)
  unfolding validate_gcp_backup_storage_location
  validate_gcp-storage = Yields-skip _ _ λ _.
      Yields-bind _ _ (storage_with_bucket-some _ _ _) λ o h.
        Yields-mono _ (Yields-raise_if _ _)
          λ _ p. (o, h.0, h.1, prefix_needed o (backup_images dpa) p)

  validate_aws-storage :
      Yields (λ _. StorageGiven × RegionGiven) (validate_aws_backup_storage_location c dpa spec)
  unfolding validate_aws_backup_storage_location
  validate_aws-storage = Yields-skip _ _ λ _.
      Yields-bind _ _ (storage_with_bucket-some _ _ _) λ o h.
        Yields-bind _ _ (Yields-raise_if _ _) λ _ p.
          Yields-mono _ (check_region-region o.bucket)
            λ _ r. ((o, h.0, h.1, prefix_needed o (backup_images dpa) p), r)

  validate_azure-storage :
      Yields
        (λ _.
          StorageGiven
          × (index "resourceGroup" spec.config ≢ "")
          × (index "storageAccount" spec.config ≢ ""))
        (validate_azure_backup_storage_location c dpa spec)
  unfolding validate_azure_backup_storage_location
  validate_azure-storage = Yields-skip _ _ λ _.
      Yields-bind _ _ (storage_with_bucket-some _ _ _) λ o h.
        Yields-bind _ _ (Yields-raise_if _ _) λ _ g. Yields-bind _ _ (Yields-raise_if _ _) λ _ a.
          Yields-mono _ (Yields-raise_if _ _) λ _ p. (
            (o, h.0, h.1, prefix_needed o (backup_images dpa) p),
            ne_of_test _ _ g,
            ne_of_test _ _ a,
          )

  pub validate_by_provider-IsAccepted :
      Yields (λ _. IsAccepted (backup_images dpa) spec) (validate_by_provider c dpa spec)
  unfolding validate_by_provider
  validate_by_provider-IsAccepted =
      Yields-if _ _ _
        (λ e. Yields-mono _ validate_aws-storage (λ _ h. aws (either_test _ _ _ e) h.0 h.1))
        (λ _.
          Yields-if _ _ _
            (λ e.
              Yields-mono _ validate_azure-storage (λ _ h. azure (either_test _ _ _ e) h.0 h.1 h.2))
            (λ _.
              Yields-if _ _ _
                (λ e. Yields-mono _ validate_gcp-storage (λ _ h. gcp (either_test _ _ _ e) h))
                (λ _. Yields-raise _)))
