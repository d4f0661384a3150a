-- ===== src/Bsl/Counting.antt =====
-- ValidateBackupStorageLocations as a whole: every location is valid, and the defaults are counted.
use oadp_operator.Prelude.{
  ℕ, ◌+◌, ◌≡◌, ◌≢◌, ◌⊎◌, inl, inr, refl, String, Bool, true, false, ◌&&◌, List, [], ◌∷◌, Option,
  none, some, is_some, is_none, arith, eq_iff, ne_of_test, if◌then◌else◌,
}
use oadp_operator.Api.{
  BslSpec, BackupLocation, CloudStorageLocation, DataProtectionApplication, ApplicationConfig,
  VeleroConfig, Credential,
}
use oadp_operator.Api.Methods.{backup_images, has_feature_flag}
use oadp_operator.Cluster.{Client, M}
use oadp_operator.Cluster.Yields.{
  Yields, Yields-bind, Yields-skip, Yields-pure, Yields-raise, Yields-raise_if, Yields-if,
  Yields-any, Yields-option, Yields-deref, Yields-mono,
}
use oadp_operator.Bsl.Secrets.{
  velero_of, unless_no_secret, ensure_backup_location_has_velero_or_cloud_storage,
  ensure_prefix_when_backup_images, ensure_secret_data_exists, ensure_cloud_storage_credential,
  cloud_storage_secret,
}
use oadp_operator.Bsl.Validate.{count_default, count_velero, count_cloud_storage}
use oadp_operator.Bsl.Sound.{IsAccepted, validate_by_provider-IsAccepted}

-- A location that is named "default" is a default one.
abbrev pub IsNamedWell : String → Bool → Type 0
IsNamedWell name is_default = (is_default ≡ true) ⊎ (name ≢ "default")

-- dpa.Spec.Configuration.Velero, where both pointers are set
abbrev pub HasVelero : DataProtectionApplication → VeleroConfig → Type 0
HasVelero dpa v = (a : ApplicationConfig) × (dpa.configuration ≡ some a) × (a.velero ≡ some v)

-- The feature flag no-secret is set.
abbrev pub HasNoSecret : DataProtectionApplication → Type 0
HasNoSecret dpa = (v : VeleroConfig) × HasVelero dpa v × (has_feature_flag v "no-secret" ≡ true)

abbrev pub HasCredential : Option Credential → Type 0
HasCredential credential = (r : Credential) × (credential ≡ some r) × (r.name ≢ "") × (r.key ≢ "")

-- A location has exactly one of its two kinds, with what that kind needs.
pub data IsValidLocation (dpa : DataProtectionApplication) (bsl : BackupLocation) : Type 0 where
  velero :
      (spec : BslSpec)
      → bsl.velero ≡ some spec
      → bsl.cloud_storage ≡ none
      → IsNamedWell bsl.name spec.is_default
      → IsAccepted (backup_images dpa) spec
      → IsValidLocation dpa bsl
  cloud_storage :
      (location : CloudStorageLocation)
      → bsl.cloud_storage ≡ some location
      → bsl.velero ≡ none
      → IsNamedWell bsl.name location.is_default
      → (location.prefix ≢ "") ⊎ (backup_images dpa ≡ false)
      → HasNoSecret dpa ⊎ HasCredential location.credential
      → IsValidLocation dpa bsl

abbrev pub bit : Bool → ℕ
bit b = if b then 1 else 0

-- Whether the location is a default one, as a number.
abbrev pub default_bit : BackupLocation → ℕ
default_bit bsl =
    elim bsl.velero [ none ↦ 0 | some v ↦ bit v.is_default ]
    + elim bsl.cloud_storage [ none ↦ 0 | some s ↦ bit s.is_default ]

abbrev pub default_count : List BackupLocation → ℕ
default_count [] = 0
default_count (bsl ∷ rest) = default_bit bsl + default_count rest

count_default-lem :
    (c : Client) (dpa : DataProtectionApplication) (is_default : Bool) (name : String) (n : ℕ)
    → Yields
        (λ m. (m ≡ n + bit is_default) × IsNamedWell name is_default)
        (count_default c dpa is_default name n)
unfolding count_default
count_default-lem c dpa true name n = Yields-pure (n + 1) (refl, inl refl)
count_default-lem c dpa false name n =
    Yields-if _ _ _ (λ _. Yields-raise _) (λ e. Yields-pure n (omega arith, inr (ne_of_test _ _ e)))

pub velero_of-HasVelero :
    {W : Type 0} (dpa : DataProtectionApplication) → Yields (HasVelero dpa) (velero_of {W = W} dpa)
unfolding velero_of
velero_of-HasVelero dpa =
    Yields-bind _ _ (Yields-deref _) λ a e. Yields-mono _ (Yields-deref _) λ v f. (a, e, f)

pub unless_no_secret-cases :
    {W : Type 0} {P : Type 0} (dpa : DataProtectionApplication) (rest : M W (Unit {0}))
    → Yields (λ _. P) rest
    → Yields (λ _. HasNoSecret dpa ⊎ P) (unless_no_secret dpa rest)
unfolding unless_no_secret
unless_no_secret-cases dpa rest h = Yields-bind _ _ (velero_of-HasVelero dpa) λ v e.
    Yields-if _ _ _ (λ f. Yields-pure tt (inl (v, e, f))) (λ _. Yields-mono _ h (λ _ p. inr p))

module _ (c : Client) (dpa : DataProtectionApplication) where
  ensure_cloud_storage_credential-lem :
      (location : CloudStorageLocation)
      → Yields
          (λ _. HasCredential location.credential)
          (ensure_cloud_storage_credential c dpa location)
  unfolding ensure_cloud_storage_credential
  ensure_cloud_storage_credential-lem location =
      Yields-option _ _ _ (λ _. Yields-raise _)
        λ r e. Yields-bind _ _ (Yields-raise_if _ _) λ _ n.
          Yields-mono _ (Yields-raise_if _ _) λ _ k. (r, e, ne_of_test _ _ n, ne_of_test _ _ k)

  cloud_storage_secret-lem :
      (location : CloudStorageLocation)
      → Yields (λ _. HasCredential location.credential) (cloud_storage_secret c dpa location)
  unfolding cloud_storage_secret
  cloud_storage_secret-lem location =
      Yields-bind _ _ (ensure_cloud_storage_credential-lem location)
        λ _ h. Yields-mono _ (Yields-any _) (λ _ _. h)

  -- The secret of a cloud storage location, which the check of secrets looks at first.
  pub ensure_secret_data_exists-lem :
      (bsl : BackupLocation) (location : CloudStorageLocation)
      → bsl.cloud_storage ≡ some location
      → Yields
          (λ _. HasNoSecret dpa ⊎ HasCredential location.credential)
          (ensure_secret_data_exists c dpa bsl)
  unfolding ensure_secret_data_exists
  ensure_secret_data_exists-lem bsl location e =
      unless_no_secret-cases dpa _ (rw e (cloud_storage_secret-lem location))

  pub count_velero-some :
      (bsl : BackupLocation) (spec : BslSpec) (n : ℕ)
      → bsl.velero ≡ some spec
      → Yields
          (λ m.
            (m ≡ n + bit spec.is_default)
            × IsNamedWell bsl.name spec.is_default
            × IsAccepted (backup_images dpa) spec)
          (count_velero c dpa bsl n)
  unfolding count_velero
  count_velero-some bsl spec n e = rw e (
      Yields-bind _ _ (count_default-lem c dpa spec.is_default bsl.name n) λ m h.
        Yields-skip _ _ λ _.
          Yields-bind _ _ (validate_by_provider-IsAccepted c dpa spec)
            λ _ a. Yields-pure m (h.0, h.1, a))

  pub count_velero-none :
      (bsl : BackupLocation) (n : ℕ)
      → bsl.velero ≡ none
      → Yields (λ m. m ≡ n) (count_velero c dpa bsl n)
  unfolding count_velero
  count_velero-none bsl n e = rw e (Yields-pure n refl)

  pub count_cloud_storage-some :
      (bsl : BackupLocation) (location : CloudStorageLocation) (n : ℕ)
      → bsl.cloud_storage ≡ some location
      → Yields
          (λ m. (m ≡ n + bit location.is_default) × IsNamedWell bsl.name location.is_default)
          (count_cloud_storage c dpa bsl n)
  unfolding count_cloud_storage
  count_cloud_storage-some bsl location n e =
      rw e (count_default-lem c dpa location.is_default bsl.name n)

  pub count_cloud_storage-none :
      (bsl : BackupLocation) (n : ℕ)
      → bsl.cloud_storage ≡ none
      → Yields (λ m. m ≡ n) (count_cloud_storage c dpa bsl n)
  unfolding count_cloud_storage
  count_cloud_storage-none bsl n e = rw e (Yields-pure n refl)

  pub prefix_of_cloud_storage :
      (bsl : BackupLocation) (location : CloudStorageLocation)
      → bsl.cloud_storage ≡ some location
      → Yields
          (λ _. (location.prefix ≢ "") ⊎ (backup_images dpa ≡ false))
          (ensure_prefix_when_backup_images {W = c.World} dpa bsl)
  unfolding ensure_prefix_when_backup_images
  prefix_of_cloud_storage bsl location e = rw e (
      Yields-skip _ _
        λ _. Yields-mono _ (Yields-raise_if _ _) λ _ h. ground (arith, eq_iff location.prefix ""))

  -- The two tests of the kinds, by the kinds that the location has.
  pub one_kind :
      (bsl : BackupLocation)
      → Yields
          (λ _.
            ((spec : BslSpec) × (bsl.velero ≡ some spec) × (bsl.cloud_storage ≡ none))
            ⊎ ((location : CloudStorageLocation) × (bsl.cloud_storage ≡ some location)
                × (bsl.velero ≡ none)))
          (ensure_backup_location_has_velero_or_cloud_storage {W = c.World} bsl)
  unfolding ensure_backup_location_has_velero_or_cloud_storage
  one_kind bsl = Yields-bind _ _ (Yields-raise_if _ _) λ _ a.
      Yields-mono _ (Yields-raise_if _ _) λ _ b. kinds bsl.velero bsl.cloud_storage refl refl a b
    where
      kinds :
          (v : Option BslSpec) (s : Option CloudStorageLocation)
          → bsl.velero ≡ v
          → bsl.cloud_storage ≡ s
          → (is_none s && is_none v) ≡ false
          → (is_some s && is_some v) ≡ false
          → ((spec : BslSpec) × (bsl.velero ≡ some spec) × (bsl.cloud_storage ≡ none))
            ⊎ ((location : CloudStorageLocation) × (bsl.cloud_storage ≡ some location)
                × (bsl.velero ≡ none))
      kinds none none p q a b = cc
      kinds (some v) none p q a b = inl (v, p, q)
      kinds none (some s) p q a b = inr (s, q, p)
      kinds (some v) (some s) p q a b = cc
