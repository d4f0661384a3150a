-- ===== src/Bsl/Valid.antt =====
-- ValidateBackupStorageLocations accepts only valid locations with one default among them.
use oadp_operator.Prelude.{
  ℕ, ◌+◌, ◌≤◌, ◌≡◌, ◌≢◌, ◌⊎◌, inl, inr, refl, Bool, true, false, not, List, [], ◌∷◌, nat_eq, ltb,
  All, arith, Bool-cases,
}
use oadp_operator.Api.{BackupLocation, DataProtectionApplication, VeleroConfig}
use oadp_operator.Cluster.{Client, State, done}
use oadp_operator.Cluster.Yields.{
  Yields, Yields-bind, Yields-skip, Yields-pure, Yields-raise_if, Yields-if, Yields-mono,
}
use oadp_operator.Bsl.Validate.{
  validate_location, validate_locations, no_default_allowed, validate_backup_storage_locations,
}
use oadp_operator.Bsl.Counting.{
  default_bit, default_count, HasVelero, IsValidLocation, velero, cloud_storage, one_kind,
  prefix_of_cloud_storage, ensure_secret_data_exists-lem, count_velero-some, count_velero-none,
  count_cloud_storage-some, count_cloud_storage-none, velero_of-HasVelero,
}

-- NoDefaultBackupLocation is set.
abbrev pub AllowsNoDefault : DataProtectionApplication → Type 0
AllowsNoDefault dpa = (v : VeleroConfig) × HasVelero dpa v × (v.no_default_backup_location ≡ true)

ne_of_nat_test : (n m : ℕ) → nat_eq n m ≡ false → n ≢ m
ne_of_nat_test n m h = ground arith

module _ (c : Client) (dpa : DataProtectionApplication) where
  validate_location-lem :
      (bsl : BackupLocation) (n : ℕ)
      → Yields
          (λ m. (m ≡ n + default_bit bsl) × IsValidLocation dpa bsl)
          (validate_location c dpa bsl n)
  unfolding validate_location
  validate_location-lem bsl n = Yields-bind _ _ (one_kind c dpa bsl) λ _ kind. elim kind [
    | inl (spec, is_velero, no_cloud) ↦ Yields-skip _ _ λ _. Yields-skip _ _ λ _.
        Yields-bind _ _ (count_velero-some c dpa bsl spec n is_velero) λ m h.
          Yields-mono _ (count_cloud_storage-none c dpa bsl m no_cloud)
            λ k e. (rw (is_velero, no_cloud) (omega arith), velero spec is_velero no_cloud h.1 h.2)
    | inr (location, is_cloud, no_velero) ↦
        Yields-bind _ _ (prefix_of_cloud_storage c dpa bsl location is_cloud) λ _ prefixed.
          Yields-bind _ _ (ensure_secret_data_exists-lem c dpa bsl location is_cloud) λ _ secret.
            Yields-bind _ _ (count_velero-none c dpa bsl n no_velero) λ m e.
              Yields-mono _ (count_cloud_storage-some c dpa bsl location m is_cloud) λ k h. (
                rw (is_cloud, no_velero) (omega arith),
                cloud_storage location is_cloud no_velero h.1 prefixed secret,
              )
  ]

  validate_locations-lem :
      (locations : List BackupLocation) (n : ℕ)
      → Yields
          (λ m. (m ≡ n + default_count locations) × All (IsValidLocation dpa) locations)
          (validate_locations c dpa locations n)
  unfolding validate_locations
  validate_locations-lem [] n = Yields-pure n (omega arith, tt)
  validate_locations-lem (bsl ∷ rest) n =
      Yields-bind _ _ (validate_location-lem bsl n)
        λ m h. Yields-mono _ (validate_locations-lem rest m) λ k g. (omega arith, (h.1, g.1))

  no_default_allowed-lem :
      (n : ℕ)
      → Yields (λ b. (b ≡ false) ⊎ (n ≢ 0) ⊎ AllowsNoDefault dpa) (no_default_allowed c dpa n)
  unfolding no_default_allowed
  no_default_allowed-lem n =
      Yields-if _ _ _
        (λ _. Yields-bind _ _ (velero_of-HasVelero dpa) λ v h. Yields-pure _ (known v h))
        (λ e. Yields-pure true (inr (inl (ne_of_nat_test n 0 e))))
    where
      known :
          (v : VeleroConfig)
          → HasVelero dpa v
          → (v.no_default_backup_location ≡ false) ⊎ (n ≢ 0) ⊎ AllowsNoDefault dpa
      known v h = elim (Bool-cases v.no_default_backup_location) [
        | inl e ↦ inr (inr (v, h, e))
        | inr e ↦ inl e
      ]

  accepted :
      Yields
        (λ b.
          (b ≡ true)
          × All (IsValidLocation dpa) dpa.backup_locations
          × (default_count dpa.backup_locations ≤ 1)
          × ((default_count dpa.backup_locations ≡ 1) ⊎ AllowsNoDefault dpa))
        (validate_backup_storage_locations c dpa)
  unfolding validate_backup_storage_locations
  accepted = Yields-bind _ _ (validate_locations-lem dpa.backup_locations 0) λ n h.
      Yields-bind _ _ (Yields-raise_if _ _) λ _ few.
        Yields-bind _ _ (no_default_allowed-lem n) λ b allowed.
          Yields-bind _ _ (Yields-raise_if _ _) λ _ some_default.
            Yields-pure true (refl, h.1, ground arith, one_or_none n b few some_default h.0 allowed)
    where
      one_or_none :
          (n : ℕ) (b : Bool)
          → ltb 1 n ≡ false
          → not b ≡ false
          → n ≡ 0 + default_count dpa.backup_locations
          → (b ≡ false) ⊎ (n ≢ 0) ⊎ AllowsNoDefault dpa
          → (default_count dpa.backup_locations ≡ 1) ⊎ AllowsNoDefault dpa
      one_or_none n b few some_default e (inl refused) = absurd (cc)
      one_or_none n b few some_default e (inr (inl nonzero)) = inl (ground arith)
      one_or_none n b few some_default e (inr (inr allowed)) = inr allowed

pub validate_backup_storage_locations_sound :
    (c : Client) (dpa : DataProtectionApplication) (s t : State c.World) (b : Bool)
    → validate_backup_storage_locations c dpa s ≡ done b t
    → (b ≡ true)
      × All (IsValidLocation dpa) dpa.backup_locations
      × (default_count dpa.backup_locations ≤ 1)
      × ((default_count dpa.backup_locations ≡ 1) ⊎ AllowsNoDefault dpa)
validate_backup_storage_locations_sound c dpa s t b e = (accepted c dpa).at s t b e
