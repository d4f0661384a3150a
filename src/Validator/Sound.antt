-- ===== src/Validator/Sound.antt =====
-- What a DataProtectionApplication satisfies once ValidateDataProtectionCR has accepted it.
use oadp_operator.Prelude.{
  ◌≤◌, ◌≡◌, ◌≢◌, ◌⊎◌, inl, inr, refl, String, Bool, true, false, ◌&&◌, not, List, [], ◌∷◌, Option,
  none, some, All, is_empty, find, arith, eq_iff, ◌!=◌,
}
use oadp_operator.Api.{DataProtectionApplication, ApplicationConfig, VeleroConfig, NonAdmin}
use oadp_operator.Api.Methods.{backup_images, operator_type_key, operator_type_mtc}
use oadp_operator.Cluster.{Client, State, done, message, pure, raise_if}
use oadp_operator.Cluster.Yields.{
  Yields, Yields-bind, Yields-skip, Yields-pure, Yields-raise, Yields-raise_if, Yields-if,
  Yields-option, Yields-mono,
}
use oadp_operator.Bsl.Counting.{IsValidLocation, default_count}
use oadp_operator.Bsl.Validate.{validate_backup_storage_locations}
use oadp_operator.Bsl.Valid.{AllowsNoDefault, validate_backup_storage_locations_sound}
use oadp_operator.Vsl.Validate.{validate_volume_snapshot_locations}
use oadp_operator.Vsl.Sound.{IsValidSnapshotLocation, validate_volume_snapshot_locations_sound}
use oadp_operator.Validator.NonAdmin.{validate_non_admin}
use oadp_operator.Validator.Periods.{IfSet, IsValidNonAdmin, validate_non_admin-IsValidNonAdmin}
use oadp_operator.Validator.PluginSound.{HasValidPlugins, validate_velero_plugins-HasValidPlugins}
use oadp_operator.Validator.Cr.{
  required_config, check_locations_given, check_upgrades, check_operator_type, validate_rest,
  validate_data_protection_cr,
}

-- Either there are backup locations, or the DPA asks for none, and then images are not backed up.
pub data HasLocations (dpa : DataProtectionApplication) (velero : VeleroConfig) : Type 0 where
  given :
      velero.no_default_backup_location ≡ false
      → dpa.backup_locations ≢ []
      → HasLocations dpa velero
  asks_for_none :
      velero.no_default_backup_location ≡ true
      → dpa.backup_locations ≡ []
      → backup_images dpa ≡ false
      → HasLocations dpa velero

-- The operator type is overridden by "mtc" only.
abbrev pub HasOperatorType : DataProtectionApplication → Type 0
HasOperatorType dpa =
    IfSet (λ v. v ≡ operator_type_mtc) (find operator_type_key dpa.unsupported_overrides)

pub record IsValidDpa (dpa : DataProtectionApplication) : Type 0 where
  pub configuration : ApplicationConfig
  pub velero : VeleroConfig
  pub has_configuration : dpa.configuration ≡ some configuration
  pub has_velero : configuration.velero ≡ some velero
  pub locations : HasLocations dpa velero
  pub backup_locations : All (IsValidLocation dpa) dpa.backup_locations
  pub one_default :
      (default_count dpa.backup_locations ≡ 1)
      ⊎ ((default_count dpa.backup_locations ≤ 1) × AllowsNoDefault dpa)
  pub snapshot_locations : All (IsValidSnapshotLocation dpa) dpa.snapshot_locations
  pub no_data_mover : dpa.has_data_mover ≡ false
  pub no_restic : configuration.has_restic ≡ false
  pub operator_type : HasOperatorType dpa
  pub plugins : HasValidPlugins velero
  pub non_admin : IfSet IsValidNonAdmin dpa.non_admin

nil_of_test : {A : Type 0} (l : List A) → not (is_empty l) ≡ false → l ≡ []
nil_of_test [] h = refl
nil_of_test (x ∷ xs) h = cc

nonempty_of_test : {A : Type 0} (l : List A) → is_empty l ≡ false → l ≢ []
nonempty_of_test [] h = cc
nonempty_of_test (x ∷ xs) h = cc

eq_of_ne_test : (s t : String) → (s != t) ≡ false → s ≡ t
eq_of_ne_test s t h = ground (arith, eq_iff s t)

module _ {W : Type 0} where
  required_config-lem :
      (dpa : DataProtectionApplication)
      → Yields
          (λ p. (dpa.configuration ≡ some p.0) × (p.0.velero ≡ some p.1))
          (required_config {W = W} dpa)
  unfolding required_config
  required_config-lem dpa =
      Yields-option _ _ _ (λ _. Yields-raise _)
        λ a e. Yields-option _ _ _ (λ _. Yields-raise _) λ v f. Yields-pure (a, v) (e, f)

  check_locations_given-HasLocations :
      (dpa : DataProtectionApplication) (velero : VeleroConfig)
      → Yields (λ _. HasLocations dpa velero) (check_locations_given {W = W} dpa velero)
  unfolding check_locations_given
  check_locations_given-HasLocations dpa velero =
      Yields-if _ _ _
        (λ e.
          Yields-bind _ _ (Yields-raise_if _ _)
            λ _ a. Yields-mono _ (Yields-raise_if _ _) λ _ b. asks_for_none e (nil_of_test _ a) b)
        (λ e. Yields-mono _ (Yields-raise_if _ _) λ _ a. given e (nonempty_of_test _ a))

  check_upgrades-lem :
      (dpa : DataProtectionApplication) (a : ApplicationConfig)
      → Yields
          (λ _. (dpa.has_data_mover ≡ false) × (a.has_restic ≡ false))
          (check_upgrades {W = W} dpa a)
  unfolding check_upgrades
  check_upgrades-lem dpa a =
      Yields-bind _ _ (Yields-raise_if _ _) λ _ e. Yields-mono _ (Yields-raise_if _ _) λ _ f. (e, f)

  overridden :
      (o : Option String)
      → Yields {W = W}
          (λ _. IfSet (λ v. v ≡ operator_type_mtc) o)
          (elim o [
            | none ↦ pure tt
            | some value ↦
                raise_if
                  (value != operator_type_mtc)
                  (message "only mtc operator type override is supported")
          ])
  overridden none = Yields-pure tt tt
  overridden (some value) = Yields-mono _ (Yields-raise_if _ _) λ _ e. eq_of_ne_test _ _ e

  check_operator_type-HasOperatorType :
      (dpa : DataProtectionApplication)
      → Yields (λ _. HasOperatorType dpa) (check_operator_type {W = W} dpa)
  unfolding check_operator_type
  check_operator_type-HasOperatorType dpa = overridden _

module _ (c : Client) (dpa : DataProtectionApplication) where
  non_admin_if_set :
      (velero : VeleroConfig) (o : Option NonAdmin)
      → Yields {W = c.World}
          (λ _. IfSet IsValidNonAdmin o)
          (elim o [ none ↦ pure tt | some n ↦ validate_non_admin c dpa velero n ])
  non_admin_if_set velero none = Yields-pure tt tt
  non_admin_if_set velero (some n) = validate_non_admin-IsValidNonAdmin c dpa velero n

  -- What the checks behind those of the locations establish.
  abbrev Rest : ApplicationConfig → VeleroConfig → Type 0
  Rest a v =
      ((dpa.has_data_mover ≡ false) × (a.has_restic ≡ false))
      × HasOperatorType dpa
      × HasValidPlugins v
      × IfSet IsValidNonAdmin dpa.non_admin

  validate_rest-Rest :
      (a : ApplicationConfig) (v : VeleroConfig)
      → Yields (λ b. (b ≡ true) × Rest a v) (validate_rest c dpa a v)
  unfolding validate_rest
  validate_rest-Rest a v = Yields-skip _ _ λ _. Yields-bind _ _ (check_upgrades-lem dpa a) λ _ u.
      Yields-skip _ _ λ _. Yields-bind _ _ (check_operator_type-HasOperatorType dpa) λ _ o.
        Yields-bind _ _ (validate_velero_plugins-HasValidPlugins c dpa v) λ _ p.
          Yields-skip _ _ λ _. Yields-skip _ _ λ _.
            Yields-bind _ _ (non_admin_if_set v dpa.non_admin)
              λ _ n. Yields-pure true (refl, (u, o, p.1, n))

  -- The results of the two kinds of location.
  abbrev Backups : Type 0
  Backups =
      All (IsValidLocation dpa) dpa.backup_locations
      × (default_count dpa.backup_locations ≤ 1)
      × ((default_count dpa.backup_locations ≡ 1) ⊎ AllowsNoDefault dpa)

  backups : Yields (λ b. (b ≡ true) × Backups) (validate_backup_storage_locations c dpa)
  backups = record {
    at = λ s t b e.
        let (ok, valid, few, one) = validate_backup_storage_locations_sound c dpa s t b e in
        (ok, (valid, few, one));
  }

  snapshots :
      Yields
        (λ b. (b ≡ true) × All (IsValidSnapshotLocation dpa) dpa.snapshot_locations)
        (validate_volume_snapshot_locations c dpa)
  snapshots = record { at = λ s t b e. validate_volume_snapshot_locations_sound c dpa s t b e }

  one_default_of :
      Backups
      → (default_count dpa.backup_locations ≡ 1)
        ⊎ ((default_count dpa.backup_locations ≤ 1) × AllowsNoDefault dpa)
  one_default_of (_, few, inl e) = inl e
  one_default_of (_, few, inr a) = inr (few, a)

  accepted : Yields (λ b. (b ≡ true) × IsValidDpa dpa) (validate_data_protection_cr c dpa)
  unfolding validate_data_protection_cr
  accepted = Yields-skip _ _ λ _. Yields-skip _ _ λ _.
      Yields-bind _ _ (required_config-lem dpa) λ config e.
        Yields-bind _ _ (check_locations_given-HasLocations dpa config.1) λ _ l.
          Yields-bind _ _ backups λ bsls b.
            Yields-bind _ _ (Yields-if bsls _ _ (λ _. snapshots) (λ f. absurd (Bool-clash _ b.0 f)))
              λ vsls v.
                Yields-if (bsls && vsls) _ _
                  (λ _. Yields-mono _ (validate_rest-Rest config.0 config.1) λ r h. (
                    h.0,
                    record {
                      configuration = config.0;
                      velero = config.1;
                      has_configuration = e.0;
                      has_velero = e.1;
                      locations = l;
                      backup_locations = b.1.0;
                      one_default = one_default_of b.1;
                      snapshot_locations = v.1;
                      no_data_mover = h.1.0.0;
                      no_restic = h.1.0.1;
                      operator_type = h.1.1;
                      plugins = h.1.2;
                      non_admin = h.1.3;
                    },
                  ))
                  (λ f. absurd (and_clash _ _ b.0 v.0 f))
    where
      Bool-clash : (b : Bool) → b ≡ true → b ≡ false → ⊥
      Bool-clash b e f = cc

      and_clash : (b d : Bool) → b ≡ true → d ≡ true → (b && d) ≡ false → ⊥
      and_clash b d e f g = ground arith

-- If ValidateDataProtectionCR returns without an error, it returns true, and the DPA is valid: its
-- Velero configuration is set; it has backup locations, or asks for none and backs up no images;
-- every backup and snapshot location is valid, and one backup location is the default one (none may
-- be where the DPA asks for none); no data mover and no restic object is left; the operator type is
-- overridden by "mtc" only; the plugins are allowed together, and the non-admin settings are valid.
pub validate_data_protection_cr_sound :
    (c : Client) (dpa : DataProtectionApplication) (s t : State c.World) (b : Bool)
    → validate_data_protection_cr c dpa s ≡ done b t
    → (b ≡ true) × IsValidDpa dpa
validate_data_protection_cr_sound c dpa s t b e = (accepted c dpa).at s t b e
