-- ===== src/Validator/Periods.antt =====
-- What spec.nonAdmin satisfies once it has been validated.
use oadp_operator.Prelude.{
  ◌≡◌, ◌≢◌, refl, String, Bool, true, false, not, List, [], ◌∷◌, Option, none, some, is_some,
  is_empty, arith, eq_iff, ◌!=◌,
}
use oadp_operator.Prelude.Int.{ℤ, pos, ◌≤ℤ◌, ◌<ℤ◌, leb_ℤ, ltb_ℤ}
use oadp_operator.Api.{BackupSpec, RestoreSpec, NonAdmin, DataProtectionApplication, VeleroConfig}
use oadp_operator.Cluster.{Client, M, State, done, pure}
use oadp_operator.Cluster.Yields.{
  Yields, Yields-bind, Yields-skip, Yields-pure, Yields-raise_if, Yields-mono,
}
use oadp_operator.Validator.Enforced.{
  check_enforced_backup, check_enforced_restore, check_enforced_bsl,
}
use oadp_operator.Validator.NonAdmin.{
  default_garbage_collection_period, default_backup_sync_period, applied_period, validate_non_admin,
}

-- Nothing of a backup is enforced that users choose for themselves.
pub record IsEnforceableBackup (spec : BackupSpec) : Type 0 where
  pub storage_location : spec.storage_location ≡ ""
  pub volume_snapshot_locations : spec.volume_snapshot_locations ≡ none
  pub included_namespaces : spec.included_namespaces ≡ none
  pub excluded_namespaces : spec.excluded_namespaces ≡ none
  pub include_cluster_resources : spec.include_cluster_resources ≢ some true
  pub included_cluster_scoped_resources : spec.included_cluster_scoped_resources ≡ []

pub record IsEnforceableRestore (spec : RestoreSpec) : Type 0 where
  pub schedule_name : spec.schedule_name ≡ ""
  pub included_namespaces : spec.included_namespaces ≡ none
  pub excluded_namespaces : spec.excluded_namespaces ≡ none
  pub namespace_mapping : spec.namespace_mapping ≡ none

-- The period that is in force.
abbrev pub period_or : ℤ → Option ℤ → ℤ
period_or d none = d
period_or d (some p) = p

abbrev pub sync_period : NonAdmin → ℤ
sync_period n = period_or default_backup_sync_period n.backup_sync_period

abbrev pub collection_period : NonAdmin → ℤ
collection_period n = period_or default_garbage_collection_period n.garbage_collection_period

-- `P` holds of what the pointer points to, if it is set.
abbrev pub IfSet : {A : Type 0} → (A → Type 0) → Option A → Type 0
IfSet P none = Unit
IfSet P (some a) = P a

-- The sync period is not negative, and the periods grow from the enforced one over the sync period to the garbage
-- collection period, and what is enforced may be.
pub record IsValidNonAdmin (n : NonAdmin) : Type 0 where
  pub collection_pos : pos 0 <ℤ collection_period n
  pub sync_nonneg : pos 0 ≤ℤ sync_period n
  pub sync_lt_collection : sync_period n <ℤ collection_period n
  pub enforced_lt_sync : IfSet (λ p. p <ℤ sync_period n) n.enforced_bsl_sync_period
  pub backup : IfSet IsEnforceableBackup n.enforce_backup_spec
  pub restore : IfSet IsEnforceableRestore n.enforce_restore_spec

eq_of_ne_test : (s t : String) → (s != t) ≡ false → s ≡ t
eq_of_ne_test s t h = ground (arith, eq_iff s t)

none_of_test : {A : Type 0} (o : Option A) → is_some o ≡ false → o ≡ none
none_of_test none h = refl
none_of_test (some a) h = cc

nil_of_test : {A : Type 0} (l : List A) → not (is_empty l) ≡ false → l ≡ []
nil_of_test [] h = refl
nil_of_test (x ∷ xs) h = cc

not_true : (o : Option Bool) → elim o [ none ↦ false | some b ↦ b ] ≡ false → o ≢ some true
not_true none h = cc
not_true (some b) h = cc

lt_of_test : (p q : ℤ) → leb_ℤ q p ≡ false → p <ℤ q
lt_of_test p q e = ground arith

module _ {W : Type 0} where
  check_enforced_backup-lem :
      (spec : BackupSpec)
      → Yields (λ _. IsEnforceableBackup spec) (check_enforced_backup {W = W} spec)
  unfolding check_enforced_backup
  check_enforced_backup-lem spec = Yields-bind _ _ (Yields-raise_if _ _) λ _ a.
      Yields-bind _ _ (Yields-raise_if _ _) λ _ b. Yields-bind _ _ (Yields-raise_if _ _) λ _ c.
        Yields-bind _ _ (Yields-raise_if _ _) λ _ d. Yields-bind _ _ (Yields-raise_if _ _) λ _ e.
          Yields-mono _ (Yields-raise_if _ _) λ _ f. record {
            storage_location = eq_of_ne_test _ _ a;
            volume_snapshot_locations = none_of_test _ b;
            included_namespaces = none_of_test _ c;
            excluded_namespaces = none_of_test _ d;
            include_cluster_resources = not_true _ e;
            included_cluster_scoped_resources = nil_of_test _ f;
          }

  check_enforced_restore-lem :
      (spec : RestoreSpec)
      → Yields (λ _. IsEnforceableRestore spec) (check_enforced_restore {W = W} spec)
  unfolding check_enforced_restore
  check_enforced_restore-lem spec = Yields-bind _ _ (Yields-raise_if _ _) λ _ a.
      Yields-bind _ _ (Yields-raise_if _ _) λ _ b. Yields-bind _ _ (Yields-raise_if _ _) λ _ c.
        Yields-mono _ (Yields-raise_if _ _) λ _ d. record {
          schedule_name = eq_of_ne_test _ _ a;
          included_namespaces = none_of_test _ b;
          excluded_namespaces = none_of_test _ c;
          namespace_mapping = none_of_test _ d;
        }

  if_set :
      {A : Type 0} {P : A → Type 0} (o : Option A) (f : A → M W (Unit {0}))
      → ((a : A) → Yields (λ _. P a) (f a))
      → Yields {W = W} (λ _. IfSet P o) (elim o [ none ↦ pure tt | some a ↦ f a ])
  if_set none f h = Yields-pure tt tt
  if_set (some a) f h = h a

  applied_period-lem :
      (period : Option ℤ) (d : ℤ) (text : String)
      → pos 0 ≤ℤ d
      → Yields (λ p. (p ≡ period_or d period) × (pos 0 ≤ℤ p)) (applied_period {W = W} period d text)
  unfolding applied_period
  applied_period-lem none d text h = Yields-pure d (refl, h)
  applied_period-lem (some p) d text h =
      Yields-bind _ _ (Yields-raise_if _ _) λ _ e. Yields-pure p (refl, nonneg p e)
    where
      nonneg : (p : ℤ) → ltb_ℤ p (pos 0) ≡ false → pos 0 ≤ℤ p
      nonneg p e = ground arith

  check_enforced_bsl-lem :
      (period : Option ℤ) (applied : ℤ)
      → Yields (λ _. IfSet (λ p. p <ℤ applied) period) (check_enforced_bsl {W = W} period applied)
  unfolding check_enforced_bsl
  check_enforced_bsl-lem none applied = Yields-pure tt tt
  check_enforced_bsl-lem (some p) applied =
      Yields-mono _ (Yields-raise_if _ _) λ _ e. lt_of_test p applied e

pos_above : (s g : ℤ) → pos 0 ≤ℤ s → s <ℤ g → pos 0 <ℤ g
pos_above s g h less = omega arith

module _ (c : Client) (dpa : DataProtectionApplication) where
  pub validate_non_admin-IsValidNonAdmin :
      (velero : VeleroConfig) (n : NonAdmin)
      → Yields (λ _. IsValidNonAdmin n) (validate_non_admin c dpa velero n)
  unfolding validate_non_admin
  validate_non_admin-IsValidNonAdmin velero n = Yields-skip _ _ λ _.
      Yields-bind _ _ (applied_period-lem n.garbage_collection_period _ _ (omega arith)) λ g gh.
        Yields-bind _ _ (applied_period-lem n.backup_sync_period _ _ (omega arith)) λ s sh.
          Yields-bind _ _ (Yields-raise_if _ _) λ _ order. Yields-skip _ _ λ _.
            Yields-bind _ _ (if_set n.enforce_backup_spec _ check_enforced_backup-lem) λ _ b.
              Yields-bind _ _ (if_set n.enforce_restore_spec _ check_enforced_restore-lem) λ _ r.
                Yields-mono _ (check_enforced_bsl-lem n.enforced_bsl_sync_period s) λ _ e. record {
                  collection_pos = rw (← gh.0) (pos_above s g sh.1 (lt_of_test s g order));
                  sync_nonneg = rw sh.0 at sh.1;
                  sync_lt_collection = rw (← gh.0, ← sh.0) (lt_of_test s g order);
                  enforced_lt_sync = rw (← sh.0) e;
                  backup = b;
                  restore = r;
                }

-- If the checks of spec.nonAdmin return without an error, the garbage collection period in force
-- (the given one, else 24 hours) is greater than 0, so that a given 0 is refused; the sync period in
-- force (the given one, else 2 minutes) is not negative; the sync period is less than the garbage collection period and greater than an enforced period of the
-- storage locations, and what is enforced of backups and restores is none of what users choose.
pub validate_non_admin_sound :
    (c : Client) (dpa : DataProtectionApplication) (velero : VeleroConfig) (n : NonAdmin)
    (s t : State c.World)
    → validate_non_admin c dpa velero n s ≡ done tt t
    → IsValidNonAdmin n
validate_non_admin_sound c dpa velero n s t e =
    (validate_non_admin-IsValidNonAdmin c dpa velero n).at s t tt e
