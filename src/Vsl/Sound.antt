-- ===== src/Vsl/Sound.antt =====
-- What a snapshot location satisfies once ValidateVolumeSnapshotLocations has accepted it.
use oadp_operator.Prelude.{
  ℕ, ◌+◌, ◌≡◌, ◌≢◌, ◌⊎◌, inl, inr, refl, String, Bool, true, false, ◌&&◌, not, List, [], ◌∷◌,
  Option, none, some, Dict, index, All, arith, eq_iff, ne_of_test, eq_of_test, ◌!=◌,
}
use oadp_operator.Api.{
  VslSpec, SnapshotLocation, DataProtectionApplication, VeleroConfig, Credential,
}
use oadp_operator.Cluster.{Client, State, done}
use oadp_operator.Cluster.Yields.{
  Yields, Yields-bind, Yields-pure, Yields-raise, Yields-raise_if, Yields-if, Yields-any,
  Yields-option, Yields-mono,
}
use oadp_operator.Bsl.Counting.{HasVelero, HasNoSecret, velero_of-HasVelero, unless_no_secret-cases}
use oadp_operator.Vsl.Validate.{
  is_valid_aws_key, is_valid_gcp_key, is_valid_azure_key, contains_plugin, check_keys, check_config,
  check_plugin, check_aws, check_gcp, check_azure, check_vsl_credential,
  ensure_vsl_secret_data_exists, validate_vsl_spec, validate_snapshot_location,
  validate_snapshot_locations, validate_volume_snapshot_locations,
}

-- Every key of the config is a valid one; a nil map has no keys.
abbrev pub HasKeys : (String → Bool) → Option Dict → Type 0
HasKeys valid none = Unit
HasKeys valid (some entries) = All (λ e. valid e.0 ≡ true) entries

-- Some default plugin belongs to the provider.
abbrev pub HasPlugin : DataProtectionApplication → String → Type 0
HasPlugin dpa provider =
    (v : VeleroConfig) × HasVelero dpa v × (contains_plugin v.default_plugins provider ≡ true)

-- The provider is one of three, each with the keys and the plugin that it needs.
pub data IsAccepted (dpa : DataProtectionApplication) (spec : VslSpec) : Type 0 where
  aws :
      spec.provider ≡ "aws"
      → index "region" spec.config ≢ ""
      → HasKeys is_valid_aws_key spec.config
      → HasPlugin dpa "aws"
      → IsAccepted dpa spec
  gcp :
      spec.provider ≡ "gcp"
      → HasKeys is_valid_gcp_key spec.config
      → HasPlugin dpa "gcp"
      → IsAccepted dpa spec
  azure :
      spec.provider ≡ "azure"
      → HasKeys is_valid_azure_key spec.config
      → HasPlugin dpa "azure"
      → IsAccepted dpa spec

-- A credential that is given names a secret and a key.
abbrev pub IsCredential : Option Credential → Type 0
IsCredential none = Unit
IsCredential (some r) = (r.name ≢ "") × (r.key ≢ "")

abbrev pub IsValidSnapshotLocation : DataProtectionApplication → SnapshotLocation → Type 0
IsValidSnapshotLocation dpa vsl =
    (spec : VslSpec) × (vsl.velero ≡ some spec)
    × IsAccepted dpa spec
    × (HasNoSecret dpa ⊎ IsCredential spec.credential)

true_of_test : (b : Bool) → not b ≡ false → b ≡ true
true_of_test b h = ground arith

module _ {W : Type 0} where
  check_keys-All :
      (valid : String → Bool) (provider : String) (i : ℕ) (entries : Dict)
      → Yields
          (λ _. All (λ e. valid e.0 ≡ true) entries)
          (check_keys {W = W} valid provider i entries)
  unfolding check_keys
  check_keys-All valid provider i [] = Yields-pure tt tt
  check_keys-All valid provider i ((key, value) ∷ rest) =
      Yields-bind _ _ (Yields-raise_if _ _)
        λ _ e. Yields-mono _ (check_keys-All valid provider i rest) λ _ h. (true_of_test _ e, h)

  check_config-HasKeys :
      (valid : String → Bool) (provider : String) (i : ℕ) (config : Option Dict)
      → Yields (λ _. HasKeys valid config) (check_config {W = W} valid provider i config)
  unfolding check_config
  check_config-HasKeys valid provider i none = Yields-pure tt tt
  check_config-HasKeys valid provider i (some entries) = check_keys-All valid provider i entries

  check_plugin-HasPlugin :
      (dpa : DataProtectionApplication) (provider : String) (i : ℕ)
      → Yields (λ _. HasPlugin dpa provider) (check_plugin {W = W} dpa provider i)
  unfolding check_plugin
  check_plugin-HasPlugin dpa provider i =
      Yields-bind _ _ (velero_of-HasVelero dpa)
        λ v h. Yields-mono _ (Yields-raise_if _ _) λ _ e. (v, h, true_of_test _ e)

  check_vsl_credential-lem :
      (credential : Option Credential)
      → Yields (λ _. IsCredential credential) (check_vsl_credential {W = W} credential)
  unfolding check_vsl_credential
  check_vsl_credential-lem none = Yields-pure tt tt
  check_vsl_credential-lem (some r) =
      Yields-bind _ _ (Yields-raise_if _ _)
        λ _ k. Yields-mono _ (Yields-raise_if _ _) λ _ n. (ne_of_test _ _ n, ne_of_test _ _ k)

  -- A block that is about another provider says nothing.
  check_aws-lem :
      (dpa : DataProtectionApplication) (spec : VslSpec) (i : ℕ)
      → Yields (λ _. (spec.provider ≢ "aws") ⊎ IsAccepted dpa spec) (check_aws {W = W} dpa spec i)
  unfolding check_aws
  check_aws-lem dpa spec i =
      Yields-if _ _ _
        (λ e. Yields-bind _ _ (Yields-raise_if _ _) λ _ r.
          Yields-bind _ _ (check_config-HasKeys is_valid_aws_key "aws" i spec.config) λ _ k.
            Yields-mono _ (check_plugin-HasPlugin dpa "aws" i)
              λ _ p. inr (aws (eq_of_test _ _ e) (ne_of_test _ _ r) k p))
        (λ e. Yields-pure tt (inl (ne_of_test _ _ e)))

  check_gcp-lem :
      (dpa : DataProtectionApplication) (spec : VslSpec) (i : ℕ)
      → Yields (λ _. (spec.provider ≢ "gcp") ⊎ IsAccepted dpa spec) (check_gcp {W = W} dpa spec i)
  unfolding check_gcp
  check_gcp-lem dpa spec i =
      Yields-if _ _ _
        (λ e. Yields-bind _ _ (check_config-HasKeys is_valid_gcp_key "gcp" i spec.config) λ _ k.
          Yields-mono _ (check_plugin-HasPlugin dpa "gcp" i)
            λ _ p. inr (gcp (eq_of_test _ _ e) k p))
        (λ e. Yields-pure tt (inl (ne_of_test _ _ e)))

  check_azure-lem :
      (dpa : DataProtectionApplication) (spec : VslSpec) (i : ℕ)
      → Yields
          (λ _. (spec.provider ≢ "azure") ⊎ IsAccepted dpa spec)
          (check_azure {W = W} dpa spec i)
  unfolding check_azure
  check_azure-lem dpa spec i =
      Yields-if _ _ _
        (λ e. Yields-bind _ _ (check_config-HasKeys is_valid_azure_key "azure" i spec.config) λ _ k.
          Yields-mono _ (check_plugin-HasPlugin dpa "azure" i)
            λ _ p. inr (azure (eq_of_test _ _ e) k p))
        (λ e. Yields-pure tt (inl (ne_of_test _ _ e)))

-- One of the three blocks is about the provider.
one_block :
    {P : Type 0} (p : String)
    → (p != "aws" && (p != "gcp" && p != "azure")) ≡ false
    → (p ≢ "aws") ⊎ P
    → (p ≢ "gcp") ⊎ P
    → (p ≢ "azure") ⊎ P
    → P
one_block p h (inr x) _ _ = x
one_block p h (inl a) (inr x) _ = x
one_block p h (inl a) (inl g) (inr x) = x
one_block p h (inl a) (inl g) (inl z) =
    absurd (ground (arith, eq_iff p "aws", eq_iff p "gcp", eq_iff p "azure"))

module _ (c : Client) (dpa : DataProtectionApplication) where
  validate_vsl_spec-lem :
      (spec : VslSpec) (i : ℕ)
      → Yields
          (λ _. IsAccepted dpa spec × (HasNoSecret dpa ⊎ IsCredential spec.credential))
          (validate_vsl_spec c dpa spec i)
  unfolding validate_vsl_spec ensure_vsl_secret_data_exists
  validate_vsl_spec-lem spec i = Yields-bind _ _ (Yields-raise_if _ _) λ _ known.
      Yields-bind _ _ (check_aws-lem dpa spec i) λ _ a.
        Yields-bind _ _ (check_gcp-lem dpa spec i) λ _ g.
          Yields-bind _ _ (check_azure-lem dpa spec i) λ _ z.
            Yields-mono _
              (unless_no_secret-cases dpa _ (
                Yields-bind _ _ (check_vsl_credential-lem spec.credential)
                  λ _ h. Yields-mono _ (Yields-any _) λ _ _. h))
              λ _ s. (one_block spec.provider known a g z, s)

  validate_snapshot_locations-lem :
      (locations : List SnapshotLocation) (i : ℕ)
      → Yields
          (λ b. (b ≡ true) × All (IsValidSnapshotLocation dpa) locations)
          (validate_snapshot_locations c dpa locations i)
  unfolding validate_snapshot_locations validate_snapshot_location
  validate_snapshot_locations-lem [] i = Yields-pure true (refl, tt)
  validate_snapshot_locations-lem (vsl ∷ rest) i =
      Yields-bind _ _
        (Yields-option vsl.velero _ _ (λ _. Yields-raise _)
          λ spec e. Yields-mono _ (validate_vsl_spec-lem spec i) λ _ h. (spec, e, h.0, h.1))
        λ _ here.
          Yields-mono _ (validate_snapshot_locations-lem rest (i + 1)) λ b h. (h.0, (here, h.1))

-- If ValidateVolumeSnapshotLocations returns without an error, it returns true, and every snapshot
-- location has a velero part of a known provider, whose config has only that provider's keys (and a
-- region for AWS), with a plugin of that provider among the default plugins; its credential, if one
-- is given, has a name and a key, unless the no-secret flag is set.
pub validate_volume_snapshot_locations_sound :
    (c : Client) (dpa : DataProtectionApplication) (s t : State c.World) (b : Bool)
    → validate_volume_snapshot_locations c dpa s ≡ done b t
    → (b ≡ true) × All (IsValidSnapshotLocation dpa) dpa.snapshot_locations
unfolding validate_volume_snapshot_locations
validate_volume_snapshot_locations_sound c dpa s t b e =
    (validate_snapshot_locations-lem c dpa dpa.snapshot_locations 0).at s t b e
