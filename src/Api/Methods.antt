-- ===== src/Api/Methods.antt =====
-- The methods of the DataProtectionApplication (api/v1alpha1/dataprotectionapplication_types.go).
use oadp_operator.Prelude.{String, Bool, true, none, some, contains}
use oadp_operator.Api.{DataProtectionApplication, VeleroConfig}

abbrev pub oadp_operator_label : String
oadp_operator_label = "openshift.io/oadp"

abbrev pub operator_type_key : String
operator_type_key = "operator-type"

abbrev pub operator_type_mtc : String
operator_type_mtc = "mtc"

-- BackupImages: unset means true.
abbrev pub backup_images : DataProtectionApplication → Bool
backup_images dpa = elim dpa.backup_images [ none ↦ true | some b ↦ b ]

-- HasFeatureFlag
unfoldable pub has_feature_flag : VeleroConfig → String → Bool
has_feature_flag config flag = contains config.feature_flags flag
