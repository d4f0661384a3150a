-- ===== src/Examples/Secrets.antt =====
-- The registry secret of a storage location.
use oadp_operator.Prelude.{◌≡◌, refl, [], ◌∷◌}
use oadp_operator.Api.{BackupStorageLocation, Secret}
use oadp_operator.Cluster.{done}
use oadp_operator.Registry.Secrets.{populate_aws_registry_secret}
use oadp_operator.Registry.Secrets.Laws.{IsPopulated, populate_aws_registry_secret_sound}
use oadp_operator.Examples.{memory, application, start, meta_of, aws_spec}

abbrev location : BackupStorageLocation
location = record { meta = meta_of "openshift-adp" "dpa-1"; spec = aws_spec }

abbrev fresh : Secret
fresh = record { meta = meta_of "openshift-adp" "oadp-dpa-1-aws-registry-secret"; content = [] }

abbrev filled : Secret
filled = record fresh { content = ("access_key", "access") ∷ ("secret_key", "hidden") ∷ [] }

populates : populate_aws_registry_secret memory application location fresh start ≡ done filled start
unfolding populate_aws_registry_secret oadp_operator.Cluster.◌>>=◌
    oadp_operator.Registry.get_secret_name_and_key oadp_operator.Prelude.lookup
    oadp_operator.Registry.verify_secret_content oadp_operator.Registry.get_provider_secret
    oadp_operator.Prelude.Text.contains_text oadp_operator.Prelude.Text.has_prefix
    oadp_operator.Registry.Aws.parse_aws_secret oadp_operator.Prelude.Text.split
    oadp_operator.Prelude.Text.has_brackets oadp_operator.Prelude.Text.remove_char
    oadp_operator.Prelude.Text.has_whole_word oadp_operator.Registry.KeyValue.get_matched_key_value
    oadp_operator.Prelude.Text.trim_prefix
populates = refl

populate_aws_registry_secret_sound_example : IsPopulated memory application location start filled
populate_aws_registry_secret_sound_example =
    populate_aws_registry_secret_sound memory application location fresh filled start start
      populates
