-- ===== src/Bsl/PatchOnce.antt =====
-- The changes of a secret, made once, are not made again.
use oadp_operator.Prelude.{
  ◌≡◌, refl, Option, some, Dict, lookup, String, Bool, true, false, ◌||◌, if◌then◌else◌, arith,
}
use oadp_operator.Prelude.Text.{append, has_prefix, has_suffix, contains_text}
use oadp_operator.Prelude.Text.Laws.{
  has_prefix-append_more, contains_of_prefix, contains_text-append, contains_text-append_prefix,
  contains_text-append_both,
}
use oadp_operator.Api.{BackupLocation, Secret}
use oadp_operator.Cluster.{Client, State, done, pure}
use oadp_operator.Bsl.Patch.{
  patch_aws_secret_with_region, patch_azure_secret_with_resource_group, has_region, add_region,
  has_resource_group, add_resource_group,
}

or_left : (a b : Bool) → a ≡ true → (a || b) ≡ true
or_left a b h = ground arith

-- The text with a region behind it, in the two ways to end a line first.
region_line :
    (b : Bool) (text region : String)
    → has_suffix text "\n" ≡ b
    → contains_text
        (if b
          then append text (append "region = " region)
          else append text (append "\nregion = " region))
        "\nregion ="
      ≡ true
unfolding has_prefix
region_line true text region e =
    contains_text-append_both text (append "region = " region) "\n" "region =" e
      (has_prefix-append_more "region = " region "region =" refl)
region_line false text region e =
    contains_text-append text (append "\nregion = " region) "\nregion ="
      (contains_of_prefix _ _ (has_prefix-append_more "\nregion = " region "\nregion =" refl))

-- Whatever the credentials and the region are, once the region has been added the credentials are
-- seen to have one.
pub has_region-add_region : (text region : String) → has_region (add_region text region) ≡ true
unfolding has_region add_region
has_region-add_region text region = or_left _ _ (region_line _ text region refl)

-- Whatever the credentials and the resource group are, once the group has been added the
-- credentials are seen to have one.
pub has_resource_group-add_resource_group :
    (text group : String) → has_resource_group (add_resource_group text group) ≡ true
unfolding has_resource_group add_resource_group
has_resource_group-add_resource_group text group =
    contains_text-append_prefix _ "AZURE_RESOURCE_GROUP=" (append group "\n")

-- Where the credentials of a secret already got a region by this patch, the patch leaves the cluster
-- alone and returns no error.
pub patch_aws_secret_once :
    (c : Client) (secret : Secret) (bsl : BackupLocation) (config : Option Dict)
    (text region : String) (s : State c.World)
    → lookup "credentials" secret.content ≡ some (add_region text region)
    → patch_aws_secret_with_region c secret bsl config s ≡ done tt s
unfolding patch_aws_secret_with_region pure
patch_aws_secret_once c secret bsl config text region s e =
    ground (arith, e, has_region-add_region text region)

-- Where the credentials of a secret already got a resource group by this patch, the patch leaves the
-- cluster alone and returns no error.
pub patch_azure_secret_once :
    (c : Client) (secret : Secret) (config : Option Dict) (text group : String) (s : State c.World)
    → lookup "azurekey" secret.content ≡ some (add_resource_group text group)
    → patch_azure_secret_with_resource_group c secret config s ≡ done tt s
unfolding patch_azure_secret_with_resource_group pure
patch_azure_secret_once c secret config text group s e =
    ground (arith, e, has_resource_group-add_resource_group text group)
