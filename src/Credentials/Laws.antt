-- ===== src/Credentials/Laws.antt =====
-- The `credentialsFile` text and the plugin images.
use oadp_operator.Prelude.{◌≡◌, refl, some, none}
use oadp_operator.Prelude.Text.{trim_space, split}
use oadp_operator.Credentials.{secret_name_key_of}

tests :
    (secret_name_key_of " creds/cloud " ≡ some ("creds", "cloud"))
    × (secret_name_key_of "a/b/c" ≡ none)
    × (secret_name_key_of " " ≡ some ("", ""))
unfolding secret_name_key_of trim_space split
tests = (refl, refl, refl)
