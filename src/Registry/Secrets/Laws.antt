-- ===== src/Registry/Secrets/Laws.antt =====
-- What a registry secret holds once it has been populated.
use oadp_operator.Prelude.{
  ◌≡◌, ◌≢◌, ◌⊎◌, refl, ap, ◌∙◌, String, Bool, List, [], ◌∷◌, Option, none, some, find, ◌==◌,
  if◌then◌else◌, inl, inr, subst, sym, true, false,
}
use oadp_operator.Credentials.{fields_of, secret_name_key_of}
use oadp_operator.Registry.Aws.Values.{HasValue, parse_aws_secret-HasValue}
use oadp_operator.Registry.{
  NameKeyError, verified, name_key_from_credential, get_provider_secret, get_secret_name_and_key,
}
use oadp_operator.Api.{
  Credential, BslSpec, BackupStorageLocation, DataProtectionApplication, Secret,
}
use oadp_operator.Cluster.{Client, State, M, Outcome, fail, panic, done, ◌>>=◌, pure, raise}
use oadp_operator.Cluster.Yields.{resume-eq-done, Yields, Yields-skip, Yields-pure}
use oadp_operator.Cluster.Moves.{value_or}
use oadp_operator.Registry.KeyValue.{Parsed, parsed, refused}
use oadp_operator.Registry.Aws.{Keys, parse_aws_secret}
use oadp_operator.Registry.Aws.Laws.{HasProfile, HasStsProfile, lines_of, parse_aws_secret_sound}
use oadp_operator.Registry.Secrets.{take_parsed, populate_aws_registry_secret}
use oadp_operator.Bsl.Secrets.{profile_in}

abbrev state_or : {W A : Type 0} → State W → Outcome W A → State W
state_or s (done a t) = t
state_or s (fail e t) = s
state_or s panic = s

-- The keys are those of lines of the secret, which has the profile, or empty for a profile of the
-- token service.
abbrev pub AreKeysOf : String → List String → Keys → Type 0
AreKeysOf profile lines keys =
    (HasProfile profile lines
      × (keys.0 ≢ "")
      × (keys.1 ≢ "")
      × HasValue "aws_access_key_id" lines keys.0
      × HasValue "aws_secret_access_key" lines keys.1)
    ⊎ ((keys ≡ ("", "")) × HasStsProfile profile lines)

-- The name and the key of the location's credential, or the usual ones; empty where one is missing.
abbrev pub wanted_credential : Option Credential → String × String
wanted_credential none = ("cloud-credentials", "cloud")
wanted_credential (some r) =
    if r.name == "" then ("", "") else if r.key == "" then ("", "") else (r.name, r.key)

-- A credentialsFile of the config comes before the credential, if it can be read.
abbrev pub wanted_secret : BslSpec → String × String
wanted_secret spec = elim (find "credentialsFile" spec.config) [
  | none ↦ wanted_credential spec.credential
  | some text ↦ elim (secret_name_key_of text) [
    | none ↦ wanted_credential spec.credential
    | some named ↦ named
  ]
]

-- The registry secret holds the keys of the secret that the location names, as the cluster answers
-- for it.
pub record IsPopulated (c : Client) (dpa : DataProtectionApplication) (bsl : BackupStorageLocation)
    (t : State c.World) (out : Secret) : Type 0 where
  pub keys : Keys
  pub secret : Secret
  pub asked : State c.World
  pub fetched : get_provider_secret c dpa (wanted_secret bsl.spec).0 asked ≡ done secret t
  pub content : out.content ≡ ("access_key", keys.0) ∷ ("secret_key", keys.1) ∷ []
  pub are_keys :
      AreKeysOf (profile_in bsl.spec.config) (lines_of secret (wanted_secret bsl.spec).1) keys

module _ (c : Client) (dpa : DataProtectionApplication) where
  abbrev Named : String × String → NameKeyError → Type 0
  Named named found = (found.0 ≡ named.0) × (found.1 ≡ named.1)

  verified-Named : (name key : String) → Yields (Named (name, key)) (verified c dpa name key)
  unfolding verified
  verified-Named name key = Yields-skip _ _ λ failed. Yields-pure _ (refl, refl)

  Named-if :
      (b : Bool) (x y : String × String) (m n : M c.World NameKeyError)
      → Yields (Named x) m
      → Yields (Named y) n
      → Yields (Named (if b then x else y)) (if b then m else n)
  Named-if true x y m n p q = p
  Named-if false x y m n p q = q

  Named-option :
      {A : Type 0} (o : Option A) (x : String × String) (f : A → String × String)
      (m : M c.World NameKeyError) (g : A → M c.World NameKeyError)
      → Yields (Named x) m
      → ((a : A) → Yields (Named (f a)) (g a))
      → Yields (Named (elim o [ none ↦ x | some a ↦ f a ])) (elim o [ none ↦ m | some a ↦ g a ])
  Named-option none x f m g p q = p
  Named-option (some a) x f m g p q = q a

  credential-Named :
      (credential : Option Credential)
      → Yields
          (Named (wanted_credential credential))
          (name_key_from_credential c dpa credential "aws")
  unfolding name_key_from_credential fields_of
  credential-Named none = verified-Named "cloud-credentials" "cloud"
  credential-Named (some r) =
      Named-if (r.name == "") ("", "") _ _ _ (Yields-pure _ (refl, refl))
        (Named-if (r.key == "") ("", "") _ _ _ (Yields-pure _ (refl, refl))
          (verified-Named r.name r.key))

  get_secret_name_and_key-Named :
      (spec : BslSpec)
      → Yields
          (Named (wanted_secret spec))
          (get_secret_name_and_key c dpa spec.config spec.credential "aws")
  unfolding get_secret_name_and_key
  get_secret_name_and_key-Named spec =
      Named-option (find "credentialsFile" spec.config) _ _ _ _ (credential-Named spec.credential)
        (λ text.
          Named-option (secret_name_key_of text) _ _ _ _ (credential-Named spec.credential)
            (λ named. Yields-pure _ (refl, refl)))

  keys-AreKeysOf :
      (secret : Secret) (key profile : String) (keys : Keys)
      → parse_aws_secret secret key profile ≡ parsed keys
      → AreKeysOf profile (lines_of secret key) keys
  keys-AreKeysOf secret key profile keys e =
      elim (parse_aws_secret_sound secret key profile keys e) [
        | inl (has, a, b) ↦
            let (x, y) = parse_aws_secret-HasValue secret key profile keys e a b in
            inl (has, a, b, x, y)
        | inr sts ↦ inr sts
      ]

  module _ (bsl : BackupStorageLocation) (registry_secret out : Secret) (t : State c.World) where
    abbrev fill : Keys → M c.World Secret
    fill keys =
        pure (record registry_secret {
          content = ("access_key", keys.0) ∷ ("secret_key", keys.1) ∷ [];
        })

    -- The last step, on what the parser gives.
    filled :
        (secret : Secret) (asked u : State c.World)
        → get_provider_secret c dpa (wanted_secret bsl.spec).0 asked ≡ done secret u
        → (r : Parsed Keys)
        → parse_aws_secret secret (wanted_secret bsl.spec).1 (profile_in bsl.spec.config) ≡ r
        → (take_parsed r >>= fill) u ≡ done out t
        → IsPopulated c dpa bsl t out
    unfolding take_parsed ◌>>=◌ pure raise
    filled secret asked u fetched (refused x) parses e = absurd (cc)
    filled secret asked u fetched (parsed keys) parses e = record {
      keys = keys;
      secret = secret;
      asked = asked;
      fetched = fetched ∙ ap (λ o. done secret (state_or u o)) e;
      content = ap (λ o. (value_or out o).content) (sym e);
      are_keys = keys-AreKeysOf secret _ _ keys parses;
    }

    named :
        (found : NameKeyError) (asked : State c.World)
        → (found.0 ≡ (wanted_secret bsl.spec).0)
        → (found.1 ≡ (wanted_secret bsl.spec).1)
        → (get_provider_secret c dpa found.0 >>= λ secret.
              take_parsed (parse_aws_secret secret found.1 (profile_in bsl.spec.config)) >>= fill)
            asked
          ≡ done out t
        → IsPopulated c dpa bsl t out
    unfolding ◌>>=◌
    named found asked same_name same_key e =
        let again =
          subst
            (λ name.
              (get_provider_secret c dpa name >>= λ secret.
              take_parsed (parse_aws_secret secret found.1 (profile_in bsl.spec.config)) >>= fill)
                asked
              ≡ done out t)
            same_name e in
        let (secret, u, fetched, rest) =
          resume-eq-done (get_provider_secret c dpa (wanted_secret bsl.spec).0 asked) _ again in
        filled secret asked u fetched _ refl (
          subst
            (λ key.
              (take_parsed (parse_aws_secret secret key (profile_in bsl.spec.config)) >>= fill) u
              ≡ done out t)
            same_key rest)

-- If populateAWSRegistrySecret returns without an error, the registry secret holds exactly an access
-- key and a secret key. They are of the secret that the cluster answers for the name that the
-- location's credentialsFile, its credential or else the default for AWS gives: either both are not
-- empty, are the values of lines of that secret for the two keys, and the secret has the profile of
-- the location; or both are empty, and that profile is one of the token service.
pub populate_aws_registry_secret_sound :
    (c : Client) (dpa : DataProtectionApplication) (bsl : BackupStorageLocation)
    (registry_secret out : Secret) (s t : State c.World)
    → populate_aws_registry_secret c dpa bsl registry_secret s ≡ done out t
    → IsPopulated c dpa bsl t out
unfolding populate_aws_registry_secret ◌>>=◌
populate_aws_registry_secret_sound c dpa bsl registry_secret out s t e =
    let (found, asked, first, rest) =
      resume-eq-done (get_secret_name_and_key c dpa bsl.spec.config bsl.spec.credential "aws" s) _
        e in
    let is_named = (get_secret_name_and_key-Named c dpa bsl.spec).at s asked found first in
    named c dpa bsl registry_secret out t found asked is_named.0 is_named.1 rest
