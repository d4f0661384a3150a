-- ===== src/Validator/PluginSound.antt =====
-- What the default plugins satisfy once ValidateVeleroPlugins has accepted them.
use oadp_operator.Prelude.{
  ◌≡◌, refl, String, Bool, true, false, ◌&&◌, ◌||◌, List, [], ◌∷◌, contains, arith, ◌==◌,
}
use oadp_operator.Api.{DataProtectionApplication, VeleroConfig}
use oadp_operator.Cluster.{Client, State, done}
use oadp_operator.Cluster.Yields.{
  Yields, Yields-bind, Yields-skip, Yields-pure, Yields-raise_if, Yields-mono,
}
use oadp_operator.Validator.Credentials.{Needs}
use oadp_operator.Validator.Plugins.{validate_plugins, validate_velero_plugins}

-- The plugin of the old data mover is gone, and at most one of the two AWS plugins is there.
pub record HasValidPlugins (velero : VeleroConfig) : Type 0 where
  pub no_vsm : contains velero.default_plugins "vsm" ≡ false
  pub one_aws :
      (contains velero.default_plugins "aws" && contains velero.default_plugins "legacy-aws")
      ≡ false

-- What the loop has found: no "vsm", and whether each of the AWS plugins is among those seen.
abbrev Found : List String → Bool → Bool → Bool × Bool → Type 0
Found plugins aws legacy found =
    (contains plugins "vsm" ≡ false)
    × (found.0 ≡ (aws || contains plugins "aws"))
    × (found.1 ≡ (legacy || contains plugins "legacy-aws"))

vsm_step :
    (plugin : String) (rest : List String) (aws legacy : Bool) (found : Bool × Bool)
    → (plugin == "vsm") ≡ false
    → Found rest (aws || plugin == "aws") (legacy || plugin == "legacy-aws") found
    → Found (plugin ∷ rest) aws legacy found
vsm_step plugin rest aws legacy found e (f, g, h) = (ground arith, ground arith, ground arith)

plugins_lem :
    (velero : VeleroConfig) (found : Bool × Bool)
    → Found velero.default_plugins false false found
    → (found.0 && found.1) ≡ false
    → HasValidPlugins velero
plugins_lem velero found (f, g, h) e = record { no_vsm = f; one_aws = rw (g, h) at e }

module _ (c : Client) (dpa : DataProtectionApplication) where
  validate_plugins-Found :
      (velero : VeleroConfig) (needs : Needs) (plugins : List String) (aws legacy : Bool)
      → Yields (Found plugins aws legacy) (validate_plugins c dpa velero needs plugins aws legacy)
  unfolding validate_plugins
  validate_plugins-Found velero needs [] aws legacy =
      Yields-pure (aws, legacy) (refl, ground arith, ground arith)
  validate_plugins-Found velero needs (plugin ∷ rest) aws legacy =
      Yields-bind _ _ (Yields-raise_if _ _) λ _ e. Yields-skip _ _ λ _.
        Yields-mono _ (validate_plugins-Found velero needs rest _ _)
          λ found h. vsm_step plugin rest aws legacy found e h

  pub validate_velero_plugins-HasValidPlugins :
      (velero : VeleroConfig)
      → Yields (λ b. (b ≡ true) × HasValidPlugins velero) (validate_velero_plugins c dpa velero)
  unfolding validate_velero_plugins
  validate_velero_plugins-HasValidPlugins velero = Yields-skip _ _ λ needs.
      Yields-bind _ _ (validate_plugins-Found velero needs velero.default_plugins false false)
        λ found h.
          Yields-bind _ _ (Yields-raise_if _ _)
            λ _ e. Yields-pure true (refl, plugins_lem velero found h e)

-- If ValidateVeleroPlugins returns without an error, it returns true, "vsm" is not among the default
-- plugins, and "aws" and "legacy-aws" are not both among them.
pub validate_velero_plugins_sound :
    (c : Client) (dpa : DataProtectionApplication) (velero : VeleroConfig) (s t : State c.World)
    (b : Bool)
    → validate_velero_plugins c dpa velero s ≡ done b t
    → (b ≡ true) × HasValidPlugins velero
validate_velero_plugins_sound c dpa velero s t b e =
    (validate_velero_plugins-HasValidPlugins c dpa velero).at s t b e
