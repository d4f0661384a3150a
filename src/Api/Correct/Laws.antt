-- ===== src/Api/Correct/Laws.antt =====
-- What AutoCorrect leaves of the plugins and the feature flags.
use oadp_operator.Prelude.{
  ◌≡◌, refl, ap, ◌∙◌, String, Bool, true, false, ◌&&◌, ◌||◌, not, List, [], ◌∷◌, ◌++◌, Option,
  contains, ◌==◌, ◌!=◌, arith, eq_iff,
}
use oadp_operator.Api.{VeleroConfig, NodeAgentConfig}
use oadp_operator.Api.Correct.{
  Velero, remove_seen, remove_duplicate_values, has_csi_plugin, added_flags, correct_velero,
}

-- No entry of the list occurs in it again.
abbrev pub HasNoDuplicates : List String → Type 0
HasNoDuplicates [] = Unit
HasNoDuplicates (x ∷ xs) = (contains xs x ≡ false) × HasNoDuplicates xs

same_contains : (keys : List String) (x n : String) → x ≡ n → contains keys x ≡ contains keys n
same_contains keys x n e = ap (contains keys) e

and_true : (b : Bool) → (b && true) ≡ b
and_true b = ground arith

-- What is kept: the entries that are not among the keys.
remove_seen-contains :
    (keys xs : List String) (n : String)
    → contains (remove_seen keys xs) n ≡ (contains xs n && not (contains keys n))
unfolding remove_seen
remove_seen-contains keys [] n = refl
remove_seen-contains keys (x ∷ xs) n = ground (
  arith,
  eq_iff x n,
  remove_seen-contains keys xs n,
  remove_seen-contains (x ∷ keys) xs n,
  same_contains keys x n,
)

-- An entry that was found is not kept again.
first_is_gone :
    (x : String) (keys xs : List String) → contains (remove_seen (x ∷ keys) xs) x ≡ false
first_is_gone x keys xs = ground (arith, remove_seen-contains (x ∷ keys) xs x, eq_iff x x)

if_seen :
    (xs ys : List String) (b : Bool)
    → HasNoDuplicates xs
    → HasNoDuplicates ys
    → HasNoDuplicates (elim b [ true ↦ xs | false ↦ ys ])
if_seen xs ys true h k = h
if_seen xs ys false h k = k

remove_seen-HasNoDuplicates : (keys xs : List String) → HasNoDuplicates (remove_seen keys xs)
unfolding remove_seen
remove_seen-HasNoDuplicates keys [] = tt
remove_seen-HasNoDuplicates keys (x ∷ xs) =
    if_seen _ _ (contains keys x) (remove_seen-HasNoDuplicates keys xs)
      (first_is_gone x keys xs, remove_seen-HasNoDuplicates (x ∷ keys) xs)

pub contains-append :
    (xs ys : List String) (n : String) → contains (xs ++ ys) n ≡ (contains xs n || contains ys n)
contains-append [] ys n = refl
contains-append (x ∷ xs) ys n = ground (arith, contains-append xs ys n)

added_flags-contains :
    (velero : Velero) (v : VeleroConfig) (n : String)
    → contains (added_flags velero v) n ≡ (
        contains v.feature_flags n
        || (has_csi_plugin v.default_plugins && velero.csi_feature_flag == n)
        || (v.restore_resources_version_priority != ""
            && velero.api_group_versions_feature_flag == n))
unfolding added_flags
added_flags-contains velero v n = ground (
  arith,
  contains-append v.feature_flags (velero.csi_feature_flag ∷ []) n,
  contains-append v.feature_flags (velero.api_group_versions_feature_flag ∷ []) n,
  contains-append (v.feature_flags ++ velero.csi_feature_flag ∷ [])
      (velero.api_group_versions_feature_flag ∷ []) n,
)

-- AutoCorrect leaves no duplicate among the default plugins and the feature flags. The plugins are
-- those that were given; the flags are those that were given, the flag of CSI where the plugin "csi"
-- is given, and the flag of the API group versions where their priority is given.
pub correct_velero_sound :
    (velero : Velero) (agent : Option NodeAgentConfig) (v : VeleroConfig) (n : String)
    → HasNoDuplicates (correct_velero velero agent v).default_plugins
      × HasNoDuplicates (correct_velero velero agent v).feature_flags
      × (contains (correct_velero velero agent v).default_plugins n ≡ contains v.default_plugins n)
      × (contains (correct_velero velero agent v).feature_flags n ≡ (
          contains v.feature_flags n
          || (has_csi_plugin v.default_plugins && velero.csi_feature_flag == n)
          || (v.restore_resources_version_priority != ""
              && velero.api_group_versions_feature_flag == n)))
unfolding correct_velero remove_duplicate_values
correct_velero_sound velero agent v n = (
  remove_seen-HasNoDuplicates [] v.default_plugins,
  remove_seen-HasNoDuplicates [] (added_flags velero v),
  remove_seen-contains [] v.default_plugins n ∙ and_true _,
  remove_seen-contains [] (added_flags velero v) n ∙ and_true _ ∙ added_flags-contains velero v n,
)
