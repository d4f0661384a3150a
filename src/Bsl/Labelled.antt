-- ===== src/Bsl/Labelled.antt =====
-- What the labels of a credentials secret are after UpdateCredentialsSecretLabels.
use oadp_operator.Prelude.{
  ◌≡◌, ◌≢◌, refl, ap, inl, inr, ◌∙◌, String, Bool, false, Option, none, some, Dict, find, index,
  lookup, lookup-insert, ◌==◌, ◌!=◌, ◌||◌, if◌then◌else◌, arith, eq_iff, Option-cases, Bool-cases,
}
use oadp_operator.Api.Methods.{oadp_operator_label}
use oadp_operator.Bsl.Labels.{dpa_label, entries, set_label, with_labels, needs_patch}

-- An entry that is not empty is there.
lookup_of_index :
    (k v : String) (m : Dict) → v ≢ "" → (index k (some m) != v) ≡ false → lookup k m ≡ some v
lookup_of_index k v m nonempty h = elim (Option-cases (lookup k m)) [
  | inl e ↦ absurd (nonempty (ground (arith, eq_iff (index k (some m)) v, e, h)))
  | inr (w, e) ↦ ground (arith, eq_iff w v, e, h)
]

set_label-lookup :
    (k v j : String) (m : Dict)
    → v ≢ ""
    → lookup j (set_label k v m) ≡ (if k == j then some v else lookup j m)
unfolding set_label
set_label-lookup k v j m nonempty = elim (Bool-cases (index k (some m) != v)) [
  | inl e ↦ rw e (lookup-insert k j v m)
  | inr e ↦ ground (arith, e, eq_iff k j, lookup_of_index k v m nonempty e)
]

index_of_lookup : (k v : String) (m : Dict) → lookup k m ≡ some v → (index k (some m) != v) ≡ false
index_of_lookup k v m e =
    ap (λ o. elim o [ none ↦ "" | some w ↦ w ] != v) e ∙ ground (arith, eq_iff v v)

neither : (a b : Bool) → a ≡ false → b ≡ false → (a || b) ≡ false
neither a b e f = ground arith

module _ (dpa_name : String) (labels : Option Dict) (named : dpa_name ≢ "") where
  with_labels-lookup :
      (k : String)
      → lookup k (with_labels dpa_name labels) ≡ (
          if dpa_label == k
          then some dpa_name
          else if oadp_operator_label == k
          then some "True"
          else lookup k (entries labels))
  unfolding with_labels
  with_labels-lookup k =
      set_label-lookup dpa_label dpa_name k _ named
      ∙ rw
          (set_label-lookup oadp_operator_label "True" k (entries labels)
            (ground (arith, eq_iff "True" "")))
          refl

  settled : needs_patch dpa_name (some (with_labels dpa_name labels)) ≡ false
  unfolding needs_patch
  settled =
      neither _ _ (index_of_lookup _ _ _ operator_labelled) (index_of_lookup _ _ _ dpa_labelled)
    where
      operator_labelled : lookup oadp_operator_label (with_labels dpa_name labels) ≡ some "True"
      operator_labelled = with_labels-lookup oadp_operator_label

      dpa_labelled : lookup dpa_label (with_labels dpa_name labels) ≡ some dpa_name
      dpa_labelled = with_labels-lookup dpa_label

-- For a DPA with a name, the labels that a credentials secret is given hold the operator's label
-- and the DPA's name, keep every other label as it was, and need no further change.
pub with_labels_sound :
    (dpa_name : String) (labels : Option Dict) (k : String)
    → dpa_name ≢ ""
    → (find k (some (with_labels dpa_name labels)) ≡ (
        if dpa_label == k
        then some dpa_name
        else if oadp_operator_label == k
        then some "True"
        else find k labels))
      × (needs_patch dpa_name (some (with_labels dpa_name labels)) ≡ false)
unfolding lookup
with_labels_sound dpa_name none k named =
    (with_labels-lookup dpa_name none named k, settled dpa_name none named)
with_labels_sound dpa_name (some m) k named =
    (with_labels-lookup dpa_name (some m) named k, settled dpa_name (some m) named)
