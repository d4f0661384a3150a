-- ===== src/Common/Maps.antt =====
-- What merging maps without conflicts gives.
use oadp_operator.Prelude.{
  ◌≡◌, subst, String, List, [], ◌∷◌, Option, none, some, Dict, lookup, insert, lookup-insert, All,
  arith, eq_iff, eq_of_test, ◌==◌, inl, inr, Option-cases, Bool-cases,
}
use oadp_operator.Prelude.Filters.{All-map}
use oadp_operator.Registry.KeyValue.{parsed, Parsed-cases}
use oadp_operator.Common.{
  or_empty, add_entries, append_unique_keys_to, append_unique_key_t_of_t_maps,
}

-- Every entry of `small` is found in `big`.
abbrev pub Extends : Dict → Dict → Type 0
Extends small big = (k v : String) → lookup k small ≡ some v → lookup k big ≡ some v

abbrev pub HasEntries : Dict → Dict → Type 0
HasEntries entries big = All (λ e. lookup e.0 big ≡ some e.1) entries

-- A new key leaves the others.
Extends-insert : (k v : String) (m : Dict) → lookup k m ≡ none → Extends m (insert k v m)
Extends-insert k v m free j w h = ground (arith, lookup-insert k j v m, eq_iff k j, free, h)

add_entries-Extends :
    (base entries out : Dict)
    → add_entries base entries ≡ parsed out
    → Extends base out × HasEntries entries out
unfolding add_entries
add_entries-Extends base [] out h = (λ j w e. cc, tt)
add_entries-Extends base ((k, v) ∷ rest) out h = elim (Option-cases (lookup k base)) [
  | inl free ↦
      let (extends, has) =
        add_entries-Extends (insert k v base) rest out (ground (arith, h, free)) in
      (
        λ j w e. extends j w (Extends-insert k v base free j w e),
        (extends k v (ground (arith, lookup-insert k k v base, eq_iff k k)), has),
      )
  | inr (w, taken) ↦ elim (Bool-cases (w == v)) [
    | inl same ↦
        let (extends, has) = add_entries-Extends base rest out (ground (arith, h, taken, same)) in
        (extends, (extends k v (ground (arith, taken, eq_of_test w v same)), has))
    | inr differs ↦ absurd (ground (arith, h, taken, differs))
  ]
]

-- Every map has its entries in the result.
abbrev pub HasMaps : List (Option Dict) → Option Dict → Type 0
HasMaps maps out = All (λ labels. HasEntries (or_empty labels) (or_empty out)) maps

merged :
    (base : Option Dict) (maps : List (Option Dict)) (out : Option Dict)
    → append_unique_keys_to base maps ≡ parsed out
    → Extends (or_empty base) (or_empty out) × HasMaps maps out
unfolding append_unique_keys_to
merged base [] out h = (λ j w e. subst (λ o. lookup j (or_empty o) ≡ some w) (base_out h) e, tt)
  where
    base_out : parsed base ≡ parsed out → base ≡ out
    base_out h = cc
merged base (none ∷ rest) out h =
    let (extends, has) = merged base rest out h in (extends, (tt, has))
merged base (some labels ∷ rest) out h = elim (Parsed-cases (add_entries (or_empty base) labels)) [
  | inl (m, e) ↦
      let (inner, here) = add_entries-Extends (or_empty base) labels m e in
      let (extends, has) = merged (some m) rest out (ground (arith, h, e)) in
      (λ j w f. extends j w (inner j w f), (All-map (λ x f. extends x.0 x.1 f) labels here, has))
  | inr (x, e) ↦ absurd (ground (arith, h, e))
]

-- If AppendUniqueKeyTOfTMaps returns without an error, every entry of every map that it was given
-- is found in the result with its value.
pub append_unique_key_t_of_t_maps_sound :
    (maps : List (Option Dict)) (out : Option Dict)
    → append_unique_key_t_of_t_maps maps ≡ parsed out
    → HasMaps maps out
unfolding append_unique_key_t_of_t_maps
append_unique_key_t_of_t_maps_sound maps out h = (merged none maps out h).1
