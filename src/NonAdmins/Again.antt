-- ===== src/NonAdmins/Again.antt =====
-- Entries that were put are put again, and containers that were changed are changed again.
use oadp_operator.Prelude.{
  ◌≡◌, refl, sym, ap, subst, ◌∙◌, String, true, false, ◌==◌, List, [], ◌∷◌, Option, none, some,
  Dict, insert, arith, eq_refl, Bool-cases, Option-cases, inl, inr,
}
use oadp_operator.Prelude.Int.{ℤ, pos, negsuc}
use oadp_operator.Common.{EnvVar}
use oadp_operator.NonAdmins.{
  Container, with_entry, is_same_period, change_container, ensure_container, changed_container,
  new_container, non_admin_object_name,
}

insert-insert : (k v : String) (m : Dict) → insert k v (insert k v m) ≡ insert k v m
unfolding insert
insert-insert k v [] = ground (arith, eq_refl k)
insert-insert k v (e ∷ rest) = ground (arith, eq_refl k, insert-insert k v rest)

pub with_entry-with_entry :
    (k v : String) (m : Option Dict) → with_entry k v (with_entry k v m) ≡ with_entry k v m
unfolding with_entry insert
with_entry-with_entry k v none = ap some (insert-insert k v [])
with_entry-with_entry k v (some m) = ap some (insert-insert k v m)

pub is_same_period_refl : (p : Option ℤ) → is_same_period p p ≡ true
unfolding is_same_period
is_same_period_refl none = refl
is_same_period_refl (some (pos n)) = ground (arith)
is_same_period_refl (some (negsuc n)) = ground (arith)

abbrev or_list : List Container → Option (List Container) → List Container
or_list xs none = xs
or_list xs (some ys) = ys

same_list : (xs ys : List Container) → some xs ≡ some ys → xs ≡ ys
same_list xs ys e = ap (or_list []) e

module _ (image policy : String) (env : List EnvVar) where
  abbrev change : List Container → Option (List Container)
  change xs = change_container image policy env xs

  chosen :
      (x : Container) (rest : List Container)
      → (x.name == non_admin_object_name) ≡ true
      → change (x ∷ rest) ≡ some (changed_container image policy env x ∷ rest)
  unfolding change_container
  chosen x rest t = ground (arith, t)

  skipped :
      (x : Container) (rest zs : List Container)
      → (x.name == non_admin_object_name) ≡ false
      → change rest ≡ some zs
      → change (x ∷ rest) ≡ some (x ∷ zs)
  unfolding change_container
  skipped x rest zs f e = ground (arith, f, e)

  lost :
      (x : Container) (rest : List Container)
      → (x.name == non_admin_object_name) ≡ false
      → change rest ≡ none
      → change (x ∷ rest) ≡ none
  unfolding change_container
  lost x rest f e = ground (arith, f, e)

  missing : (ys : List Container) → none ≡ some ys → ⊥
  missing ys e = cc

  -- Containers that were changed are not changed again.
  change_again : (xs ys : List Container) → change xs ≡ some ys → change ys ≡ some ys
  unfolding change_container
  change_again [] ys h = absurd (cc)
  change_again (x ∷ rest) ys h = elim (Bool-cases (x.name == non_admin_object_name)) [
    | inl t ↦
        let y = changed_container image policy env x in
        subst (λ zs. change zs ≡ some zs) (same_list (y ∷ rest) ys (sym (chosen x rest t) ∙ h))
          (chosen y rest t)
    | inr f ↦ elim (Option-cases (change rest)) [
      | inl e ↦ absurd (missing ys (sym (lost x rest f e) ∙ h))
      | inr (zs, e) ↦
          subst (λ ws. change ws ≡ some ws)
            (same_list (x ∷ zs) ys (sym (skipped x rest zs f e) ∙ h))
            (skipped x zs zs f (change_again rest zs e))
    ]
  ]

  pub ensure_again :
      (xs ys : List Container)
      → ensure_container image policy env xs ≡ some ys
      → ensure_container image policy env ys ≡ some ys
  unfolding ensure_container
  ensure_again [] ys h =
      subst (λ zs. ensure_container image policy env zs ≡ some zs)
        (same_list (new_container image policy env ∷ []) ys h)
        (chosen (new_container image policy env) [] refl)
  ensure_again (x ∷ rest) [] h = absurd (missing [] (change_again (x ∷ rest) [] h))
  ensure_again (x ∷ rest) (y ∷ zs) h = change_again (x ∷ rest) (y ∷ zs) h
