-- ===== src/Bsl/Prune.antt =====
-- Which storage locations are left once ReconcileBackupStorageLocations has deleted the extra ones.
use oadp_operator.Prelude.{
  ℕ, ◌+◌, ◌≡◌, inl, inr, refl, sym, ap, ◌∙◌, subst, String, Bool, true, false, not, ◌&&◌, ◌||◌,
  List, [], ◌∷◌, some, map, filter, contains, nat_eq, length, ◌==◌, ◌!=◌, if◌then◌else◌, arith,
  eq_iff, eq_of_test, Bool-cases,
}
use oadp_operator.Api.{BackupStorageLocation, BackupLocation, DataProtectionApplication}
use oadp_operator.Cluster.{Client, State, ok, done, ◌>>=◌, ◌>>◌, pure, call, event}
use oadp_operator.Cluster.Yields.{Yields, Yields-bind, Yields-skip, Yields-pure}
use oadp_operator.Cluster.Moves.{
  Moves, Moves-pure, Moves-call, Moves-if, Moves-bind, Moves-event, Moves-Yields,
}
use oadp_operator.Prelude.Filters.{
  filter-All, All-intro, All-map, filter-true, filter-filter, contains_self,
}
use oadp_operator.Bsl.Reconcile.{
  bsl_labels, location_name, reconcile_locations, delete_extra_bsls,
  reconcile_backup_storage_locations,
}

-- The names of the DPA's locations, from the index i on.
abbrev pub names_of : String → ℕ → List BackupLocation → List String
names_of dpa_name i [] = []
names_of dpa_name i (location ∷ rest) =
    location_name dpa_name i location.name ∷ names_of dpa_name (i + 1) rest

-- What the code relies on of the API server: the operator's storage locations in a namespace have
-- names, which a list call returns, a successful delete call takes one away, and an event changes
-- nothing of them.
pub record ServesBsls (c : Client) (namespace : String) : Type 0 where
  pub names : c.World → List String
  pub list_law :
      (w v : c.World) (items : List BackupStorageLocation)
      → c.list_bsls (some namespace) bsl_labels w ≡ ok items v
      → names v ≡ map (λ b. b.meta.name) items
  pub delete_law :
      (b : BackupStorageLocation) (w v : c.World) (u : Unit {0})
      → c.delete_bsl b w ≡ ok u v
      → names v ≡ filter (λ n. n != b.meta.name) (names w)
  pub event_law :
      (kind name reason : String) (w : c.World)
      → names (c.record_event kind name reason w) ≡ names w

abbrev pub name_of : BackupStorageLocation → String
name_of b = b.meta.name

abbrev stays : List String → List BackupStorageLocation → String → Bool
stays kept items n = contains kept n || not (contains (map name_of items) n)

kept_stays :
    (kept : List String) (name n : String)
    → contains kept name ≡ true
    → (contains kept n || n != name) ≡ true
kept_stays kept name n h = elim (Bool-cases (n == name)) [
  | inl e ↦
      subst (λ x. (contains kept x || x != name) ≡ true) (sym (eq_of_test n name e)) (rw h refl)
  | inr e ↦ rw e (ground arith)
]

deleted_goes :
    (kept : List String) (name n : String)
    → contains kept name ≡ false
    → (n != name) ≡ (contains kept n || n != name)
deleted_goes kept name n h = elim (Bool-cases (n == name)) [
  | inl e ↦
      subst (λ x. (x != name) ≡ (contains kept x || x != name)) (sym (eq_of_test n name e))
        (rw h refl)
  | inr e ↦ rw e (ground arith)
]

stays_both :
    (kept : List String) (b : BackupStorageLocation) (rest : List BackupStorageLocation)
    (n : String)
    → ((contains kept n || n != b.meta.name) && stays kept rest n) ≡ stays kept (b ∷ rest) n
stays_both kept b rest n = ground (arith, eq_iff n b.meta.name, eq_iff b.meta.name n)

stays_listed :
    (kept : List String) (items : List BackupStorageLocation)
    → filter (stays kept items) (map name_of items) ≡ filter (contains kept) (map name_of items)
stays_listed kept items =
    filter-All (stays kept items) (contains kept) (map name_of items)
      (All-map (λ n h. ground (arith, h)) (map name_of items) (contains_self (map name_of items)))

module _ (c : Client) (dpa : DataProtectionApplication) (serves : ServesBsls c dpa.namespace) where
  abbrev Keeps : (String → Bool) → c.World → Unit {0} → c.World → Type 0
  Keeps p w u v = serves.names v ≡ filter p (serves.names w)

  delete_one :
      (kept : List String) (b : BackupStorageLocation)
      → Moves (Keeps (λ n. contains kept n || n != b.meta.name)) (
          if contains kept b.meta.name
          then pure tt
          else (call (c.delete_bsl b)
              >> event c "BackupStorageLocation" b.meta.name "BackupStorageLocationDeleted"))
  delete_one kept b =
      Moves-if (contains kept b.meta.name) _ _
        (λ h. record {
          at = λ s t u e.
              ap serves.names ((Moves-pure tt).at s t u e).1
              ∙ sym (
                  filter-true _ (serves.names s.world)
                    (All-intro (λ n. kept_stays kept b.meta.name n h) _));
        })
        (λ h.
          Moves-bind _ _ (Moves-call _) (λ _. Moves-event c _ _ _)
            (λ w u v _ _ d e.
              ap serves.names e
              ∙ serves.event_law _ _ _ u
              ∙ serves.delete_law b w u _ d
              ∙ filter-All _ _ (serves.names w)
                  (All-intro (λ n. deleted_goes kept b.meta.name n h) _)))

  delete_extra_bsls-Keeps :
      (kept : List String) (items : List BackupStorageLocation)
      → Moves (Keeps (stays kept items)) (delete_extra_bsls c dpa kept items)
  unfolding delete_extra_bsls
  delete_extra_bsls-Keeps kept [] = record {
    at = λ s t u e.
        ap serves.names ((Moves-pure tt).at s t u e).1
        ∙ sym (filter-true _ (serves.names s.world) (All-intro (λ n. ground arith) _));
  }
  delete_extra_bsls-Keeps kept (b ∷ rest) =
      Moves-bind _ _ (delete_one kept b) (λ _. delete_extra_bsls-Keeps kept rest)
        (λ w u v _ _ d e.
          e
          ∙ ap (filter (stays kept rest)) d
          ∙ filter-filter _ _ (serves.names w)
          ∙ filter-All _ _ (serves.names w) (All-intro (stays_both kept b rest) _))

  reconcile_locations-names :
      (locations : List BackupLocation) (i : ℕ)
      → Yields
          (λ names. names ≡ names_of dpa.name i locations)
          (reconcile_locations c dpa locations i)
  unfolding reconcile_locations
  reconcile_locations-names [] i = Yields-pure [] refl
  reconcile_locations-names (location ∷ rest) i = Yields-skip _ _ λ _.
      Yields-bind _ _ (reconcile_locations-names rest (i + 1))
        λ names e. Yields-pure _ (ap (λ l. location_name dpa.name i location.name ∷ l) e)

  -- What is left of the names that are listed, where `kept` are those of the DPA.
  abbrev pub left : Bool → List String → List BackupStorageLocation → List String
  left same kept items =
      if same then map name_of items else filter (contains kept) (map name_of items)

  prune-left :
      (kept : List String) (items : List BackupStorageLocation) (same : Bool)
      → Moves
          (λ w _ v. serves.names w ≡ map name_of items → serves.names v ≡ left same kept items)
          (if same then pure tt else delete_extra_bsls c dpa kept items)
  prune-left kept items true = record {
    at = λ s t u e listed. ap serves.names ((Moves-pure tt).at s t u e).1 ∙ listed;
  }
  prune-left kept items false = record {
    at = λ s t u e listed.
        (delete_extra_bsls-Keeps kept items).at s t u e
        ∙ ap (filter (stays kept items)) listed
        ∙ stays_listed kept items;
  }

  -- After the listing.
  abbrev Pruned : List String → c.World → Bool → c.World → Type 0
  Pruned kept w b v =
      (b ≡ true)
      × ((u : c.World) × (items : List BackupStorageLocation) × (c.list_bsls (some dpa.namespace)
              bsl_labels w
            ≡ ok items u)
          × (serves.names v ≡ left (nat_eq (length kept) (length items)) kept items))

  prune :
      (kept : List String)
      → Moves (Pruned kept) (do
        items ← call (c.list_bsls (some dpa.namespace) bsl_labels)
        (if nat_eq (length kept) (length items)
            then pure tt
            else delete_extra_bsls c dpa kept items)
        pure true)
  prune kept =
      Moves-bind _ _ (Moves-call _)
        (λ items.
          Moves-bind
            {R = λ w b v.
              (b ≡ true)
              × (serves.names w ≡ map name_of items
                  → serves.names v ≡ left (nat_eq (length kept) (length items)) kept items)}
            _ _ (prune-left kept items _) (λ _. Moves-pure true)
            (λ w u v _ b d e. (e.0, λ l. ap serves.names e.1 ∙ d l)))
        (λ w u v items b l d. (d.0, (u, items, l, d.1 (serves.list_law w u items l))))

  reconciled :
      Moves
        (λ _ b v. (w : c.World) × Pruned (names_of dpa.name 0 dpa.backup_locations) w b v)
        (reconcile_backup_storage_locations c dpa)
  unfolding reconcile_backup_storage_locations
  reconciled =
      Moves-bind _ _ (Moves-Yields _ (reconcile_locations-names dpa.backup_locations 0)) prune
        (λ w u v names b e d. (u, subst (λ kept. Pruned kept u b v) e d))

-- If ReconcileBackupStorageLocations returns without an error, it returns true, and the operator's
-- storage locations that are left are these of a listing made meanwhile: the ones that have a name
-- of the DPA's backup locations, unless exactly as many are listed as the DPA has; then all of them.
-- This is of an API server whose list and delete calls do what ServesBsls says.
pub reconcile_backup_storage_locations_prunes :
    (c : Client) (dpa : DataProtectionApplication) (serves : ServesBsls c dpa.namespace)
    (s t : State c.World) (b : Bool)
    → reconcile_backup_storage_locations c dpa s ≡ done b t
    → (b ≡ true)
      × ((w u : c.World) × (items : List BackupStorageLocation) × (c.list_bsls
              (some dpa.namespace)
              bsl_labels
              w
            ≡ ok items u)
          × (serves.names t.world ≡ (
              if nat_eq (length (names_of dpa.name 0 dpa.backup_locations)) (length items)
              then map name_of items
              else filter
                  (contains (names_of dpa.name 0 dpa.backup_locations))
                  (map name_of items))))
reconcile_backup_storage_locations_prunes c dpa serves s t b e =
    let (w, (returned, (u, items, listed, names))) = (reconciled c dpa serves).at s t b e in
    (returned, (w, u, items, listed, names))
