-- ===== src/Registry/Cleanup/Laws.antt =====
-- Which of the old registries' objects are left.
use oadp_operator.Prelude.{
  ◌≡◌, sym, ap, ◌∙◌, String, Bool, true, false, List, [], ◌∷◌, filter, contains, ◌!=◌,
  if◌then◌else◌, some, map,
}
use oadp_operator.Api.{DataProtectionApplication, BackupStorageLocation}
use oadp_operator.Cluster.{
  Client, State, Attempt, success, failure, not_found, already_exists, conflict, other, ok, err,
  done, pure, api,
}
use oadp_operator.Cluster.Moves.{
  Moves, Moves-pure, Moves-bind, Moves-event, Moves-attempt, Moves-call, Moves-raise, Moves-mono,
  RepliedTo,
}
use oadp_operator.Registry.Cleanup.{
  registry_object_name, component_labels, finish_delete, finish_get, delete_registry_object,
  delete_registry_objects, reconcile_registry_svcs,
}

-- What the code relies on of the API server: the objects of a kind in a namespace have names; a get
-- call finds an object exactly if its name is there, and changes nothing; a successful delete call
-- takes it away; a list call and an event change nothing.
pub record ServesObjects (c : Client) (kind namespace : String) : Type 0 where
  pub names : c.World → List String
  pub found_law :
      (name : String) (w v : c.World) (u : Unit {0})
      → c.get_object kind namespace name w ≡ ok u v
      → (contains (names w) name ≡ true) × (names v ≡ names w)
  pub missing_law :
      (name : String) (w v : c.World)
      → c.get_object kind namespace name w ≡ err not_found v
      → (contains (names w) name ≡ false) × (names v ≡ names w)
  pub delete_law :
      (name : String) (w v : c.World) (u : Unit {0})
      → c.delete_object kind namespace name w ≡ ok u v
      → names v ≡ filter (λ n. n != name) (names w)
  pub list_law :
      (w v : c.World) (items : List BackupStorageLocation)
      → c.list_bsls (some namespace) component_labels w ≡ ok items v
      → names v ≡ names w
  pub event_law :
      (about name reason : String) (w : c.World)
      → names (c.record_event about name reason w) ≡ names w

-- The names are taken away one after the other, up to the first that is not there.
abbrev pub taken_away : List String → List String → List String
taken_away [] present = present
taken_away (name ∷ rest) present =
    if contains present name then taken_away rest (filter (λ n. n != name) present) else present

module _ (c : Client) (dpa : DataProtectionApplication) (kind deleted failed : String)
    (serves : ServesObjects c kind dpa.namespace) where
  -- What one round does of an object with this name.
  abbrev Round : String → c.World → Bool → c.World → Type 0
  Round name w found v =
      (found ≡ contains (serves.names w) name)
      × (serves.names v
          ≡ (if found then filter (λ n. n != name) (serves.names w) else serves.names w))

  finish_delete-Moves :
      (name : String) (a : Attempt (Unit {0}))
      → Moves
          (λ w found v.
            (w' : c.World)
            → RepliedTo (c.delete_object kind dpa.namespace name) w' a w
            → (found ≡ true) × (serves.names v ≡ filter (λ n. n != name) (serves.names w')))
          (finish_delete c dpa kind deleted failed name a)
  unfolding finish_delete
  finish_delete-Moves name (success u) =
      Moves-bind _ _ (Moves-event c _ _ _) (λ _. Moves-pure true)
        (λ w x v _ found e p w' r. (
          p.0,
          ap serves.names (p.1 ∙ e) ∙ serves.event_law _ _ _ w ∙ serves.delete_law name w' w u r,
        ))
  finish_delete-Moves name (failure e) =
      Moves-bind {S = λ _ _ _ _. ⊥} _ _ (Moves-event c _ _ _) (λ _. Moves-raise (api e))
        (λ w x v _ found e p. absurd p)

  finish_get-Moves :
      (name : String) (a : Attempt (Unit {0}))
      → Moves
          (λ w found v.
            (w' : c.World)
            → RepliedTo (c.get_object kind dpa.namespace name) w' a w
            → Round name w' found v)
          (finish_get c dpa kind deleted failed name a)
  unfolding finish_get
  finish_get-Moves name (success u) =
      Moves-bind _ _ (Moves-attempt _) (finish_delete-Moves name) (λ w x v a found r p w' g.
        found_round name w' w v found (serves.found_law name w' w u g) (p w r))
    where
      found_round :
          (name : String) (w' w v : c.World) (found : Bool)
          → (contains (serves.names w') name ≡ true) × (serves.names w ≡ serves.names w')
          → (found ≡ true) × (serves.names v ≡ filter (λ n. n != name) (serves.names w))
          → Round name w' found v
      found_round name w' w v found g d =
          (d.0 ∙ sym g.0, rw d.0 (d.1 ∙ ap (filter (λ n. n != name)) g.1))
  finish_get-Moves name (failure not_found) =
      Moves-mono _ (Moves-pure false)
        (λ w v found p w' g. missing_round name w' w v found (serves.missing_law name w' w g) p)
    where
      missing_round :
          (name : String) (w' w v : c.World) (found : Bool)
          → (contains (serves.names w') name ≡ false) × (serves.names w ≡ serves.names w')
          → (found ≡ false) × (v ≡ w)
          → Round name w' found v
      missing_round name w' w v found g p = (p.0 ∙ sym g.0, rw p.0 (ap serves.names p.1 ∙ g.1))
  finish_get-Moves name (failure already_exists) = Moves-raise (api already_exists)
  finish_get-Moves name (failure conflict) = Moves-raise (api conflict)
  finish_get-Moves name (failure (other text)) = Moves-raise (api (other text))

  round :
      (name : String) → Moves (Round name) (delete_registry_object c dpa kind deleted failed name)
  unfolding delete_registry_object
  round name = Moves-bind _ _ (Moves-attempt _) (finish_get-Moves name) (λ w u v a found r p. p w r)

  -- What the loop does over these names.
  abbrev Taken : List String → c.World → Bool → c.World → Type 0
  Taken names w b v = (b ≡ true) × (serves.names v ≡ taken_away names (serves.names w))

  -- After a round, if the rest of the loop is as said.
  loop_step :
      (name : String) (rest : List String)
      → Moves (Taken rest) (delete_registry_objects c dpa kind deleted failed rest)
      → (found : Bool)
      → Moves
          (λ u b v. (w : c.World) → Round name w found u → Taken (name ∷ rest) w b v)
          (if found then delete_registry_objects c dpa kind deleted failed rest else pure true)
  loop_step name rest later true =
      Moves-mono _ later (λ u v b p w r. (p.0, rw (← r.0) (p.1 ∙ ap (taken_away rest) r.1)))
  loop_step name rest later false =
      Moves-mono _ (Moves-pure true) (λ u v b p w r. (p.0, rw (← r.0) (ap serves.names p.1 ∙ r.1)))

  taken :
      (names : List String)
      → Moves (Taken names) (delete_registry_objects c dpa kind deleted failed names)
  unfolding delete_registry_objects
  taken [] = Moves-mono _ (Moves-pure true) (λ w v b p. (p.0, ap serves.names p.1))
  taken (name ∷ rest) =
      Moves-bind _ _ (round name) (loop_step name rest (taken rest)) (λ w u v found b r p. p w r)

-- If ReconcileRegistrySVCs returns without an error, it returns true, and the services of the old
-- registries are taken away for the listed storage locations in turn, up to the first whose service
-- is not there; no other service is touched. This is of an API server that does what ServesObjects
-- says of services.
pub reconcile_registry_svcs_sound :
    (c : Client) (dpa : DataProtectionApplication)
    (serves : ServesObjects c "Service" dpa.namespace) (s t : State c.World) (b : Bool)
    → reconcile_registry_svcs c dpa s ≡ done b t
    → (b ≡ true)
      × ((items : List BackupStorageLocation) × (u : c.World) × (c.list_bsls
              (some dpa.namespace)
              component_labels
              s.world
            ≡ ok items u)
          × (serves.names t.world
              ≡ taken_away (map (registry_object_name "-svc") items) (serves.names s.world)))
unfolding reconcile_registry_svcs
reconcile_registry_svcs_sound c dpa serves s t b e = listed.at s t b e
  where
    listed :
        Moves
          (λ w b v.
            (b ≡ true)
            × ((items : List BackupStorageLocation) × (u : c.World) × (c.list_bsls
                    (some dpa.namespace)
                    component_labels
                    w
                  ≡ ok items u)
                × (serves.names v
                    ≡ taken_away (map (registry_object_name "-svc") items) (serves.names w))))
          (reconcile_registry_svcs c dpa)
    listed =
        Moves-bind _ _ (Moves-call _)
          (λ items. taken c dpa "Service" _ _ serves (map (registry_object_name "-svc") items))
          (λ w u v items b l p.
            (p.0, (items, u, l, p.1 ∙ ap (taken_away _) (serves.list_law w u items l))))
