-- ===== src/ConfigMaps/Synced.antt =====
-- A config map is there if and only if it is required, with the entry and the labels.
use oadp_operator.Prelude.{
  ◌≡◌, refl, sym, ap, ◌∙◌, String, Bool, true, false, Option, none, some, lookup, lookup-insert,
  arith, eq_refl,
}
use oadp_operator.Cluster.{
  not_found, already_exists, conflict, other, Attempt, success, failure, ok, err, M, ◌>>=◌, pure,
  Tried, returned, failed, Operation, op_none, op_created, op_updated, op_other,
}
use oadp_operator.Cluster.Moves.{
  Moves, Moves-pure, Moves-bind, Moves-attempt, Moves-raise, Moves-mono, RepliedTo, OrFailed,
  Moves-tried, world_of,
}
use oadp_operator.Cluster.Yields.{Yields, Yields-pure, Yields-raise, Yields-option}
use oadp_operator.Common.{or_empty}
use oadp_operator.Process.{is_not_found}
use oadp_operator.ConfigMaps.{
  ConfigMap, Configs, Owner, Kind, map_name, map_labels, filled_map, update_map, after_delete_map,
  after_get_map, report_map, after_patch_map, reconcile_map, event,
}

abbrev IsReturned : {A : Type 0} → Tried A → Type 0
IsReturned (returned a) = Unit {0}
IsReturned (failed e) = ⊥

-- What the cluster does with one config map.
pub record ServesMap (c : Configs) (namespace name : String) (stored : c.World → Option ConfigMap)
    : Type 1 where
  pub get_finds :
      (w v : c.World) (m : ConfigMap)
      → c.get_config_map namespace name w ≡ ok m v
      → stored v ≡ stored w
  pub get_misses :
      (w v : c.World) → c.get_config_map namespace name w ≡ err not_found v → stored v ≡ none
  pub delete_removes :
      (w v : c.World) (u : Unit {0})
      → c.delete_config_map namespace name w ≡ ok u v
      → stored v ≡ none
  pub delete_misses :
      (w v : c.World) → c.delete_config_map namespace name w ≡ err not_found v → stored v ≡ none
  pub event_leaves : (n r : String) (w : c.World) → stored (c.record_map_event n r w) ≡ stored w
  -- CreateOrPatch stores what the function returns.
  pub patch_stores :
      (P : ConfigMap → Type 0) (f : ConfigMap → M c.World ConfigMap)
      → ((m : ConfigMap) → Yields P (f m))
      → Moves
          (λ w r v. (stored v ≡ some r.1) × P r.1)
          (c.create_or_patch_config_map namespace name f)

-- The entry, the labels and the name of a map.
pub record IsFilled (kind : Kind) (dpa : Owner) (json : Option String) (m : ConfigMap)
    : Type 0 where
  pub has_entry : lookup kind.key (or_empty m.content) ≡ json
  pub has_labels : m.meta.labels ≡ some (map_labels kind dpa)
  pub has_name : m.meta.name ≡ map_name kind dpa
  pub has_namespace : m.meta.namespace ≡ dpa.namespace

module _ (c : Configs) (dpa : Owner) where
  update_map-IsFilled :
      (kind : Kind) (json : Option String) (m : ConfigMap)
      → Yields (IsFilled kind dpa json) (update_map c dpa kind json m)
  unfolding update_map filled_map
  update_map-IsFilled kind json m =
      Yields-option (c.own_map dpa.name m.meta) _ _ (λ e. Yields-raise _)
        (λ meta e.
          Yields-option json _ _ (λ e. Yields-raise _)
            (λ text e. Yields-pure (filled_map kind dpa text meta m) (record {
              has_entry = ground (
                arith,
                lookup-insert kind.key kind.key text (or_empty m.content),
                eq_refl kind.key,
                e,
              );
              has_labels = refl;
              has_name = refl;
              has_namespace = refl;
            })))

  module _ (kind : Kind) (stored : c.World → Option ConfigMap)
      (serves : ServesMap c dpa.namespace (map_name kind dpa) stored) where
    -- Whether the map is there as it should be.
    abbrev pub Synced : Bool → Option String → c.World → Type 0
    Synced true json w = (m : ConfigMap) × (stored w ≡ some m) × IsFilled kind dpa json m
    Synced false json w = stored w ≡ none

    event-Moves : (reason : String) → Moves (λ w a v. stored v ≡ stored w) (event c dpa kind reason)
    event-Moves reason = record {
      at = λ s t a e.
          ap stored (ap (world_of s.world) (sym e))
          ∙ serves.event_leaves (map_name kind dpa) reason s.world;
    }

    noted :
        (reason : String)
        → Moves
            (λ w a v. (a ≡ true) × (stored v ≡ stored w))
            (event c dpa kind reason >>= λ u. pure true)
    noted reason =
        Moves-bind {S = λ u w a v. (a ≡ true) × (v ≡ w)} _ _ (event-Moves reason)
          (λ u. Moves-pure true) (λ w u v a b p q. (q.0, ap stored q.1 ∙ p))

    report_map-Moves :
        (op : Operation)
        → Moves (λ w a v. (a ≡ true) × (stored v ≡ stored w)) (report_map c dpa kind op)
    unfolding report_map
    report_map-Moves op_none = Moves-mono _ (Moves-pure true) (λ w v a p. (p.0, ap stored p.1))
    report_map-Moves op_created = noted kind.created
    report_map-Moves op_updated = noted kind.updated
    report_map-Moves op_other = Moves-mono _ (Moves-pure true) (λ w v a p. (p.0, ap stored p.1))

    -- What a delete call answers, that leads on.
    abbrev Absent : {A : Type 0} → Attempt A → c.World → Type 0
    Absent (success u) w = stored w ≡ none
    Absent (failure not_found) w = stored w ≡ none
    Absent (failure already_exists) w = Unit {0}
    Absent (failure conflict) w = Unit {0}
    Absent (failure (other text)) w = Unit {0}

    after_delete_map-Moves :
        (r : Attempt (Unit {0}))
        → Moves
            (λ w a v. (a ≡ true) × (Absent r w → stored v ≡ none))
            (after_delete_map c dpa kind r)
    unfolding after_delete_map is_not_found
    after_delete_map-Moves (success u) =
        Moves-mono _ (noted kind.deleted) (λ w v a p. (p.0, λ gone. p.1 ∙ gone))
    after_delete_map-Moves (failure not_found) =
        Moves-mono _ (Moves-pure true) (λ w v a p. (p.0, λ gone. ap stored p.1 ∙ gone))
    after_delete_map-Moves (failure already_exists) = Moves-raise _
    after_delete_map-Moves (failure conflict) = Moves-raise _
    after_delete_map-Moves (failure (other text)) = Moves-raise _

    deleted :
        (w v : c.World) (r : Attempt (Unit {0}))
        → RepliedTo (c.delete_config_map dpa.namespace (map_name kind dpa)) w r v
        → Absent r v
    deleted w v (success u) e = serves.delete_removes w v u e
    deleted w v (failure not_found) e = serves.delete_misses w v e
    deleted w v (failure already_exists) e = tt
    deleted w v (failure conflict) e = tt
    deleted w v (failure (other text)) e = tt

    abbrev Missed : Attempt ConfigMap → c.World → Type 0
    Missed (success m) w = Unit {0}
    Missed (failure not_found) w = stored w ≡ none
    Missed (failure already_exists) w = Unit {0}
    Missed (failure conflict) w = Unit {0}
    Missed (failure (other text)) w = Unit {0}

    after_get_map-Moves :
        (r : Attempt ConfigMap)
        → Moves (λ w a v. (a ≡ true) × (Missed r w → stored v ≡ none)) (after_get_map c dpa kind r)
    unfolding after_get_map is_not_found
    after_get_map-Moves (success m) =
        Moves-bind _ _ (Moves-attempt _) after_delete_map-Moves
          (λ w u v a b p q. (q.0, λ t. q.1 (deleted w u a p)))
    after_get_map-Moves (failure not_found) =
        Moves-mono _ (Moves-pure true) (λ w v a p. (p.0, λ gone. ap stored p.1 ∙ gone))
    after_get_map-Moves (failure already_exists) = Moves-raise _
    after_get_map-Moves (failure conflict) = Moves-raise _
    after_get_map-Moves (failure (other text)) = Moves-raise _

    looked :
        (w v : c.World) (r : Attempt ConfigMap)
        → RepliedTo (c.get_config_map dpa.namespace (map_name kind dpa)) w r v
        → Missed r v
    looked w v (success m) e = tt
    looked w v (failure not_found) e = serves.get_misses w v e
    looked w v (failure already_exists) e = tt
    looked w v (failure conflict) e = tt
    looked w v (failure (other text)) e = tt

    after_patch_map-Moves :
        (r : Tried (Operation × ConfigMap))
        → Moves
            (λ w a v. (a ≡ true) × (stored v ≡ stored w) × IsReturned r)
            (after_patch_map c dpa kind r)
    unfolding after_patch_map
    after_patch_map-Moves (returned made) =
        Moves-mono _ (report_map-Moves made.0) (λ w v a p. (p.0, p.1, tt))
    after_patch_map-Moves (failed e) = Moves-raise _

    patched :
        (json : Option String) (w u v : c.World) (r : Tried (Operation × ConfigMap))
        → OrFailed (λ w r v. (stored v ≡ some r.1) × IsFilled kind dpa json r.1) w r u
        → IsReturned r
        → stored v ≡ stored u
        → Synced true json v
    patched json w u v (returned made) p d q = (made.1, q ∙ p.0, p.1)
    patched json w u v (failed e) p d q = absurd d

    -- If the reconciliation of a config map returns without an error, it returns true, and the map is
    -- there if it is required, with its entry, labels and name, and is not there if it is not. This
    -- is of a cluster that does what ServesMap says.
    pub reconcile_map_syncs :
        (required : Bool) (json : Option String)
        → Moves
            (λ w a v. (a ≡ true) × Synced required json v)
            (reconcile_map c dpa kind required json)
    unfolding reconcile_map
    reconcile_map_syncs true json =
        Moves-bind _ _
          (Moves-tried _ _ (
            serves.patch_stores (IsFilled kind dpa json) (update_map c dpa kind json)
              (update_map-IsFilled kind json)))
          after_patch_map-Moves (λ w u v r a p q. (q.0, patched json w u v r p q.2 q.1))
    reconcile_map_syncs false json =
        Moves-bind _ _ (Moves-attempt _) after_get_map-Moves
          (λ w u v r a p q. (q.0, q.1 (looked w u r p)))
