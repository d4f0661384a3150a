-- ===== src/Examples/Maps.antt =====
-- One config map in memory.
use oadp_operator.Prelude.{◌≡◌, refl, sym, ap, subst, ◌∙◌, true, Option, none, some}
use oadp_operator.Cluster.{
  not_found, Reply, ok, err, State, Outcome, done, fail, panic, Operation, op_created,
}
use oadp_operator.Cluster.Moves.{Moves, world_of, value_or}
use oadp_operator.ConfigMaps.{ConfigMap, Configs, Owner, node_agent_kind, reconcile_map}
use oadp_operator.ConfigMaps.Synced.{ServesMap, Synced, reconcile_map_syncs}

abbrev Drawer : Type 0
Drawer = Option ConfigMap

abbrev new_map : ConfigMap
new_map = record {
  meta = record { name = "node-agent-dpa"; namespace = "ns"; labels = none; owner = none };
  content = none;
}

abbrev old_map : Drawer → ConfigMap
old_map none = new_map
old_map (some m) = m

abbrev found_map : Drawer → Reply Drawer ConfigMap
found_map none = err not_found none
found_map (some m) = ok m (some m)

abbrev put_map : Outcome Drawer ConfigMap → Outcome Drawer (Operation × ConfigMap)
put_map (done m t) = done (op_created, m) (record t { world = some m })
put_map (fail e t) = fail e t
put_map panic = panic

abbrev drawer : Configs
drawer = record {
  World = Drawer;
  get_config_map = λ namespace name w. found_map w;
  delete_config_map = λ namespace name w. ok tt none;
  create_or_patch_config_map = λ namespace name f s. put_map (f (old_map s.world) s);
  record_map_event = λ name reason w. w;
  own_map = λ owner meta. some (record meta { owner = some owner });
  marshal_settings = λ x. some "{}";
  marshal_options = λ x. some "{}";
  marshal_maintenance = λ x. some "{}";
}

abbrev dpa : Owner
dpa = record { name = "dpa"; namespace = "ns"; configuration = none }

abbrev stored : Drawer → Drawer
stored w = w

abbrev world_after : Drawer → Reply Drawer ConfigMap → Drawer
world_after d (ok m w) = w
world_after d (err e w) = w

abbrev left : Reply Drawer (Unit {0}) → Drawer
left (ok u w) = w
left (err e w) = w

found_keeps : (w v : Drawer) (m : ConfigMap) → found_map w ≡ ok m v → v ≡ w
found_keeps none v m e = absurd (cc)
found_keeps (some x) v m e = ap (world_after none) (sym e)

missed_none : (w v : Drawer) → found_map w ≡ err not_found v → v ≡ none
missed_none none v e = ap (world_after none) (sym e)
missed_none (some x) v e = absurd (cc)

put_stores :
    (P : ConfigMap → Type 0) (o : Outcome Drawer ConfigMap) (t : State Drawer)
    (r : Operation × ConfigMap)
    → ((m : ConfigMap) (u : State Drawer) → o ≡ done m u → P m)
    → put_map o ≡ done r t
    → (t.world ≡ some r.1) × P r.1
put_stores P (done m u) t r h e =
    let same = ap (λ o. value_or (op_created, m) o) e in
    (
      ap (λ o. world_of none o) (sym e) ∙ ap (λ x. some x.1) same,
      subst (λ x. P x.1) same (h m u refl),
    )
put_stores P (fail x u) t r h e = absurd (cc)
put_stores P panic t r h e = absurd (cc)

drawer-ServesMap : ServesMap drawer "ns" "node-agent-dpa" stored
drawer-ServesMap = record {
  get_finds = found_keeps;
  get_misses = missed_none;
  delete_removes = λ w v u e. ap left (sym e);
  delete_misses = λ w v e. absurd (cc);
  event_leaves = λ n r w. refl;
  patch_stores = λ P f h. record {
    at = λ s t r e.
        put_stores P (f (old_map s.world) s) t r (λ m u d. (h (old_map s.world)).at s u m d) e;
  };
}

reconcile_map_syncs_example :
    Moves
      (λ w a v.
        (a ≡ true) × Synced drawer dpa node_agent_kind stored drawer-ServesMap true (some "{}") v)
      (reconcile_map drawer dpa node_agent_kind true (some "{}"))
reconcile_map_syncs_example =
    reconcile_map_syncs drawer dpa node_agent_kind stored drawer-ServesMap true (some "{}")
