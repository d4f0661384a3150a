-- ===== src/Dpt/Snapshots.antt =====
-- runSnapshotTests of dataprotectiontest_controller.go with createVolumeSnapshot and
-- waitForSnapshotReady. A goroutine is a task, which goes on by one call of the cluster at a time;
-- `pick` of `Lab` says which one is next.
pub mod Conserved
pub mod Counted
pub mod Accounted
use oadp_operator.Prelude.{
  ◌≡◌, ℕ, zero, suc, ◌+◌, ◌-◌, ◌%◌, String, Bool, true, false, not, ◌&&◌, ◌||◌, ◌==◌, ◌!=◌, List,
  [], ◌∷◌, ◌++◌, map, Option, none, some, if◌then◌else◌,
}
use oadp_operator.Prelude.Int.{ℤ, pos, negsuc}
use oadp_operator.Prelude.Lists.{length, filter}
use oadp_operator.Prelude.Text.{append, decimal}
use oadp_operator.Cluster.{
  Attempt, success, failure, attempt, Error, message, about, M, ◌>>=◌, ◌>>◌, pure, crash, done,
}
use oadp_operator.Dpt.{Lab, SnapshotConfig, SnapshotStatus, VolumeSnapshot}

-- The tests with a missing field are skipped.
unfoldable pub is_complete_config : SnapshotConfig → Bool
is_complete_config config =
    not (config.claim == "" || config.claim_namespace == "" || config.snapshot_class == "")

-- What a goroutine does next: create the snapshot; look at it, with so many ticks left, the start of
-- the test, and the status of the new snapshot; append the result.
pub data Task : Type 0 where
  to_create : SnapshotConfig → Task
  to_poll : ℕ → ℕ → SnapshotConfig → VolumeSnapshot → Task
  to_record : SnapshotStatus → Task

-- What a step of a task gives: the rest of the task, an error, a result.
pub data Progress : Type 0 where
  goes_on : Task → Progress
  gives_up : Error → SnapshotStatus → Progress
  records : SnapshotStatus → Progress

abbrev pub failed_status : SnapshotConfig → String → SnapshotStatus
failed_status config text = record {
  claim = config.claim;
  claim_namespace = config.claim_namespace;
  status = "Failed";
  ready_duration = "";
  error_message = text;
}

abbrev pub ready_status : SnapshotConfig → String → SnapshotStatus
ready_status config duration = record {
  claim = config.claim;
  claim_namespace = config.claim_namespace;
  status = "Ready";
  ready_duration = duration;
  error_message = "";
}

-- 2 minutes, where no timeout is given
unfoldable pub snapshot_timeout : ℤ → ℤ
snapshot_timeout (pos zero) = pos 120000000000
snapshot_timeout (pos (suc n)) = pos (suc n)
snapshot_timeout (negsuc n) = negsuc n

-- The test of the loop, on the status of the new snapshot and of the current one: a pointer that is
-- not nil differs from every other; `none` is the dereference of a nil pointer.
unfoldable pub is_ready : Option (Option Bool) → Option (Option Bool) → Option Bool
is_ready none none = some false
is_ready (some old) none = none
is_ready old (some none) = some false
is_ready old (some (some b)) = some b

module _ (c : Lab) where
  abbrev pub clock : M c.World ℕ
  clock s = done (c.now s.world) s

  abbrev pub tick : M c.World (Unit {0})
  tick s = done tt (record s { world = c.elapse s.world })

  -- createVolumeSnapshot, and the start of the loop behind it.
  unfoldable pub create_volume_snapshot : String → SnapshotConfig → M c.World Progress
  unfolding snapshot_timeout
  create_volume_snapshot test config = clock >>= λ start.
      attempt (c.create_snapshot config.claim config.claim_namespace config.snapshot_class test)
      >>= λ r. elim r [
        | success snapshot ↦ pure (
            goes_on
              (to_poll (c.ticks_before (snapshot_timeout config.timeout)) start config snapshot))
        | failure e ↦ pure (
            gives_up (message "failed to create VolumeSnapshot")
              (failed_status config "failed to create VolumeSnapshot"))
      ]

  -- What a tick does with the answer to its request.
  unfoldable pub look_at_snapshot :
      ℕ → ℕ → SnapshotConfig → VolumeSnapshot → Attempt VolumeSnapshot → M c.World Progress
  unfolding is_ready
  look_at_snapshot ticks start config snapshot (failure e) = pure (
      gives_up (about "failed to get VolumeSnapshot" (snapshot.name ∷ []))
        (failed_status config "failed to get VolumeSnapshot"))
  look_at_snapshot ticks start config snapshot (success current) =
      elim (is_ready snapshot.status current.status) [
        | none ↦ crash
        | some ready ↦
            if ready
            then (clock >>= λ end.
                pure (goes_on (to_record (ready_status config (c.show_seconds (end - start))))))
            else pure (goes_on (to_poll ticks start config snapshot))
      ]

  -- One round of waitForSnapshotReady.
  unfoldable pub wait_for_snapshot_ready :
      ℕ → ℕ → SnapshotConfig → VolumeSnapshot → M c.World Progress
  unfolding look_at_snapshot
  wait_for_snapshot_ready zero start config snapshot = pure (
      gives_up (about "timed out waiting for VolumeSnapshot" (snapshot.name ∷ []))
        (failed_status config "timed out waiting for VolumeSnapshot"))
  wait_for_snapshot_ready (suc ticks) start config snapshot = tick >>= λ u.
      attempt (c.get_snapshot snapshot.namespace snapshot.name)
      >>= look_at_snapshot ticks start config snapshot

  unfoldable pub step_task : String → Task → M c.World Progress
  unfolding create_volume_snapshot wait_for_snapshot_ready
  step_task test (to_create config) = create_volume_snapshot test config
  step_task test (to_poll ticks start config snapshot) =
      wait_for_snapshot_ready ticks start config snapshot
  step_task test (to_record status) = pure (records status)

-- The goroutines that are not over, `results` and `combinedErr`.
pub record Pool : Type 0 where
  pub tasks : List Task
  pub results : List SnapshotStatus
  pub errors : List Error

-- The task at a place, and the others.
unfoldable pub pull : ℕ → Task → List Task → Task × List Task
pull n t [] = (t, [])
pull zero t (u ∷ ts) = (t, u ∷ ts)
pull (suc n) t (u ∷ ts) = let rest = pull n u ts in (rest.0, t ∷ rest.1)

unfoldable pub absorb : List Task → Pool → Progress → Pool
absorb others pool (goes_on t) = record pool { tasks = t ∷ others }
absorb others pool (gives_up e status) = record pool {
  tasks = to_record status ∷ others;
  errors = pool.errors ++ (e ∷ []);
}
absorb others pool (records status) = record pool {
  tasks = others;
  results = pool.results ++ (status ∷ []);
}

unfoldable pub count_ready : List SnapshotStatus → ℕ
count_ready [] = 0
count_ready (s ∷ ss) = let rest = count_ready ss in if s.status == "Ready" then suc rest else rest

unfoldable pub summary_of : List SnapshotStatus → String
unfolding count_ready
summary_of results =
    append (decimal (count_ready results))
      (append "/" (append (decimal (length results)) " passed"))

module _ (c : Lab) where
  -- The steps that a task can still make, at most.
  unfoldable pub work : Task → ℕ
  work (to_create config) = c.ticks_before (snapshot_timeout config.timeout) + 4
  work (to_poll ticks start config snapshot) = ticks + 3
  work (to_record status) = 1

  unfoldable pub total_work : List Task → ℕ
  unfolding work
  total_work [] = 0
  total_work (t ∷ ts) = work t + total_work ts

  abbrev pub choose : ℕ → M c.World ℕ
  choose n s = done (c.pick s.world n) s

  -- The goroutines, until none is left: wg.Wait. `total_work` steps suffice.
  unfoldable pub run_tasks : ℕ → String → Pool → M c.World Pool
  unfolding step_task pull absorb
  run_tasks zero test pool = pure pool
  run_tasks (suc fuel) test pool = elim pool.tasks [
    | [] ↦ pure pool
    | t ∷ ts ↦ choose (length (t ∷ ts)) >>= λ n. step_task c test (pull n t ts).0 >>= λ progress.
        run_tasks fuel test (absorb (pull n t ts).1 pool progress)
  ]

  -- The results, with the summary, and the errors.
  unfoldable pub run_snapshot_tests : String → List SnapshotConfig → M c.World Pool
  unfolding is_complete_config total_work run_tasks
  run_snapshot_tests test configs =
      let tasks = map to_create (filter is_complete_config configs) in
      run_tasks (total_work tasks) test (record { tasks = tasks; results = []; errors = [] })
