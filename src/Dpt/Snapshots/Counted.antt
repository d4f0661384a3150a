-- ===== src/Dpt/Snapshots/Counted.antt =====
-- Every schedule of the goroutines ends, and accounts for every test.
use oadp_operator.Prelude.{
  ◌≡◌, refl, sym, ap, subst, ℕ, suc, ◌+◌, ◌≤◌, ◌<◌, String, List, [], ◌∷◌, map, arith, inl, inr,
  ◌⊎◌,
}
use oadp_operator.Prelude.Lists.{filter}
use oadp_operator.Cluster.Yields.{Yields, Yields-mono}
use oadp_operator.Dpt.{Lab, SnapshotConfig, SnapshotStatus}
use oadp_operator.Dpt.Snapshots.{
  Task, to_create, to_poll, to_record, Progress, goes_on, gives_up, records, Pool, pull, absorb,
  step_task, work, total_work, failed_status, ready_status, run_snapshot_tests, is_complete_config,
  snapshot_timeout,
}
use oadp_operator.Dpt.Snapshots.Conserved.{sum, sum-snoc, sum-pull, step_cases, run_tasks-Yields}

-- A weight of the tests that is kept: of a configuration, a result and an error.
pub record Weight : Type 0 where
  pub config : SnapshotConfig → ℕ
  pub result : SnapshotStatus → ℕ
  pub error : ℕ
  pub of_ready : (x : SnapshotConfig) (text : String) → result (ready_status x text) ≡ config x
  pub of_failed :
      (x : SnapshotConfig) (text : String) → result (failed_status x text) ≡ config x + error

abbrev pub of_task : Weight → Task → ℕ
of_task w (to_create x) = w.config x
of_task w (to_poll n start x snapshot) = w.config x
of_task w (to_record s) = w.result s

abbrev of_progress : Weight → Progress → ℕ
of_progress w (goes_on t) = of_task w t
of_progress w (gives_up e s) = w.result s
of_progress w (records s) = w.result s

abbrev owed : Weight → Progress → ℕ
owed w (goes_on t) = 0
owed w (gives_up e s) = w.error
owed w (records s) = 0

abbrev pub Balanced : Weight → ℕ → Pool → Type 0
Balanced w k pool =
    sum (of_task w) pool.tasks + sum w.result pool.results ≡ k + sum (λ e. w.error) pool.errors

module _ (c : Lab) where
  abbrev remaining : Progress → ℕ
  remaining (goes_on t) = work c t
  remaining (gives_up e s) = 1
  remaining (records s) = 0

  abbrev Fair : Task → Progress → Type 0
  Fair t p = (remaining p < work c t) × ((w : Weight) → of_progress w p ≡ of_task w t + owed w p)

  step_task-Fair : (test : String) (t : Task) → Yields (Fair t) (step_task c test t)
  unfolding work
  step_task-Fair test t =
      step_cases c test (Fair t) t
        (λ x start snapshot e.
          subst
            (λ t.
              Fair t
                (goes_on (to_poll (c.ticks_before (snapshot_timeout x.timeout)) start x snapshot)))
            (sym e) (omega arith, λ w. omega arith))
        (λ x e text h.
          subst (λ t. Fair t (gives_up e (failed_status x text))) (sym h)
            (omega arith, λ w. w.of_failed x text))
        (λ n start x snapshot e text h.
          subst (λ t. Fair t (gives_up e (failed_status x text))) (sym h)
            (omega arith, λ w. w.of_failed x text))
        (λ n start x snapshot text h.
          subst (λ t. Fair t (goes_on (to_record (ready_status x text)))) (sym h)
            (omega arith, λ w. ground (arith, w.of_ready x text)))
        (λ n start x snapshot h.
          subst (λ t. Fair t (goes_on (to_poll n start x snapshot))) (sym h)
            (omega arith, λ w. omega arith))
        (λ status h. subst (λ t. Fair t (records status)) (sym h) (omega arith, λ w. omega arith))

  total_work_lem : (ts : List Task) → total_work c ts ≡ sum (work c) ts
  unfolding total_work
  total_work_lem [] = refl
  total_work_lem (t ∷ ts) = ap (λ n. work c t + n) (total_work_lem ts)

  abbrev Kept : (Weight → ℕ) → ℕ → Pool → Type 0
  Kept k fuel pool = (sum (work c) pool.tasks ≤ fuel) × ((w : Weight) → Balanced w (k w) pool)

  absorb-Kept :
      (k : Weight → ℕ) (fuel : ℕ) (pool : Pool) (t : Task) (others : List Task) (p : Progress)
      → Fair t p
      → work c t + sum (work c) others ≤ suc fuel
      → ((w : Weight)
          → of_task w t + sum (of_task w) others + sum w.result pool.results
            ≡ k w + sum (λ e. w.error) pool.errors)
      → Kept k fuel (absorb others pool p)
  unfolding absorb work
  absorb-Kept k fuel pool t others (goes_on u) (less, fair) room balance =
      (omega arith, λ w. ground (arith, fair w, balance w))
  absorb-Kept k fuel pool t others (gives_up e s) (less, fair) room balance =
      (omega arith, λ w. ground (arith, fair w, balance w, sum-snoc (λ e. w.error) pool.errors e))
  absorb-Kept k fuel pool t others (records s) (less, fair) room balance =
      (omega arith, λ w. ground (arith, fair w, balance w, sum-snoc w.result pool.results s))

  keep :
      (test : String) (k : Weight → ℕ) (fuel n : ℕ) (pool : Pool) (t : Task) (ts : List Task)
      → pool.tasks ≡ t ∷ ts
      → Kept k (suc fuel) pool
      → Yields (λ p. Kept k fuel (absorb (pull n t ts).1 pool p)) (step_task c test (pull n t ts).0)
  keep test k fuel n pool t ts e (room, balance) =
      Yields-mono _ (step_task-Fair test (pull n t ts).0) (λ p fair.
        absorb-Kept k fuel pool (pull n t ts).0 (pull n t ts).1 p fair
          (ground (arith, room, sum-pull (work c) n t ts, ap (sum (work c)) e))
          (λ w. ground (arith, balance w, sum-pull (of_task w) n t ts, ap (sum (of_task w)) e)))

  -- No work left is no task left.
  no_tasks : (ts : List Task) → sum (work c) ts ≤ 0 → ts ≡ []
  unfolding work
  no_tasks [] h = refl
  no_tasks (to_create x ∷ ts) h = absurd (omega arith)
  no_tasks (to_poll n start x snapshot ∷ ts) h = absurd (omega arith)
  no_tasks (to_record s ∷ ts) h = absurd (omega arith)

  -- All goroutines end, and every weight of the tests is that of the results, but for the errors.
  pub run_snapshot_tests-Yields :
      (test : String) (configs : List SnapshotConfig)
      → Yields
          (λ p.
            (p.tasks ≡ [])
            × ((w : Weight)
                → sum w.result p.results
                  ≡ sum (of_task w) (map to_create (filter is_complete_config configs))
                    + sum (λ e. w.error) p.errors))
          (run_snapshot_tests c test configs)
  unfolding run_snapshot_tests
  run_snapshot_tests-Yields test configs =
      let ts = map to_create (filter is_complete_config configs) in
      Yields-mono _
        (run_tasks-Yields c test (Kept (λ w. sum (of_task w) ts))
          (keep test (λ w. sum (of_task w) ts)) (total_work c ts)
          (record { tasks = ts; results = []; errors = [] })
          (ground (arith, total_work_lem ts), λ w. omega arith))
        (λ p (m, (room, balance), end).
          let over = finished p.tasks m room end in
          (over, λ w. ground (arith, balance w, ap (sum (of_task w)) over)))
    where
      finished : (ts : List Task) (m : ℕ) → sum (work c) ts ≤ m → (ts ≡ []) ⊎ (m ≡ 0) → ts ≡ []
      finished ts m room (inl h) = h
      finished ts m room (inr z) = no_tasks ts (omega arith)
