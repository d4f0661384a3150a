-- ===== src/Dpt/Snapshots/Accounted.antt =====
-- What the results of the snapshot tests are, whatever the schedule.
use oadp_operator.Prelude.{
  ◌≡◌, refl, ap, ℕ, ◌+◌, String, ◌&&◌, ◌==◌, List, [], ◌∷◌, map, if◌then◌else◌, arith,
}
use oadp_operator.Prelude.Lists.{length, filter}
use oadp_operator.Cluster.Yields.{Yields, Yields-mono}
use oadp_operator.Dpt.{Lab, SnapshotConfig, SnapshotStatus}
use oadp_operator.Dpt.Snapshots.{to_create, run_snapshot_tests, is_complete_config, count_ready}
use oadp_operator.Dpt.Snapshots.Conserved.{sum}
use oadp_operator.Dpt.Snapshots.Counted.{Weight, of_task, run_snapshot_tests-Yields}

abbrev is_of : String → String → String → String → ℕ
is_of claim namespace x y = if x == claim && y == namespace then 1 else 0

-- How many results, and how many tests, are of a claim.
abbrev pub results_of : String → String → List SnapshotStatus → ℕ
results_of claim namespace rs = sum (λ r. is_of claim namespace r.claim r.claim_namespace) rs

abbrev pub configs_of : String → String → List SnapshotConfig → ℕ
configs_of claim namespace xs = sum (λ x. is_of claim namespace x.claim x.claim_namespace) xs

abbrev each : Weight
each = record {
  config = λ x. 1;
  result = λ r. 1;
  error = 0;
  of_ready = λ x text. refl;
  of_failed = λ x text. refl;
}

abbrev named : String → String → Weight
named claim namespace = record {
  config = λ x. is_of claim namespace x.claim x.claim_namespace;
  result = λ r. is_of claim namespace r.claim r.claim_namespace;
  error = 0;
  of_ready = λ x text. refl;
  of_failed = λ x text. omega arith;
}

abbrev failing : Weight
failing = record {
  config = λ x. 0;
  result = λ r. if r.status == "Ready" then 0 else 1;
  error = 1;
  of_ready = λ x text. refl;
  of_failed = λ x text. refl;
}

sum-length : {A : Type 0} (xs : List A) → sum (λ x. 1) xs ≡ length xs
sum-length [] = refl
sum-length (x ∷ xs) = ground (arith, sum-length xs)

sum_zero : {A : Type 0} (xs : List A) → sum (λ x. 0) xs ≡ 0
sum_zero [] = refl
sum_zero (x ∷ xs) = ground (arith, sum_zero xs)

sum-map :
    (w : Weight) (xs : List SnapshotConfig) → sum (of_task w) (map to_create xs) ≡ sum w.config xs
sum-map w [] = refl
sum-map w (x ∷ xs) = ap (λ n. w.config x + n) (sum-map w xs)

count_ready-length : (rs : List SnapshotStatus) → count_ready rs + sum failing.result rs ≡ length rs
unfolding count_ready
count_ready-length [] = refl
count_ready-length (r ∷ rs) = ground (arith, count_ready-length rs)

-- runSnapshotTests returns, if no goroutine panics, when no goroutine is left; then there is one
-- result for each test that has all its fields, and for each claim as many as tests of that claim;
-- and each result is either ready or has its own error in the combined error. This is so for every
-- order in which the goroutines go on, and whatever the cluster answers.
pub run_snapshot_tests_sound :
    (c : Lab) (test : String) (configs : List SnapshotConfig)
    → Yields
        (λ p.
          (p.tasks ≡ [])
          × (length p.results ≡ length (filter is_complete_config configs))
          × ((claim namespace : String)
              → results_of claim namespace p.results
                ≡ configs_of claim namespace (filter is_complete_config configs))
          × (count_ready p.results + length p.errors ≡ length p.results))
        (run_snapshot_tests c test configs)
run_snapshot_tests_sound c test configs =
    Yields-mono _ (run_snapshot_tests-Yields c test configs) (λ p (over, balance).
      let xs = filter is_complete_config configs in
      (
        over,
        ground (
          arith,
          balance each,
          sum-map each xs,
          sum-length xs,
          sum-length p.results,
          sum_zero p.errors,
        ),
        λ claim namespace. ground (
          arith,
          balance (named claim namespace),
          sum-map (named claim namespace) xs,
          sum_zero p.errors,
        ),
        ground (
          arith,
          balance failing,
          sum-map failing xs,
          sum_zero xs,
          sum-length p.errors,
          count_ready-length p.results,
        ),
      ))
