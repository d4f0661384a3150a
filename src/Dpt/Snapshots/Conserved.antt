-- ===== src/Dpt/Snapshots/Conserved.antt =====
-- What every schedule of the goroutines has in common.
use oadp_operator.Prelude.{
  ◌≡◌, refl, ℕ, zero, suc, ◌+◌, String, List, [], ◌∷◌, ◌++◌, arith, inl, inr, ◌⊎◌,
}
use oadp_operator.Prelude.Lists.{length}
use oadp_operator.Cluster.{ApiError, Attempt, success, failure, Error, M}
use oadp_operator.Cluster.Yields.{
  Yields, Yields-bind, Yields-skip, Yields-pure, Yields-crash, Yields-if, Yields-option,
}
use oadp_operator.Dpt.{Lab, SnapshotConfig, SnapshotStatus, VolumeSnapshot}
use oadp_operator.Dpt.Snapshots.{
  Task, to_create, to_poll, to_record, Progress, goes_on, gives_up, records, Pool, pull, absorb,
  step_task, create_volume_snapshot, wait_for_snapshot_ready, look_at_snapshot, run_tasks, choose,
  clock, tick, is_ready, failed_status, ready_status, snapshot_timeout,
}

abbrev pub sum : {A : Type 0} → (A → ℕ) → List A → ℕ
sum f [] = 0
sum f (x ∷ xs) = f x + sum f xs

pub sum-snoc :
    {A : Type 0} (f : A → ℕ) (xs : List A) (x : A) → sum f (xs ++ (x ∷ [])) ≡ sum f xs + f x
sum-snoc f [] x = omega arith
sum-snoc f (y ∷ xs) x = ground (arith, sum-snoc f xs x)

pub sum-pull :
    (f : Task → ℕ) (n : ℕ) (t : Task) (ts : List Task)
    → f (pull n t ts).0 + sum f (pull n t ts).1 ≡ f t + sum f ts
unfolding pull
sum-pull f zero t [] = refl
sum-pull f (suc n) t [] = refl
sum-pull f zero t (u ∷ ts) = refl
sum-pull f (suc n) t (u ∷ ts) = ground (arith, sum-pull f n u ts)

Yields-list :
    {W A B : Type 0} {P : B → Type 0} (xs : List A) (m : M W B) (f : A → List A → M W B)
    → (xs ≡ [] → Yields P m)
    → ((x : A) (rest : List A) → xs ≡ x ∷ rest → Yields P (f x rest))
    → Yields P (elim xs [ [] ↦ m | x ∷ rest ↦ f x rest ])
Yields-list [] m f g h = g refl
Yields-list (x ∷ rest) m f g h = h x rest refl

Yields-replied :
    {W A B : Type 0} {P : B → Type 0} (r : Attempt A) (f : A → M W B) (g : ApiError → M W B)
    → ((a : A) → Yields P (f a))
    → ((e : ApiError) → Yields P (g e))
    → Yields P (elim r [ success a ↦ f a | failure e ↦ g e ])
Yields-replied (success a) f g h k = h a
Yields-replied (failure e) f g h k = k e

-- What every kind of step says, of a property of its progress.
module _ (c : Lab) (test : String) (P : Progress → Type 0) where
  looked :
      (n start : ℕ) (config : SnapshotConfig) (snapshot : VolumeSnapshot)
      (r : Attempt VolumeSnapshot)
      → ((e : Error) (text : String) → P (gives_up e (failed_status config text)))
      → ((text : String) → P (goes_on (to_record (ready_status config text))))
      → P (goes_on (to_poll n start config snapshot))
      → Yields P (look_at_snapshot c n start config snapshot r)
  unfolding look_at_snapshot
  looked n start config snapshot (failure e) lost ready again = Yields-pure _ (lost _ _)
  looked n start config snapshot (success current) lost ready again =
      Yields-option (is_ready snapshot.status current.status) _ _ (λ e. Yields-crash)
        (λ b e.
          Yields-if b _ _ (λ yes. Yields-skip (clock c) _ (λ end. Yields-pure _ (ready _)))
            (λ no. Yields-pure _ again))

  pub step_cases :
      (t : Task)
      → ((config : SnapshotConfig) (start : ℕ) (snapshot : VolumeSnapshot)
          → t ≡ to_create config
          → P (
              goes_on
                (to_poll (c.ticks_before (snapshot_timeout config.timeout)) start config snapshot)))
      → ((config : SnapshotConfig) (e : Error) (text : String)
          → t ≡ to_create config
          → P (gives_up e (failed_status config text)))
      → ((n start : ℕ) (config : SnapshotConfig) (snapshot : VolumeSnapshot) (e : Error)
            (text : String)
          → t ≡ to_poll n start config snapshot
          → P (gives_up e (failed_status config text)))
      → ((n start : ℕ) (config : SnapshotConfig) (snapshot : VolumeSnapshot) (text : String)
          → t ≡ to_poll (suc n) start config snapshot
          → P (goes_on (to_record (ready_status config text))))
      → ((n start : ℕ) (config : SnapshotConfig) (snapshot : VolumeSnapshot)
          → t ≡ to_poll (suc n) start config snapshot
          → P (goes_on (to_poll n start config snapshot)))
      → ((status : SnapshotStatus) → t ≡ to_record status → P (records status))
      → Yields P (step_task c test t)
  unfolding step_task create_volume_snapshot wait_for_snapshot_ready
  step_cases (to_create config) made refused lost ready again kept =
      Yields-skip (clock c) _ (λ start. Yields-skip _ _ (λ r.
        Yields-replied r _ _ (λ snapshot. Yields-pure _ (made config start snapshot refl))
          (λ e. Yields-pure _ (refused config _ _ refl))))
  step_cases (to_poll zero start config snapshot) made refused lost ready again kept =
      Yields-pure _ (lost zero start config snapshot _ _ refl)
  step_cases (to_poll (suc n) start config snapshot) made refused lost ready again kept =
      Yields-skip (tick c) _ (λ u. Yields-skip _ _ (λ r.
        looked n start config snapshot r (λ e text. lost (suc n) start config snapshot e text refl)
          (λ text. ready n start config snapshot text refl) (again n start config snapshot refl)))
  step_cases (to_record status) made refused lost ready again kept =
      Yields-pure _ (kept status refl)

-- An invariant of the goroutines, by what each step does to it; the first argument is the number of
-- steps that are left. At the end no goroutine is left, or no step.
pub run_tasks-Yields :
    (c : Lab) (test : String) (I : ℕ → Pool → Type 0)
    → ((fuel n : ℕ) (pool : Pool) (t : Task) (ts : List Task)
        → pool.tasks ≡ t ∷ ts
        → I (suc fuel) pool
        → Yields (λ p. I fuel (absorb (pull n t ts).1 pool p)) (step_task c test (pull n t ts).0))
    → (fuel : ℕ) (pool : Pool) → I fuel pool
    → Yields (λ p. (m : ℕ) × I m p × ((p.tasks ≡ []) ⊎ (m ≡ 0))) (run_tasks c fuel test pool)
unfolding run_tasks
run_tasks-Yields c test I keep zero pool i = Yields-pure _ (zero, i, inr refl)
run_tasks-Yields c test I keep (suc fuel) pool i =
    Yields-list pool.tasks _ _ (λ none_left. Yields-pure _ (suc fuel, i, inl none_left))
      (λ t ts e. Yields-skip (choose c (length (t ∷ ts))) _ (λ n.
        Yields-bind _ _ (keep fuel n pool t ts e i)
          (λ p j. run_tasks-Yields c test I keep fuel (absorb (pull n t ts).1 pool p) j)))
