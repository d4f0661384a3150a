-- ===== src/Batch/Laws.antt =====
-- What a batch does: its steps in order, up to the first that stops it.
use oadp_operator.Prelude.{
  ◌≡◌, ◌↔◌, ◌⊎◌, inl, inr, refl, sym, ap, subst, ◌∙◌, Bool, true, false, List, [], ◌∷◌, ◌++◌,
  if◌then◌else◌,
}
use oadp_operator.Api.{DataProtectionApplication}
use oadp_operator.Cluster.{Client, M, State, Outcome, done, fail, panic, ◌>>=◌, pure}
use oadp_operator.Cluster.Yields.{Yields, Yields-bind, Yields-any, Yields-mono}
use oadp_operator.Validator.Cr.{validate_data_protection_cr}
use oadp_operator.Validator.Sound.{IsValidDpa, validate_data_protection_cr_sound}
use oadp_operator.Batch.{reconcile_batch}

module _ {W : Type 0} where
  -- Each step returns true, in the state that the one before it has left.
  pub data Passes : List (M W Bool) → State W → State W → Type 0 where
    passes_none : {s : State W} → Passes [] s s
    passes_next :
        {f : M W Bool} {fs : List (M W Bool)} {s t u : State W}
        → f s ≡ done true t
        → Passes fs t u
        → Passes (f ∷ fs) s u

  -- An outcome that stops a batch.
  abbrev pub Stops : Outcome W Bool → Type 0
  Stops (done true t) = ⊥
  Stops (done false t) = Unit {0}
  Stops (fail e t) = Unit {0}
  Stops panic = Unit {0}

  -- All of the steps pass, and the batch returns true.
  abbrev pub PassesAll : List (M W Bool) → State W → Outcome W Bool → Type 0
  PassesAll fs s o = (t : State W) × Passes fs s t × (o ≡ done true t)

  -- The steps before some step pass, and that step ends with an outcome that stops the batch.
  pub record StopsAt (fs : List (M W Bool)) (s : State W) (o : Outcome W Bool) : Type 0 where
    pub before : List (M W Bool)
    pub step : M W Bool
    pub rest : List (M W Bool)
    pub reached : State W
    pub split : fs ≡ before ++ step ∷ rest
    pub passed : Passes before s reached
    pub ends : step reached ≡ o
    pub stops : Stops o

  -- What is done with the outcome of a step.
  abbrev go_on : List (M W Bool) → Outcome W Bool → Outcome W Bool
  go_on rest o = elim o [
    | done cont t ↦ (if cont then reconcile_batch rest else pure cont) t
    | fail e t ↦ fail e t
    | panic ↦ panic
  ]

  abbrev Ended : List (M W Bool) → State W → Outcome W Bool → Type 0
  Ended fs s o = PassesAll fs s o ⊎ StopsAt fs s o

  ends_first :
      (f : M W Bool) (fs : List (M W Bool)) (s : State W) {a o : Outcome W Bool}
      → f s ≡ a
      → a ≡ o
      → Stops a
      → Ended (f ∷ fs) s o
  ends_first f fs s first same stops = subst (Ended (f ∷ fs) s) same (
      inr (record {
        before = [];
        step = f;
        rest = fs;
        reached = s;
        split = refl;
        passed = passes_none;
        ends = first;
        stops = stops;
      }))

  Ended-cons :
      (f : M W Bool) (fs : List (M W Bool)) (s t : State W) (o : Outcome W Bool)
      → f s ≡ done true t
      → Ended fs t o
      → Ended (f ∷ fs) s o
  Ended-cons f fs s t o first (inl (u, passed, e)) = inl (u, passes_next first passed, e)
  Ended-cons f fs s t o first (inr x) = inr (record {
    before = f ∷ x.before;
    step = x.step;
    rest = x.rest;
    reached = x.reached;
    split = ap (λ gs. f ∷ gs) x.split;
    passed = passes_next first x.passed;
    ends = x.ends;
    stops = x.stops;
  })

  step_ends :
      (f : M W Bool) (fs : List (M W Bool)) (s : State W) (o : Outcome W Bool)
      → ((t : State W) → reconcile_batch fs t ≡ o → Ended fs t o)
      → (a : Outcome W Bool) → f s ≡ a
      → go_on fs a ≡ o
      → Ended (f ∷ fs) s o
  unfolding pure
  step_ends f fs s o later (done true t) first e = Ended-cons f fs s t o first (later t e)
  step_ends f fs s o later (done false t) first e = ends_first f fs s first e tt
  step_ends f fs s o later (fail x t) first e = ends_first f fs s first e tt
  step_ends f fs s o later panic first e = ends_first f fs s first e tt

  reconcile_batch-Ended :
      (fs : List (M W Bool)) (s : State W) (o : Outcome W Bool)
      → reconcile_batch fs s ≡ o
      → Ended fs s o
  unfolding reconcile_batch ◌>>=◌ pure
  reconcile_batch-Ended [] s o e = inl (s, passes_none, sym e)
  reconcile_batch-Ended (f ∷ fs) s o e =
      step_ends f fs s o (λ t. reconcile_batch-Ended fs t o) (f s) refl e

  -- Steps that pass leave the batch to the steps behind them.
  after_passing :
      (fs gs : List (M W Bool)) (s t : State W)
      → Passes fs s t
      → reconcile_batch (fs ++ gs) s ≡ reconcile_batch gs t
  unfolding reconcile_batch ◌>>=◌
  after_passing [] gs s t passes_none = refl
  after_passing (f ∷ fs) gs s t (passes_next {t = u} first passed) =
      ap (go_on (fs ++ gs)) first ∙ after_passing fs gs u t passed

  passing_all :
      (fs : List (M W Bool)) (s t : State W) → Passes fs s t → reconcile_batch fs s ≡ done true t
  unfolding reconcile_batch ◌>>=◌ pure
  passing_all [] s t passes_none = refl
  passing_all (f ∷ fs) s t (passes_next {t = u} first passed) =
      ap (go_on fs) first ∙ passing_all fs u t passed

  stopping :
      (f : M W Bool) (rest : List (M W Bool)) (s : State W) (o : Outcome W Bool)
      → f s ≡ o
      → Stops o
      → reconcile_batch (f ∷ rest) s ≡ o
  unfolding reconcile_batch ◌>>=◌ pure
  stopping f rest s (done true t) e h = absurd h
  stopping f rest s (done false t) e h = ap (go_on rest) e
  stopping f rest s (fail x t) e h = ap (go_on rest) e
  stopping f rest s panic e h = ap (go_on rest) e

  Ended-reconcile_batch :
      (fs : List (M W Bool)) (s : State W) (o : Outcome W Bool)
      → Ended fs s o
      → reconcile_batch fs s ≡ o
  Ended-reconcile_batch fs s o (inl (t, passed, e)) = passing_all fs s t passed ∙ sym e
  Ended-reconcile_batch fs s o (inr x) =
      ap (λ gs. reconcile_batch gs s) x.split
      ∙ after_passing x.before (x.step ∷ x.rest) s x.reached x.passed
      ∙ stopping x.step x.rest x.reached o x.ends x.stops

-- A batch has an outcome if and only if either all of its steps return true, each in the state that
-- the one before has left, and the outcome is true in the last state; or the steps before some step
-- return true, and that step has the outcome, which is false, an error or a panic.
pub reconcile_batch_outcome :
    {W : Type 0} (fs : List (M W Bool)) (s : State W) (o : Outcome W Bool)
    → (reconcile_batch fs s ≡ o) ↔ (PassesAll fs s o ⊎ StopsAt fs s o)
reconcile_batch_outcome fs s o = (reconcile_batch-Ended fs s o, Ended-reconcile_batch fs s o)

-- If a batch that begins with ValidateDataProtectionCR returns without an error, whatever its other
-- steps are, the DPA is valid.
pub reconcile_batch-IsValidDpa :
    (c : Client) (dpa : DataProtectionApplication) (steps : List (M c.World Bool))
    (s t : State c.World) (b : Bool)
    → reconcile_batch (validate_data_protection_cr c dpa ∷ steps) s ≡ done b t
    → IsValidDpa dpa
unfolding reconcile_batch
reconcile_batch-IsValidDpa c dpa steps s t b e =
    (Yields-bind _ _ validated λ ok h. Yields-mono _ (Yields-any _) λ _ _. h).at s t b e
  where
    validated : Yields (λ _. IsValidDpa dpa) (validate_data_protection_cr c dpa)
    validated = record { at = λ s t b e. (validate_data_protection_cr_sound c dpa s t b e).1 }
