-- ===== src/Cluster/Moves.antt =====
-- How a step that returns has moved the world: a relation of the world before, the value and the
-- world after, with one rule for each way to build a step.
use oadp_operator.Prelude.{◌≡◌, refl, subst, sym, ap, String, Bool, true, false, if◌then◌else◌}
use oadp_operator.Cluster.{
  Attempt, success, failure, attempt, raise, Error, Client, State, M, Call, Reply, ok, err, api,
  Outcome, done, fail, panic, ◌>>=◌, pure, call, event, Tried, returned, failed, tried,
}
use oadp_operator.Cluster.Yields.{Yields, resume-eq-done}

pub record Moves {W A : Type 0} (R : W → A → W → Type 0) (m : M W A) : Type 0 where
  pub at : (s t : State W) (a : A) → m s ≡ done a t → R s.world a t.world

abbrev pub world_of : {W A : Type 0} → W → Outcome W A → W
world_of w o = elim o [ done a t ↦ t.world | fail x t ↦ w | panic ↦ w ]

abbrev pub value_or : {W A : Type 0} → A → Outcome W A → A
value_or d o = elim o [ done a t ↦ a | fail x t ↦ d | panic ↦ d ]

-- A call returns what its reply holds.
replied :
    {W A : Type 0} (r : Reply W A) (s t : State W) (a : A)
    → elim r [
      | ok b w ↦ done b (record s { world = w })
      | err x w ↦ fail (api x) (record s { world = w })
    ]
      ≡ done a t
    → r ≡ ok a t.world
replied (ok b w) s t a e = ap (λ o. ok (value_or b o) (world_of w o)) e
replied (err x w) s t a e = cc

module _ {W A : Type 0} where
  pub Moves-pure : (x : A) → Moves {W = W} (λ w a v. (a ≡ x) × (v ≡ w)) (pure x)
  unfolding pure
  Moves-pure x = record { at = λ s t a e. (ap (value_or x) (sym e), ap (world_of s.world) (sym e)) }

  pub Moves-call : (k : Call W A) → Moves (λ w a v. k w ≡ ok a v) (call k)
  unfolding call
  Moves-call k = record { at = λ s t a e. replied (k s.world) s t a e }

  pub Moves-if :
      {R : W → A → W → Type 0} (b : Bool) (m n : M W A)
      → (b ≡ true → Moves R m)
      → (b ≡ false → Moves R n)
      → Moves R (if b then m else n)
  Moves-if true m n f g = f refl
  Moves-if false m n f g = g refl

pub Moves-bind :
    {W A B : Type 0} {Q : W → A → W → Type 0} {S : A → W → B → W → Type 0} {R : W → B → W → Type 0}
    (m : M W A) (f : A → M W B)
    → Moves Q m
    → ((a : A) → Moves (S a) (f a))
    → ((w u v : W) (a : A) (b : B) → Q w a u → S a u b v → R w b v)
    → Moves R (m >>= f)
unfolding ◌>>=◌
Moves-bind m f first later join = record {
  at = λ s t b e.
      let (a, u, d, rest) = resume-eq-done (m s) f e in
      join s.world u.world t.world a b (first.at s u a d) ((later a).at u t b rest);
}

pub Moves-event :
    (c : Client) (kind name reason : String)
    → Moves (λ w a v. v ≡ c.record_event kind name reason w) (event c kind name reason)
unfolding event
Moves-event c kind name reason = record { at = λ s t a e. ap (λ o. world_of s.world o) (sym e) }

pub Moves-Yields : {W A : Type 0} {P : A → Type 0} (m : M W A) → Yields P m → Moves (λ w a v. P a) m
Moves-Yields m y = record { at = λ s t a e. y.at s t a e }

-- What an attempted call says of the reply.
abbrev pub RepliedTo : {W A : Type 0} → Call W A → W → Attempt A → W → Type 0
RepliedTo k w (success a) v = k w ≡ ok a v
RepliedTo k w (failure x) v = k w ≡ err x v

attempted :
    {W A : Type 0} (k : Call W A) (r : Reply W A) (s t : State W) (a : Attempt A)
    → k s.world ≡ r
    → elim r [
      | ok b w ↦ done (success b) (record s { world = w })
      | err x w ↦ done (failure x) (record s { world = w })
    ]
      ≡ done a t
    → RepliedTo k s.world a t.world
attempted k (ok b w) s t a r e = subst (λ o. RepliedTo k s.world (value_or a o) (world_of w o)) e r
attempted k (err x w) s t a r e = subst (λ o. RepliedTo k s.world (value_or a o) (world_of w o)) e r

pub Moves-attempt : {W A : Type 0} (k : Call W A) → Moves (RepliedTo k) (attempt k)
unfolding attempt
Moves-attempt k = record { at = λ s t a e. attempted k (k s.world) s t a refl e }

pub Moves-raise :
    {W A : Type 0} {R : W → A → W → Type 0} (x : Error) → Moves R (raise {W = W} {A = A} x)
unfolding raise
Moves-raise x = record { at = λ s t a e. absurd (cc) }

pub Moves-mono :
    {W A : Type 0} {Q R : W → A → W → Type 0} (m : M W A)
    → Moves Q m
    → ((w v : W) (a : A) → Q w a v → R w a v)
    → Moves R m
Moves-mono m h f = record { at = λ s t a e. f s.world t.world a (h.at s t a e) }

-- What a tried step says if it returns.
abbrev pub OrFailed : {W A : Type 0} → (W → A → W → Type 0) → W → Tried A → W → Type 0
OrFailed R w (returned a) v = R w a v
OrFailed R w (failed x) v = Unit {0}

module _ {W A : Type 0} (R : W → A → W → Type 0) where
  -- A step that was tried did what it does if it returned.
  tried_moves :
      (o : Outcome W A) (s t : State W) (a : Tried A)
      → ((u : State W) (b : A) → o ≡ done b u → R s.world b u.world)
      → elim o [ done b u ↦ done (returned b) u | fail x u ↦ done (failed x) u | panic ↦ panic ]
        ≡ done a t
      → OrFailed R s.world a t.world
  tried_moves (done b u) s t a h e =
      subst (λ x. OrFailed R s.world x t.world) (ap (value_or (returned b)) e)
        (subst (λ w. R s.world b w) (ap (world_of s.world) e) (h u b refl))
  tried_moves (fail x u) s t a h e =
      subst (λ x. OrFailed R s.world x t.world) (ap (value_or (failed x)) e) tt
  tried_moves panic s t a h e = absurd (cc)

  pub Moves-tried : (m : M W A) → Moves R m → Moves (OrFailed R) (tried m)
  unfolding tried
  Moves-tried m moves = record {
    at = λ s t a e. tried_moves (m s) s t a (λ u b d. moves.at s u b d) e;
  }
